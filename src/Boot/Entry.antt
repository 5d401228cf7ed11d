-- ===== src/Boot/Entry.antt =====
-- kernel/arch/x86/kernel_entry.asm: the stacks of the kernel, and the switch from the one to the other.
pub mod Switched
pub mod Overwritten
use kernel_v.Base.{ℕ, ◌+◌, ◌-◌, Option, none, some, ◌>>=◌, sub32}
use kernel_v.Kernel.{Kernel}
use kernel_v.Paging.Memory.{store32}
use kernel_v.Paging.Virtual.{load_virtual, store_virtual}

-- The stack pointer and the address of the next instruction.
pub record Registers : Type 0 where
  pub esp : ℕ
  pub eip : ℕ

-- `_start`, up to the first instruction of `kernel_main`; paging is off. The linker gives both
-- addresses.
unfoldable pub kernel_entry : (kernel_main return_address : ℕ) → Kernel → Registers × Kernel
kernel_entry kernel_main return_address k =
    let esp = 0x9FB00 - 4 in (record { esp = esp; eip = kernel_main }, store32 esp return_address k)

-- With paging on; `none` where the store faults.
pub push : (value esp : ℕ) → Kernel → Option (ℕ × Kernel)
push value esp k = do k' ← store_virtual (sub32 esp 4) value k; some (sub32 esp 4, k')

-- A call with two arguments.
pub call_with :
    (function first second return_address esp : ℕ) → Kernel → Option (Registers × Kernel)
call_with function first second return_address esp k = push second esp k >>= λ r₁.
    push first r₁.0 r₁.1 >>= λ r₂.
    push return_address r₂.0 r₂.1 >>= λ r₃. some (record { esp = r₃.0; eip = function }, r₃.1)

-- Its three instructions.
pub switch_to_high_stack : Registers → Kernel → Option Registers
switch_to_high_stack r k = do
  eax ← load_virtual (r.esp + 8) k
  esp ← load_virtual (r.esp + 4) k
  some (record { esp = esp; eip = eax })
