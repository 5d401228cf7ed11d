-- ===== src/Tables/Flush.antt =====
-- kernel/arch/x86/gdt_flush.asm and kernel/arch/x86/idt_flush.asm: the loads of the table registers.
use kernel_v.Base.{ℕ, ◌+◌, ◌*◌, ◌/◌, ◌^◌, ◌<◌, ◌≡◌, ap₂, ◌∙◌, arith, u8, inl}
use kernel_v.Kernel.{Kernel, store8}
use kernel_v.Paging.Memory.{load32, store32, load32-store32, ram-store32}
use kernel_v.Tables.Gdt.{GdtPtr}
use kernel_v.Tables.Idt.{IdtPtr}

pub load16 : ℕ → Kernel → ℕ
load16 addr k = u8 (k.ram addr) + u8 (k.ram (addr + 1)) * 2 ^ 8

-- The six bytes at `eax`: the limit, then the base.
pub gdt_flush : (eax : ℕ) → Kernel → GdtPtr
gdt_flush eax k = record { limit = load16 eax k; base = load32 (eax + 2) k }

pub idt_flush : (eax : ℕ) → Kernel → IdtPtr
idt_flush eax k = record { limit = load16 eax k; base = load32 (eax + 2) k }

-- A packed struct of a limit and a base in memory.
pub store_ptr : (at limit base : ℕ) → Kernel → Kernel
store_ptr at limit base k =
    store32 (at + 2) base (store8 (at + 1) (limit / 2 ^ 8) (store8 at limit k))

load16-store_ptr :
    (at limit base : ℕ) (k : Kernel)
    → limit < 2 ^ 16
    → load16 at (store_ptr at limit base k) ≡ limit
unfolding load16 store_ptr
load16-store_ptr at limit base k h =
    let k' : Kernel = store8 (at + 1) (limit / 2 ^ 8) (store8 at limit k) in
    rw
      (
        ram-store32 (at + 2) base at k' (inl (omega arith)),
        ram-store32 (at + 2) base (at + 1) k' (inl (omega arith)),
      )
      (ground (arith, h))

load32-store_ptr :
    (at limit base : ℕ) (k : Kernel)
    → base < 2 ^ 32
    → load32 (at + 2) (store_ptr at limit base k) ≡ base
unfolding store_ptr
load32-store_ptr at limit base k h = load32-store32 (at + 2) base _ ∙ omega (arith, h)

-- What the registers are loaded with is the struct that was stored.
pub gdt_flush-store_ptr :
    (at : ℕ) (p : GdtPtr) (k : Kernel)
    → p.limit < 2 ^ 16
    → p.base < 2 ^ 32
    → gdt_flush at (store_ptr at p.limit p.base k) ≡ p
unfolding gdt_flush
gdt_flush-store_ptr at p k hl hb =
    ap₂ (λ (l b : ℕ). record { limit = l; base = b }) (load16-store_ptr at p.limit p.base k hl)
      (load32-store_ptr at p.limit p.base k hb)

pub idt_flush-store_ptr :
    (at : ℕ) (p : IdtPtr) (k : Kernel)
    → p.limit < 2 ^ 16
    → p.base < 2 ^ 32
    → idt_flush at (store_ptr at p.limit p.base k) ≡ p
unfolding idt_flush
idt_flush-store_ptr at p k hl hb =
    ap₂ (λ (l b : ℕ). record { limit = l; base = b }) (load16-store_ptr at p.limit p.base k hl)
      (load32-store_ptr at p.limit p.base k hb)
