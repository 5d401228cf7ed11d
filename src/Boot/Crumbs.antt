-- ===== src/Boot/Crumbs.antt =====
-- kernel/arch/x86/double_fault_handler.asm: what the handler leaves behind.
pub mod Found
pub mod Lost
use kernel_v.Base.{ℕ, Option, none, some, ◌>>=◌, false}
use kernel_v.Kernel.{Kernel}
use kernel_v.PageFault.{Handled, stops, faults, set_cell, set_vram}
use kernel_v.Paging.Virtual.{store_virtual}

-- The three magic values.
pub leave_crumbs : Kernel → Option Kernel
leave_crumbs k = do
  k₁ ← store_virtual 0x15000 0xDEADBEEF k
  k₂ ← store_virtual 0x15004 0xCAFEBABE k₁
  store_virtual 0x15008 0x12345678 k₂

-- 'D' and 'F' in white on red.
pub mark_screen : (ℕ → ℕ) → ℕ → ℕ
mark_screen m = set_cell 1 0x4F46 (set_cell 0 0x4F44 m)

pub halt_marked : (before : Kernel) → Option Kernel → Handled
halt_marked before none = faults before
halt_marked before (some k) = stops (set_vram (mark_screen k.diag.console.screen.vram) k)

-- The instructions of the handler, up to `.safe_halt`. Whether a double fault enters it is a matter
-- of the tables.
pub double_fault_handler : Kernel → Handled
double_fault_handler k =
    let k₁ = record k { diag = record k.diag { interrupts = false } } in
    halt_marked k₁ (leave_crumbs k₁)
