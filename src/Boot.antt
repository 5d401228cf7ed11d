-- ===== src/Boot.antt =====
-- kernel/main/kernel.c: how the kernel starts.
pub mod Stack
pub mod Main
pub mod High
pub mod Overflow
pub mod Crumbs
pub mod Entry
mod Tests
pub mod Debug
use kernel_v.Base.{
  ℕ, zero, suc, ◌+◌, ◌-◌, ◌*◌, List, [], ◌∷◌, Option, none, some, u32, bit_or, ltb, ◌==◌,
  if◌then◌else◌, codes,
}
use kernel_v.Kernel.{Kernel, say}
use kernel_v.PageFault.{kernel_stack_bottom_virt, kernel_stack_top_virt}
use kernel_v.Panik.{Diag, Outcome, returns, halts, panik}
use kernel_v.Paging.{paging_map_page, page_present, page_write}
use kernel_v.Pmm.{page_size, pmm_alloc_frame, pmm_set_frame_bitmap}
use kernel_v.Printk.Format.{word}

-- A stage of the start goes on, halts in a panic, or never ends.
pub data Stage (A : Type 0) : Type 0 where
  goes : A → Stage A
  halted : Kernel → Stage A
  endless : Stage A

infixl 25 ◌>>>=◌
pub ◌>>>=◌ : {A B : Type 0} → Stage A → (A → Stage B) → Stage B
goes a >>>= next = next a
halted k >>>= next = halted k
endless >>>= next = endless

pub of_option : Option Kernel → Stage Kernel
of_option (some k) = goes k
of_option none = endless

pub of_outcome : Outcome Kernel → Stage Kernel
of_outcome (returns k) = goes k
of_outcome (halts k) = halted k

pub of_panik : Outcome Diag → Kernel → Stage Kernel
of_panik (returns d) k = goes (record k { diag = d })
of_panik (halts d) k = halted (record k { diag = d })

abbrev pub stack_size : ℕ
stack_size = kernel_stack_top_virt - kernel_stack_bottom_virt

-- `if (!phys_frame) { … }`
pub check_stack_frame : (virt phys_frame : ℕ) → Kernel → Stage Kernel
check_stack_frame virt phys_frame k =
    let k₁ = say (codes "Failed to allocate stack frame for virt=0x%08x\n") (word virt ∷ []) k in
    if phys_frame == 0
    then of_panik (panik (codes "Stack frame allocation failed") [] k₁.diag) k₁
    else goes k

-- A round of the loop that maps the stack.
pub map_stack_page : (off : ℕ) → Kernel → Stage Kernel
map_stack_page off k =
    let virt = u32 (kernel_stack_bottom_virt + off) in
    let phys_frame = (pmm_alloc_frame k).0 in
    check_stack_frame virt phys_frame (pmm_alloc_frame k).1 >>>= λ k₁.
    of_outcome (
      paging_map_page virt phys_frame (bit_or page_present page_write) (
        say (codes "Mapping stack page: virt=0x%08x phys=0x%08x\n")
          (word virt ∷ word phys_frame ∷ []) k₁))
    >>>= λ k₂. of_option (pmm_set_frame_bitmap phys_frame (u32 (phys_frame + page_size)) k₂)

-- The loop from `off` on, by the rounds left.
pub map_stack_from : (rounds off : ℕ) → Kernel → Stage Kernel
map_stack_from zero off k = endless
map_stack_from (suc rounds) off k =
    let rest = map_stack_page off k >>>= map_stack_from rounds (u32 (off + page_size)) in
    if ltb off stack_size then rest else goes k

-- The first page, at KERNEL_STACK_BOTTOM_VIRT, stays out: it is the guard page.
pub map_stack : Kernel → Stage Kernel
map_stack k = map_stack_from 16 page_size k
