-- ===== src/Boot/High.antt =====
-- `high_stack_entry` of kernel/main/kernel.c, which runs on the stack that `kernel_main` maps.
pub mod Heap
pub mod Virtual
use kernel_v.Base.{ℕ, ◌+◌, List, [], ◌∷◌, codes}
use kernel_v.Kernel.{Kernel, say}
use kernel_v.PageFault.{
  Handled, resumes, PageFaultStack, kernel_heap_start, set_cell, set_vram, after_store,
}
use kernel_v.Paging.Virtual.{store_virtual}
use kernel_v.PageFault.Access.{access, then_resume}
use kernel_v.Printk.Format.{word}

-- A store of the program: where its page is not mapped it faults, and is made again once the handler
-- has returned. `frame`, `esp` and `ebp` are what the handler finds.
pub store_faulting : PageFaultStack → (esp ebp addr value : ℕ) → Kernel → Handled
store_faulting frame esp ebp addr value k =
    then_resume (λ k'. after_store resumes k' (store_virtual addr value k'))
      (access frame esp ebp addr k)

pub before_heap : (cur_esp : ℕ) → Kernel → Kernel
before_heap cur_esp k =
    let k₁ = say (codes "Switched to high virtual stack!\n") [] k in
    let k₂ = say (codes "ESP after stack switch: 0x%08x\n") (word cur_esp ∷ []) k₁ in
    let k₃ = say (codes "Triggering demand-paged heap access...\n") [] k₂ in
    say (codes "Before accessing heap") [] k₃

-- `tss_cr3` is `tss_df.cr3`.
pub after_heap : (tss_cr3 : ℕ) → Kernel → Kernel
after_heap tss_cr3 k =
    let k₁ = say (codes "Heap page mapped and write succeeded!\n") [] k in
    let k₂ = say (codes "Testing stack overflow...\n") [] k₁ in
    let k₃ = say (codes "Current page directory CR3: 0x%08x\n") (word tss_cr3 ∷ []) k₂ in
    let k₄ = set_vram (set_cell 0 0x4F41 k₃.diag.console.screen.vram) k₃ in
    let k₅ = say (codes "VGA memory test: wrote to 0xB8000\n") [] k₄ in
    let k₆ = say (codes "About to trigger double fault test...\n") [] k₅ in
    let k₇ = say (codes "Testing double fault handler directly...\n") [] k₆ in
    say (codes "If you see this, double fault handler failed!\n") [] k₇

abbrev pub heap_ptr : ℕ
heap_ptr = kernel_heap_start + 0x1234

-- Up to the call of `test_stack_overflow`.
pub high_stack_entry : PageFaultStack → (esp ebp cur_esp tss_cr3 : ℕ) → Kernel → Handled
high_stack_entry frame esp ebp cur_esp tss_cr3 k =
    then_resume (λ k'. resumes (after_heap tss_cr3 k'))
      (store_faulting frame esp ebp heap_ptr 42 (before_heap cur_esp k))
