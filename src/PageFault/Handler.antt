-- ===== src/PageFault/Handler.antt =====
-- `page_fault_handler` of kernel/memory/page_fault.c: which faults it resolves, and how.
use kernel_v.Base.{ℕ, ◌+◌, ◌^◌, ◌≤◌, ◌<◌, ◌≡◌, refl, ◌∙◌, arith, true, false}
use kernel_v.Kernel.{Kernel}
use kernel_v.PageFault.{
  resumes, PageFaultStack, page_fault_handler, dispatch, in_heap, in_guard_page, grows_stack,
  grow_heap, grow_stack, announce,
}
use kernel_v.PageFault.Supply.{with_frame-Demanded}
use kernel_v.Paging.Demand.{Enough, Demanded, Demanded-diag}
use kernel_v.Paging.Safe.{IsSafe, diag-IsSafe}

-- The faults of the two demand-paged regions: any in the heap, and in the stack above the guard page
-- those in the 32 bytes below the stack pointer of the frame.
pub data IsGrowth (frame : PageFaultStack) (a : ℕ) : Type 0 where
  heap : 0xC1000000 ≤ a → a < 0xC2000000 → IsGrowth frame a
  stack :
      0xC2FF1000 ≤ a
      → a < 0xC3000000
      → frame.esp < 2 ^ 32
      → frame.esp ≤ a + 32
      → a < frame.esp
      → IsGrowth frame a

-- The state that the branches work on.
abbrev pub announced : PageFaultStack → (fault_address esp ebp : ℕ) → Kernel → Kernel
announced frame a esp ebp k =
    announce frame a esp ebp (record k { diag = record k.diag { interrupts = false } })

pub handled_heap :
    (frame : PageFaultStack) (a esp ebp : ℕ) (k : Kernel)
    → 0xC1000000 ≤ a
    → a < 0xC2000000
    → page_fault_handler frame a esp ebp k ≡ grow_heap a (announced frame a esp ebp k)
unfolding page_fault_handler dispatch
handled_heap frame a esp ebp k low high =
    let guard : in_guard_page a ≡ false = ground arith in
    let inside : in_heap a ≡ true = ground arith in rw (guard, inside) refl

pub handled_stack :
    (frame : PageFaultStack) (a esp ebp : ℕ) (k : Kernel)
    → 0xC2FF1000 ≤ a
    → a < 0xC3000000
    → frame.esp < 2 ^ 32
    → frame.esp ≤ a + 32
    → a < frame.esp
    → page_fault_handler frame a esp ebp k ≡ grow_stack frame a (announced frame a esp ebp k)
unfolding page_fault_handler dispatch
handled_stack frame a esp ebp k low high word_esp gap below =
    let guard : in_guard_page a ≡ false = ground arith in
    let outside : in_heap a ≡ false = ground arith in
    let grows : grows_stack a frame.esp ≡ true = ground arith in rw (guard, outside, grows) refl

grow_heap-Demanded :
    (a : ℕ) (k : Kernel)
    → IsSafe k
    → a < 2 ^ 32
    → Enough a k
    → (k' : Kernel) × (grow_heap a k ≡ resumes k') × Demanded a k k'
unfolding grow_heap
grow_heap-Demanded a k s h enough =
    let given = with_frame-Demanded _ _ a _ (diag-IsSafe _ k s.mode s) h enough in
    (given.0, given.1, Demanded-diag a _ given.2)

grow_stack-Demanded :
    (frame : PageFaultStack) (a : ℕ) (k : Kernel)
    → IsSafe k
    → a < 2 ^ 32
    → Enough a k
    → (k' : Kernel) × (grow_stack frame a k ≡ resumes k') × Demanded a k k'
unfolding grow_stack
grow_stack-Demanded frame a k s h enough =
    let given = with_frame-Demanded _ _ a _ (diag-IsSafe _ k s.mode s) h enough in
    (given.0, given.1, Demanded-diag a _ given.2)

-- From a safe state with two frames left, or one and the page's table there, a fault at an address of
-- the heap, or in the stack above its guard page and within 32 bytes below the stack pointer of the
-- frame, ends with the handler returning. The page of the address is then mapped writable to a frame
-- that was not used, every other page as before, the state is safe again, and no used page was
-- written but those of the directory, the tables and the bitmap.
pub page_fault_handler-Demanded :
    (frame : PageFaultStack) (a esp ebp : ℕ) (k : Kernel)
    → IsSafe k
    → IsGrowth frame a
    → Enough a k
    → (k' : Kernel) × (page_fault_handler frame a esp ebp k ≡ resumes k') × Demanded a k k'
page_fault_handler-Demanded frame a esp ebp k s (heap low high) enough =
    let given =
      grow_heap-Demanded a (announced frame a esp ebp k) (diag-IsSafe _ k s.mode s)
        (omega (arith, high)) enough in
    (given.0, handled_heap frame a esp ebp k low high ∙ given.1, Demanded-diag a _ given.2)
page_fault_handler-Demanded frame a esp ebp k s (stack low high word_esp gap below) enough =
    let given =
      grow_stack-Demanded frame a (announced frame a esp ebp k) (diag-IsSafe _ k s.mode s)
        (omega (arith, high)) enough in
    (
      given.0,
      handled_stack frame a esp ebp k low high word_esp gap below ∙ given.1,
      Demanded-diag a _ given.2,
    )
