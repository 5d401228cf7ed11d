-- ===== src/PageFault/Failures.antt =====
-- `page_fault_handler` of kernel/memory/page_fault.c where it does not resolve the fault.
use kernel_v.Base.{
  [], ℕ, ◌+◌, ◌*◌, ◌/◌, ◌^◌, ◌≤◌, ◌<◌, ◌≡◌, ◌⊎◌, refl, ap, ◌∙◌, arith, List, Bool, true, false,
  none, some, inl, inr,
}
use kernel_v.Kernel.{Kernel}
use kernel_v.Kernel.Said.{Said, Said-trans, Said-refl, say-Said, Said-if}
use kernel_v.PageFault.{
  stops, faults, PageFaultStack, page_fault_handler, dispatch, in_heap, in_guard_page, grows_stack,
  say_error_code, say_if, after_store, grow_heap, grow_stack, announce, set_vram, overflow_screen,
}
use kernel_v.Paging.Virtual.{store_virtual, store_mapped}
use kernel_v.PageFault.Handler.{IsGrowth, heap, stack, announced, handled_heap, handled_stack}
use kernel_v.PageFault.Supply.{with_frame-null}
use kernel_v.Paging.Memory.{load32, load32-store32, ram-store32, store32, store32-ram}
use kernel_v.Paging.Safe.{IsSafe, diag-IsSafe}
use kernel_v.Paging.Total.{Stopped, Stopped-diag}
use kernel_v.Paging.Walk.{walk}
use kernel_v.Pmm.Supply.{free_frames, pmm_alloc_frame-none}

grow_heap-Stopped :
    (a : ℕ) (k : Kernel)
    → IsSafe k
    → free_frames k ≡ 0
    → (k' : Kernel) × (grow_heap a k ≡ stops k') × Stopped k k'
unfolding grow_heap
grow_heap-Stopped a k s none_left =
    let stop =
      with_frame-null _ _ a _ (diag-IsSafe _ k s.mode s) (pmm_alloc_frame-none _ none_left) in
    (stop.0, stop.1, Stopped-diag _ stop.2)

grow_stack-Stopped :
    (frame : PageFaultStack) (a : ℕ) (k : Kernel)
    → IsSafe k
    → free_frames k ≡ 0
    → (k' : Kernel) × (grow_stack frame a k ≡ stops k') × Stopped k k'
unfolding grow_stack
grow_stack-Stopped frame a k s none_left =
    let stop =
      with_frame-null _ _ a _ (diag-IsSafe _ k s.mode s) (pmm_alloc_frame-none _ none_left) in
    (stop.0, stop.1, Stopped-diag _ stop.2)

-- From a safe state with no frame left, a fault in the heap, or in the stack above its guard page and
-- within 32 bytes below the stack pointer of the frame, ends in a panic: the machine stops with
-- interrupts off and memory as it was.
pub page_fault_handler-Stopped :
    (frame : PageFaultStack) (a esp ebp : ℕ) (k : Kernel)
    → IsSafe k
    → IsGrowth frame a
    → free_frames k ≡ 0
    → (k' : Kernel) × (page_fault_handler frame a esp ebp k ≡ stops k') × Stopped k k'
page_fault_handler-Stopped frame a esp ebp k s (heap low high) none_left =
    let stop =
      grow_heap-Stopped a (announced frame a esp ebp k) (diag-IsSafe _ k s.mode s) none_left in
    (stop.0, handled_heap frame a esp ebp k low high ∙ stop.1, Stopped-diag _ stop.2)
page_fault_handler-Stopped frame a esp ebp k s (stack low high word_esp gap below) none_left =
    let stop =
      grow_stack-Stopped frame a (announced frame a esp ebp k) (diag-IsSafe _ k s.mode s)
        none_left in
    (
      stop.0,
      handled_stack frame a esp ebp k low high word_esp gap below ∙ stop.1,
      Stopped-diag _ stop.2,
    )

say_if-Said : (asked : Bool) (fmt : List ℕ) (k : Kernel) → Said k (say_if asked fmt k)
unfolding say_if
say_if-Said asked fmt k = Said-if asked (say-Said fmt [] (Said-refl k)) (Said-refl k)

say_error_code-Said : (error_code : ℕ) (k : Kernel) → Said k (say_error_code error_code k)
unfolding say_error_code
say_error_code-Said error_code k = Said-trans (say_if-Said _ _ k) (
    Said-trans (say_if-Said _ _ _)
      (Said-trans (say_if-Said _ _ _) (Said-trans (say_if-Said _ _ _) (say_if-Said _ _ _))))

-- Addresses that are in none of the regions, and those of the stack that are not close enough below
-- its pointer.
pub data IsStray (frame : PageFaultStack) (a : ℕ) : Type 0 where
  below_heap : a < 0xC1000000 → IsStray frame a
  below_stack : 0xC2000000 ≤ a → a < 0xC2FF0000 → IsStray frame a
  above_stack : 0xC3000000 ≤ a → IsStray frame a
  off_pointer :
      0xC2FF1000 ≤ a → frame.esp < 2 ^ 32 → (a + 32 < frame.esp) ⊎ (frame.esp ≤ a) → IsStray frame a

stray :
    (frame : PageFaultStack) (a : ℕ)
    → IsStray frame a
    → (in_guard_page a ≡ false) × (in_heap a ≡ false) × (grows_stack a frame.esp ≡ false)
stray frame a (below_heap h) = (ground arith, ground arith, ground arith)
stray frame a (below_stack h h') = (ground arith, ground arith, ground arith)
stray frame a (above_stack h) = (ground arith, ground arith, ground arith)
stray frame a (off_pointer h w (inl gap)) = (ground arith, ground arith, ground arith)
stray frame a (off_pointer h w (inr above)) = (ground arith, ground arith, ground arith)

-- A fault outside the heap and the stack, or in the stack above its guard page but not within 32
-- bytes below the stack pointer of the frame, stops the machine with interrupts off, and nothing but
-- the messages has changed.
pub page_fault_handler_stray :
    (frame : PageFaultStack) (a esp ebp : ℕ) (k : Kernel)
    → IsStray frame a
    → (k' : Kernel) × (page_fault_handler frame a esp ebp k ≡ stops k')
      × (k' ≡ record k { diag = k'.diag })
      × (k'.diag.interrupts ≡ false)
unfolding page_fault_handler dispatch
page_fault_handler_stray frame a esp ebp k outside =
    let tests = stray frame a outside in
    let said = say_error_code-Said frame.error_code (announced frame a esp ebp k) in
    (
      say_error_code frame.error_code (announced frame a esp ebp k),
      rw (tests.0, tests.1, tests.2) refl,
      said.kept,
      said.interrupts,
    )

-- In the guard page, by whether address 0 is mapped. Where it is not, the store through the null
-- pointer faults. Where it is, to an entry `pte`, that store overwrites the first word of that frame,
-- no fault comes of it, and the machine stops with interrupts off; every other byte of memory is as
-- it was.
pub page_fault_handler_guard :
    (frame : PageFaultStack) (a esp ebp : ℕ) (k : Kernel)
    → 0xC2FF0000 ≤ a
    → a < 0xC2FF1000
    → (walk k 0 ≡ none → (k' : Kernel) × (page_fault_handler frame a esp ebp k ≡ faults k'))
      × ((pte : ℕ)
          → walk k 0 ≡ some pte
          → (k' : Kernel) × (page_fault_handler frame a esp ebp k ≡ stops k')
            × (load32 (pte / 4096 * 4096) k' ≡ 123)
            × ((x : ℕ) → (x < pte / 4096 * 4096) ⊎ (pte / 4096 * 4096 + 4 ≤ x) → k'.ram x ≡ k.ram x)
            × (k'.diag.interrupts ≡ false))
unfolding page_fault_handler dispatch store_virtual store_mapped after_store
page_fault_handler_guard frame a esp ebp k low high =
    let guard : in_guard_page a ≡ true = ground arith in
    let outside : in_heap a ≡ false = ground arith in
    let no_growth : grows_stack a frame.esp ≡ false = ground arith in
    let k₁ : Kernel =
      set_vram (overflow_screen k.diag.console.screen.vram)
        (record k { diag = record k.diag { interrupts = false } }) in
    (
      λ absent. (k₁, rw (guard, absent) refl),
      λ pte present.
          let at : ℕ = pte / 4096 * 4096 in
          let zero_at : at + 0 ≡ at = omega arith in
          let k₂ : Kernel = store32 (at + 0) 123 k₁ in
          let k₃ : Kernel = announce frame a esp ebp k₂ in
          let said = say_error_code-Said frame.error_code k₃ in
          let k₄ : Kernel = say_error_code frame.error_code k₃ in
          let same : k₄.ram ≡ k₂.ram = ap (λ (q : Kernel). q.ram) said.kept in
          (
            k₄,
            rw (guard, present, outside, no_growth) refl,
            ap (λ (m : ℕ → ℕ). load32 at (record k₄ { ram = m })) same
                ∙ ap (λ (z : ℕ). load32 at (store32 z 123 k₁)) zero_at
                ∙ load32-store32 at 123 k₁,
            λ x off.
                ap (λ (m : ℕ → ℕ). m x) same
                ∙ ap (λ (z : ℕ). (store32 z 123 k₁).ram x) zero_at
                ∙ ram-store32 at 123 x k₁ off,
            said.interrupts ∙ ap (λ (q : Kernel). q.diag.interrupts) (store32-ram (at + 0) 123 k₁),
          ),
    )
