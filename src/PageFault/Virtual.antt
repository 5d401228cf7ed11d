-- ===== src/PageFault/Virtual.antt =====
-- `page_fault_handler` of kernel/memory/page_fault.c with the accesses to the directory and the tables
-- made through the tables.
use kernel_v.Base.{
  ℕ, ◌^◌, ◌<◌, ◌≡◌, refl, arith, List, [], ◌∷◌, Option, none, some, ◌==◌, if◌then◌else◌, codes,
  bit_or, inl, inr, Bool-cases, true, false, subst,
}
use kernel_v.Kernel.{Kernel, say}
use kernel_v.PageFault.{
  Handled, stops, faults, of_outcome, PageFaultStack, supply, with_frame, grow_heap, grow_stack,
  dispatch, page_fault_handler, after_store, in_heap, in_guard_page, grows_stack, announce,
  say_error_code, set_vram, overflow_screen,
}
use kernel_v.Panik.{Diag, Outcome, returns, halts, normal, panik}
use kernel_v.Panik.Calls.{Ends, panik-Ends}
use kernel_v.Paging.{page_present, page_write}
use kernel_v.Paging.Frames.{pmm_alloc_frame-IsSafe}
use kernel_v.Paging.Virtual.{store_virtual, paging_map_page_virtual}
use kernel_v.Paging.Virtual.Demand.{Reaches, Reaches-diag, demand_virtual}
use kernel_v.Pmm.{pmm_alloc_frame}
use kernel_v.Printk.Format.{Arg, word}

-- A call that faults inside the handler.
pub of_access : Kernel → Option (Outcome Kernel) → Handled
of_access k none = faults k
of_access k (some o) = of_outcome o

pub supply_virtual : Outcome Diag → (fault_address new_frame : ℕ) → Kernel → Handled
supply_virtual (returns d) fault_address new_frame k = of_access k (
    paging_map_page_virtual fault_address new_frame (bit_or page_present page_write)
      (record k { diag = d }))
supply_virtual (halts d) fault_address new_frame k = stops (record k { diag = d })

pub with_frame_virtual : List ℕ → List Arg → (fault_address : ℕ) → ℕ × Kernel → Handled
with_frame_virtual fmt args fault_address (new_frame, k) =
    if new_frame == 0
    then supply_virtual (panik fmt args k.diag) fault_address new_frame k
    else of_access k
        (paging_map_page_virtual fault_address new_frame (bit_or page_present page_write) k)

pub grow_heap_virtual : (fault_address : ℕ) → Kernel → Handled
grow_heap_virtual a k =
    let k₁ =
      say
        (codes "[PAGE FAULT] Address within kernel heap region: allocating and mapping new page.\n")
        [] k in
    with_frame_virtual
      (codes "Out of memory: Unable to allocate frame for page fault at address 0x%x") (word a ∷ [])
      a (pmm_alloc_frame k₁)

pub grow_stack_virtual : PageFaultStack → (fault_address : ℕ) → Kernel → Handled
grow_stack_virtual frame a k =
    let k₁ =
      say (codes "[PF] Stack growth: mapping new stack page at 0x%x (esp=0x%x)\n")
        (word a ∷ word frame.esp ∷ []) k in
    with_frame_virtual (codes "Out of memory in stack PF recovery") [] a (pmm_alloc_frame k₁)

pub dispatch_virtual : PageFaultStack → (fault_address esp ebp : ℕ) → Kernel → Handled
dispatch_virtual frame a esp ebp k =
    let k₁ = announce frame a esp ebp k in
    if in_heap a
    then grow_heap_virtual a k₁
    else (if grows_stack a frame.esp
        then grow_stack_virtual frame a k₁
        else stops (say_error_code frame.error_code k₁))

pub page_fault_handler_virtual : PageFaultStack → (fault_address esp ebp : ℕ) → Kernel → Handled
page_fault_handler_virtual frame a esp ebp k =
    let k₁ = record k { diag = record k.diag { interrupts = false } } in
    let k₂ = set_vram (overflow_screen k₁.diag.console.screen.vram) k₁ in
    if in_guard_page a
    then after_store (dispatch_virtual frame a esp ebp) k₂ (store_virtual 0x00000000 123 k₂)
    else dispatch_virtual frame a esp ebp k₁

-- A panic that halts.
supply_same :
    (o : Outcome Diag) (d : Diag) (a f : ℕ) (k : Kernel)
    → Ends normal d o
    → supply_virtual o a f k ≡ supply o a f k
unfolding supply_virtual supply
supply_same (halts e) d a f k off = refl
supply_same (returns e) d a f k off = absurd off

with_frame_same :
    (fmt : List ℕ) (args : List Arg) (a : ℕ) (k : Kernel)
    → Reaches a k
    → a < 2 ^ 32
    → with_frame_virtual fmt args a (pmm_alloc_frame k) ≡ with_frame fmt args a (pmm_alloc_frame k)
unfolding with_frame_virtual with_frame of_access
with_frame_same fmt args a k e h = elim (Bool-cases ((pmm_alloc_frame k).0 == 0)) [
  | inl null ↦
      let d : Diag = (pmm_alloc_frame k).1.diag in
      let mode = (pmm_alloc_frame-IsSafe k e.safe).mode in
      rw null (
        supply_same (panik fmt args d) d a (pmm_alloc_frame k).0 (pmm_alloc_frame k).1
          (subst (λ m. Ends m d (panik fmt args d)) mode (panik-Ends fmt args d).0))
  | inr given ↦
      let same =
        demand_virtual a k (pmm_alloc_frame k).1.diag e ((pmm_alloc_frame-IsSafe k e.safe).mode) h
          (ground arith) in
      rw (given, same) refl
]

dispatch_same :
    (frame : PageFaultStack) (a esp ebp : ℕ) (k : Kernel)
    → Reaches a k
    → a < 2 ^ 32
    → dispatch_virtual frame a esp ebp k ≡ dispatch frame a esp ebp k
unfolding dispatch_virtual dispatch grow_heap_virtual grow_heap grow_stack_virtual grow_stack
dispatch_same frame a esp ebp k e h =
    let mode = e.safe.mode in
    elim (Bool-cases (in_heap a)) [
      | inl heap ↦ rw heap (with_frame_same _ _ a _ (Reaches-diag a _ k mode e) h)
      | inr outside ↦ elim (Bool-cases (grows_stack a frame.esp)) [
        | inl grows ↦ rw (outside, grows) (with_frame_same _ _ a _ (Reaches-diag a _ k mode e) h)
        | inr stray ↦ rw (outside, stray) refl
      ]
    ]

-- In the guard page nothing is mapped.
dispatch_guard :
    (frame : PageFaultStack) (a esp ebp : ℕ) (k : Kernel)
    → in_guard_page a ≡ true
    → dispatch_virtual frame a esp ebp k ≡ dispatch frame a esp ebp k
unfolding dispatch_virtual dispatch
dispatch_guard frame a esp ebp k guard =
    let outside : in_heap a ≡ false = ground (arith, guard) in
    let stray : grows_stack a frame.esp ≡ false = ground (arith, guard) in rw (outside, stray) refl

after_store_guard :
    (frame : PageFaultStack) (a esp ebp : ℕ) (k : Kernel) (stored : Option Kernel)
    → in_guard_page a ≡ true
    → after_store (dispatch_virtual frame a esp ebp) k stored
      ≡ after_store (dispatch frame a esp ebp) k stored
unfolding after_store
after_store_guard frame a esp ebp k none guard = refl
after_store_guard frame a esp ebp k (some k') guard = dispatch_guard frame a esp ebp k' guard

-- From a safe state with the first 4 MB mapped to themselves, the tables in them, and two of their
-- frames free if the page of the address has no table: whatever the frame, the address and the
-- registers, the handler with all accesses to the directory and the tables made through the tables
-- ends as the handler on memory does, whether it maps a page, finds no frame, or stops.
pub page_fault_handler_virtual_lem :
    (frame : PageFaultStack) (a esp ebp : ℕ) (k : Kernel)
    → Reaches a k
    → a < 2 ^ 32
    → page_fault_handler_virtual frame a esp ebp k ≡ page_fault_handler frame a esp ebp k
unfolding page_fault_handler_virtual page_fault_handler
page_fault_handler_virtual_lem frame a esp ebp k e h = elim (Bool-cases (in_guard_page a)) [
  | inl guard ↦ rw guard (after_store_guard frame a esp ebp _ _ guard)
  | inr off ↦ rw off (dispatch_same frame a esp ebp _ (Reaches-diag a _ k e.safe.mode e) h)
]
