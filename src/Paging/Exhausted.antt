-- ===== src/Paging/Exhausted.antt =====
-- `paging_map_page` of kernel/memory/paging.c where no frame is left for a table.
use kernel_v.Base.{
  ℕ, ◌%◌, ◌/◌, ◌^◌, ◌≤◌, ◌≡◌, refl, subst, ◌∙◌, arith, ◌==◌, true, false, bit_and, [], codes,
}
use kernel_v.Base.Bits.{bit_and_low}
use kernel_v.Kernel.{Kernel}
use kernel_v.Panik.{Diag, Outcome, returns, halts, normal, panik}
use kernel_v.Panik.Calls.{Ends, final, panik-Ends}
use kernel_v.Paging.{paging_map_page, map_entry, link_table, with_new_table, after_panik}
use kernel_v.Paging.Map.{pde}
use kernel_v.Pmm.{pmm_alloc_frame}
use kernel_v.Pmm.Alloc.{pmm_alloc_frame-null}

-- What halts in normal mode.
after_panik-halts :
    (o : Outcome Diag) (d : Diag) (next : Kernel → Kernel) (k : Kernel)
    → Ends normal d o
    → (final o).panik_state.panik_called ≡ 1
    → (k' : Kernel) × (after_panik o next k ≡ halts k')
      × (k'.ram ≡ k.ram)
      × (k'.diag.interrupts ≡ false)
      × (k'.diag.panik_state.panik_called ≡ 1)
unfolding after_panik
after_panik-halts (halts e) d next k off called = (record k { diag = e }, refl, refl, off, called)
after_panik-halts (returns e) d next k off called = absurd off

-- In normal mode, with at most `2 ^ 20` frames and neither a table for `v` nor a frame for one, the call panics and halts with
-- interrupts off, and memory is as before.
pub paging_map_page-null :
    (v p f : ℕ) (k : Kernel)
    → pde k v % 2 ≡ 0
    → k.total_frames ≤ 2 ^ 20
    → (pmm_alloc_frame k).0 ≡ 0
    → k.diag.current_panik_mode ≡ normal
    → (k' : Kernel) × (paging_map_page v p f k ≡ halts k')
      × (k'.ram ≡ k.ram)
      × (k'.diag.interrupts ≡ false)
      × (k'.diag.panik_state.panik_called ≡ 1)
unfolding paging_map_page with_new_table
paging_map_page-null v p f k absent few null mode =
    let e = pmm_alloc_frame-null k few null in
    let d : Diag = (pmm_alloc_frame k).1.diag in
    let fmt = codes "Out of memory: Unable to allocate frame for new page table" in
    let t : ℕ = (pmm_alloc_frame k).0 in
    let next : Kernel → Kernel = λ k'. map_entry t v p f (link_table t (v / 2 ^ 22) k') in
    let ends = panik-Ends fmt [] d in
    let stops =
      after_panik-halts (panik fmt [] d) d next (pmm_alloc_frame k).1
        (subst (λ m. Ends m d (panik fmt [] d)) (e.mode ∙ mode) ends.0) ends.1 in
    let clear : (bit_and (pde k v) 1 == 0) ≡ true = ground (arith, bit_and_low 1 (pde k v)) in
    let no_frame : ((pmm_alloc_frame k).0 == 0) ≡ true = ground (arith, null) in
    (stops.0, rw (clear, no_frame) stops.1, stops.2 ∙ e.ram, stops.3, stops.4)
