-- ===== src/Paging/Virtual/Fault.antt =====
-- `paging_map_page` of kernel/memory/paging.c with a new table outside the identity map.
use kernel_v.Base.{
  ℕ, suc, ◌+◌, ◌*◌, ◌/◌, ◌%◌, ◌^◌, ◌<◌, ◌≡◌, ◌≢◌, refl, ◌∙◌, arith, none, ◌==◌, true, false,
  bit_and,
}
use kernel_v.Base.Bits.{bit_and_low}
use kernel_v.Kernel.{Kernel}
use kernel_v.Paging.{page_directory}
use kernel_v.Paging.Demand.{walk-Allocated}
use kernel_v.Paging.Map.{pde}
use kernel_v.Paging.Safe.{IsSafe}
use kernel_v.Paging.Virtual.{
  store_virtual, store_mapped, clear_virtual, link_virtual, fill_virtual, new_table_virtual,
  paging_map_page_virtual,
}
use kernel_v.Paging.Virtual.Same.{Identity, load_identity}
use kernel_v.Paging.Walk.{walk}
use kernel_v.Pmm.{pmm_alloc_frame}
use kernel_v.Pmm.Alloc.{Allocated, pmm_alloc_frame-ne_null}

-- The first store to a page that is not mapped.
clear_fault : (n r : ℕ) (k : Kernel) → walk k r ≡ none → clear_virtual (suc n) r 0 k ≡ none
unfolding clear_virtual store_virtual store_mapped
clear_fault n r k absent = let e : r + 4 * 0 ≡ r = omega arith in rw (e, absent) refl

fill_fault : (v p f r : ℕ) (k : Kernel) → walk k r ≡ none → fill_virtual v p f r k ≡ none
unfolding fill_virtual link_virtual
fill_fault v p f r k absent = rw (clear_fault 1023 r k absent) refl

-- From a safe state with the first 4 MB mapped to themselves: where a table has to be made for `v`,
-- and the frame allocated for it is not mapped at its own address, the call faults.
pub paging_map_page_virtual_fault :
    (v p f : ℕ) (k : Kernel)
    → IsSafe k
    → Identity k
    → v < 2 ^ 32
    → pde k v % 2 ≡ 0
    → (pmm_alloc_frame k).0 ≢ 0
    → walk k (pmm_alloc_frame k).0 ≡ none
    → paging_map_page_virtual v p f k ≡ none
unfolding paging_map_page_virtual new_table_virtual
paging_map_page_virtual_fault v p f k s identity hv absent ne unmapped =
    let r : ℕ = (pmm_alloc_frame k).0 in
    let a : Allocated k 1 k.total_frames (pmm_alloc_frame k) = pmm_alloc_frame-ne_null k s.few ne in
    let clear : (bit_and (pde k v) 1 == 0) ≡ true = ground (arith, bit_and_low 1 (pde k v)) in
    let some_frame : (r == 0) ≡ false = ground arith in
    let same = walk-Allocated s a r (omega (arith, a.address)) in
    rw
      (
        load_identity (page_directory + 4 * (v / 2 ^ 22)) k identity (omega (arith, hv)),
        clear,
        some_frame,
      )
      (fill_fault v p f r (pmm_alloc_frame k).1 (same ∙ unmapped))
