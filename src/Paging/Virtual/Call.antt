-- ===== src/Paging/Virtual/Call.antt =====
-- `paging_map_page` of kernel/memory/paging.c through the tables against the call on memory.
use kernel_v.Base.{
  ℕ, ◌+◌, ◌*◌, ◌/◌, ◌%◌, ◌^◌, ◌<◌, ◌≡◌, ◌≢◌, refl, subst, ◌∙◌, arith, some, ◌==◌, true, false, inl,
  inr, Bool-cases, ==_iff, bit_and, [], codes, Option,
}
use kernel_v.Base.Bits.{bit_and_low}
use kernel_v.Kernel.{Kernel}
use kernel_v.Panik.{Diag, Outcome, returns, halts, normal, panik}
use kernel_v.Panik.Calls.{Ends, panik-Ends}
use kernel_v.Paging.{
  map_entry, link_table, with_new_table, after_panik, paging_map_page, set_entry, page_directory,
}
use kernel_v.Paging.Absent.{unmapped, at_frame}
use kernel_v.Paging.Room.{frame_high}
use kernel_v.Paging.Demand.{walk-Allocated, no_table-Allocated}
use kernel_v.Paging.Frames.{pmm_alloc_frame-IsSafe}
use kernel_v.Paging.Map.{pde}
use kernel_v.Paging.Mapping.{TablesBelow}
use kernel_v.Paging.Memory.{load32-lt}
use kernel_v.Paging.Safe.{IsSafe, IsSafe-Guarded}
use kernel_v.Paging.Virtual.{
  enter_virtual, fill_virtual, after_panik_virtual, new_table_virtual, paging_map_page_virtual,
}
use kernel_v.Paging.Virtual.Same.{Identity, Identity-same, load_identity, store_identity, link_same}
use kernel_v.Pmm.{pmm_alloc_frame}
use kernel_v.Pmm.Alloc.{Allocated, pmm_alloc_frame-ne_null, pmm_alloc_frame-null}
use kernel_v.Pmm.Reserve.{page_mask_lem}

-- The store of the entry, to a table in the identity map.
enter_same :
    (t v p f : ℕ) (k : Kernel)
    → t < 1024
    → Identity k
    → enter_virtual (t * 4096) v p f k ≡ some (map_entry (t * 4096) v p f k)
unfolding enter_virtual map_entry set_entry
enter_same t v p f k low identity =
    let j : bit_and (v / 2 ^ 12) 0x3FF ≡ v / 2 ^ 12 % 1024 = bit_and_low 10 (v / 2 ^ 12) in
    store_identity (t * 4096 + 4 * bit_and (v / 2 ^ 12) 0x3FF) k identity (omega (arith, low, j)) _

-- After a panic that halts.
panik_same :
    (o : Outcome Diag) (d : Diag) (next : Kernel → Kernel) (k : Kernel)
    (through : Kernel → Option (Outcome Kernel))
    → Ends normal d o
    → after_panik_virtual o through k ≡ some (after_panik o next k)
unfolding after_panik_virtual after_panik
panik_same (halts e) d next k through off = refl
panik_same (returns e) d next k through off = absurd off

module _ (v p f : ℕ) (k : Kernel) (s : IsSafe k) (identity : Identity k) (hv : v < 2 ^ 32) where
  present_same :
      TablesBelow 1024 k
      → pde k v % 2 ≡ 1
      → paging_map_page_virtual v p f k ≡ some (paging_map_page v p f k)
  unfolding paging_map_page_virtual paging_map_page
  present_same below present =
      let i : ℕ = v / 2 ^ 22 in
      let set : (bit_and (pde k v) 1 == 0) ≡ false = ground (arith, bit_and_low 1 (pde k v)) in
      let table = page_mask_lem (pde k v) (load32-lt (page_directory + 4 * i) k) in
      rw
        (
          load_identity (page_directory + 4 * i) k identity (omega (arith, hv)),
          set,
          table,
          enter_same (pde k v / 4096) v p f k (below i (omega arith) present) identity,
        )
        refl

  absent_same :
      p < 2 ^ 32
      → pde k v % 2 ≡ 0
      → (pmm_alloc_frame k).0 ≢ 0
      → (pmm_alloc_frame k).0 < 2 ^ 22
      → paging_map_page_virtual v p f k ≡ some (paging_map_page v p f k)
  unfolding paging_map_page_virtual paging_map_page new_table_virtual with_new_table fill_virtual
  absent_same hp absent ne low =
      let i : ℕ = v / 2 ^ 22 in
      let hi : i < 1024 = omega (arith, hv) in
      let r : ℕ = (pmm_alloc_frame k).0 in
      let k₁ : Kernel = (pmm_alloc_frame k).1 in
      let guarded = IsSafe-Guarded s in
      let a : Allocated k 1 k.total_frames (r, k₁) = pmm_alloc_frame-ne_null k s.few ne in
      let at : r ≡ a.frame * 4096 = at_frame r k k₁ a guarded in
      let t_low : a.frame < 1024 = omega (arith, at, low) in
      let clear : (bit_and (pde k v) 1 == 0) ≡ true = ground (arith, bit_and_low 1 (pde k v)) in
      let some_frame : (r == 0) ≡ false = ground arith in
      let linked =
        link_same a.frame (frame_high s a.free) t_low i k₁ hi (pmm_alloc_frame-IsSafe k s)
          (no_table-Allocated s a) (Identity-same k k₁ (walk-Allocated s a) identity) in
      let k₂ : Kernel = link_table (a.frame * 4096) i k₁ in
      let entered =
        enter_same a.frame v p f k₂ t_low (
          Identity-same k k₂ (λ w h. unmapped r k k₁ a guarded i hi w s.tables h absent)
            identity) in
      let filled : fill_virtual v p f r k₁
          ≡ some (returns (map_entry r v p f (link_table r i k₁))) =
        rw (at, linked, entered) refl in
      rw
        (
          load_identity (page_directory + 4 * i) k identity (omega (arith, hv)),
          clear,
          some_frame,
          filled,
        )
        refl

  null_same :
      pde k v % 2 ≡ 0
      → (pmm_alloc_frame k).0 ≡ 0
      → paging_map_page_virtual v p f k ≡ some (paging_map_page v p f k)
  unfolding paging_map_page_virtual paging_map_page new_table_virtual with_new_table
  null_same absent null =
      let i : ℕ = v / 2 ^ 22 in
      let e = pmm_alloc_frame-null k s.few null in
      let r : ℕ = (pmm_alloc_frame k).0 in
      let d : Diag = (pmm_alloc_frame k).1.diag in
      let fmt = codes "Out of memory: Unable to allocate frame for new page table" in
      let ends = subst (λ m. Ends m d (panik fmt [] d)) (e.mode ∙ s.mode) (panik-Ends fmt [] d).0 in
      let clear : (bit_and (pde k v) 1 == 0) ≡ true = ground (arith, bit_and_low 1 (pde k v)) in
      let no_frame : (r == 0) ≡ true = ground (arith, null) in
      rw (load_identity (page_directory + 4 * i) k identity (omega (arith, hv)), clear, no_frame)
        (panik_same (panik fmt [] d) d (λ k'. map_entry r v p f (link_table r i k'))
          (pmm_alloc_frame k).1 (fill_virtual v p f r) ends)

-- From a safe state with the first 4 MB mapped to themselves, for addresses of 32 bits: where the
-- tables lie in the first 4 MB, and so does the frame allocated for a table if one has to be made, the
-- call with all its accesses to the directory and the tables made through the tables does not fault, and
-- ends as the call on memory does, returning or halting, in the same state.
pub paging_map_page_virtual_lem :
    (v p f : ℕ) (k : Kernel)
    → IsSafe k
    → Identity k
    → TablesBelow 1024 k
    → (pde k v % 2 ≡ 0 → (pmm_alloc_frame k).0 < 2 ^ 22)
    → v < 2 ^ 32
    → p < 2 ^ 32
    → paging_map_page_virtual v p f k ≡ some (paging_map_page v p f k)
paging_map_page_virtual_lem v p f k s identity below low hv hp =
    elim (Bool-cases (pde k v % 2 == 0)) [
      | inr odd ↦ present_same v p f k s identity hv below (ground arith)
      | inl even ↦ elim (Bool-cases ((pmm_alloc_frame k).0 == 0)) [
        | inl null ↦ null_same v p f k s identity hv ((==_iff _ 0).0 even) ((==_iff _ 0).0 null)
        | inr some_frame ↦
            absent_same v p f k s identity hv hp ((==_iff _ 0).0 even) (ground arith)
              (low ((==_iff _ 0).0 even))
      ]
    ]
