-- ===== src/Paging/Growth/New.antt =====
-- `paging_map_page` of kernel/memory/paging.c where it makes a table.
use kernel_v.Base.{
  ℕ, ◌+◌, ◌*◌, ◌/◌, ◌%◌, ◌^◌, ◌<◌, ◌≡◌, ◌≢◌, ap, subst, ◌∙◌, arith, ◌==◌, true, false, bit_and,
}
use kernel_v.Base.Bits.{bit_and_low}
use kernel_v.Kernel.{Kernel}
use kernel_v.Panik.{returns}
use kernel_v.Paging.{map_entry, link_table, paging_map_page, with_new_table}
use kernel_v.Paging.Absent.{linked, directory, unmapped, at_frame}
use kernel_v.Paging.Map.{pde}
use kernel_v.Paging.Mapping.{left-map_entry, spares-map_entry, Maps, map_entry-Maps}
use kernel_v.Paging.Safe.{IsSafe, IsSafe-Guarded}
use kernel_v.Pmm.{pmm_alloc_frame}
use kernel_v.Pmm.Alloc.{Allocated, pmm_alloc_frame-ne_null}
use kernel_v.Pmm.Bitmap.{used}
use kernel_v.Pmm.Supply.{free_frames}
use kernel_v.Pmm.Reserve.{count_free}
use kernel_v.Paging.Growth.{
  taken, linked-IsSafe, linked-total, linked-left, linked_spares, linked_account, linked_apart,
  linked_bound, linked_then,
}

-- A page whose table has to be made.
pub map_new :
    (v p f : ℕ) (k : Kernel)
    → IsSafe k
    → v < 2 ^ 32
    → p < 2 ^ 32
    → pde k v % 2 ≡ 0
    → (pmm_alloc_frame k).0 ≢ 0
    → (k' : Kernel) × (paging_map_page v p f k ≡ returns k') × Maps v p f k k'
unfolding paging_map_page with_new_table
map_new v p f k s hv hp absent ne =
    let r : ℕ = (pmm_alloc_frame k).0 in
    let k₁ : Kernel = (pmm_alloc_frame k).1 in
    let i : ℕ = v / 2 ^ 22 in
    let hi : i < 1024 = omega arith in
    let guarded = IsSafe-Guarded s in
    let a : Allocated k 1 k.total_frames (r, k₁) = pmm_alloc_frame-ne_null k s.few ne in
    let k₃ : Kernel = linked r k k₁ a guarded i hi in
    let clear : (bit_and (pde k v) 1 == 0) ≡ true = ground (arith, bit_and_low 1 (pde k v)) in
    let some_frame : (r == 0) ≡ false = ground arith in
    let e : pde k₃ v ≡ a.frame * 4096 + 3 = directory r k k₁ a guarded i hi i hi ∙ ground arith in
    let table : pde k₃ v / 4096 * 4096 ≡ a.frame * 4096 = omega (arith, e) in
    let m : Maps v p f k₃ (map_entry (a.frame * 4096) v p f k₃) =
      subst (λ (x : ℕ). Maps v p f k₃ (map_entry x v p f k₃)) table
        (map_entry-Maps v p f k₃ (linked-IsSafe r k k₁ a s i hi) hv hp (omega (arith, e))) in
    (
      map_entry (a.frame * 4096) v p f k₃,
      rw (clear, some_frame)
          (ap (λ (t : ℕ). returns (map_entry t v p f (link_table t i k₁)))
            (at_frame r k k₁ a guarded)),
      record {
        mapped = record {
          maps = m.mapped.maps;
          others = λ w hw differ.
              m.mapped.others w hw differ ∙ unmapped r k k₁ a guarded i hi w s.tables hw absent;
          valid = m.mapped.valid;
        };
        safe = m.safe;
        total = m.total ∙ linked-total r k k₁ a s i hi;
        left = omega (
          arith,
          linked-left r k k₁ a s i hi,
          subst (λ (x : ℕ). free_frames (map_entry x v p f k₃) ≡ free_frames k₃) table
              (left-map_entry v p f k₃ (linked-IsSafe r k k₁ a s i hi) hv hp (omega (arith, e))),
        );
        spares = λ l h. omega (
          arith,
          linked_spares r k k₁ a s i hi l h,
          subst (λ (x : ℕ). count_free (used (map_entry x v p f k₃)) l 1 ≡ count_free (used k₃) l 1)
              table
              (spares-map_entry v p f k₃ (linked-IsSafe r k k₁ a s i hi) hv hp (omega (arith, e)) l
                h),
        );
        accounted = λ top few all.
            m.accounted top (omega (arith, linked-total r k k₁ a s i hi, few)) all
            ∙ linked_account r k k₁ a s i hi top few all;
        protects = linked_then r k k₁ a s i hi m.protects;
        apart = λ g h was no_table.
            m.apart g h (taken r k k₁ a s i hi g h was)
              (linked_apart r k k₁ a s i hi g was no_table);
        bound = λ n room below.
            m.bound n (λ even. absurd (omega (arith, e, even)))
              (linked_bound r k k₁ a s i hi n (room absent) below);
      },
    )
