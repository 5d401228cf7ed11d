-- ===== src/Paging/Absent.antt =====
-- `paging_map_page` of kernel/memory/paging.c as a whole where no table is linked yet.
use kernel_v.Base.{
  ℕ, ◌+◌, ◌*◌, ◌/◌, ◌%◌, ◌^◌, ◌≤◌, ◌<◌, ◌≡◌, ◌≢◌, refl, sym, ap, subst, ◌∙◌, arith, ◌==◌, none,
  if◌then◌else◌, inl, inr, Bool-cases, true, false, bit_and, ==_iff,
}
use kernel_v.Base.Bits.{bit_and_low}
use kernel_v.Kernel.{Kernel}
use kernel_v.Panik.{returns}
use kernel_v.Paging.{
  paging_map_page, with_new_table, link_table, map_entry, get_entry, page_directory,
}
use kernel_v.Paging.Map.{
  pde, place, IsValid, Mapped, map_entry-Mapped, mapping, walk-present, walk-absent, walk-same,
}
use kernel_v.Paging.Grow.{
  Guarded, load32_elsewhere, directory-link_table, table-link_table, other-link_table,
  cr3-link_table, linked-IsValid,
}
use kernel_v.Paging.Memory.{load32}
use kernel_v.Paging.Walk.{walk}
use kernel_v.Pmm.{pmm_alloc_frame}
use kernel_v.Pmm.Alloc.{Allocated, pmm_alloc_frame-ne_null}
use kernel_v.Pmm.Bitmap.{used}

-- A frame that is free is none that is used.
free-ne : (k : Kernel) (f g : ℕ) → used k f ≡ false → used k g ≡ true → f ≢ g
free-ne k f g free taken e = cc (ap (used k) e, free, taken)

-- `k₁` is what an allocation leaves of `k`, and `r` its address.
module _ (r : ℕ) (k k₁ : Kernel) (a : Allocated k 1 k.total_frames (r, k₁))
    (guarded : Guarded k) where
  abbrev pub t : ℕ
  t = a.frame

  pub frame_ne : (g : ℕ) → used k g ≡ true → t ≢ g
  frame_ne g taken = free-ne k t g a.free taken

  pub frame_small : t < 2 ^ 20
  frame_small = omega (arith, a.in_range.1, guarded.few)

  pub at_frame : r ≡ t * 4096
  at_frame = a.address ∙ omega (arith, frame_small)

  in_bitmap : k.frame_bitmap + t / 8 ≤ k.frame_bitmap + k.total_frames / 8
  in_bitmap = omega (arith, a.in_range.1)

  directory-alloc :
      (j : ℕ) → j < 1024 → get_entry page_directory j k₁ ≡ get_entry page_directory j k
  directory-alloc j h =
      load32_elsewhere 0x80 j (k.frame_bitmap + t / 8) k k₁ h
        (guarded.bitmap_off_directory _ (omega arith) in_bitmap) a.elsewhere

  module _ (i : ℕ) (hi : i < 1024) where
    abbrev pub linked : Kernel
    linked = link_table (t * 4096) i k₁

    pub directory :
        (j : ℕ)
        → j < 1024
        → get_entry page_directory j linked
          ≡ (if i == j then t * 4096 + 3 else get_entry page_directory j k)
    directory j h =
        directory-link_table t i k₁ frame_small (frame_ne 0x80 guarded.directory_used) j h
        ∙ ap (λ (e : ℕ). if i == j then t * 4096 + 3 else e) (directory-alloc j h)

    pub loaded : linked.cr3 ≡ k.cr3
    loaded = cr3-link_table t i k₁ frame_small (frame_ne 0x80 guarded.directory_used) ∙ a.kept.cr3

    pub valid : IsValid k → IsValid linked
    valid before =
        linked-IsValid t i before loaded directory (frame_ne 0x80 guarded.directory_used)
          (λ j h present. frame_ne _ (guarded.tables_used j h present))

    -- A page under another directory entry is mapped as before.
    other_table :
        (w : ℕ) → IsValid k → w < 2 ^ 32 → (i == w / 2 ^ 22) ≡ false → walk linked w ≡ walk k w
    other_table w before hw differ =
        let j : ℕ = w / 2 ^ 22 in
        let same : pde linked w ≡ pde k w = directory j (omega arith) ∙ rw differ refl in
        walk-same k linked w before.loaded (loaded ∙ before.loaded) same (λ present.
          other-link_table t i k₁ frame_small (frame_ne 0x80 guarded.directory_used)
            (pde k w / 4096) (w / 4096 % 1024) hi (omega arith)
            (before.off_directory j (omega arith) present)
            (λ e. frame_ne _ (guarded.tables_used j (omega arith) present) (sym e))
          ∙ load32_elsewhere (pde k w / 4096) (w / 4096 % 1024) (k.frame_bitmap + t / 8) k k₁
              (omega arith)
              (guarded.bitmap_off_tables _ j (omega arith) in_bitmap (omega arith) present)
              a.elsewhere)

    -- In the new table nothing is mapped.
    new_table : (w : ℕ) → IsValid k → w < 2 ^ 32 → (i == w / 2 ^ 22) ≡ true → walk linked w ≡ none
    new_table w before hw same =
        let e : pde linked w ≡ t * 4096 + 3 = directory (w / 2 ^ 22) (omega arith) ∙ rw same refl in
        walk-present linked w (loaded ∙ before.loaded) (omega (arith, e))
        ∙ ap (λ (d : ℕ). mapping (load32 (place d w) linked)) e
        ∙ ap (λ (x : ℕ). mapping (load32 x linked)) (in_page w)
        ∙ ap mapping (
            table-link_table t i k₁ frame_small (frame_ne 0x80 guarded.directory_used)
              (w / 4096 % 1024) hi (omega arith))
      where
        in_page : (w : ℕ) → place (t * 4096 + 3) w ≡ t * 4096 + 4 * (w / 4096 % 1024)
        in_page w = omega arith

    -- Where no table was linked, linking an empty one changes no mapping.
    pub unmapped :
        (w : ℕ)
        → IsValid k
        → w < 2 ^ 32
        → get_entry page_directory i k % 2 ≡ 0
        → walk linked w ≡ walk k w
    unmapped w before hw absent = elim (Bool-cases (i == w / 2 ^ 22)) [
      | inl same ↦
          let here : i ≡ w / 2 ^ 22 = (==_iff _ _).0 same in
          new_table w before hw same
          ∙ sym (
              walk-absent k w before.loaded
                (ap (λ (j : ℕ). get_entry page_directory j k % 2) (sym here) ∙ absent))
      | inr differ ↦ other_table w before hw differ
    ]

-- The directory is loaded, its tables are pages of their own, their frames and the directory's are
-- used, and the bitmap lies in none of them. With no table there for `v` and a frame to be had, the
-- page of `v` is then mapped to `p` with the flags, where these have the present bit, every other
-- page is mapped as before, and the tables are pages of their own again.
pub paging_map_page-absent :
    (v p f : ℕ) {k : Kernel}
    → IsValid k
    → Guarded k
    → v < 2 ^ 32
    → p < 2 ^ 32
    → pde k v % 2 ≡ 0
    → (pmm_alloc_frame k).0 ≢ 0
    → (k' : Kernel) × (paging_map_page v p f k ≡ returns k') × Mapped v p f k k'
unfolding paging_map_page with_new_table
paging_map_page-absent v p f {k} before guarded hv hp absent ne =
    let r : ℕ = (pmm_alloc_frame k).0 in
    let k₁ : Kernel = (pmm_alloc_frame k).1 in
    let i : ℕ = v / 2 ^ 22 in
    let hi : i < 1024 = omega arith in
    let a : Allocated k 1 k.total_frames (r, k₁) = pmm_alloc_frame-ne_null k guarded.few ne in
    let k₂ : Kernel = linked r k k₁ a guarded i hi in
    let clear : (bit_and (pde k v) 1 == 0) ≡ true = ground (arith, bit_and_low 1 (pde k v)) in
    let some_frame : (r == 0) ≡ false = ground arith in
    let e : pde k₂ v ≡ a.frame * 4096 + 3 = directory r k k₁ a guarded i hi i hi ∙ ground arith in
    let table : pde k₂ v / 4096 * 4096 ≡ a.frame * 4096 = omega (arith, e) in
    let m : Mapped v p f k₂ (map_entry (a.frame * 4096) v p f k₂) =
      subst (λ (x : ℕ). Mapped v p f k₂ (map_entry x v p f k₂)) table
        (map_entry-Mapped v p f (valid r k k₁ a guarded i hi before) hv hp (omega (arith, e))) in
    (
      map_entry (a.frame * 4096) v p f k₂,
      rw (clear, some_frame)
          (ap (λ (t : ℕ). returns (map_entry t v p f (link_table t i k₁)))
            (at_frame r k k₁ a guarded)),
      record {
        maps = m.maps;
        others =
            λ w hw differ. m.others w hw differ ∙ unmapped r k k₁ a guarded i hi w before hw absent;
        valid = m.valid;
      },
    )
