-- ===== src/Paging/Grow.antt =====
-- `paging_map_page` of kernel/memory/paging.c where it allocates a new page table.
use kernel_v.Base.{
  ℕ, ◌+◌, ◌*◌, ◌/◌, ◌%◌, ◌^◌, ◌≤◌, ◌<◌, ◌≡◌, ◌≢◌, ◌⊎◌, refl, ap, ◌∙◌, arith, ◌==◌, if◌then◌else◌,
  inl, inr, Bool-cases, true, bit_or, ==_iff, u32, for_range, zero, suc,
}
use kernel_v.Base.Bits.{bit_or_fields, bit_or_below}
use kernel_v.Kernel.{Kernel}
use kernel_v.Paging.{link_table, get_entry, set_entry, page_directory}
use kernel_v.Paging.Entries.{
  get_entry-set_entry, load32-set_entry, get_entry-fill, load32-fill, fill,
}
use kernel_v.Paging.Map.{IsValid, cr3-set_entry}
use kernel_v.Paging.Memory.{load32}
use kernel_v.Pmm.Bitmap.{used}

-- The frames of the directory and of the tables are used, and the bitmap lies in none of them.
pub record Guarded (k : Kernel) : Type 0 where
  pub few : k.total_frames ≤ 2 ^ 20
  pub directory_used : used k 0x80 ≡ true
  pub tables_used :
      (i : ℕ)
      → i < 1024
      → get_entry page_directory i k % 2 ≡ 1
      → used k (get_entry page_directory i k / 4096) ≡ true
  pub bitmap_off_directory :
      (x : ℕ) → k.frame_bitmap ≤ x → x ≤ k.frame_bitmap + k.total_frames / 8 → x / 4096 ≢ 0x80
  pub bitmap_off_tables :
      (x i : ℕ)
      → k.frame_bitmap ≤ x
      → x ≤ k.frame_bitmap + k.total_frames / 8
      → i < 1024
      → get_entry page_directory i k % 2 ≡ 1
      → x / 4096 ≢ get_entry page_directory i k / 4096

-- Entries of a page in which one byte of the bitmap does not lie.
pub load32_elsewhere :
    (page j b : ℕ) (k k' : Kernel)
    → j < 1024
    → b / 4096 ≢ page
    → ((x : ℕ) → b ≢ x → k'.ram x ≡ k.ram x)
    → load32 (page * 4096 + 4 * j) k' ≡ load32 (page * 4096 + 4 * j) k
load32_elsewhere page j b k k' h ne same =
    let x : ℕ = page * 4096 + 4 * j in
    rw
      (
        same x (ground arith),
        same (x + 1) (ground arith),
        same (x + 2) (ground arith),
        same (x + 3) (ground arith),
      )
      refl

link_entry : (t : ℕ) → bit_or (bit_or (t * 4096) 1) 2 ≡ t * 4096 + 3
link_entry t =
    ap (λ (e : ℕ). bit_or e 2) (bit_or_fields t 1 12 (omega arith))
    ∙ bit_or_below t 1 2 12 (omega arith) (omega arith)

-- A new table in page `t`, linked at directory entry `i`.
module _ (t i : ℕ) (k : Kernel) (t_small : t < 2 ^ 20) (ne : t ≢ 0x80) where
  abbrev pub linked : Kernel
  linked = link_table (t * 4096) i k

  pub directory-link_table :
      (j : ℕ)
      → j < 1024
      → get_entry page_directory j linked
        ≡ (if i == j then t * 4096 + 3 else get_entry page_directory j k)
  unfolding link_table
  directory-link_table j h =
      let cleared = fill (t * 4096) (λ e. 0) 1024 0 k in
      ap (λ (e : ℕ). get_entry page_directory j (set_entry page_directory i e cleared))
        (link_entry t)
      ∙ get_entry-set_entry page_directory i j (t * 4096 + 3) cleared
      ∙ ap (λ (e : ℕ). if i == j then u32 (t * 4096 + 3) else e)
          (load32-fill (t * 4096) (λ e. 0) 1024 0 (page_directory + 4 * j) k (ground arith))
      ∙ ground arith

  pub table-link_table : (j : ℕ) → i < 1024 → j < 1024 → load32 (t * 4096 + 4 * j) linked ≡ 0
  unfolding link_table
  table-link_table j hi h =
      let cleared = fill (t * 4096) (λ e. 0) 1024 0 k in
      load32-set_entry page_directory i _ (t * 4096 + 4 * j) cleared (ground arith)
      ∙ get_entry-fill (t * 4096) (λ e. 0) 1024 0 j k
      ∙ ground arith

  pub other-link_table :
      (page j : ℕ)
      → i < 1024
      → j < 1024
      → page ≢ 0x80
      → page ≢ t
      → load32 (page * 4096 + 4 * j) linked ≡ load32 (page * 4096 + 4 * j) k
  unfolding link_table
  other-link_table page j hi h ne' other =
      let cleared = fill (t * 4096) (λ e. 0) 1024 0 k in
      load32-set_entry page_directory i _ (page * 4096 + 4 * j) cleared (ground arith)
      ∙ load32-fill (t * 4096) (λ e. 0) 1024 0 (page * 4096 + 4 * j) k (ground arith)

  cr3-fill : (n e : ℕ) (k : Kernel) → (fill (t * 4096) (λ e. 0) n e k).cr3 ≡ k.cr3
  unfolding for_range
  cr3-fill zero e k = refl
  cr3-fill (suc n) e k =
      cr3-fill n (e + 1) (set_entry (t * 4096) e 0 k) ∙ cr3-set_entry (t * 4096) e 0 k

  pub cr3-link_table : linked.cr3 ≡ k.cr3
  unfolding link_table
  cr3-link_table = cr3-set_entry page_directory i _ _ ∙ cr3-fill 1024 0 k

-- Linking a page that is no table and not the directory keeps the tables apart.
pub linked-IsValid :
    (t i : ℕ) {k k' : Kernel}
    → IsValid k
    → k'.cr3 ≡ k.cr3
    → ((j : ℕ)
        → j < 1024
        → get_entry page_directory j k'
          ≡ (if i == j then t * 4096 + 3 else get_entry page_directory j k))
    → t ≢ 0x80
    → ((j : ℕ)
        → j < 1024
        → get_entry page_directory j k % 2 ≡ 1
        → t ≢ get_entry page_directory j k / 4096)
    → IsValid k'
linked-IsValid t i {k} {k'} valid loaded entries ne fresh = record {
  loaded = loaded ∙ valid.loaded;
  off_directory = λ j h present. off j h present (entry j h);
  apart = λ j l h hl differ present present'.
      pages j l h hl differ present present' (entry j h) (entry l hl);
}
  where
    -- A directory entry is the new one or an old one.
    Kept_entry : ℕ → Type 0
    Kept_entry j =
        ((i ≡ j) × (get_entry page_directory j k' ≡ t * 4096 + 3))
        ⊎ (get_entry page_directory j k' ≡ get_entry page_directory j k)

    entry : (j : ℕ) → j < 1024 → Kept_entry j
    entry j h = elim (Bool-cases (i == j)) [
      | inl e ↦ inl ((==_iff i j).0 e, entries j h ∙ rw e refl)
      | inr e ↦ inr (entries j h ∙ rw e refl)
    ]

    off :
        (j : ℕ)
        → j < 1024
        → get_entry page_directory j k' % 2 ≡ 1
        → Kept_entry j
        → get_entry page_directory j k' / 4096 ≢ 0x80
    off j h present (inl new) = λ q. ne (omega (arith, new.1))
    off j h present (inr old) = rw old (valid.off_directory j h (rw old at present))

    pages :
        (j l : ℕ)
        → j < 1024
        → l < 1024
        → j ≢ l
        → get_entry page_directory j k' % 2 ≡ 1
        → get_entry page_directory l k' % 2 ≡ 1
        → Kept_entry j
        → Kept_entry l
        → get_entry page_directory j k' / 4096 ≢ get_entry page_directory l k' / 4096
    pages j l h hl differ present present' (inl a) (inl b) = λ q. differ (omega (arith, a.0, b.0))
    pages j l h hl differ present present' (inl a) (inr b) =
        λ q. fresh l hl (rw b at present') (omega (arith, a.1, b))
    pages j l h hl differ present present' (inr a) (inl b) =
        λ q. fresh j h (rw a at present) (omega (arith, a, b.1))
    pages j l h hl differ present present' (inr a) (inr b) =
        rw (a, b) (valid.apart j l h hl differ (rw a at present) (rw b at present'))
