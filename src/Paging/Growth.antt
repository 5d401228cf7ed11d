-- ===== src/Paging/Growth.antt =====
-- `paging_map_page` of kernel/memory/paging.c beside the bitmap, with the page table it allocates.
pub mod New
use kernel_v.Base.{
  ℕ, suc, ◌+◌, ◌*◌, ◌/◌, ◌%◌, ◌^◌, ◌≤◌, ◌<◌, ◌≡◌, ◌≢◌, refl, sym, ap, subst, ◌∙◌, arith, ◌==◌, inl,
  inr, Bool-cases, true, false, if◌then◌else◌, ◌||◌, bit_and, ltb, ltb→lt, ltb→le,
}
use kernel_v.Base.Bits.{bit_and_low}
use kernel_v.Kernel.{Kernel}
use kernel_v.Panik.{returns}
use kernel_v.Paging.{
  get_entry, map_entry, link_table, page_directory, paging_map_page, with_new_table,
}
use kernel_v.Paging.Absent.{frame_ne, linked, directory, valid, unmapped, at_frame}
use kernel_v.Paging.Entries.{fill, fill_ram, ram-fill}
use kernel_v.Paging.Map.{pde}
use kernel_v.Paging.Mapping.{
  left-map_entry, spares-map_entry, Maps, Room, IsData, TablesBelow, Protects, map_entry-Maps,
  ram-set_entry, set_entry-ram,
}
use kernel_v.Paging.Memory.{load32-lt}
use kernel_v.Paging.Room.{Allocated-Room}
use kernel_v.Paging.Safe.{IsSafe, IsSafe-Guarded, OffBitmap, used_off_bitmap, table_of, IsLinked}
use kernel_v.Pmm.{pmm_alloc_frame}
use kernel_v.Pmm.Alloc.{Allocated, pmm_alloc_frame-ne_null}
use kernel_v.Pmm.Bitmap.{used}
use kernel_v.Pmm.Account.{account, account-same, account-Allocated}
use kernel_v.Pmm.Supply.{
  free_frames, free_frames-same, free_frames-Allocated, count_free_one, count_free_below,
}
use kernel_v.Pmm.Reserve.{count_free}

link_table-ram :
    (page i : ℕ) (k : Kernel)
    → i < 1024
    → link_table (page * 4096) i k ≡ record k { ram = (link_table (page * 4096) i k).ram }
unfolding link_table
link_table-ram page i k h =
    let r : ℕ → ℕ = (link_table (page * 4096) i k).ram in
    set_entry-ram 0x80 i _ (fill (page * 4096) (λ e. 0) 1024 0 k) h
    ∙ ap (λ (s : Kernel). record s { ram = r }) (fill_ram (page * 4096) (λ e. 0) 1024 0 k)

ram-link_table :
    (page i x : ℕ) (k : Kernel)
    → i < 1024
    → x / 4096 ≢ page
    → x / 4096 ≢ 0x80
    → (link_table (page * 4096) i k).ram x ≡ k.ram x
unfolding link_table
ram-link_table page i x k h ne ne' =
    ram-set_entry 0x80 i _ (fill (page * 4096) (λ e. 0) 1024 0 k) h x ne'
    ∙ ram-fill (page * 4096) (λ e. 0) 1024 0 x k (ground arith)

-- `k₁` is what an allocation leaves of `k`, and `r` its address; the frame is linked at entry `i`.
module _ (r : ℕ) (k k₁ : Kernel) (a : Allocated k 1 k.total_frames (r, k₁)) (s : IsSafe k) (i : ℕ)
    (hi : i < 1024) where
  abbrev new : ℕ
  new = a.frame

  abbrev k₂ : Kernel
  k₂ = link_table (new * 4096) i k₁

  high : 256 ≤ new
  high = elim (Bool-cases (ltb new 256)) [
    | inl low ↦ absurd (cc (a.free, s.low_used new (ltb→lt _ _ low)))
    | inr above ↦ ltb→le _ _ above
  ]

  fields : k₂ ≡ record k₁ { ram = k₂.ram }
  fields = link_table-ram new i k₁ hi

  ram : (x : ℕ) → x / 4096 ≢ new → x / 4096 ≢ 0x80 → k₂.ram x ≡ k₁.ram x
  ram x ne ne' = ram-link_table new i x k₁ hi ne ne'

  used-new : (g : ℕ) → g < 2 ^ 20 → used k₂ g ≡ (new == g) || used k g
  used-new g h =
      used_off_bitmap g k₁ k₂ (a.kept.frame_bitmap ∙ s.at)
        (ap (λ (q : Kernel). q.frame_bitmap) fields) h
        (λ x low above. ram x (omega (arith, high, above)) (omega (arith, low)))
      ∙ a.set g

  taken : (g : ℕ) → g < 2 ^ 20 → used k g ≡ true → used k₂ g ≡ true
  taken g h was = used-new g h ∙ rw was (ground arith)

  entries :
      (j : ℕ)
      → j < 1024
      → get_entry page_directory j k₂
        ≡ (if i == j then new * 4096 + 3 else get_entry page_directory j k)
  entries j h = directory r k k₁ a (IsSafe-Guarded s) i hi j h

  -- What holds of the new table and of the old ones.
  each :
      (P : ℕ → Type 0)
      → P new
      → ((j : ℕ) → j < 1024 → IsLinked k j → P (table_of k j))
      → (j : ℕ) → j < 1024
      → IsLinked k₂ j
      → P (table_of k₂ j)
  each P here old j h present = elim (Bool-cases (i == j)) [
    | inl e ↦
        let linked_here : get_entry page_directory j k₂ ≡ new * 4096 + 3 =
          entries j h ∙ rw e refl in
        let q : table_of k₂ j ≡ new = omega (arith, linked_here) in subst P (sym q) here
    | inr e ↦
        let q : get_entry page_directory j k₂ ≡ get_entry page_directory j k =
          entries j h ∙ rw e refl in
        subst (λ (d : ℕ). P (d / 4096)) (sym q) (old j h (rw q at present))
  ]

  pub linked-IsSafe : IsSafe k₂
  linked-IsSafe = record {
    tables = valid r k k₁ a (IsSafe-Guarded s) i hi s.tables;
    at = ap (λ (q : Kernel). q.frame_bitmap) fields ∙ a.kept.frame_bitmap ∙ s.at;
    few = omega (arith, ap (λ (q : Kernel). q.total_frames) fields, a.kept.total_frames, s.few);
    small = omega (arith, ap (λ (q : Kernel). q.used_frames) fields, a.counted);
    mode = ap (λ (q : Kernel). q.diag.current_panik_mode) fields ∙ a.kept.mode ∙ s.mode;
    low_used = λ g h. taken g (omega arith) (s.low_used g h);
    table_used =
        each (λ d. used k₂ d ≡ true)
          (used-new new (omega (arith, a.in_range.1, s.few)) ∙ ground arith)
          (λ j h present.
            taken (table_of k j) (omega (arith, load32-lt (page_directory + 4 * j) k))
              (s.table_used j h present));
    table_off = each OffBitmap (inr (omega (arith, high))) s.table_off;
  }

  pub linked-total : k₂.total_frames ≡ k.total_frames
  linked-total = ap (λ (q : Kernel). q.total_frames) fields ∙ a.kept.total_frames

  pub linked-left : free_frames k ≡ suc (free_frames k₂)
  linked-left =
      free_frames-Allocated k (r, k₁) a
      ∙ ap suc (
          sym (
            free_frames-same k₁ k₂ (omega (arith, a.kept.total_frames, s.few))
              (ap (λ (q : Kernel). q.total_frames) fields) (λ g h. used-new g h ∙ sym (a.set g))))

  pub linked_spares :
      (l : ℕ) → l < 2 ^ 20 → count_free (used k) l 1 ≤ suc (count_free (used k₂) l 1)
  linked_spares l hl = omega (
    arith,
    count_free_one (used k) (used k₁) l 1 new a.in_range.0 a.free a.set,
    count_free_below (used k₂) (used k₁) l 1
        (λ g low high. used-new g (omega (arith, high, hl)) ∙ sym (a.set g)),
  )

  pub linked_account :
      (top : ℕ) → k.total_frames ≤ top → top ≤ 2 ^ 20 → account top k₂ ≡ account top k
  linked_account top few all =
      account-same top k₁ k₂ (ap (λ (q : Kernel). q.used_frames) fields)
        (λ g h. used-new g (omega (arith, h, all)) ∙ sym (a.set g))
      ∙ account-Allocated top few a

  linked-Protects : Protects k k₂
  linked-Protects = record {
    taken = taken;
    contents = λ x h was directory bitmap table.
        ram x (λ e. frame_ne r k k₁ a (IsSafe-Guarded s) (x / 4096) was (sym e)) directory
        ∙ a.elsewhere x (in_bitmap x bitmap);
  }
    where
      in_bitmap : (x : ℕ) → OffBitmap (x / 4096) → k.frame_bitmap + new / 8 ≢ x
      in_bitmap x (inl below) e = omega (arith, below, e, s.at)
      in_bitmap x (inr above) e = omega (arith, above, e, s.at, a.in_range.1, s.few)

  linked_apart : (g : ℕ) → used k g ≡ true → IsData k g → IsData k₂ g
  linked_apart g was = each (λ d. d ≢ g) (λ e. frame_ne r k k₁ a (IsSafe-Guarded s) g was e)

  linked_bound : (n : ℕ) → Room n k → TablesBelow n k → TablesBelow n k₂
  linked_bound n room below = each (λ d. d < n) (Allocated-Room s a n room) below

  -- What is written afterwards.
  pub linked_then : {k' : Kernel} → Protects k₂ k' → Protects k k'
  linked_then later = record {
    taken = λ g h was. later.taken g h (taken g h was);
    contents = λ x h was directory bitmap table.
        later.contents x h (taken (x / 4096) (omega arith) was) directory bitmap (
          each (λ d. d ≢ x / 4096) (λ e. frame_ne r k k₁ a (IsSafe-Guarded s) (x / 4096) was e)
            table)
        ∙ linked-Protects.contents x h was directory bitmap table;
  }
