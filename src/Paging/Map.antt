-- ===== src/Paging/Map.antt =====
-- `paging_map_page` of kernel/memory/paging.c where the page table is there already.
use kernel_v.Base.{
  ℕ, ◌+◌, ◌*◌, ◌/◌, ◌%◌, ◌^◌, ◌≤◌, ◌<◌, ◌≡◌, ◌≢◌, ◌⊎◌, refl, sym, ap, ◌∙◌, arith, ◌==◌, some, none,
  if◌then◌else◌, inl, inr, Bool-cases, true, false, Option, u32, bit_and, bit_or, ==_iff,
}
use kernel_v.Base.Bits.{bit_or_fields, bit_and_low}
use kernel_v.Kernel.{Kernel}
use kernel_v.Panik.{returns}
use kernel_v.Paging.{paging_map_page, map_entry, get_entry, set_entry, page_directory}
use kernel_v.Paging.Entries.{get_entry-set_entry, load32-set_entry}
use kernel_v.Paging.Memory.{load32, load32-lt, cr3-store32}
use kernel_v.Paging.Walk.{walk}
use kernel_v.Pmm.Reserve.{page_mask_lem}

-- The directory entry for a virtual address, and the address of its entry in a table.
abbrev pub pde : Kernel → ℕ → ℕ
pde k address = get_entry page_directory (address / 2 ^ 22) k

abbrev pub place : (e address : ℕ) → ℕ
place e address = e / 4096 * 4096 + 4 * (address / 4096 % 1024)

-- The directory is loaded, and the tables that it links are pages of their own.
pub record IsValid (k : Kernel) : Type 0 where
  pub loaded : k.cr3 ≡ page_directory
  pub off_directory :
      (i : ℕ)
      → i < 1024
      → get_entry page_directory i k % 2 ≡ 1
      → get_entry page_directory i k / 4096 ≢ 0x80
  pub apart :
      (i j : ℕ)
      → i < 1024
      → j < 1024
      → i ≢ j
      → get_entry page_directory i k % 2 ≡ 1
      → get_entry page_directory j k % 2 ≡ 1
      → get_entry page_directory i k / 4096 ≢ get_entry page_directory j k / 4096

-- An entry as the processor reads it.
abbrev pub mapping : ℕ → Option ℕ
mapping pte = if pte % 2 == 0 then none else some pte

pub walk-present :
    (k : Kernel) (address : ℕ)
    → k.cr3 ≡ page_directory
    → pde k address % 2 ≡ 1
    → walk k address ≡ mapping (load32 (place (pde k address) address) k)
walk-present k address loaded present =
    let odd : (pde k address % 2 == 0) ≡ false = ground arith in rw (loaded, odd) refl

pub walk-absent :
    (k : Kernel) (address : ℕ)
    → k.cr3 ≡ page_directory
    → pde k address % 2 ≡ 0
    → walk k address ≡ none
walk-absent k address loaded absent =
    let even : (pde k address % 2 == 0) ≡ true = ground arith in rw (loaded, even) refl

-- Where neither the directory entry nor, if it is present, the table's entry changes.
pub walk-same :
    (k k' : Kernel) (address : ℕ)
    → k.cr3 ≡ page_directory
    → k'.cr3 ≡ page_directory
    → pde k' address ≡ pde k address
    → (pde k address % 2 ≡ 1
        → load32 (place (pde k address) address) k' ≡ load32 (place (pde k address) address) k)
    → walk k' address ≡ walk k address
walk-same k k' address loaded loaded' same table = elim (Bool-cases (pde k address % 2 == 0)) [
  | inl even ↦
      let absent : pde k address % 2 ≡ 0 = (==_iff _ 0).0 even in
      walk-absent k' address loaded' (ap (λ (e : ℕ). e % 2) same ∙ absent)
      ∙ sym (walk-absent k address loaded absent)
  | inr odd ↦
      let present : pde k address % 2 ≡ 1 = ground arith in
      walk-present k' address loaded' (ap (λ (e : ℕ). e % 2) same ∙ present)
      ∙ ap (λ (e : ℕ). mapping (load32 (place e address) k')) same
      ∙ ap mapping (table present)
      ∙ sym (walk-present k address loaded present)
]

-- The entry for a physical address and flags.
abbrev pub entry_of : (physical_addr flags : ℕ) → ℕ
entry_of physical_addr flags = physical_addr / 4096 * 4096 + flags % 4096

pub map_entry_lem :
    (table v p f : ℕ) (k : Kernel)
    → p < 2 ^ 32
    → map_entry table v p f k ≡ set_entry table (v / 4096 % 1024) (entry_of p f) k
unfolding map_entry
map_entry_lem table v p f k h =
    ap (λ (e : ℕ). set_entry table e (bit_or (bit_and p 0xFFFFF000) (bit_and f 0xFFF)) k)
      (bit_and_low 10 (v / 4096))
    ∙ ap (λ (e : ℕ). set_entry table (v / 4096 % 1024) e k)
        (ap (λ (q : ℕ). bit_or q (bit_and f 0xFFF)) (page_mask_lem p h)
          ∙ ap (bit_or (p / 4096 * 4096)) (bit_and_low 12 f)
          ∙ bit_or_fields (p / 4096) (f % 4096) 12 (omega arith))

-- Storing an entry in a page other than the directory's.
pub directory-set_entry :
    (table j e i : ℕ) (k : Kernel)
    → i < 1024
    → j < 1024
    → table ≢ 0x80
    → get_entry page_directory i (set_entry (table * 4096) j e k) ≡ get_entry page_directory i k
directory-set_entry table j e i k h hj ne =
    load32-set_entry (table * 4096) j e (page_directory + 4 * i) k (ground arith)

pub IsValid-same :
    {k k' : Kernel}
    → k'.cr3 ≡ k.cr3
    → ((i : ℕ) → i < 1024 → get_entry page_directory i k' ≡ get_entry page_directory i k)
    → IsValid k
    → IsValid k'
IsValid-same {k} {k'} loaded same valid = record {
  loaded = loaded ∙ valid.loaded;
  off_directory = λ i h present. rw (same i h) (valid.off_directory i h (was i h present));
  apart = λ i j h hj ne present present'.
      rw (same i h, same j hj) (valid.apart i j h hj ne (was i h present) (was j hj present'));
}
  where
    was :
        (i : ℕ)
        → i < 1024
        → get_entry page_directory i k' % 2 ≡ 1
        → get_entry page_directory i k % 2 ≡ 1
    was i h present = ap (λ (e : ℕ). e % 2) (sym (same i h)) ∙ present

-- Storing another entry than the one that maps an address.
pub place-set_entry :
    (table j e d : ℕ) (k : Kernel) (address : ℕ)
    → j < 1024
    → (d / 4096 ≢ table) ⊎ (address / 4096 % 1024 ≢ j)
    → load32 (place d address) (set_entry (table * 4096) j e k) ≡ load32 (place d address) k
place-set_entry table j e d k address hj apart =
    load32-set_entry (table * 4096) j e (place d address) k (disjoint apart)
  where
    disjoint :
        (d / 4096 ≢ table) ⊎ (address / 4096 % 1024 ≢ j)
        → (place d address + 4 ≤ table * 4096 + 4 * j)
          ⊎ (table * 4096 + 4 * j + 4 ≤ place d address)
    disjoint (inl pages) = ground arith
    disjoint (inr places) = ground arith

pub cr3-set_entry : (table j e : ℕ) (k : Kernel) → (set_entry table j e k).cr3 ≡ k.cr3
unfolding set_entry
cr3-set_entry table j e k = cr3-store32 (table + 4 * j) e k

stored : (j e old : ℕ) → e < 2 ^ 32 → (if j == j then u32 e else old) ≡ e
stored j e old h = ground arith

-- Of two addresses on different pages, the second is not mapped by the first one's entry.
other_place :
    (v w : ℕ) {k : Kernel}
    → IsValid k
    → v < 2 ^ 32
    → w < 2 ^ 32
    → w / 4096 ≢ v / 4096
    → pde k v % 2 ≡ 1
    → pde k w % 2 ≡ 1
    → (pde k w / 4096 ≢ pde k v / 4096) ⊎ (w / 4096 % 1024 ≢ v / 4096 % 1024)
other_place v w {k} valid hv hw ne present present' = elim (Bool-cases (w / 2 ^ 22 == v / 2 ^ 22)) [
  | inl same ↦ inr (ground arith)
  | inr other ↦ inl (
      valid.apart (w / 2 ^ 22) (v / 2 ^ 22) (omega arith) (omega arith) (ground arith) present'
        present)
]

-- `k'` maps the page of `v` to `p` with the flags, where these have the present bit, and every
-- other page as `k` does.
pub record Mapped (v p f : ℕ) (k k' : Kernel) : Type 0 where
  pub maps : walk k' v ≡ mapping (entry_of p f)
  pub others : (w : ℕ) → w < 2 ^ 32 → w / 4096 ≢ v / 4096 → walk k' w ≡ walk k w
  pub valid : IsValid k'

pub map_entry-Mapped :
    (v p f : ℕ) {k : Kernel}
    → IsValid k
    → v < 2 ^ 32
    → p < 2 ^ 32
    → pde k v % 2 ≡ 1
    → Mapped v p f k (map_entry (pde k v / 4096 * 4096) v p f k)
map_entry-Mapped v p f {k} valid hv hp present =
    let table : ℕ = pde k v / 4096 in
    let j : ℕ = v / 4096 % 1024 in
    let k' : Kernel = set_entry (table * 4096) j (entry_of p f) k in
    let ne : table ≢ 0x80 = valid.off_directory (v / 2 ^ 22) (omega arith) present in
    let loaded : k'.cr3 ≡ page_directory =
      cr3-set_entry (table * 4096) j (entry_of p f) k ∙ valid.loaded in
    let same = λ (i : ℕ) (hi : i < 1024).
      directory-set_entry table j (entry_of p f) i k hi (omega arith) ne in
    let at = same (v / 2 ^ 22) (omega arith) in
    rw (map_entry_lem (table * 4096) v p f k hp) (record {
      maps =
          walk-present k' v loaded (ap (λ (e : ℕ). e % 2) at ∙ present)
          ∙ ap (λ (e : ℕ). mapping (load32 (place e v) k')) at
          ∙ ap mapping (
              get_entry-set_entry (table * 4096) j j (entry_of p f) k
              ∙ stored j (entry_of p f) _ (omega arith));
      others = λ w hw ne'.
          walk-same k k' w valid.loaded loaded (same (w / 2 ^ 22) (omega arith)) (λ present'.
            place-set_entry table j (entry_of p f) (pde k w) k w (omega arith)
              (other_place v w valid hv hw ne' present present'));
      valid = IsValid-same (cr3-set_entry (table * 4096) j (entry_of p f) k) same valid;
    })

-- The directory is loaded and its tables are pages of their own. With a table there for `v`, the page
-- of `v` is then mapped to `p` with the flags, where these have the present bit, every other page is
-- mapped as before, and the tables are pages of their own again.
pub paging_map_page-present :
    (v p f : ℕ) {k : Kernel}
    → IsValid k
    → v < 2 ^ 32
    → p < 2 ^ 32
    → pde k v % 2 ≡ 1
    → (k' : Kernel) × (paging_map_page v p f k ≡ returns k') × Mapped v p f k k'
unfolding paging_map_page
paging_map_page-present v p f {k} valid hv hp present =
    let set : (bit_and (pde k v) 1 == 0) ≡ false = ground (arith, bit_and_low 1 (pde k v)) in
    (
      map_entry (pde k v / 4096 * 4096) v p f k,
      rw set (
          ap (λ (t : ℕ). returns (map_entry t v p f k))
            (page_mask_lem (pde k v) (load32-lt (page_directory + 4 * (v / 2 ^ 22)) k))),
      map_entry-Mapped v p f valid hv hp present,
    )
