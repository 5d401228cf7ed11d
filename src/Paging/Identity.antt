-- ===== src/Paging/Identity.antt =====
-- What `paging_init` of kernel/memory/paging.c maps.
use kernel_v.Base.{
  ℕ, ◌+◌, ◌*◌, ◌/◌, ◌%◌, ◌^◌, ◌<◌, ◌≡◌, refl, arith, ◌==◌, some, none, if◌then◌else◌, ltb, u32, ◌∙◌,
  bit_or, inl, inr, [], codes, true, false, Bool-cases, ap,
}
use kernel_v.Base.Bits.{bit_or_fields, bit_or_below, bit, bit-lt, bit-bit_or}
use kernel_v.Kernel.{Kernel, say}
use kernel_v.Paging.{
  paging_init, identity_map, identity_entry, get_entry, page_directory, first_page_table,
}
use kernel_v.Paging.Entries.{
  get_entry-set_entry, load32-set_entry, get_entry-fill, load32-fill, fill,
}
use kernel_v.Paging.Walk.{walk, walk_table}

identity_entry_lem : (e : ℕ) → identity_entry e ≡ e * 4096 + 7
unfolding identity_entry
identity_entry_lem e =
    ap (λ (t : ℕ). bit_or (bit_or t 2) 4) (bit_or_fields e 1 12 (omega arith))
    ∙ ap (λ (t : ℕ). bit_or t 4) (bit_or_below e 1 2 12 (omega arith) (omega arith))
    ∙ bit_or_below e 3 4 12 (omega arith) (omega arith)

pub directory_entry :
    (i : ℕ) (k : Kernel)
    → i < 1024
    → get_entry page_directory i (identity_map k) ≡ (if i == 0 then 0x81003 else 2)
unfolding identity_map
directory_entry i k h =
    let k₁ = fill page_directory (λ e. 2) 1024 0 k in
    let k₂ = fill first_page_table identity_entry 1024 0 k₁ in
    get_entry-set_entry page_directory 0 i 0x81003 k₂
    ∙ ap (λ (t : ℕ). if 0 == i then u32 0x81003 else t)
        (load32-fill first_page_table identity_entry 1024 0 (page_directory + 4 * i) k₁
            (inl (omega arith))
          ∙ get_entry-fill page_directory (λ e. 2) 1024 0 i k)
    ∙ ground arith

table_entry :
    (j : ℕ) (k : Kernel) → j < 1024 → get_entry first_page_table j (identity_map k) ≡ j * 4096 + 7
unfolding identity_map
table_entry j k h =
    let k₁ = fill page_directory (λ e. 2) 1024 0 k in
    let k₂ = fill first_page_table identity_entry 1024 0 k₁ in
    load32-set_entry page_directory 0 0x81003 (first_page_table + 4 * j) k₂ (inr (omega arith))
    ∙ get_entry-fill first_page_table identity_entry 1024 0 j k₁
    ∙ ground (arith, identity_entry_lem j)

-- The walk over the identity map.
identity_map-walk :
    (address : ℕ) (k : Kernel)
    → address < 2 ^ 32
    → walk_table
        (get_entry page_directory (address / 2 ^ 22) (identity_map k))
        address
        (identity_map k)
      ≡ (if ltb address (2 ^ 22) then some (address / 4096 * 4096 + 7) else none)
identity_map-walk address k h =
    let pde = directory_entry (address / 2 ^ 22) k (omega arith) in
    let pte = table_entry (address / 4096 % 1024) k (omega arith) in
    elim (Bool-cases (ltb address (2 ^ 22))) [
      | inl low ↦
          let first : (address / 2 ^ 22 == 0) ≡ true = ground arith in
          let odd : ((address / 4096 % 1024 * 4096 + 7) % 2 == 0) ≡ false = ground arith in
          let same : address / 4096 % 1024 ≡ address / 4096 = ground arith in
          ap (λ (e : ℕ). walk_table e address (identity_map k)) (rw first at pde)
          ∙ rw (low, pte, odd, same) refl
      | inr high ↦
          let later : (address / 2 ^ 22 == 0) ≡ false = ground arith in
          ap (λ (e : ℕ). walk_table e address (identity_map k)) (rw later at pde) ∙ rw high refl
    ]

paging_bit : (cr0 : ℕ) → bit 31 (bit_or cr0 0x80000000) ≡ 1
paging_bit cr0 = bit-bit_or 31 cr0 0x80000000 ∙ omega (arith, bit-lt 31 cr0)

-- After `paging_init` the directory is loaded and paging is on. The first 4 MB are mapped to
-- themselves, present, writable and open to the user in their table, and no other address is.
pub paging_init-walk :
    (address : ℕ) (k : Kernel)
    → address < 2 ^ 32
    → let k' = paging_init k in
      (k'.cr3 ≡ page_directory)
      × (bit 31 k'.cr0 ≡ 1)
      × (walk k' address
          ≡ (if ltb address (2 ^ 22) then some (address / 4096 * 4096 + 7) else none))
unfolding paging_init
paging_init-walk address k h = (
  refl,
  paging_bit _,
  identity_map-walk address (say (codes "[PAGING] Initializing Paging structures...\n") [] k) h,
)
