-- ===== src/Paging/Start.antt =====
-- The state that `paging_init` of kernel/memory/paging.c leaves, for what is mapped later.
use kernel_v.Base.{
  ◌^◌, true, inl, inr, ◌+◌, ℕ, ◌/◌, ◌%◌, ◌≤◌, ◌<◌, ◌≡◌, ◌≢◌, ◌⊎◌, refl, sym, ap, ◌∙◌, arith, ◌==◌,
  if◌then◌else◌, [], codes,
}
use kernel_v.Kernel.{Kernel, say}
use kernel_v.Paging.{
  paging_init, identity_map, identity_entry, get_entry, set_entry, page_directory, first_page_table,
}
use kernel_v.Paging.Entries.{ram-fill, fill, fill_ram}
use kernel_v.Paging.Identity.{directory_entry}
use kernel_v.Paging.Map.{IsValid}
use kernel_v.Panik.{normal}
use kernel_v.Paging.Safe.{IsSafe}
use kernel_v.Base.Bits.{bit}
use kernel_v.Pmm.Bitmap.{used}
use kernel_v.Paging.Memory.{ram-store32, store32-ram}

abbrev started : Kernel → Kernel
started k = say (codes "[PAGING] Initializing Paging structures...\n") [] k

pub directory-paging_init :
    (i : ℕ) (k : Kernel)
    → i < 1024
    → get_entry page_directory i (paging_init k) ≡ (if i == 0 then 0x81003 else 2)
unfolding paging_init
directory-paging_init i k h = directory_entry i (started k) h

identity_map_elsewhere :
    (x : ℕ) (k : Kernel) → (x < 0x80000) ⊎ (0x82000 ≤ x) → (identity_map k).ram x ≡ k.ram x
unfolding identity_map set_entry
identity_map_elsewhere x k off =
    let k₁ = fill page_directory (λ e. 2) 1024 0 k in
    let k₂ = fill first_page_table identity_entry 1024 0 k₁ in
    ram-store32 page_directory 0x81003 x k₂ (ground arith)
    ∙ ram-fill first_page_table identity_entry 1024 0 x k₁ (ground arith)
    ∙ ram-fill page_directory (λ e. 2) 1024 0 x k (ground arith)

-- `paging_init` writes the pages of the directory and of the first table, and no other byte of
-- memory.
pub paging_init_elsewhere :
    (x : ℕ) (k : Kernel) → (x < 0x80000) ⊎ (0x82000 ≤ x) → (paging_init k).ram x ≡ k.ram x
unfolding paging_init
paging_init_elsewhere x k off = identity_map_elsewhere x (started k) off

identity_map_ram : (k : Kernel) → identity_map k ≡ record k { ram = (identity_map k).ram }
unfolding identity_map set_entry
identity_map_ram k =
    let k₁ = fill page_directory (λ e. 2) 1024 0 k in
    let k₂ = fill first_page_table identity_entry 1024 0 k₁ in
    let r : ℕ → ℕ = (set_entry page_directory 0 0x81003 k₂).ram in
    store32-ram page_directory 0x81003 k₂
    ∙ ap (λ (s : Kernel). record s { ram = r }) (fill_ram first_page_table identity_entry 1024 0 k₁)
    ∙ ap (λ (s : Kernel). record s { ram = r }) (fill_ram page_directory (λ e. 2) 1024 0 k)

-- `paging_init` leaves the frames' accounting alone.
pub paging_init_frames :
    (k : Kernel)
    → let k' = paging_init k in
      (k'.frame_bitmap ≡ k.frame_bitmap)
      × (k'.total_frames ≡ k.total_frames)
      × (k'.used_frames ≡ k.used_frames)
      × (k'.diag.current_panik_mode ≡ k.diag.current_panik_mode)
unfolding paging_init
paging_init_frames k =
    let e = identity_map_ram (started k) in
    (
      ap (λ (s : Kernel). s.frame_bitmap) e,
      ap (λ (s : Kernel). s.total_frames) e,
      ap (λ (s : Kernel). s.used_frames) e,
      ap (λ (s : Kernel). s.diag.current_panik_mode) e,
    )

-- After `paging_init` the directory is loaded, and its one table is a page of its own.
pub paging_init-IsValid : (k : Kernel) → IsValid (paging_init k)
unfolding paging_init
paging_init-IsValid k = record {
  loaded = refl;
  off_directory = λ i h present. away i h present (directory-paging_init i k h);
  apart = λ i j h hj ne present present'. absurd (
      ne (
        first i h present (directory-paging_init i k h)
        ∙ sym (first j hj present' (directory-paging_init j k hj))));
}
  where
    first :
        (i : ℕ)
        → i < 1024
        → get_entry page_directory i (paging_init k) % 2 ≡ 1
        → get_entry page_directory i (paging_init k) ≡ (if i == 0 then 0x81003 else 2)
        → i ≡ 0
    first i h present e = only i (rw e at present)
      where
        only : (i : ℕ) → (if i == 0 then 0x81003 else 2) % 2 ≡ 1 → i ≡ 0
        only i odd = ground arith

    away :
        (i : ℕ)
        → i < 1024
        → get_entry page_directory i (paging_init k) % 2 ≡ 1
        → get_entry page_directory i (paging_init k) ≡ (if i == 0 then 0x81003 else 2)
        → get_entry page_directory i (paging_init k) / 4096 ≢ 0x80
    away i h present e = rw e (no_directory i)
      where
        no_directory : (i : ℕ) → (if i == 0 then 0x81003 else 2) / 4096 ≢ 0x80
        no_directory i = ground arith

-- Only the first table is linked.
pub linked_first :
    (i : ℕ) (k : Kernel)
    → i < 1024
    → get_entry page_directory i (paging_init k) % 2 ≡ 1
    → get_entry page_directory i (paging_init k) / 4096 ≡ 0x81
linked_first i k h present = rw e (only i (rw e at present))
  where
    e : get_entry page_directory i (paging_init k) ≡ (if i == 0 then 0x81003 else 2)
    e = directory-paging_init i k h

    only :
        (i : ℕ)
        → (if i == 0 then 0x81003 else 2) % 2 ≡ 1
        → (if i == 0 then 0x81003 else 2) / 4096 ≡ 0x81
    only i odd = ground arith

pub used-paging_init :
    (k : Kernel) (g : ℕ) → k.frame_bitmap ≡ 0x90000 → used (paging_init k) g ≡ used k g
used-paging_init k g at =
    let same = paging_init_frames k in
    ap (λ (x : ℕ). bit (g % 8) ((paging_init k).ram (x + g / 8)) == 1) same.0
    ∙ ap (λ (b : ℕ). bit (g % 8) b == 1)
        (paging_init_elsewhere (k.frame_bitmap + g / 8) k (inr (omega arith)))

pub paging_init-IsSafe :
    (k : Kernel)
    → k.frame_bitmap ≡ 0x90000
    → k.total_frames ≤ 2 ^ 20
    → k.used_frames < 2 ^ 32
    → k.diag.current_panik_mode ≡ normal
    → ((g : ℕ) → g < 256 → used k g ≡ true)
    → IsSafe (paging_init k)
paging_init-IsSafe k at few small mode low =
    let same = paging_init_frames k in
    record {
      tables = paging_init-IsValid k;
      at = same.0 ∙ at;
      few = omega (arith, same.1, few);
      small = omega (arith, same.2, small);
      mode = same.3 ∙ mode;
      low_used = λ g h. used-paging_init k g at ∙ low g h;
      table_used = λ i h present.
          ap (used (paging_init k)) (linked_first i k h present)
          ∙ used-paging_init k 0x81 at
          ∙ low 0x81 (omega arith);
      table_off = λ i h present. inl (omega (arith, linked_first i k h present));
    }
