-- ===== src/Paging/Entries.antt =====
-- Entries of the tables of kernel/memory/paging.c, one by one and in a loop.
use kernel_v.Base.{
  ℕ, zero, suc, ◌+◌, ◌*◌, ◌≤◌, ◌<◌, ◌≡◌, ◌⊎◌, refl, arith, u32, for_range, leb, ltb, ◌&&◌,
  if◌then◌else◌, ◌∙◌, ◌==◌, Bool-cases, inl, inr, ==_iff, ap, sym,
}
use kernel_v.Kernel.{Kernel}
use kernel_v.Paging.{set_entry, get_entry}
use kernel_v.Paging.Memory.{load32, load32-store32, load32-store32_ne, ram-store32, store32-ram}

pub get_entry-set_entry :
    (table e j v : ℕ) (k : Kernel)
    → get_entry table j (set_entry table e v k) ≡ (if e == j then u32 v else get_entry table j k)
unfolding set_entry
get_entry-set_entry table e j v k = elim (Bool-cases (e == j)) [
  | inl same ↦
      let here : e ≡ j = (==_iff e j).0 same in
      rw (same, sym here) (load32-store32 (table + 4 * e) v k)
  | inr other ↦ rw other (load32-store32_ne (table + 4 * j) (table + 4 * e) v k (ground arith))
]

pub load32-set_entry :
    (table e v addr : ℕ) (k : Kernel)
    → (addr + 4 ≤ table + 4 * e) ⊎ (table + 4 * e + 4 ≤ addr)
    → load32 addr (set_entry table e v k) ≡ load32 addr k
unfolding set_entry
load32-set_entry table e v addr k apart = load32-store32_ne addr (table + 4 * e) v k apart

one_more :
    (n i j old : ℕ) (value : ℕ → ℕ)
    → (if leb (i + 1) j && ltb j (i + 1 + n)
        then u32 (value j)
        else (if i == j then u32 (value i) else old))
      ≡ (if leb i j && ltb j (i + suc n) then u32 (value j) else old)
one_more n i j old value = elim (Bool-cases (i == j)) [
  | inl same ↦ let here : i ≡ j = (==_iff i j).0 same in rw (same, here) (ground arith)
  | inr other ↦ rw other (ground arith)
]

-- A loop that stores entries.
module _ (table : ℕ) (value : ℕ → ℕ) where
  abbrev pub fill : ℕ → ℕ → Kernel → Kernel
  fill n i k = for_range n i (λ e. set_entry table e (value e)) k

  pub get_entry-fill :
      (n i j : ℕ) (k : Kernel)
      → get_entry table j (fill n i k)
        ≡ (if leb i j && ltb j (i + n) then u32 (value j) else get_entry table j k)
  unfolding for_range
  get_entry-fill zero i j k = ground arith
  get_entry-fill (suc n) i j k =
      get_entry-fill n (i + 1) j (set_entry table i (value i) k)
      ∙ ap (λ (t : ℕ). if leb (i + 1) j && ltb j (i + 1 + n) then u32 (value j) else t)
          (get_entry-set_entry table i j (value i) k)
      ∙ one_more n i j (get_entry table j k) value

  pub load32-fill :
      (n i addr : ℕ) (k : Kernel)
      → (addr + 4 ≤ table + 4 * i) ⊎ (table + 4 * (i + n) ≤ addr)
      → load32 addr (fill n i k) ≡ load32 addr k
  unfolding for_range
  load32-fill zero i addr k apart = refl
  load32-fill (suc n) i addr k apart =
      load32-fill n (i + 1) addr (set_entry table i (value i) k) (ground arith)
      ∙ load32-set_entry table i (value i) addr k (ground arith)

  pub ram-fill :
      (n i x : ℕ) (k : Kernel)
      → (x < table + 4 * i) ⊎ (table + 4 * (i + n) ≤ x)
      → (fill n i k).ram x ≡ k.ram x
  unfolding for_range set_entry
  ram-fill zero i x k off = refl
  ram-fill (suc n) i x k off =
      ram-fill n (i + 1) x (set_entry table i (value i) k) (ground arith)
      ∙ ram-store32 (table + 4 * i) (value i) x k (ground arith)

  pub fill_ram : (n i : ℕ) (k : Kernel) → fill n i k ≡ record k { ram = (fill n i k).ram }
  unfolding for_range set_entry
  fill_ram zero i k = refl
  fill_ram (suc n) i k =
      let k' : Kernel = set_entry table i (value i) k in
      fill_ram n (i + 1) k'
      ∙ ap (λ (s : Kernel). record s { ram = (fill n (i + 1) k').ram })
          (store32-ram (table + 4 * i) (value i) k)
