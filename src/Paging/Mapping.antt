-- ===== src/Paging/Mapping.antt =====
-- `paging_map_page` of kernel/memory/paging.c beside the bitmap: it keeps the conditions of the next
-- call, and writes no page of anyone else.
use kernel_v.Base.{
  ℕ, suc, ◌+◌, ◌*◌, ◌/◌, ◌%◌, ◌^◌, ◌≤◌, ◌<◌, ◌≡◌, ◌≢◌, ◌⊎◌, sym, ap, ◌∙◌, arith, inl, inr, true,
  false,
}
use kernel_v.Kernel.{Kernel}
use kernel_v.Paging.{get_entry, set_entry, map_entry, page_directory}
use kernel_v.Paging.Map.{
  pde, Mapped, map_entry_lem, map_entry-Mapped, entry_of, directory-set_entry,
}
use kernel_v.Paging.Memory.{load32-lt, ram-store32, store32-ram}
use kernel_v.Paging.Safe.{IsSafe, Spares-IsSafe, OffBitmap, used_off_bitmap, table_of, IsLinked}
use kernel_v.Pmm.Bitmap.{used}
use kernel_v.Pmm.Account.{account, account-same}
use kernel_v.Pmm.Supply.{free_frames, free_frames-same, count_free_below}
use kernel_v.Pmm.Reserve.{count_free}

-- From `k` to `k'` no used frame was given up, and of the used pages only the directory's, the
-- tables' and the bitmap's were written.
pub record Protects (k k' : Kernel) : Type 0 where
  pub taken : (g : ℕ) → g < 2 ^ 20 → used k g ≡ true → used k' g ≡ true
  pub contents :
      (x : ℕ)
      → x < 2 ^ 32
      → used k (x / 4096) ≡ true
      → x / 4096 ≢ 0x80
      → OffBitmap (x / 4096)
      → ((i : ℕ) → i < 1024 → IsLinked k i → table_of k i ≢ x / 4096)
      → k'.ram x ≡ k.ram x

-- No table stands in the frame.
abbrev pub IsData : Kernel → ℕ → Type 0
IsData k g = (i : ℕ) → i < 1024 → IsLinked k i → table_of k i ≢ g

-- The tables stand below frame `n`.
abbrev pub TablesBelow : ℕ → Kernel → Type 0
TablesBelow n k = (i : ℕ) → i < 1024 → IsLinked k i → table_of k i < n

-- The next frame that is allocated stands below frame `n`, as none is counted there or above, or one
-- below is free.
abbrev pub Room : ℕ → Kernel → Type 0
Room n k = (k.total_frames ≤ n) ⊎ ((g : ℕ) × (g < n) × (used k g ≡ false))

pub TablesBelow-same :
    (k k' : Kernel) (n : ℕ)
    → ((i : ℕ) → i < 1024 → get_entry page_directory i k' ≡ get_entry page_directory i k)
    → TablesBelow n k
    → TablesBelow n k'
TablesBelow-same k k' n same below i h present =
    rw (same i h) (below i h (ap (λ (q : ℕ). q % 2) (sym (same i h)) ∙ present))

pub IsData-same :
    (k k' : Kernel) (g : ℕ)
    → ((i : ℕ) → i < 1024 → get_entry page_directory i k' ≡ get_entry page_directory i k)
    → IsData k g
    → IsData k' g
IsData-same k k' g same no_table i h present e =
    no_table i h (ap (λ (q : ℕ). q % 2) (sym (same i h)) ∙ present)
      (ap (λ (q : ℕ). q / 4096) (sym (same i h)) ∙ e)

off_page :
    (t j x : ℕ) → j < 1024 → x / 4096 ≢ t → (x < t * 4096 + 4 * j) ⊎ (t * 4096 + 4 * j + 4 ≤ x)
off_page t j x h ne = ground arith

-- A store to an entry of a page.
module _ (t j e : ℕ) (k : Kernel) (hj : j < 1024) where
  abbrev entered : Kernel
  entered = set_entry (t * 4096) j e k

  pub ram-set_entry : (x : ℕ) → x / 4096 ≢ t → entered.ram x ≡ k.ram x
  unfolding set_entry
  ram-set_entry x ne = ram-store32 (t * 4096 + 4 * j) e x k (off_page t j x hj ne)

  pub set_entry-ram : entered ≡ record k { ram = entered.ram }
  unfolding set_entry
  set_entry-ram = store32-ram (t * 4096 + 4 * j) e k

  outside_bitmap : OffBitmap t → (x : ℕ) → 0x90000 ≤ x → x < 0xB0000 → entered.ram x ≡ k.ram x
  outside_bitmap off x low high = ram-set_entry x (ne off)
    where
      ne : OffBitmap t → x / 4096 ≢ t
      ne (inl below) = omega (arith, below, low)
      ne (inr above) = omega (arith, above, high)

  pub used-set_entry : IsSafe k → OffBitmap t → (g : ℕ) → g < 2 ^ 20 → used entered g ≡ used k g
  used-set_entry s off g h =
      used_off_bitmap g k entered s.at (ap (λ (q : Kernel). q.frame_bitmap) set_entry-ram) h
        (outside_bitmap off)

  pub total-set_entry : entered.total_frames ≡ k.total_frames
  total-set_entry = ap (λ (q : Kernel). q.total_frames) set_entry-ram

  pub set_entry-IsSafe : IsSafe k → OffBitmap t → t ≢ 0x80 → IsSafe entered
  set_entry-IsSafe s off ne = Spares-IsSafe s (record {
    at = ap (λ (q : Kernel). q.frame_bitmap) set_entry-ram;
    total = total-set_entry;
    cr3 = ap (λ (q : Kernel). q.cr3) set_entry-ram;
    mode = ap (λ (q : Kernel). q.diag.current_panik_mode) set_entry-ram;
    small = omega (arith, ap (λ (q : Kernel). q.used_frames) set_entry-ram, s.small);
    directory = λ i h. directory-set_entry t j e i k h hj ne;
    low_used = λ g h. used-set_entry s off g (omega arith) ∙ s.low_used g h;
    table_used = λ i h present.
        used-set_entry s off (table_of k i) (omega (arith, load32-lt (page_directory + 4 * i) k))
        ∙ s.table_used i h present;
  })

-- `k'` maps the page of `v` to `p` with the flags and every other page as `k` does; the conditions
-- hold again, no data was overwritten, no used page became a table, a new table is one of the frames
-- counted, the lowest, at most one frame less is left, in all and among the first `l`, and what is used is counted.
pub record Maps (v p f : ℕ) (k k' : Kernel) : Type 0 where
  pub mapped : Mapped v p f k k'
  pub safe : IsSafe k'
  pub protects : Protects k k'
  pub total : k'.total_frames ≡ k.total_frames
  pub left : free_frames k ≤ suc (free_frames k')
  pub spares : (l : ℕ) → l < 2 ^ 20 → count_free (used k) l 1 ≤ suc (count_free (used k') l 1)
  pub accounted : (top : ℕ) → k.total_frames ≤ top → top ≤ 2 ^ 20 → account top k' ≡ account top k
  pub apart : (g : ℕ) → g < 2 ^ 20 → used k g ≡ true → IsData k g → IsData k' g
  pub bound : (n : ℕ) → (pde k v % 2 ≡ 0 → Room n k) → TablesBelow n k → TablesBelow n k'

pub left-map_entry :
    (v p f : ℕ) (k : Kernel)
    → IsSafe k
    → v < 2 ^ 32
    → p < 2 ^ 32
    → pde k v % 2 ≡ 1
    → free_frames (map_entry (pde k v / 4096 * 4096) v p f k) ≡ free_frames k
left-map_entry v p f k s hv hp present =
    let t : ℕ = pde k v / 4096 in
    let j : ℕ = v / 4096 % 1024 in
    let hj : j < 1024 = omega arith in
    let e : ℕ = entry_of p f in
    rw (map_entry_lem (t * 4096) v p f k hp) (
      free_frames-same k (entered t j e k hj) s.few (total-set_entry t j e k hj)
        (used-set_entry t j e k hj s (s.table_off (v / 2 ^ 22) (omega arith) present)))

pub spares-map_entry :
    (v p f : ℕ) (k : Kernel)
    → IsSafe k
    → v < 2 ^ 32
    → p < 2 ^ 32
    → pde k v % 2 ≡ 1
    → (l : ℕ) → l < 2 ^ 20
    → count_free (used (map_entry (pde k v / 4096 * 4096) v p f k)) l 1 ≡ count_free (used k) l 1
spares-map_entry v p f k s hv hp present l hl =
    let t : ℕ = pde k v / 4096 in
    let j : ℕ = v / 4096 % 1024 in
    let hj : j < 1024 = omega arith in
    let e : ℕ = entry_of p f in
    rw (map_entry_lem (t * 4096) v p f k hp) (
      count_free_below (used (entered t j e k hj)) (used k) l 1 (λ g low high.
        used-set_entry t j e k hj s (s.table_off (v / 2 ^ 22) (omega arith) present) g
          (omega (arith, high, hl))))

pub map_entry-Maps :
    (v p f : ℕ) (k : Kernel)
    → IsSafe k
    → v < 2 ^ 32
    → p < 2 ^ 32
    → pde k v % 2 ≡ 1
    → Maps v p f k (map_entry (pde k v / 4096 * 4096) v p f k)
map_entry-Maps v p f k s hv hp present =
    let i : ℕ = v / 2 ^ 22 in
    let hi : i < 1024 = omega arith in
    let t : ℕ = pde k v / 4096 in
    let j : ℕ = v / 4096 % 1024 in
    let hj : j < 1024 = omega arith in
    let e : ℕ = entry_of p f in
    let off = s.table_off i hi present in
    record {
      mapped = map_entry-Mapped v p f s.tables hv hp present;
      safe =
          rw (map_entry_lem (t * 4096) v p f k hp)
            (set_entry-IsSafe t j e k hj s off (s.tables.off_directory i hi present));
      protects = rw (map_entry_lem (t * 4096) v p f k hp) (record {
        taken = λ g h taken. used-set_entry t j e k hj s off g h ∙ taken;
        contents = λ x h taken directory bitmap table.
            ram-set_entry t j e k hj x (λ q. table i hi present (sym q));
      });
      total = rw (map_entry_lem (t * 4096) v p f k hp) (total-set_entry t j e k hj);
      left = omega (arith, left-map_entry v p f k s hv hp present);
      spares = λ l h. omega (arith, spares-map_entry v p f k s hv hp present l h);
      accounted = λ top few all. rw (map_entry_lem (t * 4096) v p f k hp) (
          account-same top k (entered t j e k hj)
            (ap (λ (q : Kernel). q.used_frames) (set_entry-ram t j e k hj))
            (λ g h. used-set_entry t j e k hj s off g (omega (arith, h, all))));
      apart = λ g h was no_table. rw (map_entry_lem (t * 4096) v p f k hp) (
          IsData-same k (entered t j e k hj) g
            (λ l hl. directory-set_entry t j e l k hl hj (s.tables.off_directory i hi present))
            no_table);
      bound = λ n room below. rw (map_entry_lem (t * 4096) v p f k hp) (
          TablesBelow-same k (entered t j e k hj) n
            (λ l hl. directory-set_entry t j e l k hl hj (s.tables.off_directory i hi present))
            below);
    }
