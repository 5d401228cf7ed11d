-- ===== src/Paging/Demand.antt =====
-- Mapping a page to a frame that was just allocated, as kernel/memory/page_fault.c and
-- kernel/main/kernel.c do with kernel/memory/pmm.c and kernel/memory/paging.c.
use kernel_v.Base.{
  ℕ, ◌+◌, ◌*◌, ◌/◌, ◌%◌, ◌^◌, ◌≤◌, ◌<◌, ◌≡◌, ◌≢◌, ◌⊎◌, refl, sym, ap, subst, ◌∙◌, arith, ◌==◌, inl,
  inr, true, false, some,
}
use kernel_v.Kernel.{Kernel}
use kernel_v.Panik.{Diag, normal, returns}
use kernel_v.Paging.{paging_map_page, get_entry, page_directory}
use kernel_v.Paging.Frames.{pmm_alloc_frame-IsSafe}
use kernel_v.Paging.Grow.{load32_elsewhere}
use kernel_v.Paging.Map.{pde, walk-same, mapping, entry_of}
use kernel_v.Paging.Mapping.{Maps, Protects, IsData, IsData-same, TablesBelow, TablesBelow-same}
use kernel_v.Paging.Room.{frame_high, Rooms, Rooms-Room}
use kernel_v.Paging.Safe.{diag-IsSafe, IsSafe, IsSafe-Guarded, OffBitmap, directory_off_bitmap}
use kernel_v.Paging.Total.{paging_map_page_cases}
use kernel_v.Paging.Walk.{walk}
use kernel_v.Pmm.{pmm_alloc_frame}
use kernel_v.Pmm.Alloc.{Allocated}
use kernel_v.Pmm.Bitmap.{used}
use kernel_v.Pmm.Reserve.{count_free}
use kernel_v.Pmm.Supply.{count_free_one, free_frames, free_frames-Allocated, pmm_alloc_frame-left}

-- From `k` to `k'` the page of `v` was mapped to a frame of its own, which was not used, writable and
-- for the kernel alone. Every other page is mapped as before, the conditions hold again, no data was
-- overwritten, the frame holds no table, and at most two frames less are left.
pub record Demanded (v : ℕ) (k k' : Kernel) : Type 0 where
  pub frame : ℕ
  pub high : 256 ≤ frame
  pub small : frame < 2 ^ 20
  pub fresh : used k frame ≡ false
  pub held : used k' frame ≡ true
  pub maps : walk k' v ≡ some (frame * 4096 + 3)
  pub others : (w : ℕ) → w < 2 ^ 32 → w / 4096 ≢ v / 4096 → walk k' w ≡ walk k w
  pub safe : IsSafe k'
  pub protects : Protects k k'
  pub total : k'.total_frames ≡ k.total_frames
  pub left : free_frames k ≤ free_frames k' + 2
  pub spares : (l : ℕ) → l < 2 ^ 20 → count_free (used k) l 1 ≤ count_free (used k') l 1 + 2
  pub is_data : IsData k' frame
  pub apart : (g : ℕ) → g < 2 ^ 20 → used k g ≡ true → IsData k g → IsData k' g
  pub bound : (n : ℕ) → (pde k v % 2 ≡ 0 → Rooms n k) → TablesBelow n k → TablesBelow n k'

-- Addresses of one page are mapped alike.
pub same_page : (k : Kernel) (a w : ℕ) → w / 4096 ≡ a / 4096 → walk k w ≡ walk k a
same_page k a w e = let table : w / 2 ^ 22 ≡ a / 2 ^ 22 = omega (arith, e) in rw (e, table) refl

-- What an allocation does to the tables: nothing.
module _ {k : Kernel} {r : ℕ × Kernel} (s : IsSafe k) (a : Allocated k 1 k.total_frames r) where
  directory : (i : ℕ) → i < 1024 → get_entry page_directory i r.1 ≡ get_entry page_directory i k
  directory i h = directory_off_bitmap i k r.1 h (λ x low. a.kept.outside x (omega (arith, s.at)))

  pub pde-Allocated : (w : ℕ) → w < 2 ^ 32 → pde r.1 w ≡ pde k w
  pde-Allocated w h = directory (w / 2 ^ 22) (omega arith)

  pub walk-Allocated : (w : ℕ) → w < 2 ^ 32 → walk r.1 w ≡ walk k w
  walk-Allocated w h =
      walk-same k r.1 w s.tables.loaded (a.kept.cr3 ∙ s.tables.loaded) (pde-Allocated w h)
        (λ present.
          load32_elsewhere (pde k w / 4096) (w / 4096 % 1024) (k.frame_bitmap + a.frame / 8) k r.1
            (omega arith)
            ((IsSafe-Guarded s).bitmap_off_tables _ (w / 2 ^ 22) (omega arith)
              (omega (arith, a.in_range.1)) (omega arith) present)
            a.elsewhere)

  pub TablesBelow-Allocated : (n : ℕ) → TablesBelow n k → TablesBelow n r.1
  TablesBelow-Allocated n below = TablesBelow-same k r.1 n directory below

  pub no_table-Allocated : IsData r.1 a.frame
  no_table-Allocated =
      IsData-same k r.1 a.frame directory
        (λ i h present e. cc (a.free, s.table_used i h present, ap (used k) e))

  Protects-Allocated : {k' : Kernel} → Protects r.1 k' → Protects k k'
  Protects-Allocated {k'} later = record {
    taken = λ g h was. later.taken g h (more g was);
    contents = λ x h was off_directory bitmap table.
        later.contents x h (more (x / 4096) was) off_directory bitmap (λ i hi present.
          rw (directory i hi) (table i hi (ap (λ (e : ℕ). e % 2) (sym (directory i hi)) ∙ present)))
        ∙ a.elsewhere x (λ e. in_bitmap x bitmap e);
  }
    where
      more : (g : ℕ) → used k g ≡ true → used r.1 g ≡ true
      more g was = a.set g ∙ rw was (ground arith)

      in_bitmap : (x : ℕ) → OffBitmap (x / 4096) → k.frame_bitmap + a.frame / 8 ≢ x
      in_bitmap x (inl below) e = omega (arith, below, e, s.at)
      in_bitmap x (inr above) e = omega (arith, above, e, s.at, a.in_range.1, s.few)

  pub Maps-Demanded :
      (v : ℕ) {k' : Kernel} → v < 2 ^ 32 → Maps v (a.frame * 4096) 3 r.1 k' → Demanded v k k'
  Maps-Demanded v {k'} hv m = record {
    frame = a.frame;
    high = frame_high s a.free;
    small = omega (arith, a.in_range.1, s.few);
    fresh = a.free;
    held =
        m.protects.taken a.frame (omega (arith, a.in_range.1, s.few))
          (a.set a.frame ∙ ground arith);
    maps = m.mapped.maps ∙ present;
    others = λ w h ne. m.mapped.others w h ne ∙ walk-Allocated w h;
    safe = m.safe;
    protects = Protects-Allocated m.protects;
    total = m.total ∙ a.kept.total_frames;
    left = omega (arith, m.left, free_frames-Allocated k r a);
    spares = λ l h. omega (
      arith,
      m.spares l h,
      count_free_one (used k) (used r.1) l 1 a.frame a.in_range.0 a.free a.set,
    );
    is_data =
        m.apart a.frame (omega (arith, a.in_range.1, s.few)) (a.set a.frame ∙ ground arith)
          no_table-Allocated;
    apart = λ g h was no_table.
        m.apart g h (a.set g ∙ rw was (ground arith)) (IsData-same k r.1 g directory no_table);
    bound = λ n rooms below.
        m.bound n
          (λ even.
            Rooms-Room s a n (rooms (ap (λ (e : ℕ). e % 2) (sym (pde-Allocated v hv)) ∙ even)))
          (TablesBelow-Allocated n below);
  }
    where
      present : mapping (entry_of (a.frame * 4096) 3) ≡ some (a.frame * 4096 + 3)
      present =
          let e : entry_of (a.frame * 4096) 3 ≡ a.frame * 4096 + 3 = omega arith in
          let odd : ((a.frame * 4096 + 3) % 2 == 0) ≡ false = ground arith in
          ap mapping e ∙ rw odd refl

-- The messages do not matter.
Maps-diag :
    (v p f : ℕ) (d : Diag) {k k' : Kernel} → Maps v p f (record k { diag = d }) k' → Maps v p f k k'
Maps-diag v p f d m = record {
  mapped = record { maps = m.mapped.maps; others = m.mapped.others; valid = m.mapped.valid };
  safe = m.safe;
  protects = record { taken = m.protects.taken; contents = m.protects.contents };
  total = m.total;
  left = m.left;
  spares = m.spares;
  apart = m.apart;
  bound = m.bound;
  accounted = m.accounted;
}

-- Two frames are enough, or one where the table is there.
abbrev pub Enough : (v : ℕ) → Kernel → Type 0
Enough v k = (2 ≤ free_frames k) ⊎ ((1 ≤ free_frames k) × (pde k v % 2 ≡ 1))

-- With frames enough a page is mapped to a new one, whatever is printed between the calls.
pub demand_page :
    (v : ℕ) (k : Kernel) (d : Diag)
    → IsSafe k
    → d.current_panik_mode ≡ normal
    → v < 2 ^ 32
    → Enough v k
    → ((pmm_alloc_frame k).0 ≢ 0)
      × ((k' : Kernel) × (paging_map_page v
              (pmm_alloc_frame k).0
              3
              (record (pmm_alloc_frame k).1 { diag = d })
            ≡ returns k')
          × (d : Demanded v k k') × ((pmm_alloc_frame k).0 ≡ d.frame * 4096))
unfolding Maps-Demanded
demand_page v k d s mode hv enough =
    let r : ℕ × Kernel = pmm_alloc_frame k in
    let a : Allocated k 1 k.total_frames r = pmm_alloc_frame-left k s.few (some_left enough) in
    let at : r.0 ≡ a.frame * 4096 = a.address ∙ omega (arith, a.in_range.1, s.few) in
    let k₁ : Kernel = record r.1 { diag = d } in
    let mapped =
      (paging_map_page_cases v r.0 3 k₁ (diag-IsSafe d r.1 mode (pmm_alloc_frame-IsSafe k s)) hv
          (omega (arith, a.address))).0
        (supplied a enough) in
    (
      λ null. omega (arith, null, at, a.in_range.0),
      (
        mapped.0,
        mapped.1,
        Maps-Demanded s a v hv
            (Maps-diag v (a.frame * 4096) 3 d (subst (λ p. Maps v p 3 k₁ mapped.0) at mapped.2)),
        at,
      ),
    )
  where
    some_left : Enough v k → 1 ≤ free_frames k
    some_left (inl two) = omega (arith, two)
    some_left (inr (one, present)) = one

    supplied :
        Allocated k 1 k.total_frames (pmm_alloc_frame k)
        → Enough v k
        → (pde (pmm_alloc_frame k).1 v % 2 ≡ 1)
          ⊎ ((pmm_alloc_frame (record (pmm_alloc_frame k).1 { diag = d })).0 ≢ 0)
    supplied a (inr (one, present)) = inl (ap (λ (e : ℕ). e % 2) (pde-Allocated s a v hv) ∙ present)
    supplied a (inl two) =
        let k₁ : Kernel = record (pmm_alloc_frame k).1 { diag = d } in
        let few : k₁.total_frames ≤ 2 ^ 20 = omega (arith, a.kept.total_frames, s.few) in
        let b =
          pmm_alloc_frame-left k₁ few
            (omega (arith, two, free_frames-Allocated k (pmm_alloc_frame k) a)) in
        inr (λ null. omega (arith, null, b.address, b.in_range.0, b.in_range.1, few))

unfoldable pub Demanded-diag :
    (v : ℕ) (d : Diag) {k k' : Kernel} → Demanded v (record k { diag = d }) k' → Demanded v k k'
Demanded-diag v d m = record {
  frame = m.frame;
  high = m.high;
  small = m.small;
  fresh = m.fresh;
  held = m.held;
  maps = m.maps;
  others = m.others;
  safe = m.safe;
  protects = record { taken = m.protects.taken; contents = m.protects.contents };
  total = m.total;
  left = m.left;
  spares = m.spares;
  is_data = m.is_data;
  apart = m.apart;
  bound = m.bound;
}
