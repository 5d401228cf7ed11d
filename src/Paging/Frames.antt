-- ===== src/Paging/Frames.antt =====
-- kernel/memory/pmm.c beside the page tables: its operations keep them safe.
use kernel_v.Base.{
  ℕ, zero, suc, ◌+◌, ◌*◌, ◌/◌, ◌^◌, ◌≤◌, ◌<◌, ◌≡◌, ◌≢◌, ◌⊎◌, sym, ◌∙◌, arith, ◌==◌, inl, inr, ◌-◌,
  Bool-cases, true, false, u32, ltb, ◌||◌, some, ltb→lt, ltb→le,
}
use kernel_v.Kernel.{Kernel}
use kernel_v.Pmm.{pmm_set_frame_bitmap, use_page, pmm_alloc_frame, pmm_free_frame}
use kernel_v.Pmm.Alloc.{Allocated, Exhausted, Searched, pmm_alloc_frame-Searched}
use kernel_v.Pmm.Bitmap.{used, used-bitmap_set}
use kernel_v.Pmm.Free.{pmm_free_frame_cases, pmm_free_frame-Kept}
use kernel_v.Pmm.Pages.{pages}
use kernel_v.Pmm.Reserve.{
  Kept, bitmap_set-Kept, pmm_set_frame_bitmap-pages, use_page_free, use_page-used,
}
use kernel_v.Paging.Safe.{IsSafe, Spares, Spares-IsSafe, directory_off_bitmap, table_of, IsLinked}

-- An operation that adds to the used frames and writes nothing below the bitmap.
Kept-Spares :
    {k k' : Kernel}
    → IsSafe k
    → Kept k k'
    → k'.used_frames < 2 ^ 32
    → ((g : ℕ) → used k g ≡ true → used k' g ≡ true)
    → Spares k k'
Kept-Spares {k} {k'} s kept small more = record {
  at = kept.frame_bitmap;
  total = kept.total_frames;
  cr3 = kept.cr3;
  mode = kept.mode;
  small = small;
  directory = λ i h. directory_off_bitmap i k k' h (λ x low. kept.outside x (omega (arith, s.at)));
  low_used = λ g h. more g (s.low_used g h);
  table_used = λ i h present. more (table_of k i) (s.table_used i h present);
}

more_used : (k : Kernel) (f g : ℕ) → used k g ≡ true → (f == g) || used k g ≡ true
more_used k f g taken = rw taken (ground arith)

Allocated-IsSafe :
    {k : Kernel} {lo hi : ℕ} {r : ℕ × Kernel} → IsSafe k → Allocated k lo hi r → IsSafe r.1
Allocated-IsSafe {k} {lo} {hi} {r} s a = Spares-IsSafe s (
    Kept-Spares s a.kept (omega (arith, a.counted))
      (λ g taken. a.set g ∙ more_used k a.frame g taken))

Exhausted-IsSafe :
    {k : Kernel} {lo hi : ℕ} {r : ℕ × Kernel} → IsSafe k → Exhausted k lo hi r → IsSafe r.1
Exhausted-IsSafe s e =
    Spares-IsSafe s
      (Kept-Spares s e.kept (omega (arith, e.counted, s.small)) (λ g taken. e.set g ∙ taken))

-- An allocation keeps the conditions, whether it succeeds or not.
pub pmm_alloc_frame-IsSafe : (k : Kernel) → IsSafe k → IsSafe (pmm_alloc_frame k).1
pmm_alloc_frame-IsSafe k s = either (pmm_alloc_frame-Searched k)
  where
    either : Searched k 1 k.total_frames (pmm_alloc_frame k) → IsSafe (pmm_alloc_frame k).1
    either (inl a) = Allocated-IsSafe s a
    either (inr e) = Exhausted-IsSafe s e

pub use_page-IsSafe : (f : ℕ) (k : Kernel) → IsSafe k → IsSafe (use_page (f * 4096) k)
use_page-IsSafe f k s = elim (Bool-cases (used k f)) [
  | inl taken ↦ rw (use_page-used f k taken) s
  | inr free ↦
      let n : ℕ = u32 (k.used_frames + 1) in
      rw (use_page_free f k free) (
        Spares-IsSafe s (
          Kept-Spares s (bitmap_set-Kept f n k) (omega arith)
            (λ g taken. used-bitmap_set f g k ∙ more_used k f g taken)))
]

pages-IsSafe : (n f : ℕ) (k : Kernel) → IsSafe k → IsSafe (pages use_page n (f * 4096) k)
unfolding pages
pages-IsSafe zero f k s = s
pages-IsSafe (suc n) f k s =
    let next : f * 4096 + 4096 ≡ (f + 1) * 4096 = omega arith in
    rw next (pages-IsSafe n (f + 1) (use_page (f * 4096) k) (use_page-IsSafe f k s))

pub pmm_set_frame_bitmap-IsSafe :
    (start end : ℕ) {k : Kernel}
    → start < 2 ^ 32
    → IsSafe k
    → (k' : Kernel) × (pmm_set_frame_bitmap start end k ≡ some k') × IsSafe k'
pmm_set_frame_bitmap-IsSafe start end {k} h s =
    let n : ℕ = u32 (end + 4095) / 4096 - start / 4096 in
    (
      pages use_page n (start / 4096 * 4096) k,
      pmm_set_frame_bitmap-pages start end k h,
      pages-IsSafe n (start / 4096) k s,
    )

-- Freeing keeps them where the frame lies above the low megabyte and is no table's.
pub pmm_free_frame-IsSafe :
    (addr : ℕ) {k : Kernel}
    → IsSafe k
    → 256 ≤ addr / 4096
    → ((i : ℕ) → i < 1024 → IsLinked k i → table_of k i ≢ addr / 4096)
    → IsSafe (pmm_free_frame addr k)
pmm_free_frame-IsSafe addr {k} s high no_table =
    let kept = pmm_free_frame-Kept addr k in
    let k' : Kernel = pmm_free_frame addr k in
    Spares-IsSafe s (record {
      at = kept.frame_bitmap;
      total = kept.total_frames;
      cr3 = kept.cr3;
      mode = kept.mode;
      small = either_count;
      directory =
          λ i h. directory_off_bitmap i k k' h (λ x low. kept.outside x (omega (arith, s.at)));
      low_used = λ g h. other g (omega (arith, high, h)) (s.low_used g h);
      table_used = λ i h present.
          other (table_of k i) (λ e. no_table i h present (sym e)) (s.table_used i h present);
    })
  where
    side : (addr / 4096 < k.total_frames) ⊎ (k.total_frames ≤ addr / 4096)
    side = elim (Bool-cases (ltb (addr / 4096) k.total_frames)) [
      | inl e ↦ inl (ltb→lt _ _ e)
      | inr e ↦ inr (ltb→le _ _ e)
    ]

    either_count : (pmm_free_frame addr k).used_frames < 2 ^ 32
    either_count = elim side [
      | inl h ↦ omega (arith, ((pmm_free_frame_cases addr k).0 h).1)
      | inr h ↦ omega (arith, ((pmm_free_frame_cases addr k).1 h).2, s.small)
    ]

    other : (g : ℕ) → addr / 4096 ≢ g → used k g ≡ true → used (pmm_free_frame addr k) g ≡ true
    other g ne taken = elim side [
      | inl h ↦
          let e : (addr / 4096 == g) ≡ false = ground arith in
          ((pmm_free_frame_cases addr k).0 h).0 g ∙ rw e taken
      | inr h ↦ ((pmm_free_frame_cases addr k).1 h).1 g ∙ taken
    ]
