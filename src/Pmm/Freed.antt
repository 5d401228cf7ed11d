-- ===== src/Pmm/Freed.antt =====
-- Step 4 of `pmm_init` in kernel/memory/pmm.c: which frames the loops over the regions free.
use kernel_v.Base.{
  subst, ℕ, zero, suc, ◌+◌, ◌-◌, ◌/◌, ◌^◌, ◌≤◌, ◌<◌, ◌≡◌, refl, ap, ◌∙◌, arith, Bool, false, not,
  ◌&&◌, ◌||◌, some, u32, leb, ltb, ◌==◌, Bool-cases, inl, inr, List, [], ◌∷◌, min,
}
use kernel_v.Kernel.{Kernel}
use kernel_v.MemoryMap.{MemoryRegion}
use kernel_v.Pmm.{page_rounds, bitmap_clear, region_end, free_page, free_regions}
use kernel_v.Pmm.Bitmap.{used, used-bitmap_clear}
use kernel_v.Pmm.Pages.{pages, for_pages_stops}

-- The pages of a region whose first byte it holds, counted from the page of its base.
abbrev pub covers : MemoryRegion → ℕ → Bool
covers r g =
    leb (u32 r.base / 4096) g
    && ltb g (u32 r.base / 4096 + (region_end r + 4095 - u32 r.base) / 4096)

abbrev pub covered : List MemoryRegion → ℕ → Bool
covered [] g = false
covered (r ∷ regions) g = covers r g || covered regions g

-- How many frames a region adds to `total_frames`: those below `max_frame_idx`.
abbrev pub frames_of : ℕ → MemoryRegion → ℕ
frames_of top r =
    min (u32 r.base / 4096 + (region_end r + 4095 - u32 r.base) / 4096) top - u32 r.base / 4096

abbrev pub frames_sum : ℕ → List MemoryRegion → ℕ
frames_sum top [] = 0
frames_sum top (r ∷ regions) = frames_of top r + frames_sum top regions

-- Every region ends, as 32 bits show it, before the last page.
abbrev pub AllEnd : List MemoryRegion → Type 0
AllEnd [] = Unit
AllEnd (r ∷ regions) = (region_end r ≤ 2 ^ 32 - 4096) × AllEnd regions

-- From `k` to `k'` the frames of `s` below `top` were freed, and `n` counted.
pub record Freed (top n : ℕ) (s : ℕ → Bool) (k k' : Kernel) : Type 0 where
  pub frame_bitmap : k'.frame_bitmap ≡ k.frame_bitmap
  pub max_frame_idx : k'.max_frame_idx ≡ k.max_frame_idx
  pub mode : k'.diag.current_panik_mode ≡ k.diag.current_panik_mode
  pub set : (g : ℕ) → g < top → used k' g ≡ not (s g) && used k g
  pub counted : k'.total_frames ≡ u32 (k.total_frames + n)

fits :
    (top n : ℕ) (s t : ℕ → Bool) {k k' : Kernel}
    → ((g : ℕ) → g < top → s g ≡ t g)
    → Freed top n s k k'
    → Freed top n t k k'
fits top n s t {k} e a = record {
  frame_bitmap = a.frame_bitmap;
  max_frame_idx = a.max_frame_idx;
  mode = a.mode;
  set = λ g h. a.set g h ∙ ap (λ b. not b && used k g) (e g h);
  counted = a.counted;
}

Freed-trans :
    (top n m : ℕ) (s t : ℕ → Bool) {k k' k'' : Kernel}
    → Freed top n s k k'
    → Freed top m t k' k''
    → Freed top (n + m) (λ g. s g || t g) k k''
Freed-trans top n m s t a b = record {
  frame_bitmap = b.frame_bitmap ∙ a.frame_bitmap;
  max_frame_idx = b.max_frame_idx ∙ a.max_frame_idx;
  mode = b.mode ∙ a.mode;
  set = λ g h. ground (arith, a.set g h, b.set g h);
  counted = omega (arith, a.counted, b.counted);
}

free_page-Freed :
    (addr : ℕ) (k : Kernel)
    → k.total_frames < 2 ^ 32
    → let f : ℕ = addr / 4096 in
      Freed k.max_frame_idx (min (f + 1) k.max_frame_idx - f) (λ g. f == g) k (free_page addr k)
unfolding free_page
free_page-Freed addr k small = elim (Bool-cases (ltb (addr / 4096) k.max_frame_idx)) [
  | inl inside ↦
      let kept : ((bitmap_clear (addr / 4096) k).frame_bitmap ≡ k.frame_bitmap)
          × ((bitmap_clear (addr / 4096) k).max_frame_idx ≡ k.max_frame_idx)
          × ((bitmap_clear (addr / 4096) k).total_frames ≡ k.total_frames)
          × ((bitmap_clear (addr / 4096) k).diag.current_panik_mode ≡ k.diag.current_panik_mode) =
        unfold bitmap_clear in (refl, refl, refl, refl) in
      rw inside (record {
        frame_bitmap = kept.0;
        max_frame_idx = kept.1;
        mode = kept.3;
        set = λ g h. used-bitmap_clear (addr / 4096) g k;
        counted = ground (arith, kept.2);
      })
  | inr outside ↦ rw outside (record {
    frame_bitmap = refl;
    max_frame_idx = refl;
    mode = refl;
    set = λ g h. ground arith;
    counted = ground arith;
  })
]

pages-Freed :
    (n addr : ℕ) (k : Kernel)
    → k.total_frames < 2 ^ 32
    → let f : ℕ = addr / 4096 in
      Freed k.max_frame_idx
        (min (f + n) k.max_frame_idx - f)
        (λ g. leb f g && ltb g (f + n))
        k
        (pages free_page n addr k)
unfolding pages free_page
pages-Freed zero addr k small = record {
  frame_bitmap = refl;
  max_frame_idx = refl;
  mode = refl;
  set = λ g h. ground arith;
  counted = ground arith;
}
pages-Freed (suc n) addr k small =
    let f : ℕ = addr / 4096 in
    let top : ℕ = k.max_frame_idx in
    let first = free_page-Freed addr k small in
    let next : (addr + 4096) / 4096 ≡ f + 1 = omega arith in
    let later = pages-Freed n (addr + 4096) (free_page addr k) (omega (arith, first.counted)) in
    let rest : Freed top (min (f + 1 + n) top - (f + 1)) (λ g. leb (f + 1) g && ltb g (f + 1 + n))
        (free_page addr k) (pages free_page n (addr + 4096) (free_page addr k)) =
      rw (next, first.max_frame_idx) at later in
    let both =
      Freed-trans top (min (f + 1) top - f) (min (f + 1 + n) top - (f + 1)) (λ g. f == g)
        (λ g. leb (f + 1) g && ltb g (f + 1 + n)) first rest in
    let amount : min (f + 1) top - f + (min (f + 1 + n) top - (f + 1)) ≡ min (f + suc n) top - f =
      ground arith in
    fits top (min (f + suc n) top - f) (λ g. (f == g) || (leb (f + 1) g && ltb g (f + 1 + n)))
      (λ g. leb f g && ltb g (f + suc n)) (λ g h. ground arith) (rw amount at both)

-- Step 4.
pub free_regions-Freed :
    (regions : List MemoryRegion) (k : Kernel)
    → k.total_frames < 2 ^ 32
    → AllEnd regions
    → (k' : Kernel) × (free_regions regions k ≡ some k')
      × Freed k.max_frame_idx (frames_sum k.max_frame_idx regions) (covered regions) k k'
unfolding free_regions page_rounds
free_regions-Freed [] k small ends = (
  k,
  refl,
  record {
    frame_bitmap = refl;
    max_frame_idx = refl;
    mode = refl;
    set = λ g h. refl;
    counted = omega arith;
  },
)
free_regions-Freed (r ∷ regions) k small ends =
    let top : ℕ = k.max_frame_idx in
    let n : ℕ = (region_end r + 4095 - u32 r.base) / 4096 in
    let k₁ : Kernel = pages free_page n (u32 r.base) k in
    let first = pages-Freed n (u32 r.base) k small in
    let stops =
      for_pages_stops free_page (2 ^ 20 + 1) n (u32 r.base) (region_end r) k ends.0 refl
        (omega arith) in
    let ih = free_regions-Freed regions k₁ (omega (arith, first.counted)) ends.1 in
    let rest : Freed top (frames_sum top regions) (covered regions) k₁ ih.0 =
      subst (λ t. Freed t (frames_sum t regions) (covered regions) k₁ ih.0) first.max_frame_idx
        ih.2 in
    (
      ih.0,
      rw stops ih.1,
      Freed-trans top (frames_of top r) (frames_sum top regions) (covers r) (covered regions) first
          rest,
    )
