-- ===== src/Pmm/Free.antt =====
-- `pmm_free_frame` of kernel/memory/pmm.c against a set of used frames.
use kernel_v.Base.{
  ◌⊎◌, ℕ, ◌/◌, ◌^◌, ◌≤◌, ◌<◌, ◌≡◌, ◌≢◌, refl, sym, ap, ◌∙◌, arith, not, ◌&&◌, sub32, ltb, ltb→lt,
  lt→ltb, ltb→le, ◌==◌, Bool-cases, inl, inr, ==_iff,
}
use kernel_v.Kernel.{Kernel}
use kernel_v.Pmm.{bitmap_clear, pmm_alloc_frame, pmm_free_frame}
use kernel_v.Pmm.Bitmap.{used, used-bitmap_clear}
use kernel_v.Pmm.Alloc.{Allocated, pmm_alloc_frame-ne_null}
use kernel_v.Pmm.Reserve.{Kept}

-- Each branch under its condition.
pub pmm_free_frame_cases :
    (addr : ℕ) (k : Kernel)
    → let k' = pmm_free_frame addr k in
      (addr / 4096 < k.total_frames
        → ((g : ℕ) → used k' g ≡ not (addr / 4096 == g) && used k g)
          × (k'.used_frames ≡ sub32 k.used_frames 1))
      × (k.total_frames ≤ addr / 4096
          → (k'.ram ≡ k.ram) × ((g : ℕ) → used k' g ≡ used k g) × (k'.used_frames ≡ k.used_frames))
unfolding pmm_free_frame
pmm_free_frame_cases addr k = elim (Bool-cases (ltb (addr / 4096) k.total_frames)) [
  | inl inside ↦ rw inside (
    λ h. (λ g. used-bitmap_clear (addr / 4096) g k, refl),
    λ h. absurd (omega (arith, ltb→lt _ _ inside)),
  )
  | inr outside ↦
      rw outside (λ h. absurd (omega (arith, ltb→le _ _ outside)), λ h. (refl, λ g. refl, refl))
]

-- Freeing an address below `total_frames` pages: its frame is free then, every other is as before,
-- one less is counted, and no byte in front of the bitmap changes.
pub pmm_free_frame_inside :
    (addr : ℕ) (k : Kernel)
    → addr / 4096 < k.total_frames
    → let k' = pmm_free_frame addr k in
      ((g : ℕ) → used k' g ≡ not (addr / 4096 == g) && used k g)
      × (k'.used_frames ≡ sub32 k.used_frames 1)
      × ((x : ℕ) → x < k.frame_bitmap → k'.ram x ≡ k.ram x)
unfolding pmm_free_frame bitmap_clear
pmm_free_frame_inside addr k inside =
    let freed = (pmm_free_frame_cases addr k).0 inside in
    (freed.0, freed.1, λ x h. rw (lt→ltb (addr / 4096) k.total_frames inside) (ground arith))

-- Freeing an address from `total_frames` pages on changes nothing but the console.
pub pmm_free_frame_outside :
    (addr : ℕ) (k : Kernel)
    → k.total_frames ≤ addr / 4096
    → let k' = pmm_free_frame addr k in
      (k'.ram ≡ k.ram) × ((g : ℕ) → used k' g ≡ used k g) × (k'.used_frames ≡ k.used_frames)
pmm_free_frame_outside addr k outside = (pmm_free_frame_cases addr k).1 outside

-- Freeing an address: below `total_frames` pages its frame is free then, every other is as before, one
-- less is counted, with 32 bits, and no byte in front of the bitmap changes. From there on memory, the
-- frames and the count stay as they are.
pub pmm_free_frame_lem :
    (addr : ℕ) (k : Kernel)
    → let k' = pmm_free_frame addr k in
      ((addr / 4096 < k.total_frames)
        × ((g : ℕ) → used k' g ≡ not (addr / 4096 == g) && used k g)
        × (k'.used_frames ≡ sub32 k.used_frames 1)
        × ((x : ℕ) → x < k.frame_bitmap → k'.ram x ≡ k.ram x))
      ⊎ ((k.total_frames ≤ addr / 4096)
          × (k'.ram ≡ k.ram)
          × ((g : ℕ) → used k' g ≡ used k g)
          × (k'.used_frames ≡ k.used_frames))
pmm_free_frame_lem addr k = elim (Bool-cases (ltb (addr / 4096) k.total_frames)) [
  | inl e ↦
      let inside = ltb→lt (addr / 4096) k.total_frames e in
      let r = pmm_free_frame_inside addr k inside in inl (inside, r.0, r.1, r.2)
  | inr e ↦
      let outside = ltb→le (addr / 4096) k.total_frames e in
      let r = pmm_free_frame_outside addr k outside in inr (outside, r.0, r.1, r.2)
]

-- With at most `2 ^ 20` frames and a count of 32 bits, what was allocated can be freed: the set of
-- used frames and their count are then as before.
pub pmm_free_frame-pmm_alloc_frame :
    (k : Kernel)
    → k.total_frames ≤ 2 ^ 20
    → k.used_frames < 2 ^ 32
    → (pmm_alloc_frame k).0 ≢ 0
    → let k' = pmm_free_frame (pmm_alloc_frame k).0 (pmm_alloc_frame k).1 in
      ((g : ℕ) → used k' g ≡ used k g) × (k'.used_frames ≡ k.used_frames)
pmm_free_frame-pmm_alloc_frame k few small ne =
    let a = pmm_alloc_frame-ne_null k few ne in
    let index : (pmm_alloc_frame k).0 / 4096 ≡ a.frame = omega (arith, a.address, a.in_range.1) in
    let inside : (pmm_alloc_frame k).0 / 4096 < (pmm_alloc_frame k).1.total_frames =
      omega (arith, a.in_range.1, a.kept.total_frames) in
    let freed = (pmm_free_frame_cases (pmm_alloc_frame k).0 (pmm_alloc_frame k).1).0 inside in
    (λ g. freed.0 g ∙ back a index g, freed.1 ∙ omega (arith, a.counted))
  where
    back :
        (a : Allocated k 1 k.total_frames (pmm_alloc_frame k))
        → (pmm_alloc_frame k).0 / 4096 ≡ a.frame
        → (g : ℕ)
        → not ((pmm_alloc_frame k).0 / 4096 == g) && used (pmm_alloc_frame k).1 g ≡ used k g
    back a index g =
        rw (index, a.set g)
          (elim (Bool-cases (a.frame == g)) [
            | inl e ↦ rw e (sym (ap (used k) (sym ((==_iff a.frame g).0 e)) ∙ a.free))
            | inr e ↦ rw e refl
          ])

pub pmm_free_frame-Kept : (addr : ℕ) (k : Kernel) → Kept k (pmm_free_frame addr k)
unfolding pmm_free_frame bitmap_clear
pmm_free_frame-Kept addr k = elim (Bool-cases (ltb (addr / 4096) k.total_frames)) [
  | inl inside ↦ rw inside (record {
    frame_bitmap = refl;
    total_frames = refl;
    max_frame_idx = refl;
    cr3 = refl;
    mode = refl;
    outside = λ x h. ground arith;
  })
  | inr outside ↦ rw outside (record {
    frame_bitmap = refl;
    total_frames = refl;
    max_frame_idx = refl;
    cr3 = refl;
    mode = refl;
    outside = λ x h. refl;
  })
]
