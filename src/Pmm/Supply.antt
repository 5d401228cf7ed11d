-- ===== src/Pmm/Supply.antt =====
-- How many frames `pmm_alloc_frame` of kernel/memory/pmm.c has left to give.
use kernel_v.Base.{
  ℕ, zero, suc, ◌+◌, ◌-◌, ◌^◌, ◌≤◌, ◌<◌, ◌≡◌, refl, sym, ap, ◌∙◌, arith, Bool, true, inl, inr,
  if◌then◌else◌, false, ltb, ltb→lt, ltb→le, ◌==◌, ◌||◌, Bool-cases,
}
use kernel_v.Kernel.{Kernel}
use kernel_v.Pmm.{pmm_alloc_frame}
use kernel_v.Pmm.Alloc.{Allocated, Searched, pmm_alloc_frame-Searched}
use kernel_v.Pmm.Balance.{count_free-insert}
use kernel_v.Pmm.Bitmap.{used}
use kernel_v.Pmm.Reserve.{count_free}

abbrev pub free_frames : Kernel → ℕ
free_frames k = count_free (used k) (k.total_frames - 1) 1

pub count_free_below :
    (s t : ℕ → Bool) (n f : ℕ)
    → ((g : ℕ) → f ≤ g → g < f + n → s g ≡ t g)
    → count_free s n f ≡ count_free t n f
count_free_below s t zero f h = refl
count_free_below s t (suc n) f h = rw (h f (omega arith) (omega arith)) (
    ap (λ m. (if t f then 0 else 1) + m)
      (count_free_below s t n (f + 1) (λ g p q. h g (omega arith) (omega arith))))

count_free_full :
    (s : ℕ → Bool) (n f : ℕ) → ((g : ℕ) → f ≤ g → g < f + n → s g ≡ true) → count_free s n f ≡ 0
count_free_full s zero f h = refl
count_free_full s (suc n) f h =
    rw (h f (omega arith) (omega arith))
      (omega (arith, count_free_full s n (f + 1) (λ g p q. h g (omega arith) (omega arith))))

-- One more used leaves at most one less.
pub count_free_one :
    (s t : ℕ → Bool) (n f x : ℕ)
    → f ≤ x
    → s x ≡ false
    → ((g : ℕ) → t g ≡ (x == g) || s g)
    → count_free s n f ≤ suc (count_free t n f)
count_free_one s t n f x low free set = elim (Bool-cases (ltb x (f + n))) [
  | inl inside ↦ omega (arith, count_free-insert s t n f x low (ltb→lt _ _ inside) free set)
  | inr outside ↦
      let above : f + n ≤ x = ltb→le _ _ outside in
      omega (
        arith,
        count_free_below t s n f
            (λ g p q. set g ∙ (let ne : (x == g) ≡ false = ground (arith, above, q) in rw ne refl)),
      )
]

-- What is counted can be named.
count_free_first :
    (s : ℕ → Bool) (n f : ℕ)
    → 1 ≤ count_free s n f
    → (g : ℕ) × (f ≤ g) × (g < f + n) × (s g ≡ false)
count_free_first s zero f h = absurd (omega (arith, h))
count_free_first s (suc n) f h = elim (Bool-cases (s f)) [
  | inl taken ↦
      let rest = count_free_first s n (f + 1) (ground (arith, h, taken)) in
      (rest.0, omega (arith, rest.1), omega (arith, rest.2), rest.3)
  | inr free ↦ (f, omega arith, omega arith, free)
]

pub count_free_two :
    (s : ℕ → Bool) (n f : ℕ)
    → 2 ≤ count_free s n f
    → (g h : ℕ) × (g < h) × (h < f + n) × (s g ≡ false) × (s h ≡ false)
count_free_two s zero f h = absurd (omega (arith, h))
count_free_two s (suc n) f h = elim (Bool-cases (s f)) [
  | inl taken ↦
      let rest = count_free_two s n (f + 1) (ground (arith, h, taken)) in
      (rest.0, rest.1, rest.2, omega (arith, rest.3), rest.4, rest.5)
  | inr free ↦
      let rest = count_free_first s n (f + 1) (ground (arith, h, free)) in
      (f, rest.0, omega (arith, rest.1), omega (arith, rest.2), free, rest.3)
]

-- As long as a frame is left, null is not returned.
pub pmm_alloc_frame-left :
    (k : Kernel)
    → k.total_frames ≤ 2 ^ 20
    → 1 ≤ free_frames k
    → Allocated k 1 k.total_frames (pmm_alloc_frame k)
pmm_alloc_frame-left k few left = only (pmm_alloc_frame-Searched k)
  where
    only :
        Searched k 1 k.total_frames (pmm_alloc_frame k)
        → Allocated k 1 k.total_frames (pmm_alloc_frame k)
    only (inl a) = a
    only (inr e) = absurd (
        omega (
          arith,
          left,
          count_free_full (used k) (k.total_frames - 1) 1 (λ g p q. e.none_free g p (omega arith)),
        ))

-- One less is left afterwards.
pub free_frames-Allocated :
    (k : Kernel) (r : ℕ × Kernel)
    → Allocated k 1 k.total_frames r
    → free_frames k ≡ suc (free_frames r.1)
free_frames-Allocated k r a =
    count_free-insert (used k) (used r.1) (k.total_frames - 1) 1 a.frame a.in_range.0
      (omega (arith, a.in_range.0, a.in_range.1)) a.free a.set
    ∙ ap (λ (n : ℕ). suc (count_free (used r.1) (n - 1) 1)) (sym a.kept.total_frames)

pub free_frames-same :
    (k k' : Kernel)
    → k.total_frames ≤ 2 ^ 20
    → k'.total_frames ≡ k.total_frames
    → ((g : ℕ) → g < 2 ^ 20 → used k' g ≡ used k g)
    → free_frames k' ≡ free_frames k
free_frames-same k k' few total same =
    ap (λ (n : ℕ). count_free (used k') (n - 1) 1) total
    ∙ count_free_below (used k') (used k) (k.total_frames - 1) 1 (λ g p q. same g (omega arith))

-- With none left null is returned.
pub pmm_alloc_frame-none : (k : Kernel) → free_frames k ≡ 0 → (pmm_alloc_frame k).0 ≡ 0
pmm_alloc_frame-none k none_left = only (pmm_alloc_frame-Searched k)
  where
    only : Searched k 1 k.total_frames (pmm_alloc_frame k) → (pmm_alloc_frame k).0 ≡ 0
    only (inl a) = absurd (omega (arith, none_left, free_frames-Allocated k (pmm_alloc_frame k) a))
    only (inr e) = e.null
