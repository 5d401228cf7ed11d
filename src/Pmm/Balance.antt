-- ===== src/Pmm/Balance.antt =====
-- The accounting of kernel/memory/pmm.c: `used_frames` against the set of used frames.
use kernel_v.Base.{
  ℕ, zero, suc, ◌+◌, ◌/◌, ◌^◌, ◌≤◌, ◌<◌, ◌≡◌, refl, sym, ap, ◌∙◌, arith, Bool, true, false, not,
  ◌&&◌, ◌||◌, ◌==◌, Bool-cases, inl, inr, ==_iff,
}
use kernel_v.Kernel.{Kernel}
use kernel_v.Pmm.{pmm_alloc_frame, pmm_free_frame}
use kernel_v.Pmm.Alloc.{Searched, pmm_alloc_frame-Searched}
use kernel_v.Pmm.Free.{pmm_free_frame_cases}
use kernel_v.Pmm.Bitmap.{used}
use kernel_v.Pmm.Reserve.{count_free, count_free_ext}

-- The numbers of used and of free frames below `n` make up a constant: allocation keeps it.
abbrev pub balance : ℕ → Kernel → ℕ
balance n k = k.used_frames + count_free (used k) n 0

pub count_free-insert :
    (s t : ℕ → Bool) (n lo f : ℕ)
    → lo ≤ f
    → f < lo + n
    → s f ≡ false
    → ((g : ℕ) → t g ≡ (f == g) || s g)
    → count_free s n lo ≡ suc (count_free t n lo)
count_free-insert s t zero lo f h k free set = absurd (omega arith)
count_free-insert s t (suc n) lo f h k free set = elim (Bool-cases (f == lo)) [
  | inl e ↦
      let here : f ≡ lo = (==_iff f lo).0 e in
      let was : s lo ≡ false = ap s (sym here) ∙ free in
      let now : t lo ≡ true = set lo ∙ rw e refl in
      let rest : count_free s n (lo + 1) ≡ count_free t n (lo + 1) =
        count_free_ext s t n (lo + 1) (λ g p. sym (set g ∙ ground arith)) in
      rw (was, now, rest) (omega arith)
  | inr e ↦
      let same : t lo ≡ s lo = set lo ∙ rw e refl in
      let ih = count_free-insert s t n (lo + 1) f (ground arith) (omega arith) free set in
      rw (same, ih) (omega arith)
]

-- An allocation, null or not, keeps the sum of the count of used frames and the free frames below
-- any `n` from `total_frames` on, if the count is not about to wrap.
pub balance-pmm_alloc_frame :
    (n : ℕ) (k : Kernel)
    → k.total_frames ≤ n
    → k.used_frames + 1 < 2 ^ 32
    → balance n (pmm_alloc_frame k).1 ≡ balance n k
balance-pmm_alloc_frame n k h small = either (pmm_alloc_frame-Searched k)
  where
    either :
        Searched k 1 k.total_frames (pmm_alloc_frame k)
        → balance n (pmm_alloc_frame k).1 ≡ balance n k
    either (inl a) = omega (
      arith,
      a.counted,
      count_free-insert (used k) (used (pmm_alloc_frame k).1) n 0 a.frame (omega arith)
          (omega (arith, a.in_range.1)) a.free a.set,
    )
    either (inr e) = omega (
      arith,
      e.counted,
      count_free_ext (used (pmm_alloc_frame k).1) (used k) n 0 (λ g p. e.set g),
    )

-- What a free gives back, put back.
pub refilled :
    (addr : ℕ) (k k' : Kernel)
    → ((g : ℕ) → used k' g ≡ not (addr / 4096 == g) && used k g)
    → used k (addr / 4096) ≡ true
    → (g : ℕ) → used k g ≡ (addr / 4096 == g) || used k' g
refilled addr k k' freed taken g = rw (freed g) (elim (Bool-cases (addr / 4096 == g)) [
  | inl e ↦ rw e (ap (used k) (sym ((==_iff (addr / 4096) g).0 e)) ∙ taken)
  | inr e ↦ rw e refl
])

untouched :
    (addr : ℕ) (k : Kernel)
    → used k (addr / 4096) ≡ false
    → (g : ℕ) → not (addr / 4096 == g) && used k g ≡ used k g
untouched addr k unused g = elim (Bool-cases (addr / 4096 == g)) [
  | inl e ↦ rw e (sym (ap (used k) (sym ((==_iff (addr / 4096) g).0 e)) ∙ unused))
  | inr e ↦ rw e refl
]

-- Freeing a frame below `total_frames` that is used, while the count is not 0, keeps the sum of the
-- count of used frames and the free frames below any `n` from `total_frames` on.
pub balance-pmm_free_frame :
    (n addr : ℕ) (k : Kernel)
    → addr / 4096 < k.total_frames
    → k.total_frames ≤ n
    → 0 < k.used_frames
    → k.used_frames < 2 ^ 32
    → used k (addr / 4096) ≡ true
    → balance n (pmm_free_frame addr k) ≡ balance n k
balance-pmm_free_frame n addr k inside h pos small taken =
    let f : ℕ = addr / 4096 in
    let freed = (pmm_free_frame_cases addr k).0 inside in
    omega (
      arith,
      freed.1,
      count_free-insert (used (pmm_free_frame addr k)) (used k) n 0 f (omega arith) (omega arith)
          (freed.0 f ∙ ground arith) (refilled addr k (pmm_free_frame addr k) freed.0 taken),
    )

-- Freeing a frame below `total_frames` that is free already, while the count is not 0, is not noticed: the set of used frames stays as it is, and
-- one used frame too few is counted from then on.
pub balance-double_free :
    (n addr : ℕ) (k : Kernel)
    → addr / 4096 < k.total_frames
    → 0 < k.used_frames
    → k.used_frames < 2 ^ 32
    → used k (addr / 4096) ≡ false
    → ((g : ℕ) → used (pmm_free_frame addr k) g ≡ used k g)
      × (suc (balance n (pmm_free_frame addr k)) ≡ balance n k)
balance-double_free n addr k inside pos small unused =
    let freed = (pmm_free_frame_cases addr k).0 inside in
    let same : (g : ℕ) → used (pmm_free_frame addr k) g ≡ used k g =
      λ g. freed.0 g ∙ untouched addr k unused g in
    (
      same,
      omega (
        arith,
        freed.1,
        count_free_ext (used (pmm_free_frame addr k)) (used k) n 0 (λ g p. same g),
      ),
    )
