-- ===== src/Paging/Room.antt =====
-- kernel/memory/pmm.c: the lowest free frames are given first, so tables stand low.
use kernel_v.Base.{
  ℕ, ◌*◌, ◌≤◌, ◌<◌, ◌≡◌, ◌∙◌, arith, ◌==◌, inl, inr, Bool-cases, false, ltb, ltb→lt, ltb→le,
}
use kernel_v.Kernel.{Kernel}
use kernel_v.Paging.Mapping.{Room}
use kernel_v.Paging.Safe.{IsSafe}
use kernel_v.Pmm.{pmm_alloc_frame}
use kernel_v.Pmm.Alloc.{Allocated, pmm_alloc_frame-Searched}
use kernel_v.Pmm.Bitmap.{used}

pub frame_high : {k : Kernel} {f : ℕ} → IsSafe k → used k f ≡ false → 256 ≤ f
frame_high {k} {f} s free = elim (Bool-cases (ltb f 256)) [
  | inl low ↦ absurd (cc (free, s.low_used f (ltb→lt _ _ low)))
  | inr above ↦ ltb→le _ _ above
]

-- Two frames below frame `n` are free.
abbrev pub Rooms : ℕ → Kernel → Type 0
Rooms n k = (g : ℕ) × (h : ℕ) × (g < h) × (h < n) × (used k g ≡ false) × (used k h ≡ false)

module _ {k : Kernel} {r : ℕ × Kernel} (s : IsSafe k) (a : Allocated k 1 k.total_frames r) where
  least : (g : ℕ) → used k g ≡ false → a.frame ≤ g
  least g free = elim (Bool-cases (ltb g a.frame)) [
    | inl lower ↦
        let low = frame_high {f = g} s free in
        absurd (cc (free, a.least g (omega (arith, low)) (ltb→lt _ _ lower)))
    | inr above ↦ ltb→le _ _ above
  ]

  pub Allocated-Room : (n : ℕ) → Room n k → a.frame < n
  Allocated-Room n (inl few) = omega (arith, few, a.in_range.1)
  Allocated-Room n (inr (g, below, free)) = omega (arith, below, least g free)

  pub Rooms-Room : (n : ℕ) → Rooms n k → Room n r.1
  Rooms-Room n (g, h, lower, below, free, free') = elim (Bool-cases (a.frame == g)) [
    | inl same ↦ inr (h, below, other h free' (ground arith))
    | inr differ ↦ inr (g, omega (arith, lower, below), other g free differ)
  ]
    where
      other : (f : ℕ) → used k f ≡ false → (a.frame == f) ≡ false → used r.1 f ≡ false
      other f unused ne = a.set f ∙ rw (ne, unused) (ground arith)

pub alloc_low :
    (n : ℕ) (k : Kernel) → 0 < n → IsSafe k → Room n k → (pmm_alloc_frame k).0 < n * 4096
alloc_low n k some s room = elim (pmm_alloc_frame-Searched k) [
  | inl a ↦
      let below = Allocated-Room s a n room in omega (arith, a.address, below, a.in_range.1, s.few)
  | inr e ↦ omega (arith, e.null, some)
]
