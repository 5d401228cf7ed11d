-- ===== src/Pmm/View.antt =====
-- What kernel/memory/pmm.c keeps, without how: the set of used frames of those that 32 bits address,
-- how many frames there are, and the count. The bytes of the bitmap, their place, and all that is no
-- part of it are forgotten.
pub mod Order
use kernel_v.Base.{
  ℕ, suc, ◌+◌, ◌-◌, ◌/◌, ◌^◌, ◌≤◌, ◌<◌, ◌≡◌, refl, sym, ap, ap₂, Bool, ◌&&◌, ◌||◌, not, ◌==◌, ◌*◌,
  leb, subst, ◌∙◌, arith, Option, some, ◌>>=◌, inl, inr, true, false, u32, Bool-cases, ltb, ltb→lt,
  ltb→le, sub32,
}
use mathlib.Core.Quot
use mathlib.Core.Quot.{Quot, Quot-set}
use mathlib.Core.HLevel.{Σ_set}
use native.Mathlib.Nat.{ℕ_set}
use kernel_v.Kernel.{Kernel}
use kernel_v.Pmm.{pmm_alloc_frame, pmm_free_frame, pmm_set_frame_bitmap}
use kernel_v.Pmm.Account.{count_free_reserve}
use kernel_v.Pmm.Alloc.{Allocated, Exhausted, Searched, pmm_alloc_frame-Searched}
use kernel_v.Pmm.Bitmap.{used}
use kernel_v.Pmm.Free.{pmm_free_frame_cases, pmm_free_frame-Kept}
use kernel_v.Pmm.Reserve.{Reserved, count_free, count_free_ext, pmm_set_frame_bitmap-Reserved}

pub record SameFrames (k h : Kernel) : Type 0 where
  pub frames : (g : ℕ) → g < 2 ^ 20 → used k g ≡ used h g
  pub few : k.total_frames ≤ 2 ^ 20
  pub total : k.total_frames ≡ h.total_frames
  pub counted : k.used_frames ≡ h.used_frames

abbrev pub Frames : Type 0
Frames = Quot SameFrames

abbrev pub view : Kernel → Frames
view k = Quot.mk k

-- The least free frame of one set.
module _ {k h : Kernel} {r q : ℕ × Kernel} (s : SameFrames k h) where
  not_below :
      (a : Allocated k 1 k.total_frames r) (b : Allocated h 1 h.total_frames q)
      → a.frame < b.frame
      → ⊥
  not_below a b lower = cc (
    a.free,
    s.frames a.frame (omega (arith, a.in_range.1, s.few)),
    b.least a.frame (omega (arith, a.in_range.0)) lower,
  )

  not_above :
      (a : Allocated k 1 k.total_frames r) (b : Allocated h 1 h.total_frames q)
      → b.frame < a.frame
      → ⊥
  not_above a b lower = cc (
    b.free,
    s.frames b.frame (omega (arith, b.in_range.1, s.few, s.total)),
    a.least b.frame (omega (arith, b.in_range.0)) lower,
  )

  same_frame :
      (a : Allocated k 1 k.total_frames r) (b : Allocated h 1 h.total_frames q) → a.frame ≡ b.frame
  same_frame a b = elim (Bool-cases (ltb a.frame b.frame)) [
    | inl lower ↦ absurd (not_below a b (ltb→lt _ _ lower))
    | inr above ↦ elim (Bool-cases (ltb b.frame a.frame)) [
      | inl lower ↦ absurd (not_above a b (ltb→lt _ _ lower))
      | inr below ↦ omega (arith, ltb→le _ _ above, ltb→le _ _ below)
    ]
  ]

-- What a call gives is the same, and so is what it leaves.
SameResult : ℕ × Kernel → ℕ × Kernel → Type 0
SameResult r q = (r.0 ≡ q.0) × SameFrames r.1 q.1

Searched-same :
    {k h : Kernel} {r q : ℕ × Kernel}
    → SameFrames k h
    → Searched k 1 k.total_frames r
    → Searched h 1 h.total_frames q
    → SameResult r q
unfolding SameResult
Searched-same s (inl a) (inl b) =
    let e = same_frame s a b in
    (
      a.address ∙ ap (λ (f : ℕ). u32 (f * 4096)) e ∙ sym b.address,
      record {
        frames = λ g h.
            a.set g ∙ ap₂ (λ (f : ℕ) (t : Bool). (f == g) || t) e (s.frames g h) ∙ sym (b.set g);
        few = omega (arith, a.kept.total_frames, s.few);
        total = a.kept.total_frames ∙ s.total ∙ sym b.kept.total_frames;
        counted = a.counted ∙ ap (λ (n : ℕ). u32 (n + 1)) s.counted ∙ sym b.counted;
      },
    )
Searched-same s (inl a) (inr e) = absurd (
    cc (
      a.free,
      s.frames a.frame (omega (arith, a.in_range.1, s.few)),
      e.none_free a.frame a.in_range.0 (omega (arith, a.in_range.1, s.total)),
    ))
Searched-same s (inr e) (inl b) = absurd (
    cc (
      b.free,
      s.frames b.frame (omega (arith, b.in_range.1, s.few, s.total)),
      e.none_free b.frame b.in_range.0 (omega (arith, b.in_range.1, s.total)),
    ))
Searched-same s (inr e) (inr e') = (
  e.null ∙ sym e'.null,
  record {
    frames = λ g h. e.set g ∙ s.frames g h ∙ sym (e'.set g);
    few = omega (arith, e.kept.total_frames, s.few);
    total = e.kept.total_frames ∙ s.total ∙ sym e'.kept.total_frames;
    counted = e.counted ∙ s.counted ∙ sym e'.counted;
  },
)

alloc_same : (k h : Kernel) → SameFrames k h → SameResult (pmm_alloc_frame k) (pmm_alloc_frame h)
alloc_same k h s = Searched-same s (pmm_alloc_frame-Searched k) (pmm_alloc_frame-Searched h)

free_same :
    (addr : ℕ) (k h : Kernel)
    → SameFrames k h
    → SameFrames (pmm_free_frame addr k) (pmm_free_frame addr h)
free_same addr k h s =
    let few : (pmm_free_frame addr k).total_frames ≤ 2 ^ 20 =
      omega (arith, (pmm_free_frame-Kept addr k).total_frames, s.few) in
    let total =
      (pmm_free_frame-Kept addr k).total_frames
      ∙ s.total
      ∙ sym (pmm_free_frame-Kept addr h).total_frames in
    elim (Bool-cases (ltb (addr / 4096) k.total_frames)) [
      | inl e ↦
          let inside = ltb→lt (addr / 4096) k.total_frames e in
          let a = (pmm_free_frame_cases addr k).0 inside in
          let b = (pmm_free_frame_cases addr h).0 (omega (arith, inside, s.total)) in
          record {
            frames = λ g small.
                a.0 g
                ∙ ap (λ (t : Bool). not (addr / 4096 == g) && t) (s.frames g small)
                ∙ sym (b.0 g);
            few = few;
            total = total;
            counted = a.1 ∙ ap (λ (n : ℕ). sub32 n 1) s.counted ∙ sym b.1;
          }
      | inr e ↦
          let outside = ltb→le (addr / 4096) k.total_frames e in
          let a = (pmm_free_frame_cases addr k).1 outside in
          let b = (pmm_free_frame_cases addr h).1 (omega (arith, outside, s.total)) in
          record {
            frames = λ g small. a.1 g ∙ s.frames g small ∙ sym (b.1 g);
            few = few;
            total = total;
            counted = a.2 ∙ s.counted ∙ sym b.2;
          }
    ]

-- The operations on the view.
pub alloc : Frames → ℕ × Frames
unfolding SameResult
alloc =
    Quot.lift (Σ_set ℕ_set (λ n. Quot-set))
      (λ k. ((pmm_alloc_frame k).0, view (pmm_alloc_frame k).1))
      (λ k h s. let same = alloc_same k h s in λ i. (same.0 i, Quot.sound same.1 i))

pub free : (addr : ℕ) → Frames → Frames
free addr =
    Quot.lift Quot-set (λ k. view (pmm_free_frame addr k))
      (λ k h s. Quot.sound (free_same addr k h s))

-- Of two kernels with the same view, the same set of used frames below `2 ^ 20`, the same number of
-- frames and the same count, whatever else differs, the place of the bitmap, the rest of memory or the
-- messages: `pmm_alloc_frame` returns the same address, and it and `pmm_free_frame` of any address
-- leave the same view.
pub pmm_alloc_frame-view :
    (k h : Kernel)
    → view k ≡ view h
    → ((pmm_alloc_frame k).0 ≡ (pmm_alloc_frame h).0)
      × (view (pmm_alloc_frame k).1 ≡ view (pmm_alloc_frame h).1)
      × ((addr : ℕ) → view (pmm_free_frame addr k) ≡ view (pmm_free_frame addr h))
unfolding alloc free
pmm_alloc_frame-view k h same =
    let both = ap alloc same in
    (
      ap (λ (r : ℕ × Frames). r.0) both,
      ap (λ (r : ℕ × Frames). r.1) both,
      λ addr. ap (free addr) same,
    )
