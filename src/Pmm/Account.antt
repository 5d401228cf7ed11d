-- ===== src/Pmm/Account.antt =====
-- The accounting of kernel/memory/pmm.c when a range of frames is reserved.
use kernel_v.Base.{
  ℕ, zero, suc, ◌+◌, ◌^◌, ◌≤◌, ◌<◌, ◌≡◌, refl, sym, ap, ◌∙◌, arith, Bool, true, ◌&&◌, ◌||◌, ◌==◌,
  leb, ltb, Bool-cases, inl, inr, ==_iff, u32, ◌/◌, ltb→lt, ltb→le,
}
use kernel_v.Kernel.{Kernel}
use kernel_v.Pmm.{pmm_alloc_frame, pmm_free_frame}
use kernel_v.Pmm.Alloc.{Allocated, pmm_alloc_frame-Searched}
use kernel_v.Pmm.Balance.{balance, count_free-insert, refilled}
use kernel_v.Pmm.Bitmap.{used}
use kernel_v.Pmm.Free.{pmm_free_frame_cases}
use kernel_v.Pmm.Reserve.{Reserved, count_free, count_free_ext}
use kernel_v.Pmm.Supply.{count_free_below}

-- The free frames below `top` are those that are left once `[f, f + n)` is reserved, and those of it.
pub count_free_reserve :
    (s t : ℕ → Bool) (n f top : ℕ)
    → f + n ≤ top
    → ((g : ℕ) → t g ≡ (leb f g && ltb g (f + n)) || s g)
    → count_free s top 0 ≡ count_free t top 0 + count_free s n f
count_free_reserve s t zero f top h set =
    omega (arith, count_free_ext t s top 0 (λ g p. set g ∙ ground arith))
count_free_reserve s t (suc n) f top h set = elim (Bool-cases (s f)) [
  | inl taken ↦
      let ih =
        count_free_reserve s t n (f + 1) top (omega (arith, h)) (λ g. set g ∙ skip g taken) in
      rw taken (omega (arith, ih))
  | inr free ↦
      let s' : ℕ → Bool = λ g. (f == g) || s g in
      let ih =
        count_free_reserve s' t n (f + 1) top (omega (arith, h)) (λ g. set g ∙ ground arith) in
      let first =
        count_free-insert s s' top 0 f (omega arith) (omega (arith, h)) free (λ g. refl) in
      let rest = count_free_below s' s n (f + 1) (λ g low high. ground (arith, low)) in
      rw free (omega (arith, ih, first, rest))
]
  where
    skip :
        (g : ℕ)
        → s f ≡ true
        → (leb f g && ltb g (f + suc n)) || s g ≡ (leb (f + 1) g && ltb g (f + 1 + n)) || s g
    skip g taken = elim (Bool-cases (f == g)) [
      | inl e ↦
          let same : s g ≡ true = ap s (sym ((==_iff f g).0 e)) ∙ taken in rw same (ground arith)
      | inr e ↦ ground arith
    ]

-- The used frames that are counted and the free ones below `top`; the sum is one of 32 bits, as the
-- count is.
abbrev pub account : ℕ → Kernel → ℕ
account top k = u32 (balance top k)

module _ (top : ℕ) where
  pub account-same :
      (k k' : Kernel)
      → k'.used_frames ≡ k.used_frames
      → ((g : ℕ) → g < top → used k' g ≡ used k g)
      → account top k' ≡ account top k
  account-same k k' counted same =
      let free =
        count_free_below (used k') (used k) top 0 (λ g low high. same g (omega (arith, high))) in
      omega (arith, counted, free)

  pub account-Allocated :
      {k : Kernel} {r : ℕ × Kernel}
      → k.total_frames ≤ top
      → Allocated k 1 k.total_frames r
      → account top r.1 ≡ account top k
  account-Allocated {k} {r} few a = omega (
    arith,
    a.counted,
    count_free-insert (used k) (used r.1) top 0 a.frame (omega arith)
        (omega (arith, a.in_range.1, few)) a.free a.set,
  )

  pub account-pmm_alloc_frame :
      (k : Kernel) → k.total_frames ≤ top → account top (pmm_alloc_frame k).1 ≡ account top k
  account-pmm_alloc_frame k few = elim (pmm_alloc_frame-Searched k) [
    | inl a ↦ account-Allocated few a
    | inr e ↦ account-same k (pmm_alloc_frame k).1 e.counted (λ g h. e.set g)
  ]

  pub account-pmm_free_frame :
      (addr : ℕ) (k : Kernel)
      → k.total_frames ≤ top
      → k.used_frames < 2 ^ 32
      → used k (addr / 4096) ≡ true
      → account top (pmm_free_frame addr k) ≡ account top k
  account-pmm_free_frame addr k few small taken =
      elim (Bool-cases (ltb (addr / 4096) k.total_frames)) [
        | inl e ↦
            let inside = ltb→lt (addr / 4096) k.total_frames e in
            let freed = (pmm_free_frame_cases addr k).0 inside in
            omega (
              arith,
              freed.1,
              small,
              count_free-insert (used (pmm_free_frame addr k)) (used k) top 0 (addr / 4096)
                  (omega arith) (omega (arith, inside, few)) (freed.0 (addr / 4096) ∙ ground arith)
                  (refilled addr k (pmm_free_frame addr k) freed.0 taken),
            )
        | inr e ↦
            let kept = (pmm_free_frame_cases addr k).1 (ltb→le (addr / 4096) k.total_frames e) in
            account-same k (pmm_free_frame addr k) kept.2 (λ g h. kept.1 g)
      ]

  pub account-Reserved :
      (n f : ℕ) (k k' : Kernel) → f + n ≤ top → Reserved n f k k' → account top k' ≡ account top k
  account-Reserved n f k k' h r =
      omega (arith, r.counted, count_free_reserve (used k) (used k') n f top h r.set)
