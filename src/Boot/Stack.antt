-- ===== src/Boot/Stack.antt =====
-- The loop of `kernel_main` in kernel/main/kernel.c that maps the kernel's stack.
pub mod Virtual
use kernel_v.Base.{
  ℕ, zero, suc, ◌+◌, ◌-◌, ◌*◌, ◌/◌, ◌^◌, ◌≤◌, ◌<◌, ◌≡◌, ◌≢◌, ◌⊎◌, refl, sym, ap, subst, ◌∙◌, arith,
  ◌==◌, some, inl, inr, Bool-cases, true, false, u32, [], ◌∷◌, codes, ==_iff, lt→ltb, le→ltb,
}
use kernel_v.Boot.{
  Stage, goes, ◌>>>=◌, of_option, of_outcome, check_stack_frame, map_stack_page, map_stack_from,
  map_stack,
}
use mathlib.Core.Option.{some-injective}
use kernel_v.Kernel.{Kernel, say}
use kernel_v.Paging.Demand.{Demanded, demand_page, same_page}
use kernel_v.Paging.Frames.{pmm_alloc_frame-IsSafe}
use kernel_v.Paging.Mapping.{IsData}
use kernel_v.Paging.Safe.{IsSafe}
use kernel_v.Paging.Walk.{walk}
use kernel_v.Pmm.{pmm_alloc_frame, pmm_set_frame_bitmap}
use kernel_v.Pmm.Bitmap.{used}
use kernel_v.Pmm.Reserve.{pmm_set_frame_bitmap-used}
use kernel_v.Pmm.Supply.{free_frames}
use kernel_v.Printk.Format.{word}

-- A round maps one page.
pub map_stack_page-Demanded :
    (off : ℕ) (k : Kernel)
    → off < 0x10000
    → IsSafe k
    → 2 ≤ free_frames k
    → (k' : Kernel) × (map_stack_page off k ≡ goes k') × Demanded (0xC2FF0000 + off) k k'
unfolding map_stack_page check_stack_frame ◌>>>=◌ of_outcome of_option
map_stack_page-Demanded off k h s two =
    let v : ℕ = 0xC2FF0000 + off in
    let r : ℕ = (pmm_alloc_frame k).0 in
    let k₁ : Kernel =
      say (codes "Mapping stack page: virt=0x%08x phys=0x%08x\n") (word v ∷ word r ∷ [])
        (pmm_alloc_frame k).1 in
    let demand =
      demand_page v k k₁.diag s ((pmm_alloc_frame-IsSafe k s).mode) (omega arith) (inl two) in
    let at : u32 v ≡ v = omega arith in
    let some_frame : (r == 0) ≡ false = ground (arith, demand.0) in
    (
      demand.1.0,
      rw (at, some_frame, demand.1.1) (ap of_option (reserved r demand.1.2 demand.1.3)),
      demand.1.2,
    )
  where
    reserved :
        (r : ℕ) {v : ℕ} {k k' : Kernel} (d : Demanded v k k')
        → r ≡ d.frame * 4096
        → pmm_set_frame_bitmap r (u32 (r + 4096)) k' ≡ some k'
    reserved r {k' = k'} d e = rw e (pmm_set_frame_bitmap-used d.frame k' d.small d.held)

-- From `k₀` to `k` the stack's pages from the one after the guard page up to `top` were mapped.
pub record Stacked (top : ℕ) (k₀ k : Kernel) : Type 0 where
  pub safe : IsSafe k
  pub backed :
      (w : ℕ)
      → 0xC2FF1000 ≤ w
      → w < top
      → (f : ℕ) × (f < 2 ^ 20) × (used k f ≡ true) × (walk k w ≡ some (f * 4096 + 3))
  pub distinct :
      (w u : ℕ)
      → 0xC2FF1000 ≤ w
      → w < top
      → 0xC2FF1000 ≤ u
      → u < top
      → w / 4096 ≢ u / 4096
      → walk k w ≢ walk k u
  pub left : free_frames k₀ ≤ free_frames k + 2 * ((top - 0xC2FF1000) / 4096)
  pub others : (w : ℕ) → w < 2 ^ 32 → (w < 0xC2FF1000) ⊎ (top ≤ w) → walk k w ≡ walk k₀ w
  pub low_data : (g : ℕ) → g < 256 → IsData k₀ g → IsData k g

-- The next page.
module _ (n : ℕ) (k₀ k k' : Kernel) (s : Stacked (n * 4096) k₀ k) (d : Demanded (n * 4096) k k')
    (low : 0xC2FF1 ≤ n) (high : n < 0xC3000) where
  here : (w : ℕ) → w / 4096 ≡ n → walk k' w ≡ some (d.frame * 4096 + 3)
  here w e = same_page k' (n * 4096) w (omega (arith, e)) ∙ d.maps

  before : (w : ℕ) → w < 2 ^ 32 → w / 4096 ≢ n → walk k' w ≡ walk k w
  before w h ne = d.others w h (λ e. ne (omega (arith, e)))

  Backing : ℕ → Type 0
  Backing w = (f : ℕ) × (f < 2 ^ 20) × (used k' f ≡ true) × (walk k' w ≡ some (f * 4096 + 3))

  backed : (w : ℕ) → 0xC2FF1000 ≤ w → w < (n + 1) * 4096 → Backing w
  unfolding Backing
  backed w from below = elim (Bool-cases (w / 4096 == n)) [
    | inl e ↦ (d.frame, d.small, d.held, here w ((==_iff _ _).0 e))
    | inr e ↦
        let b = s.backed w from (ground arith) in
        (
          b.0,
          b.1,
          d.protects.taken b.0 b.1 b.2,
          before w (omega (arith, below, high)) (ground arith) ∙ b.3,
        )
  ]

  -- The new frame is none that backs an older page.
  fresh : (w : ℕ) → 0xC2FF1000 ≤ w → w < n * 4096 → walk k' w ≢ some (d.frame * 4096 + 3)
  fresh w from below e =
      let b = s.backed w from below in
      let same : some (b.0 * 4096 + 3) ≡ some (d.frame * 4096 + 3) =
        sym (before w (omega (arith, below, high)) (omega (arith, below)) ∙ b.3) ∙ e in
      let frames : b.0 ≡ d.frame =
        omega (arith, some-injective (b.0 * 4096 + 3) (d.frame * 4096 + 3) same) in
      cc (b.2, d.fresh, ap (used k) frames)

  distinct :
      (w u : ℕ)
      → 0xC2FF1000 ≤ w
      → w < (n + 1) * 4096
      → 0xC2FF1000 ≤ u
      → u < (n + 1) * 4096
      → w / 4096 ≢ u / 4096
      → walk k' w ≢ walk k' u
  distinct w u from below from' below' ne e = elim (Bool-cases (w / 4096 == n)) [
    | inl a ↦ elim (Bool-cases (u / 4096 == n)) [
      | inl b ↦ absurd (ground arith)
      | inr b ↦ fresh u from' (ground arith) (sym e ∙ here w ((==_iff _ _).0 a))
    ]
    | inr a ↦ elim (Bool-cases (u / 4096 == n)) [
      | inl b ↦ fresh w from (ground arith) (e ∙ here u ((==_iff _ _).0 b))
      | inr b ↦ s.distinct w u from (ground arith) from' (ground arith) ne (
          sym (before w (omega (arith, below, high)) (ground arith))
          ∙ e
          ∙ before u (omega (arith, below', high)) (ground arith))
    ]
  ]

  next : Stacked ((n + 1) * 4096) k₀ k'
  unfolding Backing
  next = record {
    safe = d.safe;
    backed = backed;
    distinct = distinct;
    left = omega (arith, s.left, d.left, low);
    others = λ w h off. outside w h off;
    low_data = λ g h no_table.
        d.apart g (omega (arith, h)) (s.safe.low_used g h) (s.low_data g h no_table);
  }
    where
      outside :
          (w : ℕ) → w < 2 ^ 32 → (w < 0xC2FF1000) ⊎ ((n + 1) * 4096 ≤ w) → walk k' w ≡ walk k₀ w
      outside w h (inl below) = before w h (omega (arith, below, low)) ∙ s.others w h (inl below)
      outside w h (inr above) =
          before w h (omega (arith, above)) ∙ s.others w h (inr (omega (arith, above)))

round :
    (rounds off off' : ℕ) (k k₁ : Kernel) (r : Stage Kernel)
    → off < 0x10000
    → u32 (off + 4096) ≡ off'
    → map_stack_page off k ≡ goes k₁
    → map_stack_from rounds off' k₁ ≡ r
    → map_stack_from (suc rounds) off k ≡ r
unfolding map_stack_from ◌>>>=◌
round rounds off off' k k₁ r inside following first rest =
    rw (lt→ltb off 0x10000 inside, first, following) rest

map_stack_from-Stacked :
    (m rounds n : ℕ) (k₀ k : Kernel)
    → m < rounds
    → n + m ≡ 0xC3000
    → 0xC2FF1 ≤ n
    → Stacked (n * 4096) k₀ k
    → 2 * m ≤ free_frames k
    → (k' : Kernel) × (map_stack_from rounds (n * 4096 - 0xC2FF0000) k ≡ goes k')
      × Stacked 0xC3000000 k₀ k'
unfolding map_stack_from ◌>>>=◌
map_stack_from-Stacked m zero n k₀ k h e low s enough = absurd (omega arith)
map_stack_from-Stacked zero (suc rounds) n k₀ k h e low s enough =
    let top : n * 4096 ≡ 0xC3000000 = omega (arith, e) in
    (
      k,
      rw (le→ltb (n * 4096 - 0xC2FF0000) 0x10000 (omega (arith, e))) refl,
      subst (λ t. Stacked t k₀ k) top s,
    )
map_stack_from-Stacked (suc m) (suc rounds) n k₀ k h e low s enough =
    let off : ℕ = n * 4096 - 0xC2FF0000 in
    let first = map_stack_page-Demanded off k (omega (arith, e)) s.safe (omega (arith, enough)) in
    let k₁ : Kernel = first.0 in
    let at : 0xC2FF0000 + off ≡ n * 4096 = omega (arith, low) in
    let d : Demanded (n * 4096) k k₁ = subst (λ v. Demanded v k k₁) at first.2 in
    let following : u32 (off + 4096) ≡ (n + 1) * 4096 - 0xC2FF0000 = omega (arith, low, e) in
    let rest =
      map_stack_from-Stacked m rounds (n + 1) k₀ k₁ (omega arith) (omega (arith, e))
        (omega (arith, low)) (next n k₀ k k₁ s d low (omega (arith, e)))
        (omega (arith, enough, d.left)) in
    (
      rest.0,
      round rounds off ((n + 1) * 4096 - 0xC2FF0000) k k₁ (goes rest.0) (omega (arith, e)) following
          (first.1) (rest.1),
      rest.2,
    )

-- From a safe state with 30 frames left, the loop that maps the stack ends without a panic. Each of the
-- 15 pages from 0xC2FF1000 up to 0xC3000000 is then mapped writable to a used frame, no two of them to
-- the same; every other page, the guard page at 0xC2FF0000 among them, is mapped as before; no
-- page of the low megabyte became a table; and the state is safe again.
pub map_stack-Stacked :
    (k : Kernel)
    → IsSafe k
    → 30 ≤ free_frames k
    → (k' : Kernel) × (map_stack k ≡ goes k') × Stacked 0xC3000000 k k'
unfolding map_stack
map_stack-Stacked k s enough =
    map_stack_from-Stacked 15 16 0xC2FF1 k k (omega arith) refl (omega arith)
      (record {
        safe = s;
        backed = λ w from below. absurd (omega (arith, from, below));
        distinct = λ w u from below. absurd (omega (arith, from, below));
        left = omega arith;
        others = λ w h off. refl;
        low_data = λ g h no_table. no_table;
      })
      enough
