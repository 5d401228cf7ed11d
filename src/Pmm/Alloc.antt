-- ===== src/Pmm/Alloc.antt =====
-- `pmm_alloc_frame` and `pmm_free_frame` of kernel/memory/pmm.c against a set of used frames.
use kernel_v.Base.{
  ℕ, zero, suc, ◌+◌, ◌-◌, ◌*◌, ◌/◌, ◌^◌, ◌≤◌, ◌<◌, ◌≡◌, ◌≢◌, ◌⊎◌, refl, sym, ap, ◌∙◌, arith, true,
  false, ◌||◌, u32, ◌==◌, Bool-cases, inl, inr, ==_iff,
}
use kernel_v.Kernel.{Kernel}
use kernel_v.Pmm.{bitmap_set, alloc_from, pmm_alloc_frame}
use kernel_v.Pmm.Bitmap.{used, used-bitmap_set, bitmap_get_lem}
use kernel_v.Pmm.Reserve.{Kept, bitmap_set-Kept}

-- The result `r` is the address of the least free frame of `[lo, hi)`, which is then used and
-- counted.
pub record Allocated (k : Kernel) (lo hi : ℕ) (r : ℕ × Kernel) : Type 0 where
  pub frame : ℕ
  pub in_range : (lo ≤ frame) × (frame < hi)
  pub free : used k frame ≡ false
  pub least : (g : ℕ) → lo ≤ g → g < frame → used k g ≡ true
  pub address : r.0 ≡ u32 (frame * 4096)
  pub set : (g : ℕ) → used r.1 g ≡ (frame == g) || used k g
  pub counted : r.1.used_frames ≡ u32 (k.used_frames + 1)
  pub kept : Kept k r.1
  pub elsewhere : (x : ℕ) → k.frame_bitmap + frame / 8 ≢ x → r.1.ram x ≡ k.ram x

-- The result is null, no frame of `[lo, hi)` is free, and nothing but the console has changed.
pub record Exhausted (k : Kernel) (lo hi : ℕ) (r : ℕ × Kernel) : Type 0 where
  pub null : r.0 ≡ 0
  pub none_free : (g : ℕ) → lo ≤ g → g < hi → used k g ≡ true
  pub ram : r.1.ram ≡ k.ram
  pub mode : r.1.diag.current_panik_mode ≡ k.diag.current_panik_mode
  pub set : (g : ℕ) → used r.1 g ≡ used k g
  pub counted : r.1.used_frames ≡ k.used_frames
  pub kept : Kept k r.1

abbrev pub Searched : Kernel → ℕ → ℕ → ℕ × Kernel → Type 0
Searched k lo hi r = Allocated k lo hi r ⊎ Exhausted k lo hi r

at_or_above :
    (k : Kernel) (lo g : ℕ)
    → used k lo ≡ true
    → lo ≤ g
    → (lo + 1 ≤ g → used k g ≡ true)
    → used k g ≡ true
at_or_above k lo g taken p h = elim (Bool-cases (lo == g)) [
  | inl e ↦ ap (used k) (sym ((==_iff lo g).0 e)) ∙ taken
  | inr e ↦ h (ground arith)
]

-- Where `lo` is used, the search from the next frame on decides.
Searched-next :
    {k : Kernel} {lo hi : ℕ} {r : ℕ × Kernel}
    → used k lo ≡ true
    → Searched k (lo + 1) hi r
    → Searched k lo hi r
Searched-next {k} {lo} taken (inl a) = inl (record {
  frame = a.frame;
  in_range = (omega (arith, a.in_range.0), a.in_range.1);
  free = a.free;
  least = λ g p q. at_or_above k lo g taken p (λ h. a.least g h q);
  address = a.address;
  set = a.set;
  counted = a.counted;
  kept = a.kept;
  elsewhere = a.elsewhere;
})
Searched-next {k} {lo} taken (inr e) = inr (record {
  null = e.null;
  none_free = λ g p q. at_or_above k lo g taken p (λ h. e.none_free g h q);
  ram = e.ram;
  mode = e.mode;
  set = e.set;
  counted = e.counted;
  kept = e.kept;
})

bitmap_set_elsewhere :
    (f x : ℕ) (k : Kernel) → k.frame_bitmap + f / 8 ≢ x → (bitmap_set f k).ram x ≡ k.ram x
unfolding bitmap_set
bitmap_set_elsewhere f x k ne = ground arith

alloc_from-Searched :
    (rounds lo : ℕ) (k : Kernel) → Searched k lo (lo + rounds) (alloc_from rounds lo k)
unfolding alloc_from
alloc_from-Searched zero lo k = inr (record {
  null = refl;
  none_free = λ g p q. absurd (omega arith);
  ram = refl;
  mode = refl;
  set = λ g. refl;
  counted = refl;
  kept = record {
    frame_bitmap = refl;
    total_frames = refl;
    max_frame_idx = refl;
    cr3 = refl;
    mode = refl;
    outside = λ x h. refl;
  };
})
alloc_from-Searched (suc rounds) lo k = elim (Bool-cases (used k lo)) [
  | inl taken ↦
      let later : lo + suc rounds ≡ lo + 1 + rounds = omega arith in
      rw (bitmap_get_lem lo k, taken, later)
        (Searched-next taken (alloc_from-Searched rounds (lo + 1) k))
  | inr free ↦
      rw (bitmap_get_lem lo k, free)
        (inl (record {
          frame = lo;
          in_range = (omega arith, omega arith);
          free = free;
          least = λ g p q. absurd (omega arith);
          address = refl;
          set = λ g. used-bitmap_set lo g k;
          counted = refl;
          kept = bitmap_set-Kept lo (u32 (k.used_frames + 1)) k;
          elsewhere = λ x ne. bitmap_set_elsewhere lo x k ne;
        }))
]

-- A call either takes the least free frame from 1 up to `total_frames`, marks and counts it and
-- returns its address, or returns null because every one of these frames is used.
pub pmm_alloc_frame-Searched : (k : Kernel) → Searched k 1 k.total_frames (pmm_alloc_frame k)
unfolding pmm_alloc_frame
pmm_alloc_frame-Searched k = elim (Bool-cases (k.total_frames == 0)) [
  | inl none ↦
      let zero_total : k.total_frames ≡ 0 = (==_iff _ 0).0 none in
      empty zero_total (alloc_from-Searched (k.total_frames - 1) 1 k)
  | inr some ↦
      let bound : 1 + (k.total_frames - 1) ≡ k.total_frames = ground arith in
      rw bound at (alloc_from-Searched (k.total_frames - 1) 1 k)
]
  where
    empty :
        k.total_frames ≡ 0
        → Searched k 1 (1 + (k.total_frames - 1)) (alloc_from (k.total_frames - 1) 1 k)
        → Searched k 1 k.total_frames (alloc_from (k.total_frames - 1) 1 k)
    empty z (inl a) = absurd (omega (arith, a.in_range.0, a.in_range.1))
    empty z (inr e) = inr (record {
      null = e.null;
      none_free = λ g p q. absurd (omega arith);
      ram = e.ram;
      mode = e.mode;
      set = e.set;
      counted = e.counted;
      kept = e.kept;
    })

-- While the machine has at most `2 ^ 20` frames, null means that no frame was left.
pub pmm_alloc_frame-ne_null :
    (k : Kernel)
    → k.total_frames ≤ 2 ^ 20
    → (pmm_alloc_frame k).0 ≢ 0
    → Allocated k 1 k.total_frames (pmm_alloc_frame k)
pmm_alloc_frame-ne_null k h ne = only (pmm_alloc_frame-Searched k)
  where
    only :
        Searched k 1 k.total_frames (pmm_alloc_frame k)
        → Allocated k 1 k.total_frames (pmm_alloc_frame k)
    only (inl a) = a
    only (inr e) = absurd (ne e.null)

pub pmm_alloc_frame-null :
    (k : Kernel)
    → k.total_frames ≤ 2 ^ 20
    → (pmm_alloc_frame k).0 ≡ 0
    → Exhausted k 1 k.total_frames (pmm_alloc_frame k)
pmm_alloc_frame-null k h null = only (pmm_alloc_frame-Searched k)
  where
    only :
        Searched k 1 k.total_frames (pmm_alloc_frame k)
        → Exhausted k 1 k.total_frames (pmm_alloc_frame k)
    only (inl a) = absurd (omega (arith, null, a.address, a.in_range.0, a.in_range.1))
    only (inr e) = e
