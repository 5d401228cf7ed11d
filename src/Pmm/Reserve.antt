-- ===== src/Pmm/Reserve.antt =====
-- `pmm_set_frame_bitmap` of kernel/memory/pmm.c: which frames it reserves, and what it counts.
use kernel_v.Base.{
  ℕ, zero, suc, ◌+◌, ◌-◌, ◌*◌, ◌/◌, ◌^◌, ◌≤◌, ◌<◌, ◌≡◌, refl, ap, ◌∙◌, arith, Bool, true, false,
  ◌&&◌, ◌||◌, some, bit_and, u32, leb, ltb, ◌==◌, if◌then◌else◌, Bool-cases, inl, inr,
}
use kernel_v.Base.Bits.{bit_and_high, bit_and_low}
use kernel_v.Kernel.{Kernel}
use kernel_v.Pmm.{page_rounds, bitmap_set, use_page, page_mask, pmm_set_frame_bitmap}
use kernel_v.Pmm.Bitmap.{used, used-bitmap_set, bitmap_get_lem}
use kernel_v.Pmm.Pages.{pages, for_pages_stops}

pub page_mask_lem : (x : ℕ) → x < 2 ^ 32 → bit_and x page_mask ≡ x / 4096 * 4096
page_mask_lem x h = bit_and_high 12 x (2 ^ 20 - 1) ∙ omega (arith, bit_and_low 20 (x / 4096))

-- The frames of `[f, f + n)` that `s` leaves out.
abbrev pub count_free : (ℕ → Bool) → ℕ → ℕ → ℕ
count_free s zero f = 0
count_free s (suc n) f = (if s f then 0 else 1) + count_free s n (f + 1)

pub count_free_ext :
    (s t : ℕ → Bool) (n f : ℕ) → ((g : ℕ) → f ≤ g → s g ≡ t g) → count_free s n f ≡ count_free t n f
count_free_ext s t zero f h = refl
count_free_ext s t (suc n) f h =
    rw (h f (omega arith)) (
      ap (λ m. (if t f then 0 else 1) + m)
        (count_free_ext s t n (f + 1) (λ g p. h g (omega arith))))

-- The fields that reserving leaves alone.
pub record Kept (k k' : Kernel) : Type 0 where
  pub frame_bitmap : k'.frame_bitmap ≡ k.frame_bitmap
  pub total_frames : k'.total_frames ≡ k.total_frames
  pub max_frame_idx : k'.max_frame_idx ≡ k.max_frame_idx
  pub cr3 : k'.cr3 ≡ k.cr3
  pub mode : k'.diag.current_panik_mode ≡ k.diag.current_panik_mode
  pub outside : (x : ℕ) → (x < k.frame_bitmap) → k'.ram x ≡ k.ram x

-- `k'` is `k` with the frames of `[f, f + n)` used too, and those that were free counted.
pub record Reserved (n f : ℕ) (k k' : Kernel) : Type 0 where
  pub set : (g : ℕ) → used k' g ≡ (leb f g && ltb g (f + n)) || used k g
  pub counted : k'.used_frames ≡ u32 (k.used_frames + count_free (used k) n f)
  pub kept : Kept k k'

-- A round that reserves frame `f`, which is free.
pub use_page_free :
    (f : ℕ) (k : Kernel)
    → used k f ≡ false
    → use_page (f * 4096) k ≡ record (bitmap_set f k) { used_frames = u32 (k.used_frames + 1) }
unfolding use_page
use_page_free f k free =
    let at : f * 4096 / 4096 ≡ f = omega arith in rw (at, bitmap_get_lem f k, free) refl

pub use_page-used : (f : ℕ) (k : Kernel) → used k f ≡ true → use_page (f * 4096) k ≡ k
unfolding use_page
use_page-used f k taken =
    let at : f * 4096 / 4096 ≡ f = omega arith in rw (at, bitmap_get_lem f k, taken) refl

pub Kept-refl : (k : Kernel) → Kept k k
Kept-refl k = record {
  frame_bitmap = refl;
  total_frames = refl;
  max_frame_idx = refl;
  cr3 = refl;
  mode = refl;
  outside = λ x h. refl;
}

pub Kept-trans : {k k' k'' : Kernel} → Kept k k' → Kept k' k'' → Kept k k''
Kept-trans a b = record {
  frame_bitmap = b.frame_bitmap ∙ a.frame_bitmap;
  total_frames = b.total_frames ∙ a.total_frames;
  max_frame_idx = b.max_frame_idx ∙ a.max_frame_idx;
  cr3 = b.cr3 ∙ a.cr3;
  mode = b.mode ∙ a.mode;
  outside = λ x h. b.outside x (omega (arith, a.frame_bitmap)) ∙ a.outside x h;
}

pub bitmap_set-Kept : (f n : ℕ) (k : Kernel) → Kept k (record (bitmap_set f k) { used_frames = n })
unfolding bitmap_set
bitmap_set-Kept f n k = record {
  frame_bitmap = refl;
  total_frames = refl;
  max_frame_idx = refl;
  cr3 = refl;
  mode = refl;
  outside = λ x h. ground arith;
}

in_one : (f g : ℕ) → (f == g) ≡ (leb f g && ltb g (f + 1))
in_one f g = ground arith

-- One frame.
use_page-Reserved :
    (f : ℕ) (k : Kernel) → k.used_frames < 2 ^ 32 → Reserved 1 f k (use_page (f * 4096) k)
use_page-Reserved f k small = elim (Bool-cases (used k f)) [
  | inl taken ↦
      rw (use_page-used f k taken)
        (record { set = already taken; counted = rw taken (omega arith); kept = Kept-refl k })
  | inr free ↦ rw (use_page_free f k free) (record {
    set = λ g. used-bitmap_set f g k ∙ ap (λ b. b || used k g) (in_one f g);
    counted = rw free (omega arith);
    kept = bitmap_set-Kept f (u32 (k.used_frames + 1)) k;
  })
]
  where
    already : used k f ≡ true → (g : ℕ) → used k g ≡ (leb f g && ltb g (f + 1)) || used k g
    already taken g = elim (Bool-cases (leb f g && ltb g (f + 1))) [
      | inl e ↦ let same : g ≡ f = ground arith in rw e (ap (used k) same ∙ taken)
      | inr e ↦ rw e refl
    ]

Reserved-cons :
    (n f : ℕ) {k k₁ k₂ : Kernel}
    → Reserved 1 f k k₁
    → Reserved n (f + 1) k₁ k₂
    → Reserved (suc n) f k k₂
Reserved-cons n f {k} {k₁} a b = record {
  set = λ g. ground (arith, a.set g, b.set g);
  counted =
      let later : count_free (used k₁) n (f + 1) ≡ count_free (used k) n (f + 1) =
        count_free_ext (used k₁) (used k) n (f + 1) (λ g h. ground (arith, a.set g)) in
      omega (arith, a.counted, b.counted, later);
  kept = Kept-trans a.kept b.kept;
}

pages-Reserved :
    (n f : ℕ) (k : Kernel) → k.used_frames < 2 ^ 32 → Reserved n f k (pages use_page n (f * 4096) k)
unfolding pages
pages-Reserved zero f k small = record {
  set = λ g. ground arith;
  counted = omega arith;
  kept = Kept-refl k;
}
pages-Reserved (suc n) f k small =
    let next : f * 4096 + 4096 ≡ (f + 1) * 4096 = omega arith in
    let first = use_page-Reserved f k small in
    rw next (
      Reserved-cons n f first
        (pages-Reserved n (f + 1) (use_page (f * 4096) k) (omega (arith, first.counted))))

-- The loop runs over the pages from the one that holds `start` on.
pub pmm_set_frame_bitmap-pages :
    (start end : ℕ) (k : Kernel)
    → start < 2 ^ 32
    → pmm_set_frame_bitmap start end k
      ≡ some (pages use_page (u32 (end + 4095) / 4096 - start / 4096) (start / 4096 * 4096) k)
unfolding pmm_set_frame_bitmap page_rounds
pmm_set_frame_bitmap-pages start end k in_word =
    let f : ℕ = start / 4096 in
    let last : ℕ = u32 (end + 4095) in
    let same : u32 (end + 4096 - 1) ≡ last = omega arith in
    rw (same, page_mask_lem start in_word, page_mask_lem last (omega arith))
      (for_pages_stops use_page (2 ^ 20 + 1) (last / 4096 - f) (f * 4096) (last / 4096 * 4096) k
        (omega arith) (omega arith) (omega arith))

-- Reserving from an address `start` of 32 bits on ends, and reserves the frames from the one that
-- holds `start` up to the one before `end` rounded up. Those of them that were free are counted, the
-- count being one of 32 bits. An `end` in the last page wraps to 0 when it is rounded up, and then
-- none is reserved.
pub pmm_set_frame_bitmap-Reserved :
    (start end : ℕ) (k : Kernel)
    → start < 2 ^ 32
    → k.used_frames < 2 ^ 32
    → (k' : Kernel) × (pmm_set_frame_bitmap start end k ≡ some k')
      × Reserved (u32 (end + 4095) / 4096 - start / 4096) (start / 4096) k k'
pmm_set_frame_bitmap-Reserved start end k in_word small =
    let f : ℕ = start / 4096 in
    let n : ℕ = u32 (end + 4095) / 4096 - f in
    (
      pages use_page n (f * 4096) k,
      pmm_set_frame_bitmap-pages start end k in_word,
      pages-Reserved n f k small,
    )

no_page : (f : ℕ) (k : Kernel) → pages use_page 0 (f * 4096) k ≡ k
unfolding pages
no_page f k = refl

one_page : (f : ℕ) (k : Kernel) → used k f ≡ true → pages use_page 1 (f * 4096) k ≡ k
unfolding pages
one_page f k taken = use_page-used f k taken

-- Reserving a frame that is used already changes nothing.
pub pmm_set_frame_bitmap-used :
    (f : ℕ) (k : Kernel)
    → f < 2 ^ 20
    → used k f ≡ true
    → pmm_set_frame_bitmap (f * 4096) (u32 (f * 4096 + 4096)) k ≡ some k
pmm_set_frame_bitmap-used f k small taken =
    let at : f * 4096 / 4096 ≡ f = omega arith in
    pmm_set_frame_bitmap-pages (f * 4096) (u32 (f * 4096 + 4096)) k (omega arith)
    ∙ rw at (elim (Bool-cases (f == 2 ^ 20 - 1)) [
      | inl last ↦
          let none : u32 (u32 (f * 4096 + 4096) + 4095) / 4096 - f ≡ 0 = ground arith in
          rw none (ap some (no_page f k))
      | inr inner ↦
          let one : u32 (u32 (f * 4096 + 4096) + 4095) / 4096 - f ≡ 1 = ground arith in
          rw one (ap some (one_page f k taken))
    ])
