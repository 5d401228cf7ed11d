-- ===== src/Pmm/Bitmap.antt =====
-- The bitmap of kernel/memory/pmm.c as a set of used frames.
use native.Mathlib.Nat.{one-le-pow}
use kernel_v.Base.{
  ℕ, ◌+◌, ◌*◌, ◌/◌, ◌%◌, ◌^◌, ◌<◌, ◌≡◌, refl, sym, ap, ◌∙◌, arith, Bool, not, ◌&&◌, ◌||◌, bit_and,
  bit_or, u8, ◌<<<◌, complement32, ◌==◌, Bool-cases, inl, inr, ==_iff, if◌then◌else◌,
}
use kernel_v.Base.Bits.{bit, bit-bit_or, bit-bit_and, bit_and-pow, bit_and_low, bit-lt}
use kernel_v.Base.Tables.{holds_below, holds_below_sound}
use kernel_v.Kernel.{Kernel}
use kernel_v.Pmm.{bitmap_set, bitmap_clear, bitmap_get}

-- Frame `f` is marked as used.
abbrev pub used : Kernel → ℕ → Bool
used k f = bit (f % 8) (k.ram (k.frame_bitmap + f / 8)) == 1

-- The bits of the masks, as far as a byte reaches.
pub bit-ones : (i : ℕ) → i < 8 → bit i 255 ≡ 1
bit-ones i h = (==_iff _ 1).0 (holds_below_sound 8 (λ x. bit x 255 == 1) i refl h)

bit-mask : (i j : ℕ) → i < 8 → j < 8 → bit i (1 <<< j) ≡ (if i == j then 1 else 0)
bit-mask i j hi hj = (==_iff _ _).0 (
    holds_below_sound 8 (λ y. bit i (1 <<< y) == (if i == y then 1 else 0)) j
      (holds_below_sound 8 (λ x. holds_below 8 (λ y. bit x (1 <<< y) == (if x == y then 1 else 0)))
        i refl hi)
      hj)

bit-hole : (i j : ℕ) → i < 8 → j < 8 → bit i (complement32 (1 <<< j)) ≡ (if i == j then 0 else 1)
bit-hole i j hi hj = (==_iff _ _).0 (
    holds_below_sound 8 (λ y. bit i (complement32 (1 <<< y)) == (if i == y then 0 else 1)) j
      (holds_below_sound 8
        (λ x. holds_below 8 (λ y. bit x (complement32 (1 <<< y)) == (if x == y then 0 else 1))) i
        refl hi)
      hj)

-- Cutting to a byte keeps its eight bits.
bit-u8 : (i n : ℕ) → i < 8 → bit i (u8 n) ≡ bit i n
bit-u8 i n h =
    ap (bit i) (sym (bit_and_low 8 n))
    ∙ bit-bit_and i n 255
    ∙ omega (arith, bit-ones i h, bit-lt i n)

pub used-bitmap_set : (f g : ℕ) (k : Kernel) → used (bitmap_set f k) g ≡ (f == g) || used k g
unfolding bitmap_set
used-bitmap_set f g k = elim (Bool-cases (f / 8 == g / 8)) [
  | inl same ↦
      let e : f / 8 ≡ g / 8 = (==_iff _ _).0 same in
      let b = k.ram (k.frame_bitmap + f / 8) in
      ground (
        arith,
        bit-u8 (g % 8) (bit_or b (1 <<< (f % 8))),
        bit-bit_or (g % 8) b (1 <<< (f % 8)),
        bit-mask (g % 8) (f % 8),
        bit-lt (g % 8) b,
      )
  | inr other ↦ ground arith
]

pub used-bitmap_clear :
    (f g : ℕ) (k : Kernel) → used (bitmap_clear f k) g ≡ not (f == g) && used k g
unfolding bitmap_clear
used-bitmap_clear f g k = elim (Bool-cases (f / 8 == g / 8)) [
  | inl same ↦
      let e : f / 8 ≡ g / 8 = (==_iff _ _).0 same in
      let b = k.ram (k.frame_bitmap + f / 8) in
      let hole = complement32 (1 <<< (f % 8)) in
      ground (
        arith,
        bit-u8 (g % 8) (bit_and b hole),
        bit-bit_and (g % 8) b hole,
        bit-hole (g % 8) (f % 8),
        bit-lt (g % 8) b,
      )
  | inr other ↦ ground arith
]

-- The test of the code.
pub bitmap_get_lem : (f : ℕ) (k : Kernel) → (bitmap_get f k == 0) ≡ not (used k f)
unfolding bitmap_get
bitmap_get_lem f k =
    let b = k.ram (k.frame_bitmap + f / 8) in
    let one : 1 <<< (f % 8) ≡ 2 ^ (f % 8) = omega arith in
    let value = ap (bit_and b) one ∙ bit_and-pow (f % 8) b in
    let pos = one-le-pow (f % 8) 2 (omega arith) in
    elim (Bool-cases (used k f)) [
      | inl set ↦
          let e : bit (f % 8) b ≡ 1 = (==_iff _ _).0 set in
          ground (arith, ap (λ (t : ℕ). t * 2 ^ (f % 8)) e)
      | inr clear ↦
          let e : bit (f % 8) b ≡ 0 = ground (arith, bit-lt (f % 8) b) in
          ground (arith, ap (λ (t : ℕ). t * 2 ^ (f % 8)) e)
    ]
