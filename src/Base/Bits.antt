-- ===== src/Base/Bits.antt =====
-- The bits of `|` and `&` at every width, and both as arithmetic on the masks that the kernel uses.
mod Step
use Step.{or_halves, or_zero_left, and_halves}
use Prim.Native.Nat.{ℕ, zero, suc, ◌+◌, ◌-◌, ◌*◌, ◌/◌, ◌%◌, ◌^◌, ◌≤◌, ◌<◌, min, max}
use Prim.Native.Nat.{bit_and, bit_or}
use mathlib.Core.Path.{◌≡◌, refl, ap, ◌∙◌}
use native.Mathlib.Nat.{pow-suc, one-le-pow, div-div-eq-div-mul}
use native.Mathlib.Omega.{arith}

-- Bit `i` of `n`, as 0 or 1.
abbrev pub bit : ℕ → ℕ → ℕ
bit zero n = n % 2
bit (suc i) n = bit i (n / 2)

pub bit-lt : (i n : ℕ) → bit i n < 2
bit-lt zero n = omega arith
bit-lt (suc i) n = bit-lt i (n / 2)

pub bit-bit_or : (i a b : ℕ) → bit i (bit_or a b) ≡ max (bit i a) (bit i b)
bit-bit_or zero a b = omega (arith, or_halves a b)
bit-bit_or (suc i) a b =
    let e : bit_or a b / 2 ≡ bit_or (a / 2) (b / 2) = omega (arith, or_halves a b) in
    ap (bit i) e ∙ bit-bit_or i (a / 2) (b / 2)

pub bit-bit_and : (i a b : ℕ) → bit i (bit_and a b) ≡ min (bit i a) (bit i b)
bit-bit_and zero a b = omega (arith, and_halves a b)
bit-bit_and (suc i) a b =
    let e : bit_and a b / 2 ≡ bit_and (a / 2) (b / 2) = omega (arith, and_halves a b) in
    ap (bit i) e ∙ bit-bit_and i (a / 2) (b / 2)

-- The zero word is neutral for `|` and absorbing for `&`.
bit_or-zero_fuel : (n a : ℕ) → a ≤ n → bit_or a 0 ≡ a
bit_or-zero_fuel zero a h = let e : a ≡ 0 = omega arith in ap (λ x. bit_or x 0) e ∙ omega arith
bit_or-zero_fuel (suc n) zero h = refl
bit_or-zero_fuel (suc n) (suc a) h =
    omega (arith, or_halves (suc a) 0, bit_or-zero_fuel n (suc a / 2) (omega arith))

pub bit_or-zero : (a : ℕ) → bit_or a 0 ≡ a
bit_or-zero a = bit_or-zero_fuel a a (omega arith)

bit_and-zero_fuel : (n a : ℕ) → a ≤ n → bit_and a 0 ≡ 0
bit_and-zero_fuel zero a h = let e : a ≡ 0 = omega arith in ap (λ x. bit_and x 0) e
bit_and-zero_fuel (suc n) zero h = refl
bit_and-zero_fuel (suc n) (suc a) h =
    omega (arith, and_halves (suc a) 0, bit_and-zero_fuel n (suc a / 2) (omega arith))

pub bit_and-zero : (a : ℕ) → bit_and a 0 ≡ 0
bit_and-zero a = bit_and-zero_fuel a a (omega arith)

-- `x & (1 << i)` is bit `i` in its place.
pub bit_and-pow : (i a : ℕ) → bit_and a (2 ^ i) ≡ bit i a * 2 ^ i
bit_and-pow zero a = omega (arith, and_halves a 1, bit_and-zero (a / 2))
bit_and-pow (suc i) a = omega (
  arith,
  and_halves a (2 ^ suc i),
  pow-suc 2 i,
  bit_and-pow i (a / 2),
  ap (λ (t : ℕ). bit_and (a / 2) t) half,
  ap (λ (t : ℕ). bit i (a / 2) * t) (pow-suc 2 i),
)
  where
    half : 2 ^ suc i / 2 ≡ 2 ^ i
    half = omega (arith, pow-suc 2 i)

double_shift : (k q : ℕ) → q * 2 ^ suc k ≡ q * 2 ^ k * 2
double_shift k q = omega (arith, ap (λ (w : ℕ). q * w) (pow-suc 2 k))

-- A field above bit `k` and one that fits below it: `|` adds them up.
pub bit_or_fields : (high low k : ℕ) → low < 2 ^ k → bit_or (high * 2 ^ k) low ≡ high * 2 ^ k + low
bit_or_fields high low zero h = ground (arith, bit_or-zero high)
bit_or_fields high low (suc k) h =
    or_halves (high * 2 ^ suc k) low
    ∙ ground (arith, bit_or_fields high (low / 2) k (omega arith), double_shift k high)

-- The same with the low field first.
pub bit_or_fields_low :
    (high low k : ℕ) → low < 2 ^ k → bit_or low (high * 2 ^ k) ≡ high * 2 ^ k + low
bit_or_fields_low high low zero h =
    let none : low ≡ 0 = omega arith in rw none (or_zero_left (high * 1) ∙ omega arith)
bit_or_fields_low high low (suc k) h =
    or_halves low (high * 2 ^ suc k)
    ∙ ground (arith, bit_or_fields_low high (low / 2) k (omega arith), double_shift k high)

-- A number that fits below bit `k` meets only what stands there.
pub bit_or_below :
    (high low s k : ℕ)
    → low < 2 ^ k
    → s < 2 ^ k
    → bit_or (high * 2 ^ k + low) s ≡ high * 2 ^ k + bit_or low s
bit_or_below high low s zero h p =
    let none : s ≡ 0 = omega arith in
    rw none (bit_or-zero (high * 1 + low) ∙ omega (arith, bit_or-zero low))
bit_or_below high low s (suc k) h p =
    or_halves (high * 2 ^ suc k + low) s
    ∙ ground (
      arith,
      bit_or_below high (low / 2) (s / 2) k (omega arith) (omega arith),
      double_shift k high,
      or_halves low s,
    )

low_field : (high low k : ℕ) → low < 2 ^ k → bit_and (high * 2 ^ k + low) (2 ^ k - 1) ≡ low
low_field high low zero h = ground (arith, bit_and-zero (high * 1 + low))
low_field high low (suc k) h =
    and_halves (high * 2 ^ suc k + low) (2 ^ suc k - 1)
    ∙ ground (arith, low_field high (low / 2) k (omega arith), double_shift k high, pow-suc 2 k)

-- The low `k` bits are what division by `2 ^ k` leaves.
pub bit_and_low : (k a : ℕ) → bit_and a (2 ^ k - 1) ≡ a % 2 ^ k
bit_and_low k a = ground (arith, low_field (a / 2 ^ k) (a % 2 ^ k) k, one-le-pow k 2)

-- A mask whose `k` low bits are clear rounds down.
pub bit_and_high : (k a m : ℕ) → bit_and a (m * 2 ^ k) ≡ bit_and (a / 2 ^ k) m * 2 ^ k
bit_and_high zero a m =
    let quotient : a / 2 ^ 0 ≡ a = omega arith in
    let product : m * 2 ^ 0 ≡ m = omega arith in rw (quotient, product) (omega arith)
bit_and_high (suc k) a m =
    and_halves a (m * 2 ^ suc k)
    ∙ omega (
      arith,
      double_shift k m,
      double_shift k (bit_and (a / 2 ^ suc k) m),
      ap (bit_and (a / 2)) half,
      bit_and_high k (a / 2) m,
      ap (λ (t : ℕ). bit_and t m * 2 ^ k) quotient,
    )
  where
    half : m * 2 ^ suc k / 2 ≡ m * 2 ^ k
    half = omega (arith, double_shift k m)

    quotient : a / 2 / 2 ^ k ≡ a / 2 ^ suc k
    quotient = div-div-eq-div-mul a 2 (2 ^ k) ∙ ap (λ (t : ℕ). a / t) (omega (arith, pow-suc 2 k))
