-- ===== src/Base/Bits/Step.antt =====
-- The lowest digit of `|` and `&`: the rest of each is the operation on the halves.
use Prim.Native.Nat.{ℕ, zero, suc, ◌+◌, ◌*◌, ◌/◌, ◌%◌, ◌≤◌, min, max, bit_and, bit_or}
use Prim.Native.Nat.{digits, bitwise, bit_and-bitwise, bit_or-bitwise}
use mathlib.Core.Path.{◌≡◌, refl, ap}
use native.Mathlib.Omega.{arith}

-- Rounds beyond the number of digits change nothing.
spare_rounds :
    (a n m b : ℕ) (tail : ℕ → ℕ) (digit : ℕ → ℕ → ℕ)
    → a ≤ m
    → a ≤ n
    → digits tail digit m a b ≡ digits tail digit n a b
spare_rounds zero zero zero b tail digit h k = refl
spare_rounds zero zero (suc m) b tail digit h k = refl
spare_rounds zero (suc n) zero b tail digit h k = refl
spare_rounds zero (suc n) (suc m) b tail digit h k = refl
spare_rounds (suc a) n zero b tail digit h k = absurd (omega (arith, h))
spare_rounds (suc a) zero (suc m) b tail digit h k = absurd (omega (arith, k))
spare_rounds (suc a) (suc n) (suc m) b tail digit h k =
    ap (λ (t : ℕ). t * 2 + digit (suc a % 2) (b % 2))
      (spare_rounds (suc a / 2) n m (b / 2) tail digit (omega arith) (omega arith))

halved :
    (a b : ℕ) (tail : ℕ → ℕ) (digit : ℕ → ℕ → ℕ)
    → bitwise tail digit (suc a) b
      ≡ 2 * bitwise tail digit (suc a / 2) (b / 2) + digit (suc a % 2) (b % 2)
halved a b tail digit =
    omega
      (arith, spare_rounds (suc a / 2) (suc a / 2) a (b / 2) tail digit (omega arith) (omega arith))

pub or_halves : (x y : ℕ) → bit_or x y ≡ 2 * bit_or (x / 2) (y / 2) + max (x % 2) (y % 2)
or_halves zero y = simp bit_or-bitwise (omega arith)
or_halves (suc x) y = simp bit_or-bitwise (halved x y (λ rest. rest) max)

pub and_halves : (x y : ℕ) → bit_and x y ≡ 2 * bit_and (x / 2) (y / 2) + min (x % 2) (y % 2)
and_halves zero y = simp bit_and-bitwise (omega arith)
and_halves (suc x) y = simp bit_and-bitwise (halved x y (λ rest. 0) min)

pub or_zero_left : (y : ℕ) → bit_or 0 y ≡ y
or_zero_left y = simp bit_or-bitwise refl
