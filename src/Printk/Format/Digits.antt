-- ===== src/Printk/Format/Digits.antt =====
-- The digit loops of `my_vsnprintf` against the numerals that they are to write.
use native.Mathlib.Nat.{pow-suc}
use kernel_v.Base.{
  ℕ, zero, suc, ◌+◌, ◌*◌, ◌/◌, ◌%◌, ◌^◌, ◌≤◌, ◌<◌, ◌≡◌, ◌≢◌, ap, ap₂, ◌∙◌, arith, List, [], ◌∷◌,
  Bool-cases, inl, inr, ◌==◌, length, get_or, le→ltb, if◌then◌else◌, true, false,
}
use kernel_v.Printk.Format.{dec_digits, neg_digits, hex_digit, hex_loop, unsigned_digits}

-- Numerals of a base, lowest digit first, with no zero in front.
pub data IsNumeral (base : ℕ) (digit : ℕ → ℕ) : List ℕ → ℕ → Type 0 where
  only : (d n : ℕ) → d < base → n ≡ d → IsNumeral base digit (digit d ∷ []) n
  more :
      (d m n : ℕ) {tmp : List ℕ}
      → d < base
      → 0 < m
      → n ≡ m * base + d
      → IsNumeral base digit tmp m
      → IsNumeral base digit (digit d ∷ tmp) n

abbrev pub dec_digit : ℕ → ℕ
dec_digit d = b'0' + d

abbrev pub IsDecimal : List ℕ → ℕ → Type 0
IsDecimal = IsNumeral 10 dec_digit

abbrev pub IsHexadecimal : List ℕ → ℕ → Type 0
IsHexadecimal = IsNumeral 16 hex_digit

dec_digits_next :
    (tmp : List ℕ) (val : ℕ)
    → (0 < val / 10 → IsDecimal tmp (val / 10))
    → IsDecimal (dec_digit (val % 10) ∷ (if val / 10 == 0 then [] else tmp)) val
dec_digits_next tmp val rest = elim (Bool-cases (val / 10 == 0)) [
  | inl e ↦ rw e (only (val % 10) val (omega arith) (ground arith))
  | inr e ↦ rw e (
      more (val % 10) (val / 10) val (omega arith) (ground arith) (omega arith)
        (rest (ground arith)))
]

-- With `left + 1` entries and a number below `10 ^ (left + 1)`, the decimal loop writes the numeral of
-- the number, lowest digit first and with no zero in front.
pub dec_digits-IsDecimal :
    (left val : ℕ) → val < 10 ^ suc left → IsDecimal (dec_digits (suc left) val) val
unfolding dec_digits
dec_digits-IsDecimal zero val h =
    dec_digits_next [] val (λ many. absurd (omega (arith, pow-suc 10 zero)))
dec_digits-IsDecimal (suc left) val h =
    dec_digits_next (dec_digits (suc left) (val / 10)) val
      (λ many. dec_digits-IsDecimal left (val / 10) (omega (arith, pow-suc 10 (suc left))))

-- A number has one numeral.
pub IsDecimal-dec_digits :
    {tmp : List ℕ} {n : ℕ}
    → IsDecimal tmp n
    → (left : ℕ) → n < 10 ^ suc left
    → tmp ≡ dec_digits (suc left) n
unfolding dec_digits
IsDecimal-dec_digits (only d n small e) left h =
    let short : (n / 10 == 0) ≡ true = ground arith in
    rw short (ap (λ k. dec_digit k ∷ []) (omega arith))
IsDecimal-dec_digits (more d m n small many e rest) zero h = absurd (omega (arith, pow-suc 10 zero))
IsDecimal-dec_digits (more d m n small many e rest) (suc left) h =
    let long : (n / 10 == 0) ≡ false = ground arith in
    let q : m ≡ n / 10 = omega arith in
    let low : d ≡ n % 10 = omega arith in
    let ih = IsDecimal-dec_digits rest left (omega (arith, pow-suc 10 (suc left))) in
    rw long (ap₂ (λ k t. dec_digit k ∷ t) low (ih ∙ ap (dec_digits (suc left)) q))

hex_loop_next :
    (tmp : List ℕ) (val : ℕ)
    → (0 < val / 16 → IsHexadecimal tmp (val / 16))
    → IsHexadecimal (hex_digit (val % 16) ∷ (if val / 16 == 0 then [] else tmp)) val
hex_loop_next tmp val rest = elim (Bool-cases (val / 16 == 0)) [
  | inl e ↦ rw e (only (val % 16) val (omega arith) (ground arith))
  | inr e ↦ rw e (
      more (val % 16) (val / 16) val (omega arith) (ground arith) (omega arith)
        (rest (ground arith)))
]

-- With entries enough for its digits the loop writes the numeral of its number.
pub hex_loop-IsHexadecimal :
    (left val : ℕ) → val < 16 ^ suc left → IsHexadecimal (hex_loop (suc left) val) val
unfolding hex_loop
hex_loop-IsHexadecimal zero val h =
    hex_loop_next [] val (λ many. absurd (omega (arith, pow-suc 16 zero)))
hex_loop-IsHexadecimal (suc left) val h =
    hex_loop_next (hex_loop (suc left) (val / 16)) val
      (λ many. hex_loop-IsHexadecimal left (val / 16) (omega (arith, pow-suc 16 (suc left))))

-- A number has one numeral.
pub IsHexadecimal-hex_loop :
    {tmp : List ℕ} {n : ℕ}
    → IsHexadecimal tmp n
    → (left : ℕ) → n < 16 ^ suc left
    → tmp ≡ hex_loop (suc left) n
unfolding hex_loop
IsHexadecimal-hex_loop (only d n small e) left h =
    let short : (n / 16 == 0) ≡ true = ground arith in
    rw short (ap (λ k. hex_digit k ∷ []) (omega arith))
IsHexadecimal-hex_loop (more d m n small many e rest) zero h =
    absurd (omega (arith, pow-suc 16 zero))
IsHexadecimal-hex_loop (more d m n small many e rest) (suc left) h =
    let long : (n / 16 == 0) ≡ false = ground arith in
    let q : m ≡ n / 16 = omega arith in
    let low : d ≡ n % 16 = omega arith in
    let ih = IsHexadecimal-hex_loop rest left (omega (arith, pow-suc 16 (suc left))) in
    rw long (ap₂ (λ k t. hex_digit k ∷ t) low (ih ∙ ap (hex_loop (suc left)) q))

length-dec_digits_le : (left n val : ℕ) → val < 10 ^ suc n → length (dec_digits left val) ≤ suc n
unfolding dec_digits
length-dec_digits_le zero n val h = omega arith
length-dec_digits_le (suc left) zero val h =
    let short : (val / 10 == 0) ≡ true = ground (arith, pow-suc 10 zero) in rw short (omega arith)
length-dec_digits_le (suc left) (suc n) val h = ground (
  arith,
  pow-suc 10 (suc n),
  length-dec_digits_le left n (val / 10) (omega (arith, pow-suc 10 (suc n))),
)

-- Ten of the twelve entries are enough for a number below `2 ^ 32`.
pub length-dec_digits : (val : ℕ) → val < 2 ^ 32 → length (dec_digits 12 val) ≤ 10
length-dec_digits val h = length-dec_digits_le 12 9 val (omega arith)

-- The text that `%u` writes for a word from `2 ^ 31` on is not that word's decimal numeral.
pub unsigned_digits-ne :
    (num : ℕ) (tmp : List ℕ)
    → 2 ^ 31 ≤ num
    → num < 2 ^ 32
    → IsDecimal tmp num
    → unsigned_digits num ≢ tmp
unfolding unsigned_digits neg_digits dec_digits
unsigned_digits-ne num tmp h k numeral e =
    let same : unsigned_digits num ≡ dec_digits 12 num =
      e ∙ IsDecimal-dec_digits numeral 11 (omega arith) in
    let wrong = rw (le→ltb num (2 ^ 31) h) at same in omega (arith, ap (λ t. get_or t 0 0) wrong)
