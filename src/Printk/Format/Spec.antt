-- ===== src/Printk/Format/Spec.antt =====
-- What `my_vsnprintf` promises, as relations on formats, arguments and texts.
pub mod Fields
pub mod Loop
use kernel_v.Base.{
  ℕ, zero, suc, ◌+◌, ◌-◌, ◌*◌, ◌^◌, ◌≤◌, ◌<◌, ◌≡◌, ◌≢◌, List, [], ◌∷◌, ◌++◌, reverse, Bool, true,
  false, length, replicate, u8, if◌then◌else◌,
}
use kernel_v.Printk.Format.{Arg, word, text, c_string, is_digit}
use kernel_v.Printk.Format.Digits.{IsDecimal, IsHexadecimal}

-- A field's text, padded in front to a width.
abbrev pub padded : ℕ → ℕ → List ℕ → List ℕ
padded width pad body = replicate (width - length body) pad ++ body

-- `Field width pad pointers letter a t`: under the conversion `letter` the argument `a` reads `t`.
-- A `%u` has a text below `2 ^ 31` only, and a `%p` where pointers are admitted.
pub data Field (width pad : ℕ) (pointers : Bool) : ℕ → Arg → List ℕ → Type 0 where
  string :
      (letter : ℕ) (str : List ℕ)
      → letter ≡ b's'
      → Field width pad pointers letter (text str) (padded width pad (c_string str))
  null :
      (letter w : ℕ)
      → letter ≡ b's'
      → w ≡ 0
      → Field width pad pointers letter
          (word w)
          (padded width pad (b'(' ∷ b'n' ∷ b'u' ∷ b'l' ∷ b'l' ∷ b')' ∷ []))
  character :
      (letter w : ℕ)
      → letter ≡ b'c'
      → Field width pad pointers letter (word w) (padded width pad (u8 w ∷ []))
  positive :
      (letter w : ℕ) {tmp : List ℕ}
      → letter ≡ b'd'
      → w < 2 ^ 31
      → IsDecimal tmp w
      → Field width pad pointers letter (word w) (padded width pad (reverse tmp))
  negative :
      (letter w : ℕ) {tmp : List ℕ}
      → letter ≡ b'd'
      → 2 ^ 31 < w
      → w < 2 ^ 32
      → IsDecimal tmp (2 ^ 32 - w)
      → Field width pad pointers letter (word w) (padded width pad (reverse (tmp ++ (b'-' ∷ []))))
  unsigned :
      (letter w : ℕ) {tmp : List ℕ}
      → letter ≡ b'u'
      → w < 2 ^ 31
      → IsDecimal tmp w
      → Field width pad pointers letter (word w) (padded width pad (reverse tmp))
  hexadecimal :
      (letter w : ℕ) {tmp : List ℕ}
      → letter ≡ b'x'
      → w < 2 ^ 32
      → IsHexadecimal tmp w
      → Field width pad pointers letter (word w) (padded width pad (reverse tmp))
  pointer :
      (letter w : ℕ) {tmp : List ℕ}
      → letter ≡ b'p'
      → pointers ≡ true
      → w < 2 ^ 32
      → IsHexadecimal tmp w
      → Field width pad pointers letter (word w) (b'0' ∷ b'x' ∷ reverse tmp)

abbrev pub AllDigits : List ℕ → Type 0
AllDigits [] = Unit
AllDigits (c ∷ ds) = (is_digit c ≡ true) × AllDigits ds

-- The number that a width's digits denote, behind `width`.
abbrev pub width_value : ℕ → List ℕ → ℕ
width_value width [] = width
width_value width (c ∷ ds) = width_value (width * 10 + (c - b'0')) ds

abbrev pub NoZeroFirst : List ℕ → Type 0
NoZeroFirst [] = Unit
NoZeroFirst (c ∷ ds) = c ≢ b'0'

-- `fmt` is an optional `0` flag, the digits of `width`, a letter, and `rest`.
pub record Directive (fmt : List ℕ) (pad width letter : ℕ) (rest : List ℕ) : Type 0 where
  pub flagged : Bool
  pub ds : List ℕ
  pub digits : AllDigits ds
  pub unflagged : flagged ≡ false → NoZeroFirst ds
  pub pad_is : pad ≡ (if flagged then b'0' else b' ')
  pub width_is : width ≡ width_value 0 ds
  pub width_fits : width < 2 ^ 31
  pub no_digit : is_digit letter ≡ false
  pub fmt_is : fmt ≡ (if flagged then b'0' ∷ [] else []) ++ (ds ++ (letter ∷ rest))

-- A letter that is no conversion stands for itself, as `%` does.
abbrev pub IsPlain : ℕ → Type 0
IsPlain c = (c ≢ b's') × (c ≢ b'c') × (c ≢ b'd') × (c ≢ b'u') × (c ≢ b'x') × (c ≢ b'p')

-- `Renders pointers fmt args t`: the format with these arguments (and any behind) reads `t`.
pub data Renders (pointers : Bool) : List ℕ → List Arg → List ℕ → Type 0 where
  end : (args : List Arg) → Renders pointers [] args []
  plain :
      (c : ℕ) {fmt : List ℕ} {args : List Arg} {t : List ℕ}
      → c ≢ b'%'
      → Renders pointers fmt args t
      → Renders pointers (c ∷ fmt) args (c ∷ t)
  escaped :
      (c pad width letter : ℕ) {fmt rest : List ℕ} {args : List Arg} {t : List ℕ}
      → c ≡ b'%'
      → Directive fmt pad width letter rest
      → IsPlain letter
      → Renders pointers rest args t
      → Renders pointers (c ∷ fmt) args (letter ∷ t)
  field :
      (c pad width letter : ℕ) {fmt rest : List ℕ} {a : Arg} {args : List Arg} {body t : List ℕ}
      → c ≡ b'%'
      → Directive fmt pad width letter rest
      → Field width pad pointers letter a body
      → Renders pointers rest args t
      → Renders pointers (c ∷ fmt) (a ∷ args) (body ++ t)
