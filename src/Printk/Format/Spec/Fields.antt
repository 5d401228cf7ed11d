-- ===== src/Printk/Format/Spec/Fields.antt =====
-- Each conversion of `my_vsnprintf` writes its field.
use kernel_v.Base.{
  ℕ, suc, ◌-◌, ◌^◌, ◌≤◌, ◌<◌, ◌≡◌, ◌⊎◌, refl, sym, ap, ◌∙◌, arith, inl, inr, List, [], ◌∷◌, ◌++◌,
  reverse, Bool, true, false, some, length, replicate, u8, ltb, ◌==◌, if◌then◌else◌, Bool-cases,
  le→ltb, lt→ltb, le→leb, ==_iff, length-reverse,
}
use kernel_v.Printk.Format.{
  Arg, c_string, Buffer, put, put_all, put_pad, put_field, put_string, put_pointer, hex_digit,
  dec_digits, hex_loop, hex_digits, signed_digits, unsigned_digits, convert, convert_s, with_word,
}
use kernel_v.Printk.Format.Digits.{
  IsDecimal, IsHexadecimal, IsDecimal-dec_digits, IsHexadecimal-hex_loop, length-dec_digits,
}
use kernel_v.Printk.Format.Emit.{emit, emit-append, put-emit, put_all-emit, put_pad-emit}
use kernel_v.Printk.Format.Spec.{
  padded, Field, string, null, character, positive, negative, unsigned, hexadecimal, pointer,
}

put_padded :
    (n pad : ℕ) (body : List ℕ) (b : Buffer)
    → put_all body (put_pad n pad b) ≡ emit (replicate n pad ++ body) b
put_padded n pad body b =
    put_all-emit body (put_pad n pad b)
    ∙ ap (emit body) (put_pad-emit n pad b)
    ∙ emit-append (replicate n pad) body b

put_field-emit :
    (width pad : ℕ) (tmp : List ℕ) (b : Buffer)
    → put_field width pad tmp b ≡ emit (padded width pad (reverse tmp)) b
unfolding put_field
put_field-emit width pad tmp b =
    put_padded (width - length tmp) pad (reverse tmp) b
    ∙ ap (λ n. emit (replicate (width - n) pad ++ reverse tmp) b) (sym (length-reverse tmp))

put_string-emit :
    (width pad : ℕ) (str : List ℕ) (b : Buffer)
    → put_string width pad str b ≡ emit (padded width pad str) b
unfolding put_string
put_string-emit width pad str b =
    let n : (if ltb width (length str) then 0 else width - length str) ≡ width - length str =
      ground arith in
    rw n (put_padded (width - length str) pad str b)

hex_digits-loop : (left n : ℕ) → hex_digits (suc left) n ≡ hex_loop (suc left) n
unfolding hex_digits hex_loop hex_digit
hex_digits-loop left n = elim (Bool-cases (n == 0)) [
  | inl e ↦ let z : n ≡ 0 = (==_iff n 0).0 e in rw z refl
  | inr e ↦ rw e refl
]

hex_digits_unique :
    (left : ℕ) {tmp : List ℕ} {n : ℕ}
    → IsHexadecimal tmp n
    → n < 16 ^ suc left
    → hex_digits (suc left) n ≡ tmp
hex_digits_unique left {n} numeral h =
    hex_digits-loop left n ∙ sym (IsHexadecimal-hex_loop numeral left h)

signed_positive : (w : ℕ) {tmp : List ℕ} → w < 2 ^ 31 → IsDecimal tmp w → signed_digits w ≡ some tmp
unfolding signed_digits
signed_positive w small numeral =
    let e : (w == 2 ^ 31) ≡ false = ground arith in
    rw (e, lt→ltb w (2 ^ 31) small)
      (ap (λ t. some t) (sym (IsDecimal-dec_digits numeral 11 (omega arith))))

signed_negative :
    (w : ℕ) {tmp : List ℕ}
    → 2 ^ 31 < w
    → w < 2 ^ 32
    → IsDecimal tmp (2 ^ 32 - w)
    → signed_digits w ≡ some (tmp ++ (b'-' ∷ []))
unfolding signed_digits
signed_negative w big small numeral =
    let m : ℕ = 2 ^ 32 - w in
    let e : (w == 2 ^ 31) ≡ false = ground arith in
    let n : ltb w (2 ^ 31) ≡ false = le→ltb w (2 ^ 31) (omega arith) in
    let short : ltb (length (dec_digits 12 m)) 12 ≡ true =
      lt→ltb (length (dec_digits 12 m)) 12 (omega (arith, length-dec_digits m (omega arith))) in
    rw (e, n, short)
      (ap (λ t. some (t ++ (b'-' ∷ []))) (sym (IsDecimal-dec_digits numeral 11 (omega arith))))

unsigned_small : (w : ℕ) {tmp : List ℕ} → w < 2 ^ 31 → IsDecimal tmp w → unsigned_digits w ≡ tmp
unfolding unsigned_digits
unsigned_small w small numeral =
    rw (lt→ltb w (2 ^ 31) small) (sym (IsDecimal-dec_digits numeral 11 (omega arith)))

put_pointer-emit :
    (w : ℕ) {tmp : List ℕ} (b : Buffer)
    → w < 2 ^ 32
    → IsHexadecimal tmp w
    → 2 ≤ b.room
    → put_pointer w b ≡ emit (b'0' ∷ b'x' ∷ reverse tmp) b
unfolding put_pointer
put_pointer-emit w {tmp} b small numeral room =
    rw (le→leb 2 b.room room, hex_digits_unique 19 numeral (omega arith))
      (put_all-emit (reverse tmp) (put b'x' (put b'0' b))
        ∙ ap (emit (reverse tmp)) (
            put-emit b'x' (put b'0' b)
            ∙ ap (emit (b'x' ∷ [])) (put-emit b'0' b)
            ∙ emit-append (b'0' ∷ []) (b'x' ∷ []) b)
        ∙ emit-append (b'0' ∷ b'x' ∷ []) (reverse tmp) b)

-- Where a field's text fits, or is no pointer's, the conversion writes as much of it as fits.
pub convert-Field :
    {width pad letter : ℕ} {pointers : Bool} {a : Arg} {t : List ℕ} (args : List Arg) (b : Buffer)
    → Field width pad pointers letter a t
    → (pointers ≡ false) ⊎ (length t ≤ b.room)
    → convert letter width pad (a ∷ args) b ≡ some (args, emit t b)
unfolding convert convert_s with_word
convert-Field {width} {pad} args b (string letter str e) fits =
    rw e (ap (λ r. some (args, r)) (put_string-emit width pad (c_string str) b))
convert-Field {width} {pad} args b (null letter w e z) fits =
    rw (e, z) (ap (λ r. some (args, r)) (put_string-emit width pad _ b))
convert-Field {width} {pad} args b (character letter w e) fits = rw e (
    ap (λ r. some (args, r))
      (put-emit (u8 w) (put_pad (width - 1) pad b)
        ∙ ap (emit (u8 w ∷ [])) (put_pad-emit (width - 1) pad b)
        ∙ emit-append (replicate (width - 1) pad) (u8 w ∷ []) b))
convert-Field {width} {pad} args b (positive letter w {tmp} e small numeral) fits =
    rw (e, signed_positive w small numeral)
      (ap (λ r. some (args, r)) (put_field-emit width pad tmp b))
convert-Field {width} {pad} args b (negative letter w {tmp} e big small numeral) fits =
    rw (e, signed_negative w big small numeral)
      (ap (λ r. some (args, r)) (put_field-emit width pad (tmp ++ (b'-' ∷ [])) b))
convert-Field {width} {pad} args b (unsigned letter w {tmp} e small numeral) fits =
    rw (e, unsigned_small w small numeral)
      (ap (λ r. some (args, r)) (put_field-emit width pad tmp b))
convert-Field {width} {pad} args b (hexadecimal letter w {tmp} e small numeral) fits =
    rw (e, hex_digits_unique 11 numeral (omega arith))
      (ap (λ r. some (args, r)) (put_field-emit width pad tmp b))
convert-Field {width} {pad} {pointers} args b (pointer letter w {tmp} e on small numeral) fits =
    rw e (ap (λ r. some (args, r)) (put_pointer-emit w b small numeral (room fits)))
  where
    room : (pointers ≡ false) ⊎ (length (b'0' ∷ b'x' ∷ reverse tmp) ≤ b.room) → 2 ≤ b.room
    room (inl off) = cc (on, off)
    room (inr enough) = omega arith
