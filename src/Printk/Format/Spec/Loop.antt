-- ===== src/Printk/Format/Spec/Loop.antt =====
-- The loop of `my_vsnprintf` writes what its format and arguments read, as far as it fits.
use kernel_v.Base.{
  ℕ, zero, suc, ◌+◌, ◌-◌, ◌*◌, ◌^◌, ◌≤◌, ◌<◌, ◌≡◌, ◌≢◌, ◌⊎◌, refl, sym, ap, ap₂, ◌∙◌, arith, inl,
  inr, List, [], ◌∷◌, ◌++◌, Bool, true, false, Option, some, length, ◌==◌, if◌then◌else◌,
  Bool-cases, lt→ltb, ==_iff, length-append,
}
use kernel_v.Printk.Format.{
  Arg, Buffer, put, parse_flag, parse_width, is_digit, directive, at_letter, convert, format_loop,
}
use kernel_v.Printk.Format.Emit.{emit, emit-append, emit-nil, emit_full, put-emit}
use kernel_v.Printk.Format.Spec.{
  Directive, AllDigits, NoZeroFirst, width_value, IsPlain, Renders, end, plain, escaped, field,
}
use kernel_v.Printk.Format.Spec.Fields.{convert-Field}

parse_width_lem :
    (width letter : ℕ) (ds rest : List ℕ)
    → AllDigits ds
    → is_digit letter ≡ false
    → parse_width width (ds ++ (letter ∷ rest)) ≡ (width_value width ds, letter ∷ rest)
unfolding parse_width
parse_width_lem width letter [] rest all no_digit = rw no_digit refl
parse_width_lem width letter (c ∷ ds) rest all no_digit =
    rw all.0 (parse_width_lem (width * 10 + (c - b'0')) letter ds rest all.1 no_digit)

parse_flag_lem :
    (flagged : Bool) (ds rest : List ℕ) (letter : ℕ)
    → (flagged ≡ false → NoZeroFirst ds)
    → is_digit letter ≡ false
    → parse_flag ((if flagged then b'0' ∷ [] else []) ++ (ds ++ (letter ∷ rest)))
      ≡ (if flagged then b'0' else b' ', ds ++ (letter ∷ rest))
unfolding parse_flag is_digit
parse_flag_lem true ds rest letter first no_digit = refl
parse_flag_lem false [] rest letter first no_digit = ground arith
parse_flag_lem false (c ∷ ds) rest letter first no_digit = ground (arith, first refl)

directive_lem :
    {fmt rest : List ℕ} {pad width letter : ℕ} (args : List Arg) (b : Buffer)
    → Directive fmt pad width letter rest
    → directive fmt args b ≡ at_letter pad (width, letter ∷ rest) args b
unfolding directive
directive_lem {rest} {letter} args b d =
    rw
      (
        d.fmt_is,
        parse_flag_lem d.flagged d.ds rest letter d.unflagged d.no_digit,
        parse_width_lem 0 letter d.ds rest d.digits d.no_digit,
      )
      (ap₂ (λ p w. at_letter p (w, letter ∷ rest) args b) (sym d.pad_is) (sym d.width_is))

-- A letter that is no conversion is copied.
convert-IsPlain :
    (letter width pad : ℕ) (args : List Arg) (b : Buffer)
    → IsPlain letter
    → convert letter width pad args b ≡ some (args, put letter b)
unfolding convert
convert-IsPlain letter width pad args b h = ground arith

directive_done :
    {fmt rest : List ℕ} {pad width letter : ℕ} (args args' : List Arg) (b b' : Buffer)
    → Directive fmt pad width letter rest
    → convert letter width pad args b ≡ some (args', b')
    → directive fmt args b ≡ some (rest, args', b')
unfolding at_letter
directive_done {width} args args' b b' d e =
    directive_lem args b d ∙ rw (lt→ltb width (2 ^ 31) d.width_fits, e) refl

length-rest :
    {fmt rest : List ℕ} {pad width letter : ℕ}
    → Directive fmt pad width letter rest
    → length rest < length fmt
length-rest {rest} {letter} d = rw d.fmt_is (
    omega (
      arith,
      length-append (if d.flagged then b'0' ∷ [] else []) (d.ds ++ (letter ∷ rest)),
      length-append d.ds (letter ∷ rest),
    ))

format_loop_full :
    (rounds : ℕ) (fmt t : List ℕ) (args : List Arg) (b : Buffer)
    → b.room ≡ 0
    → format_loop (suc rounds) fmt args b ≡ some (emit t b)
unfolding format_loop
format_loop_full rounds [] t args b full = ap (λ r. some r) (sym (emit_full t b full))
format_loop_full rounds (c ∷ fmt) t args b full =
    rw ((==_iff b.room 0).1 full) (ap (λ r. some r) (sym (emit_full t b full)))

format_loop_copied :
    (rounds c : ℕ) (fmt : List ℕ) (args : List Arg) (b : Buffer)
    → (b.room == 0) ≡ false
    → c ≢ b'%'
    → format_loop (suc rounds) (c ∷ fmt) args b ≡ format_loop rounds fmt args (emit (c ∷ []) b)
unfolding format_loop
format_loop_copied rounds c fmt args b open_ h =
    let other : (c == b'%') ≡ false = ground arith in rw (open_, other, put-emit c b) refl

format_loop_converted :
    (rounds c : ℕ) (fmt rest : List ℕ) (args args' : List Arg) (b b' : Buffer)
    → (b.room == 0) ≡ false
    → c ≡ b'%'
    → directive fmt args b ≡ some (rest, args', b')
    → format_loop (suc rounds) (c ∷ fmt) args b ≡ format_loop rounds rest args' b'
unfolding format_loop
format_loop_converted rounds c fmt rest args args' b b' open_ h e =
    rw (open_, (==_iff c b'%').1 h, e) refl

abbrev Fits : Bool → List ℕ → Buffer → Type 0
Fits pointers t b = (pointers ≡ false) ⊎ (length t ≤ b.room)

Fits-first :
    (pointers : Bool) (body t : List ℕ) (b : Buffer)
    → Fits pointers (body ++ t) b
    → Fits pointers body b
Fits-first pointers body t b (inl h) = inl h
Fits-first pointers body t b (inr h) = inr (omega (arith, length-append body t))

Fits-later :
    (pointers : Bool) (body t : List ℕ) (b : Buffer)
    → Fits pointers (body ++ t) b
    → Fits pointers t (emit body b)
unfolding emit
Fits-later pointers body t b (inl h) = inl h
Fits-later pointers body t b (inr h) = inr (omega (arith, length-append body t))

-- A round that writes `body` and leaves the rest of the format, before a rest that reads `t`.
after_round :
    (body t : List ℕ) {n : Option Buffer} {m : Option Buffer} (b : Buffer)
    → n ≡ m
    → m ≡ some (emit t (emit body b))
    → n ≡ some (emit (body ++ t) b)
after_round body t b e ih = e ∙ ih ∙ ap (λ r. some r) (emit-append body t b)

-- Where the text fits, or has no pointer, enough rounds write as much of it as fits.
pub format_loop-Renders :
    {pointers : Bool} {fmt : List ℕ} {args : List Arg} {t : List ℕ} (rounds : ℕ) (b : Buffer)
    → Renders pointers fmt args t
    → length fmt < rounds
    → (pointers ≡ false) ⊎ (length t ≤ b.room)
    → format_loop rounds fmt args b ≡ some (emit t b)
format_loop-Renders zero b r h fits = absurd (omega arith)
format_loop-Renders (suc rounds) b (end args) h fits =
    unfold format_loop in ap (λ r. some r) (sym (emit-nil b))
format_loop-Renders {pointers} (suc rounds) b (plain c {fmt} {args} {t} ne r) h fits =
    elim (Bool-cases (b.room == 0)) [
      | inl e ↦ format_loop_full rounds (c ∷ fmt) (c ∷ t) args b ((==_iff b.room 0).0 e)
      | inr e ↦ after_round (c ∷ []) t b (format_loop_copied rounds c fmt args b e ne) (
          format_loop-Renders rounds (emit (c ∷ []) b) r (omega arith)
            (Fits-later pointers (c ∷ []) t b fits))
    ]
format_loop-Renders {pointers} (suc rounds) b
      (escaped c pad width letter {fmt} {rest} {args} {t} p d other r) h fits =
    elim (Bool-cases (b.room == 0)) [
      | inl e ↦ format_loop_full rounds (c ∷ fmt) (letter ∷ t) args b ((==_iff b.room 0).0 e)
      | inr e ↦
          after_round (letter ∷ []) t b
            (format_loop_converted rounds c fmt rest args args b (emit (letter ∷ []) b) e p (
              directive_done args args b (emit (letter ∷ []) b) d (
                convert-IsPlain letter width pad args b other
                ∙ ap (λ q. some (args, q)) (put-emit letter b))))
            (format_loop-Renders rounds (emit (letter ∷ []) b) r (omega (arith, length-rest d))
              (Fits-later pointers (letter ∷ []) t b fits))
    ]
format_loop-Renders {pointers} (suc rounds) b
      (field c pad width letter {fmt} {rest} {a} {args} {body} {t} p d f r) h fits =
    elim (Bool-cases (b.room == 0)) [
      | inl e ↦ format_loop_full rounds (c ∷ fmt) (body ++ t) (a ∷ args) b ((==_iff b.room 0).0 e)
      | inr e ↦
          after_round body t b
            (format_loop_converted rounds c fmt rest (a ∷ args) args b (emit body b) e p (
              directive_done (a ∷ args) args b (emit body b) d
                (convert-Field args b f (Fits-first pointers body t b fits))))
            (format_loop-Renders rounds (emit body b) r (omega (arith, length-rest d))
              (Fits-later pointers body t b fits))
    ]
