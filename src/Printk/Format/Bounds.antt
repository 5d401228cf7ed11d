-- ===== src/Printk/Format/Bounds.antt =====
-- `my_vsnprintf` writes inside its buffer, whatever its format and arguments are.
use mathlib.Core.Option
use kernel_v.Base.{
  ℕ, zero, suc, ◌+◌, ◌-◌, ◌<◌, ◌≡◌, refl, ◌∙◌, arith, List, [], ◌∷◌, Option, none, some, length,
  ◌==◌, if◌then◌else◌, Bool-cases, inl, inr, reverse, length-append, ltb, leb, if_both, u8, ◌>>=◌,
}
use kernel_v.Printk.Format.{
  Arg, word, text, c_string, Buffer, put, put_all, put_pad, put_field, put_string, put_pointer,
  convert, convert_s, with_word, signed_digits, unsigned_digits, hex_digits, Converted, at_letter,
  directive, parse_flag, parse_width, format_loop, my_vsnprintf, int_min,
}

-- What is written and what is left make up the buffer.
abbrev capacity : Buffer → ℕ
capacity b = length b.out + b.room

capacity-put : (c : ℕ) (b : Buffer) → capacity (put c b) ≡ capacity b
unfolding put
capacity-put c b = ground (arith, length-append b.out (c ∷ []))

capacity-put_all : (xs : List ℕ) (b : Buffer) → capacity (put_all xs b) ≡ capacity b
unfolding put_all
capacity-put_all [] b = refl
capacity-put_all (c ∷ xs) b = ground (arith, capacity-put_all xs (put c b), capacity-put c b)

capacity-put_pad : (n c : ℕ) (b : Buffer) → capacity (put_pad n c b) ≡ capacity b
unfolding put_pad
capacity-put_pad zero c b = refl
capacity-put_pad (suc n) c b = ground (arith, capacity-put_pad n c (put c b), capacity-put c b)

capacity-put_field :
    (width pad : ℕ) (tmp : List ℕ) (b : Buffer) → capacity (put_field width pad tmp b) ≡ capacity b
unfolding put_field
capacity-put_field width pad tmp b =
    capacity-put_all (reverse tmp) (put_pad (width - length tmp) pad b)
    ∙ capacity-put_pad (width - length tmp) pad b

capacity-put_string :
    (width pad : ℕ) (str : List ℕ) (b : Buffer) → capacity (put_string width pad str b) ≡ capacity b
unfolding put_string
capacity-put_string width pad str b =
    let n : ℕ = if ltb width (length str) then 0 else width - length str in
    capacity-put_all str (put_pad n pad b) ∙ capacity-put_pad n pad b

capacity-put_pointer : (ptr : ℕ) (b : Buffer) → capacity (put_pointer ptr b) ≡ capacity b
unfolding put_pointer
capacity-put_pointer ptr b =
    capacity-put_all (reverse (hex_digits 20 ptr))
      (if leb 2 b.room then put b'x' (put b'0' b) else b)
    ∙ ground (arith, capacity-put b'x' (put b'0' b), capacity-put b'0' b)

-- A result, if there is one, has the capacity of `b`.
abbrev KeepsBuffer : Buffer → Option Buffer → Type 0
KeepsBuffer b none = Unit
KeepsBuffer b (some b') = capacity b' ≡ capacity b

abbrev Keeps : Buffer → Converted → Type 0
Keeps b none = Unit
Keeps b (some (args, b')) = capacity b' ≡ capacity b

Keeps-with_word :
    (b : Buffer) (put_word : ℕ → Option Buffer) (args : List Arg)
    → ((w : ℕ) → KeepsBuffer b (put_word w))
    → Keeps b (with_word put_word args)
unfolding with_word
Keeps-with_word b put_word [] h = tt
Keeps-with_word b put_word (text str ∷ args) h = tt
Keeps-with_word b put_word (word w ∷ args) h = through (put_word w) (h w)
  where
    through : (r : Option Buffer) → KeepsBuffer b r → Keeps b (Option.map (λ b'. (args, b')) r)
    through none k = tt
    through (some b') k = k

Keeps-convert_s :
    (width pad : ℕ) (args : List Arg) (b : Buffer) → Keeps b (convert_s width pad args b)
unfolding convert_s
Keeps-convert_s width pad [] b = tt
Keeps-convert_s width pad (text str ∷ args) b = capacity-put_string width pad (c_string str) b
Keeps-convert_s width pad (word w ∷ args) b =
    if_both (Keeps b) (w == 0) _ none (capacity-put_string width pad _ b) tt

KeepsBuffer-signed :
    (width pad : ℕ) (b : Buffer) (r : Option (List ℕ))
    → KeepsBuffer b (Option.map (λ tmp. put_field width pad tmp b) r)
KeepsBuffer-signed width pad b none = tt
KeepsBuffer-signed width pad b (some tmp) = capacity-put_field width pad tmp b

Keeps-convert :
    (letter width pad : ℕ) (args : List Arg) (b : Buffer)
    → Keeps b (convert letter width pad args b)
unfolding convert
Keeps-convert letter width pad args b =
    if_both (Keeps b) (letter == b's') _ _ (Keeps-convert_s width pad args b) (
      if_both (Keeps b) (letter == b'c') _ _
        (Keeps-with_word b _ args (λ w.
          capacity-put (u8 w) (put_pad (width - 1) pad b) ∙ capacity-put_pad (width - 1) pad b))
        (if_both (Keeps b) (letter == b'd') _ _
          (Keeps-with_word b _ args (λ w. KeepsBuffer-signed width pad b (signed_digits w)))
          (if_both (Keeps b) (letter == b'u') _ _
            (Keeps-with_word b _ args (λ w. capacity-put_field width pad (unsigned_digits w) b))
            (if_both (Keeps b) (letter == b'x') _ _
              (Keeps-with_word b _ args (λ w. capacity-put_field width pad (hex_digits 12 w) b))
              (if_both (Keeps b) (letter == b'p') _ _
                (Keeps-with_word b _ args (λ w. capacity-put_pointer w b))
                (capacity-put letter b))))))

abbrev KeepsStep : Buffer → Option (List ℕ × List Arg × Buffer) → Type 0
KeepsStep b none = Unit
KeepsStep b (some (fmt, args, b')) = capacity b' ≡ capacity b

Keeps-directive : (fmt : List ℕ) (args : List Arg) (b : Buffer) → KeepsStep b (directive fmt args b)
unfolding directive at_letter
Keeps-directive fmt args b = at (parse_flag fmt).0 (parse_width 0 (parse_flag fmt).1)
  where
    through :
        (rest : List ℕ) (r : Converted)
        → Keeps b r
        → KeepsStep b (Option.map (λ r. (rest, r.0, r.1)) r)
    through rest none k = tt
    through rest (some (args', b')) k = k

    at : (pad : ℕ) (parsed : ℕ × List ℕ) → KeepsStep b (at_letter pad parsed args b)
    at pad (width, []) = tt
    at pad (width, letter ∷ rest) =
        if_both (KeepsStep b) (ltb width int_min) _ none
          (through rest (convert letter width pad args b) (Keeps-convert letter width pad args b))
          tt

KeepsBuffer-format_loop :
    (rounds : ℕ) (fmt : List ℕ) (args : List Arg) (b : Buffer)
    → KeepsBuffer b (format_loop rounds fmt args b)
unfolding format_loop
KeepsBuffer-format_loop zero fmt args b = tt
KeepsBuffer-format_loop (suc rounds) [] args b = refl
KeepsBuffer-format_loop (suc rounds) (c ∷ fmt) args b =
    if_both (KeepsBuffer b) (b.room == 0) _ _ refl (
      if_both (KeepsBuffer b) (c == b'%') _ _
        (converted (KeepsBuffer-format_loop rounds) (directive fmt args b)
          (Keeps-directive fmt args b))
        (from (put c b) (format_loop rounds fmt args (put c b)) (capacity-put c b)
          (KeepsBuffer-format_loop rounds fmt args (put c b))))
  where
    from :
        (b' : Buffer) (r : Option Buffer)
        → capacity b' ≡ capacity b
        → KeepsBuffer b' r
        → KeepsBuffer b r
    from b' none e k = tt
    from b' (some b'') e k = k ∙ e

    converted :
        ((fmt : List ℕ) (args : List Arg) (b : Buffer)
          → KeepsBuffer b (format_loop rounds fmt args b))
        → (step : Option (List ℕ × List Arg × Buffer)) → KeepsStep b step
        → KeepsBuffer b (step >>= λ r. format_loop rounds r.0 r.1 r.2)
    converted again none k = tt
    converted again (some (fmt', args', b')) k =
        from b' (format_loop rounds fmt' args' b') k (again fmt' args' b')

-- A defined call returns a length below the size of the buffer: text and terminator fit.
pub length-my_vsnprintf :
    (size : ℕ) (fmt : List ℕ) (args : List Arg) {out : List ℕ}
    → my_vsnprintf size fmt args ≡ some out
    → length out < size
unfolding my_vsnprintf
length-my_vsnprintf size fmt args {out} h = elim (Bool-cases (size == 0)) [
  | inl e ↦ cc (rw e at h)
  | inr e ↦
      inside (ground arith) (format_loop rounds (c_string fmt) args start)
        (KeepsBuffer-format_loop rounds (c_string fmt) args start) (rw e at h)
]
  where
    rounds : ℕ
    rounds = suc (length (c_string fmt))

    start : Buffer
    start = record { out = []; room = size - 1 }

    inside :
        0 < size
        → (r : Option Buffer) → KeepsBuffer start r
        → Option.map (λ b. b.out) r ≡ some out
        → length out < size
    inside pos none k q = cc
    inside pos (some b) k q = ground arith
