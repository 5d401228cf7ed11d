-- ===== src/Printk/Format.antt =====
-- `my_vsnprintf` of kernel/lib/printk.c.
pub mod Digits
pub mod Bounds
pub mod Correct
pub mod Emit
pub mod Spec
use mathlib.Core.Option
use kernel_v.Base.{
  ℕ, zero, suc, ◌+◌, ◌-◌, ◌*◌, ◌/◌, ◌%◌, ◌^◌, List, [], ◌∷◌, ◌++◌, reverse, Bool, Option, none,
  some, ◌&&◌, ◌>>=◌, ltb, leb, ◌==◌, if◌then◌else◌, length, u8,
}

-- An argument behind the `...`: a word of 32 bits, or a pointer to a string.
pub data Arg : Type 0 where
  word : ℕ → Arg
  text : List ℕ → Arg

-- The bytes before the terminator.
unfoldable pub c_string : List ℕ → List ℕ
c_string [] = []
c_string (c ∷ str) = if c == 0 then [] else c ∷ c_string str

-- The output: what stands between `buf` and `p`, and how many bytes `p` is from `end`.
pub record Buffer : Type 0 where
  pub out : List ℕ
  pub room : ℕ

-- `if (p < end) *p++ = c;`
pub put : ℕ → Buffer → Buffer
put c b = if b.room == 0 then b else record { out = b.out ++ (c ∷ []); room = b.room - 1 }

-- `while (*str && p < end) *p++ = *str++;`
pub put_all : List ℕ → Buffer → Buffer
put_all [] b = b
put_all (c ∷ str) b = let rest = put_all str (put c b) in if b.room == 0 then b else rest

-- `while (to_pad_width-- > 0 && p < end) *p++ = pad_char;`
pub put_pad : ℕ → ℕ → Buffer → Buffer
put_pad zero c b = b
put_pad (suc n) c b = let rest = put_pad n c (put c b) in if b.room == 0 then b else rest

-- The loops that fill `tmp`, lowest digit first, by the entries of `tmp` that are left.
pub dec_digits : ℕ → ℕ → List ℕ
dec_digits zero val = []
dec_digits (suc left) val =
    let rest = dec_digits left (val / 10) in
    (b'0' + val % 10) ∷ (if val / 10 == 0 then [] else rest)

-- The same loop on the `int` -(m), whose remainders are negative.
pub neg_digits : ℕ → ℕ → List ℕ
neg_digits zero m = []
neg_digits (suc left) m =
    let rest = neg_digits left (m / 10) in (b'0' - m % 10) ∷ (if m / 10 == 0 then [] else rest)

pub hex_digit : ℕ → ℕ
hex_digit digit = if ltb digit 10 then b'0' + digit else b'a' + digit - 10

pub hex_loop : ℕ → ℕ → List ℕ
hex_loop zero num = []
hex_loop (suc left) num =
    let rest = hex_loop left (num / 16) in
    hex_digit (num % 16) ∷ (if num / 16 == 0 then [] else rest)

pub hex_digits : ℕ → ℕ → List ℕ
hex_digits size num = if num == 0 then b'0' ∷ [] else hex_loop size num

-- Padding to the width, then `tmp` from its end.
pub put_field : ℕ → ℕ → List ℕ → Buffer → Buffer
put_field width pad tmp b = put_all (reverse tmp) (put_pad (width - length tmp) pad b)

abbrev pub int_min : ℕ
int_min = 2 ^ 31

-- `tmp` for `%d`; to negate the least `int` is undefined.
pub signed_digits : ℕ → Option (List ℕ)
signed_digits num =
    if num == int_min
    then none
    else (if ltb num int_min
        then some (dec_digits 12 num)
        else (let tmp = dec_digits 12 (2 ^ 32 - num) in
            some (if ltb (length tmp) 12 then tmp ++ (b'-' ∷ []) else tmp)))

-- `tmp` for `%u`, which the code fetches as an `int`.
pub unsigned_digits : ℕ → List ℕ
unsigned_digits num = if ltb num int_min then dec_digits 12 num else neg_digits 12 (2 ^ 32 - num)

pub put_string : ℕ → ℕ → List ℕ → Buffer → Buffer
put_string width pad str b =
    let to_pad_width = if ltb width (length str) then 0 else width - length str in
    put_all str (put_pad to_pad_width pad b)

pub put_pointer : ℕ → Buffer → Buffer
put_pointer ptr b =
    let b' = if leb 2 b.room then put b'x' (put b'0' b) else b in
    put_all (reverse (hex_digits 20 ptr)) b'

abbrev Converted : Type 0
Converted = Option (List Arg × Buffer)

-- `%s`; a word other than NULL is no pointer to a string.
convert_s : ℕ → ℕ → List Arg → Buffer → Converted
convert_s width pad [] b = none
convert_s width pad (text str ∷ args) b = some (args, put_string width pad (c_string str) b)
convert_s width pad (word w ∷ args) b =
    if w == 0
    then some (args, put_string width pad (b'(' ∷ b'n' ∷ b'u' ∷ b'l' ∷ b'l' ∷ b')' ∷ []) b)
    else none

-- A conversion that fetches a word.
with_word : (ℕ → Option Buffer) → List Arg → Converted
with_word put_word [] = none
with_word put_word (text str ∷ args) = none
with_word put_word (word w ∷ args) = Option.map (λ b. (args, b)) (put_word w)

-- The `switch` on the conversion's letter.
pub convert : ℕ → ℕ → ℕ → List Arg → Buffer → Converted
convert letter width pad args b =
    if letter == b's'
    then convert_s width pad args b
    else (if letter == b'c'
        then with_word (λ w. some (put (u8 w) (put_pad (width - 1) pad b))) args
        else (if letter == b'd'
            then with_word (λ w. Option.map (λ tmp. put_field width pad tmp b) (signed_digits w))
                args
            else (if letter == b'u'
                then with_word (λ w. some (put_field width pad (unsigned_digits w) b)) args
                else (if letter == b'x'
                    then with_word (λ w. some (put_field width pad (hex_digits 12 w) b)) args
                    else (if letter == b'p'
                        then with_word (λ w. some (put_pointer w b)) args
                        else some (args, put letter b))))))

unfoldable pub is_digit : ℕ → Bool
is_digit c = leb b'0' c && leb c b'9'

pub parse_width : ℕ → List ℕ → ℕ × List ℕ
parse_width width [] = (width, [])
parse_width width (c ∷ fmt) =
    if is_digit c then parse_width (width * 10 + (c - b'0')) fmt else (width, c ∷ fmt)

-- The padding character, and the format behind a `0` flag.
pub parse_flag : List ℕ → ℕ × List ℕ
parse_flag [] = (b' ', [])
parse_flag (c ∷ fmt) = if c == b'0' then (b'0', fmt) else (b' ', c ∷ fmt)

-- With no letter left the code steps over the terminator, and a width beyond `int` overflows.
at_letter : ℕ → ℕ × List ℕ → List Arg → Buffer → Option (List ℕ × List Arg × Buffer)
at_letter pad (width, []) args b = none
at_letter pad (width, letter ∷ fmt) args b =
    if ltb width int_min
    then Option.map (λ r. (fmt, r.0, r.1)) (convert letter width pad args b)
    else none

-- What stands behind a `%`: the format, the arguments and the output after it.
pub directive : List ℕ → List Arg → Buffer → Option (List ℕ × List Arg × Buffer)
directive fmt args b = let flag = parse_flag fmt in at_letter flag.0 (parse_width 0 flag.1) args b

-- The loop. Each round takes a character of the format at least, which bounds the rounds.
pub format_loop : ℕ → List ℕ → List Arg → Buffer → Option Buffer
format_loop zero fmt args b = none
format_loop (suc rounds) [] args b = some b
format_loop (suc rounds) (c ∷ fmt) args b =
    let copied = format_loop rounds fmt args (put c b) in
    let converted = directive fmt args b >>= λ r. format_loop rounds r.0 r.1 r.2 in
    if b.room == 0 then some b else (if c == b'%' then converted else copied)

-- The text in `buf`, whose length is returned; `none` where C leaves the call undefined.
pub my_vsnprintf : ℕ → List ℕ → List Arg → Option (List ℕ)
my_vsnprintf size fmt args =
    if size == 0
    then none
    else Option.map (λ b. b.out)
        (format_loop (suc (length (c_string fmt))) (c_string fmt) args
          (record { out = []; room = size - 1 }))
