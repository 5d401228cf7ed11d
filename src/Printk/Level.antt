-- ===== src/Printk/Level.antt =====
-- The log levels of kernel/lib/printk.c.
use kernel_v.Base.{
  Bool-cases, inl, inr, ==_iff, ℕ, suc, ◌+◌, ◌-◌, ◌≤◌, ◌≡◌, arith, List, [], ◌∷◌, Option, none,
  some, ◌==◌, if◌then◌else◌, codes, get_or, leb, ◌&&◌,
}
use kernel_v.Vga.{vga_color}
use kernel_v.Vga.Color

pub record Loglevel : Type 0 where
  pub level_char : ℕ
  pub name : List ℕ
  pub color : ℕ

abbrev level : ℕ → List ℕ → ℕ → Loglevel
level c name color = record { level_char = c; name = name; color = color }

abbrev pub loglevels : List Loglevel
loglevels =
    level b'0' (codes "EMERG") (vga_color Color.red Color.white)
    ∷ level b'1' (codes "ALERT") (vga_color Color.black Color.light_red)
    ∷ level b'2' (codes "CRIT") (vga_color Color.black Color.light_magenta)
    ∷ level b'3' (codes "ERR") (vga_color Color.black Color.red)
    ∷ level b'4' (codes "WARN") (vga_color Color.black Color.yellow)
    ∷ level b'5' (codes "NOTICE") (vga_color Color.black Color.light_cyan)
    ∷ level b'6' (codes "INFO") (vga_color Color.black Color.white)
    ∷ level b'7' (codes "DEBUG") (vga_color Color.black Color.dark_grey)
    ∷ []

-- The level in front of a message.
abbrev pub kern_soh : ℕ
kern_soh = 1

abbrev pub kern_emerg : List ℕ
kern_emerg = kern_soh ∷ b'0' ∷ []

abbrev pub kern_alert : List ℕ
kern_alert = kern_soh ∷ b'1' ∷ []

abbrev pub kern_crit : List ℕ
kern_crit = kern_soh ∷ b'2' ∷ []

abbrev pub kern_err : List ℕ
kern_err = kern_soh ∷ b'3' ∷ []

abbrev pub kern_warning : List ℕ
kern_warning = kern_soh ∷ b'4' ∷ []

abbrev pub kern_notice : List ℕ
kern_notice = kern_soh ∷ b'5' ∷ []

abbrev pub kern_info : List ℕ
kern_info = kern_soh ∷ b'6' ∷ []

abbrev pub kern_debug : List ℕ
kern_debug = kern_soh ∷ b'7' ∷ []

-- Stands for an entry past the table, which is never read.
abbrev pub no_level : Loglevel
no_level = level 0 [] 0

pub level_at : ℕ → Loglevel
level_at idx = get_or loglevels idx no_level

-- The loop from entry `i` on; `none` is the -1.
find_from : ℕ → ℕ → List Loglevel → Option ℕ
find_from level_char i [] = none
find_from level_char i (l ∷ levels) =
    let rest = find_from level_char (i + 1) levels in
    if l.level_char == level_char then some i else rest

pub find_loglevel : ℕ → Option ℕ
find_loglevel level_char = find_from level_char 0 loglevels

some_eq : {i j : ℕ} → ◌≡◌ {A = Option ℕ} (some i) (some j) → i ≡ j
some_eq e = ground arith

find_from_sound :
    (c i j : ℕ) (levels : List Loglevel)
    → find_from c i levels ≡ some j
    → (i ≤ j) × ((get_or levels (j - i) no_level).level_char ≡ c)
unfolding find_from
find_from_sound c i j [] e = cc
find_from_sound c i j (l ∷ levels) e = elim (Bool-cases (l.level_char == c)) [
  | inl hit ↦
      let here : i ≡ j = some_eq (rw hit at e) in
      let first : j - i ≡ 0 = omega arith in (omega arith, rw first ((==_iff _ _).0 hit))
  | inr miss ↦
      let later = find_from_sound c (i + 1) j levels (rw miss at e) in
      let second : j - i ≡ suc (j - (i + 1)) = omega (arith, later.0) in
      (omega (arith, later.0), rw second later.1)
]

-- An index that is found is of the entry with that character, and the characters `0` to `7` are
-- found, each at its place.
pub find_loglevel_lem :
    (c : ℕ)
    → (b'0' ≤ c → c ≤ b'7' → find_loglevel c ≡ some (c - b'0'))
      × ((i : ℕ) → find_loglevel c ≡ some i → (level_at i).level_char ≡ c)
unfolding find_loglevel find_from level_at
find_loglevel_lem c = (
  λ h k. ground arith,
  λ i e. let place : i - 0 ≡ i = omega arith in rw place at (find_from_sound c 0 i loglevels e).1,
)

-- In the table of levels exactly the characters `0` to `7` are found, each at its place.
pub find_loglevel-index :
    (c : ℕ) → find_loglevel c ≡ (if leb b'0' c && leb c b'7' then some (c - b'0') else none)
unfolding find_loglevel find_from
find_loglevel-index c = ground arith
