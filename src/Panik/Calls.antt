-- ===== src/Panik/Calls.antt =====
-- What a call of `panik` leaves behind in each mode.
use kernel_v.Base.{
  ℕ, ◌+◌, ◌<◌, ◌≡◌, ◌⊎◌, refl, ap, ◌∙◌, arith, List, [], ◌∷◌, ◌++◌, take, drop, length, ◌==◌,
  if◌then◌else◌, Bool, false, Option, none, some, codes, length-append, length-drop, length-take,
}
use kernel_v.Vga.{Vga, vga_print_string, vga_color, white_on_black}
use kernel_v.Vga.Color
use kernel_v.Vga.Cursor
use kernel_v.Vga.Cursor.{vga_print_string-IsValid}
use kernel_v.Vga.Paper.{Paper, Shows, print, vga_print_string-Shows}
use kernel_v.Printk.{Console}
use kernel_v.Printk.Format.{Arg, c_string, my_vsnprintf}
use kernel_v.Printk.Format.Correct.{my_vsnprintf-Renders}
use kernel_v.Printk.Format.Spec.{Renders}
use kernel_v.Printk.Output.{IsValid, After, After-trans, put_out-After}
use kernel_v.Printk.{put_out}
use kernel_v.Panik.{
  PanikMode, normal, test, PanikState, Diag, Outcome, returns, halts, panik, formatted,
  after_format, report, store_string, counted, halt_text,
}

-- The state that an outcome leaves.
abbrev pub final : Outcome Diag → Diag
final (returns d) = d
final (halts d) = d

-- In normal mode a call halts with interrupts off; in test mode it returns and leaves the
-- interrupt flag alone.
abbrev pub Ends : PanikMode → Diag → Outcome Diag → Type 0
Ends normal d (halts e) = e.interrupts ≡ false
Ends normal d (returns e) = ⊥
Ends test d (returns e) = e.interrupts ≡ d.interrupts
Ends test d (halts e) = ⊥

after_format-Ends :
    (mode : PanikMode) (msg : List ℕ) (d₀ d : Diag)
    → d.interrupts ≡ d₀.interrupts
    → Ends mode d₀ (after_format mode msg d)
      × ((final (after_format mode msg d)).panik_state ≡ d.panik_state)
unfolding after_format
after_format-Ends normal msg d₀ d same = (refl, refl)
after_format-Ends test msg d₀ d same = (same, refl)

-- Whatever its arguments, `panik` halts with interrupts off in normal mode and returns with the
-- interrupt flag untouched in test mode; it is marked as called, and counted.
pub panik-Ends :
    (fmt : List ℕ) (args : List Arg) (d : Diag)
    → Ends d.current_panik_mode d (panik fmt args d)
      × ((final (panik fmt args d)).panik_state.panik_called ≡ 1)
      × ((final (panik fmt args d)).panik_state.panik_call_count
          ≡ d.panik_state.panik_call_count + 1)
unfolding panik formatted counted
panik-Ends fmt args d = go (my_vsnprintf 256 fmt args)
  where
    counts :
        (msg : List ℕ) (e : Diag)
        → e.interrupts ≡ d.interrupts
        → e.panik_state.panik_called ≡ 1
        → e.panik_state.panik_call_count ≡ d.panik_state.panik_call_count + 1
        → let o = after_format d.current_panik_mode msg e in
          Ends d.current_panik_mode d o
          × ((final o).panik_state.panik_called ≡ 1)
          × ((final o).panik_state.panik_call_count ≡ d.panik_state.panik_call_count + 1)
    counts msg e same called count =
        let a = after_format-Ends d.current_panik_mode msg d e same in
        (
          a.0,
          ap (λ (s : PanikState). s.panik_called) a.1 ∙ called,
          ap (λ (s : PanikState). s.panik_call_count) a.1 ∙ count,
        )

    go :
        (r : Option (List ℕ))
        → let o = formatted r (record d { panik_state = counted d.panik_state }) in
          Ends d.current_panik_mode d o
          × ((final o).panik_state.panik_called ≡ 1)
          × ((final o).panik_state.panik_call_count ≡ d.panik_state.panik_call_count + 1)
    go none = counts [] _ refl refl refl
    go (some msg) = counts msg _ refl refl refl

c_string-append_zero : (msg rest : List ℕ) → c_string (msg ++ (0 ∷ rest)) ≡ c_string msg
unfolding c_string
c_string-append_zero [] rest = refl
c_string-append_zero (c ∷ msg) rest =
    ap (λ t. if c == 0 then [] else c ∷ t) (c_string-append_zero msg rest)

c_string-store_string : (msg buf : List ℕ) → c_string (store_string msg buf) ≡ c_string msg
unfolding store_string
c_string-store_string msg buf = c_string-append_zero msg (drop (length msg + 1) buf)

length-store_string :
    (msg buf : List ℕ) → length msg < length buf → length (store_string msg buf) ≡ length buf
unfolding store_string
length-store_string msg buf h =
    omega
      (arith, length-append msg (0 ∷ drop (length msg + 1) buf), length-drop (length msg + 1) buf)

-- A call whose format and arguments read `t` (with all of `t` below 256 bytes where a `%p` may stand
-- in the format) stores the first 255 bytes of `t` as a string in the array, whose 256 bytes stay.
pub last_panik_msg-panik :
    {pointers : Bool} (fmt t : List ℕ) (args : List Arg) (d : Diag)
    → Renders pointers (c_string fmt) args t
    → (pointers ≡ false) ⊎ (length t < 256)
    → length d.panik_state.last_panik_msg ≡ 256
    → let stored = (final (panik fmt args d)).panik_state.last_panik_msg in
      (c_string stored ≡ c_string (take 255 t)) × (length stored ≡ 256)
unfolding panik formatted counted
last_panik_msg-panik fmt t args d r fits size =
    let msg = take 255 t in
    let e : Diag = record d {
      panik_state = record (counted d.panik_state) {
        last_panik_msg = store_string msg d.panik_state.last_panik_msg;
      };
    } in
    let a = after_format-Ends d.current_panik_mode msg d e refl in
    let kept = ap (λ (s : PanikState). s.last_panik_msg) a.1 in
    rw (my_vsnprintf-Renders 256 fmt t args r (omega arith) fits) (
      ap c_string kept ∙ c_string-store_string msg d.panik_state.last_panik_msg,
      ap length kept
          ∙ length-store_string msg d.panik_state.last_panik_msg (omega (arith, length-take 255 t))
          ∙ size,
    )

report-After :
    (msg : List ℕ) {c : Console} {p : Paper}
    → IsValid c
    → Shows c.screen p
    → After c
        ((codes "[PANIK] " ++ msg) ++ codes "\n")
        (print halt_text (vga_color Color.black Color.yellow) (
          print (codes "\n") white_on_black (
            print msg
              (vga_color Color.black Color.light_red)
              (print (codes "[PANIC] ") (vga_color Color.red Color.white) p))))
        (report msg c)
unfolding report put_out
report-After msg {c} v s =
    let first = put_out-After (codes "[PANIK] ") white_on_black v s in
    let second = After-trans first (put_out-After msg white_on_black first.valid first.shows) in
    let third =
      After-trans second (put_out-After (codes "\n") white_on_black second.valid second.shows) in
    record {
      valid = record {
        ring_valid = third.valid.ring_valid;
        screen_valid = keep _ _ (keep _ _ (keep _ _ (keep _ _ v.screen_valid)));
      };
      log = third.log;
      shows = show _ _ (show _ _ (show _ _ (show _ _ s)));
      defined = refl;
    }
  where
    keep :
        (str : List ℕ) (color : ℕ) {w : Vga}
        → Cursor.IsValid w
        → Cursor.IsValid (vga_print_string str color w)
    keep = vga_print_string-IsValid

    show :
        (str : List ℕ) (color : ℕ) {w : Vga} {q : Paper}
        → Shows w q
        → Shows (vga_print_string str color w) (print str color q)
    show = vga_print_string-Shows

-- In normal mode a call whose format and arguments read `t` (with all of `t` below 256 bytes where a
-- `%p` may stand in the format), from a valid console that shows a paper, logs `[PANIK] `, the first
-- 255 bytes of `t` and a line feed, and prints `[PANIC] `, these bytes, a line feed and the text that
-- the system is halted, each in its colour.
pub panik_reports :
    {pointers : Bool} (fmt t : List ℕ) (args : List Arg) (d : Diag) {p : Paper}
    → d.current_panik_mode ≡ normal
    → Renders pointers (c_string fmt) args t
    → (pointers ≡ false) ⊎ (length t < 256)
    → IsValid d.console
    → Shows d.console.screen p
    → let msg = take 255 t in
      After d.console
        ((codes "[PANIK] " ++ msg) ++ codes "\n")
        (print halt_text (vga_color Color.black Color.yellow) (
          print (codes "\n") white_on_black (
            print msg
              (vga_color Color.black Color.light_red)
              (print (codes "[PANIC] ") (vga_color Color.red Color.white) p))))
        (final (panik fmt args d)).console
unfolding panik formatted after_format
panik_reports fmt t args d mode r fits v s =
    rw (my_vsnprintf-Renders 256 fmt t args r (omega arith) fits, mode)
      (report-After (take 255 t) v s)
