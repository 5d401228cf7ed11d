-- ===== src/Printk/Output.antt =====
-- What a call of `printk` adds to the log and to the screen.
use kernel_v.Base.{
  ℕ, ◌+◌, ◌-◌, ◌≤◌, ◌<◌, ◌≡◌, ◌⊎◌, refl, ap, ◌∙◌, arith, List, ◌∷◌, ◌++◌, take, length, Bool, false,
  Option, none, some, keep_last, keep_last-append, append_assoc, if_both, le→leb,
}
use kernel_v.Vga.{white_on_black}
use kernel_v.Vga.Cursor
use kernel_v.Vga.Paper.{Paper, Shows, print, vga_print_string-Shows}
use kernel_v.Printk.{
  Console, put_out, finish, vprintk, at_level, with_level, level_prefix, printk, has_level,
}
use kernel_v.Printk.Format.{Arg, c_string, my_vsnprintf}
use kernel_v.Printk.Format.Correct.{my_vsnprintf-Renders}
use kernel_v.Printk.Format.Spec.{Renders}
use kernel_v.Printk.Level.{Loglevel, level_at, find_loglevel_lem}
use kernel_v.Printk.Ring.Log.{contents, ringbuf_write_lem, ringbuf_write_all}
use kernel_v.Printk.Ring.Log

pub record IsValid (c : Console) : Type 0 where
  pub ring_valid : Log.IsValid c.ring
  pub screen_valid : Cursor.IsValid c.screen

pub put_out-IsValid :
    (str : List ℕ) (color : ℕ) {c : Console} → IsValid c → IsValid (put_out str color c)
unfolding put_out
put_out-IsValid str color v = record {
  ring_valid = (ringbuf_write_lem str (length str) v.ring_valid (omega arith)).0;
  screen_valid = Cursor.vga_print_string-IsValid str color v.screen_valid;
}

finish-IsValid : (n : ℕ) (r : Option (List ℕ)) {c : Console} → IsValid c → IsValid (finish n r c).1
unfolding finish
finish-IsValid n none v = record { ring_valid = v.ring_valid; screen_valid = v.screen_valid }
finish-IsValid n (some t) v = put_out-IsValid t white_on_black v

with_level-IsValid :
    (idx : Option ℕ) (fmt : List ℕ) (args : List Arg) {c : Console}
    → IsValid c
    → IsValid (with_level idx fmt args c).1
unfolding with_level at_level vprintk
with_level-IsValid none fmt args v = finish-IsValid 0 (my_vsnprintf 1024 fmt args) v
with_level-IsValid (some i) fmt args v =
    finish-IsValid 0 (my_vsnprintf 1024 fmt args) (put_out-IsValid _ _ v)

-- Whatever the format and the arguments, a call keeps the log's indices and size and the cursor's
-- position and registers well-formed.
pub printk-IsValid :
    (fmt : List ℕ) (args : List Arg) {c : Console} → IsValid c → IsValid (printk fmt args c).1
unfolding printk
printk-IsValid fmt args {c} v =
    if_both (λ (r : ℕ × Console). IsValid r.1) (has_level fmt) _ _ (with_level-IsValid _ _ args v)
      (with_level-IsValid none fmt args v)

-- `After c text q c'`: a call that leaves `c'` behind adds `text` to the log of `c`, and the screen
-- then shows the paper `q`.
pub record After (c : Console) (text : List ℕ) (q : Paper) (c' : Console) : Type 0 where
  pub valid : IsValid c'
  pub log : contents c'.ring ≡ keep_last 1023 (contents c.ring ++ text)
  pub shows : Shows c'.screen q
  pub defined : c'.undefined ≡ c.undefined

pub put_out-After :
    (str : List ℕ) (color : ℕ) {c : Console} {p : Paper}
    → IsValid c
    → Shows c.screen p
    → After c str (print str color p) (put_out str color c)
unfolding put_out
put_out-After str color v s = record {
  valid = unfold put_out in put_out-IsValid str color v;
  log = ringbuf_write_all str v.ring_valid;
  shows = vga_print_string-Shows str color s;
  defined = refl;
}

pub After-trans :
    {c c' c'' : Console} {t u : List ℕ} {q q' : Paper}
    → After c t q c'
    → After c' u q' c''
    → After c (t ++ u) q' c''
After-trans {c} {t} {u} a b = record {
  valid = b.valid;
  log =
      b.log
      ∙ ap (λ x. keep_last 1023 (x ++ u)) a.log
      ∙ keep_last-append 1023 (contents c.ring ++ t) u
      ∙ ap (keep_last 1023) (append_assoc (contents c.ring) t u);
  shows = b.shows;
  defined = b.defined ∙ a.defined;
}

-- The text of a message: what its format and arguments read, cut to the 1023 bytes of `tmp`.
module _ {pointers : Bool} (t : List ℕ) (args : List Arg) where
  vprintk-After :
      (fmt : List ℕ) {c : Console} {p : Paper}
      → Renders pointers (c_string fmt) args t
      → (pointers ≡ false) ⊎ (length t < 1024)
      → IsValid c
      → Shows c.screen p
      → ((vprintk fmt args c).0 ≡ length (take 1023 t))
        × After c (take 1023 t) (print (take 1023 t) white_on_black p) (vprintk fmt args c).1
  unfolding vprintk finish
  vprintk-After fmt r fits v s =
      rw (my_vsnprintf-Renders 1024 fmt t args r (omega arith) fits)
        (omega arith, put_out-After (take 1023 t) white_on_black v s)

  at_level-After :
      (level : Loglevel) (fmt : List ℕ) {c : Console} {p : Paper}
      → Renders pointers (c_string fmt) args t
      → (pointers ≡ false) ⊎ (length t < 1024)
      → IsValid c
      → Shows c.screen p
      → let prefix = level_prefix level in
        let out = at_level level fmt args c in
        (out.0 ≡ length prefix + length (take 1023 t))
        × After c
            (prefix ++ take 1023 t)
            (print (take 1023 t) white_on_black (print prefix level.color p))
            out.1
  unfolding at_level
  at_level-After level fmt {c} {p} r fits v s =
      let first = put_out-After (level_prefix level) level.color v s in
      let second = vprintk-After fmt r fits first.valid first.shows in
      (ap (λ n. length (level_prefix level) + n) second.0, After-trans first second.1)

  -- A call with the level character `d`, `0` to `7`, whose format and arguments read `t` (with all of
  -- `t` below 1024 bytes where a `%p` may stand in the format): the level is the one with that
  -- character; from a valid console that shows a paper, its prefix and the first 1023 bytes of `t` are
  -- added to the log and printed, the prefix in the level's colour; their length is returned.
  pub printk-level :
      (d : ℕ) (fmt : List ℕ) {c : Console} {p : Paper}
      → b'0' ≤ d
      → d ≤ b'7'
      → Renders pointers (c_string fmt) args t
      → (pointers ≡ false) ⊎ (length t < 1024)
      → IsValid c
      → Shows c.screen p
      → let level = level_at (d - b'0') in
        let prefix = level_prefix level in
        let out = printk (1 ∷ d ∷ fmt) args c in
        (level.level_char ≡ d)
        × (out.0 ≡ length prefix + length (take 1023 t))
        × After c
            (prefix ++ take 1023 t)
            (print (take 1023 t) white_on_black (print prefix level.color p))
            out.1
  unfolding printk with_level
  printk-level d fmt low high r fits v s =
      let found = find_loglevel_lem d in
      let hit = found.0 low high in
      let out = at_level-After (level_at (d - b'0')) fmt r fits v s in
      rw (le→leb b'0' d low, le→leb d b'7' high, hit) (found.1 (d - b'0') hit, out.0, out.1)

  -- A call whose format begins with no level and reads `t` (with all of `t` below 1024 bytes where a
  -- `%p` may stand in the format): from a valid console that shows a paper, the first 1023 bytes of
  -- `t` are added to the log and printed white on black, and their number is returned.
  pub printk_plain :
      (fmt : List ℕ) {c : Console} {p : Paper}
      → has_level fmt ≡ false
      → Renders pointers (c_string fmt) args t
      → (pointers ≡ false) ⊎ (length t < 1024)
      → IsValid c
      → Shows c.screen p
      → let r = printk fmt args c in
        (r.0 ≡ length (take 1023 t))
        × After c (take 1023 t) (print (take 1023 t) white_on_black p) r.1
  unfolding printk with_level
  printk_plain fmt h r fits v s = rw h (vprintk-After fmt r fits v s)
