-- ===== src/Printk.antt =====
-- kernel/lib/printk.c: `printk` over the log buffer, the formatter and the screen.
pub mod Format
pub mod Level
pub mod Output
pub mod Ring
mod Tests
use kernel_v.Base.{
  ℕ, ◌+◌, List, [], ◌∷◌, ◌++◌, drop, get_or, length, Bool, true, ◌&&◌, Option, none, some, leb,
  ◌==◌, if◌then◌else◌, Option-cases,
}
use kernel_v.Vga.{Vga, vga_init, vga_print_string, white_on_black}
use Format.{Arg, my_vsnprintf}
use Level.{Loglevel, find_loglevel, level_at}
use Ring

-- What `printk` works on. `undefined` is set once a call was made that C leaves undefined; nothing
-- is said of the bytes from there on.
pub record Console : Type 0 where
  pub ring : Ring.Ring
  pub screen : Vga
  pub undefined : Bool

pub printk_init : Console → Console
printk_init c = record c {
  ring = record c.ring { rb_head = 0; rb_tail = 0 };
  screen = vga_init c.screen;
}

-- A text that is written to the log and shown on the screen.
unfoldable pub put_out : List ℕ → ℕ → Console → Console
put_out str color c = record c {
  ring = Ring.ringbuf_write str (length str) c.ring;
  screen = vga_print_string str color c.screen;
}

-- With its length, returned behind `total_len`.
finish : ℕ → Option (List ℕ) → Console → ℕ × Console
finish total_len none c = (total_len, record c { undefined = true })
finish total_len (some tmp) c = (total_len + length tmp, put_out tmp white_on_black c)

pub vprintk : List ℕ → List Arg → Console → ℕ × Console
vprintk fmt args c = finish 0 (my_vsnprintf Ring.log_buf_size fmt args) c

-- The prefix `[LEVEL] ` in `level_prefix`.
pub level_prefix : Loglevel → List ℕ
level_prefix level = b'[' ∷ level.name ++ (b']' ∷ b' ' ∷ [])

-- The message of a level that was found.
at_level : Loglevel → List ℕ → List Arg → Console → ℕ × Console
at_level level actual_fmt args c =
    let prefix = level_prefix level in
    let (msg_len, c') = vprintk actual_fmt args (put_out prefix level.color c) in
    (length prefix + msg_len, c')

with_level : Option ℕ → List ℕ → List Arg → Console → ℕ × Console
with_level none actual_fmt args c = vprintk actual_fmt args c
with_level (some idx) actual_fmt args c = at_level (level_at idx) actual_fmt args c

abbrev pub has_level : List ℕ → Bool
has_level fmt = get_or fmt 0 0 == 1 && leb b'0' (get_or fmt 1 0) && leb (get_or fmt 1 0) b'7'

pub printk : List ℕ → List Arg → Console → ℕ × Console
printk fmt args c =
    if has_level fmt
    then with_level (find_loglevel (get_or fmt 1 0)) (drop 2 fmt) args c
    else with_level none fmt args c
