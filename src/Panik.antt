-- ===== src/Panik.antt =====
-- kernel/lib/panik.c: the panic handler with its two modes.
pub mod Calls
pub mod Mode
use kernel_v.Base.{
  ℕ, zero, suc, ◌+◌, List, [], ◌∷◌, ◌++◌, drop, set, length, Bool, true, false, Option, none, some,
  codes, if◌then◌else◌,
}
use kernel_v.Vga.{vga_color, vga_print_string, white_on_black}
use kernel_v.Vga.Color
use kernel_v.Printk.{Console, printk}
use kernel_v.Printk.Format.{Arg, text, my_vsnprintf}
use kernel_v.Printk.Ring.{ringbuf_write}

pub data PanikMode : Type 0 where
  normal test : PanikMode

-- `last_panik_msg` are the 256 bytes of the array.
pub record PanikState : Type 0 where
  pub panik_called : ℕ
  pub last_panik_msg : List ℕ
  pub panik_call_count : ℕ

-- What a diagnosis works on; `interrupts` is the interrupt flag.
pub record Diag : Type 0 where
  pub console : Console
  pub current_panik_mode : PanikMode
  pub panik_state : PanikState
  pub interrupts : Bool

-- A call returns, or the machine halts for good in `while (1) hlt`.
pub data Outcome (A : Type 0) : Type 0 where
  returns : A → Outcome A
  halts : A → Outcome A

unfoldable pub set_panik_mode : PanikMode → Diag → Diag
set_panik_mode mode d = record d { current_panik_mode = mode }

pub get_panik_mode : Diag → PanikMode
get_panik_mode d = d.current_panik_mode

pub get_panik_state : Diag → PanikState
get_panik_state d = d.panik_state

unfoldable pub reset_panik_state : Diag → Diag
reset_panik_state d = record d {
  panik_state = record {
    panik_called = 0;
    last_panik_msg = set d.panik_state.last_panik_msg 0 0;
    panik_call_count = 0;
  };
}

abbrev pub panik_msg_size : ℕ
panik_msg_size = 256

-- A text and its terminator stored over the first bytes of an array.
pub store_string : List ℕ → List ℕ → List ℕ
store_string str buf = str ++ (0 ∷ drop (length str + 1) buf)

abbrev halt_text : List ℕ
halt_text = codes "System halted. Press reset to restart.\n"

-- The `ringbuf_write` and `vga_print_string` calls of the normal mode.
pub report : List ℕ → Console → Console
report msg c =
    let r₁ = ringbuf_write (codes "[PANIK] ") 8 c.ring in
    let r₂ = ringbuf_write msg (length msg) r₁ in
    let r₃ = ringbuf_write (codes "\n") 1 r₂ in
    let v₁ = vga_print_string (codes "[PANIC] ") (vga_color Color.red Color.white) c.screen in
    let v₂ = vga_print_string msg (vga_color Color.black Color.light_red) v₁ in
    let v₃ = vga_print_string (codes "\n") white_on_black v₂ in
    let v₄ = vga_print_string halt_text (vga_color Color.black Color.yellow) v₃ in
    record c { ring = r₃; screen = v₄ }

-- What follows the formatting, by the mode. `pr_emerg` is `printk` at level 0.
after_format : PanikMode → List ℕ → Diag → Outcome Diag
after_format test msg d = returns (record d {
  console =
      (printk (1 ∷ b'0' ∷ codes "[TEST PANIK] %s\n") (text d.panik_state.last_panik_msg ∷ [])
        d.console).1;
})
after_format normal msg d = halts (record d { console = report msg d.console; interrupts = false })

counted : PanikState → PanikState
counted s = record s { panik_called = 1; panik_call_count = s.panik_call_count + 1 }

-- Where the formatting is undefined, nothing is said of the message.
formatted : Option (List ℕ) → Diag → Outcome Diag
formatted none d =
    after_format d.current_panik_mode []
      (record d { console = record d.console { undefined = true } })
formatted (some msg) d = after_format d.current_panik_mode msg (record d {
  panik_state = record d.panik_state {
    last_panik_msg = store_string msg d.panik_state.last_panik_msg;
  };
})

pub panik : List ℕ → List Arg → Diag → Outcome Diag
panik fmt args d =
    formatted (my_vsnprintf panik_msg_size fmt args)
      (record d { panik_state = counted d.panik_state })
