-- ===== src/Samples.antt =====
-- States and texts that the tests start from.
pub mod Started
pub mod Bios
pub mod Power
use kernel_v.Base.{
  ℕ, refl, arith, List, [], ◌∷◌, true, false, replicate, length-replicate, ap, if◌then◌else◌, ◌==◌,
}
use kernel_v.Vga.{Vga}
use kernel_v.Vga.Cursor.{OnScreen}
use kernel_v.Vga.Cursor
use kernel_v.Vga.Paper.{Shows, blank_paper}
use kernel_v.Vga.Scroll.{blank}
use kernel_v.Printk.{Console}
use kernel_v.Printk.Ring
use kernel_v.Printk.Ring.Log
use kernel_v.Printk.Output
use kernel_v.Printk.Format.{word, c_string, is_digit}
use kernel_v.Printk.Format.Digits.{only}
use kernel_v.Printk.Format.Spec.{Renders, Directive, end, plain, field, unsigned}
use kernel_v.Panik.{Diag, PanikMode, normal}
use kernel_v.Kernel.{Kernel}

abbrev pub blank_screen : Vga
blank_screen = record {
  vram = blank;
  cursor_row = 0;
  cursor_col = 0;
  crtc_index = 0x0e;
  crtc = λ x. 0;
}

pub blank_screen-Shows : Shows blank_screen blank_paper
blank_screen-Shows = record {
  row_in = omega arith;
  col_in = omega arith;
  home_below = λ h. refl;
  at_line = refl;
  at_col = refl;
  cells = λ x h. ap blank (omega arith);
  below = λ x h. ap blank (omega arith);
}

pub blank_screen-OnScreen : OnScreen blank_screen
blank_screen-OnScreen = record { row_in = omega arith; col_in = omega arith }

pub blank_screen-IsValid : Cursor.IsValid blank_screen
blank_screen-IsValid = record { row_in = omega arith; col_in = omega arith; shown = refl }

-- A log whose next byte goes to its last place.
abbrev pub late_log : Ring.Ring
late_log = record { log_buffer = replicate 1024 0; rb_head = 1023; rb_tail = 1020 }

pub late_log-IsValid : Log.IsValid late_log
late_log-IsValid = record {
  size = length-replicate {A = ℕ} 1024 0;
  head_in = omega arith;
  tail_in = omega arith;
}

abbrev pub console : Console
console = record { ring = late_log; screen = blank_screen; undefined = false }

pub console-IsValid : Output.IsValid console
console-IsValid = record { ring_valid = late_log-IsValid; screen_valid = blank_screen-IsValid }

abbrev pub diag : PanikMode → Diag
diag mode = record {
  console = console;
  current_panik_mode = mode;
  panik_state = record { panik_called = 0; last_panik_msg = replicate 256 0; panik_call_count = 2 };
  interrupts = true;
}

-- `n=%03u`
abbrev pub n_format : List ℕ
n_format = b'n' ∷ b'=' ∷ b'%' ∷ b'0' ∷ b'3' ∷ b'u' ∷ []

abbrev pub n_text : List ℕ
n_text = b'n' ∷ b'=' ∷ b'0' ∷ b'0' ∷ b'7' ∷ []

pub n_format-Directive : Directive (b'0' ∷ b'3' ∷ b'u' ∷ []) b'0' 3 b'u' []
unfolding is_digit
n_format-Directive = record {
  flagged = true;
  ds = b'3' ∷ [];
  digits = (refl, tt);
  unflagged = λ h. cc;
  pad_is = refl;
  width_is = refl;
  width_fits = omega arith;
  no_digit = refl;
  fmt_is = refl;
}

pub n_format-Renders : Renders false (c_string n_format) (word 7 ∷ []) n_text
unfolding c_string
n_format-Renders = plain b'n' (omega arith) (
    plain b'=' (omega arith) (
      field b'%' b'0' 3 b'u' refl n_format-Directive
        (unsigned b'u' 7 refl (omega arith) (only 7 7 (omega arith) refl)) (end [])))

-- A machine of 16 frames, with the bitmap at 0x90000: frames 0 to 2 and 4 are used.
abbrev pub machine : Kernel
machine = record {
  diag = diag normal;
  ram = λ x. if x == 0x90000 then 0x17 else 0;
  usable_memory_region =
      record { base = 0x1000; length = 0x3800; type = 1 }
      ∷ record { base = 0x8000; length = 0x8000; type = 1 }
      ∷ [];
  frame_bitmap = 0x90000;
  total_frames = 16;
  used_frames = 4;
  max_frame_idx = 16;
  cr0 = 0;
  cr3 = 0;
}
