-- ===== src/Vga/Cursor.antt =====
-- The cursor of kernel/drivers/vga/vga.c: it stays on the screen, and the CRTC shows it.
use kernel_v.Base.{
  ℕ, ◌+◌, ◌*◌, ◌/◌, ◌≤◌, ◌<◌, ◌≡◌, refl, arith, List, [], ◌∷◌, Bool-cases, ◌==◌, ltb, ltb→lt, inl,
  inr,
}
use kernel_v.Base.Bits.{bit_and_low}
use kernel_v.Base.Int.{ℤ, pos, negsuc}
use kernel_v.Vga.{
  Vga, outb, vga_move_cursor, vga_init, vga_clear_screen, vga_set_cursor_position, vga_put_char,
  advance, scroll_if_below, vga_print_string,
}

-- The position that the CRTC shows, from its high and its low register.
abbrev pub shown_position : Vga → ℕ
shown_position v = v.crtc 0x0e * 256 + v.crtc 0x0f

pub record OnScreen (v : Vga) : Type 0 where
  pub row_in : v.cursor_row < 25
  pub col_in : v.cursor_col < 80

pub record IsValid (v : Vga) : Type 0 where
  pub row_in : v.cursor_row < 25
  pub col_in : v.cursor_col < 80
  pub shown : shown_position v ≡ v.cursor_row * 80 + v.cursor_col

pub cursor_row-vga_move_cursor : (v : Vga) → (vga_move_cursor v).cursor_row ≡ v.cursor_row
unfolding vga_move_cursor outb
cursor_row-vga_move_cursor v = refl

pub cursor_col-vga_move_cursor : (v : Vga) → (vga_move_cursor v).cursor_col ≡ v.cursor_col
unfolding vga_move_cursor outb
cursor_col-vga_move_cursor v = refl

pub vram-vga_move_cursor : (v : Vga) → (vga_move_cursor v).vram ≡ v.vram
unfolding vga_move_cursor outb
vram-vga_move_cursor v = refl

pub vga_move_cursor-IsValid : {v : Vga} → OnScreen v → IsValid (vga_move_cursor v)
unfolding vga_move_cursor outb
vga_move_cursor-IsValid {v} on =
    let at = v.cursor_row * 80 + v.cursor_col in
    ground (arith, bit_and_low 8 at, bit_and_low 8 (at / 256))

pub vga_move_cursor-OnScreen : {v : Vga} → OnScreen v → OnScreen (vga_move_cursor v)
unfolding vga_move_cursor outb
vga_move_cursor-OnScreen on = record { row_in = on.row_in; col_in = on.col_in }

-- Initialisation reaches a valid cursor at the origin from any state.
pub vga_init-IsValid :
    (v : Vga) → IsValid (vga_init v) × ((vga_init v).cursor_row ≡ 0) × ((vga_init v).cursor_col ≡ 0)
unfolding vga_init vga_clear_screen vga_move_cursor outb
vga_init-IsValid v = (
  vga_move_cursor-IsValid {v = vga_clear_screen (record v { cursor_row = 0; cursor_col = 0 })}
      (omega arith),
  refl,
  refl,
)

-- Whatever position is asked for, the cursor stays on the screen and the registers show it.
pub vga_set_cursor_position-IsValid :
    (row col : ℤ) {v : Vga} → IsValid v → IsValid (vga_set_cursor_position row col v)
unfolding vga_set_cursor_position
vga_set_cursor_position-IsValid (pos r) (pos c) {v} valid = elim (Bool-cases (ltb r 25)) [
  | inl a ↦ elim (Bool-cases (ltb c 80)) [
    | inl b ↦
        rw (a, b)
          (vga_move_cursor-IsValid (record { row_in = ltb→lt r 25 a; col_in = ltb→lt c 80 b }))
    | inr b ↦ rw (a, b) valid
  ]
  | inr a ↦ rw a valid
]
vga_set_cursor_position-IsValid (pos r) (negsuc c) valid = valid
vga_set_cursor_position-IsValid (negsuc r) c valid = valid

-- A character moves the cursor at most to the line below the screen.
advance_bounds :
    (c color : ℕ) {v : Vga}
    → OnScreen v
    → ((advance c color v).cursor_row ≤ 25) × ((advance c color v).cursor_col < 80)
unfolding advance vga_put_char
advance_bounds c color on = ground arith

scroll_if_below-OnScreen :
    (v : Vga) → v.cursor_row ≤ 25 → v.cursor_col < 80 → OnScreen (scroll_if_below v)
unfolding scroll_if_below
scroll_if_below-OnScreen v h k = ground arith

pub round-OnScreen :
    (c color : ℕ) {v : Vga} → OnScreen v → OnScreen (scroll_if_below (advance c color v))
round-OnScreen c color {v} on =
    let b = advance_bounds c color on in scroll_if_below-OnScreen (advance c color v) b.0 b.1

-- Printing keeps the cursor on the screen, and the registers show it afterwards.
pub vga_print_string-IsValid :
    (str : List ℕ) (color : ℕ) {v : Vga} → IsValid v → IsValid (vga_print_string str color v)
unfolding vga_print_string
vga_print_string-IsValid [] color valid = valid
vga_print_string-IsValid (c ∷ str) color {v} valid = elim (Bool-cases (c == 0)) [
  | inl e ↦ rw e valid
  | inr e ↦ rw e (
      vga_print_string-IsValid str color (
        vga_move_cursor-IsValid
          (round-OnScreen c color (record { row_in = valid.row_in; col_in = valid.col_in }))))
]
