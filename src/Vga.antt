-- ===== src/Vga.antt =====
-- kernel/drivers/vga/vga.c: the text screen, its cursor and the cursor registers of the CRTC.
pub mod Bounds
pub mod Color
pub mod Scroll
pub mod Cursor
pub mod Paper
mod Tests
use kernel_v.Base.{
  ℕ, ◌+◌, ◌-◌, ◌*◌, ◌≡◌, List, [], ◌∷◌, Bool, Option, none, some, ◌&&◌, u8, ◌<<<◌, ◌>>>◌, bit_and,
  bit_or, update, for_range, ltb, leb, ◌==◌, if◌then◌else◌,
}
use Color
use kernel_v.Base.Int.{ℤ, pos, negsuc}

abbrev pub vga_width : ℕ
vga_width = 80

abbrev pub vga_height : ℕ
vga_height = 25

abbrev pub vga_ctrl_port : ℕ
vga_ctrl_port = 0x3d4

abbrev pub vga_data_port : ℕ
vga_data_port = 0x3d5

-- The macro VGA_COLOR.
abbrev pub vga_color : ℕ → ℕ → ℕ
vga_color bg fg = bit_or (bg <<< 4) (bit_and fg 0x0f)

abbrev pub white_on_black : ℕ
white_on_black = vga_color Color.black Color.white

abbrev pub red_on_white : ℕ
red_on_white = vga_color Color.white Color.red

abbrev pub blue_on_yellow : ℕ
blue_on_yellow = vga_color Color.yellow Color.blue

abbrev pub green_on_black : ℕ
green_on_black = vga_color Color.black Color.green

abbrev pub yellow_on_black : ℕ
yellow_on_black = vga_color Color.black Color.yellow

-- `vram` is the memory at VGA_ADDRESS, by the offset from there; `crtc` are the registers behind
-- the data port, `crtc_index` the one that the control port selects.
pub record Vga : Type 0 where
  pub vram : ℕ → ℕ
  pub cursor_row : ℕ
  pub cursor_col : ℕ
  pub crtc_index : ℕ
  pub crtc : ℕ → ℕ

-- A byte sent to the control port selects a register, one sent to the data port is stored there.
pub outb : ℕ → ℕ → Vga → Vga
outb port val v =
    if port == vga_ctrl_port
    then record v { crtc_index = val }
    else (if port == vga_data_port then record v { crtc = update v.crtc v.crtc_index val } else v)

pub vga_move_cursor : Vga → Vga
unfolding outb
vga_move_cursor v =
    let current_pos = v.cursor_row * vga_width + v.cursor_col in
    let v₁ = outb vga_ctrl_port 0x0f v in
    let v₂ = outb vga_data_port (u8 (bit_and current_pos 0xff)) v₁ in
    let v₃ = outb vga_ctrl_port 0x0e v₂ in
    outb vga_data_port (u8 (bit_and (current_pos >>> 8) 0xff)) v₃

-- One round of the loop that blanks cell `i`.
blank_cell : ℕ → (ℕ → ℕ) → ℕ → ℕ
blank_cell i m = update (update m (i * 2) 0x20) (i * 2 + 1) white_on_black

pub vga_clear_screen : Vga → Vga
vga_clear_screen v = vga_move_cursor (record v {
  vram = for_range (vga_width * vga_height) 0 blank_cell v.vram;
  cursor_row = 0;
  cursor_col = 0;
})

pub vga_init : Vga → Vga
vga_init v = vga_move_cursor (vga_clear_screen (record v { cursor_row = 0; cursor_col = 0 }))

-- A position off the screen is ignored.
pub vga_set_cursor_position : ℤ → ℤ → Vga → Vga
vga_set_cursor_position (pos row) (pos col) v =
    if ltb row vga_height && ltb col vga_width
    then vga_move_cursor (record v { cursor_row = row; cursor_col = col })
    else v
vga_set_cursor_position _ _ v = v

-- What is stored through each pointer, `none` where it is NULL.
pub vga_get_cursor_position : Bool → Bool → Vga → Option ℕ × Option ℕ
vga_get_cursor_position row col v =
    (if row then some v.cursor_row else none, if col then some v.cursor_col else none)

pub vga_put_char : ℕ → ℕ → Vga → Vga
vga_put_char c color v =
    let offset = 2 * (v.cursor_row * vga_width + v.cursor_col) in
    record v { vram = update (update v.vram offset (u8 c)) (offset + 1) (u8 color) }

-- One round of the inner copying loop: the cell at `row`, `col` to the row above.
copy_cell : ℕ → ℕ → (ℕ → ℕ) → ℕ → ℕ
copy_cell row col m =
    let src_offset = 2 * (row * vga_width + col) in
    let dst_offset = 2 * ((row - 1) * vga_width + col) in
    let m₁ = update m dst_offset (m src_offset) in update m₁ (dst_offset + 1) (m₁ (src_offset + 1))

copy_row : ℕ → (ℕ → ℕ) → ℕ → ℕ
copy_row row m = for_range vga_width 0 (copy_cell row) m

blank_last : ℕ → (ℕ → ℕ) → ℕ → ℕ
blank_last col m =
    let offset = 2 * ((vga_height - 1) * vga_width + col) in
    update (update m offset 0x20) (offset + 1) white_on_black

pub vga_scroll_up : Vga → Vga
vga_scroll_up v = record v {
  vram = for_range vga_width 0 blank_last (for_range (vga_height - 1) 1 copy_row v.vram);
}

-- The part of a round of `vga_print_string` that writes a character and moves on.
pub advance : ℕ → ℕ → Vga → Vga
advance c color v =
    if c == b'\n'
    then record v { cursor_row = v.cursor_row + 1; cursor_col = 0 }
    else (let w = vga_put_char c color v in
        if leb vga_width (w.cursor_col + 1)
        then record w { cursor_row = w.cursor_row + 1; cursor_col = 0 }
        else record w { cursor_col = w.cursor_col + 1 })

-- The part that scrolls when the cursor has left the screen.
pub scroll_if_below : Vga → Vga
scroll_if_below v =
    if leb vga_height v.cursor_row
    then record (vga_scroll_up v) { cursor_row = vga_height - 1; cursor_col = 0 }
    else v

-- The string ends at its first NUL or, where none is stored, at the list's end.
pub vga_print_string : List ℕ → ℕ → Vga → Vga
vga_print_string [] color v = v
vga_print_string (c ∷ str) color v =
    let rest = vga_print_string str color (vga_move_cursor (scroll_if_below (advance c color v))) in
    if c == 0 then v else rest
