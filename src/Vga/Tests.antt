-- ===== src/Vga/Tests.antt =====
-- The screen of kernel/drivers/vga/vga.c on concrete inputs.
use kernel_v.Base.{ℕ, ◌≡◌, refl, List, codes}
use kernel_v.Vga.{
  vga_print_string, white_on_black, advance, scroll_if_below, vga_put_char, vga_move_cursor, outb,
}
use kernel_v.Vga.Paper.{Shows, print, blank_paper, vga_print_string-Shows}
use kernel_v.Samples.{blank_screen, blank_screen-Shows}

abbrev two_lines : List ℕ
two_lines = codes "ab\nc"

two_lines_cursor :
    let v = vga_print_string two_lines white_on_black blank_screen in
    (v.cursor_row ≡ 1) × (v.cursor_col ≡ 1) × (v.vram 160 ≡ b'c') × (v.crtc 0x0f ≡ 81)
unfolding vga_print_string advance scroll_if_below vga_put_char vga_move_cursor outb
two_lines_cursor = (refl, refl, refl, refl)

vga_print_string-Shows_example :
    Shows
      (vga_print_string two_lines white_on_black blank_screen)
      (print two_lines white_on_black blank_paper)
vga_print_string-Shows_example = vga_print_string-Shows two_lines white_on_black blank_screen-Shows
