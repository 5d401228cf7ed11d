-- ===== src/Vga/Bounds.antt =====
-- Which bytes of memory kernel/drivers/vga/vga.c writes: the 4000 of the screen, and no other.
use kernel_v.Base.{ℕ, ◌≤◌, ◌≡◌, refl, ◌∙◌, arith, List, [], ◌∷◌, Bool-cases, ◌==◌, inl, inr}
use kernel_v.Vga.{
  Vga, outb, vga_move_cursor, vga_put_char, advance, scroll_if_below, vga_print_string,
}
use kernel_v.Vga.Cursor.{OnScreen, round-OnScreen, vga_move_cursor-OnScreen}
use kernel_v.Vga.Scroll.{vram-vga_scroll_up}

module _ (x : ℕ) (off : 4000 ≤ x) where
  advance_off : (c color : ℕ) {v : Vga} → OnScreen v → (advance c color v).vram x ≡ v.vram x
  unfolding advance vga_put_char
  advance_off c color on = ground arith

  scroll_off : (v : Vga) → (scroll_if_below v).vram x ≡ v.vram x
  unfolding scroll_if_below
  scroll_off v = ground (arith, vram-vga_scroll_up v x)

  round_off :
      (c color : ℕ) {v : Vga}
      → OnScreen v
      → (vga_move_cursor (scroll_if_below (advance c color v))).vram x ≡ v.vram x
  unfolding vga_move_cursor outb
  round_off c color {v} on = scroll_off (advance c color v) ∙ advance_off c color on

  -- With the cursor on the screen, printing leaves every byte beyond the screen alone.
  pub vga_print_string_off :
      (str : List ℕ) (color : ℕ) {v : Vga}
      → OnScreen v
      → (vga_print_string str color v).vram x ≡ v.vram x
  unfolding vga_print_string
  vga_print_string_off [] color on = refl
  vga_print_string_off (c ∷ str) color {v} on = elim (Bool-cases (c == 0)) [
    | inl e ↦ rw e refl
    | inr e ↦
        let next = vga_move_cursor-OnScreen (round-OnScreen c color on) in
        rw e (vga_print_string_off str color next ∙ round_off c color on)
  ]
