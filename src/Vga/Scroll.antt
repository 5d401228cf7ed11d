-- ===== src/Vga/Scroll.antt =====
-- What `vga_scroll_up` and `vga_clear_screen` leave in the screen's memory, byte by byte.
use kernel_v.Base.{
  ℕ, zero, suc, ◌+◌, ◌*◌, ◌%◌, ◌≤◌, ◌<◌, ◌≡◌, ◌&&◌, arith, for_range, ltb, leb, ◌==◌, if◌then◌else◌,
}
use kernel_v.Vga.{
  Vga, vga_scroll_up, vga_clear_screen, vga_move_cursor, copy_cell, copy_row, blank_last,
  blank_cell, outb,
}

-- A blank screen's byte at an offset: a space, then its colour.
abbrev pub blank : ℕ → ℕ
blank x = if x % 2 == 0 then 0x20 else 0x0f

copy_cell_lem :
    (r c : ℕ) (m : ℕ → ℕ) (x : ℕ)
    → c < 80
    → copy_cell (suc r) c m x
      ≡ (if leb (160 * r + 2 * c) x && ltb x (160 * r + 2 * c + 2) then m (x + 160) else m x)
unfolding copy_cell
copy_cell_lem r c m x h = ground arith

copy_cols_lem :
    (n c r : ℕ) (m : ℕ → ℕ) (x : ℕ)
    → c + n ≤ 80
    → for_range n c (copy_cell (suc r)) m x
      ≡ (if leb (160 * r + 2 * c) x && ltb x (160 * r + 2 * c + 2 * n) then m (x + 160) else m x)
unfolding for_range
copy_cols_lem zero c r m x h = ground arith
copy_cols_lem (suc n) c r m x h = ground (
  arith,
  copy_cols_lem n (c + 1) r (copy_cell (suc r) c m) x,
  copy_cell_lem r c m x,
  copy_cell_lem r c m (x + 160),
)

copy_row_lem :
    (r : ℕ) (m : ℕ → ℕ) (x : ℕ)
    → copy_row (suc r) m x ≡ (if leb (160 * r) x && ltb x (160 * r + 160) then m (x + 160) else m x)
unfolding copy_row
copy_row_lem r m x = ground (arith, copy_cols_lem 80 0 r m x)

copy_rows_lem :
    (n r : ℕ) (m : ℕ → ℕ) (x : ℕ)
    → for_range n (suc r) copy_row m x
      ≡ (if leb (160 * r) x && ltb x (160 * r + 160 * n) then m (x + 160) else m x)
unfolding for_range
copy_rows_lem zero r m x = ground arith
copy_rows_lem (suc n) r m x =
    let e : suc r + 1 ≡ suc (suc r) = omega arith in
    rw e (
      ground (
        arith,
        copy_rows_lem n (suc r) (copy_row (suc r) m) x,
        copy_row_lem r m x,
        copy_row_lem r m (x + 160),
      ))

blank_last_lem :
    (n c : ℕ) (m : ℕ → ℕ) (x : ℕ)
    → for_range n c blank_last m x
      ≡ (if leb (3840 + 2 * c) x && ltb x (3840 + 2 * c + 2 * n) then blank x else m x)
unfolding for_range blank_last
blank_last_lem zero c m x = ground arith
blank_last_lem (suc n) c m x = ground (arith, blank_last_lem n (c + 1) (blank_last c m) x)

blank_cells_lem :
    (n i : ℕ) (m : ℕ → ℕ) (x : ℕ)
    → for_range n i blank_cell m x
      ≡ (if leb (2 * i) x && ltb x (2 * i + 2 * n) then blank x else m x)
unfolding for_range blank_cell
blank_cells_lem zero i m x = ground arith
blank_cells_lem (suc n) i m x = ground (arith, blank_cells_lem n (i + 1) (blank_cell i m) x)

-- Scrolling moves every line of the screen one up, blanks the last one, and changes no other byte.
pub vram-vga_scroll_up :
    (v : Vga) (x : ℕ)
    → (vga_scroll_up v).vram x
      ≡ (if ltb x 3840 then v.vram (x + 160) else (if ltb x 4000 then blank x else v.vram x))
unfolding vga_scroll_up
vram-vga_scroll_up v x =
    ground
      (arith, blank_last_lem 80 0 (for_range 24 1 copy_row v.vram) x, copy_rows_lem 24 0 v.vram x)

-- Clearing blanks the 4000 bytes of the screen and changes no other byte.
pub vram-vga_clear_screen :
    (v : Vga) (x : ℕ) → (vga_clear_screen v).vram x ≡ (if ltb x 4000 then blank x else v.vram x)
unfolding vga_clear_screen vga_move_cursor outb
vram-vga_clear_screen v x = ground (arith, blank_cells_lem 2000 0 v.vram x)
