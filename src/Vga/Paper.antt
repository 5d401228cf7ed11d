-- ===== src/Vga/Paper.antt =====
-- What the text screen promises: it is the last 25 lines of an endless paper.
use kernel_v.Base.{
  ℕ, ◌+◌, ◌*◌, ◌≤◌, ◌<◌, ◌≡◌, refl, sym, subst, arith, Bool, true, false, List, [], ◌∷◌, Bool-cases,
  ◌==◌, inl, inr, update, u8, leb, leb→le, leb→lt, le→leb, lt→leb, if◌then◌else◌,
}
use kernel_v.Vga.{
  Vga, outb, vga_move_cursor, vga_put_char, advance, scroll_if_below, vga_print_string,
  vga_clear_screen,
}
use kernel_v.Vga.Scroll.{blank, vram-vga_scroll_up, vram-vga_clear_screen}

-- `ink` gives the paper's bytes, 160 to a line; `top` is the first line that the screen shows.
pub record Paper : Type 0 where
  pub ink : ℕ → ℕ
  pub line : ℕ
  pub col : ℕ
  pub top : ℕ

-- Writing on paper moves to the next line at the end of one, and never moves what is written.
next_line : Paper → Paper
next_line p = record p { line = p.line + 1; col = 0 }

ink_cell : ℕ → ℕ → Paper → ℕ → ℕ
ink_cell c color p =
    let at = 160 * p.line + 2 * p.col in update (update p.ink at (u8 c)) (at + 1) (u8 color)

write : ℕ → ℕ → Paper → Paper
write c color p =
    if c == b'\n'
    then next_line p
    else (let p' = record p { ink = ink_cell c color p } in
        if leb 80 (p.col + 1) then next_line p' else record p' { col = p.col + 1 })

-- The window of 25 lines follows the line that is written.
follow : Paper → Paper
follow p = if leb (p.top + 25) p.line then record p { top = p.top + 1 } else p

pub print : List ℕ → ℕ → Paper → Paper
print [] color p = p
print (c ∷ str) color p =
    let rest = print str color (follow (write c color p)) in if c == 0 then p else rest

-- The screen shows the paper from line `top` on, and what lies below the screen is blank.
module _ (height : ℕ) where
  pub record ShowsTo (v : Vga) (p : Paper) : Type 0 where
    pub row_in : v.cursor_row < height
    pub col_in : v.cursor_col < 80
    pub home_below : 25 ≤ v.cursor_row → v.cursor_col ≡ 0
    pub at_line : p.line ≡ p.top + v.cursor_row
    pub at_col : p.col ≡ v.cursor_col
    pub cells : (x : ℕ) → x < 4000 → v.vram x ≡ p.ink (160 * p.top + x)
    pub below : (x : ℕ) → 4000 ≤ x → p.ink (160 * p.top + x) ≡ blank x

abbrev pub Shows : Vga → Paper → Type 0
Shows = ShowsTo 25

newline-Shows :
    {v : Vga} {p : Paper}
    → Shows v p
    → ShowsTo 26 (record v { cursor_row = v.cursor_row + 1; cursor_col = 0 }) (next_line p)
unfolding next_line
newline-Shows s = record {
  row_in = omega (arith, s.row_in);
  col_in = omega arith;
  home_below = λ h. refl;
  at_line = omega (arith, s.at_line);
  at_col = refl;
  cells = s.cells;
  below = s.below;
}

put_char-Shows :
    (c color : ℕ) {v : Vga} {p : Paper}
    → Shows v p
    → Shows (vga_put_char c color v) (record p { ink = ink_cell c color p })
unfolding vga_put_char ink_cell
put_char-Shows c color s = record {
  row_in = s.row_in;
  col_in = s.col_in;
  home_below = s.home_below;
  at_line = s.at_line;
  at_col = s.at_col;
  cells = λ x h. ground (arith, s.cells x h, s.row_in, s.col_in, s.at_line, s.at_col);
  below = λ x h. ground (arith, s.below x h, s.row_in, s.col_in, s.at_line, s.at_col);
}

step_right-Shows :
    {v : Vga} {p : Paper}
    → p.col + 1 < 80
    → Shows v p
    → ShowsTo 26 (record v { cursor_col = v.cursor_col + 1 }) (record p { col = p.col + 1 })
step_right-Shows h s = record {
  row_in = omega (arith, s.row_in);
  col_in = omega (arith, s.at_col);
  home_below = λ q. absurd (omega (arith, s.row_in));
  at_line = s.at_line;
  at_col = omega (arith, s.at_col);
  cells = s.cells;
  below = s.below;
}

advance-Shows :
    (c color : ℕ) {v : Vga} {p : Paper}
    → Shows v p
    → ShowsTo 26 (advance c color v) (write c color p)
unfolding advance write vga_put_char
advance-Shows c color {v} {p} s = elim (Bool-cases (c == b'\n')) [
  | inl e ↦ rw e (newline-Shows s)
  | inr n ↦
      let t = put_char-Shows c color s in
      elim (Bool-cases (leb 80 (v.cursor_col + 1))) [
        | inl e ↦ rw (n, e, col_test true e) (newline-Shows t)
        | inr m ↦
            rw (n, m, col_test false m)
              (step_right-Shows {p = record p { ink = ink_cell c color p }}
                (omega (arith, leb→lt _ _ (col_test false m))) t)
      ]
]
  where
    col_test : (b : Bool) → leb 80 (v.cursor_col + 1) ≡ b → leb 80 (p.col + 1) ≡ b
    col_test b = subst (λ k. leb 80 (k + 1) ≡ b) (sym s.at_col)

scroll-Shows : {v : Vga} {p : Paper} → ShowsTo 26 v p → Shows (scroll_if_below v) (follow p)
unfolding scroll_if_below follow
scroll-Shows {v} {p} s = elim (Bool-cases (leb 25 v.cursor_row)) [
  | inl e ↦
      rw (e, top_test true e)
        (record {
          row_in = omega arith;
          col_in = omega arith;
          home_below = λ h. refl;
          at_line = omega (arith, s.row_in, leb→le _ _ e, s.at_line);
          at_col = omega (arith, s.home_below (leb→le _ _ e), s.at_col);
          cells =
              λ x h. ground (arith, vram-vga_scroll_up v x, s.cells (x + 160), s.below (x + 160));
          below = λ x h. ground (arith, s.below (x + 160));
        })
  | inr m ↦
      rw (m, top_test false m)
        (record {
          row_in = leb→lt _ _ m;
          col_in = s.col_in;
          home_below = s.home_below;
          at_line = s.at_line;
          at_col = s.at_col;
          cells = s.cells;
          below = s.below;
        })
]
  where
    top_test : (b : Bool) → leb 25 v.cursor_row ≡ b → leb (p.top + 25) p.line ≡ b
    top_test true h = le→leb (p.top + 25) p.line (omega (arith, leb→le _ _ h, s.at_line))
    top_test false h = lt→leb (p.top + 25) p.line (omega (arith, leb→lt _ _ h, s.at_line))

move-Shows : {v : Vga} {p : Paper} → Shows v p → Shows (vga_move_cursor v) p
unfolding vga_move_cursor outb
move-Shows s = record {
  row_in = s.row_in;
  col_in = s.col_in;
  home_below = s.home_below;
  at_line = s.at_line;
  at_col = s.at_col;
  cells = s.cells;
  below = s.below;
}

-- Printing a text from a screen that shows a paper leaves one that shows the printed paper.
pub vga_print_string-Shows :
    (str : List ℕ) (color : ℕ) {v : Vga} {p : Paper}
    → Shows v p
    → Shows (vga_print_string str color v) (print str color p)
unfolding vga_print_string print
vga_print_string-Shows [] color s = s
vga_print_string-Shows (c ∷ str) color {v} {p} s = elim (Bool-cases (c == 0)) [
  | inl e ↦ rw e s
  | inr e ↦
      rw e (vga_print_string-Shows str color (move-Shows (scroll-Shows (advance-Shows c color s))))
]

abbrev pub blank_paper : Paper
blank_paper = record { ink = blank; line = 0; col = 0; top = 0 }

clear_cursor :
    (v : Vga) → ((vga_clear_screen v).cursor_row ≡ 0) × ((vga_clear_screen v).cursor_col ≡ 0)
unfolding vga_clear_screen vga_move_cursor outb
clear_cursor v = (refl, refl)

pub vga_clear_screen-Shows : (v : Vga) → Shows (vga_clear_screen v) blank_paper
vga_clear_screen-Shows v =
    let at = clear_cursor v in
    record {
      row_in = omega arith;
      col_in = omega arith;
      home_below = λ h. at.1;
      at_line = omega arith;
      at_col = sym at.1;
      cells = λ x h. ground (arith, vram-vga_clear_screen v x);
      below = λ x h. ground arith;
    }

-- What is printed after clearing the screen reads as on a blank paper.
pub vga_print_string-vga_clear_screen :
    (str : List ℕ) (color : ℕ) (v : Vga)
    → Shows (vga_print_string str color (vga_clear_screen v)) (print str color blank_paper)
vga_print_string-vga_clear_screen str color v =
    vga_print_string-Shows str color (vga_clear_screen-Shows v)
