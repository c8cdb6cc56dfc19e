-- ===== src/Window/Typing.antt =====
-- A character typed in the middle of a row of a window of src/gui/Window.cpp.
use swish_kernel.Prelude.{ℕ, ◌+◌, ◌<◌, ◌≡◌, ◌≢◌, ap, false, arith, leb, ne→beq, lt→ltb, write, done}
use swish_kernel.Window.{Window, cell, grid_size, move_to, type_char, advance, inject_key}
use swish_kernel.Window.Safety.{OnGrid, Fits, cell_lt_grid, put_lem, scroll_forward_stays}

-- The window after a character in the middle of a row.
abbrev pub after_char : ℕ → Window → Window
after_char c w =
    let x = w.cursor.x in
    let y = w.cursor.y in
    record w {
      text_grid = write (write w.text_grid (cell x y w) c) (cell (x + 1) y w) 0;
      cursor = record { x = x + 1; y = y };
    }

type_char-after_char :
    (c : ℕ) (w : Window)
    → Fits w
    → OnGrid w
    → w.cursor.x + 1 < w.cols
    → type_char c w ≡ done (after_char c w)
unfolding type_char advance
type_char-after_char c w f g h =
    let x = w.cursor.x in
    let y = w.cursor.y in
    let here = cell_lt_grid x y w f (omega arith) g.2 in
    let typed_it : Window = record w { text_grid = write w.text_grid (cell x y w) c } in
    let next : cell (x + 1) y w < grid_size w = cell_lt_grid (x + 1) y w f h g.2 in
    let narrow : leb w.cols (x + 1) ≡ false = ground arith in
    rw
      (
        put_lem (cell x y w) c w here,
        lt→ltb h,
        put_lem (cell (x + 1) y w) 0 (move_to (x + 1) y typed_it) next,
        narrow,
      )
      (ap done (scroll_forward_stays (after_char c w) g.2))

-- Where the next cell is in the same row, a character other than backspace and enter is put into the cell
-- of the cursor and a NUL behind it, and the cursor moves there.
pub inject_key-after_char :
    (c : ℕ) (w : Window)
    → c ≢ 8
    → c ≢ 10
    → Fits w
    → OnGrid w
    → w.cursor.x + 1 < w.cols
    → inject_key c w ≡ done (after_char c w)
unfolding inject_key
inject_key-after_char c w c8 c10 f g h =
    let r0 : w.rows ≢ 0 = let low = g.2 in omega arith in
    rw (ne→beq c10, ne→beq c8, ne→beq g.0, ne→beq r0) (type_char-after_char c w f g h)
