-- ===== src/Window.antt =====
-- src/gui/Window.cpp and src/gui/TerminalWindow.cpp: the text grid of a window, its cursor and the
-- mouse. What is drawn is in Graphics.
pub mod Safety
pub mod Typing
mod Tests
use swish_kernel.Prelude.{
  ℕ, zero, suc, ◌+◌, ◌-◌, ◌*◌, ◌/◌, ◌%◌, ◌^◌, Bool, true, false, not, ◌&&◌, ◌||◌, List, [], ◌∷◌,
  ◌++◌, ltb, leb, ◌==◌, if◌then◌else◌, write, Res, done, ◌>>=◌, in_bounds, size_mod,
}
use swish_kernel.Text.{Bytes}

pub record Coordinate : Type 0 where
  pub x : ℕ
  pub y : ℕ

-- The grid has `cols * rows` cells, row by row. The product is a `size_t`.
pub record Window : Type 0 where
  pub should_close : Bool
  pub loc : Coordinate
  pub width : ℕ
  pub height : ℕ
  pub text_grid : ℕ → ℕ
  pub cols : ℕ
  pub rows : ℕ
  pub cursor : Coordinate
  pub is_dragging : Bool
  pub drag_offset : Coordinate

abbrev pub font_width : ℕ
font_width = 8

abbrev pub font_height : ℕ
font_height = 16

abbrev pub origin : Coordinate
origin = record { x = 0; y = 0 }

-- a - b in a `size_t`.
abbrev pub sub64 : ℕ → ℕ → ℕ
sub64 a b = if ltb a b then a + size_mod - b else a - b

-- `Coordinate::operator-`
pub minus : Coordinate → Coordinate → Coordinate
minus a b = record { x = sub64 a.x b.x; y = sub64 a.y b.y }

-- The constructor, its two allocations taken to succeed and the pixels left out.
unfoldable pub new_window : ℕ → ℕ → ℕ → ℕ → Window
new_window x y width height =
    let rows : ℕ = sub64 (height / font_height) 1 in
    record {
      should_close = leb rows 1;
      loc = record { x = x; y = y };
      width = width;
      height = height;
      text_grid = λ i. 0;
      cols = width / font_width;
      rows = rows;
      cursor = origin;
      is_dragging = false;
      drag_offset = origin;
    }

-- The cell `x`, `y` of the grid.
abbrev pub cell : ℕ → ℕ → Window → ℕ
cell x y w = y * w.cols + x

abbrev pub grid_size : Window → ℕ
grid_size w = (w.cols * w.rows) % size_mod

-- `text_grid[i] = c`
abbrev pub put : ℕ → ℕ → Window → Res Window
put i c w = in_bounds (ltb i (grid_size w)) (record w { text_grid = write w.text_grid i c })

abbrev pub move_to : ℕ → ℕ → Window → Window
move_to x y w = record w { cursor = record { x = x; y = y } }

-- The `memmove` by one row, then the `memset` of the last one.
abbrev pub scrolled : Window → ℕ → ℕ
scrolled w i =
    if ltb i ((w.rows - 1) * w.cols)
    then w.text_grid (i + w.cols)
    else if ltb i (w.rows * w.cols)
    then 0
    else w.text_grid i

-- `scroll_forward` on a grid with at least one row.
unfoldable pub scroll_forward : Window → Window
scroll_forward w =
    if leb w.rows w.cursor.y
    then move_to w.cursor.x (w.rows - 1) (record w { text_grid = scrolled w })
    else w

-- The loop that looks for the end of the row from the cell `i` on: how far the cursor moves.
unfoldable pub row_end : (ℕ → ℕ) → ℕ → ℕ → ℕ
row_end grid i zero = 0
row_end grid i (suc n) = let more = row_end grid (suc i) n in if grid i == 0 then 0 else suc more

pub backspace : Window → Res Window
backspace w =
    if ltb 0 w.cursor.x
    then put (cell (w.cursor.x - 1) w.cursor.y w) b' ' (move_to (w.cursor.x - 1) w.cursor.y w)
    else if ltb 0 w.cursor.y
    then in_bounds (leb (cell w.cols (w.cursor.y - 1) w) (grid_size w)) (
        move_to (w.cursor.x + row_end w.text_grid (cell 0 (w.cursor.y - 1) w) w.cols)
          (w.cursor.y - 1) w)
    else done w

-- What follows the write of an ordinary character: the cursor moves on.
unfoldable pub advance : Window → Res Window
advance w = do
  let next : ℕ = w.cursor.x + 1
  let moved : Window = move_to next w.cursor.y w
  ended ← if ltb next w.cols then put (cell next w.cursor.y w) 0 moved else done moved
  done (scroll_forward (if leb w.cols next then move_to 0 (w.cursor.y + 1) ended else ended))

-- The rest of `inject_key`: an ordinary character.
unfoldable pub type_char : ℕ → Window → Res Window
type_char c w = put (cell w.cursor.x w.cursor.y w) c w >>= advance

unfoldable pub inject_key : ℕ → Window → Res Window
unfolding backspace type_char
inject_key c w =
    if w.cols == 0 || w.rows == 0
    then done w
    else if c == 10
    then done (scroll_forward (move_to 0 (w.cursor.y + 1) w))
    else if c == 8
    then backspace w
    else type_char c w

-- `TerminalWindow::print`
unfoldable pub print : Bytes → Window → Res Window
print [] w = done w
print (c ∷ text) w = inject_key c w >>= print text

pub on_mouse_button : ℕ → ℕ → Bool → Window → Window
on_mouse_button local_x local_y is_down w =
    if is_down
    then if ltb local_x w.width
        && (leb (sub64 w.width font_height) local_x && ltb local_y font_height)
      then record w { should_close = true }
      else if ltb local_y font_height
      then record w { is_dragging = true; drag_offset = record { x = local_x; y = local_y } }
      else w
    else record w { is_dragging = false; drag_offset = origin }

unfoldable pub on_mouse_move : ℕ → ℕ → Window → Window
on_mouse_move global_x global_y w =
    if w.is_dragging
    then record w { loc = minus (record { x = global_x; y = global_y }) w.drag_offset }
    else w
