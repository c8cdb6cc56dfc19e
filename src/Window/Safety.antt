-- ===== src/Window/Safety.antt =====
-- The cursor of src/gui/Window.cpp stays in the text grid.
use swish_kernel.Prelude.{
  ℕ, zero, suc, ◌+◌, ◌-◌, ◌*◌, ◌≤◌, ◌<◌, ◌≡◌, ◌≢◌, refl, sym, ap, ◌∙◌, inl, inr, true, false, arith,
  ltb, leb, ◌==◌, write, Res, done, [], ◌∷◌, Bool-cases, ne→beq, le→leb, size_mod,
}
use mathlib.Core.Path.{subst}
use native.Mathlib.Nat.{mod-eq_of_lt}
use swish_kernel.Text.{Bytes}
use swish_kernel.Window.{
  Window, cell, grid_size, put, move_to, new_window, scroll_forward, row_end, backspace, advance,
  type_char, inject_key, print,
}

-- The cursor stands on a cell, or behind the last one of a row that is not the last.
abbrev pub OnGrid : Window → Type 0
OnGrid w =
    (w.cols ≢ 0)
    × (w.cursor.x ≤ w.cols)
    × (w.cursor.y < w.rows)
    × (w.cursor.x ≡ w.cols → suc w.cursor.y < w.rows)

row_end-le : (grid : ℕ → ℕ) (i n : ℕ) → row_end grid i n ≤ n
unfolding row_end
row_end-le grid i zero = omega arith
row_end-le grid i (suc n) = let ih = row_end-le grid (suc i) n in ground arith

cell_lt_add : (x y c k : ℕ) → x < c → y * c + x < c * (suc y + k)
cell_lt_add x y c k hx = omega arith

-- A cell left of the end of a row lies in the grid.
cell_lt : (x y c r : ℕ) → x < c → y < r → y * c + x < c * r
cell_lt x y c r hx hy =
    let e : suc y + (r - suc y) ≡ r = omega arith in
    subst (λ n. y * c + x < c * n) e (cell_lt_add x y c (r - suc y) hx)

-- The end of a row lies in the grid where there is a next row.
cell_end_lt : (y c r : ℕ) → c ≢ 0 → suc y < r → y * c + c < c * r
cell_end_lt y c r c0 hy = let next = cell_lt 0 (suc y) c r (omega arith) hy in omega arith

row_le : (y c r : ℕ) → y < r → y * c + c ≤ c * r
row_le y c r hy =
    let e : suc y + (r - suc y) ≡ r = omega arith in subst (λ n. y * c + c ≤ c * n) e (omega arith)

-- The grid has a size.
abbrev pub Fits : Window → Type 0
Fits w = w.cols * w.rows < size_mod

-- A result that is there and keeps the grid and a cursor on it.
abbrev pub Kept : Window → Res Window → Type 0
Kept w r = (w' : Window) × (r ≡ done w') × OnGrid w' × (w'.cols ≡ w.cols) × (w'.rows ≡ w.rows)

pub cell_lt_grid :
    (x y : ℕ) (w : Window) → Fits w → x < w.cols → y < w.rows → cell x y w < grid_size w
cell_lt_grid x y w f hx hy =
    subst (λ n. cell x y w < n) (sym (mod-eq_of_lt f)) (cell_lt x y w.cols w.rows hx hy)

cell_end_lt_grid :
    (y : ℕ) (w : Window) → Fits w → w.cols ≢ 0 → suc y < w.rows → cell w.cols y w < grid_size w
cell_end_lt_grid y w f c0 hy =
    subst (λ n. cell w.cols y w < n) (sym (mod-eq_of_lt f)) (cell_end_lt y w.cols w.rows c0 hy)

pub row_le_grid : (y : ℕ) (w : Window) → Fits w → y < w.rows → cell w.cols y w ≤ grid_size w
row_le_grid y w f hy =
    subst (λ n. cell w.cols y w ≤ n) (sym (mod-eq_of_lt f)) (row_le y w.cols w.rows hy)

pub put_lem :
    (i c : ℕ) (w : Window)
    → i < grid_size w
    → put i c w ≡ done (record w { text_grid = write w.text_grid i c })
put_lem i c w h = ground arith

-- The cell under a good cursor lies in the grid.
cursor_lt_grid : (w : Window) → Fits w → OnGrid w → cell w.cursor.x w.cursor.y w < grid_size w
cursor_lt_grid w f g = elim (Bool-cases (w.cursor.x == w.cols)) [
  | inl at_end ↦
      let e : w.cursor.x ≡ w.cols = ground arith in
      subst (λ x. cell x w.cursor.y w < grid_size w) (sym e)
        (cell_end_lt_grid w.cursor.y w f g.0 (g.3 e))
  | inr inside ↦ cell_lt_grid w.cursor.x w.cursor.y w f (ground arith) g.2
]

scroll_forward-Kept :
    (w : Window)
    → w.cols ≢ 0
    → w.rows ≢ 0
    → w.cursor.x ≡ 0
    → w.cursor.y ≤ w.rows
    → OnGrid (scroll_forward w)
      × ((scroll_forward w).cols ≡ w.cols)
      × ((scroll_forward w).rows ≡ w.rows)
unfolding scroll_forward
scroll_forward-Kept w c0 r0 hx hy = elim (Bool-cases (leb w.rows w.cursor.y)) [
  | inl below ↦
      rw below ((c0, omega (arith, hx), omega arith, λ e. absurd (c0 (sym e ∙ hx))), refl, refl)
  | inr inside ↦
      rw inside ((c0, omega (arith, hx), ground arith, λ e. absurd (c0 (sym e ∙ hx))), refl, refl)
]

pub scroll_forward_stays : (w : Window) → w.cursor.y < w.rows → scroll_forward w ≡ w
unfolding scroll_forward
scroll_forward_stays w h = ground arith

newline-Kept :
    (w : Window) → Fits w → OnGrid w → Kept w (done (scroll_forward (move_to 0 (w.cursor.y + 1) w)))
newline-Kept w f g =
    let r0 : w.rows ≢ 0 = omega arith in
    let (g', hc, hr) =
      scroll_forward-Kept (move_to 0 (w.cursor.y + 1) w) g.0 r0 refl (omega arith) in
    (scroll_forward (move_to 0 (w.cursor.y + 1) w), refl, g', hc, hr)

backspace-Kept : (w : Window) → Fits w → OnGrid w → Kept w (backspace w)
unfolding backspace
backspace-Kept w f g = elim (Bool-cases (ltb 0 w.cursor.x)) [
  | inl right ↦
      let here : cell (w.cursor.x - 1) w.cursor.y w < grid_size w =
        cell_lt_grid (w.cursor.x - 1) w.cursor.y w f (ground arith) g.2 in
      let moved : Window = move_to (w.cursor.x - 1) w.cursor.y w in
      let on : OnGrid moved = (g.0, omega arith, g.2, λ e. absurd (ground arith)) in
      rw right (
        record moved { text_grid = write w.text_grid (cell (w.cursor.x - 1) w.cursor.y w) b' ' },
        put_lem (cell (w.cursor.x - 1) w.cursor.y w) b' ' moved here,
        on,
        refl,
        refl,
      )
  | inr first ↦ elim (Bool-cases (ltb 0 w.cursor.y)) [
    | inl below ↦
        let step = row_end w.text_grid (cell 0 (w.cursor.y - 1) w) w.cols in
        let some_step = row_end-le w.text_grid (cell 0 (w.cursor.y - 1) w) w.cols in
        let moved : Window = move_to (w.cursor.x + step) (w.cursor.y - 1) w in
        let on : OnGrid moved = (g.0, ground arith, ground arith, λ e. ground arith) in
        rw (first, below, le→leb (row_le_grid (w.cursor.y - 1) w f (ground arith)))
          (moved, refl, on, refl, refl)
    | inr top ↦ rw (first, top) (w, refl, g, refl, refl)
  ]
]

advance-Kept : (w : Window) → Fits w → OnGrid w → Kept w (advance w)
unfolding advance
advance-Kept w f g = elim (Bool-cases (ltb (w.cursor.x + 1) w.cols)) [
  | inl inside ↦
      let moved : Window = move_to (w.cursor.x + 1) w.cursor.y w in
      let ended : Window = record moved {
        text_grid = write w.text_grid (cell (w.cursor.x + 1) w.cursor.y w) 0;
      } in
      let here : cell (w.cursor.x + 1) w.cursor.y w < grid_size w =
        cell_lt_grid (w.cursor.x + 1) w.cursor.y w f (ground arith) g.2 in
      let wide : leb w.cols (w.cursor.x + 1) ≡ false = ground arith in
      let on : OnGrid ended = (g.0, ground arith, g.2, λ e. absurd (ground arith)) in
      rw (inside, wide, put_lem (cell (w.cursor.x + 1) w.cursor.y w) 0 moved here)
        (ended, ap done (scroll_forward_stays ended g.2), on, refl, refl)
  | inr last ↦
      let wide : leb w.cols (w.cursor.x + 1) ≡ true = ground arith in
      rw (last, wide) (newline-Kept w f g)
]

type_char-Kept : (c : ℕ) (w : Window) → Fits w → OnGrid w → Kept w (type_char c w)
unfolding type_char
type_char-Kept c w f g =
    let typed : Window = record w {
      text_grid = write w.text_grid (cell w.cursor.x w.cursor.y w) c;
    } in
    rw (put_lem (cell w.cursor.x w.cursor.y w) c w (cursor_lt_grid w f g)) (advance-Kept typed f g)

-- On a window whose grid a `size_t` counts and whose cursor is on it, `inject_key` returns without
-- an access outside the grid, whatever the key is, and the cursor is on the grid again.
pub inject_key-OnGrid : (c : ℕ) (w : Window) → Fits w → OnGrid w → Kept w (inject_key c w)
unfolding inject_key
inject_key-OnGrid c w f g =
    let r0 : w.rows ≢ 0 = let low = g.2 in omega arith in
    rw (ne→beq g.0, ne→beq r0)
      (elim (Bool-cases (c == 10)) [
        | inl enter ↦ rw enter (newline-Kept w f g)
        | inr other ↦ elim (Bool-cases (c == 8)) [
          | inl erase ↦ rw (other, erase) (backspace-Kept w f g)
          | inr typed ↦ rw (other, typed) (type_char-Kept c w f g)
        ]
      ])

-- `print` of any text on a window whose grid a `size_t` counts and whose cursor is on it returns,
-- with the cursor on the grid and the shape of the grid unchanged.
pub print-OnGrid : (text : Bytes) (w : Window) → Fits w → OnGrid w → Kept w (print text w)
unfolding print
print-OnGrid [] w f g = (w, refl, g, refl, refl)
print-OnGrid (c ∷ text) w f g =
    let (w', e, g', hc, hr) = inject_key-OnGrid c w f g in
    let f' : Fits w' = subst (λ n. n < size_mod) (λ i. sym hc i * sym hr i) f in
    let (w'', e', g'', hc', hr') = print-OnGrid text w' f' g' in
    rw e (w'', e', g'', hc' ∙ hc, hr' ∙ hr)

-- A new window of at least 8 by 32 pixels, that a `size_t` can count, has its cursor on the grid.
pub new_window-OnGrid :
    (x y width height : ℕ)
    → 8 ≤ width
    → 32 ≤ height
    → width * height < size_mod
    → OnGrid (new_window x y width height)
unfolding new_window
new_window-OnGrid x y width height hw hh small =
    (omega arith, omega arith, ground arith, λ e. ground arith)
