-- ===== src/Render/Cursor.antt =====
-- The mouse cursor that `Compositor::render` of src/gui/Compositor.cpp draws.
use swish_kernel.Prelude.{
  ℕ, zero, suc, ◌+◌, ◌-◌, ◌/◌, ◌%◌, ◌^◌, ◌<◌, ◌≤◌, ◌≡◌, refl, arith, Bool, true, false, ◌&&◌, List,
  [], ◌∷◌, inl, inr, ltb, leb, ◌==◌, if◌then◌else◌, Bool-cases, length, get_or,
}
use swish_kernel.Graphics.{get_bytes, black, Surface, draw_pixel}
use swish_kernel.Graphics.Paint.{
  IsSurface, Painted, Painted-trans, repaint, Painted-refl, Painted-IsSurface, inside,
  draw_pixel-Painted,
}
use swish_kernel.Render.{to_uint32, draw_cursor_row, draw_cursor}

abbrev pub bit_of : ℕ → ℕ → Bool
bit_of row i = row / 2 ^ i % 2 == 1

-- The highest bit of a row of the bitmap stands at the left.
abbrev in_row : ℕ → ℕ → ℕ → ℕ → ℕ → Bool
in_row n i x y a = leb (x + 23 - (i + n)) a && ltb a (x + 23 - i)

cursor_more :
    (n i x y : ℕ) (bit : ℕ → Bool) (color a b v : ℕ)
    → i + suc n ≤ 22
    → (if (in_row n (suc i) x y a && y == b) && bit (x + 22 - a)
        then color
        else if bit i && (x + (22 - i) == a && y == b)
        then color
        else v)
      ≡ (if (in_row (suc n) i x y a && y == b) && bit (x + 22 - a) then color else v)
cursor_more n i x y bit color a b v h = elim (Bool-cases (x + (22 - i) == a)) [
  | inl here ↦ let e : x + 22 - a ≡ i = ground arith in rw e (ground arith)
  | inr other ↦ ground arith
]

draw_bit-Painted :
    (set : Bool) (x y : ℕ) (s : Surface)
    → IsSurface s
    → x < 2 ^ 32
    → y < 2 ^ 32
    → Painted s
        (if set then draw_pixel (to_uint32 x) (to_uint32 y) black s else s)
        (λ a b v. if set && (x == a && y == b) then get_bytes black else v)
draw_bit-Painted true x y s ok hx hy =
    let ex : x % 2 ^ 32 ≡ x = omega arith in
    let ey : y % 2 ^ 32 ≡ y = omega arith in rw (ex, ey) (draw_pixel-Painted x y black s ok)
draw_bit-Painted false x y s ok hx hy = Painted-refl s

draw_cursor_row-Painted :
    (n i row x y : ℕ) (s : Surface)
    → IsSurface s
    → i + n ≤ 22
    → x + 22 < 2 ^ 32
    → y < 2 ^ 32
    → Painted s (draw_cursor_row n i row x y s) (λ a b v.
      if (in_row n i x y a && y == b) && bit_of row (x + 22 - a) then get_bytes black else v)
unfolding draw_cursor_row
draw_cursor_row-Painted zero i row x y s ok h hx hy =
    repaint (Painted-refl s) (λ a b v ha hb. ground arith)
draw_cursor_row-Painted (suc n) i row x y s ok h hx hy =
    let first = draw_bit-Painted (bit_of row i) (x + (22 - i)) y s ok (omega arith) hy in
    let rest =
      draw_cursor_row-Painted n (suc i) row x y
        (if bit_of row i then draw_pixel (to_uint32 (x + (22 - i))) (to_uint32 y) black s else s)
        (Painted-IsSurface first ok) (omega arith) hx hy in
    repaint (Painted-trans first rest)
      (λ a b v ha hb. cursor_more n i x y (bit_of row) (get_bytes black) a b v h)

-- The pixel belongs to the cursor at `x`, `y`, of which `rows` is the bitmap.
abbrev pub on_cursor : List ℕ → ℕ → ℕ → ℕ → ℕ → Bool
on_cursor rows x y a b =
    inside (x + 1) y 22 (length rows) a b && bit_of (get_or rows (b - y) 0) (x + 22 - a)

cursor_below :
    (r m : ℕ) (below all : ℕ → ℕ) (x y color a b v : ℕ)
    → all 0 ≡ r
    → ((k : ℕ) → all (suc k) ≡ below k)
    → (if inside (x + 1) (y + 1) 22 m a b && bit_of (below (b - (y + 1))) (x + 22 - a)
        then color
        else if (in_row 22 0 x y a && y == b) && bit_of r (x + 22 - a)
        then color
        else v)
      ≡ (if inside (x + 1) y 22 (suc m) a b && bit_of (all (b - y)) (x + 22 - a) then color else v)
cursor_below r m below all x y color a b v top next = elim (Bool-cases (y == b)) [
  | inl here ↦ let e : b - y ≡ 0 = ground arith in rw (e, top) (ground arith)
  | inr other ↦ elim (Bool-cases (ltb y b)) [
    | inl later ↦
        let e : b - y ≡ suc (b - (y + 1)) = ground arith in
        rw (e, next (b - (y + 1))) (ground arith)
    | inr earlier ↦ ground arith
  ]
]

pub draw_cursor-Painted :
    (rows : List ℕ) (x y : ℕ) (s : Surface)
    → IsSurface s
    → x + 22 < 2 ^ 32
    → y + length rows < 2 ^ 32
    → Painted s
        (draw_cursor rows x y s)
        (λ a b v. if on_cursor rows x y a b then get_bytes black else v)
unfolding draw_cursor
draw_cursor-Painted [] x y s ok hx hy = repaint (Painted-refl s) (λ a b v ha hb. ground arith)
draw_cursor-Painted (r ∷ rows) x y s ok hx hy =
    let first = draw_cursor_row-Painted 22 0 r x y s ok (omega arith) hx (omega arith) in
    let rest =
      draw_cursor-Painted rows x (y + 1) (draw_cursor_row 22 0 r x y s) (Painted-IsSurface first ok)
        hx (omega arith) in
    repaint (Painted-trans first rest) (λ a b v ha hb.
      cursor_below r (length rows) (λ k. get_or rows k 0) (λ k. get_or (r ∷ rows) k 0) x y
        (get_bytes black) a b v refl (λ k. refl))
