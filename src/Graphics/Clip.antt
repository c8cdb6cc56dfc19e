-- ===== src/Graphics/Clip.antt =====
-- Colours as numbers, and the clipping of src/gui/Graphics.cpp.
use swish_kernel.Prelude.{
  ℕ, zero, suc, ◌+◌, ◌-◌, ◌/◌, ◌%◌, ◌<◌, ◌≡◌, ◌≢◌, ◌||◌, refl, sym, ◌∙◌, arith, ◌^◌, [], ◌∷◌, Bool,
  true, false, inl, inr, leb, ltb, ◌==◌, if◌then◌else◌, write_ne, size_mod, ◌*◌, Bool-cases,
}
use mathlib.Core.Path.{subst}
use swish_kernel.Text.{Bytes}
use swish_kernel.Graphics.{
  Color, of_bytes, get_bytes, Surface, pixel_address, draw_pixel, fill_row, fill_rows, side_end,
  draw_rect_filled, draw_if, bit, add32, draw_column, draw_columns, draw_char, draw_string_loop,
  draw_string,
}

-- A colour whose channels are bytes comes back from its 32 bits.
pub of_bytes-get_bytes :
    (c : Color) → c.r < 256 → c.g < 256 → c.b < 256 → c.a < 256 → of_bytes (get_bytes c) ≡ c
unfolding of_bytes get_bytes
of_bytes-get_bytes c hr hg hb ha =
    let er : get_bytes c / 2 ^ 16 % 256 ≡ c.r = omega arith in
    let eg : get_bytes c / 2 ^ 8 % 256 ≡ c.g = omega arith in
    let eb : get_bytes c % 256 ≡ c.b = omega arith in
    let ea : get_bytes c / 2 ^ 24 % 256 ≡ c.a = omega arith in
    λ i. record { r = er i; g = eg i; b = eb i; a = ea i }

-- Every number of 32 bits comes back from its colour.
pub get_bytes-of_bytes : (n : ℕ) → n < 2 ^ 32 → get_bytes (of_bytes n) ≡ n
unfolding of_bytes get_bytes
get_bytes-of_bytes n h = omega arith

-- No pixel of the surface has the address `p`.
abbrev pub Outside : Surface → ℕ → Type 0
Outside dest p = (x y : ℕ) → x < dest.width → y < dest.height → p ≢ pixel_address dest x y

-- The surface keeps its place and shape, and no byte outside of its pixels changes.
abbrev pub Clipped : Surface → Surface → Type 0
Clipped dest after =
    (after.buffer ≡ dest.buffer)
    × (after.width ≡ dest.width)
    × (after.height ≡ dest.height)
    × (after.pitch ≡ dest.pitch)
    × ((p : ℕ) → Outside dest p → after.pixels p ≡ dest.pixels p)

pub Clipped-refl : (dest : Surface) → Clipped dest dest
Clipped-refl dest = (refl, refl, refl, refl, λ p out. refl)

Outside-Clipped :
    (dest after : Surface) (p : ℕ) → Clipped dest after → Outside dest p → Outside after p
Outside-Clipped dest after p (eb, ew, eh, ep, e) out x y hx hy = λ same.
    out x y (subst (λ n. x < n) ew hx) (subst (λ n. y < n) eh hy)
      (same ∙ λ i. (eb i + y * ep i + x * 4) % size_mod)

pub Clipped-trans : (a b c : Surface) → Clipped a b → Clipped b c → Clipped a c
Clipped-trans a b c ab bc = (
  bc.0 ∙ ab.0,
  bc.1 ∙ ab.1,
  bc.2 ∙ ab.2,
  bc.3 ∙ ab.3,
  λ p out. bc.4 p (Outside-Clipped a b p ab out) ∙ ab.4 p out,
)

draw_pixel-Clipped :
    (x y : ℕ) (color : Color) (dest : Surface) → Clipped dest (draw_pixel x y color dest)
unfolding draw_pixel
draw_pixel-Clipped x y color dest = elim (Bool-cases (leb dest.width x || leb dest.height y)) [
  | inl out ↦ rw out (Clipped-refl dest)
  | inr inside ↦ rw inside (
    refl,
    refl,
    refl,
    refl,
    λ p out.
        write_ne dest.pixels (pixel_address dest x y) p (get_bytes color)
          (λ e. out x y (ground arith) (ground arith) (sym e)),
  )
]

fill_row-Clipped :
    (n j i : ℕ) (color : Color) (dest : Surface) → Clipped dest (fill_row n j i color dest)
unfolding fill_row
fill_row-Clipped zero j i color dest = Clipped-refl dest
fill_row-Clipped (suc n) j i color dest =
    let next = draw_pixel (j % 2 ^ 32) (i % 2 ^ 32) color dest in
    Clipped-trans dest next (fill_row n (suc j) i color next)
      (draw_pixel-Clipped (j % 2 ^ 32) (i % 2 ^ 32) color dest)
      (fill_row-Clipped n (suc j) i color next)

fill_rows-Clipped :
    (m n j i : ℕ) (color : Color) (dest : Surface) → Clipped dest (fill_rows m n j i color dest)
unfolding fill_rows
fill_rows-Clipped zero n j i color dest = Clipped-refl dest
fill_rows-Clipped (suc m) n j i color dest =
    let next = fill_row n j i color dest in
    Clipped-trans dest next (fill_rows m n j (suc i) color next) (fill_row-Clipped n j i color dest)
      (fill_rows-Clipped m n j (suc i) color next)

-- `draw_rect_filled` changes nothing but pixels of the surface, wherever the rectangle lies.
pub draw_rect_filled-Clipped :
    (x y w h : ℕ) (color : Color) (dest : Surface)
    → Clipped dest (draw_rect_filled x y w h color dest)
unfolding draw_rect_filled
draw_rect_filled-Clipped x y w h color dest =
    fill_rows-Clipped (side_end y h dest.height - y) (side_end x w dest.width - x) x y color dest

draw_if-Clipped :
    (set : Bool) (x y : ℕ) (color : Color) (dest : Surface)
    → Clipped dest (draw_if set x y color dest)
draw_if-Clipped true x y color dest = draw_pixel-Clipped x y color dest
draw_if-Clipped false x y color dest = Clipped-refl dest

module _ (font : ℕ → ℕ → ℕ) where
  draw_column-Clipped :
      (n index cx cy x y : ℕ) (color : Color) (dest : Surface)
      → Clipped dest (draw_column font n index cx cy x y color dest)
  unfolding draw_column
  draw_column-Clipped zero index cx cy x y color dest = Clipped-refl dest
  draw_column-Clipped (suc n) index cx cy x y color dest =
      let upper = draw_if (bit (font index cx) cy) (add32 x cx) (add32 y cy) color dest in
      let lower =
        draw_if (bit (font index (cx + 8)) cy) (add32 x cx) (add32 y (cy + 8)) color upper in
      Clipped-trans dest upper (draw_column font n index cx (suc cy) x y color lower)
        (draw_if-Clipped (bit (font index cx) cy) (add32 x cx) (add32 y cy) color dest)
        (Clipped-trans upper lower (draw_column font n index cx (suc cy) x y color lower)
          (draw_if-Clipped (bit (font index (cx + 8)) cy) (add32 x cx) (add32 y (cy + 8)) color
            upper)
          (draw_column-Clipped n index cx (suc cy) x y color lower))

  draw_columns-Clipped :
      (n index cx x y : ℕ) (color : Color) (dest : Surface)
      → Clipped dest (draw_columns font n index cx x y color dest)
  unfolding draw_columns
  draw_columns-Clipped zero index cx x y color dest = Clipped-refl dest
  draw_columns-Clipped (suc n) index cx x y color dest =
      let next = draw_column font 8 index cx 0 x y color dest in
      Clipped-trans dest next (draw_columns font n index (suc cx) x y color next)
        (draw_column-Clipped 8 index cx 0 x y color dest)
        (draw_columns-Clipped n index (suc cx) x y color next)

  pub draw_char-Clipped :
      (x y c : ℕ) (color : Color) (dest : Surface) → Clipped dest (draw_char font x y c color dest)
  unfolding draw_char
  draw_char-Clipped x y c color dest =
      draw_columns-Clipped 8 ((if ltb c 32 || ltb 126 c then 32 else c) - 32) 0 x y color dest

  draw_string_loop-Clipped :
      (str : Bytes) (x cx cy : ℕ) (color : Color) (dest : Surface)
      → Clipped dest (draw_string_loop font str x cx cy color dest)
  unfolding draw_string_loop
  draw_string_loop-Clipped [] x cx cy color dest = Clipped-refl dest
  draw_string_loop-Clipped (c ∷ str) x cx cy color dest = elim (Bool-cases (c == 10)) [
    | inl line ↦ rw line (draw_string_loop-Clipped str x x (add32 cy 16) color dest)
    | inr other ↦
        let next = draw_char font cx cy c color dest in
        rw other (
          Clipped-trans dest next (draw_string_loop font str x (add32 cx 8) cy color next)
            (draw_char-Clipped cx cy c color dest)
            (draw_string_loop-Clipped str x (add32 cx 8) cy color next))
  ]

-- `draw_string` changes nothing but pixels of the surface, for any text at any place, also where
-- the coordinates wrap around.
pub draw_string-Clipped :
    (font : ℕ → ℕ → ℕ) (x y : ℕ) (str : Bytes) (color : Color) (dest : Surface)
    → Clipped dest (draw_string font x y str color dest)
unfolding draw_string
draw_string-Clipped font x y str color dest = draw_string_loop-Clipped font str x x y color dest
