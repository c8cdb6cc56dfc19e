-- ===== src/Font/Bounds.antt =====
-- `draw_char` of src/gui/Graphics.cpp reads the table of src/gui/Font.cpp in its bounds.
use swish_kernel.Prelude.{
  ℕ, zero, suc, ◌+◌, ◌-◌, ◌<◌, ◌≤◌, ◌≡◌, refl, ◌∙◌, arith, Bool, true, ◌||◌, ◌&&◌, ◌==◌, List, [],
  ◌∷◌, ltb, if◌then◌else◌, length,
}
use swish_kernel.Graphics.{
  Color, Surface, bit, add32, draw_if, draw_column, draw_columns, draw_char,
}
use swish_kernel.Font.{glyphs, font8x16}

unfoldable pub all_long : ℕ → List (List ℕ) → Bool
all_long n [] = true
all_long n (row ∷ rows) = length row == n && all_long n rows

-- Two tables that agree on 95 rows of 16 bytes.
abbrev pub Agree : (ℕ → ℕ → ℕ) → (ℕ → ℕ → ℕ) → Type 0
Agree f g = (index cx : ℕ) → index < 95 → cx < 16 → f index cx ≡ g index cx

module _ (f g : ℕ → ℕ → ℕ) (same : Agree f g) where
  draw_column-Agree :
      (n index cx cy x y : ℕ) (color : Color) (s : Surface)
      → index < 95
      → cx < 8
      → draw_column f n index cx cy x y color s ≡ draw_column g n index cx cy x y color s
  unfolding draw_column
  draw_column-Agree zero index cx cy x y color s hi hc = refl
  draw_column-Agree (suc n) index cx cy x y color s hi hc =
      let upper = same index cx hi (omega arith) in
      let lower = same index (cx + 8) hi (omega arith) in
      (λ i. draw_column f n index cx (suc cy) x y color (
        draw_if (bit (lower i) cy) (add32 x cx) (add32 y (cy + 8)) color
          (draw_if (bit (upper i) cy) (add32 x cx) (add32 y cy) color s)))
      ∙ draw_column-Agree n index cx (suc cy) x y color
          (draw_if (bit (g index (cx + 8)) cy) (add32 x cx) (add32 y (cy + 8)) color
            (draw_if (bit (g index cx) cy) (add32 x cx) (add32 y cy) color s))
          hi hc

  draw_columns-Agree :
      (n index cx x y : ℕ) (color : Color) (s : Surface)
      → index < 95
      → cx + n ≤ 8
      → draw_columns f n index cx x y color s ≡ draw_columns g n index cx x y color s
  unfolding draw_columns
  draw_columns-Agree zero index cx x y color s hi hc = refl
  draw_columns-Agree (suc n) index cx x y color s hi hc =
      (λ i.
        draw_columns f n index (suc cx) x y color
          (draw_column-Agree 8 index cx 0 x y color s hi (omega arith) i))
      ∙ draw_columns-Agree n index (suc cx) x y color (draw_column g 8 index cx 0 x y color s) hi
          (omega arith)

  draw_char-Agree :
      (x y c : ℕ) (color : Color) (s : Surface)
      → draw_char f x y c color s ≡ draw_char g x y c color s
  unfolding draw_char
  draw_char-Agree x y c color s =
      draw_columns-Agree 8 ((if ltb c 32 || ltb 126 c then 32 else c) - 32) 0 x y color s
        (ground arith) (omega arith)

glyphs-all_long : (length glyphs ≡ 95) × (all_long 16 glyphs ≡ true)
unfolding glyphs all_long
glyphs-all_long = (refl, refl)

-- The table has 95 rows of 16 bytes, and `draw_char` of any byte reads nothing else: it draws the same
-- with every table that agrees on them.
pub draw_char-in_table :
    (g : ℕ → ℕ → ℕ)
    → Agree font8x16 g
    → (x y c : ℕ) (color : Color) (s : Surface)
    → (length glyphs ≡ 95)
      × (all_long 16 glyphs ≡ true)
      × (draw_char font8x16 x y c color s ≡ draw_char g x y c color s)
draw_char-in_table g same x y c color s =
    (glyphs-all_long.0, glyphs-all_long.1, draw_char-Agree font8x16 g same x y c color s)
