-- ===== src/Graphics.antt =====
-- src/gui/Graphics.cpp: colours and drawing on a surface. The table of glyphs of src/gui/Font.cpp is a
-- parameter of `draw_char`.
pub mod Buffers
pub mod Clip
pub mod Paint
mod Tests
use swish_kernel.Prelude.{
  ℕ, zero, suc, ◌+◌, ◌-◌, ◌*◌, ◌/◌, ◌%◌, ◌^◌, Bool, true, false, not, ◌&&◌, ◌||◌, List, [], ◌∷◌,
  ltb, leb, ◌==◌, if◌then◌else◌, write, size_mod,
}
use swish_kernel.Text.{Bytes}

pub record Color : Type 0 where
  pub r : ℕ
  pub g : ℕ
  pub b : ℕ
  pub a : ℕ

-- `Color(uint32_t)`
pub of_bytes : ℕ → Color
of_bytes color = record {
  b = color % 256;
  g = color / 2 ^ 8 % 256;
  r = color / 2 ^ 16 % 256;
  a = color / 2 ^ 24 % 256;
}

-- The channels are bytes, so their places are disjoint and the `|` adds.
pub get_bytes : Color → ℕ
get_bytes c = c.b + c.g * 2 ^ 8 + c.r * 2 ^ 16 + c.a * 2 ^ 24

pub with_alpha : ℕ → Color → Color
with_alpha alpha c = record c { a = alpha }

abbrev pub opaque : ℕ → ℕ → ℕ → Color
opaque r g b = record { r = r; g = g; b = b; a = 255 }

abbrev pub white : Color
white = opaque 255 255 255

abbrev pub black : Color
black = opaque 0 0 0

abbrev pub red : Color
red = opaque 255 0 0

abbrev pub green : Color
green = opaque 0 255 0

abbrev pub yellow : Color
yellow = opaque 255 255 0

abbrev pub gray : Color
gray = opaque 128 128 128

abbrev pub light_gray : Color
light_gray = opaque 192 192 192

abbrev pub dark_gray : Color
dark_gray = opaque 64 64 64

-- The pixels by their addresses; `pitch` is the number of bytes of a row.
pub record Surface : Type 0 where
  pub pixels : ℕ → ℕ
  pub buffer : ℕ
  pub width : ℕ
  pub height : ℕ
  pub pitch : ℕ
  pub background : Color

pub set_bg : Color → Surface → Surface
set_bg color dest = record dest { background = color }

abbrev pub pixel_address : Surface → ℕ → ℕ → ℕ
pixel_address dest x y = (dest.buffer + y * dest.pitch + x * 4) % size_mod

unfoldable pub draw_pixel : ℕ → ℕ → Color → Surface → Surface
draw_pixel x y color dest =
    if leb dest.width x || leb dest.height y
    then dest
    else record dest { pixels = write dest.pixels (pixel_address dest x y) (get_bytes color) }

-- The inner loop of `draw_rect_filled`: `n` pixels from `j` on. The arguments of `draw_pixel` are
-- `uint32_t`.
unfoldable pub fill_row : ℕ → ℕ → ℕ → Color → Surface → Surface
fill_row zero j i color dest = dest
fill_row (suc n) j i color dest =
    fill_row n (suc j) i color (draw_pixel (j % 2 ^ 32) (i % 2 ^ 32) color dest)

-- The outer loop: `m` rows from `i` on.
unfoldable pub fill_rows : ℕ → ℕ → ℕ → ℕ → Color → Surface → Surface
fill_rows zero n j i color dest = dest
fill_rows (suc m) n j i color dest = fill_rows m n j (suc i) color (fill_row n j i color dest)

-- The end of a side, a `uint32_t`: `start + extent` in a `size_t`, or the bound of the surface.
abbrev pub side_end : ℕ → ℕ → ℕ → ℕ
side_end start extent bound =
    (if ltb bound ((start + extent) % size_mod) then bound else (start + extent) % size_mod)
    % 2 ^ 32

pub draw_rect_filled : ℕ → ℕ → ℕ → ℕ → Color → Surface → Surface
draw_rect_filled x y w h color dest =
    fill_rows (side_end y h dest.height - y) (side_end x w dest.width - x) x y color dest

unfoldable pub draw_bg : Surface → Surface
draw_bg dest = draw_rect_filled 0 0 dest.width dest.height dest.background dest

-- Bit `i` of a byte.
abbrev pub bit : ℕ → ℕ → Bool
bit byte i = byte / 2 ^ i % 2 == 1

abbrev pub add32 : ℕ → ℕ → ℕ
add32 a b = (a + b) % 2 ^ 32

-- A pixel, or nothing.
abbrev pub draw_if : Bool → ℕ → ℕ → Color → Surface → Surface
draw_if set x y color dest = if set then draw_pixel x y color dest else dest

-- `font c cx` is the byte `cx` of the glyph of `c`; the last 8 bytes are the lower half.
module _ (font : ℕ → ℕ → ℕ) where
  -- The loop over `cy`, with `n` rounds to go.
  unfoldable pub draw_column : ℕ → ℕ → ℕ → ℕ → ℕ → ℕ → Color → Surface → Surface
  draw_column zero index cx cy x y color dest = dest
  draw_column (suc n) index cx cy x y color dest = draw_column n index cx (suc cy) x y color (
      draw_if (bit (font index (cx + 8)) cy) (add32 x cx) (add32 y (cy + 8)) color
        (draw_if (bit (font index cx) cy) (add32 x cx) (add32 y cy) color dest))

  -- The loop over `cx`.
  unfoldable pub draw_columns : ℕ → ℕ → ℕ → ℕ → ℕ → Color → Surface → Surface
  draw_columns zero index cx x y color dest = dest
  draw_columns (suc n) index cx x y color dest =
      draw_columns n index (suc cx) x y color (draw_column 8 index cx 0 x y color dest)

  -- Characters from 127 on, which a `char` holds as negative numbers too, are drawn as a space.
  unfoldable pub draw_char : ℕ → ℕ → ℕ → Color → Surface → Surface
  draw_char x y c color dest =
      draw_columns 8 ((if ltb c 32 || ltb 126 c then 32 else c) - 32) 0 x y color dest

  unfoldable pub draw_string_loop : Bytes → ℕ → ℕ → ℕ → Color → Surface → Surface
  draw_string_loop [] x current_x current_y color dest = dest
  draw_string_loop (c ∷ str) x current_x current_y color dest =
      if c == 10
      then draw_string_loop str x x (add32 current_y 16) color dest
      else draw_string_loop str x (add32 current_x 8) current_y color
          (draw_char current_x current_y c color dest)

  pub draw_string : ℕ → ℕ → Bytes → Color → Surface → Surface
  draw_string x y str color dest = draw_string_loop str x x y color dest
