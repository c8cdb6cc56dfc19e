-- ===== src/Graphics/Paint.antt =====
-- Which pixels src/gui/Graphics.cpp changes, and to what.
use mathlib.Core.Path.{subst}
use swish_kernel.Prelude.{
  ℕ, zero, suc, ◌+◌, ◌-◌, ◌*◌, ◌%◌, ◌^◌, ◌<◌, ◌≤◌, ◌≡◌, ◌≢◌, refl, sym, ap, ◌∙◌, arith, Bool, false,
  ◌&&◌, ◌||◌, inl, inr, ltb, leb, ◌==◌, if◌then◌else◌, Bool-cases, ltb→lt, write, write_ne,
  write_self, size_mod,
}
use swish_kernel.Graphics.{
  Color, get_bytes, Surface, pixel_address, draw_pixel, fill_row, fill_rows, side_end,
  draw_rect_filled,
}

-- A surface whose rows do not overlap and whose buffer ends below the top of the address space.
abbrev pub IsSurface : Surface → Type 0
IsSurface s =
    (s.width * 4 ≤ s.pitch)
    × (s.buffer + s.height * s.pitch < size_mod)
    × (s.width < 2 ^ 32)
    × (s.height < 2 ^ 32)

-- The surface `t` is `s` with the value of each pixel changed as `f` says.
pub record Painted (s t : Surface) (f : ℕ → ℕ → ℕ → ℕ) : Type 0 where
  pub pixels : ℕ → ℕ
  pub shape : t ≡ record s { pixels = pixels }
  pub each :
      (a b : ℕ)
      → a < s.width
      → b < s.height
      → pixels (pixel_address s a b) ≡ f a b (s.pixels (pixel_address s a b))

-- The pixel lies in the rectangle of `w` by `h` pixels at `x`, `y`.
abbrev pub inside : ℕ → ℕ → ℕ → ℕ → ℕ → ℕ → Bool
inside x y w h a b = (leb x a && ltb a (x + w)) && (leb y b && ltb b (y + h))

pub rows_apart : (y b pitch : ℕ) → y < b → y * pitch + pitch ≤ b * pitch
rows_apart y b pitch h =
    let d = b - suc y in let e : b ≡ suc (y + d) = omega arith in rw e (omega arith)

pub address_in :
    (s : Surface) (x y : ℕ)
    → IsSurface s
    → x < s.width
    → y < s.height
    → pixel_address s x y ≡ s.buffer + y * s.pitch + x * 4
address_in s x y (wide, fits, _, _) hx hy =
    let below : y * s.pitch + s.pitch ≤ s.height * s.pitch = rows_apart y s.height s.pitch hy in
    omega (arith, below)

pub address_apart :
    (s : Surface) (x y a b : ℕ)
    → IsSurface s
    → x < s.width
    → y < s.height
    → a < s.width
    → b < s.height
    → (x == a && y == b) ≡ false
    → pixel_address s a b ≢ pixel_address s x y
address_apart s x y a b ok hx hy ha hb apart same =
    let e = sym (address_in s a b ok ha hb) ∙ same ∙ address_in s x y ok hx hy in
    elim (Bool-cases (ltb y b)) [
      | inl above ↦ omega (arith, rows_apart y b s.pitch (ltb→lt y b above), e, ok.0)
      | inr not_above ↦ elim (Bool-cases (ltb b y)) [
        | inl below ↦ omega (arith, rows_apart b y s.pitch (ltb→lt b y below), e, ok.0)
        | inr not_below ↦
            let row : y ≡ b = ground arith in
            let column : x ≡ a = omega (arith, e, ap (λ n. n * s.pitch) row) in ground arith
      ]
    ]

pub Painted-trans :
    {s t u : Surface} {f g : ℕ → ℕ → ℕ → ℕ}
    → Painted s t f
    → Painted t u g
    → Painted s u (λ a b v. g a b (f a b v))
Painted-trans {s} {t} {u} {f} {g} first =
    subst (λ t'. Painted t' u g → Painted s u (λ a b v. g a b (f a b v))) (sym first.shape)
      (λ second. record {
        pixels = second.pixels;
        shape = second.shape;
        each = λ a b ha hb. second.each a b ha hb ∙ ap (g a b) (first.each a b ha hb);
      })

pub repaint :
    {s t : Surface} {f g : ℕ → ℕ → ℕ → ℕ}
    → Painted s t f
    → ((a b v : ℕ) → a < s.width → b < s.height → f a b v ≡ g a b v)
    → Painted s t g
repaint {s} p same = record {
  pixels = p.pixels;
  shape = p.shape;
  each = λ a b ha hb. p.each a b ha hb ∙ same a b (s.pixels (pixel_address s a b)) ha hb;
}

pub Painted-refl : (s : Surface) → Painted s s (λ a b v. v)
Painted-refl s = record { pixels = s.pixels; shape = refl; each = λ a b ha hb. refl }

-- The pixels of the surface that was painted.
pub Painted-pixels :
    {s t : Surface} {f : ℕ → ℕ → ℕ → ℕ}
    → Painted s t f
    → (a b : ℕ) → a < s.width
    → b < s.height
    → t.pixels (pixel_address t a b) ≡ f a b (s.pixels (pixel_address s a b))
Painted-pixels {s} {t} {f} p a b ha hb =
    subst (λ t'. t'.pixels (pixel_address t' a b) ≡ f a b (s.pixels (pixel_address s a b)))
      (sym p.shape) (p.each a b ha hb)

pub Painted-IsSurface :
    {s t : Surface} {f : ℕ → ℕ → ℕ → ℕ} → Painted s t f → IsSurface s → IsSurface t
Painted-IsSurface p ok = subst IsSurface (sym p.shape) ok

-- Writing the value `value` to a pixel changes this pixel only.
pub write-Painted :
    (x y value : ℕ) (s : Surface)
    → IsSurface s
    → x < s.width
    → y < s.height
    → Painted s
        (record s { pixels = write s.pixels (pixel_address s x y) value })
        (λ a b v. if x == a && y == b then value else v)
write-Painted x y value s ok hx hy = record {
  pixels = write s.pixels (pixel_address s x y) value;
  shape = refl;
  each = λ a b ha hb. elim (Bool-cases (x == a && y == b)) [
    | inl here ↦
        let ex : x ≡ a = ground arith in
        let ey : y ≡ b = ground arith in
        rw (here, sym ex, sym ey) (write_self s.pixels (pixel_address s x y) value)
    | inr other ↦ rw other (
        write_ne s.pixels (pixel_address s x y) (pixel_address s a b) value
          (λ e. address_apart s x y a b ok hx hy ha hb other (sym e)))
  ];
}

pub draw_pixel-Painted :
    (x y : ℕ) (color : Color) (s : Surface)
    → IsSurface s
    → Painted s (draw_pixel x y color s) (λ a b v. if x == a && y == b then get_bytes color else v)
unfolding draw_pixel
draw_pixel-Painted x y color s ok = elim (Bool-cases (leb s.width x || leb s.height y)) [
  | inl out ↦ rw out (repaint (Painted-refl s) (λ a b v ha hb. ground arith))
  | inr within ↦ rw within (write-Painted x y (get_bytes color) s ok (ground arith) (ground arith))
]

fill_row-Painted :
    (n j i : ℕ) (color : Color) (s : Surface)
    → IsSurface s
    → j + n < 2 ^ 32
    → i < 2 ^ 32
    → Painted s
        (fill_row n j i color s)
        (λ a b v. if (leb j a && ltb a (j + n)) && i == b then get_bytes color else v)
unfolding fill_row
fill_row-Painted zero j i color s ok hj hi = repaint (Painted-refl s) (λ a b v ha hb. ground arith)
fill_row-Painted (suc n) j i color s ok hj hi =
    let first = draw_pixel-Painted (j % 2 ^ 32) (i % 2 ^ 32) color s ok in
    let rest =
      fill_row-Painted n (suc j) i color (draw_pixel (j % 2 ^ 32) (i % 2 ^ 32) color s)
        (Painted-IsSurface first ok) (omega arith) hi in
    repaint (Painted-trans first rest) (λ a b v ha hb. ground arith)

fill_rows-Painted :
    (m n j i : ℕ) (color : Color) (s : Surface)
    → IsSurface s
    → j + n < 2 ^ 32
    → i + m < 2 ^ 32
    → Painted s
        (fill_rows m n j i color s)
        (λ a b v. if inside j i n m a b then get_bytes color else v)
unfolding fill_rows
fill_rows-Painted zero n j i color s ok hj hi =
    repaint (Painted-refl s) (λ a b v ha hb. ground arith)
fill_rows-Painted (suc m) n j i color s ok hj hi =
    let first = fill_row-Painted n j i color s ok hj (omega arith) in
    let rest =
      fill_rows-Painted m n j (suc i) color (fill_row n j i color s) (Painted-IsSurface first ok) hj
        (omega arith) in
    repaint (Painted-trans first rest) (λ a b v ha hb. ground arith)

side-short :
    (start extent bound : ℕ)
    → start < 2 ^ 32
    → bound < 2 ^ 32
    → start + (side_end start extent bound - start) < 2 ^ 32
side-short start extent bound hs hb = ground arith

-- A side that is cut off at the bound holds the same coordinates below the bound.
side_lem :
    (start extent bound a : ℕ)
    → start < 2 ^ 32
    → bound < 2 ^ 32
    → start + extent < size_mod
    → a < bound
    → (leb start a && ltb a (start + (side_end start extent bound - start)))
      ≡ (leb start a && ltb a (start + extent))
side_lem start extent bound a hs hb he ha = ground arith

-- Where no sum leaves a `size_t`, `draw_rect_filled` gives the pixels of the surface that lie in the
-- rectangle the colour, and leaves the others.
pub draw_rect_filled-Painted :
    (x y w h : ℕ) (color : Color) (s : Surface)
    → IsSurface s
    → x < 2 ^ 32
    → y < 2 ^ 32
    → x + w < size_mod
    → y + h < size_mod
    → Painted s
        (draw_rect_filled x y w h color s)
        (λ a b v. if inside x y w h a b then get_bytes color else v)
unfolding draw_rect_filled
draw_rect_filled-Painted x y w h color s ok hx hy hw hh =
    repaint
      (fill_rows-Painted (side_end y h s.height - y) (side_end x w s.width - x) x y color s ok
        (side-short x w s.width hx ok.2) (side-short y h s.height hy ok.3))
      (λ a b v ha hb.
        ap (λ t. if t then get_bytes color else v)
          (λ i. side_lem x w s.width a hx ok.2 hw ha i && side_lem y h s.height b hy ok.3 hh hb i))
