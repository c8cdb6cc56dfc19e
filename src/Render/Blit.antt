-- ===== src/Render/Blit.antt =====
-- The copy of a window to the screen at the end of `Window::render` in src/gui/Window.cpp.
use mathlib.Core.Path.{subst}
use swish_kernel.Prelude.{
  ℕ, zero, suc, ◌+◌, ◌-◌, ◌*◌, ◌/◌, ◌%◌, ◌^◌, ◌<◌, ◌≤◌, ◌≡◌, ◌≢◌, refl, sym, ap, arith, false, ◌&&◌,
  ◌||◌, inl, inr, ltb, leb, ◌==◌, if◌then◌else◌, Bool-cases, write, size_mod, null, ne→beq,
}
use swish_kernel.Graphics.{Surface, pixel_address}
use swish_kernel.Graphics.Paint.{
  IsSurface, Painted, Painted-trans, repaint, Painted-refl, Painted-IsSurface, write-Painted,
  inside, address_in,
}
use swish_kernel.Window.{Coordinate}
use swish_kernel.Render.{get_buffer_address, copy_pixels, copy_row, copy_rows}

-- The surface of a window has rows without a gap.
abbrev pub IsPacked : Surface → Type 0
IsPacked s = IsSurface s × (s.pitch ≡ s.width * 4)

-- The window lies left of the right edge of the screen.
abbrev pub Fits : Coordinate → Surface → Surface → Type 0
Fits loc surface screen = (loc.x + surface.width ≤ screen.width) × (loc.y + surface.height < 2 ^ 32)

-- The pixel of a window at `loc` that covers a pixel of the screen.
abbrev pub covering : Coordinate → Surface → ℕ → ℕ → ℕ
covering loc surface a b = surface.pixels (pixel_address surface (a - loc.x) (b - loc.y))

-- What a screen shows once a window is copied to it.
abbrev pub covered : Coordinate → Surface → ℕ → ℕ → ℕ → ℕ
covered loc surface a b v =
    if inside loc.x loc.y surface.width surface.height a b then covering loc surface a b else v

-- The first pixel of a copy and the ones behind it are the pixels of the copy.
one_more :
    (n i j y : ℕ) (value : ℕ → ℕ) (a b v : ℕ)
    → (if (leb (suc i) a && ltb a (suc i + n)) && y == b
        then value (a - suc i + suc j)
        else if i == a && y == b
        then value j
        else v)
      ≡ (if (leb i a && ltb a (i + suc n)) && y == b then value (a - i + j) else v)
one_more n i j y value a b v = elim (Bool-cases (leb (suc i) a)) [
  | inl later ↦ let e : a - suc i + suc j ≡ a - i + j = ground arith in rw e (ground arith)
  | inr not_later ↦ elim (Bool-cases (i == a)) [
    | inl first ↦ let e : a - i + j ≡ j = ground arith in rw e (ground arith)
    | inr earlier ↦ ground arith
  ]
]

-- The first row of a copy and the ones below it are the rows of the copy.
row_more :
    (m row x y width : ℕ) (value : ℕ → ℕ) (a b v : ℕ)
    → (if inside x (y + suc row) width m a b
        then value (b - y)
        else if (leb x a && ltb a (x + width)) && y + row == b
        then value row
        else v)
      ≡ (if inside x (y + row) width (suc m) a b then value (b - y) else v)
row_more m row x y width value a b v = elim (Bool-cases (y + row == b)) [
  | inl here ↦ let e : b - y ≡ row = ground arith in rw e (ground arith)
  | inr other ↦ ground arith
]

-- A copy of `n` pixels from the column `j` of a row to the column `i` of another.
copy_pixels-Painted :
    (n i j y row : ℕ) (s w : Surface)
    → IsSurface s
    → IsSurface w
    → i + n ≤ s.width
    → j + n ≤ w.width
    → y < s.height
    → row < w.height
    → Painted s
        (record s {
          pixels = copy_pixels n (pixel_address s i y) (pixel_address w j row) w.pixels s.pixels;
        })
        (λ a b v.
          if (leb i a && ltb a (i + n)) && y == b
          then w.pixels (pixel_address w (a - i + j) row)
          else v)
unfolding copy_pixels
copy_pixels-Painted zero i j y row s w ok okw hi hj hy hr =
    repaint (Painted-refl s) (λ a b v ha hb. ground arith)
copy_pixels-Painted (suc n) i j y row s w ok okw hi hj hy hr =
    let value : ℕ = w.pixels (pixel_address w j row) in
    let s' : Surface = record s { pixels = write s.pixels (pixel_address s i y) value } in
    let first = write-Painted i y value s ok (omega arith) hy in
    let rest =
      copy_pixels-Painted n (suc i) (suc j) y row s' w ok okw (omega arith) (omega arith) hy hr in
    let next_dest : (pixel_address s i y + 4) % size_mod ≡ pixel_address s (suc i) y =
      omega arith in
    let next_src : (pixel_address w j row + 4) % size_mod ≡ pixel_address w (suc j) row =
      omega arith in
    rw (next_dest, next_src)
      (repaint (Painted-trans first rest)
        (λ a b v ha hb. one_more n i j y (λ k. w.pixels (pixel_address w k row)) a b v))

-- A row of the window to the screen.
module _ (loc : Coordinate) (w : Surface) (okw : IsPacked w) where
  abbrev row_shown : ℕ → ℕ → ℕ → ℕ → ℕ
  row_shown row a b v =
      if (leb loc.x a && ltb a (loc.x + w.width)) && loc.y + row == b
      then w.pixels (pixel_address w (a - loc.x) row)
      else v

  copy_row-Painted :
      (row : ℕ) (s : Surface)
      → IsSurface s
      → s.buffer ≢ null
      → Fits loc w s
      → row < w.height
      → Painted s (copy_row row loc w s) (row_shown row)
  unfolding copy_row get_buffer_address
  copy_row-Painted row s ok real fits hr =
      let ex : loc.x % 2 ^ 32 ≡ loc.x = omega (arith, ok, fits) in
      let ey : (loc.y + row) % 2 ^ 32 ≡ loc.y + row = omega (arith, fits) in
      elim (Bool-cases (leb s.width loc.x || leb s.height (loc.y + row))) [
        | inl out ↦ rw (ex, ey, out) (repaint (Painted-refl s) (λ a b v ha hb. ground arith))
        | inr within ↦
            let hx : loc.x < s.width = ground arith in
            let hy : loc.y + row < s.height = ground arith in
            let shown : (pixel_address s loc.x (loc.y + row) == null) ≡ false =
              ne→beq (λ e. omega (arith, address_in s loc.x (loc.y + row) ok hx hy, e, real)) in
            let count : w.width * 4 % size_mod / 4 ≡ w.width = omega (arith, okw) in
            let src : (w.buffer + row * w.width * 4) % size_mod ≡ pixel_address w 0 row =
              omega (arith, ap (λ n. row * n) okw.1) in
            rw (ex, ey, within, shown, count, src)
              (repaint
                (copy_pixels-Painted w.width loc.x 0 (loc.y + row) row s w ok okw.0 fits.0
                  (omega arith) hy hr)
                (λ a b v ha hb. let e : a - loc.x + 0 ≡ a - loc.x = omega arith in rw e refl))
      ]

  copy_rows-Painted :
      (m row : ℕ) (s : Surface)
      → IsSurface s
      → s.buffer ≢ null
      → Fits loc w s
      → row + m ≤ w.height
      → Painted s
          (copy_rows m row loc w s)
          (λ a b v. if inside loc.x (loc.y + row) w.width m a b then covering loc w a b else v)
  unfolding copy_rows
  copy_rows-Painted zero row s ok real fits h =
      repaint (Painted-refl s) (λ a b v ha hb. ground arith)
  copy_rows-Painted (suc m) row s ok real fits h =
      let first = copy_row-Painted row s ok real fits (omega arith) in
      let next = copy_row row loc w s in
      let rest =
        copy_rows-Painted m (suc row) next (Painted-IsSurface first ok)
          (subst (λ t. t.buffer ≢ null) (sym first.shape) real)
          (subst (Fits loc w) (sym first.shape) fits) (omega arith) in
      repaint (Painted-trans first rest) (λ a b v ha hb.
        row_more m row loc.x loc.y w.width (λ r. w.pixels (pixel_address w (a - loc.x) r)) a b v)

  -- A window of which no column lies beyond the right edge of the screen: the copy gives each pixel of
  -- the screen that the window covers the pixel of the window, and leaves the others.
  pub copy-Painted :
      (s : Surface)
      → IsSurface s
      → s.buffer ≢ null
      → Fits loc w s
      → Painted s (copy_rows w.height 0 loc w s) (covered loc w)
  copy-Painted s ok real fits =
      repaint (copy_rows-Painted w.height 0 s ok real fits (omega arith))
        (λ a b v ha hb. ground arith)
