-- ===== src/Render/Drawn.antt =====
-- A window drawn on its own surface by `Window::render` of src/gui/Window.cpp.
use swish_kernel.Prelude.{
  ℕ, zero, suc, ◌+◌, ◌*◌, ◌^◌, ◌<◌, ◌≤◌, ◌≡◌, Bool, true, false, not, ◌&&◌, ◌==◌, if◌then◌else◌,
  arith, length, size_mod,
}
use swish_kernel.Text.{Bytes}
use swish_kernel.Graphics.{
  black, white, gray, dark_gray, red, Surface, draw_bg, draw_char, draw_string, draw_rect_filled,
}
use swish_kernel.Graphics.Clip.{
  Clipped, Clipped-refl, Clipped-trans, draw_char-Clipped, draw_string-Clipped,
  draw_rect_filled-Clipped,
}
use swish_kernel.Window.{Coordinate, Window, sub64, font_width, font_height}
use swish_kernel.Render.{to_uint32, title_x, draw_cells, draw_lines, draw_window}
use swish_kernel.Render.Blit.{IsPacked, Fits}

-- A test that ends with a drawing or without one.
choose-Clipped :
    (s t u : Surface) (test : Bool) → Clipped s t → Clipped s u → Clipped s (if test then t else u)
choose-Clipped s t u true ct cu = ct
choose-Clipped s t u false ct cu = cu

module _ (font : ℕ → ℕ → ℕ) where
  draw_cells-Clipped :
      (n col row : ℕ) (w : Window) (s : Surface) → Clipped s (draw_cells font n col row w s)
  unfolding draw_cells
  draw_cells-Clipped zero col row w s = Clipped-refl s
  draw_cells-Clipped (suc n) col row w s =
      let c = w.text_grid (row * w.cols + col) in
      let x = to_uint32 (col * font_width) in
      let y = to_uint32 ((row + 1) * font_height) in
      let next : Surface = if c == b' ' then s else draw_char font x y c black s in
      choose-Clipped s s (draw_cells font n (suc col) row w next) (c == 0) (Clipped-refl s) (
        Clipped-trans s next (draw_cells font n (suc col) row w next)
          (choose-Clipped s s (draw_char font x y c black s) (c == b' ') (Clipped-refl s)
            (draw_char-Clipped font x y c black s))
          (draw_cells-Clipped n (suc col) row w next))

  draw_lines-Clipped :
      (m row : ℕ) (w : Window) (s : Surface) → Clipped s (draw_lines font m row w s)
  unfolding draw_lines
  draw_lines-Clipped zero row w s = Clipped-refl s
  draw_lines-Clipped (suc m) row w s =
      let next = draw_cells font w.cols 0 row w s in
      Clipped-trans s next (draw_lines font m (suc row) w next)
        (draw_cells-Clipped w.cols 0 row w s) (draw_lines-Clipped m (suc row) w next)

  -- A window is drawn on the pixels of its own surface and nowhere else.
  pub draw_window-Clipped :
      (focused : Bool) (title : Bytes) (w : Window) (s : Surface)
      → Clipped s (draw_window font focused title w s)
  unfolding draw_window draw_bg
  draw_window-Clipped focused title w s =
      let blank = draw_bg s in
      let cursor =
        draw_rect_filled (to_uint32 (w.cursor.x * font_width))
          (to_uint32 ((w.cursor.y + 1) * font_height)) font_width font_height gray blank in
      let marked : Surface = if focused && not w.is_dragging then cursor else blank in
      let text = draw_lines font w.rows 0 w marked in
      let bar = draw_rect_filled 0 0 s.width font_height dark_gray text in
      let x = title_x (length title * font_width) s in
      let named = draw_string font x 0 title white bar in
      let corner = to_uint32 (sub64 s.width font_height) in
      let after = draw_rect_filled corner 0 font_height font_height red named in
      Clipped-trans s blank after (draw_rect_filled-Clipped 0 0 s.width s.height s.background s) (
        Clipped-trans blank marked after
          (choose-Clipped blank cursor blank (focused && not w.is_dragging)
            (draw_rect_filled-Clipped (to_uint32 (w.cursor.x * font_width))
              (to_uint32 ((w.cursor.y + 1) * font_height)) font_width font_height gray blank)
            (Clipped-refl blank))
          (Clipped-trans marked text after (draw_lines-Clipped w.rows 0 w marked) (
            Clipped-trans text bar after
              (draw_rect_filled-Clipped 0 0 s.width font_height dark_gray text)
              (Clipped-trans bar named after (draw_string-Clipped font x 0 title white bar)
                (draw_rect_filled-Clipped corner 0 font_height font_height red named)))))

abbrev Shaped : ℕ → ℕ → ℕ → ℕ → Type 0
Shaped buffer width height pitch =
    ((width * 4 ≤ pitch)
      × (buffer + height * pitch < size_mod)
      × (width < 2 ^ 32)
      × (height < 2 ^ 32))
    × (pitch ≡ width * 4)

-- What is drawn on a surface has its shape.
pub Clipped-IsPacked : (s t : Surface) → Clipped s t → IsPacked s → IsPacked t
Clipped-IsPacked s t (eb, ew, eh, ep, _) ok = coe 1 0 (i. Shaped (eb i) (ew i) (eh i) (ep i)) ok

pub Clipped-Fits :
    (loc : Coordinate) (s t screen : Surface) → Clipped s t → Fits loc s screen → Fits loc t screen
Clipped-Fits loc s t screen c fits = (omega (arith, fits.0, c.1), omega (arith, fits.1, c.2))
