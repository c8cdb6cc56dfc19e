-- ===== src/Render.antt =====
-- What src/gui/Window.cpp and src/gui/Compositor.cpp draw: `Window::render` draws a window on its own
-- surface and copies it to the screen, `Compositor::render` does that from the bottom to the top.
pub mod Blit
pub mod Click
pub mod Cursor
pub mod Drawn
pub mod Shows
pub mod Swap
pub mod Topmost
pub mod Tests
use swish_kernel.Prelude.{
  ℕ, zero, suc, ◌+◌, ◌-◌, ◌*◌, ◌/◌, ◌%◌, ◌^◌, Bool, true, false, not, ◌&&◌, ◌||◌, List, [], ◌∷◌,
  ltb, leb, ◌==◌, if◌then◌else◌, length, get_or, write, null, size_mod, Res, done, out_of_fuel,
  ◌>>=◌,
}
use swish_kernel.Text.{Bytes}
use swish_kernel.Graphics.{
  Color, black, white, gray, dark_gray, red, Surface, pixel_address, draw_pixel, draw_rect_filled,
  draw_bg, draw_char, draw_string,
}
use swish_kernel.Window.{Coordinate, Window, sub64, font_width, font_height}
use swish_kernel.Compositor.{Desktop, cleanup_closed_windows}

abbrev pub to_uint32 : ℕ → ℕ
to_uint32 n = n % 2 ^ 32

-- `get_buffer_address` on the surface of the screen.
pub get_buffer_address : Surface → ℕ → ℕ → ℕ
get_buffer_address screen x y =
    if leb screen.width x || leb screen.height y then null else pixel_address screen x y

-- A `memcpy` of `n` whole pixels from the memory `from` to the memory `to`.
unfoldable pub copy_pixels : ℕ → ℕ → ℕ → (ℕ → ℕ) → (ℕ → ℕ) → ℕ → ℕ
copy_pixels zero dest src from to = to
copy_pixels (suc n) dest src from to =
    copy_pixels n ((dest + 4) % size_mod) ((src + 4) % size_mod) from (write to dest (from src))

-- `swap_buffers`: the local buffer or that of the terminal, whole, goes to the frame buffer.
pub swap_buffers : Bool → Surface → Surface → Surface → Surface
swap_buffers is_gui local terminal framebuffer =
    let from : Surface = if is_gui then local else terminal in
    record framebuffer {
      pixels =
          copy_pixels (framebuffer.pitch * framebuffer.height % size_mod / 4) framebuffer.buffer
            from.buffer from.pixels framebuffer.pixels;
    }

-- One round of the last loop of `Window::render`.
pub copy_row : ℕ → Coordinate → Surface → Surface → Surface
copy_row row loc surface screen =
    let screen_row_ptr : ℕ =
      get_buffer_address screen (to_uint32 loc.x) (to_uint32 (loc.y + row)) in
    if screen_row_ptr == null then screen else record screen {
      pixels =
          copy_pixels (surface.width * 4 % size_mod / 4) screen_row_ptr
            ((surface.buffer + row * surface.width * 4) % size_mod) surface.pixels screen.pixels;
    }

-- The loop, with `m` rows to go.
unfoldable pub copy_rows : ℕ → ℕ → Coordinate → Surface → Surface → Surface
copy_rows zero row loc surface screen = screen
copy_rows (suc m) row loc surface screen =
    copy_rows m (suc row) loc surface (copy_row row loc surface screen)

-- The column at which the title is in the middle.
pub title_x : ℕ → Surface → ℕ
title_x text_width surface =
    if ltb text_width surface.width then to_uint32 ((surface.width - text_width) / 2) else 0

-- `font` is the table of glyphs.
module _ (font : ℕ → ℕ → ℕ) where
  -- The cells of a row from the column `col` on; a NUL ends the row.
  unfoldable pub draw_cells : ℕ → ℕ → ℕ → Window → Surface → Surface
  draw_cells zero col row w surface = surface
  draw_cells (suc n) col row w surface =
      let c = w.text_grid (row * w.cols + col) in
      if c == 0
      then surface
      else draw_cells n (suc col) row w (
          if c == b' '
          then surface
          else draw_char font (to_uint32 (col * font_width)) (to_uint32 ((row + 1) * font_height)) c
              black surface)

  unfoldable pub draw_lines : ℕ → ℕ → Window → Surface → Surface
  draw_lines zero row w surface = surface
  draw_lines (suc m) row w surface = draw_lines m (suc row) w (draw_cells w.cols 0 row w surface)

  -- `Window::render` up to the copy.
  pub draw_window : Bool → Bytes → Window → Surface → Surface
  draw_window focused title w surface =
      let blank : Surface = draw_bg surface in
      let with_cursor : Surface =
        if focused && not w.is_dragging
        then draw_rect_filled (to_uint32 (w.cursor.x * font_width))
            (to_uint32 ((w.cursor.y + 1) * font_height)) font_width font_height gray blank
        else blank in
      let with_text : Surface = draw_lines w.rows 0 w with_cursor in
      let with_bar : Surface = draw_rect_filled 0 0 surface.width font_height dark_gray with_text in
      draw_rect_filled (to_uint32 (sub64 surface.width font_height)) 0 font_height font_height red
        (draw_string font (title_x (length title * font_width) surface) 0 title white with_bar)

  -- `Window::render`: the surface of the window, and the screen.
  pub render_window : Bool → Bytes → Window → Surface → Surface → Surface × Surface
  render_window focused title w surface screen =
      let drawn : Surface = draw_window focused title w surface in
      (drawn, copy_rows drawn.height 0 w.loc drawn screen)

-- What the windows at their addresses own besides their text, and the screen. Titles hold no NUL.
pub record Scene : Type 0 where
  pub titles : ℕ → Bytes
  pub surfaces : ℕ → Surface
  pub screen : Surface

-- `cursor_bitmap_28`
abbrev pub cursor_bitmap : List ℕ
cursor_bitmap =
    1572864 ∷ 1835008 ∷ 2031616 ∷ 2064384 ∷ 2080768 ∷ 2088960 ∷ 2093056 ∷ 2095104 ∷ 2096128
    ∷ 2096640 ∷ 2097024 ∷ 2097088 ∷ 2097120 ∷ 2097136 ∷ 2097144 ∷ 2097148 ∷ 2097150 ∷ 2097151
    ∷ 2097150 ∷ 2097136 ∷ 2096128 ∷ 2093056 ∷ 2080768 ∷ 2064384 ∷ 2031616 ∷ 1966080 ∷ 1835008 ∷ 0
    ∷ []

-- The bits of a row of the cursor, from bit `i` on.
unfoldable pub draw_cursor_row : ℕ → ℕ → ℕ → ℕ → ℕ → Surface → Surface
draw_cursor_row zero i row x y screen = screen
draw_cursor_row (suc n) i row x y screen = draw_cursor_row n (suc i) row x y (
    if row / 2 ^ i % 2 == 1
    then draw_pixel (to_uint32 (x + (22 - i))) (to_uint32 y) black screen
    else screen)

unfoldable pub draw_cursor : List ℕ → ℕ → ℕ → Surface → Surface
draw_cursor [] x y screen = screen
draw_cursor (row ∷ rows) x y screen =
    draw_cursor rows x (y + 1) (draw_cursor_row 22 0 row x y screen)

module _ (font : ℕ → ℕ → ℕ) where
  -- The rendering of one node of the list.
  pub render_node : ℕ → Desktop → Scene → Scene
  render_node current d scene =
      let w = (d.node current).window in
      let (surface, screen) =
        render_window font ((d.node current).next == null) (scene.titles w) (d.windows w)
          (scene.surfaces w) scene.screen in
      record scene { surfaces = write scene.surfaces w surface; screen = screen }

  -- The walk of `Compositor::render` over the windows.
  unfoldable pub render_loop : ℕ → ℕ → Desktop → Scene → Res Scene
  render_loop zero current d scene = out_of_fuel
  render_loop (suc fuel) current d scene =
      if current == null
      then done scene
      else render_loop fuel (d.node current).next d (render_node current d scene)

  -- `Compositor::render` with the mouse at `x`, `y`; `is_gui` tells which buffer is shown.
  pub render : ℕ → ℕ → Bool → Desktop → Scene → Surface → Surface → Res (Desktop × Scene × Surface)
  render x y is_gui d scene terminal framebuffer = do
    drawn ← render_loop (suc d.fresh) d.head d (record scene { screen = draw_bg scene.screen })
    let finished : Scene = record drawn { screen = draw_cursor cursor_bitmap x y drawn.screen }
    open_windows ← cleanup_closed_windows d
    done (open_windows, finished, swap_buffers is_gui finished.screen terminal framebuffer)
