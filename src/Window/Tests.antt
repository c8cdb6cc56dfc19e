-- ===== src/Window/Tests.antt =====
-- A window of src/gui/Window.cpp with 8 columns and 3 rows, and a word that fills a row.
use swish_kernel.Prelude.{arith, false}
use swish_kernel.Window.{Window, inject_key, origin}
use swish_kernel.Window.Safety.{OnGrid, Fits, Kept, inject_key-OnGrid}

abbrev small : Window
small = record {
  should_close = false;
  loc = origin;
  width = 64;
  height = 64;
  text_grid = λ i. 0;
  cols = 8;
  rows = 3;
  cursor = record { x = 7; y = 2 };
  is_dragging = false;
  drag_offset = origin;
}

small-OnGrid : OnGrid small
small-OnGrid = (omega arith, omega arith, omega arith, λ e. absurd (omega (arith, e)))

small-Fits : Fits small
small-Fits = omega arith

inject_key-OnGrid_example : Kept small (inject_key b'x' small)
inject_key-OnGrid_example = inject_key-OnGrid b'x' small small-Fits small-OnGrid
