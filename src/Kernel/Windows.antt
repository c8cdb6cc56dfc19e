-- ===== src/Kernel/Windows.antt =====
-- The windows that src/main.cpp opens.
use swish_kernel.Prelude.{
  ℕ, ◌-◌, ◌*◌, ◌/◌, ◌%◌, ◌^◌, ◌<◌, ◌≤◌, ◌≡◌, refl, ◌∙◌, arith, List, [], ◌∷◌, bytes_of, size_mod,
  done,
}
use swish_kernel.Graphics.Paint.{rows_apart}
use swish_kernel.Window.{Window, new_window, print, sub64}
use swish_kernel.Window.Safety.{OnGrid, Fits, print-OnGrid, new_window-OnGrid}
use swish_kernel.TerminalWindow.{new_terminal_window}
use swish_kernel.Compositor.{Desktop}
use swish_kernel.Compositor.Order.{Screen, Action, opens, changes, perform, Shows, Refines}
use swish_kernel.Compositor.Refine.{perform_all, promise_all, perform_all-Refines}
use swish_kernel.Kernel.{window1, window2, window3, window4, open_windows}

small_product : (a b : ℕ) → a < 2 ^ 32 → b < 2 ^ 31 → a * b < size_mod
small_product a b ha hb = omega (arith, rows_apart a (2 ^ 32) b ha, hb)

new_window-Fits :
    (x y width height : ℕ)
    → 32 ≤ height
    → width < 2 ^ 32
    → height < 2 ^ 31
    → Fits (new_window x y width height)
unfolding new_window
new_window-Fits x y width height low hw hh =
    let rows : sub64 (height / 16) 1 < 2 ^ 31 = ground arith in
    small_product (width / 8) (sub64 (height / 16) 1) (omega arith) rows

window4-print :
    (width height : ℕ)
    → width < 2 ^ 31
    → height < 2 ^ 31
    → window4 width height
      ≡ print
          (bytes_of "window4> ")
          (new_window (width / 8) (height / 7) (width / 8 * 6) (height / 7 * 5))
unfolding window4 new_terminal_window
window4-print width height hw hh =
    let ew : width / 8 * (8 - 2) % size_mod ≡ width / 8 * 6 = omega arith in
    let eh : height / 7 * (7 - 2) % size_mod ≡ height / 7 * 5 = omega arith in
    λ i. print (bytes_of "window4> ") (new_window (width / 8) (height / 7) (ew i) (eh i))

-- The terminal window is there, and its cursor is on its grid.
window4-OnGrid :
    (width height : ℕ)
    → 16 ≤ width
    → 49 ≤ height
    → width < 2 ^ 31
    → height < 2 ^ 31
    → (w : Window) × (window4 width height ≡ done w) × OnGrid w
window4-OnGrid width height lw lh hw hh =
    let x = width / 8 in
    let y = height / 7 in
    let made = new_window x y (x * 6) (y * 5) in
    let (w, printed, grid, _, _) =
      print-OnGrid (bytes_of "window4> ") made
        (new_window-Fits x y (x * 6) (y * 5) (omega arith) (omega arith) (omega arith))
        (new_window-OnGrid x y (x * 6) (y * 5) (omega arith) (omega arith)
          (small_product (x * 6) (y * 5) (omega arith) (omega arith))) in
    (w, window4-print width height hw hh ∙ printed, grid)

-- What `_start` does with its windows, `w4` being the last.
abbrev pub boot_actions : ℕ → ℕ → ℕ → ℕ → ℕ → ℕ → Window → List Action
boot_actions width height p1 p2 p3 p4 w4 =
    changes p1 (window1 width height)
    ∷ changes p2 (window2 width height)
    ∷ changes p3 (window3 width height)
    ∷ changes p4 w4
    ∷ opens p1
    ∷ opens p2
    ∷ opens p3
    ∷ opens p4
    ∷ []

open_windows-perform_all :
    (width height p1 p2 p3 p4 : ℕ) (w4 : Window) (d : Desktop)
    → window4 width height ≡ done w4
    → open_windows width height p1 p2 p3 p4 d
      ≡ perform_all (boot_actions width height p1 p2 p3 p4 w4) d
unfolding open_windows perform_all perform
open_windows-perform_all width height p1 p2 p3 p4 w4 d made = rw made refl

-- On a frame buffer of at least 16 by 49 pixels the four windows are opened, from the bottom to the top
-- in their order, and the cursor of the terminal window is on its grid.
pub open_windows-Refines :
    (width height p1 p2 p3 p4 : ℕ) (d : Desktop) (s : Screen)
    → 16 ≤ width
    → 49 ≤ height
    → width < 2 ^ 31
    → height < 2 ^ 31
    → Shows d s
    → (w4 : Window) × OnGrid w4
      × Refines
          (open_windows width height p1 p2 p3 p4 d)
          (promise_all (boot_actions width height p1 p2 p3 p4 w4) s)
open_windows-Refines width height p1 p2 p3 p4 d s lw lh hw hh shows =
    let (w4, made, grid) = window4-OnGrid width height lw lh hw hh in
    let (e, run, after) =
      perform_all-Refines (boot_actions width height p1 p2 p3 p4 w4) d s shows in
    (w4, grid, (e, open_windows-perform_all width height p1 p2 p3 p4 w4 d made ∙ run, after))
