-- ===== src/Compositor/Tests.antt =====
-- Three windows on the desktop of src/gui/Compositor.cpp, the first of them brought to the front.
use swish_kernel.Prelude.{◌≡◌, refl, false, true, arith, List, [], ◌∷◌, null}
use swish_kernel.Window.{Window, origin}
use swish_kernel.Compositor.{Desktop}
use swish_kernel.Compositor.Neighbours.{has, erase, first, last_from}
use swish_kernel.Compositor.Find.{shown}
use swish_kernel.Compositor.Order.{
  Screen, Action, opens, focuses, cleans, changes, promise, keep_open, Shows, Refines,
}
use swish_kernel.Compositor.Refine.{perform_all, promise_all, perform_all-Refines}

abbrev plain_window : Window
plain_window = record {
  should_close = false;
  loc = origin;
  width = 64;
  height = 64;
  text_grid = λ i. 0;
  cols = 8;
  rows = 3;
  cursor = origin;
  is_dragging = false;
  drag_offset = origin;
}

abbrev empty_desktop : Desktop
empty_desktop = record {
  node = λ p. record { next = null; window = null; prev = null };
  windows = λ w. plain_window;
  head = null;
  tail = null;
  fresh = 1;
}

abbrev empty_screen : Screen
empty_screen = record { order = []; windows = λ w. plain_window }

empty-Shows : Shows empty_desktop empty_screen
unfolding shown has first last_from
empty-Shows = (
  [],
  record {
    head_is = refl;
    tail_is = refl;
    nexts = λ q h. cc;
    prevs = λ q h. cc;
    distinct = tt;
    real = refl;
    below = λ q h. cc;
    few = omega arith;
  },
  refl,
  refl,
  omega arith,
)

abbrev evening : List Action
evening =
    opens 5
    ∷ opens 6
    ∷ opens 7
    ∷ focuses 5
    ∷ changes 6 (record plain_window { should_close = true })
    ∷ cleans
    ∷ []

evening-order : (promise_all evening empty_screen).order ≡ 7 ∷ 5 ∷ []
unfolding promise_all promise keep_open erase has
evening-order = refl

perform_all-Refines_example :
    Refines (perform_all evening empty_desktop) (promise_all evening empty_screen)
perform_all-Refines_example = perform_all-Refines evening empty_desktop empty_screen empty-Shows
