-- ===== src/Render/Tests.antt =====
-- A desktop with one window, rendered by src/gui/Compositor.cpp.
use swish_kernel.Prelude.{ℕ, ◌*◌, refl, arith, false, true, [], ◌∷◌, bytes_of, null}
use swish_kernel.Graphics.{Surface, opaque}
use swish_kernel.Window.{Window, origin}
use swish_kernel.Compositor.{Desktop}
use swish_kernel.Compositor.Neighbours.{has, first, last_from, next_in, prev_in}
use swish_kernel.Compositor.Find.{shown}
use swish_kernel.Compositor.Order.{Screen, Shows}
use swish_kernel.Render.{Scene, render}
use swish_kernel.Render.Swap.{IsBuffer}
use swish_kernel.Render.Click.{Answered, Settled, render-Answered}
use swish_kernel.Render.Shows.{AllFit, Displayed, render-Displayed}

abbrev pub small_window : Window
small_window = record {
  should_close = false;
  loc = record { x = 100; y = 50 };
  width = 64;
  height = 48;
  text_grid = λ i. 0;
  cols = 8;
  rows = 2;
  cursor = origin;
  is_dragging = false;
  drag_offset = origin;
}

abbrev pub desktop : Desktop
desktop = record {
  node = λ p. record { next = null; window = 5; prev = null };
  windows = λ w. small_window;
  head = 1;
  tail = 1;
  fresh = 2;
}

abbrev pub stack : Screen
stack = record { order = 5 ∷ []; windows = λ w. small_window }

abbrev surface_at : ℕ → ℕ → ℕ → Surface
surface_at buffer width height = record {
  pixels = λ p. 0;
  buffer = buffer;
  width = width;
  height = height;
  pitch = width * 4;
  background = opaque 0 100 150;
}

abbrev pub scene : Scene
scene = record {
  titles = λ w. bytes_of "Terminal";
  surfaces = λ w. surface_at 65536 64 48;
  screen = surface_at 1048576 640 480;
}

pub desktop-Shows : Shows desktop stack
unfolding shown has first last_from next_in prev_in
desktop-Shows = (
  1 ∷ [],
  record {
    head_is = refl;
    tail_is = refl;
    nexts = λ q h. ground arith;
    prevs = λ q h. ground arith;
    distinct = (refl, tt);
    real = refl;
    below = λ q h. ground arith;
    few = omega arith;
  },
  refl,
  refl,
  omega arith,
)

abbrev pub framebuffer : Surface
framebuffer = surface_at 4194304 640 480

pub same_shape : IsBuffer 640 framebuffer scene.screen
same_shape = record {
  framebuffer_ok = (omega arith, omega arith, omega arith, omega arith);
  from_ok = (omega arith, omega arith, omega arith, omega arith);
  same_width = refl;
  same_height = refl;
  pitch = refl;
  same_pitch = refl;
}

pub all_fit : AllFit stack scene
all_fit w h =
    (((omega arith, omega arith, omega arith, omega arith), refl), (omega arith, omega arith))

render-Displayed_example :
    Displayed
      (λ index cx. 255)
      stack
      scene
      320
      240
      framebuffer
      (render (λ index cx. 255) 320 240 true desktop scene framebuffer framebuffer)
render-Displayed_example =
    render-Displayed (λ index cx. 255) 320 240 desktop scene stack framebuffer framebuffer 640
      desktop-Shows same_shape (omega arith) all_fit (omega arith) (omega arith)

settled : Settled stack scene 120 60
settled w h = ((refl, refl, omega arith, omega arith), refl)

render-Answered_example :
    Answered
      (λ index cx. 255)
      stack
      scene
      120
      60
      true
      framebuffer
      (render (λ index cx. 255) 120 60 true desktop scene framebuffer framebuffer)
render-Answered_example =
    render-Answered (λ index cx. 255) 120 60 true desktop scene stack framebuffer framebuffer 640
      desktop-Shows same_shape (omega arith) all_fit settled (omega arith) (omega arith)
      (omega arith) (omega arith)
