-- ===== src/Kernel/Loop/Tests.antt =====
-- A turn of src/main.cpp in the graphical context in which a key is pressed and the mouse moves.
use swish_kernel.Prelude.{
  refl, arith, ◌≡◌, true, false, [], ◌∷◌, done, write, ◌==◌, inl, inr, Bool-cases,
}
use swish_kernel.Int.{pos}
use swish_kernel.RingBuffer.{pop}
use swish_kernel.Window.{Window, on_mouse_move}
use swish_kernel.Window.Typing.{after_char}
use swish_kernel.Window
use swish_kernel.Input.{Router, gui, key, on_scancode, mouse_move, process_keyboard_events}
use swish_kernel.Input.MouseEvents.{on_mouse}
use swish_kernel.Input.Events.{Events, process_events, process_mouse_events}
use swish_kernel.Compositor.Order.{Screen, promise, top}
use swish_kernel.Render.Shows.{AllFit}
use swish_kernel.Render.Tests.{
  desktop, stack, desktop-Shows, scene, framebuffer, same_shape, small_window, all_fit,
}
use swish_kernel.Kernel.{Kernel}
use swish_kernel.Kernel.Tests.{kernel, router}
use swish_kernel.Kernel.Gui.{plain, promise_calls, promise_call}
use swish_kernel.Kernel.Loop.{System, turn, Pictured, turn-Pictured}

abbrev at_work : Router
at_work = record router {
  active_context = gui;
  mouse_x = 300;
  mouse_y = 200;
  keyboard_state = λ i. record {
    is_down = false;
    ascii_lowercase = b'a';
    ascii_uppercase = b'A';
    is_printable = true;
  };
}

-- The scancode of the key A and a move by 20 to the right and 10 down wait.
abbrev machine : System
machine = record {
  kernel = record kernel {
    events = record {
      keyboard = record { buffer = λ i. 30; head = 1; tail = 0 };
      mouse = record {
        buffer = λ i. record { delta_x = pos 20; delta_y = pos 10; buttons = 0 };
        head = 1;
        tail = 0;
      };
      router = at_work;
    };
  };
  kinds = λ w. plain;
  desktop = desktop;
  scene = scene;
  terminal_buffer = framebuffer;
  framebuffer = framebuffer;
}

abbrev moved : Events
moved = record machine.kernel.events {
  keyboard = record { buffer = λ i. 30; head = 1; tail = 1 };
  mouse = record {
    buffer = λ i. record { delta_x = pos 20; delta_y = pos 10; buttons = 0 };
    head = 1;
    tail = 1;
  };
  router = record at_work {
    mouse_x = 320;
    mouse_y = 210;
    keyboard_state =
        write at_work.keyboard_state 30 (record (at_work.keyboard_state 30) { is_down = true });
    dirty = true;
    calls = key b'a' ∷ mouse_move 320 210 ∷ [];
  };
}

mouse_moved : process_events 640 480 machine.kernel.events ≡ done moved
unfolding process_events process_keyboard_events process_mouse_events pop on_mouse on_scancode
    swish_kernel.Input.Keys.determine_case
mouse_moved = refl

abbrev typed_window : Window
typed_window = after_char b'a' small_window

abbrev typed_stack : Screen
typed_stack = record {
  order = 5 ∷ [];
  windows = write (write (λ w. small_window) 5 typed_window) 5 typed_window;
}

typed_calls :
    promise_calls machine.kinds moved.router.calls machine.kernel.session stack
    ≡ done (machine.kernel.session, typed_stack)
unfolding promise_calls promise_call promise top swish_kernel.Kernel.Gui.promise_key
    swish_kernel.Kernel.Gui.window_key swish_kernel.Window.inject_key swish_kernel.Window.advance
    swish_kernel.Window.on_mouse_move swish_kernel.Window.scroll_forward
    swish_kernel.Window.type_char
typed_calls = refl

typed_fit : AllFit typed_stack scene
typed_fit w h = elim (Bool-cases (5 == w)) [
  | inl e ↦ rw e (all_fit w h)
  | inr e ↦ rw e (all_fit w h)
]

turn-Pictured_example :
    Pictured
      (λ index cx. 255)
      machine
      moved.router
      machine.kernel.session
      typed_stack
      (turn (λ index cx. 255) 640 480 machine)
turn-Pictured_example =
    turn-Pictured (λ index cx. 255) machine stack 640 640 480 moved machine.kernel.session
      typed_stack desktop-Shows mouse_moved refl typed_calls same_shape (omega arith) typed_fit
      (omega arith) (omega arith)
