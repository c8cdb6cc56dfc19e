-- ===== src/Kernel/Tests.antt =====
-- Turns of src/main.cpp at concrete states, and the files that it makes.
use swish_kernel.Prelude.{
  ◌≡◌, refl, arith, true, false, [], ◌∷◌, get_or, bytes_of, done, ◌>>=◌, null, write,
}
use swish_kernel.Int.{pos}
use swish_kernel.Text.{Bytes}
use swish_kernel.Text.Compare.{IsProper}
use swish_kernel.RingBuffer.{pop}
use swish_kernel.Vfs.{Fs, plain}
use swish_kernel.Input.{Router, terminal, process_keyboard_events, on_scancode}
use swish_kernel.Input.Line.{cells}
use swish_kernel.Input.Events.{Events, process_events, process_mouse_events}
use swish_kernel.Vfs.{vfs_set_name, vfs_write, vfs_add_child, vfs_read, vfs_mount}
use swish_kernel.Vector.{resize, empty_vector, push_back}
use swish_kernel.Kernel.{boot_files, make_directory, make_test_file, Kernel}
use swish_kernel.Window.{Window, origin}
use swish_kernel.Window.Safety.{OnGrid}
use swish_kernel.Compositor.{Desktop}
use swish_kernel.Compositor.Neighbours.{has, first, last_from}
use swish_kernel.Compositor.Find.{shown}
use swish_kernel.Compositor.Order.{Screen, Shows, Refines, promise}
use swish_kernel.Compositor.Refine.{promise_all}
use swish_kernel.Kernel.{open_windows}
use swish_kernel.Kernel.Windows.{boot_actions, open_windows-Refines}
use swish_kernel.Kernel.Turn.{typed}

abbrev line : Bytes
line = bytes_of "exit"

abbrev pub router : Router
router = record {
  line_ready = false;
  dirty = false;
  has_compositor = true;
  keyboard_state = λ i. record {
    is_down = false;
    ascii_lowercase = 0;
    ascii_uppercase = 0;
    is_printable = false;
  };
  is_extended = false;
  is_caps = false;
  is_shift_active = false;
  is_ctrl_active = false;
  is_alt_active = false;
  mouse_x = 0;
  mouse_y = 0;
  left_button_was_down = false;
  right_button_was_down = false;
  middle_button_was_down = false;
  input_buffer = λ i. get_or line i 0;
  to_input_index = 4;
  input_len = 4;
  active_context = terminal;
  output = [];
  calls = [];
}

-- The scancode of the enter key waits.
abbrev pub events : Events
events = record {
  keyboard = record { buffer = λ i. 28; head = 1; tail = 0 };
  mouse = record {
    buffer = λ i. record { delta_x = pos 0; delta_y = pos 0; buttons = 0 };
    head = 0;
    tail = 0;
  };
  router = router;
}

abbrev no_files : Fs
no_files = record {
  node = λ p. record {
    name = [];
    flags = 0;
    length = 0;
    inode = 0;
    parent = null;
    mount_target = null;
    body = plain;
  };
  fs_root = null;
  fresh = 1;
}

abbrev pub kernel : Kernel
kernel = record {
  events = events;
  session = record {
    home_env = bytes_of "/";
    current_directory = 1;
    fs = no_files;
    output = [];
    gui = false;
  };
}

abbrev entered : Events
entered = record {
  keyboard = record { buffer = λ i. 28; head = 1; tail = 1 };
  mouse = events.mouse;
  router = record router {
    line_ready = true;
    dirty = true;
    keyboard_state =
        write router.keyboard_state 28 (record (router.keyboard_state 28) { is_down = true });
    input_buffer = write router.input_buffer 4 0;
    output = b'\r' ∷ b'\n' ∷ [];
  };
}

enter_pressed : process_events 640 480 events ≡ done entered
unfolding process_events process_keyboard_events process_mouse_events pop on_scancode
enter_pressed = refl

typed-line : typed entered.router ≡ line
unfolding cells
typed-line = refl

typed-IsProper : IsProper (typed entered.router)
unfolding cells
typed-IsProper = (omega arith, (omega arith, (omega arith, (omega arith, tt))))

abbrev blank_window : Window
blank_window = record {
  should_close = false;
  loc = origin;
  width = 64;
  height = 64;
  text_grid = λ i. 0;
  cols = 8;
  rows = 3;
  cursor = origin;
  is_dragging = false;
  drag_offset = origin;
}

abbrev empty_desktop : Desktop
empty_desktop = record {
  node = λ p. record { next = null; window = null; prev = null };
  windows = λ w. blank_window;
  head = null;
  tail = null;
  fresh = 1;
}

abbrev empty_screen : Screen
empty_screen = record { order = []; windows = λ w. blank_window }

empty-Shows : Shows empty_desktop empty_screen
unfolding shown has first last_from
empty-Shows = (
  [],
  record {
    head_is = refl;
    tail_is = refl;
    nexts = λ q h. cc;
    prevs = λ q h. cc;
    distinct = tt;
    real = refl;
    below = λ q h. cc;
    few = omega arith;
  },
  refl,
  refl,
  omega arith,
)

open_windows-Refines_example :
    (w4 : Window) × OnGrid w4
    × Refines
        (open_windows 1280 720 11 12 13 14 empty_desktop)
        (promise_all (boot_actions 1280 720 11 12 13 14 w4) empty_screen)
open_windows-Refines_example =
    open_windows-Refines 1280 720 11 12 13 14 empty_desktop empty_screen (omega arith) (omega arith)
      (omega arith) (omega arith) empty-Shows

boot-order :
    (promise_all (boot_actions 1280 720 11 12 13 14 blank_window) empty_screen).order
    ≡ 11 ∷ 12 ∷ 13 ∷ 14 ∷ []
unfolding promise_all promise
boot-order = refl

-- The text of test.txt, which is the node 2, after the boot.
text_reads :
    (boot_files no_files >>= λ fs. vfs_read 2 0 12 fs) ≡ done (12, bytes_of "Hello VFS!\r\n")
unfolding boot_files make_directory make_test_file vfs_set_name vfs_write vfs_add_child vfs_read
    vfs_mount resize empty_vector push_back
text_reads = refl
