-- ===== src/TerminalWindow/Tests.antt =====
-- A number, and a command typed in a window, as in src/gui/TerminalWindow.cpp.
use swish_kernel.Prelude.{◌≡◌, refl, arith, true, false, done, [], ◌∷◌, bytes_of, get_or, null}
use swish_kernel.Int.{negsuc}
use swish_kernel.Window.{Window}
use swish_kernel.Shell.{eval_user_input}
use swish_kernel.Shell.State.{Session}
use swish_kernel.Vfs.{plain}
use swish_kernel.TerminalWindow.{inject_key}
use swish_kernel.TerminalWindow.Numbers.{int_text, value, int_text-value}
use swish_kernel.TerminalWindow.Safety.{Reacted}
use swish_kernel.TerminalWindow.Typing.{type_keys, type_keys-Reacted}

least_number : int_text (negsuc 9223372036854775807) ≡ done (b'-' ∷ [])
unfolding int_text swish_kernel.TerminalWindow.Numbers.digits_loop
least_number = refl

-- A window of 8 by 3 cells with the prompt "$ ".
abbrev window : Window
window = record {
  should_close = false;
  loc = record { x = 0; y = 0 };
  width = 64;
  height = 64;
  text_grid = λ i. get_or (bytes_of "$ ") i 0;
  cols = 8;
  rows = 3;
  cursor = record { x = 2; y = 0 };
  is_dragging = false;
  drag_offset = record { x = 0; y = 0 };
}

abbrev session : Session
session = record {
  home_env = bytes_of "/";
  current_directory = 1;
  fs = record {
    node = λ p. record {
      name = [];
      flags = 0;
      length = 0;
      inode = 0;
      parent = null;
      mount_target = null;
      body = plain;
    };
    fs_root = null;
    fresh = 1;
  };
  output = [];
  gui = true;
}

type_keys-Reacted_example :
    (w' : Window) × (type_keys (bytes_of "$ ") (bytes_of "exit") session window
      ≡ done (session, w'))
    × Reacted
        (eval_user_input (bytes_of "exit") (record session { output = [] }))
        w'
        (inject_key (bytes_of "$ ") 10 session w')
type_keys-Reacted_example =
    type_keys-Reacted (bytes_of "$ ") (bytes_of "exit") session window
      ((
        omega arith,
        omega arith,
        omega arith,
        (
          omega arith,
          omega arith,
          omega arith,
          (omega arith, omega arith, omega arith, (omega arith, omega arith, omega arith, tt)),
        ),
      ))
      (omega arith) (omega arith, omega arith, omega arith, λ e. omega (arith, e)) refl refl
      (omega arith)
