-- ===== src/Kernel.antt =====
-- `_start` of src/main.cpp: the windows and the file system that it makes, and its main loop.
pub mod Boot
pub mod Gui
pub mod Loop
pub mod Turn
pub mod Windows
pub mod Tests
use swish_kernel.Prelude.{
  ℕ, zero, suc, ◌+◌, ◌-◌, ◌*◌, ◌/◌, ◌%◌, Bool, true, false, not, ◌&&◌, List, [], ◌∷◌, ◌++◌, ◌==◌,
  if◌then◌else◌, bytes_of, null, size_mod, length, Res, done, out_of_fuel, ◌>>=◌,
}
use swish_kernel.Text.{Bytes, c_string}
use swish_kernel.Window.{Window, new_window}
use swish_kernel.TerminalWindow.{new_terminal_window}
use swish_kernel.Compositor.{Desktop, add_window, set_window}
use swish_kernel.Vfs.{
  Fs, new_directory, new_file, vfs_set_name, vfs_write, vfs_add_child, vfs_mount,
}
use swish_kernel.Shell.{eval_user_input}
use swish_kernel.Shell.State.{Session, set_current_directory}
use swish_kernel.Input.{Router, DisplayContext, terminal, gui, in_terminal, fetch_line}
use swish_kernel.Input.Events.{Events, process_events, flush_terminal_updates}

-- The windows that `_start` makes on a frame buffer of `width` by `height` pixels.
pub window1 : ℕ → ℕ → Window
window1 width height = new_window (width / 8) (height / 8) 400 300

pub window2 : ℕ → ℕ → Window
window2 width height = new_window (width / 4) (height / 4) 350 250

pub window3 : ℕ → ℕ → Window
window3 width height = new_window (width / 2) (height / 3) 300 200

unfoldable pub window4 : ℕ → ℕ → Res Window
window4 width height =
    let x : ℕ = width / 8 in
    let y : ℕ = height / 7 in
    new_terminal_window x y (x * (8 - 2) % size_mod) (y * (7 - 2) % size_mod) (bytes_of "window4> ")

-- The calls of `add_window`; `p1` to `p4` are the addresses of the windows.
unfoldable pub open_windows : ℕ → ℕ → ℕ → ℕ → ℕ → ℕ → Desktop → Res Desktop
open_windows width height p1 p2 p3 p4 d = do
  w4 ← window4 width height
  done (
      add_window p4 (
        add_window p3 (
          add_window p2 (
            add_window p1 (
              set_window p4 w4 (
                set_window p3 (window3 width height) (
                  set_window p2 (window2 width height)
                    (set_window p1 (window1 width height) d))))))))

-- A new directory with a name.
unfoldable pub make_directory : Bytes → Fs → Res (ℕ × Fs)
make_directory name fs =
    let made = new_directory fs in vfs_set_name made.0 name made.1 >>= λ fs'. done (made.0, fs')

-- test.txt with its text.
unfoldable pub make_test_file : Fs → Res (ℕ × Fs)
make_test_file fs = do
  let made = new_file fs
  named ← vfs_set_name made.0 (bytes_of "test.txt") made.1
  written ← vfs_write made.0 0 (bytes_of "Hello VFS!\r\n") named
  done (made.0, written.1)

-- The files that `_start` makes.
unfoldable pub boot_files : Fs → Res Fs
boot_files fs = do
  (root_dir, fs1) ← make_directory (bytes_of "/") fs
  (test_file, fs2) ← make_test_file (record fs1 { fs_root = root_dir })
  (mnt_node, fs3) ← make_directory (bytes_of "mnt") (vfs_add_child root_dir test_file fs2)
  (second_root_dir, fs4) ← make_directory (bytes_of "second") (vfs_add_child root_dir mnt_node fs3)
  done (vfs_mount mnt_node second_root_dir fs4).1

-- What the main loop acts on. The output of the router is all that was written to the terminal.
pub record Kernel : Type 0 where
  pub events : Events
  pub session : Session

abbrev pub max_line_len : ℕ
max_line_len = 1024

-- The shell writes to the output of the router, and `display` sets its context.
abbrev pub to_session : Router → Session → Session
to_session r s = record s { output = r.output; gui = not (in_terminal r) }

abbrev pub from_session : Session → Router → Router
from_session s r = record r { output = s.output; active_context = if s.gui then gui else terminal }

abbrev pub with_router : Router → Session → Kernel → Kernel
with_router r s k = record { events = record k.events { router = r }; session = s }

-- The name of the directory in which the shell is, in its prompt.
abbrev pub prompt : Session → Bytes
prompt s = bytes_of "user@kernel:" ++ ((s.fs.node s.current_directory).name ++ bytes_of "$ ")

-- A line that is ready: whether the shell is to exit, and the kernel after it.
unfoldable pub run_line : Kernel → Res (Bool × Kernel)
run_line k = do
  let (buffer, r) = fetch_line max_line_len k.events.router
  line ← c_string buffer
  (leaves, s) ← eval_user_input line (to_session r k.session)
  done (
      if leaves
      then (true, with_router (from_session s r) s k)
      else let s' : Session = record s { output = s.output ++ prompt s } in
        (false, with_router (flush_terminal_updates (from_session s' r)) s' k))

-- The updates that are left at the end of a turn in the terminal.
abbrev pub flush_rest : Kernel → Kernel
flush_rest k =
    if k.events.router.dirty
    then with_router (flush_terminal_updates k.events.router) k.session k
    else k

-- A turn of the main loop behind the events, in the context of the terminal: whether the loop ends, and
-- the kernel after the turn. In the graphical context nothing but the windows changes.
unfoldable pub terminal_turn : Kernel → Res (Bool × Kernel)
terminal_turn k =
    if not (in_terminal k.events.router)
    then done (false, k)
    else if k.events.router.line_ready
    then (run_line k >>= λ x. done (x.0, if x.0 then x.1 else flush_rest x.1))
    else done (false, flush_rest k)
