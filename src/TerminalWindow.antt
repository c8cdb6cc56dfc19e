-- ===== src/TerminalWindow.antt =====
-- src/gui/TerminalWindow.cpp: a window that runs the shell.
pub mod Numbers
pub mod Safety
pub mod Typing
mod Tests
use swish_kernel.Prelude.{
  ℕ, zero, suc, ◌+◌, ◌-◌, ◌%◌, Bool, true, List, [], ◌∷◌, ◌&&◌, leb, ◌==◌, if◌then◌else◌, length,
  Res, done, overrun, ◌>>=◌, in_bounds,
}
use swish_kernel.Text.{Bytes}
use swish_kernel.Window.{Window, cell, grid_size, print, new_window}
use swish_kernel.Shell.State.{Session}
use swish_kernel.Shell.{eval_user_input}

-- The C string that `strncpy` of at most `n` bytes reads from the cell `i` on.
unfoldable pub row_text : (ℕ → ℕ) → ℕ → ℕ → Bytes
row_text grid i zero = []
row_text grid i (suc n) =
    let rest = row_text grid (suc i) n in if grid i == 0 then [] else grid i ∷ rest

-- What `command_buffer` holds: the row of the cursor behind the prompt. A prompt wider than the row
-- makes `cols - prompt_len` wrap around, and the copy leaves the buffer.
unfoldable pub command_text : ℕ → Window → Res Bytes
command_text prompt_len w =
    in_bounds (leb prompt_len w.cols && leb (cell w.cols w.cursor.y w) (grid_size w))
      (row_text w.text_grid (cell prompt_len w.cursor.y w) (w.cols - prompt_len))

-- The branch of the enter key: the command runs with this window as its output, which is printed
-- to it here once the command is through.
unfoldable pub on_enter : Bytes → Session → Window → Res (Session × Window)
on_enter prompt s w = do
  command ← command_text (length prompt) w
  moved ← swish_kernel.Window.inject_key 10 w
  (leaves, s') ← eval_user_input command (record s { output = [] })
  shown ← print s'.output moved
  if leaves
      then done (s', record shown { should_close = true })
      else print prompt shown >>= λ ready. done (s', ready)

unfoldable pub inject_key : Bytes → ℕ → Session → Window → Res (Session × Window)
unfolding on_enter
inject_key prompt c s w =
    if c == 10
    then on_enter prompt s w
    else if c == 8 && leb w.cursor.x (length prompt)
    then done (s, w)
    else (swish_kernel.Window.inject_key c w >>= λ w'. done (s, w'))

-- The constructor.
unfoldable pub new_terminal_window : ℕ → ℕ → ℕ → ℕ → Bytes → Res Window
new_terminal_window x y width height prompt = print prompt (new_window x y width height)
