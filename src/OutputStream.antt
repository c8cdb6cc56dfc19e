-- ===== src/OutputStream.antt =====
-- include/kernel/OutputStream.hpp, and its two classes: src/terminal.cpp writes to the terminal emulator,
-- src/gui/TerminalWindow.cpp to the text grid of a window.
pub mod Laws
use swish_kernel.Prelude.{ℕ, Bool, not, ◌&&◌, [], ◌∷◌, ◌++◌, if◌then◌else◌, Res, done, ◌>>=◌}
use swish_kernel.Int.{ℤ}
use swish_kernel.Text.{Bytes, string_empty}
use swish_kernel.Window.{Window, inject_key, print}
use swish_kernel.TerminalWindow.Numbers.{int_text}

-- The virtual operators on a C string, on a `String` and on a character. Strings hold no NUL.
pub record OutputStream (S : Type 0) : Type 0 where
  pub put_text : Bytes → S → Res S
  pub put_string : Bytes → S → Res S
  pub put_char : ℕ → S → Res S

-- The characters of a text, one after another.
unfoldable pub put_all : {S : Type 0} → OutputStream S → Bytes → S → Res S
put_all stream [] s = done s
put_all stream (c ∷ text) s = stream.put_char c s >>= put_all stream text

-- The operator on a number, which both classes write out in the same way.
pub put_int : {S : Type 0} → OutputStream S → ℤ → S → Res S
put_int stream num s = int_text num >>= λ text. put_all stream text s

-- A `Terminal`: whether it is initialized, and what went to the emulator.
pub record Terminal : Type 0 where
  pub has_context : Bool
  pub written : Bytes

-- `flanterm_write` on an initialized terminal.
abbrev pub flanterm_write : Bytes → Terminal → Terminal
flanterm_write text t = if t.has_context then record t { written = t.written ++ text } else t

pub terminal_stream : OutputStream Terminal
terminal_stream = record {
  put_text = λ text t. done (flanterm_write text t);
  put_string = λ text t.
      done (if t.has_context && not (string_empty text) then flanterm_write text t else t);
  put_char = λ c t. done (flanterm_write (c ∷ []) t);
}

pub window_stream : OutputStream Window
window_stream = record { put_text = print; put_string = print; put_char = inject_key }
