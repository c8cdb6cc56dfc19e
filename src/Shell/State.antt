-- ===== src/Shell/State.antt =====
-- What the built-in commands of src/kernel/Shell.cpp act on.
use swish_kernel.Prelude.{ℕ, Bool, ◌++◌, ◌∷◌, ◌==◌, if◌then◌else◌, null, Res, []}
use swish_kernel.Text.{Bytes}
use swish_kernel.Vfs.{Fs}

-- `home_env` and `current_directory` of the `Shell`, the file system, what was written to the
-- output stream, and whether `Input` shows the graphical context.
pub record Session : Type 0 where
  pub home_env : Bytes
  pub current_directory : ℕ
  pub fs : Fs
  pub output : Bytes
  pub gui : Bool

abbrev pub print : Bytes → Session → Session
print text s = record s { output = s.output ++ text }

abbrev pub end_line : Bytes
end_line = b'\r' ∷ b'\n' ∷ []

-- `Shell::set_current_directory`
pub set_current_directory : ℕ → Session → Session
set_current_directory node s = if node == null then s else record s { current_directory = node }

-- The answer of a command: whether the shell is to exit, and the session after it.
abbrev pub Answer : Type 0
Answer = Res (Bool × Session)
