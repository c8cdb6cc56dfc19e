-- ===== src/Shell.antt =====
-- src/kernel/Shell.cpp: the table of commands and `Shell::eval_user_input`.
pub mod Room
pub mod Create
pub mod Tokens
pub mod State
pub mod Builtins
pub mod Leave
pub mod Words
mod Tests
use swish_kernel.Prelude.{
  ℕ, ◌+◌, Bool, true, false, List, [], ◌∷◌, ◌++◌, ◌==◌, if◌then◌else◌, length, get_or, bytes_of,
  ◌||◌, Res, done,
}
use swish_kernel.Text.{Bytes, string_eq, string_empty}
use Tokens.{tokens}
use State.{Session, print, end_line, Answer}
use Builtins.{
  stay, builtin_cd, builtin_ls, builtin_cat, builtin_touch, builtin_mkdir, builtin_mount,
  builtin_echo, builtin_display, builtin_exit, complain,
}

pub data Command : Type 0 where
  cd : Command
  ls : Command
  cat : Command
  touch : Command
  mkdir : Command
  mount : Command
  echo : Command
  display : Command
  exit : Command
  help : Command

-- The table, in its order, with each command's name and help text.
abbrev pub commands : List (Bytes × Command × Bytes)
commands =
    (bytes_of "cd", cd, bytes_of "Change directory")
    ∷ (bytes_of "ls", ls, bytes_of "List directory contents")
    ∷ (bytes_of "cat", cat, bytes_of "Display file contents")
    ∷ (bytes_of "touch", touch, bytes_of "Create an empty file")
    ∷ (bytes_of "mkdir", mkdir, bytes_of "Create an empty directory")
    ∷ (bytes_of "mount", mount, bytes_of "Create an empty directory")
    ∷ (bytes_of "echo", echo, bytes_of "Print text to the terminal")
    ∷ (bytes_of "display", display, bytes_of "Switch to the graphical interface")
    ∷ (bytes_of "exit", exit, bytes_of "Exit the shell environment")
    ∷ (bytes_of "help", help, bytes_of "Show this help message")
    ∷ []

unfoldable pub help_lines : List (Bytes × Command × Bytes) → Bytes
help_lines [] = []
help_lines ((name, c, text) ∷ rest) =
    (bytes_of "  " ++ (name ++ (bytes_of " - " ++ (text ++ end_line)))) ++ help_lines rest

pub builtin_help : List Bytes → Session → Answer
builtin_help args s = stay (
    print
      (bytes_of "Type a command `help` for the command's help.\r\nAvailable commands:\r\n"
        ++ help_lines commands)
      s)

-- `command.execute`
unfoldable pub execute : Command → List Bytes → Session → Answer
execute cd = builtin_cd
execute ls = builtin_ls
execute cat = builtin_cat
execute touch = builtin_touch
execute mkdir = builtin_mkdir
execute mount = builtin_mount
execute echo = builtin_echo
execute display = builtin_display
execute exit = builtin_exit
execute help = builtin_help

unfoldable pub known_in : List (Bytes × Command × Bytes) → Bytes → Bool
known_in [] cmd = false
known_in ((name, c, text) ∷ rest) cmd = if string_eq cmd name then true else known_in rest cmd

pub is_shell_builtin : Bytes → Bool
is_shell_builtin = known_in commands

unfoldable pub process_in : List (Bytes × Command × Bytes) → Bytes → List Bytes → Session → Answer
process_in [] cmd args s = stay s
process_in ((name, c, text) ∷ rest) cmd args s =
    if string_eq cmd name then execute c args s else process_in rest cmd args s

pub process_builtin : Bytes → List Bytes → Session → Answer
process_builtin = process_in commands

-- The rest of `Shell::eval_user_input`, on the words of the input.
unfoldable pub eval_words : List Bytes → Session → Answer
unfolding is_shell_builtin process_builtin
eval_words [] s = stay s
eval_words (cmd ∷ rest) s =
    if is_shell_builtin cmd
    then process_builtin cmd (cmd ∷ rest) s
    else stay
        (complain (bytes_of "Command not found or external execution not yet supported: ") cmd s)

pub eval_user_input : Bytes → Session → Answer
eval_user_input raw s = if string_empty raw then stay s else eval_words (tokens raw) s
