-- ===== src/Shell/Builtins.antt =====
-- The built-in commands of src/kernel/Shell.cpp. A command's `args` hold its name first.
use swish_kernel.Prelude.{
  ℕ, zero, suc, Bool, true, false, not, ◌&&◌, ◌||◌, none, some, List, [], ◌∷◌, ◌++◌, ltb, ◌==◌,
  if◌then◌else◌, length, get_or, drop, null, bytes_of, Res, done, overrun, out_of_fuel, ◌>>=◌,
  in_bounds,
}
use swish_kernel.Text.{Bytes, c_string}
use swish_kernel.Vector.{size}
use swish_kernel.Vfs.Flags
use swish_kernel.Vfs.{
  Fs, vfs_readdir, vfs_read, vfs_lookup, vfs_set_name, vfs_add_child, vfs_mount, new_file,
  new_directory, add32, ram_directory,
}
use swish_kernel.Vfs.Resolve.{vfs_resolve_path, vfs_split_path}
use swish_kernel.Shell.State.{Session, print, end_line, set_current_directory, Answer}

abbrev pub resolve : Bytes → Session → Res ℕ
resolve path s = vfs_resolve_path (some path) s.current_directory s.fs

abbrev pub has_flags : ℕ → ℕ → Session → Bool
has_flags node flags s = (s.fs.node node).flags == flags

abbrev pub stay : Session → Answer
stay s = done (false, s)

-- A message about `arg`, on a line of its own.
abbrev pub complain : Bytes → Bytes → Session → Session
complain message arg s = print (message ++ (arg ++ end_line)) s

abbrev pub no_such_file : Bytes
no_such_file = bytes_of "No such file or directory: "

-- The loop of `list_directory` from the entry `index` on.
unfoldable pub list_entries : ℕ → ℕ → ℕ → Session → Res Session
list_entries zero index node s = out_of_fuel
list_entries (suc fuel) index node s = elim (vfs_readdir node index s.fs) [
  | none ↦ done (if index == 0 then s else print end_line s)
  | some entry ↦ list_entries fuel (suc index) node (
      print (entry.name ++ ((if entry.type == Flags.directory then b'/' ∷ [] else []) ++ b' ' ∷ []))
        s)
]

unfoldable pub children_count : ℕ → Session → ℕ
children_count node s = elim (s.fs.node node).body [
  | ram_directory children ↦ size children
  | _ ↦ 0
]

-- `list_directory`, with one round for each child and one more.
pub list_directory : ℕ → Session → Res Session
list_directory node s = list_entries (suc (children_count node s)) 0 node s

-- `cd`: without an argument to the home directory, else to the argument.
pub change_to : ℕ → Bytes → Bytes → Session → Session
change_to dir missing wrong s =
    if dir == null
    then print missing s
    else if not (has_flags dir Flags.directory s)
    then print wrong s
    else set_current_directory dir s

unfoldable pub builtin_cd : List Bytes → Session → Answer
unfolding change_to
builtin_cd args s =
    if ltb 2 (length args)
    then stay s
    else if length args == 1
    then (resolve s.home_env s >>= λ dir. stay (
        change_to dir (bytes_of "Could not resolve home directory.\r\n")
          (bytes_of "Home directory is not a directory.\r\n") s))
    else let arg = get_or args 1 [] in
      (resolve arg s >>= λ existing. stay (
        change_to existing (no_such_file ++ (arg ++ end_line))
          (bytes_of "Not a directory: " ++ (arg ++ end_line)) s))

-- One argument of `ls`; `more` tells whether another one follows.
unfoldable pub ls_one : Bytes → Bool → Session → Res Session
ls_one arg more s = do
  existing ← resolve arg s
  if existing == null then done (complain no_such_file arg s) else do
    shown ←
        if has_flags existing Flags.file s
        then done (print (arg ++ end_line) s)
        else if has_flags existing Flags.directory s
        then list_directory existing (print (arg ++ (bytes_of ": " ++ end_line)) s)
        else done s
    done (if more then print end_line shown else shown)

unfoldable pub ls_all : List Bytes → Session → Res Session
ls_all [] s = done s
ls_all (arg ∷ rest) s = ls_one arg (not (length rest == 0)) s >>= ls_all rest

unfoldable pub builtin_ls : List Bytes → Session → Answer
builtin_ls args s = do
  listed ← if length args == 1 then list_directory s.current_directory s else done s
  shown ← ls_all (drop 1 args) listed
  stay shown

-- One argument of `cat`. The buffer has room for the file and a NUL, and is printed as a C string.
unfoldable pub cat_one : Bytes → Session → Res Session
cat_one arg s = do
  file ← resolve arg s
  if file == null
      then done (complain no_such_file arg s)
      else if not (has_flags file Flags.file s)
      then done (complain (bytes_of "Not a file: ") arg s)
      else let len = (s.fs.node file).length in
        do
          (count, content) ← vfs_read file 0 len s.fs
          buffer ← in_bounds (count == len && ltb len (add32 len 1)) (content ++ 0 ∷ [])
          text ← c_string buffer
          done (print text s)

unfoldable pub cat_all : List Bytes → Session → Res Session
cat_all [] s = done s
cat_all (arg ∷ rest) s = cat_one arg s >>= cat_all rest

unfoldable pub builtin_cat : List Bytes → Session → Answer
builtin_cat args s = cat_all (drop 1 args) s >>= stay

-- The common part of `touch` and `mkdir`: `make` is `new RamFSFile()` or `new RamFSDirectory()`,
-- `present` what is printed where the name is taken.
unfoldable pub create_one : (Fs → ℕ × Fs) → (Bytes → Bytes) → Bytes → Session → Res Session
create_one make present arg s = do
  (dirname, basename) ← elim (vfs_split_path arg 256 128) [
    | none ↦ overrun
    | some arrays ↦ done arrays
  ]
  dir ← c_string dirname
  parent ← resolve dir s
  if parent == null || not (has_flags parent Flags.directory s)
      then done (complain (bytes_of "No such directory: ") dir s)
      else do
        base ← c_string basename
        if not (vfs_lookup parent base s.fs == null)
            then done (print (present arg) s)
            else let made = make s.fs in
              do
                named ← vfs_set_name made.0 base made.1
                done (record s { fs = vfs_add_child parent made.0 named })

unfoldable pub create_all : (Fs → ℕ × Fs) → (Bytes → Bytes) → List Bytes → Session → Res Session
create_all make present [] s = done s
create_all make present (arg ∷ rest) s =
    create_one make present arg s >>= create_all make present rest

unfoldable pub builtin_touch : List Bytes → Session → Answer
builtin_touch args s = create_all new_file (λ arg. []) (drop 1 args) s >>= stay

unfoldable pub builtin_mkdir : List Bytes → Session → Answer
builtin_mkdir args s =
    create_all new_directory (λ arg. arg ++ (bytes_of " already exists" ++ end_line)) (drop 1 args)
      s
    >>= stay

unfoldable pub builtin_mount : List Bytes → Session → Answer
builtin_mount args s =
    if ltb (length args) 3 then stay (print (bytes_of "Not enough arguments\r\n") s) else do
      source_node ← resolve (get_or args 1 []) s
      if source_node == null then stay (complain no_such_file (get_or args 1 []) s) else do
        target_node ← resolve (get_or args 2 []) s
        if target_node == null
            then stay (complain no_such_file (get_or args 2 []) s)
            else if source_node == target_node
            then stay (print (bytes_of "Cannot mount to self yet\r\n") s)
            else stay (record s { fs = (vfs_mount target_node source_node s.fs).1 })

-- The words behind the name, a space after each but the last. Without arguments the last one is the
-- name itself.
unfoldable pub echo_words : List Bytes → Bytes
echo_words [] = []
echo_words (w ∷ []) = w ++ end_line
echo_words (w ∷ (v ∷ rest)) = w ++ (b' ' ∷ echo_words (v ∷ rest))

unfoldable pub builtin_echo : List Bytes → Session → Answer
builtin_echo [] s = stay s
builtin_echo (cmd ∷ []) s = stay (print (echo_words (cmd ∷ [])) s)
builtin_echo (cmd ∷ (w ∷ rest)) s = stay (print (echo_words (w ∷ rest)) s)

-- `Input::switch_to_gui`
abbrev pub builtin_display : List Bytes → Session → Answer
builtin_display args s = stay (record s { gui = true })

abbrev pub builtin_exit : List Bytes → Session → Answer
builtin_exit args s = done (true, s)
