-- ===== src/Vfs/Resolve.antt =====
-- The paths of src/kernel/fs.cpp: `vfs_resolve_path` and `vfs_split_path`.
use swish_kernel.Prelude.{
  ℕ, zero, suc, ◌-◌, Bool, not, ◌&&◌, ◌||◌, Option, none, some, [], ◌∷◌, ◌++◌, ltb, leb, ◌==◌,
  if◌then◌else◌, length, get_or, drop, null, Res, done, overrun, out_of_fuel,
}
use swish_kernel.Vfs.Flags
use swish_kernel.Text.{Bytes, strncpy_array}
use swish_kernel.Vfs.{Fs, name_size, is_directory, vfs_lookup}

-- `while (*path == '/') path++`
unfoldable pub skip_slashes : Bytes → Bytes
skip_slashes [] = []
skip_slashes (c ∷ path) = if c == b'/' then skip_slashes path else c ∷ path

-- The bytes up to the next slash, and what follows.
unfoldable pub take_segment : Bytes → Bytes × Bytes
take_segment [] = ([], [])
take_segment (c ∷ path) =
    let (segment, rest) = take_segment path in
    if c == b'/' then ([], c ∷ path) else (c ∷ segment, rest)

abbrev pub dot : Bytes
dot = b'.' ∷ []

abbrev pub dot_dot : Bytes
dot_dot = b'.' ∷ b'.' ∷ []

-- The node that ".." leads to.
unfoldable pub parent_of : ℕ → Fs → ℕ
parent_of current fs =
    let up = (fs.node current).parent in
    if up == null
    then current
    else if (fs.node up).flags == Flags.mountpoint
        && ((fs.node up).mount_target == current && not ((fs.node up).parent == null))
    then (fs.node up).parent
    else up

-- A mount point that is entered stands for the root mounted on it.
unfoldable pub enter : ℕ → Fs → ℕ
enter p fs =
    if not (p == null)
      && ((fs.node p).flags == Flags.mountpoint && not ((fs.node p).mount_target == null))
    then (fs.node p).mount_target
    else p

unfoldable pub is_dot : Bytes → Bool
is_dot s = length s == 1 && get_or s 0 0 == b'.'

unfoldable pub is_dot_dot : Bytes → Bool
is_dot_dot s = length s == 2 && (get_or s 0 0 == b'.' && get_or s 1 0 == b'.')

-- The loop of `vfs_resolve_path`. The segment has an array of 128 bytes, its NUL included.
unfoldable pub resolve_loop : ℕ → Bytes → ℕ → Fs → Res ℕ
resolve_loop zero path current fs = out_of_fuel
resolve_loop (suc fuel) path current fs =
    let (segment, behind) = take_segment path in
    let rest = skip_slashes behind in
    let stay = resolve_loop fuel rest current fs in
    let up = resolve_loop fuel rest (parent_of current fs) fs in
    let down = resolve_loop fuel rest (enter (vfs_lookup current segment fs) fs) fs in
    if current == null || not (is_directory current fs)
    then done current
    else if leb name_size (length segment)
    then overrun
    else if is_dot segment
    then stay
    else if is_dot_dot segment
    then up
    else if length segment == 0
    then done current
    else down

-- `none` is the null pointer for `path`. One round for each byte and one more are enough.
unfoldable pub vfs_resolve_path : Option Bytes → ℕ → Fs → Res ℕ
vfs_resolve_path none cwd fs = done null
vfs_resolve_path (some []) cwd fs = done null
vfs_resolve_path (some (c ∷ path)) cwd fs =
    if c == b'/'
    then resolve_loop (suc (suc (length path))) (skip_slashes path) fs.fs_root fs
    else resolve_loop (suc (suc (length path))) (c ∷ path) cwd fs

-- The scan from the end for the last slash among the first `n` bytes.
unfoldable pub last_slash : Bytes → ℕ → Option ℕ
last_slash path zero = none
last_slash path (suc i) = if get_or path i 0 == b'/' then some i else last_slash path i

-- The two arrays that `vfs_split_path` fills; `none` leaves them as they were.
unfoldable pub vfs_split_path : Bytes → ℕ → ℕ → Option (Bytes × Bytes)
unfolding last_slash
vfs_split_path path dir_max base_max =
    if dir_max == 0 || base_max == 0 then none else elim (last_slash path (length path)) [
      | none ↦ some (strncpy_array dot dir_max, strncpy_array path base_max)
      | some zero ↦ some (strncpy_array (b'/' ∷ []) dir_max, strncpy_array (drop 1 path) base_max)
      | some (suc i) ↦
          let copy_len : ℕ = if ltb (suc i) (dir_max - 1) then suc i else dir_max - 1 in
          some (
            strncpy_array path copy_len ++ 0 ∷ [],
            strncpy_array (drop (suc (suc i)) path) base_max,
          )
    ]
