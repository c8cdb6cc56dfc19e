-- ===== src/Vfs.antt =====
-- The virtual file system: include/kernel/fs.hpp, src/kernel/fs.cpp, include/kernel/ramfs.hpp and
-- src/kernel/ramfs.cpp. Nodes live in a store, and a node pointer is their address, 0 `nullptr`.
pub mod Named
pub mod Resolve
pub mod Segments
pub mod Split
pub mod Grown
pub mod Flags
pub mod Paths
pub mod Mount
pub mod Files
pub mod Lookup
mod Tests
use swish_kernel.Prelude.{
  ℕ, zero, suc, ◌+◌, ◌-◌, ◌%◌, ◌^◌, ◌≤◌, Bool, true, false, not, ◌&&◌, ◌||◌, Option, none, some,
  List, [], ◌∷◌, ◌++◌, ltb, leb, ◌==◌, if◌then◌else◌, length, get_elem?, get_or, take, drop, null,
  write, Res, done, overrun, out_of_fuel, ◌>>=◌, in_bounds, fueled,
}
use swish_kernel.Vector.{Vector, size, push_back, resize, empty_vector}
use Flags
use swish_kernel.Text.{Bytes, c_string, strncpy_array, string_eq}

-- The classes of nodes, with what each adds to `FSNode`.
pub data Body : Type 0 where
  plain : Body
  ram_file : Vector ℕ → Body
  ram_directory : Vector ℕ → Body

-- `name` is the C string in the array of 128 bytes.
pub record FsNode : Type 0 where
  pub name : Bytes
  pub flags : ℕ
  pub length : ℕ
  pub inode : ℕ
  pub parent : ℕ
  pub mount_target : ℕ
  pub body : Body

pub record Dirent : Type 0 where
  pub inode : ℕ
  pub type : ℕ
  pub name : Bytes

-- `fresh` is the address that the next `new` answers.
pub record Fs : Type 0 where
  pub node : ℕ → FsNode
  pub fs_root : ℕ
  pub fresh : ℕ

abbrev pub name_size : ℕ
name_size = 128

abbrev pub update : ℕ → FsNode → Fs → Fs
update p n fs = record fs { node = write fs.node p n }

abbrev pub is_directory : ℕ → Fs → Bool
is_directory p fs = (fs.node p).flags == Flags.directory

-- `FSNode::set_name` copies the string and its NUL.
unfoldable pub set_name : ℕ → Bytes → Fs → Res Fs
set_name p new_name fs =
    in_bounds (leb (length new_name + 1) name_size)
      (update p (record (fs.node p) { name = new_name }) fs)

unfoldable pub vfs_set_name : ℕ → Bytes → Fs → Res Fs
unfolding set_name
vfs_set_name p name fs = if p == null then done fs else set_name p name fs

-- uint32_t addition
abbrev pub add32 : ℕ → ℕ → ℕ
add32 a b = (a + b) % 2 ^ 32

-- `RamFSFile::read`, with the number of bytes that it answers and the bytes.
pub ram_read : ℕ → Vector ℕ → ℕ → ℕ → Res (ℕ × Bytes)
ram_read len file_data offset count =
    if leb len offset
    then done (0, [])
    else let read_size : ℕ = if ltb len (add32 offset count) then len - offset else count in
      in_bounds (leb (offset + read_size) (size file_data))
        (read_size, take read_size (drop offset file_data.items))

unfoldable pub vfs_read : ℕ → ℕ → ℕ → Fs → Res (ℕ × Bytes)
unfolding ram_read
vfs_read p offset count fs = if p == null then done (0, []) else elim (fs.node p).body [
  | ram_file file_data ↦ ram_read (fs.node p).length file_data offset count
  | _ ↦ done (0, [])
]

-- `xs` with the bytes from `offset` on overwritten.
abbrev pub splice : Bytes → ℕ → Bytes → Bytes
splice xs offset new = take offset xs ++ (new ++ drop (offset + length new) xs)

-- `RamFSFile::write`, with the new length and data.
pub ram_write : ℕ → Vector ℕ → ℕ → Bytes → Res (ℕ × Vector ℕ)
ram_write len file_data offset new = do
  let end = add32 offset (length new)
  v ← fueled (if ltb len end then resize 0 end file_data else some file_data)
  in_bounds (leb (offset + length new) (size v))
      (if ltb len end then end else len, record v { items = splice v.items offset new })

unfoldable pub vfs_write : ℕ → ℕ → Bytes → Fs → Res (ℕ × Fs)
unfolding ram_write
vfs_write p offset new fs = if p == null then done (0, fs) else elim (fs.node p).body [
  | ram_file file_data ↦ do
    (len, v) ← ram_write (fs.node p).length file_data offset new
    done (length new, update p (record (fs.node p) { length = len; body = ram_file v }) fs)
  | _ ↦ done (0, fs)
]

unfoldable pub vfs_readdir : ℕ → ℕ → Fs → Option Dirent
vfs_readdir p index fs =
    if p == null || not (is_directory p fs) then none else elim (fs.node p).body [
      | ram_directory children ↦ elim (get_elem? children.items index) [
        | none ↦ none
        | some child ↦ some (record {
          inode = (fs.node child).inode;
          type = (fs.node child).flags;
          name = (fs.node child).name;
        })
      ]
      | _ ↦ none
    ]

-- `RamFSDirectory::lookup`, over the children.
unfoldable pub ram_lookup : List ℕ → Bytes → Fs → ℕ
ram_lookup [] search_name fs = null
ram_lookup (child ∷ rest) search_name fs =
    if string_eq search_name (fs.node child).name then child else ram_lookup rest search_name fs

unfoldable pub vfs_lookup : ℕ → Bytes → Fs → ℕ
vfs_lookup p search_name fs =
    if p == null || not (is_directory p fs) then null else elim (fs.node p).body [
      | ram_directory children ↦ ram_lookup children.items search_name fs
      | _ ↦ null
    ]

-- `add_child` of the node's class.
pub add_child : ℕ → ℕ → Fs → Fs
add_child p child fs = elim (fs.node p).body [
  | ram_directory children ↦
      update p (record (fs.node p) { body = ram_directory (push_back child children) }) fs
  | _ ↦ fs
]

unfoldable pub vfs_add_child : ℕ → ℕ → Fs → Fs
unfolding add_child
vfs_add_child p child fs =
    if p == null || not (is_directory p fs)
    then fs
    else let fs' : Fs = add_child p child fs in
      update child (record (fs'.node child) { parent = p }) fs'

-- `new RamFSFile()` and `new RamFSDirectory()`.
abbrev pub new_node : ℕ → Body → Fs → ℕ × Fs
new_node flags body fs = (
  fs.fresh,
  record fs {
    node = write fs.node fs.fresh (record {
      name = [];
      flags = flags;
      length = 0;
      inode = 0;
      parent = null;
      mount_target = null;
      body = body;
    });
    fresh = suc fs.fresh;
  },
)

abbrev pub new_file : Fs → ℕ × Fs
new_file = new_node Flags.file (ram_file empty_vector)

abbrev pub new_directory : Fs → ℕ × Fs
new_directory = new_node Flags.directory (ram_directory empty_vector)

unfoldable pub vfs_mount : ℕ → ℕ → Fs → Bool × Fs
vfs_mount mountpoint new_fs_root fs =
    if mountpoint == null || new_fs_root == null
    then (false, fs)
    else if not (is_directory new_fs_root fs)
    then (false, fs)
    else if not (is_directory mountpoint fs)
    then (false, fs)
    else let fs' : Fs =
        update mountpoint
          (record (fs.node mountpoint) { flags = Flags.mountpoint; mount_target = new_fs_root })
          fs in
      (true, update new_fs_root (record (fs'.node new_fs_root) { parent = mountpoint }) fs')
