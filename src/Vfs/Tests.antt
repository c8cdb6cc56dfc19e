-- ===== src/Vfs/Tests.antt =====
-- A file system as the kernel builds it: a root with the directories bin and mnt, and a disk.
use swish_kernel.Prelude.{
  ℕ, ◌||◌, ◌≡◌, refl, true, [], ◌∷◌, some, arith, bytes_of, if◌then◌else◌, ◌==◌, done,
}
use swish_kernel.Text.{Bytes, string_eq}
use swish_kernel.Vector.{Vector}
use swish_kernel.Vfs.{
  Fs, FsNode, ram_directory, ram_file, vfs_write, vfs_mount, vfs_lookup, vfs_add_child, update,
  ram_lookup,
}
use swish_kernel.Vfs.Resolve.{vfs_resolve_path, enter, parent_of, is_dot, is_dot_dot}
use swish_kernel.Vfs.Flags
use swish_kernel.Vfs.Files.{Stored, vfs_write-Stored}
use swish_kernel.Vfs.Paths.{origin, vfs_resolve_path-walk}
use swish_kernel.Vfs.Segments.{AllShort, step, pieces, keep_named, segments, walk}
use swish_kernel.Vfs.Lookup.{vfs_lookup-vfs_add_child}
use swish_kernel.Vfs.Mount.{IsStepName, vfs_mount_lem}

abbrev directory_node : Bytes → ℕ → Vector ℕ → FsNode
directory_node name parent children = record {
  name = name;
  flags = Flags.directory;
  length = 0;
  inode = 0;
  parent = parent;
  mount_target = 0;
  body = ram_directory children;
}

-- Node 1 is the root, 2 is /bin, 3 is /mnt, 4 the root of another file system.
abbrev sample_node : ℕ → FsNode
sample_node p =
    if p == 1
    then directory_node [] 0 (record { items = 2 ∷ 3 ∷ []; m_capacity = 2 })
    else if p == 2
    then directory_node (bytes_of "bin") 1 (record { items = []; m_capacity = 0 })
    else if p == 3
    then directory_node (bytes_of "mnt") 1 (record { items = []; m_capacity = 0 })
    else directory_node [] 0 (record { items = []; m_capacity = 0 })

abbrev sample : Fs
sample = record { node = sample_node; fs_root = 1; fresh = 5 }

abbrev path : Bytes
path = bytes_of "/bin/..//mnt/./"

path_short : AllShort (segments path)
unfolding segments pieces keep_named
path_short = (omega arith, (omega arith, (omega arith, (omega arith, record {}))))

vfs_resolve_path-walk_example :
    vfs_resolve_path (some path) 2 sample
    ≡ done (walk (segments path) (origin path 2 sample) sample)
vfs_resolve_path-walk_example =
    vfs_resolve_path-walk b'/' (bytes_of "bin/..//mnt/./") 2 sample path_short

path-walk : walk (segments path) (origin path 2 sample) sample ≡ 3
unfolding walk segments pieces keep_named step is_dot is_dot_dot parent_of enter vfs_lookup
    ram_lookup string_eq
path-walk = refl

mnt-IsStepName : IsStepName b'm' (bytes_of "nt")
unfolding is_dot is_dot_dot
mnt-IsStepName = record {
  slashless = (omega arith, (omega arith, (omega arith, record {})));
  short = omega arith;
  no_dot = refl;
  no_dot_dot = refl;
}

mnt_found : vfs_lookup 1 (bytes_of "mnt") sample ≡ 3
unfolding vfs_lookup ram_lookup string_eq
mnt_found = refl

inner_short : AllShort (segments (bytes_of "x/y"))
unfolding segments pieces keep_named
inner_short = (omega arith, (omega arith, record {}))

vfs_mount_lem_example :
    ((vfs_mount 3 4 sample).0 ≡ true)
    × (vfs_resolve_path (some (bytes_of "mnt")) 1 (vfs_mount 3 4 sample).1 ≡ done 4)
    × (vfs_resolve_path (some (bytes_of "mnt/x/y")) 1 (vfs_mount 3 4 sample).1
        ≡ vfs_resolve_path (some (bytes_of "x/y")) 4 (vfs_mount 3 4 sample).1)
    × (vfs_resolve_path (some (bytes_of "mnt/..")) 1 (vfs_mount 3 4 sample).1 ≡ done 1)
    × ((q : ℕ)
        → (vfs_mount 3 4 sample).1.node q
          ≡ (if q == 3 || q == 4 then (vfs_mount 3 4 sample).1.node q else sample.node q))
vfs_mount_lem_example =
    vfs_mount_lem 3 4 1 b'm' (bytes_of "nt") sample (omega arith) (omega arith) (omega arith) refl
      (omega arith) (omega arith) refl mnt_found mnt-IsStepName b'x' (bytes_of "/y") refl
      (omega arith) inner_short

-- The same, with a node 6 named disk that no directory has.
abbrev with_file : Fs
with_file =
    update 6 (directory_node (bytes_of "disk") 0 (record { items = []; m_capacity = 0 })) sample

disk_name : string_eq (bytes_of "disk") (with_file.node 6).name ≡ true
unfolding string_eq
disk_name = refl

vfs_lookup-vfs_add_child_example :
    (vfs_lookup 3 (bytes_of "disk") (vfs_add_child 3 6 with_file) ≡ 6)
    × (((vfs_add_child 3 6 with_file).node 6).parent ≡ 3)
vfs_lookup-vfs_add_child_example =
    vfs_lookup-vfs_add_child 3 6 (record { items = []; m_capacity = 0 }) (bytes_of "disk") with_file
      (omega arith) (omega arith) refl refl (record {}) disk_name

-- An empty file, written behind its end.
abbrev with_text : Fs
with_text =
    update 7
      (record (sample_node 4) {
        flags = Flags.file;
        body = ram_file (record { items = []; m_capacity = 0 });
      })
      sample

vfs_write-Stored_example :
    Stored 7 [] 2 (bytes_of "text") with_text (vfs_write 7 2 (bytes_of "text") with_text)
vfs_write-Stored_example =
    vfs_write-Stored 7 2 (bytes_of "text") with_text (record { items = []; m_capacity = 0 })
      (omega arith) refl (refl, omega arith) (omega arith) (omega arith)
