-- ===== src/Shell/Create/Tests.antt =====
-- mkdir and touch of src/kernel/Shell.cpp below a home directory.
use mathlib.Core.Path.{subst}
use swish_kernel.Prelude.{
  ℕ, ◌≡◌, refl, ap, arith, inl, inr, Bool-cases, [], ◌∷◌, List, bytes_of, if◌then◌else◌, ◌==◌,
  false,
}
use swish_kernel.Text.{Bytes, string_eq}
use swish_kernel.Vector.{Vector}
use swish_kernel.Vfs.{Fs, FsNode, Body, plain, ram_file, ram_directory, vfs_lookup, ram_lookup}
use swish_kernel.Vfs.Flags
use swish_kernel.Vfs.Resolve.{is_dot, is_dot_dot, enter}
use swish_kernel.Vfs.Segments.{segments, pieces, keep_named, walk, step}
use swish_kernel.Vfs.Grown.{Without}
use swish_kernel.Shell.State.{Session}
use swish_kernel.Shell.Builtins.{builtin_mkdir, builtin_touch}
use swish_kernel.Shell.Create.{builtin_mkdir-Makes}
use swish_kernel.Shell.Room.{IsName, HasRoom, IsNextFresh, Makes}

abbrev directory_with : Bytes → ℕ → List ℕ → FsNode
directory_with name parent items = record {
  name = name;
  flags = Flags.directory;
  length = 0;
  inode = 0;
  parent = parent;
  mount_target = 0;
  body = ram_directory (record { items = items; m_capacity = 4 });
}

-- Node 1 is the root, and 2 is /home.
abbrev files : Fs
files = record {
  node =
      λ q. if q == 1 then directory_with [] 0 (2 ∷ []) else directory_with (bytes_of "home") 1 [];
  fs_root = 1;
  fresh = 3;
}

abbrev session : Session
session = record {
  home_env = bytes_of "/home";
  current_directory = 1;
  fs = files;
  output = [];
  gui = false;
}

items_of : Body → List ℕ
items_of plain = []
items_of (ram_file _) = []
items_of (ram_directory v) = v.items

items-Without : (q : ℕ) → Without 3 (items_of (files.node q).body)
unfolding items_of
items-Without q = elim (Bool-cases (q == 1)) [
  | inl e ↦ rw e (omega arith, record {})
  | inr e ↦ rw e (record {})
]

children-Without :
    (q : ℕ) (v : Vector ℕ) → (files.node q).body ≡ ram_directory v → Without 3 v.items
unfolding items_of
children-Without q v e = subst (Without 3) (ap items_of e) (items-Without q)

new-IsName : IsName (bytes_of "new")
unfolding is_dot is_dot_dot
new-IsName = record {
  slashless = (omega arith, (omega arith, (omega arith, record {})));
  proper = (omega arith, (omega arith, (omega arith, record {})));
  named = omega arith;
  short = omega arith;
  no_dot = refl;
  no_dot_dot = refl;
}

home-HasRoom :
    HasRoom b'h' (bytes_of "ome") (bytes_of "new") 2 (record { items = []; m_capacity = 4 }) session
unfolding segments pieces keep_named walk step is_dot is_dot_dot enter vfs_lookup ram_lookup
    string_eq
home-HasRoom = record {
  proper = (omega arith, (omega arith, (omega arith, (omega arith, record {}))));
  fits = omega arith;
  short = (omega arith, record {});
  leads = refl;
  not_null = omega arith;
  directory = refl;
  children = refl;
  unnamed = record {};
}

next-IsNextFresh : IsNextFresh 2 session
next-IsNextFresh = record {
  fresh = record {
    not_null = omega arith;
    parent_ne = λ q. ground arith;
    target_ne = λ q. ground arith;
    child_ne = children-Without;
  };
  not_root = omega arith;
  not_current = omega arith;
  not_directory = omega arith;
}

builtin_mkdir-Makes_example :
    Makes 2
      (bytes_of "home/new")
      (bytes_of "new")
      2
      session
      (builtin_mkdir (bytes_of "mkdir" ∷ bytes_of "home/new" ∷ []) session)
    × Makes 1
        (bytes_of "home/new")
        (bytes_of "new")
        2
        session
        (builtin_touch (bytes_of "mkdir" ∷ bytes_of "home/new" ∷ []) session)
builtin_mkdir-Makes_example =
    builtin_mkdir-Makes (bytes_of "mkdir") b'h' (bytes_of "ome") (bytes_of "new") 2
      (record { items = []; m_capacity = 4 }) session new-IsName home-HasRoom next-IsNextFresh
