-- ===== src/Shell/Create.antt =====
-- The commands touch and mkdir of src/kernel/Shell.cpp on a path of a directory and a new name.
mod Tests
use mathlib.Core.Path.{subst}
use swish_kernel.Prelude.{
  ℕ, suc, ◌+◌, ◌-◌, ◌<◌, ◌≤◌, ◌≡◌, ◌≢◌, refl, sym, ap, ◌∙◌, inl, inr, Bool, true, false, not, ◌||◌,
  arith, Option, none, some, List, [], ◌∷◌, ◌++◌, ltb, leb, ◌==◌, if◌then◌else◌, length, null,
  bytes_of, done, Bool-cases, ne→beq, Res, write, overrun, ◌>>=◌,
}
use swish_kernel.Text.{Bytes, string_eq, c_string, strncpy_array}
use swish_kernel.Text.Compare.{IsProper, string_eq_refl, c_string-strncpy_array}
use swish_kernel.Vector.{Vector, push_back, empty_vector}
use swish_kernel.Vfs.{
  Fs, FsNode, Body, ram_directory, ram_file, is_directory, update, new_node, set_name, vfs_set_name,
  ram_lookup, vfs_lookup, vfs_add_child,
}
use swish_kernel.Vfs.Flags
use swish_kernel.Vfs.Resolve.{enter, is_dot, is_dot_dot, vfs_split_path, vfs_resolve_path}
use swish_kernel.Vfs.Segments.{AllShort, segments, step, walk}
use swish_kernel.Vfs.Paths.{stops, origin, vfs_resolve_path-walk}
use swish_kernel.Vfs.Lookup.{
  NoneNamed, added, vfs_add_child-added, added-directory, added-parent, vfs_lookup-ram_lookup,
  vfs_lookup-vfs_add_child,
}
use swish_kernel.Vfs.Split.{
  Slashless, joined, segments-joined, vfs_split_path-joined, c_string-terminated,
}
use swish_kernel.Vfs.Grown.{Without, IsFresh, Grown, if_ne, walk-grown}
use swish_kernel.Shell.State.{Session, Answer, end_line}
use swish_kernel.Shell.Builtins.{
  resolve, stay, create_one, create_all, builtin_mkdir, builtin_touch,
}
use swish_kernel.Vfs.Named.{
  ram_lookup-none, NoneNamed-elsewhere, AllShort-append, vfs_set_name-named, enter-plain,
}
use swish_kernel.Shell.Room.{IsName, HasRoom, IsNextFresh, made, created, step-created, Makes}

module _ (flags : ℕ) (body : Body) (c : ℕ) (dir base : Bytes) (p : ℕ) (v : Vector ℕ) (s : Session)
    (name : IsName base) (room : HasRoom c dir base p v s) (next : IsNextFresh p s) where
  made-elsewhere : (q : ℕ) → q ≢ s.fs.fresh → (made flags body base s.fs).node q ≡ s.fs.node q
  made-elsewhere q ne = ground arith

  made-name : ((made flags body base s.fs).node s.fs.fresh).name ≡ base
  made-name = ground arith

  made-directory : (made flags body base s.fs).node p ≡ s.fs.node p
  made-directory = made-elsewhere p next.not_directory

  made-is_directory : is_directory p (made flags body base s.fs) ≡ true
  made-is_directory = ap (λ n. n.flags == 2) made-directory ∙ room.directory

  made-children : ((made flags body base s.fs).node p).body ≡ ram_directory v
  made-children = ap (λ n. n.body) made-directory ∙ room.children

  vfs_add_child-made :
      vfs_add_child p s.fs.fresh (made flags body base s.fs)
      ≡ added p s.fs.fresh v (made flags body base s.fs)
  vfs_add_child-made =
      vfs_add_child-added p s.fs.fresh v (made flags body base s.fs) room.not_null made-is_directory
        made-children

  resolve-parent : resolve (c ∷ dir) s ≡ done p
  resolve-parent =
      vfs_resolve_path-walk c dir s.current_directory s.fs room.short ∙ ap done room.leads

  vfs_lookup-unnamed : vfs_lookup p base s.fs ≡ null
  vfs_lookup-unnamed =
      vfs_lookup-ram_lookup p v base s.fs room.not_null room.directory room.children
      ∙ ram_lookup-none v.items base s.fs room.unnamed

  create_one-created :
      (present : Bytes → Bytes)
      → create_one (new_node flags body) present (joined (c ∷ dir) base) s
        ≡ done (created flags body base p v s)
  unfolding create_one
  create_one-created present =
      rw
        (
          vfs_split_path-joined c dir base name.slashless room.fits,
          c_string-terminated (c ∷ dir) room.proper,
          resolve-parent,
          ne→beq room.not_null,
          room.directory,
          c_string-strncpy_array base 128 name.proper name.short,
          vfs_lookup-unnamed,
          vfs_set_name-named s.fs.fresh base (new_node flags body s.fs).1 next.fresh.not_null
              name.short,
          vfs_add_child-made,
        )
        refl

  created-Grown : Grown s.fs.fresh p v s.fs (created flags body base p v s).fs
  created-Grown = record {
    elsewhere = λ q qf qp. ground arith;
    before = room.children;
    after =
        added-directory p s.fs.fresh v (made flags body base s.fs) next.not_directory
        ∙ ap (λ (n : FsNode). record n { body = ram_directory (push_back s.fs.fresh v) })
            made-directory;
  }

  created-node :
      (((created flags body base p v s).fs.node s.fs.fresh).flags ≡ flags)
      × (((created flags body base p v s).fs.node s.fs.fresh).name ≡ base)
      × (((created flags body base p v s).fs.node s.fs.fresh).parent ≡ p)
  created-node = (ground arith, ground arith, ground arith)

  created-elsewhere :
      (q : ℕ)
      → (created flags body base p v s).fs.node q ≡ (
          if q == p || q == s.fs.fresh
          then (created flags body base p v s).fs.node q
          else s.fs.node q)
  created-elsewhere q = ground arith

  vfs_lookup-created : vfs_lookup p base (created flags body base p v s).fs ≡ s.fs.fresh
  vfs_lookup-created =
      let f = s.fs.fresh in
      let fs2 = made flags body base s.fs in
      ap (vfs_lookup p base) (sym (vfs_add_child-made))
      ∙ (vfs_lookup-vfs_add_child p f v base fs2 room.not_null next.not_directory made-is_directory
          made-children
          (NoneNamed-elsewhere v.items f base s.fs fs2 made-elsewhere
            (next.fresh.child_ne p v room.children) room.unnamed)
          (ap (string_eq base) made-name ∙ string_eq_refl base)).0

  resolve-created :
      (flags == Flags.mountpoint) ≡ false
      → resolve (joined (c ∷ dir) base) (created flags body base p v s) ≡ done s.fs.fresh
  resolve-created plain =
      let f = s.fs.fresh in
      let fs' = (created flags body base p v s).fs in
      let names = segments-joined (c ∷ dir) base name.slashless name.named in
      let start = origin (c ∷ dir) s.current_directory s.fs in
      let old : start ≢ f = if_ne (c == b'/') next.not_root next.not_current in
      let on : stops p s.fs ≡ false = rw (ne→beq room.not_null, room.directory) refl in
      let entered : enter f fs' ≡ f = enter-plain f fs' (ap (λ n. n == 7) created-node.0 ∙ plain) in
      vfs_resolve_path-walk c (joined dir base) s.current_directory fs' (
        subst AllShort (sym names)
          (AllShort-append (segments (c ∷ dir)) base room.short name.short))
      ∙ ap (λ ss. done (walk ss start fs')) names
      ∙ ap done (
          walk-grown f p v s.fs fs' created-Grown next.fresh (segments (c ∷ dir)) base start old on
            room.leads
          ∙ step-created name fs' p f vfs_lookup-created entered)

  created-Makes :
      (r : Answer)
      → (flags == Flags.mountpoint) ≡ false
      → r ≡ done (false, created flags body base p v s)
      → Makes flags (joined (c ∷ dir) base) base p s r
  created-Makes r plain run =
      let (kind, called, above) = created-node in
      (
        created flags body base p v s,
        run,
        resolve-created plain,
        kind,
        called,
        above,
        refl,
        created-elsewhere,
      )

-- mkdir and touch of a path of a directory and a name that no child of it has return, without an
-- output: a new directory, or a new file, is then at the next address that `new` answers, and the path
-- leads to it; it has the name, and the directory is its parent; no other node but the directory has
-- changed. The path before the name has less than 255 bytes, the names less than 128; the name is
-- neither "." nor "..", and nothing led to the next address before.
pub builtin_mkdir-Makes :
    (cmd : Bytes) (c : ℕ) (dir base : Bytes) (p : ℕ) (v : Vector ℕ) (s : Session)
    → IsName base
    → HasRoom c dir base p v s
    → IsNextFresh p s
    → Makes Flags.directory
        (joined (c ∷ dir) base)
        base
        p
        s
        (builtin_mkdir (cmd ∷ joined (c ∷ dir) base ∷ []) s)
      × Makes Flags.file
          (joined (c ∷ dir) base)
          base
          p
          s
          (builtin_touch (cmd ∷ joined (c ∷ dir) base ∷ []) s)
unfolding builtin_mkdir builtin_touch create_all
builtin_mkdir-Makes cmd c dir base p v s name room next = (
  created-Makes Flags.directory (ram_directory empty_vector) c dir base p v s name room next
      (builtin_mkdir (cmd ∷ joined (c ∷ dir) base ∷ []) s) refl
      (ap (λ (r : Res Session). r >>= (λ t. done t) >>= stay)
        (create_one-created Flags.directory (ram_directory empty_vector) c dir base p v s name room
          next (λ arg. arg ++ (bytes_of " already exists" ++ end_line)))),
  created-Makes Flags.file (ram_file empty_vector) c dir base p v s name room next
      (builtin_touch (cmd ∷ joined (c ∷ dir) base ∷ []) s) refl
      (ap (λ (r : Res Session). r >>= (λ t. done t) >>= stay)
        (create_one-created Flags.file (ram_file empty_vector) c dir base p v s name room next
          (λ arg. []))),
)
