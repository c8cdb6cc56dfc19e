-- ===== src/Vfs/Lookup.antt =====
-- `vfs_lookup` and `vfs_add_child` of src/kernel/fs.cpp on the directories of src/kernel/ramfs.cpp.
use swish_kernel.Prelude.{
  ℕ, ◌≡◌, ◌≢◌, refl, ap, ◌∙◌, true, false, arith, List, [], ◌∷◌, ◌++◌, ◌==◌, null, ne→beq,
}
use swish_kernel.Text.{Bytes, string_eq}
use swish_kernel.Vector.{Vector, push_back}
use swish_kernel.Vfs.{
  Fs, ram_directory, is_directory, update, ram_lookup, vfs_lookup, add_child, vfs_add_child,
}

-- No node of the list has the name.
abbrev pub NoneNamed : List ℕ → Bytes → Fs → Type 0
NoneNamed [] name fs = Unit {0}
NoneNamed (c ∷ items) name fs = (string_eq name (fs.node c).name ≡ false) × NoneNamed items name fs

ram_lookup-append :
    (items : List ℕ) (child : ℕ) (name : Bytes) (fs : Fs)
    → NoneNamed items name fs
    → string_eq name (fs.node child).name ≡ true
    → ram_lookup (items ++ child ∷ []) name fs ≡ child
unfolding ram_lookup
ram_lookup-append [] child name fs n h = rw h
ram_lookup-append (c ∷ items) child name fs n h =
    rw n.0 (ram_lookup-append items child name fs n.1 h)

NoneNamed-map :
    (items : List ℕ) (name : Bytes) (fs fs' : Fs)
    → ((q : ℕ) → (fs'.node q).name ≡ (fs.node q).name)
    → NoneNamed items name fs
    → NoneNamed items name fs'
NoneNamed-map [] name fs fs' same n = n
NoneNamed-map (c ∷ items) name fs fs' same n =
    (ap (string_eq name) (same c) ∙ n.0, NoneNamed-map items name fs fs' same n.1)

-- The file system after `vfs_add_child` to a directory with the children `v`.
abbrev pub added : ℕ → ℕ → Vector ℕ → Fs → Fs
added p child v fs =
    let fs' : Fs = update p (record (fs.node p) { body = ram_directory (push_back child v) }) fs in
    update child (record (fs'.node child) { parent = p }) fs'

abbrev with_child : ℕ → ℕ → Vector ℕ → Fs → Fs
with_child p child v fs =
    update p (record (fs.node p) { body = ram_directory (push_back child v) }) fs

add_child-with_child :
    (p child : ℕ) (v : Vector ℕ) (fs : Fs)
    → (fs.node p).body ≡ ram_directory v
    → add_child p child fs ≡ with_child p child v fs
unfolding add_child
add_child-with_child p child v fs b = rw (add_child, b) refl

pub vfs_add_child-added :
    (p child : ℕ) (v : Vector ℕ) (fs : Fs)
    → p ≢ null
    → is_directory p fs ≡ true
    → (fs.node p).body ≡ ram_directory v
    → vfs_add_child p child fs ≡ added p child v fs
unfolding vfs_add_child
vfs_add_child-added p child v fs p0 d b =
    rw (ne→beq p0, d)
      (ap (λ x. update child (record (x.node child) { parent = p }) x)
        (add_child-with_child p child v fs b))

added-name :
    (p child : ℕ) (v : Vector ℕ) (fs : Fs) (q : ℕ)
    → ((added p child v fs).node q).name ≡ (fs.node q).name
added-name p child v fs q = ground arith

pub added-directory :
    (p child : ℕ) (v : Vector ℕ) (fs : Fs)
    → p ≢ child
    → (added p child v fs).node p ≡ record (fs.node p) { body = ram_directory (push_back child v) }
added-directory p child v fs ne = ground arith

pub added-parent :
    (p child : ℕ) (v : Vector ℕ) (fs : Fs) → ((added p child v fs).node child).parent ≡ p
added-parent p child v fs = ground arith

pub vfs_lookup-ram_lookup :
    (p : ℕ) (v : Vector ℕ) (name : Bytes) (fs : Fs)
    → p ≢ null
    → is_directory p fs ≡ true
    → (fs.node p).body ≡ ram_directory v
    → vfs_lookup p name fs ≡ ram_lookup v.items name fs
unfolding vfs_lookup
vfs_lookup-ram_lookup p v name fs p0 d b = rw (ne→beq p0, d, b)

pub push_back-items : (child : ℕ) (v : Vector ℕ) → (push_back child v).items ≡ v.items ++ child ∷ []
unfolding push_back
push_back-items child v = ground arith

-- Once a node is added to a directory that has no child of its name, a lookup of that name in the
-- directory finds the node, and the node's parent is the directory.
pub vfs_lookup-vfs_add_child :
    (p child : ℕ) (v : Vector ℕ) (name : Bytes) (fs : Fs)
    → p ≢ null
    → p ≢ child
    → is_directory p fs ≡ true
    → (fs.node p).body ≡ ram_directory v
    → NoneNamed v.items name fs
    → string_eq name (fs.node child).name ≡ true
    → (vfs_lookup p name (vfs_add_child p child fs) ≡ child)
      × (((vfs_add_child p child fs).node child).parent ≡ p)
vfs_lookup-vfs_add_child p child v name fs p0 ne d b n h =
    let fs' : Fs = added p child v fs in
    let at_p = added-directory p child v fs ne in
    rw (vfs_add_child-added p child v fs p0 d b) (
      vfs_lookup-ram_lookup p (push_back child v) name fs' p0 (ap (λ x. x.flags == 2) at_p ∙ d)
            (ap (λ x. x.body) at_p)
          ∙ ap (λ items. ram_lookup items name fs') (push_back-items child v)
          ∙ ram_lookup-append v.items child name fs'
              (NoneNamed-map v.items name fs fs' (added-name p child v fs) n)
              (ap (string_eq name) (added-name p child v fs child) ∙ h),
      added-parent p child v fs,
    )
