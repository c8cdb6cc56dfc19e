-- ===== src/Shell/Room.antt =====
-- What touch and mkdir of src/kernel/Shell.cpp need of a path to go on, and what they then leave.
use swish_kernel.Prelude.{
  ℕ, ◌<◌, ◌≡◌, ◌≢◌, true, false, ◌||◌, ◌∷◌, ◌==◌, if◌then◌else◌, length, null, done,
}
use swish_kernel.Text.{Bytes}
use swish_kernel.Text.Compare.{IsProper}
use swish_kernel.Vector.{Vector}
use swish_kernel.Vfs.{Fs, Body, ram_directory, is_directory, update, new_node, vfs_lookup}
use swish_kernel.Vfs.Resolve.{enter, is_dot, is_dot_dot}
use swish_kernel.Vfs.Segments.{AllShort, segments, step, walk}
use swish_kernel.Vfs.Paths.{origin}
use swish_kernel.Vfs.Lookup.{NoneNamed, added}
use swish_kernel.Vfs.Split.{Slashless}
use swish_kernel.Vfs.Grown.{IsFresh}
use swish_kernel.Shell.State.{Session, Answer}
use swish_kernel.Shell.Builtins.{resolve}

-- A name that a path can end in.
pub record IsName (base : Bytes) : Type 0 where
  pub slashless : Slashless base
  pub proper : IsProper base
  pub named : length base ≢ 0
  pub short : length base < 128
  pub no_dot : is_dot base ≡ false
  pub no_dot_dot : is_dot_dot base ≡ false

-- The path leads to the directory `p` with the children `v`, none of which has the name.
pub record HasRoom (c : ℕ) (dir base : Bytes) (p : ℕ) (v : Vector ℕ) (s : Session) : Type 0 where
  pub proper : IsProper (c ∷ dir)
  pub fits : length (c ∷ dir) < 255
  pub short : AllShort (segments (c ∷ dir))
  pub leads : walk (segments (c ∷ dir)) (origin (c ∷ dir) s.current_directory s.fs) s.fs ≡ p
  pub not_null : p ≢ null
  pub directory : is_directory p s.fs ≡ true
  pub children : (s.fs.node p).body ≡ ram_directory v
  pub unnamed : NoneNamed v.items base s.fs

-- The next address that new answers is one that nothing leads to.
pub record IsNextFresh (p : ℕ) (s : Session) : Type 0 where
  pub fresh : IsFresh s.fs.fresh s.fs
  pub not_root : s.fs.fs_root ≢ s.fs.fresh
  pub not_current : s.current_directory ≢ s.fs.fresh
  pub not_directory : p ≢ s.fs.fresh

-- The new node, and the file system with it as a child of `p`.
abbrev pub made : ℕ → Body → Bytes → Fs → Fs
made flags body base fs =
    let fs1 = (new_node flags body fs).1 in
    update fs.fresh (record (fs1.node fs.fresh) { name = base }) fs1

abbrev pub created : ℕ → Body → Bytes → ℕ → Vector ℕ → Session → Session
created flags body base p v s = record s { fs = added p s.fs.fresh v (made flags body base s.fs) }

pub step-created :
    {base : Bytes} (name : IsName base) (fs : Fs) (p f : ℕ)
    → vfs_lookup p base fs ≡ f
    → enter f fs ≡ f
    → step base p fs ≡ f
unfolding step
step-created name fs p f found entered = rw (name.no_dot, name.no_dot_dot, found) entered

-- The command goes on with a node at the next address that `new` answers, which the path now leads
-- to; the node has the name, and `p` as its parent. Nothing is printed, and only `p` has changed.
abbrev pub Makes : ℕ → Bytes → Bytes → ℕ → Session → Answer → Type 0
Makes flags path base p s r =
    (s' : Session) × (r ≡ done (false, s'))
    × (resolve path s' ≡ done s.fs.fresh)
    × ((s'.fs.node s.fs.fresh).flags ≡ flags)
    × ((s'.fs.node s.fs.fresh).name ≡ base)
    × ((s'.fs.node s.fs.fresh).parent ≡ p)
    × (s'.output ≡ s.output)
    × ((q : ℕ) → s'.fs.node q ≡ (if q == p || q == s.fs.fresh then s'.fs.node q else s.fs.node q))
