-- ===== src/Vfs/Mount.antt =====
-- `vfs_mount` of src/kernel/fs.cpp, and what `vfs_resolve_path` makes of a mount.
use mathlib.Core.Path.{subst}
use swish_kernel.Prelude.{
  Bool-cases, inl, inr, List, [], ◌∷◌, if◌then◌else◌, some, done, length, ◌<◌, ℕ, ◌≡◌, ◌≢◌, refl,
  sym, ap, ◌∙◌, true, false, not, ◌||◌, arith, ◌==◌, null, ne→beq,
}
use swish_kernel.Text.{Bytes}
use swish_kernel.Vfs.{
  Fs, Body, plain, ram_file, ram_directory, is_directory, update, ram_lookup, vfs_lookup, vfs_mount,
}
use swish_kernel.Vfs.Resolve.{parent_of, enter, is_dot, is_dot_dot, dot_dot, vfs_resolve_path}
use swish_kernel.Vfs.Segments.{AllShort, segments, step, walk}
use swish_kernel.Vfs.Paths.{stops, walk-goes, origin, vfs_resolve_path-walk}
use swish_kernel.Vfs.Split.{Slashless, joined, segments-name, segments-first}
use swish_kernel.Vfs.Flags

beq_refl : (n : ℕ) → (n == n) ≡ true
beq_refl n = ground arith

vfs_mount-refused :
    (m root : ℕ) (fs : Fs)
    → (m == null || root == null) || (not (is_directory root fs) || not (is_directory m fs)) ≡ true
    → vfs_mount m root fs ≡ (false, fs)
unfolding vfs_mount
vfs_mount-refused m root fs h = ground arith

abbrev mounted : ℕ → ℕ → Fs → Fs
mounted m root fs =
    let fs' : Fs =
      update m (record (fs.node m) { flags = Flags.mountpoint; mount_target = root }) fs in
    update root (record (fs'.node root) { parent = m }) fs'

vfs_mount-mounted :
    (m root : ℕ) (fs : Fs)
    → m ≢ null
    → root ≢ null
    → is_directory root fs ≡ true
    → is_directory m fs ≡ true
    → vfs_mount m root fs ≡ (true, mounted m root fs)
unfolding vfs_mount
vfs_mount-mounted m root fs m0 r0 hr hm = rw (ne→beq m0, ne→beq r0, hr, hm)

mounted_point :
    (m root : ℕ) (fs : Fs)
    → m ≢ root
    → (mounted m root fs).node m
      ≡ record (fs.node m) { flags = Flags.mountpoint; mount_target = root }
mounted_point m root fs ne = ground arith

mounted_root :
    (m root : ℕ) (fs : Fs)
    → m ≢ root
    → (mounted m root fs).node root ≡ record (fs.node root) { parent = m }
mounted_root m root fs ne = ground arith

enter-mountpoint :
    (p : ℕ) (fs : Fs)
    → p ≢ null
    → (fs.node p).flags ≡ Flags.mountpoint
    → (fs.node p).mount_target ≢ null
    → enter p fs ≡ (fs.node p).mount_target
unfolding enter
enter-mountpoint p fs p0 hf ht = rw (ne→beq p0, hf, ne→beq ht)

parent_of_mounted :
    (root m : ℕ) (fs : Fs)
    → (fs.node root).parent ≡ m
    → m ≢ null
    → (fs.node m).flags ≡ Flags.mountpoint
    → (fs.node m).mount_target ≡ root
    → parent_of root fs ≡ (if (fs.node m).parent == null then m else (fs.node m).parent)
unfolding parent_of
parent_of_mounted root m fs hp m0 hf ht = elim (Bool-cases ((fs.node m).parent == null)) [
  | inl e ↦ rw (hp, ne→beq m0, hf, ht, beq_refl root, e) refl
  | inr e ↦ rw (hp, ne→beq m0, hf, ht, beq_refl root, e) refl
]

-- A name of less than 128 bytes that a directory can have.
pub record IsStepName (c : ℕ) (name : Bytes) : Type 0 where
  pub slashless : Slashless (c ∷ name)
  pub short : length (c ∷ name) < 128
  pub no_dot : is_dot (c ∷ name) ≡ false
  pub no_dot_dot : is_dot_dot (c ∷ name) ≡ false

ram_lookup-names :
    (items : List ℕ) (s : Bytes) (fs fs' : Fs)
    → ((q : ℕ) → (fs'.node q).name ≡ (fs.node q).name)
    → ram_lookup items s fs' ≡ ram_lookup items s fs
unfolding ram_lookup
ram_lookup-names [] s fs fs' same = refl
ram_lookup-names (c ∷ items) s fs fs' same = rw (same c, ram_lookup-names items s fs fs' same) refl

vfs_lookup-same :
    (b : Body) (p : ℕ) (s : Bytes) (fs fs' : Fs)
    → ((q : ℕ) → (fs'.node q).name ≡ (fs.node q).name)
    → is_directory p fs' ≡ is_directory p fs
    → (fs'.node p).body ≡ b
    → (fs.node p).body ≡ b
    → vfs_lookup p s fs' ≡ vfs_lookup p s fs
unfolding vfs_lookup
vfs_lookup-same plain p s fs fs' names dir e' e = rw (dir, e', e) refl
vfs_lookup-same (ram_file v) p s fs fs' names dir e' e = rw (dir, e', e) refl
vfs_lookup-same (ram_directory v) p s fs fs' names dir e' e =
    rw (dir, e', e, ram_lookup-names v.items s fs fs' names) refl

module _ (m root : ℕ) (fs : Fs) where
  mounted-name : (q : ℕ) → ((mounted m root fs).node q).name ≡ (fs.node q).name
  mounted-name q = ground arith

  mounted-body : (q : ℕ) → ((mounted m root fs).node q).body ≡ (fs.node q).body
  mounted-body q = ground arith

  mounted-is_directory : (q : ℕ) → q ≢ m → is_directory q (mounted m root fs) ≡ is_directory q fs
  mounted-is_directory q qm = ground arith

  mounted-elsewhere :
      (q : ℕ)
      → (mounted m root fs).node q
        ≡ (if q == m || q == root then (mounted m root fs).node q else fs.node q)
  mounted-elsewhere q = ground arith

module _ (m root p c : ℕ) (name : Bytes) (fs : Fs) (ne : m ≢ root) (r0 : root ≢ null)
    (m0 : m ≢ null) (hr : is_directory root fs ≡ true) (p0 : p ≢ null) (pm : p ≢ m)
    (hp : is_directory p fs ≡ true) (found : vfs_lookup p (c ∷ name) fs ≡ m)
    (is : IsStepName c name) where
  onto-root : step (c ∷ name) p (mounted m root fs) ≡ root
  unfolding step
  onto-root =
      let fs' = mounted m root fs in
      let at_m = mounted_point m root fs ne in
      let target : (fs'.node m).mount_target ≡ root = ap (λ n. n.mount_target) at_m in
      let flag : (fs'.node m).flags ≡ Flags.mountpoint = ap (λ n. n.flags) at_m in
      let same =
        vfs_lookup-same (fs.node p).body p (c ∷ name) fs fs' (mounted-name m root fs)
          (mounted-is_directory m root fs p pm) (mounted-body m root fs p) refl
        ∙ found in
      rw (is.no_dot, is.no_dot_dot, same)
        (enter-mountpoint m fs' m0 flag (λ e. r0 (sym target ∙ e)) ∙ target)

  onto-parent :
      step dot_dot root (mounted m root fs)
      ≡ (if (fs.node m).parent == null then m else (fs.node m).parent)
  unfolding step is_dot is_dot_dot
  onto-parent =
      let at_m = mounted_point m root fs ne in
      parent_of_mounted root m (mounted m root fs) (ap (λ n. n.parent) (mounted_root m root fs ne))
        m0 (ap (λ n. n.flags) at_m) (ap (λ n. n.mount_target) at_m)
      ∙ ap (λ n. if n.parent == null then m else n.parent) at_m

  -- The walk along the name, and what follows it.
  walk-root :
      (ss : List Bytes)
      → walk ((c ∷ name) ∷ ss) p (mounted m root fs) ≡ walk ss root (mounted m root fs)
  walk-root ss =
      let fs' = mounted m root fs in
      let goes : stops p fs' ≡ false =
        rw (ne→beq p0, mounted-is_directory m root fs p pm, hp) refl in
      walk-goes (c ∷ name) ss p fs' goes ∙ ap (λ q. walk ss q fs') onto-root

  resolve-name :
      (rest : Bytes)
      → AllShort (segments rest)
      → vfs_resolve_path (some (joined (c ∷ name) rest)) p (mounted m root fs)
        ≡ done (walk (segments rest) root (mounted m root fs))
  resolve-name rest short =
      let fs' = mounted m root fs in
      let names = segments-first (c ∷ name) rest is.slashless (omega arith) in
      vfs_resolve_path-walk c (joined name rest) p fs'
        (subst AllShort (sym names) (is.short, short))
      ∙ ap (λ ss. done (walk ss (origin (c ∷ name) p fs') fs')) names
      ∙ (rw (ne→beq is.slashless.0) (ap done (walk-root (segments rest))))

  resolve-alone : vfs_resolve_path (some (c ∷ name)) p (mounted m root fs) ≡ done root
  unfolding walk
  resolve-alone =
      let fs' = mounted m root fs in
      let names = segments-name (c ∷ name) is.slashless (omega arith) in
      vfs_resolve_path-walk c name p fs' (subst AllShort (sym names) (is.short, record {}))
      ∙ ap (λ ss. done (walk ss (origin (c ∷ name) p fs') fs')) names
      ∙ (rw (ne→beq is.slashless.0) (ap done (walk-root [])))

  resolve-up :
      vfs_resolve_path (some (joined (c ∷ name) dot_dot)) p (mounted m root fs)
      ≡ done (if (fs.node m).parent == null then m else (fs.node m).parent)
  unfolding walk
  resolve-up =
      let fs' = mounted m root fs in
      let up = segments-name dot_dot (omega arith, (omega arith, record {})) (omega arith) in
      let goes : stops root fs' ≡ false =
        rw (ne→beq r0, mounted-is_directory m root fs root (λ e. ne (sym e)), hr) refl in
      resolve-name dot_dot (subst AllShort (sym up) (omega arith, record {}))
      ∙ ap (λ ss. done (walk ss root fs')) up
      ∙ ap done (walk-goes dot_dot [] root fs' goes ∙ onto-parent)

  -- Mounting a directory over another one succeeds. A path whose first name leads from a directory `p` to
  -- the mount point is resolved, from `p`, to the mounted directory if it ends there, and else to what
  -- the rest of it is resolved to from the mounted directory; with ".." behind the name it leads to the
  -- parent of the mount point, or to the mount point if that has no parent. Every node but the mount
  -- point and the mounted directory is as before. The two directories are not the same, the names
  -- have less than 128 bytes, the first one is not "." or "..", the rest does not begin with a slash, and
  -- `p` is not the mount point itself.
  pub vfs_mount_lem :
      (d : ℕ) (rest : Bytes)
      → is_directory m fs ≡ true
      → d ≢ b'/'
      → AllShort (segments (d ∷ rest))
      → ((vfs_mount m root fs).0 ≡ true)
        × (vfs_resolve_path (some (c ∷ name)) p (vfs_mount m root fs).1 ≡ done root)
        × (vfs_resolve_path (some (joined (c ∷ name) (d ∷ rest))) p (vfs_mount m root fs).1
            ≡ vfs_resolve_path (some (d ∷ rest)) root (vfs_mount m root fs).1)
        × (vfs_resolve_path (some (joined (c ∷ name) dot_dot)) p (vfs_mount m root fs).1
            ≡ done (if (fs.node m).parent == null then m else (fs.node m).parent))
        × ((q : ℕ)
            → (vfs_mount m root fs).1.node q
              ≡ (if q == m || q == root then (vfs_mount m root fs).1.node q else fs.node q))
  vfs_mount_lem d rest hm relative short =
      let fs' = mounted m root fs in
      let ahead : vfs_resolve_path (some (d ∷ rest)) root fs'
          ≡ done (walk (segments (d ∷ rest)) root fs') =
        vfs_resolve_path-walk d rest root fs' short
        ∙ ap (λ b. done (walk (segments (d ∷ rest)) (if b then fs'.fs_root else root) fs'))
            (ne→beq relative) in
      rw (vfs_mount-mounted m root fs m0 r0 hr hm) (
        refl,
        resolve-alone,
        resolve-name (d ∷ rest) short ∙ sym ahead,
        resolve-up,
        mounted-elsewhere m root fs,
      )
