-- ===== src/Vfs/Grown.antt =====
-- A walk in the file system of src/kernel/fs.cpp once a directory has a new child.
use mathlib.Core.Path.{subst}
use swish_kernel.Prelude.{
  ℕ, ◌≡◌, ◌≢◌, refl, sym, ap, ◌∙◌, inl, inr, Bool, true, false, not, ◌||◌, arith, List, [], ◌∷◌,
  ◌++◌, ◌==◌, if◌then◌else◌, null, Bool-cases, beq→eq,
}
use swish_kernel.Text.{Bytes, string_eq}
use swish_kernel.Vector.{Vector, push_back}
use swish_kernel.Vfs.{
  Fs, FsNode, Body, plain, ram_file, ram_directory, is_directory, ram_lookup, vfs_lookup,
}
use swish_kernel.Vfs.Resolve.{parent_of, enter, is_dot, is_dot_dot}
use swish_kernel.Vfs.Segments.{step, walk}
use swish_kernel.Vfs.Paths.{stops, walk-stops, walk-goes}
use swish_kernel.Vfs.Lookup.{vfs_lookup-ram_lookup, push_back-items}

abbrev pub Without : ℕ → List ℕ → Type 0
Without f [] = Unit {0}
Without f (c ∷ items) = (c ≢ f) × Without f items

-- No node leads to the address.
pub record IsFresh (f : ℕ) (fs : Fs) : Type 0 where
  pub not_null : f ≢ null
  pub parent_ne : (q : ℕ) → (fs.node q).parent ≢ f
  pub target_ne : (q : ℕ) → (fs.node q).mount_target ≢ f
  pub child_ne : (q : ℕ) (v : Vector ℕ) → (fs.node q).body ≡ ram_directory v → Without f v.items

-- The directory `p` has got the child `f`, and nothing else has changed but `f` itself.
pub record Grown (f p : ℕ) (v : Vector ℕ) (fs fs' : Fs) : Type 0 where
  pub elsewhere : (q : ℕ) → q ≢ f → q ≢ p → fs'.node q ≡ fs.node q
  pub before : (fs.node p).body ≡ ram_directory v
  pub after : fs'.node p ≡ record (fs.node p) { body = ram_directory (push_back f v) }

abbrev Same : FsNode → FsNode → Type 0
Same n n' =
    (n'.name ≡ n.name)
    × (n'.flags ≡ n.flags)
    × (n'.parent ≡ n.parent)
    × (n'.mount_target ≡ n.mount_target)

vfs_lookup-body :
    (b : Body) (p : ℕ) (s : Bytes) (fs : Fs)
    → (fs.node p).body ≡ b
    → vfs_lookup p s fs ≢ null
    → (v : Vector ℕ) × ((fs.node p).body ≡ ram_directory v)
unfolding vfs_lookup
vfs_lookup-body plain p s fs e n = elim (Bool-cases (stops p fs)) [
  | inl h ↦ absurd (n (rw h refl))
  | inr h ↦ absurd (n (rw (h, e) refl))
]
vfs_lookup-body (ram_file _) p s fs e n = elim (Bool-cases (stops p fs)) [
  | inl h ↦ absurd (n (rw h refl))
  | inr h ↦ absurd (n (rw (h, e) refl))
]
vfs_lookup-body (ram_directory v) p s fs e n = (v, e)

pub if_ne : (b : Bool) {x y f : ℕ} → x ≢ f → y ≢ f → (if b then x else y) ≢ f
if_ne true h k = h
if_ne false h k = k

enter-null : (p : ℕ) (fs : Fs) → p ≡ null → enter p fs ≡ null
unfolding enter
enter-null p fs e = rw e refl

goes-on : (q : ℕ) (fs : Fs) → stops q fs ≡ false → (q ≢ null) × (is_directory q fs ≡ true)
goes-on q fs h = (ground arith, ground arith)

module _ (f : ℕ) (fs fs' : Fs) where
  module _ (same : (q : ℕ) → q ≢ f → Same (fs.node q) (fs'.node q)) where
    ram_lookup-same :
        (items : List ℕ) (s : Bytes)
        → Without f items
        → ram_lookup items s fs' ≡ ram_lookup items s fs
    unfolding ram_lookup
    ram_lookup-same [] s w = refl
    ram_lookup-same (c ∷ items) s w = rw ((same c w.0).0, ram_lookup-same items s w.1) refl

    ram_lookup-longer :
        (items : List ℕ) (s : Bytes)
        → Without f items
        → ram_lookup items s fs ≢ null
        → ram_lookup (items ++ f ∷ []) s fs' ≡ ram_lookup items s fs
    unfolding ram_lookup
    ram_lookup-longer [] s w n = absurd (n refl)
    ram_lookup-longer (c ∷ items) s w n = elim (Bool-cases (string_eq s (fs.node c).name)) [
      | inl hit ↦ rw ((same c w.0).0, hit) refl
      | inr miss ↦ rw ((same c w.0).0, miss) (ram_lookup-longer items s w.1 (rw miss at n))
    ]

  ram_lookup-Without :
      (items : List ℕ) (s : Bytes) → f ≢ null → Without f items → ram_lookup items s fs ≢ f
  unfolding ram_lookup
  ram_lookup-Without [] s f0 w = λ e. f0 (sym e)
  ram_lookup-Without (c ∷ items) s f0 w = elim (Bool-cases (string_eq s (fs.node c).name)) [
    | inl hit ↦ rw hit w.0
    | inr miss ↦ rw miss (ram_lookup-Without items s f0 w.1)
  ]

module _ (f p : ℕ) (v : Vector ℕ) (fs fs' : Fs) (g : Grown f p v fs fs') (new : IsFresh f fs) where
  grown-Same : (q : ℕ) → q ≢ f → Same (fs.node q) (fs'.node q)
  grown-Same q qf = elim (Bool-cases (q == p)) [
    | inl at_p ↦
        subst (λ x. Same (fs.node x) (fs'.node x)) (sym (beq→eq q p at_p))
          (
            ap (λ n. n.name) g.after,
            ap (λ n. n.flags) g.after,
            ap (λ n. n.parent) g.after,
            ap (λ n. n.mount_target) g.after,
          )
    | inr other ↦
        let e = g.elsewhere q qf (ground arith) in
        (ap (λ n. n.name) e, ap (λ n. n.flags) e, ap (λ n. n.parent) e, ap (λ n. n.mount_target) e)
  ]

  enter-grown : (q : ℕ) → q ≢ f → (enter q fs' ≡ enter q fs) × (enter q fs ≢ f)
  unfolding enter
  enter-grown q qf =
      let (_, flags, _, target) = grown-Same q qf in
      (rw (flags, target) refl, if_ne _ (new.target_ne q) qf)

  parent_of-grown : (q : ℕ) → q ≢ f → (parent_of q fs' ≡ parent_of q fs) × (parent_of q fs ≢ f)
  unfolding parent_of
  parent_of-grown q qf =
      let (_, _, up, _) = grown-Same q qf in
      let (_, flags, parent, target) = grown-Same (fs.node q).parent (new.parent_ne q) in
      (
        rw (up, flags, parent, target) refl,
        if_ne _ qf (if_ne _ (new.parent_ne (fs.node q).parent) (new.parent_ne q)),
      )

  stops-grown : (q : ℕ) → q ≢ f → stops q fs' ≡ stops q fs
  stops-grown q qf = ap (λ n. q == null || not (n == 2)) (grown-Same q qf).1

  vfs_lookup-parent :
      (s : Bytes)
      → stops p fs ≡ false
      → vfs_lookup p s fs ≢ null
      → vfs_lookup p s fs' ≡ vfs_lookup p s fs
  vfs_lookup-parent s h n =
      let (p0, dir) = goes-on p fs h in
      let found = vfs_lookup-ram_lookup p v s fs p0 dir g.before in
      vfs_lookup-ram_lookup p (push_back f v) s fs' p0 (ap (λ x. x.flags == 2) g.after ∙ dir)
        (ap (λ x. x.body) g.after)
      ∙ ap (λ items. ram_lookup items s fs') (push_back-items f v)
      ∙ ram_lookup-longer f fs fs' grown-Same v.items s (new.child_ne p v g.before)
          (λ z. n (found ∙ z))
      ∙ sym found

  vfs_lookup-grown :
      (q : ℕ) (s : Bytes)
      → q ≢ f
      → stops q fs ≡ false
      → vfs_lookup q s fs ≢ null
      → (vfs_lookup q s fs' ≡ vfs_lookup q s fs) × (vfs_lookup q s fs ≢ f)
  vfs_lookup-grown q s qf h n =
      let (w, e) = vfs_lookup-body (fs.node q).body q s fs refl n in
      let (q0, dir) = goes-on q fs h in
      let found = vfs_lookup-ram_lookup q w s fs q0 dir e in
      let old = new.child_ne q w e in
      (
        elim (Bool-cases (q == p)) [
          | inl at_p ↦
              let is = beq→eq q p at_p in
              ap (λ x. vfs_lookup x s fs') is
              ∙ vfs_lookup-parent s (ap (λ x. stops x fs) (sym is) ∙ h)
                  (λ z. n (ap (λ x. vfs_lookup x s fs) is ∙ z))
              ∙ ap (λ x. vfs_lookup x s fs) (sym is)
          | inr other ↦
              let node = g.elsewhere q qf (ground arith) in
              vfs_lookup-ram_lookup q w s fs' q0 (ap (λ x. x.flags == 2) node ∙ dir)
                (ap (λ x. x.body) node ∙ e)
              ∙ ram_lookup-same f fs fs' grown-Same w.items s old
              ∙ sym found
        ],
        λ z. ram_lookup-Without f fs fs' w.items s new.not_null old (sym found ∙ z),
      )

  step-grown :
      (q : ℕ) (s : Bytes)
      → q ≢ f
      → stops q fs ≡ false
      → step s q fs ≢ null
      → (step s q fs' ≡ step s q fs) × (step s q fs ≢ f)
  unfolding step
  step-grown q s qf h n = elim (Bool-cases (is_dot s)) [
    | inl d ↦ rw d (refl, qf)
    | inr nd ↦ elim (Bool-cases (is_dot_dot s)) [
      | inl dd ↦ rw (nd, dd) (parent_of-grown q qf)
      | inr ndd ↦
          let found : vfs_lookup q s fs ≢ null =
            λ e. n (rw (nd, ndd) (enter-null (vfs_lookup q s fs) fs e)) in
          let (same, ne) = vfs_lookup-grown q s qf h found in
          rw (nd, ndd, same) (enter-grown (vfs_lookup q s fs) ne)
    ]
  ]

  -- A walk that reached the directory goes on from there.
  pub walk-grown :
      (ss : List Bytes) (base : Bytes) (q : ℕ)
      → q ≢ f
      → stops p fs ≡ false
      → walk ss q fs ≡ p
      → walk (ss ++ base ∷ []) q fs' ≡ step base p fs'
  unfolding walk
  walk-grown [] base q qf goes e =
      walk-goes base [] q fs' (stops-grown q qf ∙ ap (λ x. stops x fs) e ∙ goes)
      ∙ ap (λ x. step base x fs') e
  walk-grown (s ∷ ss) base q qf goes e = elim (Bool-cases (stops q fs)) [
    | inl h ↦ cc (h, goes, ap (λ x. stops x fs) (sym (walk-stops (s ∷ ss) q fs h) ∙ e))
    | inr h ↦
        let onward : walk ss (step s q fs) fs ≡ p = sym (walk-goes s ss q fs h) ∙ e in
        let live : step s q fs ≢ null = λ z.
          let st : stops (step s q fs) fs ≡ true = ap (λ x. stops x fs) z in
          cc (goes, st, ap (λ x. stops x fs) (sym (walk-stops ss (step s q fs) fs st) ∙ onward)) in
        let (same, ne) = step-grown q s qf h live in
        walk-goes s (ss ++ base ∷ []) q fs' (stops-grown q qf ∙ h)
        ∙ ap (λ x. walk (ss ++ base ∷ []) x fs') same
        ∙ walk-grown ss base (step s q fs) ne goes onward
  ]
