-- ===== src/Vfs/Paths.antt =====
-- `vfs_resolve_path` of src/kernel/fs.cpp against a walk along the segments of a path.
use mathlib.Core.Path.{subst}
use swish_kernel.Prelude.{
  ℕ, zero, suc, ◌<◌, ◌≡◌, ◌≢◌, refl, sym, ap, ◌∙◌, inl, inr, Bool, true, false, not, ◌||◌, some,
  List, [], ◌∷◌, arith, leb, ◌==◌, if◌then◌else◌, length, null, done, Bool-cases, ne→beq,
}
use swish_kernel.Text.{Bytes}
use swish_kernel.Vfs.{Fs, is_directory, name_size}
use swish_kernel.Vfs.Resolve.{
  skip_slashes, take_segment, is_dot, is_dot_dot, resolve_loop, vfs_resolve_path,
}
use swish_kernel.Vfs.Segments.{
  segments, step, walk, AllShort, segments-slash, segments-skip_slashes, take_segment_length,
  skip_slashes-le, Rest, Advanced, skip_slashes-Advanced, segments-nil, segments_first,
  take_segment_named,
}

abbrev pub stops : ℕ → Fs → Bool
stops p fs = p == null || not (is_directory p fs)

pub walk-stops : (ss : List Bytes) (p : ℕ) (fs : Fs) → stops p fs ≡ true → walk ss p fs ≡ p
unfolding walk
walk-stops [] p fs h = refl
walk-stops (s ∷ ss) p fs h = rw h

pub walk-goes :
    (s : Bytes) (ss : List Bytes) (p : ℕ) (fs : Fs)
    → stops p fs ≡ false
    → walk (s ∷ ss) p fs ≡ walk ss (step s p fs) fs
unfolding walk
walk-goes s ss p fs h = rw h

resolve_stops :
    (fuel : ℕ) (path : Bytes) (p : ℕ) (fs : Fs)
    → stops p fs ≡ true
    → resolve_loop (suc fuel) path p fs ≡ done p
unfolding resolve_loop
resolve_stops fuel path p fs h = rw h

resolve_goes :
    (fuel : ℕ) (path : Bytes) (p : ℕ) (fs : Fs)
    → stops p fs ≡ false
    → length (take_segment path).0 < name_size
    → length (take_segment path).0 ≢ 0
    → resolve_loop (suc fuel) path p fs
      ≡ resolve_loop fuel (Rest path) (step (take_segment path).0 p fs) fs
unfolding resolve_loop step
resolve_goes fuel path p fs h short named =
    let fits : leb name_size (length (take_segment path).0) ≡ false = ground arith in
    elim (Bool-cases (is_dot (take_segment path).0)) [
      | inl d ↦ rw (h, fits, d)
      | inr nd ↦ elim (Bool-cases (is_dot_dot (take_segment path).0)) [
        | inl dd ↦ rw (h, fits, nd, dd)
        | inr ndd ↦ rw (h, fits, nd, ndd, ne→beq named)
      ]
    ]

resolve_ends : (fuel p : ℕ) (fs : Fs) → resolve_loop (suc fuel) [] p fs ≡ done p
unfolding resolve_loop take_segment is_dot is_dot_dot
resolve_ends fuel p fs = elim (Bool-cases (stops p fs)) [ inl h ↦ rw h | inr h ↦ rw h ]

resolve_loop-walk :
    (fuel : ℕ) (path : Bytes) (current : ℕ) (fs : Fs)
    → Advanced path
    → length path < fuel
    → AllShort (segments path)
    → resolve_loop fuel path current fs ≡ done (walk (segments path) current fs)
resolve_loop-walk zero path current fs a enough short = absurd (omega arith)
resolve_loop-walk (suc fuel) [] current fs a enough short =
    resolve_ends fuel current fs
    ∙ sym (ap (λ ss. done (walk ss current fs)) segments-nil ∙ unfold walk in refl)
resolve_loop-walk (suc fuel) (c ∷ path) current fs a enough short =
    let named = take_segment_named c path a in
    let first = segments_first (c ∷ path) named in
    let short' : AllShort ((take_segment (c ∷ path)).0 ∷ segments (Rest (c ∷ path))) =
      subst AllShort first short in
    let shorter : length (Rest (c ∷ path)) < fuel =
      omega (arith, skip_slashes-le (take_segment (c ∷ path)).1, take_segment_length (c ∷ path)) in
    rw first (elim (Bool-cases (stops current fs)) [
      | inl h ↦
          resolve_stops fuel (c ∷ path) current fs h
          ∙ ap done (
              sym (
                walk-stops ((take_segment (c ∷ path)).0 ∷ segments (Rest (c ∷ path))) current fs h))
      | inr h ↦
          resolve_goes fuel (c ∷ path) current fs h short'.0 named
          ∙ resolve_loop-walk fuel (Rest (c ∷ path)) (step (take_segment (c ∷ path)).0 current fs)
              fs (skip_slashes-Advanced (take_segment (c ∷ path)).1) shorter short'.1
          ∙ ap done (
              sym (walk-goes (take_segment (c ∷ path)).0 (segments (Rest (c ∷ path))) current fs h))
    ])

-- The node that a path starts from.
abbrev pub origin : Bytes → ℕ → Fs → ℕ
origin [] cwd fs = cwd
origin (c ∷ path) cwd fs = if c == b'/' then fs.fs_root else cwd

-- `vfs_resolve_path` of a path with names of less than 128 bytes returns the node that a walk along
-- these names reaches, from the root for an absolute path and from `cwd` for any other.
pub vfs_resolve_path-walk :
    (c : ℕ) (path : Bytes) (cwd : ℕ) (fs : Fs)
    → AllShort (segments (c ∷ path))
    → vfs_resolve_path (some (c ∷ path)) cwd fs
      ≡ done (walk (segments (c ∷ path)) (origin (c ∷ path) cwd fs) fs)
unfolding vfs_resolve_path
vfs_resolve_path-walk c path cwd fs short = elim (Bool-cases (c == b'/')) [
  | inl slash ↦
      let is : c ≡ b'/' = ground arith in
      let rooted : segments (c ∷ path) ≡ segments (skip_slashes path) =
        ap (λ x. segments (x ∷ path)) is ∙ segments-slash path ∙ sym (segments-skip_slashes path) in
      rw slash (
        resolve_loop-walk (suc (suc (length path))) (skip_slashes path) fs.fs_root fs
          (skip_slashes-Advanced path) (omega (arith, skip_slashes-le path))
          (subst AllShort rooted short)
        ∙ ap (λ ss. done (walk ss fs.fs_root fs)) (sym rooted))
  | inr other ↦ rw other (
      resolve_loop-walk (suc (suc (length path))) (c ∷ path) cwd fs (ground arith) (omega arith)
        short)
]
