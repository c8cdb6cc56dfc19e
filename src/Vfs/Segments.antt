-- ===== src/Vfs/Segments.antt =====
-- The names along a path of src/kernel/fs.cpp, and what its two scanners find.
use swish_kernel.Prelude.{
  ℕ, ◌+◌, ◌≤◌, ◌<◌, ◌≡◌, ◌≢◌, refl, sym, ap, ◌∙◌, inl, inr, false, not, ◌||◌, List, [], ◌∷◌, arith,
  ◌==◌, if◌then◌else◌, length, null, Bool-cases, ne→beq,
}
use swish_kernel.Text.{Bytes}
use swish_kernel.Vfs.{Fs, is_directory, name_size, vfs_lookup}
use swish_kernel.Vfs.Resolve.{skip_slashes, take_segment, parent_of, enter, is_dot, is_dot_dot}

-- The pieces between slashes, empty ones included: the first and the others.
unfoldable pub pieces : Bytes → Bytes × List Bytes
pieces [] = ([], [])
pieces (c ∷ path) = let (w, ws) = pieces path in if c == b'/' then ([], w ∷ ws) else (c ∷ w, ws)

unfoldable pub keep_named : List Bytes → List Bytes
keep_named [] = []
keep_named (w ∷ ws) = let rest = keep_named ws in if length w == 0 then rest else w ∷ rest

-- The names along a path.
unfoldable pub segments : Bytes → List Bytes
segments path = let (w, ws) = pieces path in keep_named (w ∷ ws)

-- One name further, from a directory.
unfoldable pub step : Bytes → ℕ → Fs → ℕ
step s p fs =
    if is_dot s then p else if is_dot_dot s then parent_of p fs else enter (vfs_lookup p s fs) fs

-- A walk stops at what is no directory.
unfoldable pub walk : List Bytes → ℕ → Fs → ℕ
walk [] p fs = p
walk (s ∷ ss) p fs =
    let rest = walk ss (step s p fs) fs in if p == null || not (is_directory p fs) then p else rest

abbrev pub AllShort : List Bytes → Type 0
AllShort [] = Unit {0}
AllShort (s ∷ ss) = (length s < name_size) × AllShort ss

pub segments-slash : (path : Bytes) → segments (b'/' ∷ path) ≡ segments path
unfolding segments pieces keep_named
segments-slash path = refl

pub segments-skip_slashes : (path : Bytes) → segments (skip_slashes path) ≡ segments path
unfolding skip_slashes
segments-skip_slashes [] = refl
segments-skip_slashes (c ∷ path) = elim (Bool-cases (c == b'/')) [
  | inl slash ↦
      let is : c ≡ b'/' = ground arith in
      rw slash (
        segments-skip_slashes path
        ∙ sym (segments-slash path)
        ∙ ap (λ x. segments (x ∷ path)) (sym is))
  | inr other ↦ rw other
]

-- What `take_segment` leaves, and the pieces behind it.
abbrev behind_pieces : Bytes → List Bytes
behind_pieces [] = []
behind_pieces (c ∷ rest) = let (w, ws) = pieces rest in w ∷ ws

pieces-take_segment :
    (path : Bytes) → pieces path ≡ ((take_segment path).0, behind_pieces (take_segment path).1)
unfolding pieces take_segment
pieces-take_segment [] = refl
pieces-take_segment (c ∷ path) = elim (Bool-cases (c == b'/')) [
  | inl slash ↦ rw slash
  | inr other ↦
      rw (other) (ap (λ (q : Bytes × List Bytes). (c ∷ q.0, q.1)) (pieces-take_segment path))
]

-- A slash stands in front of what `take_segment` leaves.
take_segment_slash :
    (path : Bytes) (c : ℕ) (rest : Bytes) → (take_segment path).1 ≡ c ∷ rest → c ≡ b'/'
unfolding take_segment
take_segment_slash [] c rest e = absurd (cc)
take_segment_slash (x ∷ path) c rest e = elim (Bool-cases (x == b'/')) [
  | inl slash ↦ ground arith
  | inr other ↦ take_segment_slash path c rest (rw other at e)
]

pub take_segment_length :
    (path : Bytes) → length (take_segment path).0 + length (take_segment path).1 ≡ length path
unfolding take_segment
take_segment_length [] = omega arith
take_segment_length (c ∷ path) = ground (arith, take_segment_length path)

pub skip_slashes-le : (path : Bytes) → length (skip_slashes path) ≤ length path
unfolding skip_slashes
skip_slashes-le [] = omega arith
skip_slashes-le (c ∷ path) = ground (arith, skip_slashes-le path)

abbrev pub Rest : Bytes → Bytes
Rest path = skip_slashes (take_segment path).1

-- No slash in front: the state of a path at each round.
abbrev pub Advanced : Bytes → Type 0
Advanced [] = Unit {0}
Advanced (c ∷ path) = c ≢ b'/'

pub skip_slashes-Advanced : (path : Bytes) → Advanced (skip_slashes path)
unfolding skip_slashes
skip_slashes-Advanced [] = tt
skip_slashes-Advanced (c ∷ path) = elim (Bool-cases (c == b'/')) [
  | inl slash ↦ rw slash (skip_slashes-Advanced path)
  | inr other ↦ rw other (ground arith)
]

abbrev Slashed : Bytes → Type 0
Slashed [] = Unit {0}
Slashed (c ∷ xs) = c ≡ b'/'

take_segment-Slashed : (path : Bytes) → Slashed (take_segment path).1
unfolding take_segment
take_segment-Slashed [] = tt
take_segment-Slashed (x ∷ path) = elim (Bool-cases (x == b'/')) [
  | inl slash ↦ rw slash (ground arith)
  | inr other ↦ rw other (take_segment-Slashed path)
]

pieces_of_segments : (path : Bytes) → keep_named ((pieces path).0 ∷ (pieces path).1) ≡ segments path
unfolding segments
pieces_of_segments path = refl

pub segments-nil : segments [] ≡ []
unfolding segments pieces keep_named
segments-nil = refl

segments_behind :
    (rest : Bytes) → Slashed rest → keep_named (behind_pieces rest) ≡ segments (skip_slashes rest)
unfolding keep_named skip_slashes
segments_behind [] h = sym segments-nil
segments_behind (c ∷ xs) h =
    pieces_of_segments xs
    ∙ sym (segments-slash xs)
    ∙ ap (λ x. segments (x ∷ xs)) (sym h)
    ∙ sym (segments-skip_slashes (c ∷ xs))

pub segments_first :
    (path : Bytes)
    → length (take_segment path).0 ≢ 0
    → segments path ≡ (take_segment path).0 ∷ segments (Rest path)
unfolding keep_named
segments_first path named =
    sym (pieces_of_segments path)
    ∙ ap (λ (q : Bytes × List Bytes). keep_named (q.0 ∷ q.1)) (pieces-take_segment path)
    ∙ rw (ne→beq named) (
        ap (λ xs. (take_segment path).0 ∷ xs)
          (segments_behind (take_segment path).1 (take_segment-Slashed path)))

pub take_segment_named : (c : ℕ) (path : Bytes) → c ≢ b'/' → length (take_segment (c ∷ path)).0 ≢ 0
unfolding take_segment
take_segment_named c path ne = let other : (c == b'/') ≡ false = ne→beq ne in rw other (omega arith)
