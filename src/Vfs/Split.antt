-- ===== src/Vfs/Split.antt =====
-- `vfs_split_path` of src/kernel/fs.cpp on a path of a directory and a name.
use swish_kernel.Prelude.{
  ℕ, zero, suc, ◌+◌, ◌<◌, ◌≡◌, ◌≢◌, refl, ap, ◌∙◌, inl, inr, true, false, arith, some, List, [],
  ◌∷◌, ◌++◌, ltb, ◌==◌, length, length-append, get_or, drop, done, Bool-cases, ne→beq,
}
use swish_kernel.Text.{Bytes, c_string, strncpy_array}
use swish_kernel.Text.Compare.{IsProper}
use swish_kernel.Vfs.Resolve.{last_slash, vfs_split_path}
use swish_kernel.Vfs.Segments.{pieces, keep_named, segments}

-- No byte is a slash.
abbrev pub Slashless : Bytes → Type 0
Slashless [] = Unit {0}
Slashless (c ∷ xs) = (c ≢ b'/') × Slashless xs

abbrev pub joined : Bytes → Bytes → Bytes
joined dir base = dir ++ b'/' ∷ base

get_or-Slashless : (base : Bytes) (i : ℕ) → Slashless base → (get_or base i 0 == b'/') ≡ false
get_or-Slashless [] i h = refl
get_or-Slashless (c ∷ base) zero h = ne→beq h.0
get_or-Slashless (c ∷ base) (suc i) h = get_or-Slashless base i h.1

get_or-joined : (dir base : Bytes) → get_or (joined dir base) (length dir) 0 ≡ b'/'
get_or-joined [] base = refl
get_or-joined (c ∷ dir) base = get_or-joined dir base

get_or-behind :
    (dir base : Bytes) (i n : ℕ)
    → n ≡ suc (i + length dir)
    → get_or (joined dir base) n 0 ≡ get_or base i 0
get_or-behind dir base i zero e = absurd (omega (arith, e))
get_or-behind [] base i (suc n) e = ap (λ m. get_or base m 0) (omega (arith, e))
get_or-behind (c ∷ dir) base i (suc n) e = get_or-behind dir base i n (omega (arith, e))

last_slash-joined :
    (dir base : Bytes) (k n : ℕ)
    → Slashless base
    → n ≡ k + length dir
    → last_slash (joined dir base) (suc n) ≡ some (length dir)
unfolding last_slash
last_slash-joined dir base zero n h e =
    let here : n ≡ length dir = omega (arith, e) in rw (here, get_or-joined dir base) refl
last_slash-joined dir base (suc k) zero h e = absurd (omega (arith, e))
last_slash-joined dir base (suc k) (suc n) h e =
    rw (get_or-behind dir base k (suc n) (omega (arith, e)), get_or-Slashless base k h)
      (last_slash-joined dir base k n h (omega (arith, e)))

strncpy_array-joined : (dir base : Bytes) → strncpy_array (joined dir base) (length dir) ≡ dir
unfolding strncpy_array
strncpy_array-joined [] base = refl
strncpy_array-joined (c ∷ dir) base = ap (λ xs. c ∷ xs) (strncpy_array-joined dir base)

drop-joined : (dir base : Bytes) → drop (suc (length dir)) (joined dir base) ≡ base
drop-joined [] base = refl
drop-joined (c ∷ dir) base = drop-joined dir base

pub c_string-terminated : (xs : Bytes) → IsProper xs → c_string (xs ++ 0 ∷ []) ≡ done xs
unfolding c_string
c_string-terminated [] p = refl
c_string-terminated (x ∷ xs) p = rw (ne→beq p.0, c_string-terminated xs p.1)

pieces-Slashless : (base : Bytes) → Slashless base → pieces base ≡ (base, [])
unfolding pieces
pieces-Slashless [] h = refl
pieces-Slashless (c ∷ base) h = rw (ne→beq h.0, pieces-Slashless base h.1)

pieces-joined :
    (dir base : Bytes)
    → Slashless base
    → pieces (joined dir base) ≡ ((pieces dir).0, (pieces dir).1 ++ base ∷ [])
unfolding pieces
pieces-joined [] base h = rw (pieces-Slashless base h)
pieces-joined (c ∷ dir) base h = elim (Bool-cases (c == b'/')) [
  | inl slash ↦ rw (slash, pieces-joined dir base h)
  | inr other ↦ rw (other, pieces-joined dir base h)
]

pieces-first :
    (name rest : Bytes)
    → Slashless name
    → pieces (joined name rest) ≡ (name, (pieces rest).0 ∷ (pieces rest).1)
unfolding pieces
pieces-first [] rest h = refl
pieces-first (c ∷ name) rest h = rw (ne→beq h.0, pieces-first name rest h.1)

-- A name, alone and in front of a path.
pub segments-name : (name : Bytes) → Slashless name → length name ≢ 0 → segments name ≡ name ∷ []
unfolding segments keep_named
segments-name name h named = rw (pieces-Slashless name h, ne→beq named) refl

pub segments-first :
    (name rest : Bytes)
    → Slashless name
    → length name ≢ 0
    → segments (joined name rest) ≡ name ∷ segments rest
unfolding segments keep_named
segments-first name rest h named = rw (pieces-first name rest h, ne→beq named) refl

keep_named-append :
    (ws : List Bytes) (base : Bytes)
    → length base ≢ 0
    → keep_named (ws ++ base ∷ []) ≡ keep_named ws ++ base ∷ []
unfolding keep_named
keep_named-append [] base h = rw (ne→beq h)
keep_named-append (w ∷ ws) base h = elim (Bool-cases (length w == 0)) [
  | inl empty ↦ rw (empty) (keep_named-append ws base h)
  | inr named ↦ rw (named) (ap (λ xs. w ∷ xs) (keep_named-append ws base h))
]

pub segments-joined :
    (dir base : Bytes)
    → Slashless base
    → length base ≢ 0
    → segments (joined dir base) ≡ segments dir ++ base ∷ []
unfolding segments
segments-joined dir base h named =
    ap (λ (q : Bytes × List Bytes). keep_named (q.0 ∷ q.1)) (pieces-joined dir base h)
    ∙ keep_named-append ((pieces dir).0 ∷ (pieces dir).1) base named

vfs_split_path-slash :
    (path : Bytes) (i : ℕ)
    → last_slash path (length path) ≡ some (suc i)
    → suc i < 255
    → vfs_split_path path 256 128
      ≡ some (strncpy_array path (suc i) ++ 0 ∷ [], strncpy_array (drop (suc (suc i)) path) 128)
unfolding vfs_split_path
vfs_split_path-slash path i e short =
    let fits : ltb (suc i) 255 ≡ true = ground arith in rw (e, fits) refl

-- The two arrays hold the directory and the name.
pub vfs_split_path-joined :
    (c : ℕ) (dir base : Bytes)
    → Slashless base
    → length (c ∷ dir) < 255
    → vfs_split_path (joined (c ∷ dir) base) 256 128
      ≡ some ((c ∷ dir) ++ 0 ∷ [], strncpy_array base 128)
vfs_split_path-joined c dir base h short =
    let n : length (dir ++ b'/' ∷ base) ≡ length base + length (c ∷ dir) =
      omega (arith, length-append dir (b'/' ∷ base)) in
    vfs_split_path-slash (joined (c ∷ dir) base) (length dir)
      (last_slash-joined (c ∷ dir) base (length base) (length (dir ++ b'/' ∷ base)) h n) short
    ∙ ap
        (λ xs.
          some (
            xs ++ 0 ∷ [],
            strncpy_array (drop (suc (length (c ∷ dir))) (joined (c ∷ dir) base)) 128,
          ))
        (strncpy_array-joined (c ∷ dir) base)
    ∙ ap (λ xs. some ((c ∷ dir) ++ 0 ∷ [], strncpy_array xs 128)) (drop-joined (c ∷ dir) base)
