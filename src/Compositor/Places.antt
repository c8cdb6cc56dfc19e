-- ===== src/Compositor/Places.antt =====
-- The first, the last and the adjacent addresses of a list without repetition.
use swish_kernel.Prelude.{
  ℕ, ◌≡◌, ◌≢◌, sym, inl, inr, true, false, arith, List, [], ◌∷◌, ◌==◌, null, Bool-cases,
}
use swish_kernel.Compositor.Neighbours.{
  has, first, last_from, next_in, prev_in, Distinct, next_in-has, prev_in-has, last_from-has,
}

pub next_in_ne : (ps : List ℕ) (p : ℕ) → p ≢ null → Distinct ps → next_in ps p ≢ p
unfolding next_in has first
next_in_ne [] p p0 d = λ e. p0 (sym e)
next_in_ne (r ∷ []) p p0 d = ground arith
next_in_ne (r ∷ (s ∷ ps)) p p0 d = ground (arith, next_in_ne (s ∷ ps) p p0 d.1, d.0)

pub prev_in_ne : (b : ℕ) (ps : List ℕ) (p : ℕ) → p ≢ null → p ≢ b → Distinct ps → prev_in b ps p ≢ p
unfolding prev_in has
prev_in_ne b [] p p0 pb d = λ e. p0 (sym e)
prev_in_ne b (r ∷ ps) p p0 pb d = ground (arith, prev_in_ne r ps p p0, d.1)

pub prev_in-first : (b : ℕ) (ps : List ℕ) (p : ℕ) → p ≢ null → first ps ≡ p → prev_in b ps p ≡ b
unfolding prev_in first
prev_in-first b [] p p0 e = absurd (p0 (sym e))
prev_in-first b (r ∷ ps) p p0 e = ground arith

pub next_in-last_from :
    (b : ℕ) (ps : List ℕ) (p : ℕ)
    → p ≢ null
    → has p ps ≡ true
    → Distinct ps
    → last_from b ps ≡ p
    → next_in ps p ≡ null
unfolding next_in last_from first has
next_in-last_from b [] p p0 h d e = cc
next_in-last_from b (r ∷ []) p p0 h d e = ground arith
next_in-last_from b (r ∷ (s ∷ ps)) p p0 h d e = elim (Bool-cases (p == r)) [
  | inl same ↦ ground (arith, last_from-has s ps r, d.0)
  | inr other ↦ rw other (next_in-last_from r (s ∷ ps) p p0 (ground arith) d.1 e)
]

-- Where the next address is null the last one is found.
pub last_from-next_in :
    (b : ℕ) (ps : List ℕ) (p : ℕ)
    → has null ps ≡ false
    → has p ps ≡ true
    → next_in ps p ≡ null
    → last_from b ps ≡ p
unfolding next_in last_from first has
last_from-next_in b [] p real h e = cc
last_from-next_in b (r ∷ []) p real h e = ground arith
last_from-next_in b (r ∷ (s ∷ ps)) p real h e = elim (Bool-cases (p == r)) [
  | inl same ↦ ground arith
  | inr other ↦ last_from-next_in r (s ∷ ps) p (ground arith) (ground arith) (ground arith)
]

next_in_ne_first :
    (r : ℕ) (ps : List ℕ) (q : ℕ) → r ≢ null → has r ps ≡ false → next_in (r ∷ ps) q ≢ r
unfolding next_in has first
next_in_ne_first r [] q r0 h = ground arith
next_in_ne_first r (s ∷ ps) q r0 h = ground (arith, next_in-has (s ∷ ps) q r r0)

first_adjacent :
    (r : ℕ) (ps : List ℕ) (p : ℕ)
    → r ≢ null
    → has p ps ≡ true
    → has r ps ≡ false
    → (r == prev_in r ps p) ≡ (first ps == p)
unfolding prev_in has first
first_adjacent r [] p r0 hp hr = cc
first_adjacent r (s ∷ ps) p r0 hp hr = ground (arith, prev_in-has s ps p r r0)

-- One address precedes another where the other follows it.
pub adjacent :
    (b : ℕ) (ps : List ℕ) (p q : ℕ)
    → has p ps ≡ true
    → has q ps ≡ true
    → Distinct ps
    → has null ps ≡ false
    → q ≢ b
    → (q == prev_in b ps p) ≡ (next_in ps q == p)
unfolding next_in prev_in has first
adjacent b [] p q hp hq d real qb = cc
adjacent b (r ∷ ps) p q hp hq d real qb = elim (Bool-cases (p == r)) [
  | inl same ↦ ground (arith, next_in_ne_first r ps q, d.0)
  | inr other ↦ elim (Bool-cases (q == r)) [
    | inl first_one ↦ ground (arith, first_adjacent r ps p, d.0)
    | inr later ↦
        rw (other, later)
          (adjacent r ps p q (ground arith) (ground arith) d.1 (ground arith) (ground arith))
  ]
]
