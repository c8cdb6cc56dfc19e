-- ===== src/Compositor/Neighbours.antt =====
-- Lists of addresses without repetition, and the neighbours of an address in them: what the links of
-- src/gui/Compositor.cpp stand for.
use swish_kernel.Prelude.{
  ℕ, ◌≡◌, ◌≢◌, refl, sym, ◌∙◌, inl, inr, Bool-cases, Bool, true, false, ◌||◌, arith, List, [], ◌∷◌,
  ◌++◌, ◌==◌, if◌then◌else◌, null, length, suc,
}

unfoldable pub has : ℕ → List ℕ → Bool
has q [] = false
has q (p ∷ ps) = q == p || has q ps

unfoldable pub erase : ℕ → List ℕ → List ℕ
erase q [] = []
erase q (p ∷ ps) = if p == q then ps else p ∷ erase q ps

unfoldable pub first : List ℕ → ℕ
first [] = null
first (p ∷ ps) = p

-- The last address, or `before` for an empty list.
unfoldable pub last_from : ℕ → List ℕ → ℕ
last_from before [] = before
last_from before (p ∷ ps) = last_from p ps

unfoldable pub next_in : List ℕ → ℕ → ℕ
next_in [] q = null
next_in (p ∷ ps) q = if q == p then first ps else next_in ps q

-- `before` is what stands before the list.
unfoldable pub prev_in : ℕ → List ℕ → ℕ → ℕ
prev_in before [] q = null
prev_in before (p ∷ ps) q = if q == p then before else prev_in p ps q

abbrev pub Distinct : List ℕ → Type 0
Distinct [] = Unit {0}
Distinct (p ∷ ps) = (has p ps ≡ false) × Distinct ps

pub has-append : (q : ℕ) (ps rs : List ℕ) → has q (ps ++ rs) ≡ (has q ps || has q rs)
unfolding has
has-append q [] rs = refl
has-append q (p ∷ ps) rs = ground (arith, has-append q ps rs)

pub has-erase : (q r : ℕ) (ps : List ℕ) → has q ps ≡ false → has q (erase r ps) ≡ false
unfolding has erase
has-erase q r [] h = refl
has-erase q r (p ∷ ps) h = ground (arith, has-erase q r ps)

pub has-erase_ne : (q r : ℕ) (ps : List ℕ) → q ≢ r → has q (erase r ps) ≡ has q ps
unfolding has erase
has-erase_ne q r [] h = refl
has-erase_ne q r (p ∷ ps) h = ground (arith, has-erase_ne q r ps h)

pub has-erase_self : (q : ℕ) (ps : List ℕ) → Distinct ps → has q (erase q ps) ≡ false
unfolding has erase
has-erase_self q [] d = refl
has-erase_self q (p ∷ ps) d = ground (arith, has-erase_self q ps d.1, d.0)

pub erase-Distinct : (r : ℕ) (ps : List ℕ) → Distinct ps → Distinct (erase r ps)
unfolding erase
erase-Distinct r [] d = d
erase-Distinct r (p ∷ ps) d = elim (Bool-cases (p == r)) [
  | inl same ↦ rw same d.1
  | inr other ↦ rw other (has-erase p r ps d.0, erase-Distinct r ps d.1)
]

pub snoc-Distinct : (r : ℕ) (ps : List ℕ) → Distinct ps → has r ps ≡ false → Distinct (ps ++ r ∷ [])
unfolding has
snoc-Distinct r [] d h = (refl, d)
snoc-Distinct r (p ∷ ps) d h =
    (has-append p ps (r ∷ []) ∙ ground (arith, d.0), snoc-Distinct r ps d.1 (ground arith))

-- A neighbour is in the list, or `null`, or what stands before it.
pub next_in-has : (ps : List ℕ) (q r : ℕ) → r ≢ null → has r ps ≡ false → next_in ps q ≢ r
unfolding has next_in first
next_in-has [] q r r0 h = λ e. r0 (sym e)
next_in-has (p ∷ []) q r r0 h = ground arith
next_in-has (p ∷ (s ∷ ps)) q r r0 h = ground (arith, next_in-has (s ∷ ps) q r r0)

pub prev_in-has :
    (b : ℕ) (ps : List ℕ) (q r : ℕ) → r ≢ null → r ≢ b → has r ps ≡ false → prev_in b ps q ≢ r
unfolding has prev_in
prev_in-has b [] q r r0 rb h = λ e. r0 (sym e)
prev_in-has b (p ∷ ps) q r r0 rb h = ground (arith, prev_in-has p ps q r r0)

pub last_from-has : (b : ℕ) (ps : List ℕ) (r : ℕ) → r ≢ b → has r ps ≡ false → last_from b ps ≢ r
unfolding has last_from
last_from-has b [] r rb h = λ e. rb (sym e)
last_from-has b (p ∷ ps) r rb h = last_from-has p ps r (ground arith) (ground arith)

-- What taking `r` out does to the neighbours of the others.
pub first-erase :
    (r : ℕ) (ps : List ℕ) → first (erase r ps) ≡ (if first ps == r then next_in ps r else first ps)
unfolding first erase next_in
first-erase r [] = ground arith
first-erase r (p ∷ ps) = ground arith

pub next_in-erase :
    (r : ℕ) (ps : List ℕ) (q : ℕ)
    → r ≢ null
    → Distinct ps
    → q ≢ r
    → next_in (erase r ps) q ≡ (if next_in ps q == r then next_in ps r else next_in ps q)
unfolding erase next_in has
next_in-erase r [] q r0 d ne = ground arith
next_in-erase r (p ∷ ps) q r0 d ne =
    ground (arith, next_in-erase r ps q r0 d.1 ne, first-erase r ps, next_in-has ps q r r0, d.0)

-- With another address before the list, only the first one's neighbour differs.
prev_in-before :
    (b c : ℕ) (ps : List ℕ) (q : ℕ)
    → c ≢ null
    → has c ps ≡ false
    → prev_in b ps q ≡ (if prev_in c ps q == c then b else prev_in c ps q)
unfolding prev_in has
prev_in-before b c [] q c0 h = ground arith
prev_in-before b c (p ∷ ps) q c0 h = ground (arith, prev_in-has p ps q c c0)

pub prev_in-erase :
    (b r : ℕ) (ps : List ℕ) (q : ℕ)
    → r ≢ null
    → r ≢ b
    → Distinct ps
    → q ≢ r
    → prev_in b (erase r ps) q ≡ (if prev_in b ps q == r then prev_in b ps r else prev_in b ps q)
unfolding erase prev_in has
prev_in-erase b r [] q r0 rb d ne = ground arith
prev_in-erase b r (p ∷ ps) q r0 rb d ne = elim (Bool-cases (p == r)) [
  | inl same ↦ ground (arith, prev_in-before b p ps q, d.0)
  | inr other ↦ ground (arith, prev_in-erase p r ps q r0)
]

last_from-before :
    (b c : ℕ) (ps : List ℕ)
    → has c ps ≡ false
    → last_from b ps ≡ (if last_from c ps == c then b else last_from c ps)
unfolding last_from has
last_from-before b c [] h = ground arith
last_from-before b c (p ∷ ps) h = ground (arith, last_from-has p ps c)

pub last_from-erase :
    (b r : ℕ) (ps : List ℕ)
    → r ≢ b
    → Distinct ps
    → last_from b (erase r ps) ≡ (if last_from b ps == r then prev_in b ps r else last_from b ps)
unfolding erase prev_in last_from has
last_from-erase b r [] rb d = ground arith
last_from-erase b r (p ∷ ps) rb d = elim (Bool-cases (p == r)) [
  | inl same ↦ ground (arith, last_from-before b p ps d.0)
  | inr other ↦ ground (arith, last_from-erase p r ps, d.1)
]

-- What an address at the end does to the neighbours.
pub first-snoc : (r : ℕ) (ps : List ℕ) → first ps ≢ null → first (ps ++ r ∷ []) ≡ first ps
unfolding first
first-snoc r [] h = absurd (h refl)
first-snoc r (p ∷ ps) h = refl

pub first_real : (p : ℕ) (ps : List ℕ) → has p ps ≡ true → has null ps ≡ false → first ps ≢ null
unfolding has first
first_real p [] hp h = cc
first_real p (r ∷ ps) hp h = ground arith

pub has-snoc_ne :
    (q r : ℕ) (ps : List ℕ) → has q (ps ++ r ∷ []) ≡ true → (q == r) ≡ false → has q ps ≡ true
unfolding has
has-snoc_ne q r [] h ne = cc
has-snoc_ne q r (p ∷ ps) h ne = ground (arith, has-snoc_ne q r ps)

pub has-snoc_real :
    (r : ℕ) (ps : List ℕ) → r ≢ null → has null ps ≡ false → has null (ps ++ r ∷ []) ≡ false
unfolding has
has-snoc_real r [] r0 h = ground arith
has-snoc_real r (p ∷ ps) r0 h = ground (arith, has-snoc_real r ps)

pub next_in-snoc :
    (r : ℕ) (ps : List ℕ) (q : ℕ)
    → Distinct ps
    → has q ps ≡ true
    → next_in (ps ++ r ∷ []) q ≡ (if q == last_from null ps then r else next_in ps q)
unfolding next_in has last_from first
next_in-snoc r [] q d h = cc
next_in-snoc r (p ∷ []) q d h = ground arith
next_in-snoc r (p ∷ (s ∷ ps)) q d h = elim (Bool-cases (q == p)) [
  | inl same ↦ ground (arith, last_from-has s ps p, d.0)
  | inr other ↦ rw other (next_in-snoc r (s ∷ ps) q d.1 (ground arith))
]

pub next_in-snoc_self : (r : ℕ) (ps : List ℕ) → has r ps ≡ false → next_in (ps ++ r ∷ []) r ≡ null
unfolding next_in has first
next_in-snoc_self r [] h = ground arith
next_in-snoc_self r (p ∷ ps) h = ground (arith, next_in-snoc_self r ps)

pub prev_in-snoc :
    (b r : ℕ) (ps : List ℕ) (q : ℕ) → has q ps ≡ true → prev_in b (ps ++ r ∷ []) q ≡ prev_in b ps q
unfolding prev_in has
prev_in-snoc b r [] q h = cc
prev_in-snoc b r (p ∷ ps) q h = ground (arith, prev_in-snoc p r ps q)

pub prev_in-snoc_self :
    (b r : ℕ) (ps : List ℕ) → has r ps ≡ false → prev_in b (ps ++ r ∷ []) r ≡ last_from b ps
unfolding prev_in has last_from
prev_in-snoc_self b r [] h = ground arith
prev_in-snoc_self b r (p ∷ ps) h = ground (arith, prev_in-snoc_self p r ps)

pub last_from-snoc : (b r : ℕ) (ps : List ℕ) → last_from b (ps ++ r ∷ []) ≡ r
unfolding last_from
last_from-snoc b r [] = refl
last_from-snoc b r (p ∷ ps) = last_from-snoc p r ps

pub length-erase : (q : ℕ) (ps : List ℕ) → has q ps ≡ true → suc (length (erase q ps)) ≡ length ps
unfolding has erase
length-erase q [] h = cc
length-erase q (p ∷ ps) h = ground (arith, length-erase q ps)
