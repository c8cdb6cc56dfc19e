-- ===== src/Compositor/Find.antt =====
-- The search of `focus_window` in src/gui/Compositor.cpp.
use mathlib.Core.Bool.{true≢false}
use swish_kernel.Prelude.{
  ℕ, zero, suc, ◌<◌, ◌≡◌, ◌≢◌, refl, sym, ap, ◌∙◌, inl, inr, true, false, arith, List, [], ◌∷◌,
  ◌++◌, ◌==◌, if◌then◌else◌, null, length, Bool-cases, done, beq→eq, eq→beq, ne→beq, not,
}
use swish_kernel.Compositor.{CompositorWindow, Desktop, find_node}
use swish_kernel.Compositor.Neighbours.{has, erase, first, next_in, Distinct}

-- The windows of some nodes.
unfoldable pub shown : (ℕ → CompositorWindow) → List ℕ → List ℕ
shown node [] = []
shown node (p ∷ ps) = (node p).window ∷ shown node ps

-- The first node of a window, or `null`.
unfoldable pub found : (ℕ → CompositorWindow) → ℕ → List ℕ → ℕ
found node w [] = null
found node w (p ∷ ps) = if (node p).window == w then p else found node w ps

pub found-has :
    (node : ℕ → CompositorWindow) (w : ℕ) (ps : List ℕ)
    → found node w ps ≢ null
    → has (found node w ps) ps ≡ true
unfolding found has
found-has node w [] h = absurd (h refl)
found-has node w (p ∷ ps) h = ground (arith, found-has node w ps)

pub found-window :
    (node : ℕ → CompositorWindow) (w : ℕ) (ps : List ℕ)
    → found node w ps ≢ null
    → (node (found node w ps)).window ≡ w
unfolding found
found-window node w [] h = absurd (h refl)
found-window node w (p ∷ ps) h = elim (Bool-cases ((node p).window == w)) [
  | inl same ↦ rw same (beq→eq (node p).window w same)
  | inr other ↦ rw other (found-window node w ps (ground arith))
]

pub found-shown :
    (node : ℕ → CompositorWindow) (w : ℕ) (ps : List ℕ)
    → has null ps ≡ false
    → (found node w ps == null) ≡ not (has w (shown node ps))
unfolding found has shown
found-shown node w [] real = refl
found-shown node w (p ∷ ps) real = ground (arith, found-shown node w ps)

erase_ne : (r p : ℕ) (ps : List ℕ) → p ≢ r → erase r (p ∷ ps) ≡ p ∷ erase r ps
unfolding erase
erase_ne r p ps h = rw (ne→beq h) refl

pub erase-found :
    (node : ℕ → CompositorWindow) (w : ℕ) (ps : List ℕ)
    → found node w ps ≢ null
    → erase w (shown node ps) ≡ shown node (erase (found node w ps) ps)
unfolding found shown erase
erase-found node w [] h = refl
erase-found node w (p ∷ ps) h = elim (Bool-cases ((node p).window == w)) [
  | inl same ↦ rw (same, eq→beq (let e : p ≡ p = refl in e)) refl
  | inr other ↦
      let h' : found node w ps ≢ null = ground arith in
      let apart : p ≢ found node w ps = λ e.
        true≢false
          (sym (eq→beq (ap (λ q. (node q).window) e ∙ found-window node w ps h')) ∙ other) in
      let skip : found node w (p ∷ ps) ≡ found node w ps = rw other refl in
      rw other (ap (λ ws. (node p).window ∷ ws) (erase-found node w ps h'))
      ∙ sym (
          ap (shown node) (ap (λ r. erase r (p ∷ ps)) skip ∙ erase_ne (found node w ps) p ps apart))
]

pub shown-same :
    (node node' : ℕ → CompositorWindow) (ps : List ℕ)
    → ((q : ℕ) → has q ps ≡ true → (node' q).window ≡ (node q).window)
    → shown node' ps ≡ shown node ps
unfolding shown has
shown-same node node' [] h = refl
shown-same node node' (p ∷ ps) h =
    λ i. h p (ground arith) i ∷ shown-same node node' ps (λ q hq. h q (ground (arith, hq))) i

pub shown-snoc :
    (node : ℕ → CompositorWindow) (ps : List ℕ) (r : ℕ)
    → shown node (ps ++ r ∷ []) ≡ shown node ps ++ (node r).window ∷ []
unfolding shown
shown-snoc node [] r = refl
shown-snoc node (p ∷ ps) r = ap (λ ws. (node p).window ∷ ws) (shown-snoc node ps r)

-- Each node leads to the next one of the list.
abbrev pub Chain : (ℕ → CompositorWindow) → List ℕ → Type 0
Chain node [] = Unit {0}
Chain node (p ∷ ps) = ((node p).next ≡ first ps) × Chain node ps

pub Chain-next_in :
    (node : ℕ → CompositorWindow) (ps : List ℕ)
    → Distinct ps
    → ((q : ℕ) → has q ps ≡ true → (node q).next ≡ next_in ps q)
    → Chain node ps
unfolding next_in has
Chain-next_in node [] d h = tt
Chain-next_in node (p ∷ ps) d h = (
  h p (ground arith) ∙ ground arith,
  Chain-next_in node ps d.1 (λ q hq. h q (ground (arith, hq)) ∙ ground (arith, hq, d.0)),
)

pub find_node-found :
    (fuel w : ℕ) (d : Desktop) (ps : List ℕ)
    → Chain d.node ps
    → has null ps ≡ false
    → length ps < fuel
    → find_node fuel (first ps) w d ≡ done (found d.node w ps)
unfolding find_node found first has
find_node-found zero w d ps c real enough = absurd (omega arith)
find_node-found (suc fuel) w d [] c real enough = refl
find_node-found (suc fuel) w d (p ∷ ps) c real enough =
    let p0 : (p == null) ≡ false = ground arith in
    let real' : has null ps ≡ false = ground arith in
    rw (p0, c.0)
      (elim (Bool-cases ((d.node p).window == w)) [
        | inl same ↦ rw same refl
        | inr other ↦ rw other (find_node-found fuel w d ps c.1 real' (omega arith))
      ])
