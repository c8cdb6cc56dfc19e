-- ===== src/Compositor/Focus.antt =====
-- A window is brought to the front, or changed: src/gui/Compositor.cpp keeps the promise of
-- Compositor/Order.
use mathlib.Core.Bool.{true≢false}
use mathlib.Core.Path.{subst}
use swish_kernel.Prelude.{
  ℕ, suc, ◌≡◌, ◌≢◌, refl, sym, ap, ◌∙◌, inl, inr, Bool, true, false, ◌||◌, arith, List, [], ◌∷◌,
  ◌++◌, ◌==◌, if◌then◌else◌, null, Bool-cases, done, beq→eq, eq→beq, ne→beq, not, write,
}
use swish_kernel.Window.{Window}
use swish_kernel.Compositor.{CompositorWindow, Desktop, focus_window, find_node, set_window}
use swish_kernel.Compositor.Neighbours.{has, erase, first, last_from, Distinct, last_from-has}
use swish_kernel.Compositor.Links
use swish_kernel.Compositor.Links.{IsStack}
use swish_kernel.Compositor.Stack.{p0, pn, pp, raised-IsStack}
use swish_kernel.Compositor.Find.{
  shown, found, found-has, found-window, found-shown, erase-found, shown-same, shown-snoc,
  Chain-next_in, find_node-found,
}
use swish_kernel.Compositor.Order.{Screen, focuses, changes, promise, perform, Shows, Refines}

module _ (w : ℕ) (d : Desktop) where
  focus_idle :
      (d.head == null) || ((d.tail == null) || (w == null)) ≡ true → focus_window w d ≡ done d
  unfolding focus_window
  focus_idle h = rw h refl

  focus_searches :
      (p : ℕ)
      → (d.head == null) || ((d.tail == null) || (w == null)) ≡ false
      → find_node (suc d.fresh) d.head w d ≡ done p
      → focus_window w d ≡ done (if p == null || p == d.tail then d else Links.raised p d)
  unfolding focus_window Links.raised
  focus_searches p h e = rw (h, e) refl

promise_idle :
    (w : ℕ) (s : Screen) → w == null || not (has w s.order) ≡ true → promise (focuses w) s ≡ s
unfolding promise
promise_idle w s h = rw h refl

promise_front :
    (w : ℕ) (s : Screen)
    → w == null || not (has w s.order) ≡ false
    → promise (focuses w) s ≡ record s { order = erase w s.order ++ w ∷ [] }
unfolding promise
promise_front w s h = rw h refl

-- The last address, taken out and put to the end, leaves the list as it is.
erase-last :
    (b : ℕ) (ps : List ℕ) (p : ℕ)
    → has p ps ≡ true
    → Distinct ps
    → last_from b ps ≡ p
    → erase p ps ++ p ∷ [] ≡ ps
unfolding erase last_from has
erase-last b [] p h d e = cc
erase-last b (r ∷ []) p h d e = ground arith
erase-last b (r ∷ (s ∷ ps)) p h d e = elim (Bool-cases (r == p)) [
  | inl same ↦ ground (arith, last_from-has s ps r, d.0)
  | inr other ↦ rw other (ap (λ xs. r ∷ xs) (erase-last r (s ∷ ps) p (ground arith) d.1 e))
]

pub last_real : (b p : ℕ) (ps : List ℕ) → has null (p ∷ ps) ≡ false → last_from b (p ∷ ps) ≢ null
unfolding has last_from
last_real b p ps real = last_from-has p ps null (ground arith) (ground arith)

-- The screen after `focus_window` has found the node `p` of a window.
module _ (w : ℕ) (d : Desktop) (s : Screen) (ps : List ℕ) (is : IsStack d ps)
    (order : shown d.node ps ≡ s.order) (same : d.windows ≡ s.windows) (f0 : d.fresh ≢ null)
    (w0 : w ≢ null) (hp : found d.node w ps ≢ null) where
  p : ℕ
  p = found d.node w ps

  h : has (found d.node w ps) ps ≡ true
  h = found-has d.node w ps hp

  on_screen : has w s.order ≡ true
  on_screen = ap (has w) (sym order) ∙ ground (arith, found-shown d.node w ps is.real)

  in_front : promise (focuses w) s ≡ record s { order = erase w s.order ++ w ∷ [] }
  in_front = promise_front w s (rw (ne→beq w0, on_screen) refl)

  moved :
      shown d.node (erase (found d.node w ps) ps ++ found d.node w ps ∷ [])
      ≡ erase w s.order ++ w ∷ []
  moved = shown-snoc d.node (erase (found d.node w ps) ps) (found d.node w ps) ∙ (λ i.
      (sym (erase-found d.node w ps hp) ∙ ap (erase w) order) i
      ++ found-window d.node w ps hp i ∷ [])

  stays_in_front : d.tail ≡ found d.node w ps → Shows d (promise (focuses w) s)
  stays_in_front e = subst (Shows d) (sym in_front) (
    ps,
    is,
    sym (
          ap (shown d.node)
            (erase-last null ps (found d.node w ps) h is.distinct (sym is.tail_is ∙ e)))
        ∙ moved,
    same,
    f0,
  )

  comes_to_front :
      found d.node w ps ≢ d.tail
      → Shows (Links.raised (found d.node w ps) d) (promise (focuses w) s)
  comes_to_front ne =
      let p : ℕ = found d.node w ps in
      let a0 = p0 is p h in
      let an = pn is p h in
      let ap' = pp is p h in
      subst (Shows (Links.raised p d)) (sym in_front) (
        erase p ps ++ p ∷ [],
        raised-IsStack is p h ne,
        shown-same d.node (Links.raised p d).node (erase p ps ++ p ∷ [])
              (λ q hq. Links.raised-window p d a0 an ap' ne q)
            ∙ moved,
        Links.raised-windows p d a0 an ap' ne ∙ same,
        λ e. f0 (sym (Links.raised-fresh p d a0 an ap' ne) ∙ e),
      )

or_not : (a b : Bool) → b ≡ false → a || not b ≡ true
or_not true b h = refl
or_not false b h = rw h refl

none_shown :
    (w : ℕ) (node : ℕ → CompositorWindow) (ps : List ℕ)
    → has null ps ≡ false
    → first ps ≡ null
    → has w (shown node ps) ≡ false
unfolding has first shown
none_shown w node [] real e = refl
none_shown w node (p ∷ ps) real e = ground arith

tail_there :
    (d : Desktop) (ps : List ℕ) → IsStack d ps → (d.head == null) ≡ false → (d.tail == null) ≡ false
unfolding first
tail_there d [] is h = absurd (true≢false (sym (eq→beq is.head_is) ∙ h))
tail_there d (p ∷ ps) is h = ne→beq (λ e. last_real null p ps is.real (sym is.tail_is ∙ e))

pub focuses-Refines :
    (w : ℕ) (d : Desktop) (s : Screen)
    → Shows d s
    → Refines (perform (focuses w) d) (promise (focuses w) s)
unfolding perform
focuses-Refines w d s (ps, is, order, same, f0) = elim (Bool-cases (w == null)) [
  | inl no_window ↦ (
    d,
    focus_idle w d (ground arith),
    subst (Shows d) (sym (promise_idle w s (rw no_window refl))) (ps, is, order, same, f0),
  )
  | inr window ↦ elim (Bool-cases (d.head == null)) [
    | inl empty ↦ (
      d,
      focus_idle w d (rw empty refl),
      subst (Shows d)
          (sym (
            promise_idle w s (
              or_not (w == null) (has w s.order) (
                ap (has w) (sym order)
                ∙ none_shown w d.node ps is.real (sym is.head_is ∙ beq→eq d.head null empty)))))
          (ps, is, order, same, f0),
    )
    | inr some_head ↦
        let found_it : find_node (suc d.fresh) d.head w d ≡ done (found d.node w ps) =
          ap (λ p. find_node (suc d.fresh) p w d) is.head_is
          ∙ find_node-found (suc d.fresh) w d ps (Chain-next_in d.node ps is.distinct is.nexts)
              is.real (omega (arith, is.few)) in
        let runs =
          focus_searches w d (found d.node w ps)
            (rw (some_head, window, tail_there d ps is some_head) refl) found_it in
        elim (Bool-cases (found d.node w ps == null)) [
          | inl nowhere ↦ (
            d,
            runs ∙ rw nowhere refl,
            subst (Shows d)
                (sym (
                  promise_idle w s (
                    or_not (w == null) (has w s.order) (
                      ap (has w) (sym order)
                      ∙ ground (arith, nowhere, found-shown d.node w ps is.real)))))
                (ps, is, order, same, f0),
          )
          | inr somewhere ↦
              let hp : found d.node w ps ≢ null = λ e. true≢false (sym (eq→beq e) ∙ somewhere) in
              let w0 : w ≢ null = λ e. true≢false (sym (eq→beq e) ∙ window) in
              elim (Bool-cases (found d.node w ps == d.tail)) [
                | inl last ↦ (
                  d,
                  runs ∙ rw (somewhere, last) refl,
                  stays_in_front w d s ps is order same f0 w0 hp
                      (sym (beq→eq (found d.node w ps) d.tail last)),
                )
                | inr under ↦ (
                  Links.raised (found d.node w ps) d,
                  runs ∙ rw (somewhere, under) refl,
                  comes_to_front w d s ps is order same f0 w0 hp
                      (λ e. true≢false (sym (eq→beq e) ∙ under)),
                )
              ]
        ]
  ]
]

pub changes-Refines :
    (w : ℕ) (x : Window) (d : Desktop) (s : Screen)
    → Shows d s
    → Refines (perform (changes w x) d) (promise (changes w x) s)
unfolding perform promise
changes-Refines w x d s (ps, is, order, same, f0) = (
  set_window w x d,
  refl,
  (
    ps,
    record {
      head_is = is.head_is;
      tail_is = is.tail_is;
      nexts = is.nexts;
      prevs = is.prevs;
      distinct = is.distinct;
      real = is.real;
      below = is.below;
      few = is.few;
    },
    order,
    (λ i. write (same i) w x),
    f0,
  ),
)
