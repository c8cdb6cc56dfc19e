-- ===== src/Compositor/Click.antt =====
-- The mouse in src/gui/Compositor.cpp: the walk from the top-most window down finds the window that is hit.
use mathlib.Core.Path.{subst}
use swish_kernel.Prelude.{
  ℕ, zero, suc, ◌+◌, ◌<◌, ◌≡◌, refl, sym, ap, ◌∙◌, inl, inr, Bool, true, false, not, ◌||◌, Option,
  none, some, arith, List, [], ◌∷◌, ◌==◌, if◌then◌else◌, null, length, Bool-cases, Res, done, ◌>>=◌,
  write,
}
use swish_kernel.Window.{Window}
use swish_kernel.Compositor.{
  CompositorWindow, Desktop, hits, clicked, button_loop, inject_mouse_button, focus_window,
  set_window,
}
use swish_kernel.Compositor.Neighbours.{has, first, last_from, prev_in, Distinct}
use swish_kernel.Compositor.Links.{IsStack}
use swish_kernel.Compositor.Find.{shown}
use swish_kernel.Compositor.Order.{
  Screen, clicks, promise, perform, Shows, Refines, top_hit, brought,
}
use swish_kernel.Compositor.Focus.{focuses-Refines, changes-Refines}

-- The addresses in reverse, in front of `acc`.
unfoldable reverse_onto : List ℕ → List ℕ → List ℕ
reverse_onto [] acc = acc
reverse_onto (p ∷ ps) acc = reverse_onto ps (p ∷ acc)

-- Each node leads back to the next one of the list.
abbrev Back : (ℕ → CompositorWindow) → List ℕ → Type 0
Back node [] = Unit {0}
Back node (p ∷ ps) = ((node p).prev ≡ first ps) × Back node ps

reverse_onto-Back :
    (node : ℕ → CompositorWindow) (ps acc : List ℕ)
    → Distinct ps
    → ((q : ℕ) → has q ps ≡ true → (node q).prev ≡ prev_in (first acc) ps q)
    → Back node acc
    → Back node (reverse_onto ps acc)
unfolding reverse_onto prev_in has first
reverse_onto-Back node [] acc d prevs back = back
reverse_onto-Back node (p ∷ ps) acc d prevs back =
    reverse_onto-Back node ps (p ∷ acc) d.1
      (λ q h. prevs q (ground (arith, h)) ∙ ground (arith, h, d.0))
      (prevs p (ground arith) ∙ ground arith, back)

first-reverse_onto : (ps acc : List ℕ) → first (reverse_onto ps acc) ≡ last_from (first acc) ps
unfolding reverse_onto first last_from
first-reverse_onto [] acc = refl
first-reverse_onto (p ∷ ps) acc = first-reverse_onto ps (p ∷ acc)

has-reverse_onto :
    (q : ℕ) (ps acc : List ℕ)
    → has q ps ≡ false
    → has q acc ≡ false
    → has q (reverse_onto ps acc) ≡ false
unfolding reverse_onto has
has-reverse_onto q [] acc h g = g
has-reverse_onto q (p ∷ ps) acc h g = has-reverse_onto q ps (p ∷ acc) (ground arith) (ground arith)

length-reverse_onto : (ps acc : List ℕ) → length (reverse_onto ps acc) ≡ length ps + length acc
unfolding reverse_onto
length-reverse_onto [] acc = omega arith
length-reverse_onto (p ∷ ps) acc = omega (arith, length-reverse_onto ps (p ∷ acc))

joined :
    (t : Option ℕ) (b : Bool) (w : ℕ) (rest : Option ℕ)
    → (elim t as (λ o. Option ℕ) [ none ↦ if b then some w else rest | some v ↦ some v ])
      ≡ (elim (elim t as (λ o. Option ℕ) [ none ↦ if b then some w else none | some v ↦ some v ])
          as (λ o. Option ℕ) [ none ↦ rest | some v ↦ some v ])
joined none true w rest = refl
joined none false w rest = refl
joined (some v) b w rest = refl

or_none : (t : Option ℕ) → (elim t as (λ o. Option ℕ) [ none ↦ none | some v ↦ some v ]) ≡ t
or_none none = refl
or_none (some v) = refl

brought-windows : (w : ℕ) (s : Screen) → (brought w s).windows ≡ s.windows
brought-windows w s = elim (Bool-cases (w == null || not (has w s.order))) [
  | inl e ↦ rw e refl
  | inr e ↦ rw e refl
]

focus_if :
    (b : Bool) (w : ℕ) (d : Desktop) (s : Screen)
    → Shows d s
    → Refines (if b then focus_window w d else done d) (if b then brought w s else s)
unfolding perform promise
focus_if true w d s h = focuses-Refines w d s h
focus_if false w d s h = (d, refl, h)

focus_if-windows :
    (b : Bool) (w : ℕ) (s : Screen) → (if b then brought w s else s).windows ≡ s.windows
focus_if-windows true w s = brought-windows w s
focus_if-windows false w s = refl

pub changed-Refines :
    (w : ℕ) (v v' : Window) (r : Res Desktop) (s s' : Screen)
    → Refines r s'
    → s'.windows ≡ s.windows
    → v ≡ v'
    → Refines (r >>= λ e. done (set_window w v e)) (record s' { windows = write s.windows w v' })
unfolding perform promise
changed-Refines w v v' r s s' (e, run, shows) same value =
    let (after, run', shows') = changes-Refines w v e s' shows in
    (
      after,
      ap (λ z. z >>= λ e'. done (set_window w v e')) run ∙ run',
      subst (λ f. Shows after (record s' { windows = f })) (λ i. write (same i) w (value i)) shows',
    )

module _ (x y : ℕ) (is_down : Bool) (d : Desktop) where
  -- The first window down a list of nodes on which the point lies.
  down_hit : List ℕ → Option ℕ
  down_hit [] = none
  down_hit (p ∷ ps) =
      if hits x y (d.windows (d.node p).window) then some (d.node p).window else down_hit ps

  -- What a press or a release does to the window that is found.
  landed : Option ℕ → Res Desktop
  landed none = done d
  landed (some w) = (if is_down then focus_window w d else done d) >>= λ focused.
      done (set_window w (clicked x y is_down (d.windows w)) focused)

  button_loop-landed :
      (fuel : ℕ) (ps : List ℕ)
      → Back d.node ps
      → has null ps ≡ false
      → length ps < fuel
      → button_loop fuel (first ps) x y is_down d ≡ landed (down_hit ps)
  unfolding button_loop first has down_hit landed
  button_loop-landed zero ps back real enough = absurd (omega arith)
  button_loop-landed (suc fuel) [] back real enough = refl
  button_loop-landed (suc fuel) (p ∷ ps) back real enough =
      let p0 : (p == null) ≡ false = ground arith in
      let rest = button_loop-landed fuel ps back.1 (ground arith) (omega arith) in
      elim (Bool-cases (hits x y (d.windows (d.node p).window))) [
        | inl hit ↦ rw (p0, hit) refl
        | inr miss ↦ rw (p0, miss, back.0) rest
      ]

  -- From the top down the first window is the last one of those from the bottom up.
  down_hit-reverse_onto :
      (ps acc : List ℕ)
      → down_hit (reverse_onto ps acc)
        ≡ elim (top_hit d.windows (shown d.node ps) x y) [ none ↦ down_hit acc | some w ↦ some w ]
  unfolding down_hit reverse_onto top_hit shown
  down_hit-reverse_onto [] acc = refl
  down_hit-reverse_onto (p ∷ ps) acc =
      down_hit-reverse_onto ps (p ∷ acc)
      ∙ joined (top_hit d.windows (shown d.node ps) x y) (hits x y (d.windows (d.node p).window))
          (d.node p).window (down_hit acc)

  walk-landed :
      (ps : List ℕ)
      → IsStack d ps
      → inject_mouse_button x y is_down d ≡ landed (top_hit d.windows (shown d.node ps) x y)
  unfolding inject_mouse_button has first down_hit
  walk-landed ps is =
      let back = reverse_onto-Back d.node ps [] is.distinct is.prevs tt in
      ap (λ p. button_loop (suc d.fresh) p x y is_down d)
        (is.tail_is ∙ sym (first-reverse_onto ps []))
      ∙ button_loop-landed (suc d.fresh) (reverse_onto ps []) back
          (has-reverse_onto null ps [] is.real refl)
          (omega (arith, length-reverse_onto ps [], is.few))
      ∙ ap landed (down_hit-reverse_onto ps [] ∙ or_none (top_hit d.windows (shown d.node ps) x y))

  landed-Refines :
      (hit : Option ℕ) (s : Screen)
      → Shows d s
      → Refines (landed hit) (elim hit [
        | none ↦ s
        | some w ↦ record (if is_down then brought w s else s) {
          windows = write s.windows w (clicked x y is_down (s.windows w));
        }
      ])
  unfolding landed
  landed-Refines none s h = (d, refl, h)
  landed-Refines (some w) s h =
      let (ps, is, order, same, f0) = h in
      changed-Refines w (clicked x y is_down (d.windows w)) (clicked x y is_down (s.windows w))
        (if is_down then focus_window w d else done d) s (if is_down then brought w s else s)
        (focus_if is_down w d s h) (focus_if-windows is_down w s)
        (λ i. clicked x y is_down (same i w))

pub clicks-Refines :
    (x y : ℕ) (is_down : Bool) (d : Desktop) (s : Screen)
    → Shows d s
    → Refines (perform (clicks x y is_down) d) (promise (clicks x y is_down) s)
unfolding perform promise
clicks-Refines x y is_down d s (ps, is, order, same, f0) =
    let hit : top_hit d.windows (shown d.node ps) x y ≡ top_hit s.windows s.order x y =
      λ i. top_hit (same i) (order i) x y in
    subst (λ r. Refines r (promise (clicks x y is_down) s))
      (sym (walk-landed x y is_down d ps is ∙ ap (landed x y is_down d) hit))
      (landed-Refines x y is_down d (top_hit s.windows s.order x y) s (ps, is, order, same, f0))
