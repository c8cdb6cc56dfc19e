-- ===== src/Compositor/Order.antt =====
-- The compositor of src/gui/Compositor.cpp as a list of windows in their order on the screen, the
-- top-most one last.
use swish_kernel.Prelude.{
  ℕ, Bool, Option, none, some, ◌≡◌, ◌≢◌, refl, sym, ◌∙◌, ◌||◌, arith, List, [], ◌∷◌, ◌++◌, ◌==◌,
  if◌then◌else◌, null, Res, done, eq→beq, ne→beq, not, write,
}
use swish_kernel.Window.{Window, on_mouse_move}
use swish_kernel.Compositor.{
  Desktop, add_window, focus_window, cleanup_closed_windows, set_window, hits, clicked,
  inject_mouse_button, inject_mouse_move,
}
use swish_kernel.Compositor.Neighbours.{has, erase}
use swish_kernel.Compositor.Links.{IsStack}
use swish_kernel.Compositor.Stack.{ne_of_has}
use swish_kernel.Compositor.Added.{
  add-IsStack, added-window, added-windows, added-fresh, unused, apart,
}
use swish_kernel.Compositor.Find.{shown, shown-same, shown-snoc}
use swish_kernel.Compositor.Cleanup.{still_open, cleanup-Cleaned}

-- The windows from the bottom to the top, and what each one is.
pub record Screen : Type 0 where
  pub order : List ℕ
  pub windows : ℕ → Window

-- What happens to the windows: a new one, one that comes to the front, the removal of the closed ones
-- after a frame, a change of one of them, a press or a release of the left button at a point, and
-- a move of the mouse to one.
pub data Action : Type 0 where
  opens : ℕ → Action
  focuses : ℕ → Action
  cleans : Action
  changes : ℕ → Window → Action
  clicks : ℕ → ℕ → Bool → Action
  moves : ℕ → ℕ → Action

unfoldable pub keep_open : (ℕ → Window) → List ℕ → List ℕ
keep_open windows [] = []
keep_open windows (w ∷ ws) =
    if (windows w).should_close then keep_open windows ws else w ∷ keep_open windows ws

-- The last of the windows on which the point lies.
unfoldable pub top_hit : (ℕ → Window) → List ℕ → ℕ → ℕ → Option ℕ
top_hit windows [] x y = none
top_hit windows (w ∷ ws) x y = elim (top_hit windows ws x y) [
  | none ↦ if hits x y (windows w) then some w else none
  | some v ↦ some v
]

unfoldable pub top : List ℕ → Option ℕ
top [] = none
top (w ∷ []) = some w
top (w ∷ (v ∷ ws)) = top (v ∷ ws)

abbrev pub brought : ℕ → Screen → Screen
brought w s =
    if w == null || not (has w s.order) then s else record s { order = erase w s.order ++ w ∷ [] }

-- What is promised.
unfoldable pub promise : Action → Screen → Screen
promise (opens w) s = record s { order = s.order ++ w ∷ [] }
promise (focuses w) s = brought w s
promise cleans s = record s { order = keep_open s.windows s.order }
promise (changes w x) s = record s { windows = write s.windows w x }
promise (clicks x y is_down) s = elim (top_hit s.windows s.order x y) [
  | none ↦ s
  | some w ↦ record (if is_down then brought w s else s) {
    windows = write s.windows w (clicked x y is_down (s.windows w));
  }
]
promise (moves x y) s = elim (top s.order) [
  | none ↦ s
  | some w ↦ record s { windows = write s.windows w (on_mouse_move x y (s.windows w)) }
]

-- What the code does.
unfoldable pub perform : Action → Desktop → Res Desktop
perform (opens w) d = done (add_window w d)
perform (focuses w) d = focus_window w d
perform cleans d = cleanup_closed_windows d
perform (changes w x) d = done (set_window w x d)
perform (clicks x y is_down) d = inject_mouse_button x y is_down d
perform (moves x y) d = done (inject_mouse_move x y d)

abbrev pub Shows : Desktop → Screen → Type 0
Shows d s =
    (ps : List ℕ) × IsStack d ps
    × (shown d.node ps ≡ s.order)
    × (d.windows ≡ s.windows)
    × (d.fresh ≢ null)

-- The result is there and shows the screen.
abbrev pub Refines : Res Desktop → Screen → Type 0
Refines r s = (d : Desktop) × (r ≡ done d) × Shows d s

kept :
    (w : ℕ) (d : Desktop) (q : ℕ)
    → q ≢ d.fresh
    → (if q == d.fresh then w else (d.node q).window) ≡ (d.node q).window
kept w d q ne = rw (ne→beq ne) refl

entered : (w : ℕ) (d : Desktop) → (if d.fresh == d.fresh then w else (d.node d.fresh).window) ≡ w
entered w d = rw (eq→beq (let e : d.fresh ≡ d.fresh = refl in e)) refl

pub opens-Refines :
    (w : ℕ) (d : Desktop) (s : Screen)
    → Shows d s
    → Refines (perform (opens w) d) (promise (opens w) s)
unfolding perform promise
opens-Refines w d s (ps, is, order, same, f0) =
    let free = unused w is f0 in
    let out = apart w is f0 in
    (
      add_window w d,
      refl,
      (
        ps ++ d.fresh ∷ [],
        add-IsStack w is f0,
        shown-snoc (add_window w d).node ps d.fresh ∙ (λ i.
            (shown-same d.node (add_window w d).node ps
                  (λ q hq. added-window w d q out ∙ kept w d q (ne_of_has q ps d.fresh hq free))
                ∙ order)
              i
            ++ (added-window w d d.fresh out ∙ entered w d) i ∷ []),
        added-windows w d ∙ same,
        λ e. absurd (omega (arith, e, added-fresh w d)),
      ),
    )

keep_open-shown :
    (d : Desktop) (ps : List ℕ)
    → shown d.node (still_open d ps) ≡ keep_open d.windows (shown d.node ps)
unfolding shown still_open keep_open
keep_open-shown d [] = refl
keep_open-shown d (p ∷ ps) = ground (arith, keep_open-shown d ps)

pub cleans-Refines :
    (d : Desktop) (s : Screen) → Shows d s → Refines (perform cleans d) (promise cleans s)
unfolding perform promise
cleans-Refines d s (ps, is, order, same, f0) =
    let (e, r, left, (windows, node), fresh) = cleanup-Cleaned d ps is in
    (
      e,
      r,
      (
        still_open d ps,
        left,
        shown-same d.node e.node (still_open d ps) (λ q hq. node q)
            ∙ keep_open-shown d ps
            ∙ (λ i. keep_open (same i) (order i)),
        windows ∙ same,
        λ z. f0 (sym fresh ∙ z),
      ),
    )
