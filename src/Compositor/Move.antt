-- ===== src/Compositor/Move.antt =====
-- A move of the mouse in src/gui/Compositor.cpp goes to the top-most window.
use mathlib.Core.Path.{subst}
use swish_kernel.Prelude.{
  ℕ, ◌≡◌, ◌≢◌, refl, sym, ap, ◌∙◌, inl, inr, Option, none, some, List, [], ◌∷◌, ◌==◌, if◌then◌else◌,
  null, Bool-cases, done, write, ne→beq, eq→beq,
}
use swish_kernel.Window.{on_mouse_move}
use swish_kernel.Compositor.{CompositorWindow, Desktop, inject_mouse_move, set_window}
use swish_kernel.Compositor.Neighbours.{last_from}
use swish_kernel.Compositor.Links.{IsStack}
use swish_kernel.Compositor.Find.{shown}
use swish_kernel.Compositor.Order.{Screen, moves, promise, perform, Shows, Refines, top}
use swish_kernel.Compositor.Focus.{last_real}
use swish_kernel.Compositor.Click.{changed-Refines}

-- The top-most window is that of the last node.
top-shown :
    (node : ℕ → CompositorWindow) (b p : ℕ) (ps : List ℕ)
    → top (shown node (p ∷ ps)) ≡ some (node (last_from b (p ∷ ps))).window
unfolding top shown last_from
top-shown node b p [] = refl
top-shown node b p (q ∷ ps) = top-shown node p q ps

-- The window of the tail, if there is one.
abbrev pub top_window : Desktop → Option ℕ
top_window d = if d.tail == null then none else some (d.node d.tail).window

pub top_window-shown :
    (d : Desktop) (ps : List ℕ) → IsStack d ps → top_window d ≡ top (shown d.node ps)
unfolding shown top last_from
top_window-shown d [] is = rw (eq→beq is.tail_is) refl
top_window-shown d (p ∷ ps) is =
    let last : d.tail ≢ null = λ e. last_real null p ps is.real (sym is.tail_is ∙ e) in
    rw (ne→beq last)
      (sym (top-shown d.node null p ps ∙ ap (λ q. some (d.node q).window) (sym is.tail_is)))

-- What a move of the mouse does to the window.
moved : ℕ → ℕ → Option ℕ → Desktop → Desktop
moved x y none d = d
moved x y (some w) d = set_window w (on_mouse_move x y (d.windows w)) d

inject_mouse_move-moved :
    (x y : ℕ) (d : Desktop) → inject_mouse_move x y d ≡ moved x y (top_window d) d
unfolding inject_mouse_move moved
inject_mouse_move-moved x y d = elim (Bool-cases (d.tail == null)) [
  | inl e ↦ rw e refl
  | inr e ↦ rw e refl
]

moved-Refines :
    (x y : ℕ) (t : Option ℕ) (d : Desktop) (s : Screen)
    → Shows d s
    → d.windows ≡ s.windows
    → Refines (done (moved x y t d)) (elim t as (λ o. Screen) [
      | none ↦ s
      | some w ↦ record s { windows = write s.windows w (on_mouse_move x y (s.windows w)) }
    ])
unfolding moved
moved-Refines x y none d s h same = (d, refl, h)
moved-Refines x y (some w) d s h same =
    changed-Refines w (on_mouse_move x y (d.windows w)) (on_mouse_move x y (s.windows w)) (done d) s
      s (d, refl, h) refl (λ i. on_mouse_move x y (same i w))

pub moves-Refines :
    (x y : ℕ) (d : Desktop) (s : Screen)
    → Shows d s
    → Refines (perform (moves x y) d) (promise (moves x y) s)
unfolding perform promise
moves-Refines x y d s (ps, is, order, same, f0) =
    let on_top = top_window-shown d ps is ∙ ap top order in
    subst (λ e. Refines (done e) (promise (moves x y) s))
      (sym (inject_mouse_move-moved x y d ∙ ap (λ t. moved x y t d) on_top))
      (moved-Refines x y (top s.order) d s (ps, is, order, same, f0) same)
