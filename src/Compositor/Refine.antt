-- ===== src/Compositor/Refine.antt =====
-- The pointers of src/gui/Compositor.cpp keep the promise of Compositor/Order.
use swish_kernel.Prelude.{refl, ap, ◌∙◌, List, [], ◌∷◌, Res, done, ◌>>=◌}
use swish_kernel.Compositor.{Desktop}
use swish_kernel.Compositor.Order.{
  Screen, Action, opens, focuses, cleans, changes, promise, perform, Shows, Refines, opens-Refines,
  clicks, moves, cleans-Refines,
}
use swish_kernel.Compositor.Focus.{focuses-Refines, changes-Refines}
use swish_kernel.Compositor.Click.{clicks-Refines}
use swish_kernel.Compositor.Move.{moves-Refines}

pub perform-Refines :
    (a : Action) (d : Desktop) (s : Screen) → Shows d s → Refines (perform a d) (promise a s)
perform-Refines (opens w) d s h = opens-Refines w d s h
perform-Refines (focuses w) d s h = focuses-Refines w d s h
perform-Refines cleans d s h = cleans-Refines d s h
perform-Refines (changes w x) d s h = changes-Refines w x d s h
perform-Refines (clicks x y is_down) d s h = clicks-Refines x y is_down d s h
perform-Refines (moves x y) d s h = moves-Refines x y d s h

-- A sequence of actions, by the code and by the promise.
unfoldable pub perform_all : List Action → Desktop → Res Desktop
perform_all [] d = done d
perform_all (a ∷ todo) d = perform a d >>= perform_all todo

unfoldable pub promise_all : List Action → Screen → Screen
promise_all [] s = s
promise_all (a ∷ todo) s = promise_all todo (promise a s)

-- From a desktop that shows a screen, any sequence of new windows, windows brought to the front, removals
-- of closed windows, changes of windows, and presses, releases and moves of the mouse returns, and the
-- desktop then shows what the promises make of the screen: the links in both directions are those of
-- one list, from the head to the tail.
pub perform_all-Refines :
    (todo : List Action) (d : Desktop) (s : Screen)
    → Shows d s
    → Refines (perform_all todo d) (promise_all todo s)
unfolding perform_all promise_all
perform_all-Refines [] d s h = (d, refl, h)
perform_all-Refines (a ∷ todo) d s h =
    let (e, r, shows) = perform-Refines a d s h in
    let (g, r', shows') = perform_all-Refines todo e (promise a s) shows in
    (g, ap (λ x. x >>= perform_all todo) r ∙ r', shows')
