-- ===== src/Kernel/Gui.antt =====
-- The graphical context of src/main.cpp: the calls that the router of src/drivers/input/input.cpp makes
-- to the compositor, and a whole turn of the main loop.
mod Tests
use mathlib.Core.Path.{subst}
use swish_kernel.Prelude.{
  ℕ, ◌≡◌, refl, sym, ap, ◌∙◌, Bool, true, false, List, [], ◌∷◌, inl, inr, Option, none, some, ◌==◌,
  if◌then◌else◌, Bool-cases, null, write, Res, done, overrun, out_of_fuel, ◌>>=◌,
}
use swish_kernel.Text.{Bytes}
use swish_kernel.Graphics.{Surface}
use swish_kernel.Window.{Window}
use swish_kernel.TerminalWindow
use swish_kernel.Shell.State.{Session}
use swish_kernel.Compositor.{Desktop, set_window, inject_mouse_button, inject_mouse_move}
use swish_kernel.Compositor.Order.{
  Screen, Action, clicks, moves, promise, perform, Shows, Refines, top,
}
use swish_kernel.Compositor.Focus.{changes-Refines}
use swish_kernel.Compositor.Click.{clicks-Refines}
use swish_kernel.Compositor.Move.{top_window, top_window-shown, moves-Refines}
use swish_kernel.Input.{Call, key, mouse_button, mouse_move, in_terminal}
use swish_kernel.Input.Events.{Events, process_events}
use swish_kernel.Render.{Scene, render}
use swish_kernel.Kernel.{Kernel, terminal_turn}

-- The class of a window: `Window`, or `TerminalWindow` with its prompt.
pub data Kind : Type 0 where
  plain : Kind
  runs_shell : Bytes → Kind

-- The virtual method `inject_key`.
unfoldable pub window_key : Kind → ℕ → Session → Window → Res (Session × Window)
window_key plain c s w = swish_kernel.Window.inject_key c w >>= λ w'. done (s, w')
window_key (runs_shell prompt) c s w = swish_kernel.TerminalWindow.inject_key prompt c s w

module _ (kinds : ℕ → Kind) where
  -- `Compositor::inject_key`
  unfoldable pub press_key : ℕ → Session → Desktop → Res (Session × Desktop)
  press_key c s d =
      if d.tail == null
      then done (s, d)
      else let top = (d.node d.tail).window in
        (window_key (kinds top) c s (d.windows top) >>= λ x. done (x.0, set_window top x.1 d))

  -- A call of the router, and the calls of a turn, oldest first.
  unfoldable pub carry_out : Call → Session → Desktop → Res (Session × Desktop)
  carry_out (key c) s d = press_key c s d
  carry_out (mouse_button x y is_down) s d = inject_mouse_button x y is_down d >>= λ e. done (s, e)
  carry_out (mouse_move x y) s d = done (s, inject_mouse_move x y d)

  unfoldable pub carry_all : List Call → Session → Desktop → Res (Session × Desktop)
  carry_all [] s d = done (s, d)
  carry_all (call ∷ calls) s d = carry_out call s d >>= λ x. carry_all calls x.0 x.1

  -- What a call is to do to the windows in their order.
  unfoldable pub promise_key : ℕ → Session → Screen → Res (Session × Screen)
  promise_key c s screen = elim (top screen.order) [
    | none ↦ done (s, screen)
    | some w ↦ window_key (kinds w) c s (screen.windows w) >>= λ x.
        done (x.0, record screen { windows = write screen.windows w x.1 })
  ]

  unfoldable pub promise_call : Call → Session → Screen → Res (Session × Screen)
  promise_call (key c) s screen = promise_key c s screen
  promise_call (mouse_button x y is_down) s screen = done (s, promise (clicks x y is_down) screen)
  promise_call (mouse_move x y) s screen = done (s, promise (moves x y) screen)

  unfoldable pub promise_calls : List Call → Session → Screen → Res (Session × Screen)
  promise_calls [] s screen = done (s, screen)
  promise_calls (call ∷ calls) s screen =
      promise_call call s screen >>= λ x. promise_calls calls x.0 x.1

-- The result on the desktop is the promised one, errors included.
abbrev pub Follows : Res (Session × Desktop) → Res (Session × Screen) → Type 0
Follows r (done (s, screen)) = (d : Desktop) × (r ≡ done (s, d)) × Shows d screen
Follows r overrun = r ≡ overrun
Follows r out_of_fuel = r ≡ out_of_fuel

key-Follows :
    (a : Res (Session × Window)) (w : ℕ) (d : Desktop) (screen : Screen)
    → Shows d screen
    → Follows
        (a >>= λ x. done (x.0, set_window w x.1 d))
        (a >>= λ x. done (x.0, record screen { windows = write screen.windows w x.1 }))
unfolding perform promise
key-Follows (done (s, x)) w d screen h =
    let (e, r, shows) = changes-Refines w x d screen h in
    (e, ap (λ z. z >>= λ e'. done (s, e')) r, shows)
key-Follows overrun w d screen h = refl
key-Follows out_of_fuel w d screen h = refl

Refines-Follows :
    (r : Res Desktop) (s : Session) (screen : Screen)
    → Refines r screen
    → Follows (r >>= λ e. done (s, e)) (done (s, screen))
Refines-Follows r s screen (e, run, shows) = (e, ap (λ z. z >>= λ e'. done (s, e')) run, shows)

module _ (kinds : ℕ → Kind) where
  abbrev key_on : Option ℕ → ℕ → Session → Desktop → Res (Session × Desktop)
  key_on none c s d = done (s, d)
  key_on (some w) c s d =
      window_key (kinds w) c s (d.windows w) >>= λ x. done (x.0, set_window w x.1 d)

  press_key-key_on :
      (c : ℕ) (s : Session) (d : Desktop) → press_key kinds c s d ≡ key_on (top_window d) c s d
  unfolding press_key
  press_key-key_on c s d = elim (Bool-cases (d.tail == null)) [
    | inl e ↦ rw e refl
    | inr e ↦ rw e refl
  ]

  key_on-Follows :
      (t : Option ℕ) (c : ℕ) (s : Session) (d : Desktop) (screen : Screen)
      → Shows d screen
      → d.windows ≡ screen.windows
      → Follows (key_on t c s d) (elim t as (λ o. Res (Session × Screen)) [
        | none ↦ done (s, screen)
        | some w ↦ window_key (kinds w) c s (screen.windows w) >>= λ x.
            done (x.0, record screen { windows = write screen.windows w x.1 })
      ])
  key_on-Follows none c s d screen h same = (d, refl, h)
  key_on-Follows (some w) c s d screen h same =
      subst
        (λ v. Follows (window_key (kinds w) c s v >>= λ x. done (x.0, set_window w x.1 d)) (
          window_key (kinds w) c s (screen.windows w) >>= λ x.
          done (x.0, record screen { windows = write screen.windows w x.1 })))
        (λ i. sym same i w) (key-Follows (window_key (kinds w) c s (screen.windows w)) w d screen h)

  press_key-Follows :
      (c : ℕ) (s : Session) (d : Desktop) (screen : Screen)
      → Shows d screen
      → Follows (press_key kinds c s d) (promise_key kinds c s screen)
  unfolding promise_key
  press_key-Follows c s d screen (ps, is, order, same, f0) =
      let on_top = top_window-shown d ps is ∙ ap top order in
      subst (λ r. Follows r (promise_key kinds c s screen))
        (sym (press_key-key_on c s d ∙ ap (λ t. key_on t c s d) on_top))
        (key_on-Follows (top screen.order) c s d screen (ps, is, order, same, f0) same)

  carry_out-Follows :
      (call : Call) (s : Session) (d : Desktop) (screen : Screen)
      → Shows d screen
      → Follows (carry_out kinds call s d) (promise_call kinds call s screen)
  unfolding carry_out promise_call perform
  carry_out-Follows (key c) s d screen h = press_key-Follows c s d screen h
  carry_out-Follows (mouse_button x y is_down) s d screen h =
      Refines-Follows (inject_mouse_button x y is_down d) s (promise (clicks x y is_down) screen)
        (clicks-Refines x y is_down d screen h)
  carry_out-Follows (mouse_move x y) s d screen h =
      Refines-Follows (done (inject_mouse_move x y d)) s (promise (moves x y) screen)
        (moves-Refines x y d screen h)

  next-Follows :
      (r : Res (Session × Desktop)) (promised : Res (Session × Screen))
      (go : Session → Desktop → Res (Session × Desktop))
      (goal : Session → Screen → Res (Session × Screen))
      → Follows r promised
      → ((s : Session) (d : Desktop) (screen : Screen)
          → Shows d screen
          → Follows (go s d) (goal s screen))
      → Follows (r >>= λ x. go x.0 x.1) (promised >>= λ x. goal x.0 x.1)
  next-Follows r (done (s, screen)) go goal (d, run, shows) rest =
      subst (λ z. Follows (z >>= λ x. go x.0 x.1) (goal s screen)) (sym run) (rest s d screen shows)
  next-Follows r overrun go goal run rest = ap (λ z. z >>= λ x. go x.0 x.1) run
  next-Follows r out_of_fuel go goal run rest = ap (λ z. z >>= λ x. go x.0 x.1) run

  -- On a desktop that shows a screen, any calls of the router, carried out in their order, have the result
  -- that they promise on the windows of the screen, errors of the windows and of the shell included: a
  -- key goes to the top-most window, a button to the top-most one that is hit, a move to the top-most
  -- one; and the desktop then shows that screen.
  pub carry_all-Follows :
      (calls : List Call) (s : Session) (d : Desktop) (screen : Screen)
      → Shows d screen
      → Follows (carry_all kinds calls s d) (promise_calls kinds calls s screen)
  unfolding carry_all promise_calls
  carry_all-Follows [] s d screen h = (d, refl, h)
  carry_all-Follows (call ∷ calls) s d screen h =
      next-Follows (carry_out kinds call s d) (promise_call kinds call s screen)
        (carry_all kinds calls) (promise_calls kinds calls) (carry_out-Follows call s d screen h)
        (λ s' d' screen' h'. carry_all-Follows calls s' d' screen' h')
