-- ===== src/Kernel/Loop.antt =====
-- A whole turn of the main loop of src/main.cpp, from the scancodes that wait to the frame buffer.
mod Tests
use mathlib.Core.Path.{subst}
use swish_kernel.Prelude.{
  ℕ, ◌+◌, ◌^◌, ◌<◌, ◌≡◌, ◌≢◌, refl, sym, ap, ◌∙◌, arith, Bool, true, false, List, [], ◌∷◌, not,
  if◌then◌else◌, null, Res, done, overrun, out_of_fuel, ◌>>=◌,
}
use swish_kernel.Graphics.{Surface}
use swish_kernel.Graphics.Paint.{Painted}
use swish_kernel.Shell.State.{Session}
use swish_kernel.Compositor.{Desktop}
use swish_kernel.Compositor.Order.{Screen, cleans, promise, Shows}
use swish_kernel.Input.{Router, in_terminal}
use swish_kernel.Input.Events.{Events, process_events}
use swish_kernel.Render.{Scene, render}
use swish_kernel.Render.Swap.{IsBuffer}
use swish_kernel.Render.Shows.{AllFit, seen, render-Displayed}
use swish_kernel.Kernel.{Kernel, terminal_turn}
use swish_kernel.Kernel.Gui.{Follows, Kind, carry_all, promise_calls, carry_all-Follows}

-- All that the main loop acts on. `kinds` tells the class of each window, `terminal_buffer` is what the
-- terminal emulator draws on.
pub record System : Type 0 where
  pub kernel : Kernel
  pub kinds : ℕ → Kind
  pub desktop : Desktop
  pub scene : Scene
  pub terminal_buffer : Surface
  pub framebuffer : Surface

-- The calls of the router that are carried out.
abbrev pub called : Events → Session → Kernel
called e s = record { events = record e { router = record e.router { calls = [] } }; session = s }

-- The end of a turn in the graphical context.
abbrev pub rendered : System → Kernel → Desktop × Scene × Surface → System
rendered m k (d, scene, framebuffer) = record m {
  kernel = k;
  desktop = d;
  scene = scene;
  framebuffer = framebuffer;
}

-- The part of a turn that follows the events.
unfoldable pub after_events : (ℕ → ℕ → ℕ) → System → Events → Res (Bool × System)
after_events font m e = do
  (session, desktop) ← carry_all m.kinds e.router.calls m.kernel.session m.desktop
  let k : Kernel = called e session
  if in_terminal e.router
      then (terminal_turn k >>= λ x. done (x.0, record m { kernel = x.1; desktop = desktop }))
      else (render font e.router.mouse_x e.router.mouse_y true desktop m.scene m.terminal_buffer
            m.framebuffer
          >>= λ x. done (false, rendered m k x))

-- The calls of the router are carried out once its events are through; the events do not read what the
-- calls change, but for `display`, which asks for the context that is shown.
pub turn : (ℕ → ℕ → ℕ) → ℕ → ℕ → System → Res (Bool × System)
turn font width height m = process_events width height m.kernel.events >>= after_events font m

-- The loop goes on with a system that has the promised session and windows, and their picture is on the
-- frame buffer.
abbrev pub Pictured :
    (ℕ → ℕ → ℕ) → System → Router → Session → Screen → Res (Bool × System) → Type 0
Pictured font m r s screen result =
    (after : System) × (result ≡ done (false, after))
    × (after.kernel.session ≡ s)
    × Shows after.desktop (promise cleans screen)
    × Painted m.framebuffer after.framebuffer
        (λ a b v. seen font screen m.scene r.mouse_x r.mouse_y a b)

module _ (font : ℕ → ℕ → ℕ) (m : System) (screen : Screen) (cells : ℕ) where
  -- A turn that ends in the graphical context, on a desktop that shows a screen, returns and the loop goes
  -- on: the windows and the session become what the calls promise that the events made the router
  -- issue, and the frame buffer then shows at each pixel the cursor, the top-most of these windows or
  -- the background. The calls are taken not to end in an error, and the surfaces, the screen and the
  -- mouse are as for `render-Displayed`.
  pub turn-Pictured :
      (width height : ℕ) (e : Events) (s : Session) (screen' : Screen)
      → Shows m.desktop screen
      → process_events width height m.kernel.events ≡ done e
      → in_terminal e.router ≡ false
      → promise_calls m.kinds e.router.calls m.kernel.session screen ≡ done (s, screen')
      → IsBuffer cells m.framebuffer m.scene.screen
      → m.scene.screen.buffer ≢ null
      → AllFit screen' m.scene
      → e.router.mouse_x + 22 < 2 ^ 32
      → e.router.mouse_y + 28 < 2 ^ 32
      → Pictured font m e.router s screen' (turn font width height m)
  unfolding turn after_events
  turn-Pictured width height e s screen' shows events_run graphical promised same real fit hx hy =
      let (d, run, shows') =
        subst (Follows (carry_all m.kinds e.router.calls m.kernel.session m.desktop)) promised
          (carry_all-Follows m.kinds e.router.calls m.kernel.session m.desktop screen shows) in
      let (d', scene', shown, drawn, cleaned, painted) =
        render-Displayed font e.router.mouse_x e.router.mouse_y d m.scene screen' m.terminal_buffer
          m.framebuffer cells shows' same real fit hx hy in
      (
        rendered m (called e s) (d', scene', shown),
        ap (λ r. r >>= after_events font m) events_run ∙ rw (run, graphical, drawn) refl,
        refl,
        cleaned,
        painted,
      )
