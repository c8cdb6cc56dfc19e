-- ===== src/Input/Events.antt =====
-- A round of both event queues in src/drivers/input/input.cpp, and what the main loop calls besides.
use swish_kernel.Prelude.{
  ℕ, zero, suc, true, false, none, some, if◌then◌else◌, Res, done, out_of_fuel, ◌>>=◌,
}
use swish_kernel.RingBuffer.{pop, KeyboardBuffer, MouseBuffer, buffer_size}
use swish_kernel.Input.{Router, process_keyboard_events, in_terminal}
use swish_kernel.Input.MouseEvents.{on_mouse}

-- The loop of `process_mouse_events`; `buffer_size` rounds empty the ring.
unfoldable pub process_mouse_events : ℕ → ℕ → ℕ → MouseBuffer → Router → Res (MouseBuffer × Router)
process_mouse_events zero width height ring r = out_of_fuel
process_mouse_events (suc fuel) width height ring r =
    let popped = pop ring in
    elim popped.0 [
      | none ↦ done (popped.1, r)
      | some event ↦ process_mouse_events fuel width height popped.1 (on_mouse width height event r)
    ]

-- The two queues and the router.
pub record Events : Type 0 where
  pub keyboard : KeyboardBuffer
  pub mouse : MouseBuffer
  pub router : Router

-- `width` and `height` are those of the screen.
unfoldable pub process_events : ℕ → ℕ → Events → Res Events
process_events width height e = do
  typed ← process_keyboard_events buffer_size e.keyboard e.router
  moved ← process_mouse_events buffer_size width height e.mouse typed.1
  done (record { keyboard = typed.0; mouse = moved.0; router = moved.1 })

pub set_compositor : Router → Router
set_compositor r = record r { has_compositor = true }

-- `flush_terminal_updates`, without the copy to the frame buffer.
unfoldable pub flush_terminal_updates : Router → Router
flush_terminal_updates r = if in_terminal r then record r { dirty = false } else r
