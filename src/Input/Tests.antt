-- ===== src/Input/Tests.antt =====
-- Typing "Hi" in src/drivers/input/input.cpp: shift, H, shift released, I.
use swish_kernel.Prelude.{
  ℕ, ◌-◌, ◌<◌, ltb, if◌then◌else◌, ◌≡◌, refl, arith, List, [], ◌∷◌, done, ◌>>=◌,
}
use swish_kernel.Input.{Router, initialize, process_scancodes}
use swish_kernel.Input.MouseEvents.{on_mouse}
use swish_kernel.Int.{pos, negsuc}
use swish_kernel.RingBuffer.{KeyboardBuffer, MouseEvent}
use swish_kernel.RingBuffer.Queue.{contents}
use swish_kernel.Input.Drain.{Event, arrives, drains, handle, promised, waiting_in, handle-promised}
use swish_kernel.Input.Modifiers.{
  after, shift_after, ctrl_after, alt_after, caps_after, process_scancodes-after,
}
use swish_kernel.Input.Pointer.{asked, below, IsSmall, on_mouse-asked}

abbrev typing : List ℕ
typing = 42 ∷ 35 ∷ 163 ∷ 170 ∷ 23 ∷ 151 ∷ []

start-line : initialize.to_input_index ≡ 0
unfolding initialize
start-line = refl

abbrev empty_ring : KeyboardBuffer
empty_ring = record { buffer = λ i. 0; head = 200; tail = 200 }

abbrev evening : List Event
evening = arrives 35 ∷ arrives 163 ∷ drains ∷ arrives 23 ∷ drains ∷ arrives 151 ∷ []

handle-promised_example :
    (handle evening empty_ring initialize >>= λ x. done (waiting_in x))
    ≡ promised evening (contents empty_ring) initialize
handle-promised_example =
    handle-promised evening empty_ring initialize
      (record { head_in = omega arith; tail_in = omega arith })

-- Shift is pressed and released, Ctrl is held.
abbrev held : List ℕ
held = 42 ∷ 35 ∷ 163 ∷ 29 ∷ 170 ∷ 58 ∷ []

process_scancodes-after_example :
    (r' : Router) × (process_scancodes held initialize ≡ done r')
    × (r'.is_shift_active ≡ after shift_after held initialize.is_shift_active)
    × (r'.is_ctrl_active ≡ after ctrl_after held initialize.is_ctrl_active)
    × (r'.is_alt_active ≡ after alt_after held initialize.is_alt_active)
    × (r'.is_caps ≡ after caps_after held initialize.is_caps)
process_scancodes-after_example =
    process_scancodes-after held initialize (omega (arith, start-line))

-- A move up and to the right.
abbrev up_right : MouseEvent
up_right = record { delta_x = pos 9; delta_y = negsuc 4; buttons = 0 }

start-IsSmall :
    IsSmall initialize.mouse_x up_right.delta_x × IsSmall initialize.mouse_y up_right.delta_y
unfolding initialize
start-IsSmall = ((omega arith, omega arith, omega arith), (omega arith, omega arith, omega arith))

on_mouse-asked_example :
    ((on_mouse 640 480 up_right initialize).mouse_y ≡ asked initialize.mouse_y up_right.delta_y)
    × ((on_mouse 640 480 up_right initialize).mouse_x ≡ (
        if ltb (asked initialize.mouse_y up_right.delta_y) 480
        then below (asked initialize.mouse_x up_right.delta_x) 640
        else 480 - 1))
    × ((on_mouse 640 480 up_right initialize).mouse_x < 640)
on_mouse-asked_example =
    on_mouse-asked 640 480 up_right initialize (omega arith) (omega arith) (omega arith)
      (omega arith) start-IsSmall.0 start-IsSmall.1
