-- ===== src/Input.antt =====
-- src/drivers/input/input.cpp: the router that takes scancodes and mouse events from the ring
-- buffers to the terminal line or to the compositor.
pub mod MouseEvents
pub mod Keys
pub mod Line
pub mod Bounds
pub mod Drain
pub mod Events
pub mod Pointer
pub mod Modifiers
mod Tests
use swish_kernel.Prelude.{
  ℕ, zero, suc, ◌+◌, ◌-◌, ◌%◌, ◌^◌, Bool, true, false, not, ◌&&◌, ◌||◌, List, [], ◌∷◌, ◌++◌, Option,
  none, some, ltb, leb, ◌==◌, if◌then◌else◌, write, Res, done, out_of_fuel, ◌>>=◌, in_bounds,
}
use swish_kernel.Int.{ℤ, pos, ◌+ℤ◌, ltb_ℤ, pos_part}
use swish_kernel.Text.{Bytes}
use swish_kernel.RingBuffer.{Ring, pop, MouseEvent}
use Keys.{KeyState, initial_key, determine_case}

pub data DisplayContext : Type 0 where
  terminal : DisplayContext
  gui : DisplayContext

abbrev pub line_buffer_size : ℕ
line_buffer_size = 1024

-- A call of the compositor.
pub data Call : Type 0 where
  key : ℕ → Call
  mouse_button : ℕ → ℕ → Bool → Call
  mouse_move : ℕ → ℕ → Call

-- The variables of the file. `output` is what was written to `cout`, `calls` are the calls of the
-- compositor, oldest first.
pub record Router : Type 0 where
  pub line_ready : Bool
  pub dirty : Bool
  pub has_compositor : Bool
  pub keyboard_state : ℕ → KeyState
  pub is_extended : Bool
  pub is_caps : Bool
  pub is_shift_active : Bool
  pub is_ctrl_active : Bool
  pub is_alt_active : Bool
  pub mouse_x : ℕ
  pub mouse_y : ℕ
  pub left_button_was_down : Bool
  pub right_button_was_down : Bool
  pub middle_button_was_down : Bool
  pub input_buffer : ℕ → ℕ
  pub to_input_index : ℕ
  pub input_len : ℕ
  pub active_context : DisplayContext
  pub output : Bytes
  pub calls : List Call

-- The variables before `initialize`, and after it.
pub initialize : Router
initialize = record {
  line_ready = false;
  dirty = true;
  has_compositor = false;
  keyboard_state = initial_key;
  is_extended = false;
  is_caps = false;
  is_shift_active = false;
  is_ctrl_active = false;
  is_alt_active = false;
  mouse_x = 0;
  mouse_y = 0;
  left_button_was_down = false;
  right_button_was_down = false;
  middle_button_was_down = false;
  input_buffer = λ i. 0;
  to_input_index = 0;
  input_len = 0;
  active_context = terminal;
  output = [];
  calls = [];
}

abbrev pub in_terminal : Router → Bool
in_terminal r = elim r.active_context [ terminal ↦ true | gui ↦ false ]

abbrev pub echo : Bytes → Router → Router
echo text r = record r { output = r.output ++ text }

-- `send_to_terminal` with its flags. The indices are `uint16_t`.
unfoldable pub send_to_terminal : ℕ → Bool → Bool → Bool → Router → Res Router
send_to_terminal c should_buffer should_increment should_print r =
    if not (in_terminal r) then done r else do
      stored ←
          if not should_buffer
          then done r
          else let put : Router = record r {
            input_buffer = write r.input_buffer r.to_input_index c;
          } in
            let next : ℕ = (r.to_input_index + 1) % 2 ^ 16 in
            in_bounds (ltb r.to_input_index line_buffer_size) (
              if not should_increment then put else record put {
                to_input_index = next;
                input_len =
                    if leb r.input_len next then (r.input_len + 1) % 2 ^ 16 else r.input_len;
              })
      done (if should_print then echo (c ∷ []) stored else stored)

unfoldable pub send_to_gui : ℕ → Router → Router
send_to_gui c r = if r.has_compositor then record r { calls = r.calls ++ key c ∷ [] } else r

unfoldable pub send_to_active_context : ℕ → Router → Res Router
unfolding send_to_terminal send_to_gui
send_to_active_context c r =
    if in_terminal r then send_to_terminal c true true true r else done (send_to_gui c r)

abbrev pub switch_to_terminal : Router → Router
switch_to_terminal r = record r { active_context = terminal }

abbrev pub switch_to_gui : Router → Router
switch_to_gui r = record r { active_context = gui }

-- The branch of the backspace key.
unfoldable pub on_backspace : Router → Res Router
unfolding send_to_terminal send_to_gui
on_backspace r =
    if not (in_terminal r)
    then done (send_to_gui 8 r)
    else if r.to_input_index == 0
    then done r
    else let erased : Router = echo (8 ∷ b' ' ∷ 8 ∷ []) r in
      send_to_terminal 0 true false false (record erased { to_input_index = r.to_input_index - 1 })

-- The branch of the enter key.
unfoldable pub on_enter : Router → Res Router
unfolding send_to_gui
on_enter r =
    if not (in_terminal r)
    then done (send_to_gui 10 r)
    else in_bounds (ltb r.to_input_index line_buffer_size) (record (echo (b'\r' ∷ b'\n' ∷ []) r) {
      input_buffer = write r.input_buffer r.to_input_index 0;
      line_ready = true;
    })

-- The branch of a key that is pressed: the shortcuts of Ctrl and Alt, and the printable keys.
unfoldable pub on_press : ℕ → Router → Res Router
unfolding send_to_active_context
on_press index r =
    let pressed : KeyState = r.keyboard_state index in
    let chord : Bool = r.is_ctrl_active && r.is_alt_active in
    if chord && index == 20
    then done (switch_to_terminal r)
    else if chord && index == 32
    then done (switch_to_gui r)
    else if pressed.is_printable
    then send_to_active_context (determine_case pressed r.is_shift_active r.is_caps) r
    else done r

-- The index into `keyboard_state`, a `uint8_t`.
unfoldable pub key_index : ℕ → Bool → ℕ
key_index scancode is_extended =
    let index = if leb 128 scancode then scancode - 128 else scancode in
    if is_extended then (index + 128) % 256 else index

-- One round of `process_keyboard_events`.
unfoldable pub on_scancode : ℕ → Router → Res Router
unfolding key_index on_press on_enter on_backspace
on_scancode scancode r =
    let index : ℕ = key_index scancode r.is_extended in
    let is_release : Bool = leb 128 scancode in
    let r' : Router = record r {
      is_extended = false;
      keyboard_state =
          write r.keyboard_state index
            (record (r.keyboard_state index) { is_down = not is_release });
    } in
    let dirtied : Router = record r' { dirty = true } in
    if scancode == 224
    then done (record r { is_extended = true })
    else if scancode == 58
    then done (record r' { is_caps = not r.is_caps })
    else if scancode == 42 || scancode == 54
    then done (record r' { is_shift_active = true })
    else if scancode == 29
    then done (record r' { is_ctrl_active = true })
    else if scancode == 56
    then done (record r' { is_alt_active = true })
    else if scancode == 170 || scancode == 182
    then done (record r' { is_shift_active = false })
    else if scancode == 157
    then done (record r' { is_ctrl_active = false })
    else if scancode == 184
    then done (record r' { is_alt_active = false })
    else if scancode == 14
    then on_backspace dirtied
    else if scancode == 28
    then on_enter dirtied
    else if is_release
    then done dirtied
    else on_press index dirtied

-- `process_keyboard_events` on the scancodes that the buffer holds, oldest first.
unfoldable pub process_scancodes : List ℕ → Router → Res Router
process_scancodes [] r = done r
process_scancodes (scancode ∷ rest) r = on_scancode scancode r >>= process_scancodes rest

-- The loop of `process_keyboard_events` over the ring buffer; `buffer_size` rounds empty it.
unfoldable pub process_keyboard_events : ℕ → Ring ℕ → Router → Res (Ring ℕ × Router)
process_keyboard_events zero ring r = out_of_fuel
process_keyboard_events (suc fuel) ring r =
    let popped = pop ring in
    elim popped.0 [
      | none ↦ done (popped.1, r)
      | some scancode ↦ on_scancode scancode r >>= process_keyboard_events fuel popped.1
    ]

-- `fetch_line`: the bytes of the line with their NUL, and the router with an empty line. `max_len`
-- is at least 1.
unfoldable pub fetch_line : ℕ → Router → Bytes × Router
fetch_line max_len r =
    let copy_len : ℕ =
      if ltb r.to_input_index (max_len - 1) then r.to_input_index else max_len - 1 in
    (
      Line.cells r.input_buffer copy_len ++ 0 ∷ [],
      record r { input_buffer = λ i. 0; to_input_index = 0; input_len = 0; line_ready = false },
    )
