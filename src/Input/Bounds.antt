-- ===== src/Input/Bounds.antt =====
-- The line buffer of src/drivers/input/input.cpp is not overrun by short lines.
use swish_kernel.Prelude.{
  ℕ, suc, ◌+◌, ◌≤◌, ◌<◌, ◌≡◌, refl, inl, inr, Bool, true, false, not, ◌&&◌, ◌||◌, arith, List, [],
  ◌∷◌, ltb, leb, ◌==◌, if◌then◌else◌, length, write, Res, done, ◌>>=◌, Bool-cases, lt→ltb,
  in_bounds, ◌%◌, ◌^◌, ◌-◌,
}
use swish_kernel.Text.{Bytes}
use swish_kernel.Input.Keys.{determine_case}
use swish_kernel.Input.{
  Router, line_buffer_size, in_terminal, echo, send_to_terminal, send_to_gui,
  send_to_active_context, on_backspace, on_enter, on_press, on_scancode, key_index,
  process_scancodes, switch_to_terminal, switch_to_gui,
}

-- The result is there, and the line has at most one character more than `n`.
abbrev pub Typed : ℕ → Res Router → Type 0
Typed n x = (r : Router) × (x ≡ done r) × (r.to_input_index ≤ suc n)

Typed-done : (n : ℕ) (r : Router) → r.to_input_index ≤ suc n → Typed n (done r)
Typed-done n r h = (r, refl, h)

Typed-if :
    (n : ℕ) (b : Bool) (x y : Res Router) → Typed n x → Typed n y → Typed n (if b then x else y)
Typed-if n true x y hx hy = hx
Typed-if n false x y hx hy = hy

send_to_gui-line : (c : ℕ) (r : Router) → (send_to_gui c r).to_input_index ≡ r.to_input_index
unfolding send_to_gui
send_to_gui-line c r = elim (Bool-cases r.has_compositor) [ inl h ↦ rw h refl | inr h ↦ rw h refl ]

shown-Typed :
    (n : ℕ) (prints : Bool) (text : Bytes) (r : Router)
    → r.to_input_index ≤ suc n
    → Typed n (done (if prints then echo text r else r))
shown-Typed n true text r h = Typed-done n (echo text r) h
shown-Typed n false text r h = Typed-done n r h

next_line : (n : ℕ) → n < line_buffer_size → (n + 1) % 2 ^ 16 ≤ suc n
next_line n h = omega arith

-- The part of `send_to_terminal` behind its first test.
stored-Typed :
    (c : ℕ) (buffers increments prints : Bool) (r : Router)
    → r.to_input_index < line_buffer_size
    → Typed r.to_input_index (
        (if not buffers
          then done r
          else in_bounds (ltb r.to_input_index line_buffer_size) (
              if not increments
              then record r { input_buffer = write r.input_buffer r.to_input_index c }
              else record r {
                input_buffer = write r.input_buffer r.to_input_index c;
                to_input_index = (r.to_input_index + 1) % 2 ^ 16;
                input_len =
                    if leb r.input_len ((r.to_input_index + 1) % 2 ^ 16)
                    then (r.input_len + 1) % 2 ^ 16
                    else r.input_len;
              }))
        >>= λ stored. done (if prints then echo (c ∷ []) stored else stored))
stored-Typed c false increments prints r h =
    shown-Typed r.to_input_index prints (c ∷ []) r (omega arith)
stored-Typed c true false prints r h = rw (lt→ltb h) (
    shown-Typed r.to_input_index prints (c ∷ [])
      (record r { input_buffer = write r.input_buffer r.to_input_index c }) (omega arith))
stored-Typed c true true prints r h = rw (lt→ltb h) (
    shown-Typed r.to_input_index prints (c ∷ [])
      (record r {
        input_buffer = write r.input_buffer r.to_input_index c;
        to_input_index = (r.to_input_index + 1) % 2 ^ 16;
        input_len =
            if leb r.input_len ((r.to_input_index + 1) % 2 ^ 16)
            then (r.input_len + 1) % 2 ^ 16
            else r.input_len;
      })
      (next_line r.to_input_index h))

send_to_terminal-Typed :
    (c : ℕ) (buffers increments prints : Bool) (r : Router)
    → r.to_input_index < line_buffer_size
    → Typed r.to_input_index (send_to_terminal c buffers increments prints r)
unfolding send_to_terminal
send_to_terminal-Typed c buffers increments prints r h = elim (Bool-cases (in_terminal r)) [
  | inr other ↦ rw other (r, refl, omega arith)
  | inl here ↦ rw here (stored-Typed c buffers increments prints r h)
]

gui-Typed : (c : ℕ) (r : Router) → Typed r.to_input_index (done (send_to_gui c r))
gui-Typed c r = (send_to_gui c r, refl, omega (arith, send_to_gui-line c r))

on_backspace-Typed :
    (r : Router) → r.to_input_index < line_buffer_size → Typed r.to_input_index (on_backspace r)
unfolding on_backspace
on_backspace-Typed r h = Typed-if r.to_input_index (not (in_terminal r)) _ _ (gui-Typed 8 r) (
    Typed-if r.to_input_index (r.to_input_index == 0) _ _ (r, refl, omega arith)
      (let erased : Router = record (echo (8 ∷ b' ' ∷ 8 ∷ []) r) {
        to_input_index = r.to_input_index - 1;
      } in
        let (r', e, few) = send_to_terminal-Typed 0 true false false erased (omega arith) in
        (r', e, omega (arith, few))))

on_enter-Typed :
    (r : Router) → r.to_input_index < line_buffer_size → Typed r.to_input_index (on_enter r)
unfolding on_enter
on_enter-Typed r h =
    Typed-if r.to_input_index (not (in_terminal r)) _ _ (gui-Typed 10 r)
      (rw (lt→ltb h) (Typed-done r.to_input_index _ (omega arith)))

on_press-Typed :
    (index : ℕ) (r : Router)
    → r.to_input_index < line_buffer_size
    → Typed r.to_input_index (on_press index r)
unfolding on_press send_to_active_context
on_press-Typed index r h =
    let n = r.to_input_index in
    let pressed = r.keyboard_state index in
    let c = determine_case pressed r.is_shift_active r.is_caps in
    let same = Typed-done n r (omega arith) in
    Typed-if n (r.is_ctrl_active && r.is_alt_active && index == 20) _ _
      (Typed-done n (switch_to_terminal r) (omega arith))
      (Typed-if n (r.is_ctrl_active && r.is_alt_active && index == 32) _ _
        (Typed-done n (switch_to_gui r) (omega arith))
        (Typed-if n pressed.is_printable _ _
          (Typed-if n (in_terminal r) _ _ (send_to_terminal-Typed c true true true r h)
            (gui-Typed c r))
          same))

-- One scancode of any kind is handled without an access outside the line buffer, as long as the line
-- is not full.
on_scancode-Typed :
    (scancode : ℕ) (r : Router)
    → r.to_input_index < line_buffer_size
    → Typed r.to_input_index (on_scancode scancode r)
unfolding on_scancode
on_scancode-Typed scancode r h =
    let n = r.to_input_index in
    let index : ℕ = key_index scancode r.is_extended in
    let r' : Router = record r {
      is_extended = false;
      keyboard_state =
          write r.keyboard_state index
            (record (r.keyboard_state index) { is_down = not (leb 128 scancode) });
    } in
    let dirtied : Router = record r' { dirty = true } in
    let keeps : n ≤ suc n = omega arith in
    let flag : (x : Router) → x.to_input_index ≡ n → Typed n (done x) =
      λ x e. Typed-done n x (omega (arith, e)) in
    Typed-if n (scancode == 224) _ _ (flag (record r { is_extended = true }) refl) (
      Typed-if n (scancode == 58) _ _ (flag (record r' { is_caps = not r.is_caps }) refl) (
        Typed-if n (scancode == 42 || scancode == 54) _ _
          (flag (record r' { is_shift_active = true }) refl)
          (Typed-if n (scancode == 29) _ _ (flag (record r' { is_ctrl_active = true }) refl) (
            Typed-if n (scancode == 56) _ _ (flag (record r' { is_alt_active = true }) refl) (
              Typed-if n (scancode == 170 || scancode == 182) _ _
                (flag (record r' { is_shift_active = false }) refl)
                (Typed-if n (scancode == 157) _ _ (flag (record r' { is_ctrl_active = false }) refl)
                  (Typed-if n (scancode == 184) _ _
                    (flag (record r' { is_alt_active = false }) refl)
                    (Typed-if n (scancode == 14) _ _ (on_backspace-Typed dirtied h) (
                      Typed-if n (scancode == 28) _ _ (on_enter-Typed dirtied h) (
                        Typed-if n (leb 128 scancode) _ _ (flag dirtied refl)
                          (on_press-Typed index dirtied h)))))))))))

-- Any scancodes that together with the line are at most 1024 are handled without an access outside
-- the line buffer, and the line grows by at most one character for each.
pub process_scancodes-total :
    (scancodes : List ℕ) (r : Router)
    → r.to_input_index + length scancodes ≤ line_buffer_size
    → (r' : Router) × (process_scancodes scancodes r ≡ done r')
      × (r'.to_input_index ≤ r.to_input_index + length scancodes)
unfolding process_scancodes
process_scancodes-total [] r h = (r, refl, omega arith)
process_scancodes-total (scancode ∷ rest) r h =
    let (r1, e, few) = on_scancode-Typed scancode r (omega arith) in
    let (r2, e', few') = process_scancodes-total rest r1 (omega (arith, few)) in
    rw e (r2, e', omega (arith, few, few'))
