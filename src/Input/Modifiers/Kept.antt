-- ===== src/Input/Modifiers/Kept.antt =====
-- The keys of src/drivers/input/input.cpp that change neither Shift, Ctrl or Alt nor the caps lock.
use swish_kernel.Prelude.{
  ℕ, ◌-◌, ◌≡◌, refl, ◌∙◌, Bool, true, false, not, ◌&&◌, [], ◌∷◌, ◌==◌, if◌then◌else◌, Res, done,
  overrun, out_of_fuel, ◌>>=◌, in_bounds,
}
use swish_kernel.Input.Keys.{determine_case}
use swish_kernel.Input.{
  Router, in_terminal, echo, send_to_terminal, send_to_gui, send_to_active_context, on_backspace,
  on_enter, on_press, switch_to_terminal, switch_to_gui,
}

-- A result that is there has these modifiers.
unfoldable pub Has : Bool → Bool → Bool → Bool → Res Router → Type 0
Has shift ctrl alt caps (done r) =
    (r.is_shift_active ≡ shift)
    × (r.is_ctrl_active ≡ ctrl)
    × (r.is_alt_active ≡ alt)
    × (r.is_caps ≡ caps)
Has shift ctrl alt caps overrun = Unit {0}
Has shift ctrl alt caps out_of_fuel = Unit {0}

Has-done :
    (shift ctrl alt caps : Bool) (r r' : Router)
    → (r'.is_shift_active ≡ r.is_shift_active)
      × (r'.is_ctrl_active ≡ r.is_ctrl_active)
      × (r'.is_alt_active ≡ r.is_alt_active)
      × (r'.is_caps ≡ r.is_caps)
    → Has shift ctrl alt caps (done r)
    → Has shift ctrl alt caps (done r')
unfolding Has
Has-done shift ctrl alt caps r r' same h = (same.0 ∙ h.0, same.1 ∙ h.1, same.2 ∙ h.2, same.3 ∙ h.3)

pub Has-made :
    (shift ctrl alt caps : Bool) (r : Router)
    → r.is_shift_active ≡ shift
    → r.is_ctrl_active ≡ ctrl
    → r.is_alt_active ≡ alt
    → r.is_caps ≡ caps
    → Has shift ctrl alt caps (done r)
unfolding Has
Has-made shift ctrl alt caps r e f g h = (e, f, g, h)

module _ (shift ctrl alt caps : Bool) where
  abbrev pub Is : Res Router → Type 0
  Is x = Has shift ctrl alt caps x

  pub Is-if :
      (b : Bool) (x y : Res Router)
      → (b ≡ true → Is x)
      → (b ≡ false → Is y)
      → Is (if b then x else y)
  Is-if true x y hx hy = hx refl
  Is-if false x y hx hy = hy refl

  Is-choice : (b : Bool) (x y : Router) → Is (done x) → Is (done y) → Is (done (if b then x else y))
  Is-choice true x y hx hy = hx
  Is-choice false x y hx hy = hy

  Is-in_bounds : (b : Bool) (r : Router) → Is (done r) → Is (in_bounds b r)
  unfolding Has
  Is-in_bounds true r h = h
  Is-in_bounds false r h = tt

  Is-bind :
      (x : Res Router) (f : Router → Res Router)
      → Is x
      → ((r : Router) → Is (done r) → Is (f r))
      → Is (x >>= f)
  unfolding Has
  Is-bind (done r) f h k = k r h
  Is-bind overrun f h k = tt
  Is-bind out_of_fuel f h k = tt

  -- A router with the modifiers of one that has them.
  Is-done :
      (r r' : Router)
      → Is (done r)
      → (r'.is_shift_active ≡ r.is_shift_active)
        × (r'.is_ctrl_active ≡ r.is_ctrl_active)
        × (r'.is_alt_active ≡ r.is_alt_active)
        × (r'.is_caps ≡ r.is_caps)
      → Is (done r')
  Is-done r r' h same = Has-done shift ctrl alt caps r r' same h

  send_to_terminal-Is :
      (c : ℕ) (should_buffer should_increment should_print : Bool) (r : Router)
      → Is (done r)
      → Is (send_to_terminal c should_buffer should_increment should_print r)
  unfolding send_to_terminal
  send_to_terminal-Is c should_buffer should_increment should_print r h =
      Is-if (not (in_terminal r)) _ _ (λ e. h)
        (λ e.
          Is-bind _ _
            (Is-if (not should_buffer) _ _ (λ e. h)
              (λ e. Is-in_bounds _ _ (
                Is-choice (not should_increment) _ _ (Is-done r _ h (refl, refl, refl, refl))
                  (Is-done r _ h (refl, refl, refl, refl)))))
            (λ x hx. Is-choice should_print _ _ (Is-done x _ hx (refl, refl, refl, refl)) hx))

  send_to_gui-Is : (c : ℕ) (r : Router) → Is (done r) → Is (done (send_to_gui c r))
  unfolding send_to_gui
  send_to_gui-Is c r h = Is-choice r.has_compositor _ _ (Is-done r _ h (refl, refl, refl, refl)) h

  pub on_backspace-Is : (r : Router) → Is (done r) → Is (on_backspace r)
  unfolding on_backspace
  on_backspace-Is r h =
      Is-if (not (in_terminal r)) _ _ (λ e. send_to_gui-Is 8 r h)
        (λ e.
          Is-if (r.to_input_index == 0) _ _ (λ e. h)
            (λ e.
              send_to_terminal-Is 0 true false false
                (record (echo (8 ∷ b' ' ∷ 8 ∷ []) r) { to_input_index = r.to_input_index - 1 })
                (Is-done r _ h (refl, refl, refl, refl))))

  pub on_enter-Is : (r : Router) → Is (done r) → Is (on_enter r)
  unfolding on_enter
  on_enter-Is r h =
      Is-if (not (in_terminal r)) _ _ (λ e. send_to_gui-Is 10 r h)
        (λ e. Is-in_bounds _ _ (Is-done r _ h (refl, refl, refl, refl)))

  pub on_press-Is : (index : ℕ) (r : Router) → Is (done r) → Is (on_press index r)
  unfolding on_press send_to_active_context
  on_press-Is index r h =
      let chord : Bool = r.is_ctrl_active && r.is_alt_active in
      let pressed = r.keyboard_state index in
      let c : ℕ = determine_case pressed r.is_shift_active r.is_caps in
      let sent : Res Router = send_to_active_context c r in
      let typed : Res Router = if pressed.is_printable then sent else done r in
      Is-if (chord && index == 20) (done (switch_to_terminal r))
        (if chord && index == 32 then done (switch_to_gui r) else typed)
        (λ e. Is-done r (switch_to_terminal r) h (refl, refl, refl, refl))
        (λ e.
          Is-if (chord && index == 32) (done (switch_to_gui r)) typed
            (λ e. Is-done r (switch_to_gui r) h (refl, refl, refl, refl))
            (λ e.
              Is-if pressed.is_printable sent (done r)
                (λ e.
                  Is-if (in_terminal r) (send_to_terminal c true true true r)
                    (done (send_to_gui c r)) (λ e. send_to_terminal-Is c true true true r h)
                    (λ e. send_to_gui-Is c r h))
                (λ e. h)))
