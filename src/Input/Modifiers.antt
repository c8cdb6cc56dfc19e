-- ===== src/Input/Modifiers.antt =====
-- Shift, Ctrl, Alt and the caps lock in src/drivers/input/input.cpp.
pub mod Kept
use mathlib.Core.Path.{subst}
use swish_kernel.Prelude.{
  ℕ, ◌+◌, ◌-◌, ◌≤◌, ◌≡◌, refl, ◌∙◌, Bool, true, false, not, ◌&&◌, ◌||◌, arith, List, [], ◌∷◌, leb,
  ◌==◌, if◌then◌else◌, length, write, Res, done, overrun, out_of_fuel, ◌>>=◌, in_bounds,
}
use swish_kernel.Input.Keys.{determine_case}
use Kept.{Has, Has-made, Is-if, on_backspace-Is, on_enter-Is, on_press-Is}
use swish_kernel.Input.Bounds.{process_scancodes-total}
use swish_kernel.Input.{
  Router, line_buffer_size, in_terminal, echo, send_to_terminal, send_to_gui,
  send_to_active_context, on_backspace, on_enter, on_press, on_scancode, key_index,
  process_scancodes, switch_to_terminal, switch_to_gui,
}

-- The modifiers after a scancode: set by a press, cleared by a release, and the lock turned over.
abbrev pub shift_after : ℕ → Bool → Bool
shift_after c shift =
    if c == 42 || c == 54 then true else if c == 170 || c == 182 then false else shift

abbrev pub ctrl_after : ℕ → Bool → Bool
ctrl_after c ctrl = if c == 29 then true else if c == 157 then false else ctrl

abbrev pub alt_after : ℕ → Bool → Bool
alt_after c alt = if c == 56 then true else if c == 184 then false else alt

abbrev pub caps_after : ℕ → Bool → Bool
caps_after c caps = if c == 58 then not caps else caps

-- The same after scancodes, the oldest first.
unfoldable pub after : (ℕ → Bool → Bool) → List ℕ → Bool → Bool
after step [] held = held
after step (c ∷ cs) held = after step cs (step c held)

module _ (c : ℕ) (r : Router) where
  -- The modifiers that the scancode leaves.
  abbrev Left : Res Router → Type 0
  Left x =
      Has (shift_after c r.is_shift_active) (ctrl_after c r.is_ctrl_active)
        (alt_after c r.is_alt_active) (caps_after c r.is_caps) x

  Left-if :
      (b : Bool) (x y : Res Router)
      → (b ≡ true → Left x)
      → (b ≡ false → Left y)
      → Left (if b then x else y)
  Left-if =
      Is-if (shift_after c r.is_shift_active) (ctrl_after c r.is_ctrl_active)
        (alt_after c r.is_alt_active) (caps_after c r.is_caps)

  made :
      (r' : Router)
      → r'.is_shift_active ≡ shift_after c r.is_shift_active
      → r'.is_ctrl_active ≡ ctrl_after c r.is_ctrl_active
      → r'.is_alt_active ≡ alt_after c r.is_alt_active
      → r'.is_caps ≡ caps_after c r.is_caps
      → Left (done r')
  made r' =
      Has-made (shift_after c r.is_shift_active) (ctrl_after c r.is_ctrl_active)
        (alt_after c r.is_alt_active) (caps_after c r.is_caps) r'

  -- The keys that are no modifiers.
  dirtied : Router
  dirtied = record r {
    is_extended = false;
    keyboard_state =
        write r.keyboard_state (key_index c r.is_extended)
          (record (r.keyboard_state (key_index c r.is_extended)) { is_down = not (leb 128 c) });
    dirty = true;
  }

  other_key : Res Router
  other_key =
      if c == 14
      then on_backspace dirtied
      else if c == 28
      then on_enter dirtied
      else if leb 128 c
      then done dirtied
      else on_press (key_index c r.is_extended) dirtied

  other_key-Left : Left (done dirtied) → Left other_key
  unfolding other_key
  other_key-Left h =
      let s = shift_after c r.is_shift_active in
      let t = ctrl_after c r.is_ctrl_active in
      let a = alt_after c r.is_alt_active in
      let k = caps_after c r.is_caps in
      Left-if (c == 14) _ _ (λ e. on_backspace-Is s t a k dirtied h)
        (λ e.
          Left-if (c == 28) _ _ (λ e. on_enter-Is s t a k dirtied h)
            (λ e.
              Left-if (leb 128 c) _ _ (λ e. h)
                (λ e. on_press-Is s t a k (key_index c r.is_extended) dirtied h)))

  -- The releases of the modifiers.
  released : Res Router
  released =
      let r' : Router = record dirtied { dirty = r.dirty } in
      if c == 170 || c == 182
      then done (record r' { is_shift_active = false })
      else if c == 157
      then done (record r' { is_ctrl_active = false })
      else if c == 184
      then done (record r' { is_alt_active = false })
      else other_key

  released-Left :
      shift_after c r.is_shift_active ≡ (if c == 170 || c == 182 then false else r.is_shift_active)
      → ctrl_after c r.is_ctrl_active ≡ (if c == 157 then false else r.is_ctrl_active)
      → alt_after c r.is_alt_active ≡ (if c == 184 then false else r.is_alt_active)
      → caps_after c r.is_caps ≡ r.is_caps
      → Left released
  unfolding released dirtied
  released-Left es et ea ek =
      Left-if (c == 170 || c == 182) _ _
        (λ e. made _ (ground arith) (ground arith) (ground arith) (ground arith))
        (λ a0.
          Left-if (c == 157) _ _
            (λ e. made _ (ground arith) (ground arith) (ground arith) (ground arith))
            (λ a1.
              Left-if (c == 184) _ _
                (λ e. made _ (ground arith) (ground arith) (ground arith) (ground arith))
                (λ a2.
                  other_key-Left
                    (made dirtied (ground arith) (ground arith) (ground arith) (ground arith)))))

  on_scancode-Left : Left (on_scancode c r)
  unfolding on_scancode released other_key dirtied
  on_scancode-Left =
      Left-if (c == 224) _ _
        (λ e. made _ (ground arith) (ground arith) (ground arith) (ground arith))
        (λ a3.
          Left-if (c == 58) _ _
            (λ e. made _ (ground arith) (ground arith) (ground arith) (ground arith))
            (λ a4.
              Left-if (c == 42 || c == 54) _ _
                (λ e. made _ (ground arith) (ground arith) (ground arith) (ground arith))
                (λ a5.
                  Left-if (c == 29) _ _
                    (λ e. made _ (ground arith) (ground arith) (ground arith) (ground arith))
                    (λ a6.
                      Left-if (c == 56) _ _
                        (λ e. made _ (ground arith) (ground arith) (ground arith) (ground arith))
                        (λ a7.
                          released-Left (ground arith) (ground arith) (ground arith)
                            (ground arith))))))

-- What the modifiers are after scancodes.
abbrev AfterAll : List ℕ → Router → Res Router → Type 0
AfterAll cs r x =
    Has (after shift_after cs r.is_shift_active) (after ctrl_after cs r.is_ctrl_active)
      (after alt_after cs r.is_alt_active) (after caps_after cs r.is_caps) x

bind-AfterAll :
    (c : ℕ) (cs : List ℕ) (r : Router) (x : Res Router)
    → Left c r x
    → ((r' : Router) → AfterAll cs r' (process_scancodes cs r'))
    → AfterAll (c ∷ cs) r (x >>= process_scancodes cs)
unfolding Has after
bind-AfterAll c cs r (done r') (e, f, g, h) rest =
    coe 0 1
      (i.
        Has (after shift_after cs (e i)) (after ctrl_after cs (f i)) (after alt_after cs (g i))
          (after caps_after cs (h i)) (process_scancodes cs r'))
      (rest r')
bind-AfterAll c cs r overrun l rest = tt
bind-AfterAll c cs r out_of_fuel l rest = tt

process_scancodes-AfterAll : (cs : List ℕ) (r : Router) → AfterAll cs r (process_scancodes cs r)
unfolding process_scancodes after
process_scancodes-AfterAll [] r = Has-made _ _ _ _ r refl refl refl refl
process_scancodes-AfterAll (c ∷ cs) r =
    bind-AfterAll c cs r (on_scancode c r) (on_scancode-Left c r) (process_scancodes-AfterAll cs)

-- Any scancodes that together with the line are at most 1024 are handled, and then Shift, Ctrl and Alt are
-- held as their last press or release among the scancodes says, or as before where there is none, and
-- the caps lock has turned over at each of its codes, whatever the other keys did.
pub process_scancodes-after :
    (cs : List ℕ) (r : Router)
    → r.to_input_index + length cs ≤ line_buffer_size
    → (r' : Router) × (process_scancodes cs r ≡ done r')
      × (r'.is_shift_active ≡ after shift_after cs r.is_shift_active)
      × (r'.is_ctrl_active ≡ after ctrl_after cs r.is_ctrl_active)
      × (r'.is_alt_active ≡ after alt_after cs r.is_alt_active)
      × (r'.is_caps ≡ after caps_after cs r.is_caps)
unfolding Has
process_scancodes-after cs r room =
    let (r', run, few) = process_scancodes-total cs r room in
    let held = subst (AfterAll cs r) run (process_scancodes-AfterAll cs r) in
    (r', run, held.0, held.1, held.2, held.3)
