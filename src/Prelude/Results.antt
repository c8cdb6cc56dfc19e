-- ===== src/Prelude/Results.antt =====
-- What a run of C++ code can come to: a value, an access past the end of an array, or a loop of the
-- model that ran out of fuel.
use mathlib.Core.Path.{◌≡◌, refl}
use mathlib.Core.Bool.{Bool, true, false}
use mathlib.Core.Option.{Option, none, some}

pub data Res {ℓ} (A : Type ℓ) : Type ℓ where
  done : A → Res A
  overrun : Res A
  out_of_fuel : Res A

infixl 5 ◌>>=◌
abbrev pub ◌>>=◌ {ℓ κ} : {A : Type ℓ} {B : Type κ} → Res A → (A → Res B) → Res B
done a >>= f = f a
overrun >>= f = overrun
out_of_fuel >>= f = out_of_fuel

-- An access that is in bounds if the test holds.
abbrev pub in_bounds {ℓ} : {A : Type ℓ} → Bool → A → Res A
in_bounds true a = done a
in_bounds false a = overrun

abbrev pub fueled {ℓ} : {A : Type ℓ} → Option A → Res A
fueled none = out_of_fuel
fueled (some a) = done a

pub bind_assoc :
    {A B C : Type 0} (x : Res A) (f : A → Res B) (g : B → Res C)
    → (x >>= f >>= g) ≡ (x >>= λ a. f a >>= g)
bind_assoc (done a) f g = refl
bind_assoc overrun f g = refl
bind_assoc out_of_fuel f g = refl

pub bind_ext :
    {A B : Type 0} (x : Res A) (f g : A → Res B) → ((a : A) → f a ≡ g a) → (x >>= f) ≡ (x >>= g)
bind_ext (done a) f g h = h a
bind_ext overrun f g h = refl
bind_ext out_of_fuel f g h = refl
