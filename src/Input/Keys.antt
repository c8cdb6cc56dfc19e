-- ===== src/Input/Keys.antt =====
-- The key table of src/drivers/input/input.cpp.
use swish_kernel.Prelude.{
  ℕ, ◌-◌, Bool, false, not, ◌&&◌, [], ◌∷◌, ◌++◌, leb, ◌==◌, if◌then◌else◌, get_or, bytes_of,
}
use swish_kernel.Text.{Bytes}

abbrev pub qwerty_lower : Bytes
qwerty_lower =
    0
    ∷ 27
    ∷ (bytes_of "1234567890-="
        ++ (8
            ∷ 9
            ∷ (bytes_of "qwertyuiop[]"
                ++ (10
                    ∷ 0
                    ∷ (bytes_of "asdfghjkl;'`"
                        ++ (0 ∷ (bytes_of "\\zxcvbnm,./" ++ (0 ∷ b'*' ∷ 0 ∷ b' ' ∷ []))))))))

abbrev pub qwerty_upper : Bytes
qwerty_upper =
    0
    ∷ 27
    ∷ (bytes_of "!@#$%^&*()_+"
        ++ (8
            ∷ 9
            ∷ (bytes_of "qwertyuiop{}"
                ++ (10
                    ∷ 0
                    ∷ (bytes_of "asdfghjkl:\"`"
                        ++ (0 ∷ (bytes_of "\\zxcvbnm<>?" ++ (0 ∷ b'*' ∷ 0 ∷ b' ' ∷ []))))))))

pub record KeyState : Type 0 where
  pub is_down : Bool
  pub is_printable : Bool
  pub ascii_lowercase : ℕ
  pub ascii_uppercase : ℕ

abbrev pub is_letter : ℕ → Bool
is_letter c = leb b'a' c && leb c b'z'

-- What `Input::initialize` stores for key `i`: the tables for the first 128, zeros for the others.
pub initial_key : ℕ → KeyState
initial_key i =
    let lower = get_or qwerty_lower i 0 in
    record {
      is_down = false;
      is_printable = not (lower == 0);
      ascii_lowercase = lower;
      ascii_uppercase = if is_letter lower then lower - 32 else get_or qwerty_upper i 0;
    }

-- `determine_case`
unfoldable pub determine_case : KeyState → Bool → Bool → ℕ
determine_case key is_shift_active is_caps =
    if is_letter key.ascii_lowercase
    then if is_shift_active
      then if is_caps then key.ascii_lowercase else key.ascii_uppercase
      else if is_caps
      then key.ascii_uppercase
      else key.ascii_lowercase
    else if is_shift_active
    then key.ascii_uppercase
    else key.ascii_lowercase
