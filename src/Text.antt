-- ===== src/Text.antt =====
-- C strings, and src/kernel/String.cpp. A C string is the list of its bytes before the NUL; a `char`
-- array is the list of all its bytes.
pub mod Compare
pub mod Owner
pub mod Copying
pub mod Ownership
mod Tests
use swish_kernel.Prelude.{
  ℕ, zero, suc, Bool, true, ◌&&◌, List, [], ◌∷◌, ltb, leb, ◌==◌, if◌then◌else◌, length, get_or, ◌-◌,
  Res, done, overrun, ◌>>=◌,
}

abbrev pub Bytes : Type 0
Bytes = List ℕ

-- What a reader of a C string finds in an array: the bytes before the first NUL, or no end.
unfoldable pub c_string : Bytes → Res Bytes
c_string [] = overrun
c_string (x ∷ xs) =
    let rest = c_string xs in if x == 0 then done [] else (rest >>= λ r. done (x ∷ r))

-- What `strncpy` leaves in the first `n` bytes of an array, for a C string.
unfoldable pub strncpy_array : Bytes → ℕ → Bytes
strncpy_array xs zero = []
strncpy_array [] (suc n) = 0 ∷ strncpy_array [] n
strncpy_array (x ∷ xs) (suc n) = x ∷ strncpy_array xs n

-- `String::operator==` on the bytes of the two sides, the NUL standing behind each.
unfoldable pub string_eq : Bytes → Bytes → Bool
string_eq [] [] = true
string_eq [] (y ∷ ys) = 0 == y
string_eq (x ∷ xs) [] = x == 0
string_eq (x ∷ xs) (y ∷ ys) = x == y && string_eq xs ys

-- `String::empty` and `String::len`
abbrev pub string_len : Bytes → ℕ
string_len s = length s

abbrev pub string_empty : Bytes → Bool
string_empty s = string_len s == 0

-- `at` for a writable string answers the terminator out of range, for a constant one the first byte.
pub at : Bytes → ℕ → ℕ
at s index = if leb (string_len s) index then 0 else get_or s index 0

pub at_const : Bytes → ℕ → ℕ
at_const s index = if leb (string_len s) index then get_or s 0 0 else get_or s index 0
