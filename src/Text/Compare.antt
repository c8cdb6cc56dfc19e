-- ===== src/Text/Compare.antt =====
-- String comparison and the way of a string through an array.
use swish_kernel.Prelude.{
  ℕ, zero, suc, ◌<◌, ◌≤◌, ◌≡◌, ◌≢◌, refl, true, [], ◌∷◌, arith, length, done, overrun, ne→beq,
}
use swish_kernel.Text.{Bytes, c_string, strncpy_array, string_eq, at, at_const}

-- No byte is the NUL.
abbrev pub IsProper : Bytes → Type 0
IsProper [] = Unit {0}
IsProper (x ∷ xs) = (x ≢ 0) × IsProper xs

-- `String::operator==` decides equality of strings.
pub string_eq_iff :
    (xs ys : Bytes)
    → IsProper xs
    → IsProper ys
    → (string_eq xs ys ≡ true → xs ≡ ys) × (xs ≡ ys → string_eq xs ys ≡ true)
unfolding string_eq
string_eq_iff [] [] p q = (λ e. refl, λ e. refl)
string_eq_iff [] (y ∷ ys) p q = (λ e. absurd (q.0 (ground arith)), λ e. cc)
string_eq_iff (x ∷ xs) [] p q = (λ e. absurd (p.0 (ground arith)), λ e. cc)
string_eq_iff (x ∷ xs) (y ∷ ys) p q =
    let ih = string_eq_iff xs ys p.1 q.1 in (λ e. ground (arith, ih.0), λ e. ground (arith, ih.1))

pub string_eq_refl : (xs : Bytes) → string_eq xs xs ≡ true
unfolding string_eq
string_eq_refl [] = refl
string_eq_refl (x ∷ xs) = ground (arith, string_eq_refl xs)

-- A string that leaves room for its NUL comes out of an array as it went in.
pub c_string-strncpy_array :
    (xs : Bytes) (n : ℕ) → IsProper xs → length xs < n → c_string (strncpy_array xs n) ≡ done xs
unfolding c_string strncpy_array
c_string-strncpy_array xs zero p h = absurd (omega arith)
c_string-strncpy_array [] (suc n) p h = refl
c_string-strncpy_array (x ∷ xs) (suc n) p h =
    rw (ne→beq p.0, c_string-strncpy_array xs n p.1 (omega arith))

-- A string that fills the array leaves no NUL in it.
pub strncpy_array_unterminated :
    (xs : Bytes) (n : ℕ) → IsProper xs → n ≤ length xs → c_string (strncpy_array xs n) ≡ overrun
unfolding c_string strncpy_array
strncpy_array_unterminated xs zero p h = refl
strncpy_array_unterminated [] (suc n) p h = absurd (omega arith)
strncpy_array_unterminated (x ∷ xs) (suc n) p h =
    rw (ne→beq p.0, strncpy_array_unterminated xs n p.1 (omega arith))

-- The two versions of `String::at` agree in range, and out of range exactly on the empty string.
pub at-at_const :
    (s : Bytes) (i : ℕ)
    → IsProper s
    → (i < length s → at s i ≡ at_const s i) × (length s ≤ i → at s i ≡ at_const s i → s ≡ [])
unfolding at at_const
at-at_const [] i p = (λ h. refl, λ h e. refl)
at-at_const (x ∷ xs) i p = (λ h. ground arith, λ h e. absurd (p.0 (ground arith)))
