-- ===== src/TerminalWindow/Numbers.antt =====
-- `operator<<(int64_t)` of src/gui/TerminalWindow.cpp, which src/terminal.cpp has as well.
use native.Mathlib.Nat.{pow-succ'}
use swish_kernel.Prelude.{
  ℕ, zero, suc, ◌+◌, ◌-◌, ◌*◌, ◌/◌, ◌%◌, ◌^◌, ◌<◌, ◌≡◌, refl, sym, ap, ◌∙◌, inl, inr, arith, [],
  ◌∷◌, ltb, ◌==◌, if◌then◌else◌, Res, done, overrun, ◌>>=◌, Bool-cases, eq→beq, beq→eq,
}
use swish_kernel.Int.{ℤ, pos, negsuc}
use swish_kernel.Text.{Bytes}

-- The two loops: the digits, last one first, go to an array of `room` bytes and are printed from its
-- end, so `printed` holds them in order.
unfoldable pub digits_loop : ℕ → ℕ → Bytes → Res Bytes
digits_loop zero num printed = if num == 0 then done printed else overrun
digits_loop (suc room) num printed =
    let more = digits_loop room (num / 10) ((b'0' + num % 10) ∷ printed) in
    if num == 0 then done printed else more

-- The negation of the least `int64_t` is itself, so no digit follows the sign.
unfoldable pub int_text : ℤ → Res Bytes
int_text (pos n) = if n == 0 then done (b'0' ∷ []) else digits_loop 20 n []
int_text (negsuc n) =
    digits_loop 20 (if ltb (suc n) (2 ^ 63) then suc n else 0) [] >>= λ text. done (b'-' ∷ text)

-- The number that decimal digits denote.
pub value : Bytes → ℕ → ℕ
value [] n = n
value (c ∷ text) n = value text (10 * n + (c - b'0'))

tenth : (num room : ℕ) → num < 10 ^ suc room → num / 10 < 10 ^ room
tenth num room h = let e : 10 ^ suc room ≡ 10 * 10 ^ room = pow-succ' 10 room in omega (arith, e)

digits_loop-value :
    (room num : ℕ) (printed : Bytes)
    → num < 10 ^ room
    → (text : Bytes) × (digits_loop room num printed ≡ done text)
      × (value text 0 ≡ value printed num)
unfolding digits_loop value
digits_loop-value zero num printed h =
    let e : num ≡ 0 = omega arith in rw (eq→beq e) (printed, refl, sym (ap (value printed) e))
digits_loop-value (suc room) num printed h = elim (Bool-cases (num == 0)) [
  | inl none_left ↦ rw none_left (printed, refl, sym (ap (value printed) (beq→eq num 0 none_left)))
  | inr left ↦
      let (text, e, v) =
        digits_loop-value room (num / 10) ((b'0' + num % 10) ∷ printed) (tenth num room h) in
      rw left (
        text,
        e,
        v
            ∙ ap (value printed) (
                let again : 10 * (num / 10) + (b'0' + num % 10 - b'0') ≡ num = omega arith in
                again),
      )
]

value_zero : value (b'0' ∷ []) 0 ≡ 0
unfolding value
value_zero = refl

-- Printing an `int64_t` that is not negative gives its decimal digits, and they fit the array.
pub int_text-value :
    (n : ℕ) → n < 2 ^ 63 → (text : Bytes) × (int_text (pos n) ≡ done text) × (value text 0 ≡ n)
unfolding int_text value
int_text-value n h = elim (Bool-cases (n == 0)) [
  | inl is_zero ↦ rw is_zero (b'0' ∷ [], refl, value_zero ∙ sym (beq→eq n 0 is_zero))
  | inr more ↦ rw more (digits_loop-value 20 n [] (omega arith))
]
