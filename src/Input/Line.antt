-- ===== src/Input/Line.antt =====
-- The conversions of numbers in src/drivers/input/input.cpp, and the cells of its line buffer.
use swish_kernel.Prelude.{ℕ, zero, suc, ◌-◌, ◌%◌, ◌^◌, ltb, if◌then◌else◌, [], ◌∷◌, ◌++◌}
use swish_kernel.Int.{ℤ, pos, negsuc, ◌+ℤ◌}
use swish_kernel.Text.{Bytes}

-- An `int64_t` stored in a `uint64_t`.
abbrev pub to_u64 : ℤ → ℕ
to_u64 (pos n) = n % 2 ^ 64
to_u64 (negsuc n) = 2 ^ 64 - 1 - n % 2 ^ 64

-- `static_cast<int64_t>(n)`
abbrev pub to_i64 : ℕ → ℤ
to_i64 n = if ltb (n % 2 ^ 64) (2 ^ 63) then pos (n % 2 ^ 64) else negsuc (2 ^ 64 - 1 - n % 2 ^ 64)

-- The sum of two `int64_t`, which wraps around in 64 bits.
abbrev pub add_i64 : ℤ → ℤ → ℤ
add_i64 a b = to_i64 (to_u64 (a +ℤ b))

-- The first `n` cells.
unfoldable pub cells : (ℕ → ℕ) → ℕ → Bytes
cells buffer zero = []
cells buffer (suc n) = cells buffer n ++ buffer n ∷ []
