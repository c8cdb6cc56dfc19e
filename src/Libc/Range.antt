-- ===== src/Libc/Range.antt =====
-- What copying and filling are meant to do, as functions of the memory before.
use swish_kernel.Prelude.{
  ℕ, ◌+◌, ◌-◌, ◌≤◌, ◌≡◌, fun_ext, ◌⊎◌, Bool, ◌&&◌, arith, ltb, leb, if◌then◌else◌, Memory, write,
}

abbrev pub within : ℕ → ℕ → ℕ → Bool
within a d n = leb d a && ltb a (d + n)

-- The `n` bytes at `s` stand at `d`, and nothing else has changed.
abbrev pub moved : Memory → ℕ → ℕ → ℕ → Memory
moved m d s n a = if within a d n then m (s + (a - d)) else m a

abbrev pub filled : Memory → ℕ → ℕ → ℕ → Memory
filled m d v n a = if within a d n then v else m a

pub moved_zero : (m : Memory) (d s : ℕ) → moved m d s 0 ≡ m
moved_zero m d s = fun_ext λ a. ground arith

pub moved_one : (m : Memory) (d s : ℕ) → write m d (m s) ≡ moved m d s 1
moved_one m d s = fun_ext λ a. ground arith

-- Copying upwards: what is read next has not been written yet.
pub moved_up :
    (m : Memory) (d s k j : ℕ)
    → (d ≤ s) ⊎ (s + (k + j) ≤ d)
    → moved (moved m d s k) (d + k) (s + k) j ≡ moved m d s (k + j)
moved_up m d s k j h = fun_ext λ a. ground arith

-- Copying downwards.
pub moved_down :
    (m : Memory) (d s k j : ℕ)
    → s ≤ d
    → moved (moved m (d + j) (s + j) k) d s j ≡ moved m d s (j + k)
moved_down m d s k j h = fun_ext λ a. ground arith

pub filled_up :
    (m : Memory) (d v k j : ℕ) → filled (filled m d v k) (d + k) v j ≡ filled m d v (k + j)
filled_up m d v k j = fun_ext λ a. ground arith
