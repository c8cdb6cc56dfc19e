-- ===== src/Prelude/Bytes.antt =====
-- Byte-addressed memory: a function from addresses to bytes. A pointer is an address, 0 `nullptr`.
use Prim.Native.Nat.{ℕ, ◌^◌, ◌<◌}
use mathlib.Core.Path.{◌≡◌}
use mathlib.Core.Logic.{◌≢◌}
use native.Mathlib.Omega.{arith}
use swish_kernel.Prelude.Tests.{◌==◌, if◌then◌else◌}

abbrev pub Memory : Type 0
Memory = ℕ → ℕ

abbrev pub null : ℕ
null = 0

abbrev pub write : {A : Type 0} → (ℕ → A) → ℕ → A → ℕ → A
write m a v b = if a == b then v else m b

-- The range of `size_t`, `uint64_t` and `uintptr_t`.
abbrev pub size_mod : ℕ
size_mod = 2 ^ 64

-- Every cell holds a byte.
abbrev pub IsBytes : Memory → Type 0
IsBytes m = (a : ℕ) → m a < 256

module _ {A : Type 0} (m : ℕ → A) where
  pub write_self : (a : ℕ) (v : A) → write m a v a ≡ v
  write_self a v = ground arith

  pub write_ne : (a b : ℕ) (v : A) → a ≢ b → write m a v b ≡ m b
  write_ne a b v h = ground arith
