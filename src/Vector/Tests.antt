-- ===== src/Vector/Tests.antt =====
-- The vector of include/kernel/Vector.hpp at concrete items.
use swish_kernel.Prelude.{ℕ, ◌≡◌, refl, some, [], ◌∷◌}
use swish_kernel.Vector.{Vector, resize, grow}

abbrev pair : Vector ℕ
pair = record { items = 7 ∷ 8 ∷ []; m_capacity = 2 }

pair_resized : resize 0 5 pair ≡ some (record { items = 7 ∷ 8 ∷ 0 ∷ 0 ∷ 0 ∷ []; m_capacity = 8 })
unfolding resize grow
pair_resized = refl
