-- ===== src/Vector/Growth.antt =====
-- The operations of include/kernel/Vector.hpp on the items, and the room for them.
use mathlib.Core.List.{append-nil}
use swish_kernel.Prelude.{
  sym, false, ltb→lt, ℕ, zero, suc, ◌+◌, ◌-◌, ◌≤◌, ◌<◌, ◌≡◌, refl, inl, inr, some, [], ◌∷◌, ◌++◌,
  arith, ltb, leb, length, replicate, length-append, length-replicate, Bool-cases,
}
use swish_kernel.Vector.{Vector, size, doubled, reallocate, push_back, grow, resize}

module _ {A : Type 0} where
  grow_lem :
      (fuel n : ℕ) (v : Vector A)
      → n ≤ fuel + v.m_capacity
      → (c : ℕ) × (grow (suc fuel) n v ≡ some (reallocate c v)) × (n ≤ c) × (v.m_capacity ≤ c)
  unfolding grow
  grow_lem zero n v enough =
      let fits : ltb v.m_capacity n ≡ false = ground arith in
      rw fits (v.m_capacity, refl, omega arith, omega arith)
  grow_lem (suc fuel) n v enough = elim (Bool-cases (ltb v.m_capacity n)) [
    | inl short ↦
        let lt : v.m_capacity < n = ltb→lt v.m_capacity n short in
        let larger : v.m_capacity + 1 ≤ doubled v.m_capacity = ground arith in
        let (c, run, le, ge) =
          grow_lem fuel n (reallocate (doubled v.m_capacity) v) (omega arith) in
        rw short (c, run, le, omega arith)
    | inr fits ↦ rw fits (v.m_capacity, refl, ground arith, omega arith)
  ]

  -- `resize` always returns: it appends zero items up to the new size, never drops any, and the
  -- capacity is enough for all of them if it was enough before.
  pub resize_lem :
      (z : A) (n : ℕ) (v : Vector A)
      → size v ≤ v.m_capacity
      → (v' : Vector A) × (resize z n v ≡ some v')
        × (v'.items ≡ v.items ++ replicate (n - size v) z)
        × (size v' ≤ v'.m_capacity)
  unfolding resize
  resize_lem z n v roomy = elim (Bool-cases (leb n (size v))) [
    | inl large ↦
        let nothing : n - size v ≡ 0 = ground arith in
        rw (large, nothing) (v, refl, sym (append-nil v.items), roomy)
    | inr small ↦
        let (c, run, le, ge) = grow_lem n n v (omega arith) in
        let whole : length (v.items ++ replicate (n - size v) z) ≤ c = ground (
          arith,
          length-append v.items (replicate (n - size v) z),
          length-replicate (n - size v) z,
        ) in
        rw (small, run, resize)
          (
            record { items = v.items ++ replicate (n - size v) z; m_capacity = c },
            refl,
            refl,
            whole,
          )
  ]

  -- `push_back` appends its value, and the capacity is enough if it was enough before.
  pub push_back_lem :
      (x : A) (v : Vector A)
      → size v ≤ v.m_capacity
      → ((push_back x v).items ≡ v.items ++ x ∷ [])
        × (size (push_back x v) ≤ (push_back x v).m_capacity)
  unfolding push_back
  push_back_lem x v roomy = elim (Bool-cases (leb v.m_capacity (size v))) [
    | inl full ↦ rw full (refl, ground (arith, length-append v.items (x ∷ [])))
    | inr room ↦ rw room (refl, ground (arith, length-append v.items (x ∷ [])))
  ]
