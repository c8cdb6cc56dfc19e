-- ===== src/Vector.antt =====
-- include/kernel/Vector.hpp. `items` are the first `m_size` slots, which are all that the class ever
-- hands out; what the spare slots hold is not represented.
pub mod Growth
mod Tests
use swish_kernel.Prelude.{
  ℕ, zero, suc, ◌-◌, ◌*◌, Bool, Option, none, some, List, [], ◌∷◌, ◌++◌, ltb, leb, ◌==◌,
  if◌then◌else◌, length, get_elem?, replicate,
}

pub record Vector (A : Type 0) : Type 0 where
  pub items : List A
  pub m_capacity : ℕ

abbrev pub doubled : ℕ → ℕ
doubled c = if c == 0 then 2 else c * 2

module _ {A : Type 0} where
  unfoldable pub empty_vector : Vector A
  empty_vector = record { items = []; m_capacity = 0 }

  abbrev pub size : Vector A → ℕ
  size v = length v.items

  -- The loop of `reallocate` copies every item.
  abbrev pub reallocate : ℕ → Vector A → Vector A
  reallocate new_capacity v = record v { m_capacity = new_capacity }

  unfoldable pub push_back : A → Vector A → Vector A
  push_back value v =
      let v' : Vector A =
        if leb v.m_capacity (size v) then reallocate (doubled v.m_capacity) v else v in
      record v' { items = v'.items ++ value ∷ [] }

  abbrev drop_last : List A → List A
  drop_last [] = []
  drop_last (x ∷ []) = []
  drop_last (x ∷ y ∷ xs) = x ∷ drop_last (y ∷ xs)

  pub pop_back : Vector A → Vector A
  pop_back v = record v { items = drop_last v.items }

  -- `while (m_capacity < new_size)`
  pub grow : ℕ → ℕ → Vector A → Option (Vector A)
  grow zero new_size v = none
  grow (suc fuel) new_size v =
      let rest = grow fuel new_size (reallocate (doubled v.m_capacity) v) in
      if ltb v.m_capacity new_size then rest else some v

  -- `zero_item` is the item of zero bytes that `memset` writes.
  unfoldable pub resize : A → ℕ → Vector A → Option (Vector A)
  unfolding grow
  resize zero_item new_size v =
      if leb new_size (size v) then some v else elim (grow (suc new_size) new_size v) [
        | none ↦ none
        | some v' ↦ some (record v' { items = v'.items ++ replicate (new_size - size v) zero_item })
      ]

  -- The copy constructor and the assignment.
  pub copy : Vector A → Vector A
  copy other = record { items = other.items; m_capacity = other.m_capacity }
