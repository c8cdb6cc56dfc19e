-- ===== src/Memory/Region.antt =====
-- The region that src/kernel/memory.cpp makes its heap of.
use mathlib.Core.Path.{subst}
use swish_kernel.Prelude.{
  ℕ, ◌+◌, ◌%◌, ◌<◌, ◌≤◌, ◌≡◌, refl, ap, inl, inr, true, false, ◌&&◌, Option, none, some, List, [],
  ◌∷◌, ◌++◌, ltb, ◌⊎◌, Bool-cases, size_mod, arith,
}
use swish_kernel.Heap.{Heap}
use swish_kernel.Heap.Reached.{Run, boot}
use swish_kernel.Memory.{MemmapEntry, is_usable, largest_region, initialize_physical_memory}

-- No free region of the map is larger than `n` bytes.
unfoldable pub AtMost : ℕ → List MemmapEntry → Type 0
AtMost n [] = Unit
AtMost n (e ∷ entries) = (is_usable e ≡ true → e.length ≤ n) × AtMost n entries

-- The first `before` entries come before an entry that is free and larger than those before it, and
-- as large as any.
pub record Largest (entries : List MemmapEntry) (base largest : ℕ) : Type 0 where
  pub before : List MemmapEntry
  pub region : MemmapEntry
  pub after : List MemmapEntry
  pub parts : entries ≡ before ++ region ∷ after
  pub usable : is_usable region ≡ true
  pub its_base : region.base ≡ base
  pub its_length : region.length ≡ largest
  pub at_most : AtMost largest entries

AtMost-le : (m n : ℕ) → m ≤ n → (entries : List MemmapEntry) → AtMost m entries → AtMost n entries
unfolding AtMost
AtMost-le m n h [] a = tt
AtMost-le m n h (e ∷ entries) (a, rest) = ((λ u. omega (arith, a u)), AtMost-le m n h entries rest)

not_larger :
    (e : MemmapEntry) (largest : ℕ)
    → (is_usable e && ltb largest e.length) ≡ false
    → is_usable e ≡ true
    → e.length ≤ largest
not_larger e largest kept u = ground arith

larger_length :
    (e : MemmapEntry) (largest : ℕ)
    → (is_usable e && ltb largest e.length) ≡ true
    → largest < e.length
larger_length e largest larger = ground arith

larger_usable :
    (e : MemmapEntry) (largest : ℕ)
    → (is_usable e && ltb largest e.length) ≡ true
    → is_usable e ≡ true
larger_usable e largest larger = ground arith

-- What the loop over `entries` answers: the region it starts with if none is larger, or the largest.
abbrev Found : List MemmapEntry → ℕ → ℕ → ℕ × ℕ → Type 0
Found entries base largest r =
    ((r ≡ (base, largest)) × AtMost largest entries) ⊎ ((largest < r.1) × Largest entries r.0 r.1)

skip-Found :
    (e : MemmapEntry) (entries : List MemmapEntry) (base largest : ℕ) (r : ℕ × ℕ)
    → (is_usable e && ltb largest e.length) ≡ false
    → Found entries base largest r
    → Found (e ∷ entries) base largest r
unfolding AtMost
skip-Found e entries base largest r kept (inl (same, rest)) =
    inl (same, ((λ u. not_larger e largest kept u), rest))
skip-Found e entries base largest r kept (inr (more, l)) = inr (
  more,
  record {
    before = e ∷ l.before;
    region = l.region;
    after = l.after;
    parts = ap (λ xs. e ∷ xs) l.parts;
    usable = l.usable;
    its_base = l.its_base;
    its_length = l.its_length;
    at_most = ((λ u. omega (arith, not_larger e largest kept u, more)), l.at_most);
  },
)

take-Found :
    (e : MemmapEntry) (entries : List MemmapEntry) (base largest : ℕ) (r : ℕ × ℕ)
    → (is_usable e && ltb largest e.length) ≡ true
    → Found entries e.base e.length r
    → Found (e ∷ entries) base largest r
unfolding AtMost
take-Found e entries base largest r larger (inl (same, rest)) = rw same (
    inr (
      larger_length e largest larger,
      record {
        before = [];
        region = e;
        after = entries;
        parts = refl;
        usable = larger_usable e largest larger;
        its_base = refl;
        its_length = refl;
        at_most = ((λ u. omega arith), rest);
      },
    ))
take-Found e entries base largest r larger (inr (more, l)) = inr (
  omega (arith, more, larger_length e largest larger),
  record {
    before = e ∷ l.before;
    region = l.region;
    after = l.after;
    parts = ap (λ xs. e ∷ xs) l.parts;
    usable = l.usable;
    its_base = l.its_base;
    its_length = l.its_length;
    at_most = ((λ u. omega (arith, more)), l.at_most);
  },
)

take_step :
    (e : MemmapEntry) (entries : List MemmapEntry) (base largest : ℕ)
    → (is_usable e && ltb largest e.length) ≡ true
    → largest_region entries e.base e.length ≡ largest_region (e ∷ entries) base largest
unfolding largest_region
take_step e entries base largest larger = rw larger refl

skip_step :
    (e : MemmapEntry) (entries : List MemmapEntry) (base largest : ℕ)
    → (is_usable e && ltb largest e.length) ≡ false
    → largest_region entries base largest ≡ largest_region (e ∷ entries) base largest
unfolding largest_region
skip_step e entries base largest kept = rw kept refl

largest_region-Found :
    (entries : List MemmapEntry) (base largest : ℕ)
    → Found entries base largest (largest_region entries base largest)
unfolding largest_region AtMost
largest_region-Found [] base largest = inl (refl, tt)
largest_region-Found (e ∷ entries) base largest =
    elim (Bool-cases (is_usable e && ltb largest e.length)) [
      | inl larger ↦
          subst (Found (e ∷ entries) base largest) (take_step e entries base largest larger) (
            take-Found e entries base largest (largest_region entries e.base e.length) larger
              (largest_region-Found entries e.base e.length))
      | inr kept ↦
          subst (Found (e ∷ entries) base largest) (skip_step e entries base largest kept) (
            skip-Found e entries base largest (largest_region entries base largest) kept
              (largest_region-Found entries base largest))
    ]

-- What `initialize_physical_memory` leaves.
abbrev pub Booted : List MemmapEntry → ℕ → Option Heap → Type 0
Booted entries hhdm_offset none = AtMost 0 entries
Booted entries hhdm_offset (some h) =
    (base : ℕ) × (size : ℕ) × (0 < size)
    × Largest entries base size
    × Run ((base + hhdm_offset) % size_mod) size h (λ _. false)

-- The kernel stops in `initialize_physical_memory` where no free region has a byte. Otherwise the heap
-- is one that a run of the allocator starts with, on a free region as large as any.
pub initialize_physical_memory-Booted :
    (entries : List MemmapEntry) (hhdm_offset : ℕ) (h : Heap)
    → Booted entries hhdm_offset (initialize_physical_memory (some entries) (some hhdm_offset) h)
unfolding initialize_physical_memory
initialize_physical_memory-Booted entries hhdm_offset h = elim (largest_region-Found entries 0 0) [
  | inl (same, all) ↦ rw same all
  | inr (more, l) ↦
      let some_bytes : ltb 0 (largest_region entries 0 0).1 ≡ true = ground arith in
      rw some_bytes (_, _, more, l, boot h)
]
