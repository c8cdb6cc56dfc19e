-- ===== src/Heap/Usage.antt =====
-- The blocks in use and the free neighbours in a row, before and after `kmalloc` and `kfree`.
use swish_kernel.Prelude.{
  ℕ, ◌+◌, ◌-◌, ◌≤◌, ◌≡◌, refl, ap, inl, inr, true, false, not, ◌&&◌, List, [], ◌∷◌, ◌++◌, arith,
  leb, ◌==◌, write, Bool-cases,
}
use swish_kernel.Heap.{header}
use swish_kernel.Heap.Tiles.{Block, block, extent, holds, IsCoalesced}
use swish_kernel.Heap.Alloc.{carve}
use swish_kernel.Heap.Coalesce.{coalesce, coalesce_head}

pub holds-ge : (a : ℕ) (bs : List Block) (p : ℕ) → holds a bs p ≡ true → a + header ≤ p
holds-ge a [] p h = cc
holds-ge a (b ∷ bs) p h = ground (arith, holds-ge (a + header + b.size) bs p)

-- A block in use has its place in the row.
pub holds-split :
    (a : ℕ) (bs : List Block) (p : ℕ)
    → holds a bs p ≡ true
    → (pre : List Block) × (b : Block) × (post : List Block) × (bs ≡ pre ++ b ∷ post)
      × (b.free ≡ false)
      × (p ≡ a + extent pre + header)
holds-split a [] p h = cc
holds-split a (b ∷ bs) p h = elim (Bool-cases (not b.free && p == a + header)) [
  | inl here ↦ ([], b, bs, refl, ground arith, ground arith)
  | inr there ↦
      let (pre, c, post, e, used, at) = holds-split (a + header + b.size) bs p (rw there at h) in
      (b ∷ pre, c, post, ap (λ xs. b ∷ xs) e, used, omega (arith, at))
]

-- A carved block is one more in use.
pub holds-carve :
    (a n : ℕ) (pre : List Block) (b : Block) (post : List Block) (p q : ℕ)
    → b.free ≡ true
    → n ≤ b.size
    → p ≡ a + extent pre + header
    → holds a (pre ++ carve n b post) q ≡ write (holds a (pre ++ b ∷ post)) p true q
unfolding carve
holds-carve a n [] b post p q free fit at = elim (Bool-cases (leb (n + header + 8) b.size)) [
  | inl c ↦
      let end : a + header + n + header + (b.size - n - header) ≡ a + header + b.size =
        ground arith in
      rw (c, free, end) (ground arith)
  | inr c ↦ rw (c, free) (ground arith)
]
holds-carve a n (x ∷ pre) b post p q free fit at =
    let rest = holds-carve (a + header + x.size) n pre b post p q free fit (omega arith) in
    rw rest (ground (arith))

-- A block that is marked free is one less in use, and no other.
pub holds_marked :
    (a : ℕ) (pre : List Block) (b : Block) (post : List Block) (p q : ℕ)
    → p ≡ a + extent pre + header
    → holds a (pre ++ block b.size true ∷ post) q ≡ write (holds a (pre ++ b ∷ post)) p false q
holds_marked a [] b post p q at = ground (arith, holds-ge (a + header + b.size) post q)
holds_marked a (x ∷ pre) b post p q at =
    let rest = holds_marked (a + header + x.size) pre b post p q (omega arith) in
    rw rest (ground arith)

-- Merging changes no block in use.
pub holds-coalesce :
    (a : ℕ) (b : Block) (bs : List Block) (q : ℕ) → holds a (coalesce b bs) q ≡ holds a (b ∷ bs) q
unfolding coalesce
holds-coalesce a b [] q = refl
holds-coalesce a b (c ∷ bs) q = elim (Bool-cases (b.free && c.free)) [
  | inl both ↦
      let end : a + header + (b.size + header + c.size) ≡ a + header + b.size + header + c.size =
        omega arith in
      rw (both, holds-coalesce a (block (b.size + header + c.size) b.free) bs q, end) (ground arith)
  | inr other ↦ rw (other, holds-coalesce (a + header + b.size) c bs q)
]

pub carve-IsCoalesced :
    (n : ℕ) (pre : List Block) (b : Block) (post : List Block)
    → b.free ≡ true
    → IsCoalesced (pre ++ b ∷ post)
    → IsCoalesced (pre ++ carve n b post)
unfolding carve
carve-IsCoalesced n [] b [] free c = elim (Bool-cases (leb (n + header + 8) b.size)) [
  | inl e ↦ rw e (refl, tt)
  | inr e ↦ rw e tt
]
carve-IsCoalesced n [] b (d ∷ post) free c = elim (Bool-cases (leb (n + header + 8) b.size)) [
  | inl e ↦ rw e (refl, (ground arith, c.1))
  | inr e ↦ rw e (refl, c.1)
]
carve-IsCoalesced n (x ∷ []) b post free c =
    let rest = carve-IsCoalesced n [] b post free c.1 in
    elim (Bool-cases (leb (n + header + 8) b.size)) [
      | inl e ↦ rw e (ground arith, rw e at rest)
      | inr e ↦ rw e (ground arith, rw e at rest)
    ]
carve-IsCoalesced n (x ∷ y ∷ pre) b post free c =
    (c.0, carve-IsCoalesced n (y ∷ pre) b post free c.1)

pub coalesce-IsCoalesced : (b : Block) (bs : List Block) → IsCoalesced (coalesce b bs)
unfolding coalesce
coalesce-IsCoalesced b [] = tt
coalesce-IsCoalesced b (c ∷ bs) = elim (Bool-cases (b.free && c.free)) [
  | inl both ↦ rw both (coalesce-IsCoalesced (block (b.size + header + c.size) b.free) bs)
  | inr other ↦
      let (d, ds, e, f) = coalesce_head c bs in
      rw (other, e) (rw (f) other, rw e at (coalesce-IsCoalesced c bs))
]

-- A row without free neighbours is merged already.
pub coalesce-eq_self : (b : Block) (bs : List Block) → IsCoalesced (b ∷ bs) → coalesce b bs ≡ b ∷ bs
unfolding coalesce
coalesce-eq_self b [] c = refl
coalesce-eq_self b (d ∷ bs) c = rw (c.0, coalesce-eq_self d bs c.1)
