-- ===== src/Heap/SizeOf.antt =====
-- The sizes of the blocks in a row, and how kmalloc and kfree of src/kernel/memory.cpp keep them.
use swish_kernel.Prelude.{
  ℕ, ◌+◌, ◌-◌, ◌≤◌, ◌≡◌, ◌≢◌, refl, ap, ◌∙◌, inl, inr, true, false, not, ◌&&◌, List, [], ◌∷◌, ◌++◌,
  arith, leb, ◌==◌, if◌then◌else◌, Bool-cases,
}
use swish_kernel.Heap.{Heap, header}
use swish_kernel.Heap.Tiles.{Block, block, extent, holds, Tiles}
use swish_kernel.Heap.Alloc.{carve}
use swish_kernel.Heap.Free.{coalesce_all}
use swish_kernel.Heap.Coalesce.{coalesce}
use swish_kernel.Heap.Usage.{holds-ge, holds-coalesce}

-- The size of the block in use behind a pointer.
unfoldable pub size_of : ℕ → List Block → ℕ → ℕ
size_of a [] p = 0
size_of a (b ∷ bs) p =
    let rest = size_of (a + header + b.size) bs p in
    if not b.free && p == a + header then b.size else rest

pub size_of-Tiles :
    (h : Heap) (a : ℕ) (bs : List Block) (e p : ℕ)
    → Tiles h a bs e
    → holds a bs p ≡ true
    → h.size (p - header) ≡ size_of a bs p
unfolding size_of
size_of-Tiles h a [] e p t u = cc
size_of-Tiles h a (b ∷ bs) e p t u = elim (Bool-cases (not b.free && p == a + header)) [
  | inl here ↦ let back : p - header ≡ a = ground arith in rw here (ap h.size back ∙ t.0)
  | inr there ↦ rw there (size_of-Tiles h (a + header + b.size) bs e p t.3 (rw there at u))
]

pub size_of-carve :
    (a n : ℕ) (pre : List Block) (b : Block) (post : List Block) (q : ℕ)
    → b.free ≡ true
    → n ≤ b.size
    → holds a (pre ++ b ∷ post) q ≡ true
    → size_of a (pre ++ carve n b post) q ≡ size_of a (pre ++ b ∷ post) q
unfolding carve size_of
size_of-carve a n [] b post q free fit u = elim (Bool-cases (leb (n + header + 8) b.size)) [
  | inl c ↦
      let end : a + header + n + header + (b.size - n - header) ≡ a + header + b.size =
        ground arith in
      rw (c, free, end) (ground (arith, u, holds-ge (a + header + b.size) post q))
  | inr c ↦ rw (c, free) (ground (arith, u, holds-ge (a + header + b.size) post q))
]
size_of-carve a n (x ∷ pre) b post q free fit u =
    elim (Bool-cases (not x.free && q == a + header)) [
      | inl here ↦ rw here refl
      | inr there ↦
          rw there (size_of-carve (a + header + x.size) n pre b post q free fit (rw there at u))
    ]

-- The block that is handed out.
pub size_of-carved :
    (a n : ℕ) (pre : List Block) (b : Block) (post : List Block) (p : ℕ)
    → n ≤ b.size
    → p ≡ a + extent pre + header
    → n ≤ size_of a (pre ++ carve n b post) p
unfolding carve size_of
size_of-carved a n [] b post p fit at = elim (Bool-cases (leb (n + header + 8) b.size)) [
  | inl c ↦ rw c (ground arith)
  | inr c ↦ rw c (ground arith)
]
size_of-carved a n (x ∷ pre) b post p fit at =
    let rest = size_of-carved (a + header + x.size) n pre b post p fit (omega arith) in
    let other : (p == a + header) ≡ false = ground arith in rw other (ground arith)

pub holds_free :
    (a : ℕ) (pre : List Block) (b : Block) (post : List Block) (p : ℕ)
    → b.free ≡ true
    → p ≡ a + extent pre + header
    → holds a (pre ++ b ∷ post) p ≡ false
holds_free a [] b post p free at = ground (arith, holds-ge (a + header + b.size) post p)
holds_free a (x ∷ pre) b post p free at =
    let rest = holds_free (a + header + x.size) pre b post p free (omega arith) in
    let other : (p == a + header) ≡ false = ground arith in rw (other, rest) (ground arith)

pub size_of_marked :
    (a : ℕ) (pre : List Block) (b : Block) (post : List Block) (p q : ℕ)
    → p ≡ a + extent pre + header
    → q ≢ p
    → size_of a (pre ++ block b.size true ∷ post) q ≡ size_of a (pre ++ b ∷ post) q
unfolding size_of
size_of_marked a [] b post p q at ne = ground arith
size_of_marked a (x ∷ pre) b post p q at ne =
    let rest = size_of_marked (a + header + x.size) pre b post p q (omega arith) ne in rw rest refl

size_of-coalesce :
    (a : ℕ) (b : Block) (bs : List Block) (q : ℕ)
    → size_of a (coalesce b bs) q ≡ size_of a (b ∷ bs) q
unfolding coalesce size_of
size_of-coalesce a b [] q = refl
size_of-coalesce a b (c ∷ bs) q = elim (Bool-cases (b.free && c.free)) [
  | inl both ↦
      let end : a + header + (b.size + header + c.size) ≡ a + header + b.size + header + c.size =
        omega arith in
      rw (both, size_of-coalesce a (block (b.size + header + c.size) b.free) bs q, end)
        (ground arith)
  | inr other ↦ rw (other, size_of-coalesce (a + header + b.size) c bs q) refl
]

pub holds-merged : (a : ℕ) (bs : List Block) (q : ℕ) → holds a (coalesce_all bs) q ≡ holds a bs q
holds-merged a [] q = refl
holds-merged a (b ∷ bs) q = holds-coalesce a b bs q

pub size_of-merged :
    (a : ℕ) (bs : List Block) (q : ℕ) → size_of a (coalesce_all bs) q ≡ size_of a bs q
size_of-merged a [] q = refl
size_of-merged a (b ∷ bs) q = size_of-coalesce a b bs q
