-- ===== src/Heap/Coalesce.antt =====
-- The loop of `kfree` of src/kernel/memory.cpp that merges free neighbours.
use mathlib.Core.Path.{subst, sym}
use swish_kernel.Prelude.{
  ℕ, zero, suc, ◌+◌, ◌≤◌, ◌<◌, ◌≡◌, ◌≢◌, refl, ap, ◌∙◌, inl, inr, true, false, ◌&&◌, Option, some,
  List, [], ◌∷◌, arith, if◌then◌else◌, length, null, size_mod, Bool-cases, write_self, ne→beq,
  eq→beq,
}
use swish_kernel.Heap.{Heap, header, add_size, merge_next, coalesce_loop}
use swish_kernel.Heap.Tiles.{SameBelow, Block, block, link, Tiles, SameFrom, Tiles-le, Tiles-frame}

-- The row that starts with `b` after one pass of merging.
unfoldable pub coalesce : Block → List Block → List Block
coalesce b [] = b ∷ []
coalesce b (c ∷ bs) =
    let merged = coalesce (block (b.size + header + c.size) b.free) bs in
    let rest = coalesce c bs in if b.free && c.free then merged else b ∷ rest

-- A merged row starts with a block that is free as the first one was.
pub coalesce_head :
    (b : Block) (bs : List Block)
    → (d : Block) × (ds : List Block) × (coalesce b bs ≡ d ∷ ds) × (d.free ≡ b.free)
unfolding coalesce
coalesce_head b [] = (b, [], refl, refl)
coalesce_head b (c ∷ bs) = elim (Bool-cases (b.free && c.free)) [
  | inl both ↦ rw both (coalesce_head (block (b.size + header + c.size) b.free) bs)
  | inr other ↦ rw other (b, coalesce c bs, refl, refl)
]

link-coalesce : (a : ℕ) (b : Block) (bs : List Block) → link a (coalesce b bs) ≡ a
link-coalesce a b bs = let (d, ds, e, f) = coalesce_head b bs in rw e

merge_next-SameFrom : (a : ℕ) (h : Heap) → SameFrom (suc a) h (merge_next a h)
merge_next-SameFrom a h = record {
  size = λ x le. ground arith;
  is_free = λ x le. refl;
  next = λ x le. ground arith;
}

merge_next-SameBelow : (a : ℕ) (h : Heap) → SameBelow a h (merge_next a h)
merge_next-SameBelow a h = record {
  head = refl;
  size = λ x lt. ground arith;
  is_free = λ x lt. refl;
  next = λ x lt. ground arith;
}

SameBelow-refl : (a : ℕ) (h : Heap) → SameBelow a h h
SameBelow-refl a h = record {
  head = refl;
  size = λ x lt. refl;
  is_free = λ x lt. refl;
  next = λ x lt. refl;
}

SameBelow-trans : {a : ℕ} {f g h : Heap} → SameBelow a f g → SameBelow a g h → SameBelow a f h
SameBelow-trans s t = record {
  head = t.head ∙ s.head;
  size = λ x lt. t.size x lt ∙ s.size x lt;
  is_free = λ x lt. t.is_free x lt ∙ s.is_free x lt;
  next = λ x lt. t.next x lt ∙ s.next x lt;
}

merge_next-Tiles :
    (h : Heap) (a e : ℕ) (b c : Block) (bs : List Block)
    → Tiles h a (b ∷ c ∷ bs) e
    → e < size_mod
    → Tiles (merge_next a h) a (block (b.size + header + c.size) b.free ∷ bs) e
merge_next-Tiles h a e b c bs t high =
    let x : ℕ = a + header + b.size in
    let end : x + header + c.size ≡ a + header + (b.size + header + c.size) = omega arith in
    let room = Tiles-le h (x + header + c.size) bs e t.3.3 in
    (
      write_self h.size a (add_size (h.size a) (add_size header (h.size (h.next a))))
          ∙ rw (t.0, t.2, t.3.0) (omega arith),
      t.1,
      write_self h.next a (h.next (h.next a)) ∙ rw (t.2, t.3.2) (ap (λ y. link y bs) end),
      subst (λ y. Tiles (merge_next a h) y bs e) end
          (Tiles-frame h (merge_next a h) (suc a) (x + header + c.size) bs e (omega arith)
            (merge_next-SameFrom a h) t.3.3),
    )

abbrev Coalesced : Heap → ℕ → Block → List Block → ℕ → Option Heap → Type 0
Coalesced h a b bs e r =
    (h' : Heap) × (r ≡ some h') × Tiles h' a (coalesce b bs) e × SameBelow a h h'

-- A block in front of a merged row stays where it is.
keep-Coalesced :
    (h : Heap) (a e : ℕ) (b c : Block) (bs : List Block) {r : Option Heap}
    → Tiles h a (b ∷ c ∷ bs) e
    → (b.free && c.free) ≡ false
    → Coalesced h (a + header + b.size) c bs e r
    → Coalesced h a b (c ∷ bs) e r
unfolding coalesce
keep-Coalesced h a e b c bs t other (h', run, tiles, below) = (
  h',
  run,
  rw other (
    below.size a (omega arith) ∙ t.0,
    below.is_free a (omega arith) ∙ t.1,
    below.next a (omega arith) ∙ t.2 ∙ sym (link-coalesce (a + header + b.size) c bs),
    tiles,
  ),
  record {
    head = below.head;
    size = λ x lt. below.size x (omega arith);
    is_free = λ x lt. below.is_free x (omega arith);
    next = λ x lt. below.next x (omega arith);
  },
)

module _ (fuel a : ℕ) (h : Heap) (is : a ≢ null) where
  coalesce_ends : h.next a ≡ null → coalesce_loop (suc fuel) a h ≡ some h
  unfolding coalesce_loop
  coalesce_ends last = rw (ne→beq is, eq→beq last)

  module _ (more : h.next a ≢ null) where
    coalesce_merges :
        (h.is_free a && h.is_free (h.next a)) ≡ true
        → coalesce_loop (suc fuel) a h ≡ coalesce_loop fuel a (merge_next a h)
    unfolding coalesce_loop
    coalesce_merges both = rw (ne→beq is, ne→beq more, both)

    coalesce_walks :
        (h.is_free a && h.is_free (h.next a)) ≡ false
        → coalesce_loop (suc fuel) a h ≡ coalesce_loop fuel (h.next a) h
    unfolding coalesce_loop
    coalesce_walks other = rw (ne→beq is, ne→beq more, other)

pub coalesce_loop-Coalesced :
    (fuel : ℕ) (h : Heap) (a e : ℕ) (b : Block) (bs : List Block)
    → Tiles h a (b ∷ bs) e
    → 64 ≤ a
    → e < size_mod
    → length (b ∷ bs) ≤ fuel
    → Coalesced h a b bs e (coalesce_loop fuel a h)
unfolding coalesce
coalesce_loop-Coalesced zero h a e b bs t low high enough = absurd (omega arith)
coalesce_loop-Coalesced (suc fuel) h a e b [] t low high enough =
    (h, coalesce_ends fuel a h (omega arith) t.2, t, SameBelow-refl a h)
coalesce_loop-Coalesced (suc fuel) h a e b (c ∷ bs) t low high enough =
    let more : h.next a ≢ null = omega (arith, t.2) in
    let flags : (h.is_free a && h.is_free (h.next a)) ≡ (b.free && c.free) = rw (t.2, t.1, t.3.1) in
    elim (Bool-cases (b.free && c.free)) [
      | inl both ↦
          let (h', run, tiles, below) =
            coalesce_loop-Coalesced fuel (merge_next a h) a e
              (block (b.size + header + c.size) b.free) bs (merge_next-Tiles h a e b c bs t high)
              low high (omega arith) in
          (
            h',
            coalesce_merges fuel a h (omega arith) more (flags ∙ both) ∙ run,
            rw both tiles,
            SameBelow-trans (merge_next-SameBelow a h) below,
          )
      | inr other ↦
          rw (coalesce_walks fuel a h (omega arith) more (flags ∙ other), t.2)
            (keep-Coalesced h a e b c bs t other (
              coalesce_loop-Coalesced fuel h (a + header + b.size) e c bs t.3 (omega arith) high
                (omega arith)))
    ]
