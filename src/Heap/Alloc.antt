-- ===== src/Heap/Alloc.antt =====
-- `kmalloc` of src/kernel/memory.cpp against a first fit on the row of blocks.
use mathlib.Core.Path.{subst}
use swish_kernel.Prelude.{
  ℕ, zero, suc, sym, ◌+◌, ◌-◌, ◌≤◌, ◌<◌, ◌≡◌, ◌≢◌, refl, sym, ap, ◌∙◌, inl, inr, true, false, ◌&&◌,
  Option, some, List, [], ◌∷◌, ◌++◌, arith, leb, ◌==◌, if◌then◌else◌, length, null, size_mod,
  Bool-cases, leb→le, ne→beq,
}
use swish_kernel.Heap.{Heap, header, place, kmalloc_loop, kmalloc, align_8}
use swish_kernel.Heap.Place.{
  place_split, place_whole, split_plain-SameBelow, taken-SameBelow, taken-Tiles, split_plain-Tiles,
}
use swish_kernel.Heap.Tiles.{SameBelow, Block, block, extent, link, Tiles, IsHeap, Tiles-le}

-- The block `b` with `n` bytes of it handed out, and what is left of it if that is worth a header.
unfoldable pub carve : ℕ → Block → List Block → List Block
carve n b post =
    if leb (n + header + 8) b.size
    then block n false ∷ block (b.size - n - header) true ∷ post
    else block b.size false ∷ post

pub carve_cons :
    (n : ℕ) (b : Block) (post : List Block)
    → (c : Block) × (cs : List Block) × (carve n b post ≡ c ∷ cs)
unfolding carve
carve_cons n b post = elim (Bool-cases (leb (n + header + 8) b.size)) [
  | inl e ↦ rw e (block n false, block (b.size - n - header) true ∷ post, refl)
  | inr e ↦ rw e (block b.size false, post, refl)
]

-- No block of the row is free and large enough.
abbrev pub AllUnfit : ℕ → List Block → Type 0
AllUnfit n [] = Unit {0}
AllUnfit n (b ∷ bs) = ((b.free && leb n b.size) ≡ false) × AllUnfit n bs

-- What `kmalloc` makes of a row that it hands a block out of.
pub record Granted (h : Heap) (a : ℕ) (bs : List Block) (e n p : ℕ) (h' : Heap) (pre : List Block)
    (b : Block) (post : List Block) : Type 0 where
  pub parts : bs ≡ pre ++ b ∷ post
  pub skipped : AllUnfit n pre
  pub was_free : b.free ≡ true
  pub fits : n ≤ b.size
  pub pointer : p ≡ a + extent pre + header
  pub tiles : Tiles h' a (pre ++ carve n b post) e
  pub below : SameBelow a h h'

pub data Outcome (h : Heap) (a : ℕ) (bs : List Block) (e n : ℕ) : Option (ℕ × Heap) → Type 0 where
  exhausted : AllUnfit n bs → Outcome h a bs e n (some (null, h))
  granted :
      {p : ℕ} {h' : Heap} (pre : List Block) (b : Block) (post : List Block)
      → Granted h a bs e n p h' pre b post
      → Outcome h a bs e n (some (p, h'))

module _ (h : Heap) (a n e : ℕ) (b : Block) (bs : List Block) (t : Tiles h a (b ∷ bs) e)
    (low : 64 ≤ a) (high : e < size_mod) where
  place-Outcome : b.free ≡ true → n ≤ b.size → Outcome h a (b ∷ bs) e n (some (place a n h))
  unfolding carve
  place-Outcome free fit =
      let inside : a + header + b.size < size_mod =
        omega (arith, Tiles-le h (a + header + b.size) bs e t.3) in
      elim (Bool-cases (leb (n + header + 8) b.size)) [
        | inl c ↦ rw (place_split h a n b.size low inside fit t.0 c) (
            granted [] b bs (record {
              parts = refl;
              skipped = tt;
              was_free = free;
              fits = fit;
              pointer = omega arith;
              tiles = rw c (split_plain-Tiles h a n e b bs t (leb→le (n + header + 8) b.size c));
              below = split_plain-SameBelow a n b.size h;
            }))
        | inr c ↦ rw (place_whole h a n b.size low inside fit t.0 c) (
            granted [] b bs (record {
              parts = refl;
              skipped = tt;
              was_free = free;
              fits = fit;
              pointer = omega arith;
              tiles = rw c (taken-Tiles h a n e b bs t);
              below = taken-SameBelow a h;
            }))
      ]

link-append :
    (a n : ℕ) (pre : List Block) (b : Block) (post : List Block)
    → link a (pre ++ b ∷ post) ≡ link a (pre ++ carve n b post)
unfolding carve
link-append a n [] b post = ground arith
link-append a n (p ∷ pre) b post = refl

-- A block that is skipped stays in front of whatever the rest of the row turns into.
skip-Outcome :
    (h : Heap) (a n e : ℕ) (b : Block) (bs : List Block) {r : Option (ℕ × Heap)}
    → Tiles h a (b ∷ bs) e
    → (b.free && leb n b.size) ≡ false
    → Outcome h (a + header + b.size) bs e n r
    → Outcome h a (b ∷ bs) e n r
skip-Outcome h a n e b bs t no_fit (exhausted u) = exhausted (no_fit, u)
skip-Outcome h a n e b bs t no_fit (granted {p} {h'} pre c post g) =
    granted (b ∷ pre) c post (record {
      parts = ap (λ xs. b ∷ xs) parts;
      skipped = (no_fit, skipped);
      was_free = was_free;
      fits = fits;
      pointer = omega arith;
      tiles = (
        below.size a (omega arith) ∙ t.0,
        below.is_free a (omega arith) ∙ t.1,
        below.next a (omega arith)
            ∙ t.2
            ∙ ap (link (a + header + b.size)) parts
            ∙ link-append (a + header + b.size) n pre c post,
        tiles,
      );
      below = record {
        head = below.head;
        size = λ x lt. below.size x (omega arith);
        is_free = λ x lt. below.is_free x (omega arith);
        next = λ x lt. below.next x (omega arith);
      };
    })
  where
    open g use {parts, skipped, was_free, fits, pointer, tiles, below}

kmalloc_loop-Outcome :
    (fuel : ℕ) (h : Heap) (a n e : ℕ) (bs : List Block)
    → Tiles h a bs e
    → 64 ≤ a
    → e < size_mod
    → length bs < fuel
    → Outcome h a bs e n (kmalloc_loop fuel (link a bs) n h)
unfolding kmalloc_loop
kmalloc_loop-Outcome zero h a n e bs t low high enough = absurd (omega arith)
kmalloc_loop-Outcome (suc fuel) h a n e [] t low high enough = exhausted tt
kmalloc_loop-Outcome (suc fuel) h a n e (b ∷ bs) t low high enough =
    let rest =
      kmalloc_loop-Outcome fuel h (a + header + b.size) n e bs t.3 (omega arith) high
        (omega arith) in
    let a_ne_null : (a == null) ≡ false = ne→beq (omega arith) in
    rw (a_ne_null, t.0, t.1, t.2)
      (elim (Bool-cases (b.free && leb n b.size)) [
        | inl fit ↦ rw fit (place-Outcome h a n e b bs t low high (ground arith) (ground arith))
        | inr no_fit ↦ rw no_fit (skip-Outcome h a n e b bs t no_fit rest)
      ])

-- `kmalloc` of a positive size hands out the first free block that holds the aligned size, and
-- answers `nullptr` with the heap unchanged if there is none; enough fuel is one more than the
-- blocks.
pub kmalloc-Outcome :
    (fuel size : ℕ) (h : Heap) (start end : ℕ) (bs : List Block)
    → IsHeap h start bs end
    → 0 < size
    → length bs < fuel
    → Outcome h start bs end (align_8 size) (kmalloc fuel size h)
unfolding kmalloc
kmalloc-Outcome fuel size h start end bs is pos enough =
    let nonzero : (size == 0) ≡ false = ne→beq (omega arith) in
    let at_head : h.free_list_head ≡ link start bs = is.head ∙ sym (link_start bs is.nonempty) in
    rw nonzero (
      subst (λ x. Outcome h start bs end (align_8 size) (kmalloc_loop fuel x (align_8 size) h))
        (sym at_head)
        (kmalloc_loop-Outcome fuel h start (align_8 size) end bs is.tiles is.low is.high enough))
  where
    link_start : (xs : List Block) → xs ≢ [] → link start xs ≡ start
    link_start [] h = absurd (h refl)
    link_start (x ∷ xs) h = refl
