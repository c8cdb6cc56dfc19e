-- ===== src/Heap/Tiles.antt =====
-- What the linked headers of src/kernel/memory.cpp stand for: a row of blocks, each right behind
-- the one before, from the first header to the end of the heap.
use swish_kernel.Prelude.{
  not, ◌||◌, ◌==◌, ℕ, ◌+◌, ◌≤◌, ◌<◌, ◌≡◌, ◌≢◌, Bool, false, ◌&&◌, List, [], ◌∷◌, ◌++◌, ◌∙◌, arith,
  null, size_mod,
}
use swish_kernel.Heap.{Heap, header}

pub record Block : Type 0 where
  pub size : ℕ
  pub free : Bool

abbrev pub block : ℕ → Bool → Block
block n f = record { size = n; free = f }

-- The bytes that a row takes, headers included.
abbrev pub extent : List Block → ℕ
extent [] = 0
extent (b ∷ bs) = header + b.size + extent bs

-- The pointer to a row that starts at `a`.
abbrev pub link : ℕ → List Block → ℕ
link a [] = null
link a (b ∷ bs) = a

abbrev pub Tiles : Heap → ℕ → List Block → ℕ → Type 0
Tiles h a [] e = a ≡ e
Tiles h a (b ∷ bs) e =
    (h.size a ≡ b.size)
    × (h.is_free a ≡ b.free)
    × (h.next a ≡ link (a + header + b.size) bs)
    × Tiles h (a + header + b.size) bs e

-- The heap from `start` to `end` is the row `bs`.
pub record IsHeap (h : Heap) (start : ℕ) (bs : List Block) (end : ℕ) : Type 0 where
  pub low : 64 ≤ start
  pub high : end < size_mod
  pub nonempty : bs ≢ []
  pub head : h.free_list_head ≡ start
  pub tiles : Tiles h start bs end

-- Whether `p` is the payload address of a block in use.
abbrev pub holds : ℕ → List Block → ℕ → Bool
holds a [] p = false
holds a (b ∷ bs) p = (not b.free && p == a + header) || holds (a + header + b.size) bs p

-- No free block has a free neighbour.
abbrev pub IsCoalesced : List Block → Type 0
IsCoalesced [] = Unit {0}
IsCoalesced (b ∷ []) = Unit {0}
IsCoalesced (b ∷ c ∷ bs) = ((b.free && c.free) ≡ false) × IsCoalesced (c ∷ bs)

pub extent-append : (xs ys : List Block) → extent (xs ++ ys) ≡ extent xs + extent ys
extent-append [] ys = omega arith
extent-append (b ∷ xs) ys = omega (arith, extent-append xs ys)

pub Tiles-le : (h : Heap) (a : ℕ) (bs : List Block) (e : ℕ) → Tiles h a bs e → a + extent bs ≡ e
Tiles-le h a [] e t = omega arith
Tiles-le h a (b ∷ bs) e t = omega (arith, Tiles-le h (a + header + b.size) bs e t.3)

-- Two heaps with the same headers from `a` on.
pub record SameFrom (a : ℕ) (h g : Heap) : Type 0 where
  pub size : (x : ℕ) → a ≤ x → g.size x ≡ h.size x
  pub is_free : (x : ℕ) → a ≤ x → g.is_free x ≡ h.is_free x
  pub next : (x : ℕ) → a ≤ x → g.next x ≡ h.next x

pub Tiles-frame :
    (h g : Heap) (c a : ℕ) (bs : List Block) (e : ℕ)
    → c ≤ a
    → SameFrom c h g
    → Tiles h a bs e
    → Tiles g a bs e
Tiles-frame h g c a [] e le s t = t
Tiles-frame h g c a (b ∷ bs) e le s t = (
  s.size a le ∙ t.0,
  s.is_free a le ∙ t.1,
  s.next a le ∙ t.2,
  Tiles-frame h g c (a + header + b.size) bs e (omega arith) s t.3,
)

-- Two heaps with the same headers below `a`.
pub record SameBelow (a : ℕ) (h g : Heap) : Type 0 where
  pub head : g.free_list_head ≡ h.free_list_head
  pub size : (x : ℕ) → x < a → g.size x ≡ h.size x
  pub is_free : (x : ℕ) → x < a → g.is_free x ≡ h.is_free x
  pub next : (x : ℕ) → x < a → g.next x ≡ h.next x
