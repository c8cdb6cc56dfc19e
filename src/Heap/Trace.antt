-- ===== src/Heap/Trace.antt =====
-- Whole runs of the allocator of src/kernel/memory.cpp: `init_heap`, then any calls of `kmalloc` and
-- of `kfree` on pointers that are live.
use swish_kernel.Prelude.{
  ℕ, ◌+◌, ◌-◌, ◌≤◌, ◌<◌, ◌≡◌, refl, sym, ap, ◌∙◌, inl, inr, Bool, true, not, ◌&&◌, Option, none,
  some, List, [], ◌∷◌, arith, ◌==◌, size_mod, Bool-cases,
}
use swish_kernel.Heap.{Heap, header, kmalloc, kfree}
use swish_kernel.Heap.Tiles.{Block, holds, Tiles, Tiles-le}
use swish_kernel.Heap.Usage.{holds-ge}
use swish_kernel.Heap.Reached.{
  fuel_for, Holds, Run, AfterAlloc, kmalloc-Holds, kfree-Holds, reached-Holds,
}

-- The block behind a pointer in use ends by the end of the row.
holds_end :
    (h : Heap) (a : ℕ) (bs : List Block) (e p : ℕ)
    → Tiles h a bs e
    → holds a bs p ≡ true
    → p + h.size (p - header) ≤ e
holds_end h a [] e p t u = cc
holds_end h a (b ∷ bs) e p t u = elim (Bool-cases (not b.free && p == a + header)) [
  | inl here ↦
      let at : p ≡ a + header = ground arith in
      let back : p - header ≡ a = omega arith in
      omega (arith, ap h.size back, t.0, Tiles-le h (a + header + b.size) bs e t.3)
  | inr there ↦ holds_end h (a + header + b.size) bs e p t.3 (rw there at u)
]

-- Of two pointers in use the block of the lower one ends before the header of the other.
holds_apart :
    (h : Heap) (a : ℕ) (bs : List Block) (e p q : ℕ)
    → Tiles h a bs e
    → holds a bs p ≡ true
    → holds a bs q ≡ true
    → p < q
    → p + h.size (p - header) + header ≤ q
holds_apart h a [] e p q t u v lt = cc
holds_apart h a (b ∷ bs) e p q t u v lt = elim (Bool-cases (not b.free && p == a + header)) [
  | inl here ↦
      let at : p ≡ a + header = ground arith in
      let back : p - header ≡ a = omega arith in
      let later : holds (a + header + b.size) bs q ≡ true = ground arith in
      omega (arith, ap h.size back, t.0, holds-ge (a + header + b.size) bs q later)
  | inr there ↦
      let above = holds-ge (a + header + b.size) bs p (rw there at u) in
      let later : holds (a + header + b.size) bs q ≡ true = ground arith in
      holds_apart h (a + header + b.size) bs e p q t.3 (rw there at u) later lt
]

-- On every heap that a run from `init_heap` reaches, the headers form a row of blocks that fills the
-- heap, no two neighbours are free, and the blocks in use are those of the live pointers.
pub Run-Holds :
    (start heap_size : ℕ) {h : Heap} {live : ℕ → Bool}
    → 64 ≤ start
    → start + heap_size < size_mod
    → header ≤ heap_size
    → Run start heap_size h live
    → Holds start heap_size h live
Run-Holds start heap_size low high room r = reached-Holds start heap_size low high room r

-- On every heap that a run reaches, `kmalloc` of a positive size and `kfree` of a live pointer
-- return with one unit of fuel more than the heap has bytes.
pub Run-total :
    (start heap_size : ℕ) {h : Heap} {live : ℕ → Bool}
    → 64 ≤ start
    → start + heap_size < size_mod
    → header ≤ heap_size
    → Run start heap_size h live
    → ((size : ℕ)
        → 0 < size
        → (p : ℕ) × (h' : Heap) × (kmalloc (fuel_for heap_size) size h ≡ some (p, h')))
      × ((p : ℕ) → live p ≡ true → (h' : Heap) × (kfree (fuel_for heap_size) p h ≡ some h'))
Run-total start heap_size {h} {live} low high room r =
    let s = reached-Holds start heap_size low high room r in
    (
      λ size pos.
          returned (kmalloc (fuel_for heap_size) size h)
            (kmalloc-Holds start heap_size low high room size s pos),
      λ p used. let (h', run, s') = kfree-Holds start heap_size low high room p s used in (h', run),
    )
  where
    returned :
        (o : Option (ℕ × Heap))
        → AfterAlloc start heap_size live o
        → (p : ℕ) × (h' : Heap) × (o ≡ some (p, h'))
    returned none a = absurd a
    returned (some (p, h')) a = (p, h', refl)

-- On every heap that a run reaches, a live block lies inside the heap, and of two live blocks the
-- lower one ends before the header of the other.
pub Run-disjoint :
    (start heap_size : ℕ) {h : Heap} {live : ℕ → Bool} (p q : ℕ)
    → 64 ≤ start
    → start + heap_size < size_mod
    → header ≤ heap_size
    → Run start heap_size h live
    → live p ≡ true
    → live q ≡ true
    → (start + header ≤ p)
      × (p + h.size (p - header) ≤ start + heap_size)
      × (p < q → p + h.size (p - header) + header ≤ q)
Run-disjoint start heap_size {h} p q low high room r u v =
    let s = reached-Holds start heap_size low high room r in
    let end : ℕ = start + heap_size in
    let u' = sym (s.live_used p) ∙ u in
    let v' = sym (s.live_used q) ∙ v in
    (
      holds-ge start s.blocks p u',
      holds_end h start s.blocks end p s.is_heap.tiles u',
      holds_apart h start s.blocks end p q s.is_heap.tiles u' v',
    )
