-- ===== src/Heap/RoundTrip.antt =====
-- `kmalloc` followed by `kfree` of what it returned, and the sizes at which the rounding of
-- `kmalloc` in src/kernel/memory.cpp wraps.
use mathlib.Core.Path.{subst}
use swish_kernel.Prelude.{
  ℕ, suc, ◌+◌, ◌-◌, ◌%◌, ◌≤◌, ◌<◌, ◌≡◌, ◌≢◌, refl, sym, ap, ◌∙◌, inl, inr, true, false, ◌&&◌,
  Option, none, some, List, [], ◌∷◌, ◌++◌, arith, leb, length, null, size_mod, Bool-cases, leb→le,
  length-append,
}
use swish_kernel.Heap.{Heap, header, align_8, kmalloc, kfree}
use swish_kernel.Heap.Tiles.{Block, block, Tiles, IsHeap, IsCoalesced}
use swish_kernel.Heap.Alloc.{carve, Outcome, Granted, exhausted, granted, kmalloc-Outcome}
use swish_kernel.Heap.Free.{coalesce_all, kfree_lem}
use swish_kernel.Heap.Coalesce.{coalesce}
use swish_kernel.Heap.Usage.{coalesce-eq_self}

-- Merging the tail back into the free block that it was carved from restores the whole row.
coalesce_restores :
    (pre : List Block) (x : Block) (xs : List Block) (b : Block) (post : List Block)
    → x.free ≡ true
    → b.free ≡ true
    → coalesce x xs ≡ b ∷ post
    → IsCoalesced (pre ++ b ∷ post)
    → coalesce_all (pre ++ x ∷ xs) ≡ pre ++ b ∷ post
unfolding coalesce
coalesce_restores [] x xs b post fx fb e c = e
coalesce_restores (p ∷ []) x xs b post fx fb e c =
    let apart : (p.free && x.free) ≡ false = ground arith in rw (apart, e)
coalesce_restores (p ∷ q ∷ pre) x xs b post fx fb e c =
    rw (c.0, coalesce_restores (q ∷ pre) x xs b post fx fb e c.1)

IsCoalesced-drop :
    (pre : List Block) (b : Block) (post : List Block)
    → IsCoalesced (pre ++ b ∷ post)
    → IsCoalesced (b ∷ post)
IsCoalesced-drop [] b post c = c
IsCoalesced-drop (p ∷ []) b post c = c.1
IsCoalesced-drop (p ∷ q ∷ pre) b post c = IsCoalesced-drop (q ∷ pre) b post c.1

-- What `carve` made of a free block, with its first part free again.
carved_back :
    (n : ℕ) (b : Block) (post : List Block)
    → n ≤ b.size
    → b.free ≡ true
    → IsCoalesced (b ∷ post)
    → (c : Block) × (cs : List Block) × (carve n b post ≡ c ∷ cs)
      × (coalesce (block c.size true) cs ≡ b ∷ post)
      × (length cs ≤ suc (length post))
unfolding carve
carved_back n b post fit free c = elim (Bool-cases (leb (n + header + 8) b.size)) [
  | inl e ↦
      let le = leb→le (n + header + 8) b.size e in
      rw e (block n false, block (b.size - n - header) true ∷ post, refl, merged le, omega arith)
  | inr e ↦ rw e (block b.size false, post, refl, whole, omega arith)
]
  where
    whole : coalesce (block b.size true) post ≡ b ∷ post
    whole = subst (λ x. coalesce x post ≡ b ∷ post) (ground arith) (coalesce-eq_self b post c)

    merged :
        n + header + 8 ≤ b.size
        → coalesce (block n true) (block (b.size - n - header) true ∷ post) ≡ b ∷ post
    merged le =
        let size : n + header + (b.size - n - header) ≡ b.size = omega arith in
        unfold coalesce in rw size whole

-- What `kmalloc` returned can be freed, and that gives the row back.
abbrev Restores : ℕ → ℕ → List Block → ℕ → Option (ℕ × Heap) → Type 0
Restores fuel start bs end none = ⊥
Restores fuel start bs end (some (p, h)) =
    p ≢ null → (h' : Heap) × (kfree fuel p h ≡ some h') × IsHeap h' start bs end

Granted-Restores :
    (fuel : ℕ) (h h' : Heap) (start n end p : ℕ) (bs pre : List Block) (b : Block)
    (post : List Block)
    → IsHeap h start bs end
    → IsCoalesced bs
    → suc (length bs) < fuel
    → Granted h start bs end n p h' pre b post
    → (h'' : Heap) × (kfree fuel p h' ≡ some h'') × IsHeap h'' start bs end
Granted-Restores fuel h h' start n end p bs pre b post is c enough g =
    let whole = subst IsCoalesced g.parts c in
    let (d, ds, carved, back, short) =
      carved_back n b post g.fits g.was_free (IsCoalesced-drop pre b post whole) in
    let row : pre ++ carve n b post ≡ pre ++ d ∷ ds = ap (λ xs. pre ++ xs) carved in
    let is' : IsHeap h' start (pre ++ d ∷ ds) end = record {
      low = is.low;
      high = is.high;
      nonempty = nonempty pre d ds;
      head = g.below.head ∙ is.head;
      tiles = subst (λ xs. Tiles h' start xs end) row g.tiles;
    } in
    let len : length (pre ++ d ∷ ds) ≤ fuel = omega (
      arith,
      length-append pre (d ∷ ds),
      length-append pre (b ∷ post),
      ap (λ xs. length xs) g.parts,
    ) in
    let (h'', run, is'') = kfree_lem fuel h' start end pre d ds is' len in
    let same =
      coalesce_restores pre (block d.size true) ds b post refl g.was_free back whole
      ∙ sym g.parts in
    (
      h'',
      ap (λ x. kfree fuel x h') g.pointer ∙ run,
      subst (λ xs. IsHeap h'' start xs end) same is'',
    )
  where
    nonempty : (xs : List Block) (d : Block) (ds : List Block) → xs ++ d ∷ ds ≢ []
    nonempty [] d ds e = cc
    nonempty (x ∷ xs) d ds e = cc

Outcome-Restores :
    (fuel : ℕ) (h : Heap) (start n end : ℕ) (bs : List Block) {r : Option (ℕ × Heap)}
    → IsHeap h start bs end
    → IsCoalesced bs
    → suc (length bs) < fuel
    → Outcome h start bs end n r
    → Restores fuel start bs end r
Outcome-Restores fuel h start n end bs is c enough (exhausted u) = λ ne. absurd (ne refl)
Outcome-Restores fuel h start n end bs is c enough (granted {p} {h'} pre b post g) =
    λ ne. Granted-Restores fuel h h' start n end p bs pre b post is c enough g

-- On a heap without free neighbours, `kfree` of a block that `kmalloc` has just returned gives back
-- the row of blocks from before.
pub kfree-kmalloc :
    (fuel size : ℕ) (h h' : Heap) (start end p : ℕ) (bs : List Block)
    → IsHeap h start bs end
    → IsCoalesced bs
    → 0 < size
    → suc (length bs) < fuel
    → kmalloc fuel size h ≡ some (p, h')
    → p ≢ null
    → (h'' : Heap) × (kfree fuel p h' ≡ some h'') × IsHeap h'' start bs end
kfree-kmalloc fuel size h h' start end p bs is c pos enough e =
    subst (Restores fuel start bs end) e (
      Outcome-Restores fuel h start (align_8 size) end bs is c enough
        (kmalloc-Outcome fuel size h start end bs is pos (omega arith)))

-- The size that `kmalloc` looks for: the next multiple of 8, or 0 for the seven largest sizes.
pub align_8_lem :
    (size : ℕ)
    → size < size_mod
    → (size ≤ size_mod - 8
        → (size ≤ align_8 size) × (align_8 size < size + 8) × (align_8 size % 8 ≡ 0))
      × (size_mod - 8 < size → align_8 size ≡ 0)
unfolding align_8
align_8_lem size h = (λ small. (omega arith, omega arith, omega arith), λ large. omega arith)

unfit_zero : (s : ℕ) → (true && leb 0 s) ≢ false
unfit_zero s h = ground arith

first_fit_zero :
    (h : Heap) (start s end : ℕ) (bs : List Block) {r : Option (ℕ × Heap)}
    → Outcome h start (block s true ∷ bs) end 0 r
    → (h' : Heap) × (r ≡ some (start + header, h'))
first_fit_zero h start s end bs (exhausted u) = absurd (unfit_zero s u.0)
first_fit_zero h start s end bs (granted {p} {h'} [] b post g) =
    (h', ap (λ x. some (x, h')) (omega (arith, g.pointer)))
first_fit_zero h start s end bs (granted {p} {h'} (x ∷ pre) b post g) =
    absurd (unfit_zero x.size (ground (arith, g.parts, g.skipped.0)))

-- A request for one of the seven largest sizes is not refused: the first free block serves it.
pub kmalloc_huge :
    (fuel size : ℕ) (h : Heap) (start s end : ℕ) (bs : List Block)
    → IsHeap h start (block s true ∷ bs) end
    → suc (length bs) < fuel
    → size_mod - 8 < size
    → size < size_mod
    → (h' : Heap) × (kmalloc fuel size h ≡ some (start + header, h'))
kmalloc_huge fuel size h start s end bs is enough large bound =
    let wrapped : align_8 size ≡ 0 = (align_8_lem size bound).1 large in
    first_fit_zero h start s end bs (
      subst (λ n. Outcome h start (block s true ∷ bs) end n (kmalloc fuel size h)) wrapped
        (kmalloc-Outcome fuel size h start end (block s true ∷ bs) is (omega arith) enough))
