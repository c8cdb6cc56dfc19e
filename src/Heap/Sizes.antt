-- ===== src/Heap/Sizes.antt =====
-- What a client of src/kernel/memory.cpp relies on: a new block is large enough and was not in use, and
-- no block in use changes its size.
use mathlib.Core.Path.{subst}
use mathlib.Core.Option.{some-injective}
use swish_kernel.Prelude.{
  ℕ, ◌+◌, ◌-◌, ◌≤◌, ◌<◌, ◌≡◌, ◌≢◌, refl, sym, ap, ◌∙◌, inl, inr, Bool, true, false, Option, none,
  some, List, ◌∷◌, ◌++◌, arith, if◌then◌else◌, length, null, size_mod, Bool-cases, write,
  write_self, write_ne, ◌⊎◌, ltb, ne→beq,
}
use swish_kernel.Heap.{Heap, header, align_8, kmalloc, kfree}
use swish_kernel.Heap.Tiles.{Block, block, holds, Tiles, IsHeap}
use swish_kernel.Heap.Alloc.{carve, Outcome, Granted, exhausted, granted, kmalloc-Outcome}
use swish_kernel.Heap.Free.{coalesce_all, kfree_lem}
use swish_kernel.Heap.Usage.{holds-split, holds-carve, holds_marked}
use swish_kernel.Heap.RoundTrip.{align_8_lem}
use swish_kernel.Heap.Trace.{Run-Holds, Run-disjoint}
use swish_kernel.Heap.Reached.{Run, alloc, Holds, fuel_for, fuel_suffices}
use swish_kernel.Heap.SizeOf.{
  size_of-Tiles, size_of-carve, size_of-carved, holds_free, size_of_marked, holds-merged,
  size_of-merged,
}

-- The block behind `p` is large enough and was not in use, and no other block in use has changed its
-- size.
abbrev pub IsNew : Heap → (ℕ → Bool) → ℕ → ℕ → Heap → Type 0
IsNew h live n p h' =
    (live p ≡ false)
    × (n ≤ h'.size (p - header))
    × ((q : ℕ) → live q ≡ true → h'.size (q - header) ≡ h.size (q - header))

AllocIsNew : Heap → (ℕ → Bool) → ℕ → Option (ℕ × Heap) → Type 0
AllocIsNew h live n none = ⊥
AllocIsNew h live n (some (p, h')) = p ≢ null → IsNew h live n p h'

module _ (start heap_size : ℕ) (low : 64 ≤ start) (high : start + heap_size < size_mod)
    (room : header ≤ heap_size) where
  Granted-IsNew :
      {h h' : Heap} {live : ℕ → Bool} (s : Holds start heap_size h live) (n p : ℕ)
      (pre : List Block) (b : Block) (post : List Block)
      → Granted h start s.blocks (start + heap_size) n p h' pre b post
      → IsNew h live n p h'
  Granted-IsNew {h} {h'} {live} s n p pre b post g =
      let end : ℕ = start + heap_size in
      let used : (q : ℕ) → live q ≡ true → holds start (pre ++ b ∷ post) q ≡ true =
        λ q u. ap (λ bs. holds start bs q) (sym g.parts) ∙ sym (s.live_used q) ∙ u in
      let now : (q : ℕ)
          → holds start (pre ++ carve n b post) q ≡ write (holds start (pre ++ b ∷ post)) p true q =
        λ q. holds-carve start n pre b post p q g.was_free g.fits g.pointer in
      let new : holds start (pre ++ carve n b post) p ≡ true =
        now p ∙ write_self (holds start (pre ++ b ∷ post)) p true in
      let still : (q : ℕ) → live q ≡ true → holds start (pre ++ carve n b post) q ≡ true =
        λ q u. now q ∙ ground (arith, used q u) in
      let tiles = subst (λ bs. Tiles h start bs end) g.parts s.is_heap.tiles in
      (
        s.live_used p
            ∙ ap (λ bs. holds start bs p) g.parts
            ∙ holds_free start pre b post p g.was_free g.pointer,
        subst (λ k. n ≤ k) (sym (size_of-Tiles h' start (pre ++ carve n b post) end p g.tiles new))
            (size_of-carved start n pre b post p g.fits g.pointer),
        λ q u.
            size_of-Tiles h' start (pre ++ carve n b post) end q g.tiles (still q u)
            ∙ size_of-carve start n pre b post q g.was_free g.fits (used q u)
            ∙ sym (size_of-Tiles h start (pre ++ b ∷ post) end q tiles (used q u)),
      )

  Outcome-IsNew :
      {h : Heap} {live : ℕ → Bool} (s : Holds start heap_size h live) (n : ℕ)
      {r : Option (ℕ × Heap)}
      → Outcome h start s.blocks (start + heap_size) n r
      → AllocIsNew h live n r
  unfolding AllocIsNew
  Outcome-IsNew s n (exhausted u) = λ p0. absurd (p0 refl)
  Outcome-IsNew s n (granted {p} {h'} pre b post g) = λ p0. Granted-IsNew s n p pre b post g

  -- On every heap that a run reaches, a pointer that `kmalloc` of up to 2^64 - 8 bytes hands out was not
  -- live, its block holds the bytes, and no live block changes its size.
  pub kmalloc-IsNew :
      {h h' : Heap} {live : ℕ → Bool} (size p : ℕ)
      → Run start heap_size h live
      → 0 < size
      → size ≤ size_mod - 8
      → kmalloc (fuel_for heap_size) size h ≡ some (p, h')
      → p ≢ null
      → IsNew h live size p h'
  unfolding AllocIsNew
  kmalloc-IsNew {h} {h'} {live} size p r pos small run p0 =
      let s = Run-Holds start heap_size low high room r in
      let (free, wide, kept) =
        subst (AllocIsNew h live (align_8 size)) run
          (Outcome-IsNew s (align_8 size) (
            kmalloc-Outcome (fuel_for heap_size) size h start (start + heap_size) s.blocks s.is_heap
              pos (fuel_suffices start heap_size low high room s)))
          p0 in
      (free, omega (arith, wide, (align_8_lem size (omega (arith, small))).0 small), kept)

  -- On such a heap `kfree` of a live pointer changes the size of no other live block.
  pub kfree-sizes :
      {h h' : Heap} {live : ℕ → Bool} (p q : ℕ)
      → Run start heap_size h live
      → live p ≡ true
      → live q ≡ true
      → q ≢ p
      → kfree (fuel_for heap_size) p h ≡ some h'
      → h'.size (q - header) ≡ h.size (q - header)
  kfree-sizes {h} {h'} {live} p q r used_p used_q ne run =
      let s = Run-Holds start heap_size low high room r in
      let end : ℕ = start + heap_size in
      let (pre, b, post, e, busy, at) =
        holds-split start s.blocks p (sym (s.live_used p) ∙ used_p) in
      let is = subst (λ xs. IsHeap h start xs end) e s.is_heap in
      let enough : length (pre ++ b ∷ post) ≤ fuel_for heap_size =
        omega (arith, fuel_suffices start heap_size low high room s, ap (λ xs. length xs) e) in
      let (g, freed, is') = kfree_lem (fuel_for heap_size) h start end pre b post is enough in
      let same : g ≡ h' =
        some-injective _ _ (sym freed ∙ ap (λ x. kfree (fuel_for heap_size) x h) (sym at) ∙ run) in
      let before : holds start (pre ++ b ∷ post) q ≡ true =
        ap (λ xs. holds start xs q) (sym e) ∙ sym (s.live_used q) ∙ used_q in
      let after : holds start (coalesce_all (pre ++ block b.size true ∷ post)) q ≡ true =
        holds-merged start (pre ++ block b.size true ∷ post) q
        ∙ holds_marked start pre b post p q at
        ∙ write_ne (holds start (pre ++ b ∷ post)) p q false (λ e. ne (sym e))
        ∙ before in
      ap (λ x. x.size (q - header)) (sym same)
      ∙ size_of-Tiles g start (coalesce_all (pre ++ block b.size true ∷ post)) end q is'.tiles after
      ∙ size_of-merged start (pre ++ block b.size true ∷ post) q
      ∙ size_of_marked start pre b post p q at ne
      ∙ sym (size_of-Tiles h start (pre ++ b ∷ post) end q is.tiles before)

  -- On every heap that a run reaches, the bytes of a live block of another pointer lie below or above.
  pub Run-apart :
      {h : Heap} {live : ℕ → Bool} (p q n k : ℕ)
      → Run start heap_size h live
      → live p ≡ true
      → live q ≡ true
      → q ≢ p
      → n ≤ h.size (p - header)
      → k ≤ h.size (q - header)
      → (q + k ≤ p) ⊎ (p + n ≤ q)
  Run-apart {h} p q n k r u v ne hn hk = elim (Bool-cases (ltb q p)) [
    | inl below ↦
        let far = (Run-disjoint start heap_size q p low high room r v u).2 (ground arith) in
        inl (omega (arith, far, hk))
    | inr above ↦
        let far = (Run-disjoint start heap_size p q low high room r u v).2 (ground (arith, ne)) in
        inr (omega (arith, far, hn))
  ]

-- A pointer that is handed out is one more live one.
pub Run-alloc :
    {start heap_size : ℕ} {h h' : Heap} {live : ℕ → Bool} (n p : ℕ)
    → Run start heap_size h live
    → 0 < n
    → kmalloc (fuel_for heap_size) n h ≡ some (p, h')
    → p ≢ null
    → Run start heap_size h' (write live p true)
Run-alloc {start} {heap_size} {h} {h'} {live} n p r pos allocated real =
    subst (λ b. Run start heap_size h' (if b then live else write live p true)) (ne→beq real)
      (alloc n p r pos allocated)
