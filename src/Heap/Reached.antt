-- ===== src/Heap/Reached.antt =====
-- What holds of every heap that src/kernel/memory.cpp reaches: `init_heap`, then any calls of `kmalloc`
-- and of `kfree` on pointers that are live.
use mathlib.Core.Path.{subst}
use mathlib.Core.Option.{some-injective}
use swish_kernel.Prelude.{
  ℕ, suc, ◌+◌, ◌-◌, ◌≤◌, ◌<◌, ◌≡◌, ◌≢◌, refl, sym, ap, ◌∙◌, fun_ext, Bool, true, false, Option,
  none, some, ne→beq, List, [], ◌∷◌, ◌++◌, arith, ltb, ◌==◌, if◌then◌else◌, length, null, size_mod,
  write, write_self,
}
use swish_kernel.Heap.{Heap, header, init_heap, align_8, kmalloc, kfree, sub_size}
use swish_kernel.Heap.Tiles.{Block, block, extent, holds, IsHeap, IsCoalesced, Tiles-le}
use swish_kernel.Heap.Alloc.{
  carve, carve_cons, Outcome, Granted, exhausted, granted, kmalloc-Outcome,
}
use swish_kernel.Heap.Free.{coalesce_all, kfree_lem}
use swish_kernel.Heap.Usage.{
  holds-split, holds-carve, holds_marked, holds-coalesce, carve-IsCoalesced, coalesce-IsCoalesced,
}

-- One unit of fuel for each byte, and one more.
abbrev pub fuel_for : ℕ → ℕ
fuel_for heap_size = suc heap_size

length-le-extent : (bs : List Block) → length bs ≤ extent bs
length-le-extent [] = omega arith
length-le-extent (b ∷ bs) = omega (arith, length-le-extent bs)

-- The heap is a row without free neighbours, and the pointers in use are the live ones.
pub record Holds (start heap_size : ℕ) (h : Heap) (live : ℕ → Bool) : Type 0 where
  pub blocks : List Block
  pub is_heap : IsHeap h start blocks (start + heap_size)
  pub coalesced : IsCoalesced blocks
  pub live_used : (p : ℕ) → live p ≡ holds start blocks p

-- What a run can reach, with the pointers handed out and not freed since.
pub data Run (start heap_size : ℕ) : Heap → (ℕ → Bool) → Type 0 where
  boot : (h : Heap) → Run start heap_size (init_heap start heap_size h) (λ _. false)
  alloc :
      {h h' : Heap} {live : ℕ → Bool} (size p : ℕ)
      → Run start heap_size h live
      → 0 < size
      → kmalloc (fuel_for heap_size) size h ≡ some (p, h')
      → Run start heap_size h' (if p == null then live else write live p true)
  free :
      {h h' : Heap} {live : ℕ → Bool} (p : ℕ)
      → Run start heap_size h live
      → live p ≡ true
      → kfree (fuel_for heap_size) p h ≡ some h'
      → Run start heap_size h' (write live p false)

-- What a call of `kmalloc` leaves: it has returned, and the pointer, if any, is one more live one.
abbrev pub AfterAlloc : ℕ → ℕ → (ℕ → Bool) → Option (ℕ × Heap) → Type 0
AfterAlloc start heap_size live none = ⊥
AfterAlloc start heap_size live (some (p, h)) =
    Holds start heap_size h (if p == null then live else write live p true)

module _ (start heap_size : ℕ) (low : 64 ≤ start) (high : start + heap_size < size_mod)
    (room : header ≤ heap_size) where
  init_heap-Holds : (h : Heap) → Holds start heap_size (init_heap start heap_size h) (λ _. false)
  unfolding init_heap
  init_heap-Holds h =
      let large : ltb heap_size header ≡ false = ground arith in
      rw large (record {
        blocks = block (heap_size - header) true ∷ [];
        is_heap = record {
          low = low;
          high = high;
          nonempty = λ e. cc;
          head = refl;
          tiles = (
            write_self h.size start (sub_size heap_size header) ∙ omega arith,
            write_self h.is_free start true,
            write_self h.next start null,
            omega arith,
          );
        };
        coalesced = tt;
        live_used = λ p. refl;
      })

  pub fuel_suffices :
      {h : Heap} {live : ℕ → Bool} (s : Holds start heap_size h live)
      → length s.blocks < fuel_for heap_size
  fuel_suffices {h} s = omega (
    arith,
    length-le-extent s.blocks,
    Tiles-le h start s.blocks (start + heap_size) s.is_heap.tiles,
  )

  Granted-Holds :
      {h h' : Heap} {live : ℕ → Bool} (s : Holds start heap_size h live) (n p : ℕ)
      (pre : List Block) (b : Block) (post : List Block)
      → Granted h start s.blocks (start + heap_size) n p h' pre b post
      → Holds start heap_size h' (write live p true)
  Granted-Holds s n p pre b post g = record {
    blocks = pre ++ carve n b post;
    is_heap = record {
      low = low;
      high = high;
      nonempty = append_carve-ne-nil pre;
      head = g.below.head ∙ s.is_heap.head;
      tiles = g.tiles;
    };
    coalesced = carve-IsCoalesced n pre b post g.was_free (subst IsCoalesced g.parts s.coalesced);
    live_used = λ q.
        ap (λ (f : ℕ → Bool). write f p true q) (fun_ext s.live_used)
        ∙ ap (λ xs. write (holds start xs) p true q) g.parts
        ∙ sym (holds-carve start n pre b post p q g.was_free g.fits g.pointer);
  }
    where
      carve-ne-nil : carve n b post ≢ []
      carve-ne-nil e = let (c, cs, f) = carve_cons n b post in cc

      append_carve-ne-nil : (xs : List Block) → xs ++ carve n b post ≢ []
      append_carve-ne-nil [] e = carve-ne-nil e
      append_carve-ne-nil (x ∷ xs) e = cc

  alloc-Holds :
      {h : Heap} {live : ℕ → Bool} (s : Holds start heap_size h live) (n : ℕ)
      {r : Option (ℕ × Heap)}
      → Outcome h start s.blocks (start + heap_size) n r
      → AfterAlloc start heap_size live r
  alloc-Holds s n (exhausted u) = s
  alloc-Holds s n (granted {p} pre b post g) =
      let nonnull : (p == null) ≡ false = ne→beq (omega (arith, g.pointer)) in
      rw nonnull (Granted-Holds s n p pre b post g)

  pub kmalloc-Holds :
      {h : Heap} {live : ℕ → Bool} (size : ℕ)
      → Holds start heap_size h live
      → 0 < size
      → AfterAlloc start heap_size live (kmalloc (fuel_for heap_size) size h)
  kmalloc-Holds {h} size s pos = alloc-Holds s (align_8 size) (
      kmalloc-Outcome (fuel_for heap_size) size h start (start + heap_size) s.blocks s.is_heap pos
        (fuel_suffices s))

  freed-Holds :
      {h h' : Heap} {live : ℕ → Bool} (s : Holds start heap_size h live) (p : ℕ) (pre : List Block)
      (b : Block) (post : List Block)
      → s.blocks ≡ pre ++ b ∷ post
      → p ≡ start + extent pre + header
      → IsHeap h' start (coalesce_all (pre ++ block b.size true ∷ post)) (start + heap_size)
      → Holds start heap_size h' (write live p false)
  freed-Holds s p pre b post e at is = record {
    blocks = coalesce_all (pre ++ block b.size true ∷ post);
    is_heap = is;
    coalesced = merged (pre ++ block b.size true ∷ post);
    live_used = λ q.
        ap (λ (f : ℕ → Bool). write f p false q) (fun_ext s.live_used)
        ∙ ap (λ xs. write (holds start xs) p false q) e
        ∙ sym (holds_marked start pre b post p q at)
        ∙ sym (holds_merged (pre ++ block b.size true ∷ post) q);
  }
    where
      merged : (xs : List Block) → IsCoalesced (coalesce_all xs)
      merged [] = tt
      merged (x ∷ xs) = coalesce-IsCoalesced x xs

      holds_merged : (xs : List Block) (q : ℕ) → holds start (coalesce_all xs) q ≡ holds start xs q
      holds_merged [] q = refl
      holds_merged (x ∷ xs) q = holds-coalesce start x xs q

  pub kfree-Holds :
      {h : Heap} {live : ℕ → Bool} (p : ℕ)
      → Holds start heap_size h live
      → live p ≡ true
      → (h' : Heap) × (kfree (fuel_for heap_size) p h ≡ some h')
        × Holds start heap_size h' (write live p false)
  kfree-Holds {h} p s used =
      let (pre, b, post, e, busy, at) = holds-split start s.blocks p (sym (s.live_used p) ∙ used) in
      let is = subst (λ xs. IsHeap h start xs (start + heap_size)) e s.is_heap in
      let enough : length (pre ++ b ∷ post) ≤ fuel_for heap_size =
        omega (arith, fuel_suffices s, ap (λ xs. length xs) e) in
      let (h', run, is') =
        kfree_lem (fuel_for heap_size) h start (start + heap_size) pre b post is enough in
      (h', ap (λ x. kfree (fuel_for heap_size) x h) at ∙ run, freed-Holds s p pre b post e at is')

  pub reached-Holds :
      {h : Heap} {live : ℕ → Bool} → Run start heap_size h live → Holds start heap_size h live
  reached-Holds (boot h) = init_heap-Holds h
  reached-Holds (alloc size p r pos e) =
      subst (AfterAlloc start heap_size _) e (kmalloc-Holds size (reached-Holds r) pos)
  reached-Holds (free {h'} {live} p r used e) =
      let (g, run, s) = kfree-Holds p (reached-Holds r) used in
      subst (λ x. Holds start heap_size x (write live p false)) (some-injective _ _ (sym run ∙ e)) s
