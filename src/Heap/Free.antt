-- ===== src/Heap/Free.antt =====
-- `kfree` of src/kernel/memory.cpp against the merging of neighbours in the row of blocks.
use swish_kernel.Prelude.{
  ℕ, suc, ◌+◌, ◌≤◌, ◌≡◌, ◌≢◌, refl, ap, ◌∙◌, true, false, some, List, [], ◌∷◌, ◌++◌, arith, ◌==◌,
  length, null, write, write_ne, ne→beq,
}
use swish_kernel.Heap.{Heap, header, sub_size, coalesce_loop, kfree}
use swish_kernel.Heap.Tiles.{
  Block, block, extent, link, Tiles, IsHeap, SameFrom, Tiles-le, extent-append, Tiles-frame,
}
use swish_kernel.Heap.Coalesce.{coalesce, coalesce_head, coalesce_loop-Coalesced}

-- The header that `kfree` marks, in a row with the blocks `pre` before it.
abbrev marked : ℕ → Heap → Heap
marked x h = record h { is_free = write h.is_free x true }

marked-Tiles :
    (h : Heap) (a x e : ℕ) (pre : List Block) (b : Block) (post : List Block)
    → x ≡ a + extent pre
    → Tiles h a (pre ++ b ∷ post) e
    → Tiles (marked x h) a (pre ++ block b.size true ∷ post) e
marked-Tiles h a x e [] b post at t = (
  t.0,
  eq_write at,
  t.2,
  Tiles-frame h (marked x h) (suc a) (a + header + b.size) post e (omega arith) from t.3,
)
  where
    eq_write : x ≡ a + 0 → write h.is_free x true a ≡ true
    eq_write at = ground arith

    from : SameFrom (suc a) h (marked x h)
    from = record { size = λ y le. refl; is_free = λ y le. ground arith; next = λ y le. refl }
marked-Tiles h a x e (p ∷ pre) b post at t = (
  t.0,
  write_ne h.is_free x a true (omega arith) ∙ t.1,
  t.2 ∙ same_link pre,
  marked-Tiles h (a + header + p.size) x e pre b post (omega arith) t.3,
)
  where
    same_link :
        (xs : List Block)
        → link (a + header + p.size) (xs ++ b ∷ post)
          ≡ link (a + header + p.size) (xs ++ block b.size true ∷ post)
    same_link [] = refl
    same_link (y ∷ xs) = refl

-- The whole row after one pass of merging.
abbrev pub coalesce_all : List Block → List Block
coalesce_all [] = []
coalesce_all (b ∷ bs) = coalesce b bs

module _ (fuel : ℕ) (h : Heap) (start end : ℕ) (pre : List Block) (b : Block) (post : List Block)
    (is : IsHeap h start (pre ++ b ∷ post) end) where
  kfree_marks :
      kfree fuel (start + extent pre + header) h
      ≡ coalesce_loop fuel start (marked (start + extent pre) h)
  unfolding kfree
  kfree_marks =
      let nonnull : (start + extent pre + header == null) ≡ false = ne→beq (omega arith) in
      let back : sub_size (start + extent pre + header) header ≡ start + extent pre = omega (
        arith,
        Tiles-le h start (pre ++ b ∷ post) end is.tiles,
        extent-append pre (b ∷ post),
        is.high,
      ) in
      let head : h.free_list_head ≡ start = is.head in
      rw nonnull (λ i. coalesce_loop fuel (head i) (marked (back i) h))

coalesce_all-ne-nil : (bs : List Block) → bs ≢ [] → coalesce_all bs ≢ []
coalesce_all-ne-nil [] h e = h e
coalesce_all-ne-nil (b ∷ bs) h e = let (d, ds, f, g) = coalesce_head b bs in cc

append-ne-nil : (pre : List Block) (b : Block) (post : List Block) → pre ++ b ∷ post ≢ []
append-ne-nil [] b post e = cc
append-ne-nil (p ∷ pre) b post e = cc

length_marked :
    (pre : List Block) (b c : Block) (post : List Block)
    → length (pre ++ b ∷ post) ≡ length (pre ++ c ∷ post)
length_marked [] b c post = refl
length_marked (p ∷ pre) b c post = ap suc (length_marked pre b c post)

coalesce_row :
    (fuel : ℕ) (h : Heap) (start end : ℕ) (row : List Block)
    → IsHeap h start row end
    → length row ≤ fuel
    → (h' : Heap) × (coalesce_loop fuel start h ≡ some h') × IsHeap h' start (coalesce_all row) end
coalesce_row fuel h start end [] is enough = absurd (is.nonempty refl)
coalesce_row fuel h start end (c ∷ cs) is enough =
    let (h', run, tiles, below) =
      coalesce_loop-Coalesced fuel h start end c cs is.tiles is.low is.high enough in
    (
      h',
      run,
      record {
        low = is.low;
        high = is.high;
        nonempty = coalesce_all-ne-nil (c ∷ cs) is.nonempty;
        head = below.head ∙ is.head;
        tiles = tiles;
      },
    )

-- `kfree` of the payload pointer of any block marks that block free and then merges all free
-- neighbours; enough fuel is the number of blocks.
pub kfree_lem :
    (fuel : ℕ) (h : Heap) (start end : ℕ) (pre : List Block) (b : Block) (post : List Block)
    → IsHeap h start (pre ++ b ∷ post) end
    → length (pre ++ b ∷ post) ≤ fuel
    → (h' : Heap) × (kfree fuel (start + extent pre + header) h ≡ some h')
      × IsHeap h' start (coalesce_all (pre ++ block b.size true ∷ post)) end
kfree_lem fuel h start end pre b post is enough =
    let (h', run, is') =
      coalesce_row fuel (marked (start + extent pre) h) start end (pre ++ block b.size true ∷ post)
        (record {
          low = is.low;
          high = is.high;
          nonempty = append-ne-nil pre (block b.size true) post;
          head = is.head;
          tiles = marked-Tiles h start (start + extent pre) end pre b post refl is.tiles;
        })
        (omega (arith, length_marked pre b (block b.size true) post)) in
    (h', kfree_marks fuel h start end pre b post is ∙ run, is')
