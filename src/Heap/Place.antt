-- ===== src/Heap/Place.antt =====
-- The part of `kmalloc` in src/kernel/memory.cpp that hands out a block it has found.
use mathlib.Core.Path.{subst}
use swish_kernel.Prelude.{
  ℕ, suc, ◌+◌, ◌-◌, ◌≤◌, ◌<◌, ◌≡◌, refl, ap, ◌∙◌, true, false, List, ◌∷◌, arith, leb, size_mod,
  write, leb→le, write_self, write_ne,
}
use swish_kernel.Heap.{Heap, header, add_size, sub_size, place}
use swish_kernel.Heap.Tiles.{SameBelow, Block, block, link, Tiles, SameFrom, Tiles-frame}

-- The sums and differences of `kmalloc` do not wrap in a block that fits.
module _ (a n s : ℕ) (low : 64 ≤ a) (high : a + header + s < size_mod) (fit : n ≤ s) where
  roomy : add_size (add_size n header) 8 ≡ n + header + 8
  roomy = omega arith

  behind : add_size a header ≡ a + header
  behind = omega arith

  new_block : n + header + 8 ≤ s → add_size (add_size a header) n ≡ a + header + n
  new_block h = omega arith

  left_over : n + header + 8 ≤ s → sub_size (sub_size s n) header ≡ s - n - header
  left_over h = omega arith

-- `split` with the arithmetic done.
pub split_plain : ℕ → ℕ → ℕ → Heap → Heap
split_plain a n s h = record h {
  size = write (write h.size (a + header + n) (s - n - header)) a n;
  is_free = write h.is_free (a + header + n) true;
  next = write (write h.next (a + header + n) (h.next a)) a (a + header + n);
}

pub taken : ℕ → Heap → Heap
taken a h = record h { is_free = write h.is_free a false }

module _ (h : Heap) (a n s : ℕ) (low : 64 ≤ a) (high : a + header + s < size_mod) (fit : n ≤ s)
    (is : h.size a ≡ s) where
  pub place_split :
      leb (n + header + 8) s ≡ true → place a n h ≡ (a + header, taken a (split_plain a n s h))
  unfolding place taken split_plain
  place_split c =
      let le = leb→le (n + header + 8) s c in
      rw (
        is,
        roomy a n s low high fit,
        c,
        new_block a n s low high fit le,
        left_over a n s low high fit le,
        behind a n s low high fit,
      )

  pub place_whole : leb (n + header + 8) s ≡ false → place a n h ≡ (a + header, taken a h)
  unfolding place taken
  place_whole c = rw (is, roomy a n s low high fit, c, behind a n s low high fit)

pub taken-SameBelow : (a : ℕ) (h : Heap) → SameBelow a h (taken a h)
unfolding taken
taken-SameBelow a h = record {
  head = refl;
  size = λ x lt. refl;
  is_free = λ x lt. ground arith;
  next = λ x lt. refl;
}

pub split_plain-SameBelow : (a n s : ℕ) (h : Heap) → SameBelow a h (taken a (split_plain a n s h))
unfolding taken split_plain
split_plain-SameBelow a n s h = record {
  head = refl;
  size = λ x lt. ground arith;
  is_free = λ x lt. ground arith;
  next = λ x lt. ground arith;
}

taken-SameFrom : (a : ℕ) (h : Heap) → SameFrom (suc a) h (taken a h)
unfolding taken
taken-SameFrom a h = record {
  size = λ x le. refl;
  is_free = λ x le. ground arith;
  next = λ x le. refl;
}

split_plain-SameFrom :
    (a n s : ℕ) (h : Heap) → SameFrom (suc (a + header + n)) h (taken a (split_plain a n s h))
unfolding taken split_plain
split_plain-SameFrom a n s h = record {
  size = λ x le. ground arith;
  is_free = λ x le. ground arith;
  next = λ x le. ground arith;
}

-- The block at `a` handed out whole or split, and the row from there on.
module _ (h : Heap) (a n e : ℕ) (b : Block) (bs : List Block) (t : Tiles h a (b ∷ bs) e) where
  pub taken-Tiles : Tiles (taken a h) a (block b.size false ∷ bs) e
  unfolding taken
  taken-Tiles = (
    t.0,
    write_self h.is_free a false,
    t.2,
    Tiles-frame h (taken a h) (suc a) (a + header + b.size) bs e (omega arith) (taken-SameFrom a h)
        t.3,
  )

  pub split_plain-Tiles :
      n + header + 8 ≤ b.size
      → Tiles
          (taken a (split_plain a n b.size h))
          a
          (block n false ∷ block (b.size - n - header) true ∷ bs)
          e
  unfolding taken split_plain
  split_plain-Tiles le =
      let end : a + header + b.size ≡ a + header + n + header + (b.size - n - header) =
        omega arith in
      (
        write_self (write h.size (a + header + n) (b.size - n - header)) a n,
        write_self (write h.is_free (a + header + n) true) a false,
        write_self (write h.next (a + header + n) (h.next a)) a (a + header + n),
        (
          ground arith,
          ground arith,
          write_ne (write h.next (a + header + n) (h.next a)) a (a + header + n) (a + header + n)
                (omega arith)
              ∙ write_self h.next (a + header + n) (h.next a)
              ∙ t.2
              ∙ ap (λ x. link x bs) end,
          subst (λ x. Tiles (taken a (split_plain a n b.size h)) x bs e) end
              (Tiles-frame h (taken a (split_plain a n b.size h)) (suc (a + header + n))
                (a + header + b.size) bs e (omega arith) (split_plain-SameFrom a n b.size h) t.3),
        ),
      )
