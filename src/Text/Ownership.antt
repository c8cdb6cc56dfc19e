-- ===== src/Text/Ownership.antt =====
-- Each string of src/kernel/String.cpp keeps its own bytes in its own block of the heap.
use mathlib.Core.Path.{subst}
use swish_kernel.Prelude.{
  ℕ, suc, ◌+◌, ◌%◌, ◌≤◌, ◌<◌, ◌≡◌, ◌≢◌, refl, sym, ◌∙◌, Bool, false, some, arith, null, size_mod,
  write, write_ne, done,
}
use swish_kernel.Heap.{Heap, header, kmalloc, kfree}
use swish_kernel.Heap.Reached.{Run, free, fuel_for}
use swish_kernel.Heap.Sizes.{kfree-sizes}
use swish_kernel.Libc.Copy.{memcpy-null}
use swish_kernel.Text.Owner.{
  OwnedString, Store, new_chars, copy_chars, copy_string, destroy, delete_chars, assign_string,
}
use swish_kernel.Text.Copying.{Owns, Reached, Copies, small_length, copy_string-Copies}

module _ (start heap_size : ℕ) (low : 64 ≤ start) (high : start + heap_size < size_mod)
    (room : header ≤ heap_size) where
  -- What is left of the ownership once the block of a string is freed.
  freed-Owns :
      {live : ℕ → Bool} (st : Store) (this s : OwnedString) (h1 : Heap)
      → Run start heap_size st.heap live
      → Owns live st this
      → Owns live st s
      → s.chars ≢ this.chars
      → kfree (fuel_for heap_size) this.chars st.heap ≡ some h1
      → Owns (write live this.chars false) (record st { heap = h1 }) s
  freed-Owns {live} st this s h1 r own o ne freed = (
    write_ne live this.chars s.chars false (λ e. ne (sym e)) ∙ o.0,
    subst (λ k. s.length + 1 ≤ k)
        (sym (kfree-sizes start heap_size low high room this.chars s.chars r own.0 o.0 ne freed))
        o.1,
    o.2,
  )

  -- An assignment between two strings that own different blocks, on a heap that a run has reached and that
  -- has a block for the copy once the old one is freed: the string owns a new block with the bytes of
  -- the other one, and every other string that owned its block still does, with the bytes that it had.
  pub assign_string-Copies :
      {live : ℕ → Bool} (st : Store) (this other : OwnedString) (p : ℕ) (h1 h2 : Heap)
      → Reached start heap_size live st
      → Owns live st this
      → Owns live st other
      → other.chars ≢ this.chars
      → kfree (fuel_for heap_size) this.chars st.heap ≡ some h1
      → kmalloc (fuel_for heap_size) (other.length + 1) h1 ≡ some (p, h2)
      → p ≢ null
      → Copies start heap_size
          (write live this.chars false)
          (record st { heap = h1 })
          other
          p
          (assign_string heap_size false this other st)
        × ((s : OwnedString)
            → Owns live st s
            → s.chars ≢ this.chars
            → Owns (write live this.chars false) (record st { heap = h1 }) s)
  unfolding assign_string destroy delete_chars
  assign_string-Copies {live} st this other p h1 h2 reached own o ne freed allocated real =
      let st1 : Store = record st { heap = h1 } in
      let run1 : Run start heap_size h1 (write live this.chars false) =
        free this.chars reached.0 own.0 freed in
      let still : (s : OwnedString)
          → Owns live st s
          → s.chars ≢ this.chars
          → Owns (write live this.chars false) st1 s =
        λ s os ns. freed-Owns st this s h1 reached.0 own os ns freed in
      (
        rw freed (
            copy_string-Copies start heap_size low high room (write live this.chars false) st1 other
              p h2 (run1, reached.1) (still other o ne) allocated real),
        still,
      )

  -- On a heap without a block for it, the copy of a string that owns its block is not refused: it is a
  -- string of the same length at `nullptr`, and no byte of the memory changes.
  pub copy_string_exhausted :
      {live : ℕ → Bool} (st : Store) (other : OwnedString) (h' : Heap)
      → Reached start heap_size live st
      → Owns live st other
      → kmalloc (fuel_for heap_size) (other.length + 1) st.heap ≡ some (null, h')
      → copy_string heap_size other st
        ≡ done (record { chars = null; length = other.length }, record st { heap = h' })
  unfolding copy_string new_chars copy_chars
  copy_string_exhausted st other h' reached own allocated =
      let (small, there) = small_length start heap_size low high room st other reached.0 own in
      let e : (other.length + 1) % size_mod ≡ other.length + 1 = omega (arith, small) in
      rw
        (
          e,
          allocated,
          memcpy-null (suc (other.length + 1)) other.chars (other.length + 1) st.memory,
        )
        refl
