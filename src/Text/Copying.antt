-- ===== src/Text/Copying.antt =====
-- A constructor of src/kernel/String.cpp puts the bytes of the new string in a block of its own.
use mathlib.Core.Path.{subst}
use swish_kernel.Prelude.{
  ℕ, suc, ◌+◌, ◌-◌, ◌%◌, ◌≤◌, ◌<◌, ◌≡◌, ◌≢◌, refl, sym, ap, ◌∙◌, inl, inr, ◌⊎◌, Bool, true, false,
  some, ◌==◌, Bool-cases, arith, null, size_mod, Memory, IsBytes, write, write_self, ne→beq,
  fun_ext, Res, done,
}
use swish_kernel.Heap.{Heap, header, kmalloc}
use swish_kernel.Heap.Trace.{Run-disjoint}
use swish_kernel.Heap.Reached.{Run, fuel_for}
use swish_kernel.Heap.Sizes.{kmalloc-IsNew, Run-alloc, Run-apart}
use swish_kernel.Libc.{memcpy}
use swish_kernel.Libc.Range.{moved}
use swish_kernel.Libc.Words.{moved-IsBytes}
use swish_kernel.Libc.Copy.{memcpy-moved}
use swish_kernel.Libc.Text.{IsText, strlen_lem}
use swish_kernel.Text.Owner.{
  OwnedString, Store, of_c_string, set_char, new_chars, copy_chars, copy_string,
}

-- The string has a live block that holds its bytes and their NUL.
abbrev pub Owns : (ℕ → Bool) → Store → OwnedString → Type 0
Owns live st s =
    (live s.chars ≡ true)
    × (s.length + 1 ≤ st.heap.size (s.chars - header))
    × IsText st.memory s.chars s.length

-- The same bytes, NUL included, stand at `q` after as at `p` before.
abbrev pub SameBytes : Store → ℕ → Store → ℕ → ℕ → Type 0
SameBytes before p after q length =
    (i : ℕ) → i ≤ length → after.memory (q + i) ≡ before.memory (p + i)

pub SameBytes-IsText :
    (st after : Store) (p q k : ℕ)
    → SameBytes st p after q k
    → IsText st.memory p k
    → IsText after.memory q k
SameBytes-IsText st after p q k same t = record {
  body = λ i h e. t.body i h (sym (same i (omega arith)) ∙ e);
  terminated = same k (omega arith) ∙ t.terminated;
}

-- The allocator that a run has reached.
abbrev pub Reached : ℕ → ℕ → (ℕ → Bool) → Store → Type 0
Reached start heap_size live st = Run start heap_size st.heap live × IsBytes st.memory

-- What a run of the copy constructor leaves: the copy owns a new block at `p` with the bytes of the other
-- string, and every string that owned its block does so still, with the same bytes.
abbrev pub Copies :
    ℕ → ℕ → (ℕ → Bool) → Store → OwnedString → ℕ → Res (OwnedString × Store) → Type 0
Copies start heap_size live st other p r =
    (after : Store) × (r ≡ done (record { chars = p; length = other.length }, after))
    × Reached start heap_size (write live p true) after
    × Owns (write live p true) after (record { chars = p; length = other.length })
    × SameBytes st other.chars after p other.length
    × ((s : OwnedString)
        → Owns live st s
        → Owns (write live p true) after s × SameBytes st s.chars after s.chars s.length)

moved_there : (m : Memory) (d s n i : ℕ) → i < n → moved m d s n (d + i) ≡ m (s + i)
moved_there m d s n i h = let e : d + i - d ≡ i = omega arith in rw e (ground arith)

moved_elsewhere : (m : Memory) (d s n a : ℕ) → (a < d) ⊎ (d + n ≤ a) → moved m d s n a ≡ m a
moved_elsewhere m d s n a (inl h) = ground arith
moved_elsewhere m d s n a (inr h) = ground arith

module _ (start heap_size : ℕ) (low : 64 ≤ start) (high : start + heap_size < size_mod)
    (room : header ≤ heap_size) where
  pub small_length :
      {live : ℕ → Bool} (st : Store) (s : OwnedString)
      → Run start heap_size st.heap live
      → Owns live st s
      → (s.length + 1 ≤ size_mod - 8) × (s.chars ≢ null)
  small_length st s r (u, wide, text) =
      let (above, below, _) = Run-disjoint start heap_size s.chars s.chars low high room r u u in
      (omega (arith, above, below, wide, low, high), λ e. omega (arith, e, above, low))

  -- The state after the allocation of a block at `p` and the copy of a text of `k` bytes to it.
  module _ (live : ℕ → Bool) (st : Store) (src k p : ℕ) (h' : Heap)
      (reached : Reached start heap_size live st) (text : IsText st.memory src k)
      (small : k + 1 ≤ size_mod - 8)
      (allocated : kmalloc (fuel_for heap_size) (k + 1) st.heap ≡ some (p, h'))
      (real : p ≢ null) where
    abbrev n : ℕ
    n = k + 1

    abbrev after : Store
    after = record { heap = h'; memory = moved st.memory p src n }

    abbrev new_live : ℕ → Bool
    new_live = write live p true

    after-Run : Run start heap_size h' new_live
    after-Run = Run-alloc n p reached.0 (omega arith) allocated real

    is_new :
        (live p ≡ false)
        × (n ≤ h'.size (p - header))
        × ((q : ℕ) → live q ≡ true → h'.size (q - header) ≡ st.heap.size (q - header))
    is_new =
        kmalloc-IsNew start heap_size low high room n p reached.0 (omega arith) small allocated real

    not_new : (q : ℕ) → live q ≡ true → q ≢ p
    not_new q u e = cc (u, ap live e, is_new.0)

    still_live : (q : ℕ) → live q ≡ true → new_live q ≡ true
    still_live q u = ground (arith, u)

    -- The new block and that of a string share no byte.
    clear : (s : OwnedString) → Owns live st s → (s.chars + (s.length + 1) ≤ p) ⊎ (p + n ≤ s.chars)
    clear s (u, wide, t) =
        Run-apart start heap_size low high room p s.chars n (s.length + 1) after-Run
          (write_self live p true) (still_live s.chars u) (not_new s.chars u) is_new.1
          (subst (λ j. s.length + 1 ≤ j) (sym (is_new.2 s.chars u)) wide)

    kept : (s : OwnedString) → Owns live st s → SameBytes st s.chars after s.chars s.length
    kept s o i h = moved_elsewhere st.memory p src n (s.chars + i) (elim (clear s o) [
      | inl below ↦ inl (omega (arith, below, h))
      | inr above ↦ inr (omega (arith, above))
    ])

    -- The block lies in the heap.
    clear_outside : (src + n ≤ start) ⊎ (start + heap_size ≤ src) → (src + n ≤ p) ⊎ (p + n ≤ src)
    clear_outside outside =
        let (above, below, _) =
          Run-disjoint start heap_size p p low high room after-Run (write_self live p true)
            (write_self live p true) in
        elim outside [
          | inl left ↦ inl (omega (arith, left, above))
          | inr right ↦ inr (omega (arith, right, below, is_new.1))
        ]

    copied :
        (src + n ≤ p) ⊎ (p + n ≤ src)
        → src ≢ null
        → (j : ℕ) → j ≤ n
        → memcpy (suc j) p src j st.memory ≡ some (moved st.memory p src j)
    copied disjoint there j h =
        memcpy-moved (suc j) p src j st.memory reached.1 real there
          (elim disjoint [
            | inl below ↦ inr (omega (arith, below, h))
            | inr above ↦ inl (omega (arith, above))
          ])
          (omega arith)

    after-Copies :
        (r : Res (OwnedString × Store))
        → r ≡ done (record { chars = p; length = k }, after)
        → Copies start heap_size live st (record { chars = src; length = k }) p r
    after-Copies r run =
        let same : SameBytes st src after p k =
          λ i h. moved_there st.memory p src n i (omega (arith, h)) in
        (
          after,
          run,
          (after-Run, moved-IsBytes st.memory p src n reached.1),
          (write_self live p true, is_new.1, SameBytes-IsText st after src p k same text),
          same,
          λ s o. (
            (
              still_live s.chars o.0,
              subst (λ j. s.length + 1 ≤ j) (sym (is_new.2 s.chars o.0)) o.1,
              SameBytes-IsText st after s.chars s.chars s.length (kept s o) o.2,
            ),
            kept s o,
          ),
        )

    -- The last byte that the constructor writes is the NUL of the text.
    ended : write (moved st.memory p src k) (p + k) 0 ≡ moved st.memory p src n
    ended = fun_ext λ a. elim (Bool-cases (p + k == a)) [
      | inl last ↦ let e : a - p ≡ k = ground arith in rw (last, e, text.terminated) (ground arith)
      | inr other ↦ ground arith
    ]

    -- The constructor from a C string, on a heap that a run has reached and that has a block for it, of a
    -- text outside of the heap that a `size_t` can count: as for the copy constructor.
    pub of_c_string-Copies :
        (src + n ≤ start) ⊎ (start + heap_size ≤ src)
        → src ≢ null
        → Copies start heap_size live st
            (record { chars = src; length = k })
            p
            (of_c_string heap_size src st)
    unfolding of_c_string new_chars copy_chars set_char
    of_c_string-Copies outside there =
        let disjoint = clear_outside outside in
        let e : (k + 1) % size_mod ≡ n = omega (arith, small) in
        let counted =
          strlen_lem size_mod st.memory src k text (omega (arith, small)) (omega (arith, small)) in
        after-Copies (of_c_string heap_size src st) (
          rw
            (
              ne→beq there,
              counted,
              e,
              allocated,
              copied disjoint there k (omega arith),
              ne→beq real,
            )
            (ap (λ m. done (record { chars = p; length = k }, record { heap = h'; memory = m }))
              ended))

  -- The copy constructor, on a heap that a run has reached and that has a block for it, of a string that
  -- owns its block: the copy owns a block of its own, with the same bytes, and every string that owned
  -- its block still does, with the bytes that it had.
  pub copy_string-Copies :
      (live : ℕ → Bool) (st : Store) (other : OwnedString) (p : ℕ) (h' : Heap)
      → Reached start heap_size live st
      → Owns live st other
      → kmalloc (fuel_for heap_size) (other.length + 1) st.heap ≡ some (p, h')
      → p ≢ null
      → Copies start heap_size live st other p (copy_string heap_size other st)
  unfolding copy_string new_chars copy_chars
  copy_string-Copies live st other p h' reached own allocated real =
      let (small, there) = small_length st other reached.0 own in
      let e : (other.length + 1) % size_mod ≡ other.length + 1 = omega (arith, small) in
      let disjoint =
        clear live st other.chars other.length p h' reached own.2 small allocated real other own in
      let moved_all =
        copied live st other.chars other.length p h' reached own.2 small allocated real disjoint
          there (other.length + 1) (omega arith) in
      after-Copies live st other.chars other.length p h' reached own.2 small allocated real
        (copy_string heap_size other st) (rw (e, allocated, moved_all) refl)
