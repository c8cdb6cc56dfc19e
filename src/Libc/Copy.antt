-- ===== src/Libc/Copy.antt =====
-- `memcpy` copies its bytes, for blocks apart and for a destination below the source.
use mathlib.Core.Path.{subst}
use swish_kernel.Prelude.{
  ℕ, zero, suc, ◌+◌, ◌*◌, ◌/◌, ◌%◌, ◌≤◌, ◌<◌, ◌≡◌, ◌≢◌, refl, sym, ap, ◌∙◌, ◌⊎◌, inl, inr, some,
  arith, leb, Memory, IsBytes, null, Bool-cases, leb→le, ne→beq,
}
use swish_kernel.Libc.{
  Cursor, word_up, byte_up, less, blocks_up, words_up, bytes_up, memcpy_rest, memcpy, copy_word,
  copy_byte,
}
use swish_kernel.Libc.Range.{moved, moved_zero, moved_one, moved_up}
use swish_kernel.Libc.Words.{copy_word-moved, moved-IsBytes}

-- No byte is read after it was overwritten when copying upwards.
abbrev pub GoesUp : ℕ → ℕ → ℕ → Type 0
GoesUp d s n = (d ≤ s) ⊎ (s + n ≤ d)

-- Where a copy of `n` bytes upwards stands after the first `k`.
record Copied (m : Memory) (d s n k : ℕ) (c : Cursor) : Type 0 where
  memory : c.memory ≡ moved m d s k
  dest : c.dest ≡ d + k
  src : c.src ≡ s + k

module _ (m : Memory) (d s n : ℕ) (bytes : IsBytes m) (up : GoesUp d s n) where
  word_up-Copied :
      (k : ℕ) (c : Cursor) → k + 8 ≤ n → Copied m d s n k c → Copied m d s n (k + 8) (word_up c)
  unfolding word_up
  word_up-Copied k c le at = record {
    memory =
        (λ i. copy_word (at.dest i) (at.src i) (at.memory i))
        ∙ copy_word-moved (d + k) (s + k) (moved m d s k) (moved-IsBytes m d s k bytes)
        ∙ moved_up m d s k 8 (omega arith);
    dest = omega (arith, at.dest);
    src = omega (arith, at.src);
  }

  byte_up-Copied :
      (k : ℕ) (c : Cursor) → k + 1 ≤ n → Copied m d s n k c → Copied m d s n (k + 1) (byte_up c)
  unfolding byte_up
  byte_up-Copied k c le at = record {
    memory =
        (λ i. copy_byte (at.dest i) (at.src i) (at.memory i))
        ∙ moved_one (moved m d s k) (d + k) (s + k)
        ∙ moved_up m d s k 1 (omega arith);
    dest = omega (arith, at.dest);
    src = omega (arith, at.src);
  }

  words_up-Copied :
      (chunks k j : ℕ) (c : Cursor)
      → j ≡ k + chunks * 8
      → j ≤ n
      → Copied m d s n k c
      → Copied m d s n j (words_up chunks c)
  unfolding words_up
  words_up-Copied zero k j c e le at =
      let e' : k ≡ j = omega arith in subst (λ x. Copied m d s n x c) e' at
  words_up-Copied (suc chunks) k j c e le at =
      words_up-Copied chunks (k + 8) j (word_up c) (omega arith) le
        (word_up-Copied k c (omega arith) at)

  bytes_up-Copied :
      (rest k j : ℕ) (c : Cursor)
      → j ≡ k + rest
      → j ≤ n
      → Copied m d s n k c
      → Copied m d s n j (bytes_up rest c)
  unfolding bytes_up
  bytes_up-Copied zero k j c e le at =
      let e' : k ≡ j = omega arith in subst (λ x. Copied m d s n x c) e' at
  bytes_up-Copied (suc rest) k j c e le at =
      bytes_up-Copied rest (k + 1) j (byte_up c) (omega arith) le
        (byte_up-Copied k c (omega arith) at)

  count-word_up : (c : Cursor) → (word_up c).count ≡ c.count
  unfolding word_up
  count-word_up c = refl

  -- One round of the loop over 32 bytes.
  block_up-Copied :
      (k : ℕ) (c : Cursor)
      → k + 32 ≤ n
      → Copied m d s n k c
      → Copied m d s n (k + 32) (less 32 (word_up (word_up (word_up (word_up c)))))
  block_up-Copied k c le at =
      let c1 = word_up c in
      let c2 = word_up c1 in
      let c3 = word_up c2 in
      let at1 = word_up-Copied k c (omega arith) at in
      let at2 = word_up-Copied (k + 8) c1 (omega arith) at1 in
      let at3 = word_up-Copied (k + 8 + 8) c2 (omega arith) at2 in
      let at4 = word_up-Copied (k + 8 + 8 + 8) c3 (omega arith) at3 in
      let e : k + 8 + 8 + 8 + 8 ≡ k + 32 = omega arith in
      let end = subst (λ x. Copied m d s n x (word_up c3)) e at4 in
      record { memory = end.memory; dest = end.dest; src = end.src }

  blocks_up-Copied :
      (fuel k : ℕ) (c : Cursor)
      → c.count / 32 < fuel
      → c.count + k ≡ n
      → Copied m d s n k c
      → (c' : Cursor) × (k' : ℕ) × (blocks_up fuel c ≡ some c')
        × (c'.count + k' ≡ n)
        × Copied m d s n k' c'
  unfolding blocks_up
  blocks_up-Copied zero k c enough e at = absurd (omega arith)
  blocks_up-Copied (suc fuel) k c enough e at = elim (Bool-cases (leb 32 c.count)) [
    | inl more ↦
        let le = leb→le 32 c.count more in
        rw more (
          blocks_up-Copied fuel (k + 32) (less 32 (word_up (word_up (word_up (word_up c)))))
            (omega (arith, counted c)) (omega (arith, counted c))
            (block_up-Copied k c (omega arith) at))
    | inr done ↦ rw done (c, k, refl, e, at)
  ]
    where
      counted : (c : Cursor) → (word_up (word_up (word_up (word_up c)))).count ≡ c.count
      counted c = rw (count-word_up, count-word_up, count-word_up, count-word_up)

  count-words_up : (chunks : ℕ) (c : Cursor) → (words_up chunks c).count ≡ c.count
  unfolding words_up
  count-words_up zero c = refl
  count-words_up (suc chunks) c = count-words_up chunks (word_up c) ∙ count-word_up c

  memcpy_rest-moved :
      (k : ℕ) (c : Cursor) → c.count + k ≡ n → Copied m d s n k c → memcpy_rest c ≡ moved m d s n
  unfolding memcpy_rest
  memcpy_rest-moved k c e at =
      (bytes_up-Copied (c.count % 8) (k + c.count / 8 * 8) n (words_up (c.count / 8) c)
        (omega arith) (omega arith)
        (words_up-Copied (c.count / 8) k (k + c.count / 8 * 8) c refl (omega arith) at)).memory

-- `memcpy` between valid pointers returns, and has moved exactly its `count` bytes, for blocks that
-- do not overlap and for a destination below the source.
pub memcpy-moved :
    (fuel d s n : ℕ) (m : Memory)
    → IsBytes m
    → d ≢ null
    → s ≢ null
    → GoesUp d s n
    → n / 32 < fuel
    → memcpy fuel d s n m ≡ some (moved m d s n)
unfolding memcpy
memcpy-moved fuel d s n m bytes nd ns up enough =
    let start : Cursor = record { memory = m; dest = d; src = s; count = n } in
    let at : Copied m d s n 0 start = record {
      memory = sym (moved_zero m d s);
      dest = omega arith;
      src = omega arith;
    } in
    let (c, k, run, e, at') =
      blocks_up-Copied m d s n bytes up fuel 0 start enough (omega arith) at in
    rw (ne→beq nd, ne→beq ns, run) (ap some (memcpy_rest-moved m d s n bytes up k c e at'))

-- A copy to `nullptr` does nothing.
pub memcpy-null : (fuel s n : ℕ) (m : Memory) → memcpy fuel null s n m ≡ some m
unfolding memcpy
memcpy-null fuel s n m = refl
