-- ===== src/Libc/Move.antt =====
-- `memmove` moves its bytes whether or not the blocks overlap.
use mathlib.Core.Path.{subst}
use swish_kernel.Prelude.{
  ℕ, zero, suc, ◌+◌, ◌-◌, ◌/◌, ◌%◌, ◌≤◌, ◌<◌, ◌≡◌, ◌≢◌, refl, sym, ap, ◌∙◌, fun_ext, inl, inr, true,
  ◌||◌, Option, some, arith, leb, ltb, ◌==◌, Memory, IsBytes, null, size_mod, Bool-cases, leb→le,
  ne→beq,
}
use swish_kernel.Libc.{
  Cursor, word_down, less, blocks_down, words_down, bytes_down, down, copy_word, copy_byte, memmove,
  move_down,
}
use swish_kernel.Libc.Range.{moved, moved_zero, moved_one, moved_down}
use swish_kernel.Libc.Words.{copy_word-moved, moved-IsBytes}
use swish_kernel.Libc.Copy.{memcpy-moved}

-- The pointer to the last `w` bytes of what is left.
abbrev last_of : ℕ → ℕ → ℕ → ℕ
last_of a k w = down ((a + k) % size_mod) w

-- Where a copy from the end stands with `k` bytes left and `done` bytes moved.
record Left (m : Memory) (d s k done : ℕ) (c : Cursor) : Type 0 where
  memory : c.memory ≡ moved m (d + k) (s + k) done
  dest : c.dest ≡ last_of d k 8
  src : c.src ≡ last_of s k 8

module _ (m : Memory) (d s n : ℕ) (bytes : IsBytes m) (above : s ≤ d)
    (high : d + n < size_mod) where
  word_down-Left :
      (k done : ℕ) (c : Cursor)
      → k + 8 + done ≤ n
      → Left m d s (k + 8) done c
      → Left m d s k (8 + done) (word_down c)
  unfolding word_down
  word_down-Left k done c le at =
      let to : c.dest ≡ d + k = omega (arith, at.dest) in
      let from : c.src ≡ s + k = omega (arith, at.src) in
      let to' : d + (k + 8) ≡ d + k + 8 = omega arith in
      let from' : s + (k + 8) ≡ s + k + 8 = omega arith in
      record {
        memory =
            (λ i. copy_word (to i) (from i) (at.memory i))
            ∙ copy_word-moved (d + k) (s + k) (moved m (d + (k + 8)) (s + (k + 8)) done)
                (moved-IsBytes m (d + (k + 8)) (s + (k + 8)) done bytes)
            ∙ (λ i. moved (moved m (to' i) (from' i) done) (d + k) (s + k) 8)
            ∙ moved_down m (d + k) (s + k) done 8 (omega arith);
        dest = omega (arith, to);
        src = omega (arith, from);
      }

  count-word_down : (c : Cursor) → (word_down c).count ≡ c.count
  unfolding word_down
  count-word_down c = refl

  Left-eq :
      {k k' done done' : ℕ} {c : Cursor}
      → k ≡ k'
      → done ≡ done'
      → Left m d s k done c
      → Left m d s k' done' c
  Left-eq {k'} {done} {c} e f at =
      subst (λ x. Left m d s k' x c) f (subst (λ x. Left m d s x done c) e at)

  less-Left : {k done : ℕ} {c : Cursor} (w : ℕ) → Left m d s k done c → Left m d s k done (less w c)
  less-Left w at = record { memory = at.memory; dest = at.dest; src = at.src }

  block_down-Left :
      (k done : ℕ) (c : Cursor)
      → k + 32 + done ≤ n
      → Left m d s (k + 32) done c
      → Left m d s k (32 + done) (less 32 (word_down (word_down (word_down (word_down c)))))
  block_down-Left k done c le at =
      let c1 = word_down c in
      let c2 = word_down c1 in
      let c3 = word_down c2 in
      let at0 : Left m d s (k + 8 + 8 + 8 + 8) done c = Left-eq (omega arith) refl at in
      let at1 = word_down-Left (k + 8 + 8 + 8) done c (omega arith) at0 in
      let at2 = word_down-Left (k + 8 + 8) (8 + done) c1 (omega arith) at1 in
      let at3 = word_down-Left (k + 8) (8 + (8 + done)) c2 (omega arith) at2 in
      let at4 = word_down-Left k (8 + (8 + (8 + done))) c3 (omega arith) at3 in
      less-Left 32 (Left-eq refl (omega arith) at4)

  -- A loop over words of bytes ends with what it leaves.
  abbrev Ends : (Option Cursor) → ℕ → Type 0
  Ends r w =
      (c : Cursor) × (done : ℕ) × (r ≡ some c)
      × (c.count + done ≡ n)
      × (c.count < w)
      × Left m d s c.count done c

  blocks_down-Ends :
      (fuel done : ℕ) (c : Cursor)
      → c.count / 32 < fuel
      → c.count + done ≡ n
      → Left m d s c.count done c
      → Ends (blocks_down fuel c) 32
  unfolding blocks_down
  blocks_down-Ends zero done c enough e at = absurd (omega arith)
  blocks_down-Ends (suc fuel) done c enough e at = elim (Bool-cases (leb 32 c.count)) [
    | inl more ↦
        let le = leb→le 32 c.count more in
        let next : Cursor = less 32 (word_down (word_down (word_down (word_down c)))) in
        let count : next.count ≡ c.count - 32 =
          ap (λ x. x - 32)
            (count-word_down (word_down (word_down (word_down c)))
              ∙ count-word_down (word_down (word_down c))
              ∙ count-word_down (word_down c)
              ∙ count-word_down c) in
        rw more (
          blocks_down-Ends fuel (32 + done) next (omega arith) (omega arith) (
            Left-eq (sym count) refl (
              block_down-Left (c.count - 32) done c (omega arith) (Left-eq (omega arith) refl at))))
    | inr stop ↦ rw stop (c, done, refl, e, ground arith, at)
  ]

  words_down-Ends :
      (fuel done : ℕ) (c : Cursor)
      → c.count / 8 < fuel
      → c.count + done ≡ n
      → Left m d s c.count done c
      → Ends (words_down fuel c) 8
  unfolding words_down
  words_down-Ends zero done c enough e at = absurd (omega arith)
  words_down-Ends (suc fuel) done c enough e at = elim (Bool-cases (leb 8 c.count)) [
    | inl more ↦
        let le = leb→le 8 c.count more in
        let next : Cursor = less 8 (word_down c) in
        let count : next.count ≡ c.count - 8 = ap (λ x. x - 8) (count-word_down c) in
        rw more (
          words_down-Ends fuel (8 + done) next (omega arith) (omega arith) (
            Left-eq (sym count) refl (
              less-Left 8 (
                word_down-Left (c.count - 8) done c (omega arith)
                  (Left-eq (omega arith) refl at)))))
    | inr stop ↦ rw stop (c, done, refl, e, ground arith, at)
  ]

  bytes_down-moved :
      (k done : ℕ) (c : Cursor)
      → k + done ≡ n
      → c.memory ≡ moved m (d + k) (s + k) done
      → c.dest ≡ last_of d k 1
      → c.src ≡ last_of s k 1
      → bytes_down k c ≡ moved m d s n
  unfolding bytes_down
  bytes_down-moved zero done c e at to from =
      let d' : d + 0 ≡ d = omega arith in
      let s' : s + 0 ≡ s = omega arith in
      let n' : done ≡ n = omega arith in at ∙ (λ i. moved m (d' i) (s' i) (n' i))
  bytes_down-moved (suc k) done c e at to from =
      let to' : c.dest ≡ d + k = omega (arith, to) in
      let from' : c.src ≡ s + k = omega (arith, from) in
      let d' : d + suc k ≡ d + k + 1 = omega arith in
      let s' : s + suc k ≡ s + k + 1 = omega arith in
      bytes_down-moved k (1 + done)
        (record c {
          memory = copy_byte c.dest c.src c.memory;
          dest = down c.dest 1;
          src = down c.src 1;
        })
        (omega arith)
        ((λ i. copy_byte (to' i) (from' i) (at i))
          ∙ moved_one (moved m (d + suc k) (s + suc k) done) (d + k) (s + k)
          ∙ (λ i. moved (moved m (d' i) (s' i) done) (d + k) (s + k) 1)
          ∙ moved_down m (d + k) (s + k) done 1 (omega arith))
        (omega (arith, to')) (omega (arith, from'))

  moved_nothing : m ≡ moved m (d + n) (s + n) 0
  moved_nothing = sym (moved_zero m (d + n) (s + n))

  move_down-moved :
      (fuel : ℕ) → n / 32 < fuel → 4 ≤ fuel → move_down fuel d s n m ≡ some (moved m d s n)
  unfolding move_down
  move_down-moved fuel enough four =
      let start : Cursor = record {
        memory = m;
        dest = last_of d n 8;
        src = last_of s n 8;
        count = n;
      } in
      let (b, done, run, e, small, at) =
        blocks_down-Ends fuel 0 start enough (omega arith)
          (record { memory = moved_nothing; dest = refl; src = refl }) in
      let (w, done', run', e', small', at') = words_down-Ends fuel done b (omega arith) e at in
      rw (run, move_down, run')
        (ap some (
          bytes_down-moved w.count done'
            (record w { dest = last_of d w.count 1; src = last_of s w.count 1 }) e' at'.memory refl
            refl))

-- `memmove` between valid pointers into blocks that do not reach the end of the address space
-- returns, and has moved exactly its `n` bytes, also where the blocks overlap.
pub memmove-moved :
    (fuel d s n : ℕ) (m : Memory)
    → IsBytes m
    → d ≢ null
    → s ≢ null
    → d + n < size_mod
    → s + n < size_mod
    → n / 32 < fuel
    → 4 ≤ fuel
    → memmove fuel d s n m ≡ some (moved m d s n)
unfolding memmove
memmove-moved fuel d s n m bytes nd ns hd hs enough four = elim (Bool-cases (d == s || n == 0)) [
  | inl idle ↦ rw (ne→beq nd, ne→beq ns, idle) (ap some (moved_nowhere idle))
  | inr busy ↦
      rw (ne→beq nd, ne→beq ns, busy)
        (elim (Bool-cases (ltb d s || leb ((s + n) % size_mod) d)) [
          | inl up ↦ rw up (memcpy-moved fuel d s n m bytes nd ns (ground arith) enough)
          | inr over ↦ rw over (move_down-moved m d s n bytes (ground arith) hd fuel enough four)
        ])
]
  where
    moved_nowhere : (d == s || n == 0) ≡ true → m ≡ moved m d s n
    moved_nowhere idle = fun_ext λ a. ground (arith)
