-- ===== src/Libc/Fill.antt =====
-- `memset` fills its block with one byte.
use swish_kernel.Prelude.{
  ℕ, zero, suc, ◌+◌, ◌-◌, ◌*◌, ◌/◌, ◌%◌, ◌<◌, ◌≡◌, ◌≢◌, refl, ap, ◌∙◌, fun_ext, inl, inr, some,
  arith, leb, Memory, null, write, Bool-cases, leb→le, ne→beq,
}
use swish_kernel.Libc.{store, fill_blocks, fill_words, fill_bytes, memset}
use swish_kernel.Libc.Range.{filled, filled_up}
use swish_kernel.Libc.Words.{store-filled}

module _ (m : Memory) (d v : ℕ) (byte : v < 256) where
  abbrev pattern : ℕ
  pattern = v * 0x0101010101010101

  filled_word :
      (k : ℕ) (m' : Memory)
      → m' ≡ filled m d v k
      → store 8 (d + k) pattern m' ≡ filled m d v (k + 8)
  filled_word k m' e =
      ap (store 8 (d + k) pattern) e
      ∙ store-filled (d + k) v (filled m d v k) byte
      ∙ filled_up m d v k 8

  fill_words-filled :
      (chunks k j : ℕ) (m' : Memory)
      → j ≡ k + chunks * 8
      → m' ≡ filled m d v k
      → fill_words chunks pattern (d + k) m' ≡ filled m d v j
  unfolding fill_words
  fill_words-filled zero k j m' e at = let e' : k ≡ j = omega arith in at ∙ ap (filled m d v) e'
  fill_words-filled (suc chunks) k j m' e at =
      let e' : d + k + 8 ≡ d + (k + 8) = omega arith in
      (λ i. fill_words chunks pattern (e' i) (store 8 (d + k) pattern m'))
      ∙ fill_words-filled chunks (k + 8) j (store 8 (d + k) pattern m') (omega arith)
          (filled_word k m' at)

  fill_bytes-filled :
      (n k j : ℕ) (m' : Memory)
      → j ≡ k + n
      → m' ≡ filled m d v k
      → fill_bytes n v (d + k) m' ≡ filled m d v j
  unfolding fill_bytes
  fill_bytes-filled zero k j m' e at = let e' : k ≡ j = omega arith in at ∙ ap (filled m d v) e'
  fill_bytes-filled (suc n) k j m' e at =
      let e' : d + k + 1 ≡ d + (k + 1) = omega arith in
      let one : write (filled m d v k) (d + k) v ≡ filled m d v (k + 1) =
        fun_ext (λ a. ground arith) in
      (λ i. fill_bytes n v (e' i) (write m' (d + k) v))
      ∙ fill_bytes-filled n (k + 1) j (write m' (d + k) v) (omega arith)
          (ap (λ x. write x (d + k) v) at ∙ one)

  fill_block :
      (k : ℕ) (m' : Memory)
      → m' ≡ filled m d v k
      → store 8
          (d + k + 24)
          pattern
          (store 8 (d + k + 16) pattern (store 8 (d + k + 8) pattern (store 8 (d + k) pattern m')))
        ≡ filled m d v (k + 32)
  fill_block k m' at =
      let w1 = filled_word k m' at in
      let w2 = filled_word (k + 8) (filled m d v (k + 8)) refl in
      let w3 = filled_word (k + 16) (filled m d v (k + 16)) refl in
      let w4 = filled_word (k + 24) (filled m d v (k + 24)) refl in
      let a1 : d + k + 8 ≡ d + (k + 8) = omega arith in
      let a2 : d + k + 16 ≡ d + (k + 16) = omega arith in
      let a3 : d + k + 24 ≡ d + (k + 24) = omega arith in
      let b2 : k + 8 + 8 ≡ k + 16 = omega arith in
      let b3 : k + 16 + 8 ≡ k + 24 = omega arith in
      let b4 : k + 24 + 8 ≡ k + 32 = omega arith in
      (λ i. store 8 (a3 i) pattern (store 8 (a2 i) pattern (store 8 (a1 i) pattern (w1 i))))
      ∙ (λ i. store 8 (d + (k + 24)) pattern (store 8 (d + (k + 16)) pattern (w2 i)))
      ∙ (λ i. store 8 (d + (k + 24)) pattern (store 8 (d + (k + 16)) pattern (filled m d v (b2 i))))
      ∙ (λ i. store 8 (d + (k + 24)) pattern (w3 i))
      ∙ (λ i. store 8 (d + (k + 24)) pattern (filled m d v (b3 i)))
      ∙ w4
      ∙ ap (filled m d v) b4

  fill_blocks-filled :
      (fuel k n count : ℕ) (m' : Memory)
      → count / 32 < fuel
      → count + k ≡ n
      → m' ≡ filled m d v k
      → (k' : ℕ) × (count' : ℕ) × (m'' : Memory) × (fill_blocks fuel pattern (d + k) count m'
          ≡ some (d + k', count', m''))
        × (count' + k' ≡ n)
        × (m'' ≡ filled m d v k')
  unfolding fill_blocks
  fill_blocks-filled zero k n count m' enough e at = absurd (omega arith)
  fill_blocks-filled (suc fuel) k n count m' enough e at = elim (Bool-cases (leb 32 count)) [
    | inl more ↦
        let le = leb→le 32 count more in
        let e' : d + k + 32 ≡ d + (k + 32) = omega arith in
        rw (more, e')
          (fill_blocks-filled fuel (k + 32) n (count - 32)
            (store 8 (d + k + 24) pattern (
              store 8 (d + k + 16) pattern
                (store 8 (d + k + 8) pattern (store 8 (d + k) pattern m'))))
            (omega arith) (omega arith) (fill_block k m' at))
    | inr done ↦ rw done (k, count, m', refl, e, at)
  ]

-- `memset` of a valid pointer returns, and has set exactly its `count` bytes to the low byte of
-- `ch`.
pub memset-filled :
    (fuel d ch n : ℕ) (m : Memory)
    → d ≢ null
    → n / 32 < fuel
    → memset fuel d ch n m ≡ some (filled m d (ch % 256) n)
unfolding memset
memset-filled fuel d ch n m nd enough =
    let v : ℕ = ch % 256 in
    let byte : v < 256 = omega arith in
    let none_yet : m ≡ filled m d v 0 = fun_ext (λ a. ground arith) in
    let d' : d ≡ d + 0 = omega arith in
    let (k, count, m', run, e, at) =
      fill_blocks-filled m d v byte fuel 0 n n m enough (omega arith) none_yet in
    let run' = (λ i. fill_blocks fuel (pattern m d v byte) (d' i) n m) ∙ run in
    let behind : d + k + count / 8 * 8 ≡ d + (k + count / 8 * 8) = omega arith in
    rw (ne→beq nd, run', memset, behind)
      (ap some (
        fill_bytes-filled m d v byte (count % 8) (k + count / 8 * 8) n
          (fill_words (count / 8) (pattern m d v byte) (d + k) m') (omega arith)
          (fill_words-filled m d v byte (count / 8) k (k + count / 8 * 8) m' refl at)))
