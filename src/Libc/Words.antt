-- ===== src/Libc/Words.antt =====
-- A 64-bit access as eight byte accesses.
use swish_kernel.Prelude.{
  ℕ, zero, suc, ◌+◌, ◌-◌, ◌*◌, ◌/◌, ◌%◌, ◌<◌, ◌≡◌, ap, ◌∙◌, fun_ext, arith, if◌then◌else◌, Memory,
  IsBytes, write,
}
use swish_kernel.Libc.{load, store, copy_word}
use swish_kernel.Libc.Range.{within, moved, filled}

-- The bytes at `s` in `m₀` over the bytes at `d` in `m`.
abbrev placed : Memory → Memory → ℕ → ℕ → ℕ → Memory
placed from m d s n a = if within a d n then from (s + (a - d)) else m a

store-load :
    (n d s : ℕ) (from m : Memory) → IsBytes from → store n d (load n from s) m ≡ placed from m d s n
store-load zero d s from m b = fun_ext λ a. ground arith
store-load (suc n) d s from m b =
    let low : load (suc n) from s % 256 ≡ from s = omega (arith, b s) in
    let high : load (suc n) from s / 256 ≡ load n from (s + 1) = omega (arith, b s) in
    (λ i. store n (d + 1) (high i) (write m d (low i)))
    ∙ store-load n (d + 1) (s + 1) from (write m d (from s)) b
    ∙ (fun_ext λ a. ground arith)

-- A word move is the move of its eight bytes, all read before the first is written.
pub copy_word-moved : (d s : ℕ) (m : Memory) → IsBytes m → copy_word d s m ≡ moved m d s 8
unfolding copy_word
copy_word-moved d s m b = store-load 8 d s m m b

pub moved-IsBytes : (m : Memory) (d s n : ℕ) → IsBytes m → IsBytes (moved m d s n)
moved-IsBytes m d s n b a = ground (arith, b a, b (s + (a - d)))

-- `n` copies of the byte `v`, as one number.
abbrev repeated : ℕ → ℕ → ℕ
repeated zero v = 0
repeated (suc n) v = v + 256 * repeated n v

store-repeated : (n d v : ℕ) (m : Memory) → v < 256 → store n d (repeated n v) m ≡ filled m d v n
store-repeated zero d v m h = fun_ext λ a. ground arith
store-repeated (suc n) d v m h =
    let low : repeated (suc n) v % 256 ≡ v = omega arith in
    let high : repeated (suc n) v / 256 ≡ repeated n v = omega arith in
    (λ i. store n (d + 1) (high i) (write m d (low i)))
    ∙ store-repeated n (d + 1) v (write m d v) h
    ∙ (fun_ext λ a. ground arith)

-- `v64` of `memset` fills a word with its byte.
pub store-filled :
    (d v : ℕ) (m : Memory) → v < 256 → store 8 d (v * 0x0101010101010101) m ≡ filled m d v 8
store-filled d v m h =
    let pattern : v * 0x0101010101010101 ≡ repeated 8 v = omega arith in
    ap (λ x. store 8 d x m) pattern ∙ store-repeated 8 d v m h
