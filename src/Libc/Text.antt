-- ===== src/Libc/Text.antt =====
-- `strlen` and `strncpy` on NUL-terminated text.
use swish_kernel.Prelude.{
  ℕ, zero, suc, ◌+◌, ◌-◌, ◌≤◌, ◌<◌, ◌≡◌, ◌≢◌, sym, ap, ◌∙◌, fun_ext, ◌⊎◌, inl, inr, true, false,
  some, arith, ◌==◌, Memory, write, size_mod, Bool-cases, ne→beq, eq→beq, beq→eq,
}
use swish_kernel.Libc.{scasb, strlen, pad, strncpy_loop, strncpy}
use swish_kernel.Libc.Range.{moved, moved_zero, moved_one, moved_up, filled}

-- The text at `p` has `k` bytes before its NUL.
pub record IsText (m : Memory) (p k : ℕ) : Type 0 where
  pub body : (i : ℕ) → i < k → m (p + i) ≢ 0
  pub terminated : m (p + k) ≡ 0

IsText-tail : {m : Memory} {p k : ℕ} → IsText m p (suc k) → IsText m (p + 1) k
IsText-tail {m} {p} {k} t = record {
  body = λ i lt e.
      let shift : p + 1 + i ≡ p + suc i = omega arith in
      t.body (suc i) (omega arith) (ap m (sym shift) ∙ e);
  terminated = let shift : p + 1 + k ≡ p + suc k = omega arith in ap m shift ∙ t.terminated;
}

scasb_lem :
    (fuel : ℕ) (m : Memory) (p k rcx : ℕ)
    → IsText m p k
    → k < rcx
    → k < fuel
    → scasb fuel m p rcx ≡ some (rcx - k - 1)
unfolding scasb
scasb_lem zero m p k rcx t lt enough = absurd (omega arith)
scasb_lem (suc fuel) m p zero rcx t lt enough =
    let at : p + 0 ≡ p = omega arith in
    let hit : (m p == 0) ≡ true = eq→beq (ap m (sym at) ∙ t.terminated) in
    let running : (rcx == 0) ≡ false = ne→beq (omega arith) in
    rw (running, hit) (ap some (omega arith))
scasb_lem (suc fuel) m p (suc k) rcx t lt enough =
    let at : p + 0 ≡ p = omega arith in
    let miss : (m p == 0) ≡ false = ne→beq (λ e. t.body 0 (omega arith) (ap m at ∙ e)) in
    let running : (rcx == 0) ≡ false = ne→beq (omega arith) in
    rw (running, miss)
      (scasb_lem fuel m (p + 1) k (rcx - 1) (IsText-tail t) (omega arith) (omega arith)
        ∙ ap some (omega arith))

-- `strlen` returns the number of bytes before the NUL.
pub strlen_lem :
    (fuel : ℕ) (m : Memory) (p k : ℕ)
    → IsText m p k
    → k + 1 < size_mod
    → k < fuel
    → strlen fuel m p ≡ some k
unfolding strlen
strlen_lem fuel m p k t short enough =
    let scanned = scasb_lem fuel m p k (size_mod - 1) t (omega arith) enough in
    rw (scanned, strlen) (ap some (omega arith))

pad-filled : (k dest i : ℕ) (m : Memory) → pad k dest i m ≡ filled m (dest + (i + 1)) 0 k
unfolding pad
pad-filled zero dest i m = fun_ext λ a. ground arith
pad-filled (suc k) dest i m =
    pad-filled k dest (i + 1) (write m (dest + (i + 1)) 0) ∙ (fun_ext λ a. ground arith)

-- The source and the destination share no byte.
abbrev pub Apart : ℕ → ℕ → ℕ → Type 0
Apart d s n = (d + n ≤ s) ⊎ (s + n ≤ d)

-- The first `k` bytes of a source text, then zeros up to `n`.
abbrev pub padded : Memory → ℕ → ℕ → ℕ → ℕ → Memory
padded m d s k n = filled (moved m d s k) (d + k) 0 (n - k)

module _ (m : Memory) (d s k n : ℕ) (apart : Apart d s n) (le : k ≤ n)
    (body : (i : ℕ) → i < k → m (s + i) ≢ 0) (stop : k < n → m (s + k) ≡ 0) where
  source_kept : (i : ℕ) → i < n → moved m d s i (s + i) ≡ m (s + i)
  source_kept i lt = ground arith

  source_kept_next : (i : ℕ) → i < n → moved m d s (i + 1) (s + i) ≡ m (s + i)
  source_kept_next i lt = ground arith

  next_byte :
      (i : ℕ) → i < n → write (moved m d s i) (d + i) (moved m d s i (s + i)) ≡ moved m d s (i + 1)
  next_byte i lt = moved_one (moved m d s i) (d + i) (s + i) ∙ moved_up m d s i 1 (ground arith)

  ended : k < n → filled (moved m d s (k + 1)) (d + (k + 1)) 0 (n - k - 1) ≡ padded m d s k n
  ended lt = fun_ext λ a. ground (arith, stop lt)

  ends : (i : ℕ) → i ≤ k → m (s + i) ≡ 0 → i ≡ k
  ends i le_k nul = ground (arith, body i)

  goes_on : (i : ℕ) → i ≤ k → i < n → (m (s + i) == 0) ≡ false → i + 1 ≤ k
  goes_on i le_k lt other = ground (arith, stop)

  strncpy_loop-padded :
      (rounds i : ℕ)
      → rounds + i ≡ n
      → i ≤ k
      → strncpy_loop rounds d s i (moved m d s i) ≡ padded m d s k n
  unfolding strncpy_loop
  strncpy_loop-padded zero i e lt =
      let i' : i ≡ k = omega arith in ap (moved m d s) i' ∙ (fun_ext λ a. ground arith)
  strncpy_loop-padded (suc rounds) i e lt =
      let inside : i < n = omega arith in
      let byte = next_byte i inside in
      let tested = ap (λ f. f (s + i)) byte ∙ source_kept_next i inside in
      elim (Bool-cases (m (s + i) == 0)) [
        | inl nul ↦
            let i' : i ≡ k = ends i lt (beq→eq (m (s + i)) 0 nul) in
            let j' : d + (i + 1) ≡ d + (k + 1) = omega arith in
            let left : rounds ≡ n - k - 1 = omega arith in
            rw (tested, nul)
              (ap (pad rounds d i) byte
                ∙ pad-filled rounds d i (moved m d s (i + 1))
                ∙ (λ x. filled (moved m d s (i' x + 1)) (j' x) 0 (left x))
                ∙ ended (omega arith))
        | inr other ↦
            rw (tested, other)
              (ap (strncpy_loop rounds d s (i + 1)) byte
                ∙ strncpy_loop-padded rounds (i + 1) (omega arith) (goes_on i lt inside other))
      ]

-- `strncpy` writes exactly `n` bytes: the source up to its NUL, then zeros; without a NUL among the
-- first `n` bytes it copies these and writes no terminator.
pub strncpy-padded :
    (m : Memory) (d s k n : ℕ)
    → Apart d s n
    → k ≤ n
    → ((i : ℕ) → i < k → m (s + i) ≢ 0)
    → (k < n → m (s + k) ≡ 0)
    → strncpy d s n m ≡ padded m d s k n
unfolding strncpy
strncpy-padded m d s k n apart le body stop =
    ap (strncpy_loop n d s 0) (sym (moved_zero m d s))
    ∙ strncpy_loop-padded m d s k n apart le body stop n 0 (omega arith) (omega arith)
