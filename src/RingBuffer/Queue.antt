-- ===== src/RingBuffer/Queue.antt =====
-- A ring of 256 slots behaves as a queue of at most 255 items.
use swish_kernel.Prelude.{
  ℕ, zero, suc, ◌+◌, ◌-◌, ◌%◌, ◌<◌, ◌≡◌, ◌≢◌, refl, ap, ◌∙◌, inl, inr, Bool, true, false, Option,
  none, some, List, [], ◌∷◌, ◌++◌, arith, ltb, ◌==◌, if◌then◌else◌, length, write, Bool-cases,
  write_self, write_ne,
}
use swish_kernel.RingBuffer.{buffer_size, Ring, push, pop}

pub record IsValid {A : Type 0} (r : Ring A) : Type 0 where
  pub head_in : r.head < buffer_size
  pub tail_in : r.tail < buffer_size

pub data Op (A : Type 0) : Type 0 where
  pushes : A → Op A
  pops : Op A

pub data Reply (A : Type 0) : Type 0 where
  pushed : Bool → Reply A
  popped : Option A → Reply A

module _ {A : Type 0} where
  -- The `n` items from slot `t` on, going round at the end.
  abbrev pub window : (ℕ → A) → ℕ → ℕ → List A
  window buffer t zero = []
  window buffer t (suc n) = buffer t ∷ window buffer ((t + 1) % buffer_size) n

  abbrev pub count : Ring A → ℕ
  count r = (r.head + buffer_size - r.tail) % buffer_size

  -- The items in the ring, oldest first.
  abbrev pub contents : Ring A → List A
  contents r = window r.buffer r.tail (count r)

  -- The queue that the ring stands for: full at one item less than there are slots.
  unfoldable pub step : List A → Op A → Reply A × List A
  step q (pushes x) =
      if ltb (length q) (buffer_size - 1) then (pushed true, q ++ x ∷ []) else (pushed false, q)
  step [] pops = (popped none, [])
  step (x ∷ q) pops = (popped (some x), q)

  pub run_queue : List A → List (Op A) → List (Reply A)
  run_queue q [] = []
  run_queue q (o ∷ os) = let (r, q') = step q o in r ∷ run_queue q' os

  -- A client's calls on the ring itself.
  unfoldable pub call : Ring A → Op A → Reply A × Ring A
  call r (pushes x) = let (ok, r') = push x r in (pushed ok, r')
  call r pops = let (o, r') = pop r in (popped o, r')

  pub run_ring : Ring A → List (Op A) → List (Reply A)
  run_ring r [] = []
  run_ring r (o ∷ os) = let (reply, r') = call r o in reply ∷ run_ring r' os

  pub length-window : (buffer : ℕ → A) (t n : ℕ) → length (window buffer t n) ≡ n
  length-window buffer t zero = refl
  length-window buffer t (suc n) = ap suc (length-window buffer ((t + 1) % buffer_size) n)

  -- A write just behind the window makes it longer.
  window-write :
      (buffer : ℕ → A) (x : A) (n t h : ℕ)
      → t < buffer_size
      → n < buffer_size - 1
      → h ≡ (t + n) % buffer_size
      → window (write buffer h x) t (suc n) ≡ window buffer t n ++ x ∷ []
  window-write buffer x zero t h ht hn e =
      let h' : h ≡ t = omega arith in
      ap (λ y. y ∷ []) ((λ i. write buffer (h' i) x t) ∙ write_self buffer t x)
  window-write buffer x (suc n) t h ht hn e =
      let h' : h ≢ t = omega arith in
      (λ i.
        write_ne buffer h t x h' i
        ∷ window-write buffer x n ((t + 1) % buffer_size) h (omega arith) (omega arith)
            (omega arith) i)

  pub push-step :
      (r : Ring A) (x : A)
      → IsValid r
      → (pushed (push x r).0, contents (push x r).1) ≡ step (contents r) (pushes x)
  unfolding push step
  push-step r x v = elim (Bool-cases ((r.head + 1) % buffer_size == r.tail)) [
    | inl full ↦
        let n : length (contents r) ≡ 255 =
          length-window r.buffer r.tail (count r) ∙ ground arith in
        rw (full, n)
    | inr room ↦
        let n : count r < 255 = ground arith in
        let test : ltb (length (contents r)) (buffer_size - 1) ≡ true =
          ap (λ k. ltb k (buffer_size - 1)) (length-window r.buffer r.tail (count r))
          ∙ ground arith in
        let more : ((r.head + 1) % buffer_size + buffer_size - r.tail) % buffer_size
            ≡ suc (count r) =
          ground arith in
        rw (room, test, more)
          (ap (λ q. (pushed true, q))
            (window-write r.buffer x (count r) r.tail r.head v.tail_in n (ground arith)))
  ]

  pub pop-step :
      (r : Ring A) → IsValid r → (popped (pop r).0, contents (pop r).1) ≡ step (contents r) pops
  unfolding pop step
  pop-step r v = elim (Bool-cases (r.head == r.tail)) [
    | inl empty ↦ let n : count r ≡ 0 = ground arith in rw (empty, n)
    | inr some_left ↦
        let n : count r ≡ suc ((r.head + buffer_size - (r.tail + 1) % buffer_size) % buffer_size) =
          ground arith in
        rw (some_left, n)
  ]

  call-step :
      (r : Ring A) (o : Op A)
      → IsValid r
      → ((call r o).0, contents (call r o).1) ≡ step (contents r) o
  unfolding call
  call-step r (pushes x) v = push-step r x v
  call-step r pops v = pop-step r v

  pub call-IsValid : (r : Ring A) (o : Op A) → IsValid r → IsValid (call r o).1
  unfolding call push pop
  call-IsValid r (pushes x) v = ground arith
  call-IsValid r pops v = ground arith

  -- No sequence of pushes and pops tells a ring with indices in range from the queue of its
  -- contents, which refuses a push exactly when it holds 255 items and a pop exactly when it is
  -- empty.
  pub run_ring-run_queue :
      (r : Ring A) (os : List (Op A)) → IsValid r → run_ring r os ≡ run_queue (contents r) os
  unfolding run_ring run_queue
  run_ring-run_queue r [] v = refl
  run_ring-run_queue r (o ∷ os) v =
      rw (← call-step r o v, run_ring-run_queue (call r o).1 os (call-IsValid r o v))
