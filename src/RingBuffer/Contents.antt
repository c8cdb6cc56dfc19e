-- ===== src/RingBuffer/Contents.antt =====
-- What push and pop of src/drivers/input/ring_buffer.cpp do to the items in the ring.
use swish_kernel.Prelude.{
  ◌<◌, ◌≡◌, refl, ap, ◌∙◌, Bool, true, false, Option, none, some, List, [], ◌∷◌, ◌++◌, arith, ltb,
  if◌then◌else◌, length,
}
use swish_kernel.RingBuffer.{Ring, push, pop}
use swish_kernel.RingBuffer.Queue.{
  IsValid, pushes, pops, Reply, pushed, popped, contents, count, length-window, step, push-step,
  pop-step, call, call-IsValid,
}

module _ {A : Type 0} where
  item : Option A → Reply A → Option A
  item o (pushed b) = o
  item o (popped x) = x

  pop-contents :
      (r : Ring A) (q : List A) → IsValid r → contents r ≡ q → contents (pop r).1 ≡ (step q pops).1
  pop-contents r q v e = ap (λ x. x.1) (pop-step r v) ∙ ap (λ x. (step x pops).1) e

  pop-item :
      (r : Ring A) (q : List A) → IsValid r → contents r ≡ q → (pop r).0 ≡ item none (step q pops).0
  unfolding item
  pop-item r q v e = ap (λ x. item none x.0) (pop-step r v) ∙ ap (λ x. item none (step x pops).0) e

  pub pop-nil :
      (r : Ring A) → IsValid r → contents r ≡ [] → ((pop r).0 ≡ none) × (contents (pop r).1 ≡ [])
  unfolding step item
  pop-nil r v e = (pop-item r [] v e, pop-contents r [] v e)

  pub pop-cons :
      (r : Ring A) (x : A) (q : List A)
      → IsValid r
      → contents r ≡ x ∷ q
      → ((pop r).0 ≡ some x) × (contents (pop r).1 ≡ q)
  unfolding step item
  pop-cons r x q v e = (pop-item r (x ∷ q) v e, pop-contents r (x ∷ q) v e)

  chosen :
      (b : Bool) (q q' : List A)
      → (if◌then◌else◌ {A = Reply A × List A} b (pushed true, q) (pushed false, q')).1
        ≡ (if b then q else q')
  chosen true q q' = refl
  chosen false q q' = refl

  -- A full ring drops what is pushed.
  pub push-contents :
      (r : Ring A) (x : A)
      → IsValid r
      → contents (push x r).1
        ≡ (if ltb (length (contents r)) 255 then contents r ++ x ∷ [] else contents r)
  unfolding step
  push-contents r x v =
      ap (λ y. y.1) (push-step r x v)
      ∙ chosen (ltb (length (contents r)) 255) (contents r ++ x ∷ []) (contents r)

  pub pop-IsValid : (r : Ring A) → IsValid r → IsValid (pop r).1
  unfolding call
  pop-IsValid r v = call-IsValid r pops v

  pub push-IsValid : (r : Ring A) (x : A) → IsValid r → IsValid (push x r).1
  unfolding call
  push-IsValid r x v = call-IsValid r (pushes x) v

  pub length-contents : (r : Ring A) → length (contents r) < 256
  length-contents r = let e = length-window r.buffer r.tail (count r) in omega (arith, e)
