-- ===== src/Compositor/Added.antt =====
-- `add_window` of src/gui/Compositor.cpp on the list of nodes.
use swish_kernel.Prelude.{
  ℕ, suc, length-append, ◌≡◌, ◌≢◌, refl, sym, ap, ◌∙◌, inl, inr, true, false, arith, List, [], ◌∷◌,
  ◌++◌, ◌==◌, if◌then◌else◌, null, Bool-cases, beq→eq,
}
use swish_kernel.Compositor.{Desktop, add_window}
use swish_kernel.Compositor.Neighbours.{
  has, first, last_from, next_in, prev_in, last_from-has, snoc-Distinct, first_real, has-snoc_ne,
  has-snoc_real, next_in-snoc, next_in-snoc_self, prev_in-snoc, prev_in-snoc_self, last_from-snoc,
}
use swish_kernel.Compositor.Links.{IsStack}

module _ (w : ℕ) (d : Desktop) where
  added-tail : (add_window w d).tail ≡ d.fresh
  unfolding add_window
  added-tail = ground arith

  added-head : (add_window w d).head ≡ (if d.head == null then d.fresh else d.head)
  unfolding add_window
  added-head = ground arith

  pub added-fresh : (add_window w d).fresh ≡ suc d.fresh
  unfolding add_window
  added-fresh = ground arith

  pub added-windows : (add_window w d).windows ≡ d.windows
  unfolding add_window
  added-windows = ground arith

  pub added-window :
      (q : ℕ)
      → (d.tail ≡ d.fresh → d.head ≡ null)
      → ((add_window w d).node q).window ≡ (if q == d.fresh then w else (d.node q).window)
  unfolding add_window
  added-window q t = ground arith

  added-next :
      (q : ℕ)
      → (d.tail ≡ d.fresh → d.head ≡ null)
      → ((add_window w d).node q).next ≡ (
          if q == d.fresh
          then null
          else if d.head == null
          then (d.node q).next
          else if q == d.tail
          then d.fresh
          else (d.node q).next)
  unfolding add_window
  added-next q t = ground arith

  added-prev :
      (q : ℕ)
      → (d.tail ≡ d.fresh → d.head ≡ null)
      → ((add_window w d).node q).prev
        ≡ (if q == d.fresh then (if d.head == null then null else d.tail) else (d.node q).prev)
  unfolding add_window
  added-prev q t = ground arith

null_or_last :
    (ps : List ℕ)
    → has null ps ≡ false
    → (if first ps == null then null else last_from null ps) ≡ last_from null ps
unfolding first last_from has
null_or_last [] real = refl
null_or_last (p ∷ ps) real = ground arith

first_or_new :
    (r : ℕ) (ps : List ℕ)
    → has null ps ≡ false
    → (if first ps == null then r else first ps) ≡ first (ps ++ r ∷ [])
unfolding first has
first_or_new r [] real = refl
first_or_new r (p ∷ ps) real = ground arith

module _ (w : ℕ) {d : Desktop} {ps : List ℕ} (is : IsStack d ps) (f0 : d.fresh ≢ null) where
  open is use {head_is, tail_is, nexts, prevs, distinct, real, below, few}

  pub unused : has d.fresh ps ≡ false
  unused = elim (Bool-cases (has d.fresh ps)) [
    | inl used ↦ absurd (let lt = below d.fresh used in omega arith)
    | inr free ↦ free
  ]

  pub apart : d.tail ≡ d.fresh → d.head ≡ null
  apart e = absurd (last_from-has null ps d.fresh f0 unused (sym tail_is ∙ e))

  tail_or_null : (if d.head == null then null else d.tail) ≡ last_from null ps
  tail_or_null = rw (head_is, tail_is) (null_or_last ps real)

  head_or_fresh : (if d.head == null then d.fresh else d.head) ≡ first (ps ++ d.fresh ∷ [])
  head_or_fresh = rw head_is (first_or_new d.fresh ps real)

  added_next_is :
      (q : ℕ)
      → has q (ps ++ d.fresh ∷ []) ≡ true
      → (if q == d.fresh
          then null
          else if d.head == null
          then (d.node q).next
          else if q == d.tail
          then d.fresh
          else (d.node q).next)
        ≡ next_in (ps ++ d.fresh ∷ []) q
  added_next_is q hq = elim (Bool-cases (q == d.fresh)) [
    | inl same ↦ rw same (
        sym (
          ap (next_in (ps ++ d.fresh ∷ [])) (beq→eq q d.fresh same)
          ∙ next_in-snoc_self d.fresh ps unused))
    | inr other ↦
        let hq' = has-snoc_ne q d.fresh ps hq other in
        let some_first = first_real q ps hq' real in
        rw (other, nexts q hq')
          (ground (arith, head_is, tail_is, next_in-snoc d.fresh ps q distinct hq'))
  ]

  added_prev_is :
      (q : ℕ)
      → has q (ps ++ d.fresh ∷ []) ≡ true
      → (if q == d.fresh then (if d.head == null then null else d.tail) else (d.node q).prev)
        ≡ prev_in null (ps ++ d.fresh ∷ []) q
  added_prev_is q hq = elim (Bool-cases (q == d.fresh)) [
    | inl same ↦ rw same (
        tail_or_null
        ∙ sym (
            ap (prev_in null (ps ++ d.fresh ∷ [])) (beq→eq q d.fresh same)
            ∙ prev_in-snoc_self null d.fresh ps unused))
    | inr other ↦
        let hq' = has-snoc_ne q d.fresh ps hq other in
        rw (other, prevs q hq') (sym (prev_in-snoc null d.fresh ps q hq'))
  ]

  pub add-IsStack : IsStack (add_window w d) (ps ++ d.fresh ∷ [])
  add-IsStack = record {
    head_is = added-head w d ∙ head_or_fresh;
    tail_is = added-tail w d ∙ sym (last_from-snoc null d.fresh ps);
    nexts = λ q hq. added-next w d q apart ∙ added_next_is q hq;
    prevs = λ q hq. added-prev w d q apart ∙ added_prev_is q hq;
    distinct = snoc-Distinct d.fresh ps distinct unused;
    real = has-snoc_real d.fresh ps f0 real;
    below = λ q hq. elim (Bool-cases (q == d.fresh)) [
      | inl same ↦ let e = beq→eq q d.fresh same in omega (arith, added-fresh w d)
      | inr other ↦ omega (arith, below q (has-snoc_ne q d.fresh ps hq other), added-fresh w d)
    ];
    few = omega (arith, few, length-append ps (d.fresh ∷ []), added-fresh w d);
  }
