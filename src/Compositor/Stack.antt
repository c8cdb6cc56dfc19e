-- ===== src/Compositor/Stack.antt =====
-- `delete_window` and the steps of `focus_window` and `add_window` of src/gui/Compositor.cpp on the
-- list of nodes.
use swish_kernel.Prelude.{
  ℕ, length-append, ◌≡◌, ◌≢◌, sym, ap, ◌∙◌, inl, inr, true, false, not, ◌&&◌, arith, List, [], ◌∷◌,
  ◌++◌, ◌==◌, if◌then◌else◌, null, Bool-cases, beq→eq,
}
use mathlib.Core.Bool.{true≢false}
use swish_kernel.Compositor.{Desktop, delete_window}
use swish_kernel.Compositor.Neighbours.{
  has, erase, first, last_from, next_in, prev_in, Distinct, has-erase, has-erase_ne, has-erase_self,
  length-erase, erase-Distinct, snoc-Distinct, first-erase, next_in-erase, prev_in-erase,
  last_from-erase, first-snoc, first_real, has-snoc_ne, has-snoc_real, next_in-snoc,
  next_in-snoc_self, prev_in-snoc, prev_in-snoc_self, last_from-snoc,
}
use swish_kernel.Compositor.Places.{
  next_in_ne, prev_in_ne, prev_in-first, next_in-last_from, last_from-next_in, adjacent,
}
use swish_kernel.Compositor.Links
use swish_kernel.Compositor.Links.{IsStack}

pub ne_of_has : (p : ℕ) (ps : List ℕ) (q : ℕ) → has p ps ≡ true → has q ps ≡ false → p ≢ q
ne_of_has p ps q hp hq e = true≢false (sym hp ∙ ap (λ r. has r ps) e ∙ hq)

module _ {d : Desktop} {ps : List ℕ} (is : IsStack d ps) (p : ℕ) (h : has p ps ≡ true) where
  open is use {head_is, tail_is, nexts, prevs, distinct, real, below, few}

  pub p0 : p ≢ null
  p0 = ne_of_has p ps null h real

  pub pn : (d.node p).next ≢ p
  pn = λ e. next_in_ne ps p p0 distinct (sym (nexts p h) ∙ e)

  pub pp : (d.node p).prev ≢ p
  pp = λ e. prev_in_ne null ps p p0 p0 distinct (sym (prevs p h) ∙ e)

  at_head : d.head ≡ p → (d.node p).prev ≡ null
  at_head e = prevs p h ∙ prev_in-first null ps p p0 (sym head_is ∙ e)

  at_tail : d.tail ≡ p → (d.node p).next ≡ null
  at_tail e = nexts p h ∙ next_in-last_from null ps p p0 h distinct (sym tail_is ∙ e)

  -- A node that is left is another one of the list.
  left_ne : (q : ℕ) → has q (erase p ps) ≡ true → q ≢ p
  left_ne q hq = ne_of_has q (erase p ps) p hq (has-erase_self p ps distinct)

  left_has : (q : ℕ) → has q (erase p ps) ≡ true → has q ps ≡ true
  left_has q hq = sym (has-erase_ne q p ps (left_ne q hq)) ∙ hq

  next_left :
      (q : ℕ)
      → has q (erase p ps) ≡ true
      → (if not ((d.node p).prev == null) && q == (d.node p).prev
          then (d.node p).next
          else (d.node q).next)
        ≡ next_in (erase p ps) q
  next_left q hq =
      let hq' = left_has q hq in
      let q0 = ne_of_has q ps null hq' real in
      rw (prevs p h, nexts p h, nexts q hq')
        (ground (
          arith,
          next_in-erase p ps q p0 distinct (left_ne q hq),
          adjacent null ps p q h hq' distinct real q0,
        ))

  prev_left :
      (q : ℕ)
      → has q (erase p ps) ≡ true
      → (if not ((d.node p).next == null) && q == (d.node p).next
          then (d.node p).prev
          else (d.node q).prev)
        ≡ prev_in null (erase p ps) q
  prev_left q hq =
      let hq' = left_has q hq in
      let q0 = ne_of_has q ps null hq' real in
      rw (prevs p h, nexts p h, prevs q hq')
        (ground (
          arith,
          prev_in-erase null p ps q p0 p0 distinct (left_ne q hq),
          adjacent null ps q p hq' h distinct real p0,
        ))

  pub delete-IsStack : IsStack (delete_window p d) (erase p ps)
  delete-IsStack = record {
    head_is = Links.delete-head p d p0 pn pp ∙ ground (arith, head_is, nexts p h, first-erase p ps);
    tail_is =
        Links.delete-tail p d p0 pn pp
        ∙ ground (arith, tail_is, prevs p h, last_from-erase null p ps p0 distinct);
    nexts = λ q hq. Links.delete-next p d p0 pn pp q at_tail ∙ next_left q hq;
    prevs = λ q hq. Links.delete-prev p d p0 pn pp q at_head ∙ prev_left q hq;
    distinct = erase-Distinct p ps distinct;
    real = has-erase null p ps real;
    below = λ q hq. omega (arith, below q (left_has q hq), Links.delete-fresh p d p0 pn pp);
    few = omega (arith, few, length-erase p ps h, Links.delete-fresh p d p0 pn pp);
  }

-- `focus_window` moves a node that is not the last one to the end.
module _ {d : Desktop} {ps : List ℕ} (is : IsStack d ps) (p : ℕ) (h : has p ps ≡ true)
    (pt : p ≢ d.tail) where
  open is use {head_is, tail_is, nexts, prevs, distinct, real, below, few}

  raised-Distinct : Distinct (erase p ps ++ p ∷ [])
  raised-Distinct =
      snoc-Distinct p (erase p ps) (erase-Distinct p ps distinct) (has-erase_self p ps distinct)

  gone : has p (erase p ps) ≡ false
  gone = has-erase_self p ps distinct

  -- The last one of the others is still the last.
  last_stays : last_from null (erase p ps) ≡ d.tail
  last_stays = last_from-erase null p ps (p0 is p h) distinct ∙ ground (arith, tail_is)

  n0 : (d.node p).next ≢ null
  n0 e = pt (sym (tail_is ∙ last_from-next_in null ps p real h (sym (nexts p h) ∙ e)))

  first_left : (if p == d.head then (d.node p).next else d.head) ≡ first (erase p ps)
  first_left = ground (arith, head_is, nexts p h, first-erase p ps)

  first_left_real : first (erase p ps) ≢ null
  first_left_real e = ground (arith, first_left, n0, head_is, first_real p ps h real)

  raised_after :
      (q : ℕ)
      → has q (erase p ps ++ p ∷ []) ≡ true
      → (if q == p
          then null
          else if q == d.tail
          then p
          else if q == (d.node p).prev
          then (d.node p).next
          else (d.node q).next)
        ≡ next_in (erase p ps ++ p ∷ []) q
  raised_after q hq = elim (Bool-cases (q == p)) [
    | inl same ↦ rw same (
        sym (
          ap (next_in (erase p ps ++ p ∷ [])) (beq→eq q p same)
          ∙ next_in-snoc_self p (erase p ps) gone))
    | inr other ↦
        let hq' : has q (erase p ps) ≡ true = has-snoc_ne q p (erase p ps) hq other in
        let q_in = left_has is p h q hq' in
        let q0 = ne_of_has q ps null q_in real in
        rw (other, prevs p h, nexts p h, nexts q q_in)
          (ground (
            arith,
            next_in-snoc p (erase p ps) q (erase-Distinct p ps distinct) hq',
            last_stays,
            next_in-erase p ps q (p0 is p h) distinct (left_ne is p h q hq'),
            adjacent null ps p q h q_in distinct real q0,
          ))
  ]

  raised_before :
      (q : ℕ)
      → has q (erase p ps ++ p ∷ []) ≡ true
      → (if q == p
          then d.tail
          else if q == (d.node p).next
          then (d.node p).prev
          else (d.node q).prev)
        ≡ prev_in null (erase p ps ++ p ∷ []) q
  raised_before q hq = elim (Bool-cases (q == p)) [
    | inl same ↦ rw same (
        sym (
          ap (prev_in null (erase p ps ++ p ∷ [])) (beq→eq q p same)
          ∙ prev_in-snoc_self null p (erase p ps) gone
          ∙ last_stays))
    | inr other ↦
        let hq' : has q (erase p ps) ≡ true = has-snoc_ne q p (erase p ps) hq other in
        let q_in = left_has is p h q hq' in
        rw (other, prevs p h, nexts p h, prevs q q_in)
          (ground (
            arith,
            prev_in-snoc null p (erase p ps) q hq',
            prev_in-erase null p ps q (p0 is p h) (p0 is p h) distinct (left_ne is p h q hq'),
            adjacent null ps q p q_in h distinct real (p0 is p h),
          ))
  ]

  raised_has : (q : ℕ) → has q (erase p ps ++ p ∷ []) ≡ true → has q ps ≡ true
  raised_has q hq = elim (Bool-cases (q == p)) [
    | inl same ↦ ap (λ r. has r ps) (beq→eq q p same) ∙ h
    | inr other ↦ left_has is p h q (has-snoc_ne q p (erase p ps) hq other)
  ]

  raised_real : (q : ℕ) → has q (erase p ps ++ p ∷ []) ≡ true → q ≢ null
  raised_real q hq = ne_of_has q ps null (raised_has q hq) real

  pub raised-IsStack : IsStack (Links.raised p d) (erase p ps ++ p ∷ [])
  raised-IsStack = record {
    head_is =
        Links.raised-head p d (p0 is p h) (pn is p h) (pp is p h) pt
        ∙ first_left
        ∙ sym (first-snoc p (erase p ps) first_left_real);
    tail_is =
        Links.raised-tail p d (p0 is p h) (pn is p h) (pp is p h) pt
        ∙ sym (last_from-snoc null p (erase p ps));
    nexts = λ q hq.
        Links.raised-next p d (p0 is p h) (pn is p h) (pp is p h) pt q (raised_real q hq)
          (at_head is p h)
        ∙ raised_after q hq;
    prevs = λ q hq.
        Links.raised-prev p d (p0 is p h) (pn is p h) (pp is p h) pt q n0 (at_head is p h)
        ∙ raised_before q hq;
    distinct = raised-Distinct;
    real = has-snoc_real p (erase p ps) (p0 is p h) (has-erase null p ps real);
    below = λ q hq. omega (
      arith,
      below q (raised_has q hq),
      Links.raised-fresh p d (p0 is p h) (pn is p h) (pp is p h) pt,
    );
    few = omega (
      arith,
      few,
      length-erase p ps h,
      length-append (erase p ps) (p ∷ []),
      Links.raised-fresh p d (p0 is p h) (pn is p h) (pp is p h) pt,
    );
  }
