-- ===== src/Compositor/Cleanup.antt =====
-- `cleanup_closed_windows` of src/gui/Compositor.cpp on the list of nodes.
use mathlib.Core.Path.{subst}
use mathlib.Core.List.{append_assoc}
use swish_kernel.Prelude.{
  ℕ, zero, suc, ◌<◌, ◌≡◌, ◌≢◌, refl, sym, ap, ◌∙◌, inl, inr, Bool, true, false, arith, List, [],
  ◌∷◌, ◌++◌, ◌==◌, if◌then◌else◌, null, length, Bool-cases, Res, done, ne→beq,
}
use swish_kernel.Compositor.{Desktop, cleanup_loop, delete_window, cleanup_closed_windows}
use swish_kernel.Compositor.Neighbours.{has, erase, first, next_in, Distinct, has-append}
use swish_kernel.Compositor.Links
use swish_kernel.Compositor.Links.{IsStack}
use swish_kernel.Compositor.Stack.{p0, pn, pp, delete-IsStack}

abbrev pub closed : Desktop → ℕ → Bool
closed d p = (d.windows (d.node p).window).should_close

-- The nodes of windows that stay open.
unfoldable pub still_open : Desktop → List ℕ → List ℕ
still_open d [] = []
still_open d (p ∷ ps) = if closed d p then still_open d ps else p ∷ still_open d ps

-- Both desktops have the same windows, in the same nodes.
abbrev pub SameWindows : Desktop → Desktop → Type 0
SameWindows d e = (e.windows ≡ d.windows) × ((q : ℕ) → (e.node q).window ≡ (d.node q).window)

still_open-same :
    (d e : Desktop) (ps : List ℕ) → SameWindows d e → still_open e ps ≡ still_open d ps
unfolding still_open
still_open-same d e [] s = refl
still_open-same d e (p ∷ ps) s =
    let c : closed e p ≡ closed d p = λ i. (s.0 i (s.1 p i)).should_close in
    λ i. if c i then still_open-same d e ps s i else p ∷ still_open-same d e ps s i

next_in-middle :
    (ks : List ℕ) (b : ℕ) (bs : List ℕ)
    → Distinct (ks ++ b ∷ bs)
    → next_in (ks ++ b ∷ bs) b ≡ first bs
unfolding next_in has
next_in-middle [] b bs d = ground arith
next_in-middle (k ∷ ks) b bs d =
    ground (arith, next_in-middle ks b bs d.1, has-append k ks (b ∷ bs), d.0)

erase-middle :
    (ks : List ℕ) (b : ℕ) (bs : List ℕ)
    → Distinct (ks ++ b ∷ bs)
    → erase b (ks ++ b ∷ bs) ≡ ks ++ bs
unfolding erase has
erase-middle [] b bs d = ground arith
erase-middle (k ∷ ks) b bs d = elim (Bool-cases (k == b)) [
  | inl same ↦ ground (arith, has-append k ks (b ∷ bs), d.0)
  | inr other ↦ rw other (ap (λ xs. k ∷ xs) (erase-middle ks b bs d.1))
]

has-middle : (ks : List ℕ) (b : ℕ) (bs : List ℕ) → has b (ks ++ b ∷ bs) ≡ true
unfolding has
has-middle [] b bs = ground arith
has-middle (k ∷ ks) b bs = ground (arith, has-middle ks b bs)

-- What the loop does to the rest `bs` of the list, behind the nodes that it has kept.
abbrev Cleaned : Desktop → List ℕ → List ℕ → Res Desktop → Type 0
Cleaned d ks bs r =
    (e : Desktop) × (r ≡ done e)
    × IsStack e (ks ++ still_open d bs)
    × SameWindows d e
    × (e.fresh ≡ d.fresh)

cleanup_step :
    (fuel b n : ℕ) (d : Desktop) (gone : Bool)
    → b ≢ null
    → (d.node b).next ≡ n
    → closed d b ≡ gone
    → cleanup_loop (suc fuel) b d ≡ cleanup_loop fuel n (if gone then delete_window b d else d)
unfolding cleanup_loop
cleanup_step fuel b n d gone b0 hn hc = rw (ne→beq b0, hn, hc) refl

cleanup_end : (fuel : ℕ) (d : Desktop) → cleanup_loop (suc fuel) null d ≡ done d
unfolding cleanup_loop
cleanup_end fuel d = refl

still_open_gone :
    (d : Desktop) (b : ℕ) (bs : List ℕ)
    → closed d b ≡ true
    → still_open d (b ∷ bs) ≡ still_open d bs
unfolding still_open
still_open_gone d b bs h = rw h refl

still_open_stays :
    (d : Desktop) (b : ℕ) (bs : List ℕ)
    → closed d b ≡ false
    → still_open d (b ∷ bs) ≡ b ∷ still_open d bs
unfolding still_open
still_open_stays d b bs h = rw h refl

cleanup_loop-Cleaned :
    (fuel : ℕ) (d : Desktop) (ks bs : List ℕ)
    → IsStack d (ks ++ bs)
    → length bs < fuel
    → Cleaned d ks bs (cleanup_loop fuel (first bs) d)
unfolding first
cleanup_loop-Cleaned zero d ks bs is enough = absurd (omega arith)
cleanup_loop-Cleaned (suc fuel) d ks [] is enough =
    (d, cleanup_end fuel d, unfold still_open in is, (refl, λ q. refl), refl)
cleanup_loop-Cleaned (suc fuel) d ks (b ∷ bs) is enough =
    let h = has-middle ks b bs in
    let b0 = p0 is b h in
    let next : (d.node b).next ≡ first bs = is.nexts b h ∙ next_in-middle ks b bs is.distinct in
    elim (Bool-cases (closed d b)) [
      | inl gone ↦
          let d' : Desktop = delete_window b d in
          let same : SameWindows d d' = (
            Links.delete-windows b d b0 (pn is b h) (pp is b h),
            λ q. Links.delete-window b d b0 (pn is b h) (pp is b h) q,
          ) in
          let is' : IsStack d' (ks ++ bs) =
            subst (IsStack d') (erase-middle ks b bs is.distinct) (delete-IsStack is b h) in
          let (e, r, left, same', fresh) = cleanup_loop-Cleaned fuel d' ks bs is' (omega arith) in
          (
            e,
            cleanup_step fuel b (first bs) d true b0 next gone ∙ r,
            subst (λ xs. IsStack e (ks ++ xs))
                (still_open-same d d' bs same ∙ sym (still_open_gone d b bs gone)) left,
            (same'.0 ∙ same.0, λ q. same'.1 q ∙ same.1 q),
            fresh ∙ Links.delete-fresh b d b0 (pn is b h) (pp is b h),
          )
      | inr stays ↦
          let is' : IsStack d ((ks ++ b ∷ []) ++ bs) =
            subst (IsStack d) (sym (append_assoc ks (b ∷ []) bs)) is in
          let (e, r, left, same, fresh) =
            cleanup_loop-Cleaned fuel d (ks ++ b ∷ []) bs is' (omega arith) in
          (
            e,
            cleanup_step fuel b (first bs) d false b0 next stays ∙ r,
            subst (IsStack e)
                (append_assoc ks (b ∷ []) (still_open d bs)
                  ∙ ap (λ xs. ks ++ xs) (sym (still_open_stays d b bs stays)))
                left,
            same,
            fresh,
          )
    ]

pub cleanup-Cleaned :
    (d : Desktop) (ps : List ℕ) → IsStack d ps → Cleaned d [] ps (cleanup_closed_windows d)
unfolding cleanup_closed_windows
cleanup-Cleaned d ps is =
    subst (λ p. Cleaned d [] ps (cleanup_loop (suc d.fresh) p d)) (sym is.head_is)
      (cleanup_loop-Cleaned (suc d.fresh) d [] ps is (omega (arith, is.few)))
