-- ===== src/Compositor/Links.antt =====
-- The list of nodes that the pointers of src/gui/Compositor.cpp stand for, kept by the three
-- operations on links.
use swish_kernel.Prelude.{
  ℕ, ◌<◌, ◌≤◌, length, ◌≡◌, ◌≢◌, true, false, not, ◌&&◌, arith, List, ◌==◌, if◌then◌else◌, null,
}
use swish_kernel.Compositor.{Desktop, detach, reattach, delete_window}
use swish_kernel.Compositor.Neighbours.{has, first, last_from, next_in, prev_in, Distinct}

-- The nodes from the head to the tail.
pub record IsStack (d : Desktop) (ps : List ℕ) : Type 0 where
  pub head_is : d.head ≡ first ps
  pub tail_is : d.tail ≡ last_from null ps
  pub nexts : (q : ℕ) → has q ps ≡ true → (d.node q).next ≡ next_in ps q
  pub prevs : (q : ℕ) → has q ps ≡ true → (d.node q).prev ≡ prev_in null ps q
  pub distinct : Distinct ps
  pub real : has null ps ≡ false
  pub below : (q : ℕ) → has q ps ≡ true → q < d.fresh
  pub few : length ps ≤ d.fresh

-- The links after `delete_window p`.
module _ (p : ℕ) (d : Desktop) (p0 : p ≢ null) (pn : (d.node p).next ≢ p)
    (pp : (d.node p).prev ≢ p) where
  pub delete-next :
      (q : ℕ)
      → (d.tail ≡ p → (d.node p).next ≡ null)
      → ((delete_window p d).node q).next ≡ (
          if not ((d.node p).prev == null) && q == (d.node p).prev
          then (d.node p).next
          else (d.node q).next)
  unfolding delete_window
  delete-next q t = ground arith

  pub delete-prev :
      (q : ℕ)
      → (d.head ≡ p → (d.node p).prev ≡ null)
      → ((delete_window p d).node q).prev ≡ (
          if not ((d.node p).next == null) && q == (d.node p).next
          then (d.node p).prev
          else (d.node q).prev)
  unfolding delete_window
  delete-prev q t = ground arith

  pub delete-window : (q : ℕ) → ((delete_window p d).node q).window ≡ (d.node q).window
  unfolding delete_window
  delete-window q = ground arith

  pub delete-head : (delete_window p d).head ≡ (if d.head == p then (d.node p).next else d.head)
  unfolding delete_window
  delete-head = ground arith

  pub delete-tail : (delete_window p d).tail ≡ (if d.tail == p then (d.node p).prev else d.tail)
  unfolding delete_window
  delete-tail = ground arith

  pub delete-fresh : (delete_window p d).fresh ≡ d.fresh
  unfolding delete_window
  delete-fresh = ground arith

  pub delete-windows : (delete_window p d).windows ≡ d.windows
  unfolding delete_window
  delete-windows = ground arith

-- The two steps of `focus_window`.
unfoldable pub raised : ℕ → Desktop → Desktop
raised c d = reattach c (detach c d)

-- The same for them, for a node that is not the tail.
module _ (c : ℕ) (d : Desktop) (c0 : c ≢ null) (cn : (d.node c).next ≢ c) (cp : (d.node c).prev ≢ c)
    (ct : c ≢ d.tail) where
  pub raised-next :
      (q : ℕ)
      → q ≢ null
      → (d.head ≡ c → (d.node c).prev ≡ null)
      → ((raised c d).node q).next ≡ (
          if q == c
          then null
          else if q == d.tail
          then c
          else if q == (d.node c).prev
          then (d.node c).next
          else (d.node q).next)
  unfolding raised detach reattach
  raised-next q q0 h = ground arith

  pub raised-prev :
      (q : ℕ)
      → (d.node c).next ≢ null
      → (d.head ≡ c → (d.node c).prev ≡ null)
      → ((raised c d).node q).prev ≡ (
          if q == c
          then d.tail
          else if q == (d.node c).next
          then (d.node c).prev
          else (d.node q).prev)
  unfolding raised detach reattach
  raised-prev q n0 h1 = ground arith

  pub raised-window : (q : ℕ) → ((raised c d).node q).window ≡ (d.node q).window
  unfolding raised detach reattach
  raised-window q = ground arith

  pub raised-head : (raised c d).head ≡ (if c == d.head then (d.node c).next else d.head)
  unfolding raised detach reattach
  raised-head = ground arith

  pub raised-tail : (raised c d).tail ≡ c
  unfolding raised detach reattach
  raised-tail = ground arith

  pub raised-fresh : (raised c d).fresh ≡ d.fresh
  unfolding raised detach reattach
  raised-fresh = ground arith

  pub raised-windows : (raised c d).windows ≡ d.windows
  unfolding raised detach reattach
  raised-windows = ground arith
