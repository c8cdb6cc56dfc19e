-- ===== src/Compositor.antt =====
-- src/gui/Compositor.cpp: the doubly linked list of windows, the top-most one last. Nodes and windows
-- live in two stores, and a pointer is an address, 0 `nullptr`.
pub mod Neighbours
pub mod Places
pub mod Links
pub mod Stack
pub mod Added
pub mod Find
pub mod Cleanup
pub mod Order
pub mod Focus
pub mod Click
pub mod Move
pub mod Refine
mod Tests
use swish_kernel.Prelude.{
  ℕ, zero, suc, ◌+◌, ◌%◌, Bool, ◌&&◌, ◌||◌, leb, ◌==◌, if◌then◌else◌, null, write, Res, done,
  out_of_fuel, ◌>>=◌, size_mod,
}
use swish_kernel.Window.{Window, sub64}

pub record CompositorWindow : Type 0 where
  pub next : ℕ
  pub window : ℕ
  pub prev : ℕ

-- `fresh` is the address that the next `new` answers.
pub record Desktop : Type 0 where
  pub node : ℕ → CompositorWindow
  pub windows : ℕ → Window
  pub head : ℕ
  pub tail : ℕ
  pub fresh : ℕ

abbrev pub set_next : ℕ → ℕ → Desktop → Desktop
set_next p next d = record d { node = write d.node p (record (d.node p) { next = next }) }

abbrev pub set_prev : ℕ → ℕ → Desktop → Desktop
set_prev p prev d = record d { node = write d.node p (record (d.node p) { prev = prev }) }

abbrev pub set_window : ℕ → Window → Desktop → Desktop
set_window p w d = record d { windows = write d.windows p w }

-- An assignment under a test for `nullptr`.
abbrev pub unless_null : ℕ → (Desktop → Desktop) → Desktop → Desktop
unless_null p assign d = if p == null then d else assign d

unfoldable pub add_window : ℕ → Desktop → Desktop
add_window window d =
    let new_node : ℕ = d.fresh in
    let d' : Desktop = record d {
      node = write d.node new_node (record { next = null; window = window; prev = null });
      fresh = suc d.fresh;
    } in
    if d.head == null
    then record d' { head = new_node; tail = new_node }
    else record (set_prev new_node d'.tail (set_next d'.tail new_node d')) { tail = new_node }

-- The loop of `focus_window` that looks for the node of a window.
unfoldable pub find_node : ℕ → ℕ → ℕ → Desktop → Res ℕ
find_node zero current window d = out_of_fuel
find_node (suc fuel) current window d =
    let rest = find_node fuel (d.node current).next window d in
    if current == null
    then done null
    else if (d.node current).window == window
    then done current
    else rest

-- The second step of `focus_window`.
unfoldable pub detach : ℕ → Desktop → Desktop
detach current d =
    let n : CompositorWindow = d.node current in
    if current == d.head
    then unless_null n.next (λ e. set_prev e.head null e) (record d { head = n.next })
    else let d' : Desktop = set_next n.prev n.next d in
      unless_null (d'.node current).next
        (λ e. set_prev (e.node current).next (e.node current).prev e) d'

-- The third step.
unfoldable pub reattach : ℕ → Desktop → Desktop
reattach current d =
    let d' : Desktop = set_next current null (set_prev current d.tail d) in
    record (set_next d'.tail current d') { tail = current }

-- A list of at most `fresh` nodes is searched in as many rounds and one more.
pub focus_window : ℕ → Desktop → Res Desktop
focus_window window d =
    if d.head == null || (d.tail == null || window == null)
    then done d
    else (find_node (suc d.fresh) d.head window d >>= λ current.
        done
          (if current == null || current == d.tail then d else reattach current (detach current d)))

-- The two `delete` at its end are left out.
unfoldable pub delete_window : ℕ → Desktop → Desktop
delete_window win d =
    if win == null
    then d
    else let d1 : Desktop =
        if d.head == win
        then unless_null (d.node win).next (λ e. set_prev e.head null e)
            (record d { head = (d.node win).next })
        else d in
      let d2 : Desktop =
        if d1.tail == win
        then unless_null (d1.node win).prev (λ e. set_next e.tail null e)
            (record d1 { tail = (d1.node win).prev })
        else d1 in
      let d3 : Desktop =
        unless_null (d2.node win).next (λ e. set_prev (e.node win).next (e.node win).prev e) d2 in
      unless_null (d3.node win).prev (λ e. set_next (e.node win).prev (e.node win).next e) d3

-- `cleanup_closed_windows` from the node `current` on.
unfoldable pub cleanup_loop : ℕ → ℕ → Desktop → Res Desktop
cleanup_loop zero current d = out_of_fuel
cleanup_loop (suc fuel) current d =
    let next_node = (d.node current).next in
    let d' : Desktop =
      if (d.windows (d.node current).window).should_close then delete_window current d else d in
    let rest = cleanup_loop fuel next_node d' in if current == null then done d else rest

pub cleanup_closed_windows : Desktop → Res Desktop
cleanup_closed_windows d = cleanup_loop (suc d.fresh) d.head d

-- `inject_key` for a given `inject_key` of the window.
pub inject_key : (Window → Res Window) → Desktop → Res Desktop
inject_key key d =
    if d.tail == null
    then done d
    else let top = (d.node d.tail).window in
      (key (d.windows top) >>= λ w. done (set_window top w d))

-- The test whether a point lies on a window, its right and lower edge included.
abbrev pub hits : ℕ → ℕ → Window → Bool
hits x y w =
    leb w.loc.x x
    && (leb x ((w.loc.x + w.width) % size_mod)
        && (leb w.loc.y y && leb y ((w.loc.y + w.height) % size_mod)))

-- What `inject_mouse_button` makes of the window that it finds.
abbrev pub clicked : ℕ → ℕ → Bool → Window → Window
clicked x y is_down w =
    swish_kernel.Window.on_mouse_button (sub64 x w.loc.x) (sub64 y w.loc.y) is_down w

-- The loop of `inject_mouse_button` from the node `curr` down.
unfoldable pub button_loop : ℕ → ℕ → ℕ → ℕ → Bool → Desktop → Res Desktop
button_loop zero curr x y is_down d = out_of_fuel
button_loop (suc fuel) curr x y is_down d =
    let win = (d.node curr).window in
    let w : Window = d.windows win in
    let rest = button_loop fuel (d.node curr).prev x y is_down d in
    if curr == null
    then done d
    else if hits x y w
    then ((if is_down then focus_window win d else done d) >>= λ focused.
        done (set_window win (clicked x y is_down w) focused))
    else rest

pub inject_mouse_button : ℕ → ℕ → Bool → Desktop → Res Desktop
inject_mouse_button x y is_down d = button_loop (suc d.fresh) d.tail x y is_down d

pub inject_mouse_move : ℕ → ℕ → Desktop → Desktop
inject_mouse_move x y d =
    if d.tail == null
    then d
    else let top = (d.node d.tail).window in
      set_window top (swish_kernel.Window.on_mouse_move x y (d.windows top)) d
