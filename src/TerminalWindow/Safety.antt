-- ===== src/TerminalWindow/Safety.antt =====
-- A key in a window of src/gui/TerminalWindow.cpp, the commands of the shell included.
use mathlib.Core.Path.{subst}
use swish_kernel.Prelude.{
  ℕ, ◌-◌, ◌*◌, ◌≤◌, ◌<◌, ◌≡◌, refl, sym, ap, ◌∙◌, inl, inr, Bool, true, false, [], ◌&&◌, leb, ◌==◌,
  if◌then◌else◌, Bool-cases, le→leb, length, Res, done, overrun, out_of_fuel, ◌>>=◌, size_mod,
}
use swish_kernel.Text.{Bytes}
use swish_kernel.Window.{Window, cell, grid_size, print}
use swish_kernel.Window.Safety.{OnGrid, Fits, Kept, row_le_grid, inject_key-OnGrid, print-OnGrid}
use swish_kernel.Shell.State.{Session, Answer}
use swish_kernel.Shell.{eval_user_input}
use swish_kernel.TerminalWindow.{row_text, command_text, on_enter, inject_key}

-- The text behind a prompt of `n` characters, in the row of the cursor.
abbrev pub typed : ℕ → Window → Bytes
typed n w = row_text w.text_grid (cell n w.cursor.y w) (w.cols - n)

-- What the shell makes of a key: the enter key runs the text behind the prompt, and any other key
-- leaves the shell alone.
abbrev pub answer : Bytes → ℕ → Session → Window → Answer
answer prompt c s w =
    if c == 10
    then eval_user_input (typed (length prompt) w) (record s { output = [] })
    else done (false, s)

-- The window goes on with a cursor on its grid, or closes once the shell is left.
abbrev pub Goes : Bool → Window → Window → Type 0
Goes leaves w w' =
    OnGrid w' × (w'.cols ≡ w.cols) × (w'.rows ≡ w.rows) × (leaves ≡ true → w'.should_close ≡ true)

-- The result is that of the shell, with such a window.
abbrev pub Reacted : Answer → Window → Res (Session × Window) → Type 0
Reacted (done (leaves, s)) w r = (w' : Window) × (r ≡ done (s, w')) × Goes leaves w w'
Reacted overrun w r = r ≡ overrun
Reacted out_of_fuel w r = r ≡ out_of_fuel

command_text-typed :
    (n : ℕ) (w : Window) → Fits w → OnGrid w → n ≤ w.cols → command_text n w ≡ done (typed n w)
unfolding command_text
command_text-typed n w f g h = rw (le→leb h, le→leb (row_le_grid w.cursor.y w f g.2)) refl

Fits-same : (w w' : Window) → w'.cols ≡ w.cols → w'.rows ≡ w.rows → Fits w → Fits w'
Fits-same w w' hc hr f = subst (λ n. n < size_mod) (λ i. sym hc i * sym hr i) f

-- What follows the answer of the shell.
abbrev finished : Bytes → Window → Bool × Session → Res (Session × Window)
finished prompt moved (leaves, s) = do
  shown ← print s.output moved
  if leaves
      then done (s, record shown { should_close = true })
      else print prompt shown >>= λ ready. done (s, ready)

finished-Reacted :
    (a : Answer) (prompt : Bytes) (w moved : Window)
    → Fits w
    → OnGrid moved
    → moved.cols ≡ w.cols
    → moved.rows ≡ w.rows
    → Reacted a w (a >>= finished prompt moved)
finished-Reacted (done (true, s)) prompt w moved f g hc hr =
    let (shown, run, g', hc', hr') = print-OnGrid s.output moved (Fits-same w moved hc hr f) g in
    rw run (record shown { should_close = true }, refl, (g', hc' ∙ hc, hr' ∙ hr, λ e. refl))
finished-Reacted (done (false, s)) prompt w moved f g hc hr =
    let (shown, run, g', hc', hr') = print-OnGrid s.output moved (Fits-same w moved hc hr f) g in
    let (ready, run', g'', hc'', hr'') =
      print-OnGrid prompt shown (Fits-same w shown (hc' ∙ hc) (hr' ∙ hr) f) g' in
    rw (run, run') (ready, refl, (g'', hc'' ∙ hc' ∙ hc, hr'' ∙ hr' ∙ hr, λ e. cc))
finished-Reacted overrun prompt w moved f g hc hr = refl
finished-Reacted out_of_fuel prompt w moved f g hc hr = refl

on_enter-Reacted :
    (prompt : Bytes) (s : Session) (w : Window)
    → Fits w
    → OnGrid w
    → length prompt ≤ w.cols
    → Reacted
        (eval_user_input (typed (length prompt) w) (record s { output = [] }))
        w
        (on_enter prompt s w)
unfolding on_enter
on_enter-Reacted prompt s w f g h =
    let (moved, run, g', hc, hr) = inject_key-OnGrid 10 w f g in
    let a = eval_user_input (typed (length prompt) w) (record s { output = [] }) in
    subst (Reacted a w)
      (λ i. sym (command_text-typed (length prompt) w f g h) i >>= λ command.
        sym run i >>= λ m. eval_user_input command (record s { output = [] }) >>= finished prompt m)
      (finished-Reacted a prompt w moved f g' hc hr)

returned-Reacted :
    (s : Session) (w : Window) (r : Res Window)
    → Kept w r
    → Reacted (done (false, s)) w (r >>= λ w'. done (s, w'))
returned-Reacted s w r (w', run, g, hc, hr) =
    (w', ap (λ z. z >>= λ w''. done (s, w'')) run, (g, hc, hr, λ e. cc))

-- On a window whose grid a `size_t` counts, whose cursor is on it and whose rows hold the prompt, a key
-- does what the shell answers: after enter the shell gets the text behind the prompt in the row of the
-- cursor, and the key returns if it does, without an access outside the grid. The cursor is on the grid
-- again, and the window closes where the shell is left.
pub inject_key-Reacted :
    (prompt : Bytes) (c : ℕ) (s : Session) (w : Window)
    → Fits w
    → OnGrid w
    → length prompt ≤ w.cols
    → Reacted (answer prompt c s w) w (inject_key prompt c s w)
unfolding inject_key
inject_key-Reacted prompt c s w f g h = elim (Bool-cases (c == 10)) [
  | inl enter ↦ rw enter (on_enter-Reacted prompt s w f g h)
  | inr other ↦ elim (Bool-cases (c == 8 && leb w.cursor.x (length prompt))) [
    | inl held ↦ rw (other, held) (w, refl, (g, refl, refl, λ e. cc))
    | inr typing ↦
        rw (other, typing)
          (returned-Reacted s w (swish_kernel.Window.inject_key c w) (inject_key-OnGrid c w f g))
  ]
]
