-- ===== src/TerminalWindow/Typing.antt =====
-- A command that is typed in a window of src/gui/TerminalWindow.cpp.
use mathlib.Core.Path.{subst}
use swish_kernel.Prelude.{
  ℕ, zero, suc, ◌+◌, ◌-◌, ◌*◌, ◌<◌, ◌≡◌, ◌≢◌, refl, sym, ap, ◌∙◌, arith, [], ◌∷◌, ne→beq, length,
  write, write_self, write_ne, Res, done, ◌>>=◌, size_mod,
}
use swish_kernel.Text.{Bytes}
use swish_kernel.Window.{Window, cell}
use swish_kernel.Window.Typing.{after_char, inject_key-after_char}
use swish_kernel.Window.Safety.{OnGrid, Fits}
use swish_kernel.Shell.State.{Session}
use swish_kernel.Shell.{eval_user_input}
use swish_kernel.TerminalWindow.{row_text, inject_key}
use swish_kernel.TerminalWindow.Safety.{typed, Reacted, inject_key-Reacted}

-- Characters other than NUL, backspace and enter.
abbrev pub IsTyped : Bytes → Type 0
IsTyped [] = Unit {0}
IsTyped (c ∷ text) = (c ≢ 0) × (c ≢ 8) × (c ≢ 10) × IsTyped text

-- The keys of a text, one after another.
unfoldable pub type_keys : Bytes → Bytes → Session → Window → Res (Session × Window)
type_keys prompt [] s w = done (s, w)
type_keys prompt (c ∷ text) s w = inject_key prompt c s w >>= λ x. type_keys prompt text x.0 x.1

key_typed :
    (prompt : Bytes) (c : ℕ) (s : Session) (w : Window)
    → c ≢ 8
    → c ≢ 10
    → Fits w
    → OnGrid w
    → w.cursor.x + 1 < w.cols
    → inject_key prompt c s w ≡ done (s, after_char c w)
unfolding inject_key
key_typed prompt c s w c8 c10 f g h =
    rw (ne→beq c10, ne→beq c8, inject_key-after_char c w c8 c10 f g h) refl

row_text-cons :
    (grid : ℕ → ℕ) (i n c : ℕ) (text : Bytes)
    → c ≢ 0
    → grid i ≡ c
    → row_text grid (suc i) n ≡ text
    → row_text grid i (suc n) ≡ c ∷ text
unfolding row_text
row_text-cons grid i n c text c0 e rest = rw (e, ne→beq c0, rest) refl

row_text-end : (grid : ℕ → ℕ) (i n : ℕ) → grid i ≡ 0 → row_text grid i n ≡ []
unfolding row_text
row_text-end grid i zero e = refl
row_text-end grid i (suc n) e = rw e refl

-- The keys of the text stand in the row from the old cursor on, and nothing in front of it has changed.
abbrev Written : Bytes → Session → Window → Res (Session × Window) → Type 0
Written text s w r =
    (w' : Window) × (r ≡ done (s, w'))
    × OnGrid w'
    × (w'.cols ≡ w.cols)
    × (w'.rows ≡ w.rows)
    × (w'.cursor.y ≡ w.cursor.y)
    × (row_text w'.text_grid (cell w.cursor.x w.cursor.y w) (w.cols - w.cursor.x) ≡ text)
    × ((i : ℕ) → i < cell w.cursor.x w.cursor.y w → w'.text_grid i ≡ w.text_grid i)

type_keys-Written :
    (prompt text : Bytes) (s : Session) (w : Window)
    → IsTyped text
    → Fits w
    → OnGrid w
    → w.text_grid (cell w.cursor.x w.cursor.y w) ≡ 0
    → w.cursor.x + length text < w.cols
    → Written text s w (type_keys prompt text s w)
unfolding type_keys
type_keys-Written prompt [] s w ok f g blank room =
    (w, refl, g, refl, refl, refl, row_text-end w.text_grid _ _ blank, λ i h. refl)
type_keys-Written prompt (c ∷ text) s w (c0, c8, c10, ok) f g blank room =
    let x = w.cursor.x in
    let y = w.cursor.y in
    let i = cell x y w in
    let w1 = after_char c w in
    let put_here = write w.text_grid i c in
    let next : cell (x + 1) y w ≡ suc i = omega arith in
    let g1 : OnGrid w1 = (g.0, omega arith, g.2, λ e. absurd (omega (arith, e, room))) in
    let blank1 : w1.text_grid (cell (x + 1) y w) ≡ 0 = write_self put_here (cell (x + 1) y w) 0 in
    let room1 : x + 1 + length text < w.cols = omega (arith, room) in
    let (w', run, g', hc, hr, hy, row, before) =
      type_keys-Written prompt text s w1 ok f g1 blank1 room1 in
    let kept : w'.text_grid i ≡ c =
      before i (omega (arith, next))
      ∙ write_ne put_here (cell (x + 1) y w) i 0 (λ e. omega (arith, next, e))
      ∙ write_self w.text_grid i c in
    let more : suc (w.cols - (x + 1)) ≡ w.cols - x = omega arith in
    (
      w',
      ap (λ r. r >>= λ z. type_keys prompt text z.0 z.1)
            (key_typed prompt c s w c8 c10 f g (omega arith))
          ∙ run,
      g',
      hc,
      hr,
      hy,
      subst (λ n. row_text w'.text_grid i n ≡ c ∷ text) more
          (row_text-cons w'.text_grid i (w.cols - (x + 1)) c text c0 kept
            (subst (λ j. row_text w'.text_grid j (w.cols - (x + 1)) ≡ text) next row)),
      λ j h.
          before j (omega (arith, next, h))
          ∙ write_ne put_here (cell (x + 1) y w) j 0 (λ e. omega (arith, next, e, h))
          ∙ write_ne w.text_grid i j c (λ e. omega (arith, e, h)),
    )

-- In a window whose grid a `size_t` counts, whose cursor is on it and stands on a NUL right behind the
-- prompt, a text is typed that leaves a cell of the row free and holds no NUL, backspace or enter. Then
-- the enter key does what the shell answers to exactly this text, and returns if the shell does, with
-- the cursor on the grid again and the window closed where the shell is left.
pub type_keys-Reacted :
    (prompt text : Bytes) (s : Session) (w : Window)
    → IsTyped text
    → Fits w
    → OnGrid w
    → w.text_grid (cell w.cursor.x w.cursor.y w) ≡ 0
    → w.cursor.x ≡ length prompt
    → length prompt + length text < w.cols
    → (w' : Window) × (type_keys prompt text s w ≡ done (s, w'))
      × Reacted (eval_user_input text (record s { output = [] })) w' (inject_key prompt 10 s w')
type_keys-Reacted prompt text s w ok f g blank at_prompt room =
    let (w', run, g', hc, hr, hy, row, before) =
      type_keys-Written prompt text s w ok f g blank (omega (arith, at_prompt, room)) in
    let f' : Fits w' = subst (λ n. n < size_mod) (λ i. sym hc i * sym hr i) f in
    let same : typed (length prompt) w' ≡ text =
      (λ i. row_text w'.text_grid (hy i * hc i + sym at_prompt i) (hc i - sym at_prompt i)) ∙ row in
    (
      w',
      run,
      subst
          (λ t.
            Reacted (eval_user_input t (record s { output = [] })) w' (inject_key prompt 10 s w'))
          same (inject_key-Reacted prompt 10 s w' f' g' (omega (arith, hc, room))),
    )
