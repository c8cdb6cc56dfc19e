-- ===== src/Shell/Leave.antt =====
-- Which commands leave the shell of src/kernel/Shell.cpp.
use swish_kernel.Prelude.{
  ◌≡◌, refl, sym, ap, ◌∙◌, inl, inr, Bool, true, false, List, [], ◌∷◌, ◌++◌, ltb, ◌==◌,
  if◌then◌else◌, length, get_or, drop, null, bytes_of, Res, done, overrun, out_of_fuel, ◌>>=◌,
  Bool-cases,
}
use mathlib.Core.Bool.{true≢false}
use swish_kernel.Text.{Bytes, string_eq, string_empty}
use swish_kernel.Shell.State.{Session, end_line, Answer}
use swish_kernel.Shell.Tokens.{tokens}
use swish_kernel.Shell.{
  Command, builtin_help, execute, exit, process_in, eval_words, eval_user_input, commands,
  is_shell_builtin, process_builtin,
}
use swish_kernel.Vfs.{new_file, new_directory}
use swish_kernel.Shell.Builtins.{
  stay, complain, builtin_cd, builtin_ls, builtin_cat, builtin_touch, builtin_mkdir, builtin_mount,
  builtin_echo, resolve, ls_all, cat_all, list_directory, create_all,
}

-- Whether the answer is there and tells the shell to leave.
unfoldable pub leaves : Answer → Bool
leaves (done (b, s)) = b
leaves overrun = false
leaves out_of_fuel = false

abbrev Stays : Answer → Type 0
Stays a = leaves a ≡ false

Stays-stay : (s : Session) → Stays (stay s)
unfolding leaves
Stays-stay s = refl

Stays-bind : {A : Type 0} (r : Res A) (k : A → Answer) → ((a : A) → Stays (k a)) → Stays (r >>= k)
unfolding leaves
Stays-bind (done a) k h = h a
Stays-bind overrun k h = refl
Stays-bind out_of_fuel k h = refl

Stays-if : (b : Bool) (x y : Answer) → Stays x → Stays y → Stays (if b then x else y)
Stays-if true x y hx hy = hx
Stays-if false x y hx hy = hy

builtin_cd-Stays : (args : List Bytes) (s : Session) → Stays (builtin_cd args s)
unfolding builtin_cd leaves
builtin_cd-Stays args s = Stays-if (ltb 2 (length args)) (stay s) _ refl (
    Stays-if (length args == 1) _ _ (Stays-bind (resolve s.home_env s) _ (λ a. refl))
      (Stays-bind (resolve (get_or args 1 []) s) _ (λ a. refl)))

builtin_ls-Stays : (args : List Bytes) (s : Session) → Stays (builtin_ls args s)
unfolding builtin_ls leaves
builtin_ls-Stays args s =
    Stays-bind (if length args == 1 then list_directory s.current_directory s else done s) _
      (λ listed. Stays-bind (ls_all (drop 1 args) listed) _ (λ a. refl))

builtin_cat-Stays : (args : List Bytes) (s : Session) → Stays (builtin_cat args s)
unfolding builtin_cat leaves
builtin_cat-Stays args s = Stays-bind (cat_all (drop 1 args) s) _ (λ a. refl)

builtin_touch-Stays : (args : List Bytes) (s : Session) → Stays (builtin_touch args s)
unfolding builtin_touch leaves
builtin_touch-Stays args s =
    Stays-bind (create_all new_file (λ arg. []) (drop 1 args) s) _ (λ a. refl)

builtin_mkdir-Stays : (args : List Bytes) (s : Session) → Stays (builtin_mkdir args s)
unfolding builtin_mkdir leaves
builtin_mkdir-Stays args s =
    Stays-bind
      (create_all new_directory (λ arg. arg ++ (bytes_of " already exists" ++ end_line))
        (drop 1 args) s)
      _ (λ a. refl)

builtin_mount-Stays : (args : List Bytes) (s : Session) → Stays (builtin_mount args s)
unfolding builtin_mount leaves
builtin_mount-Stays args s = Stays-if (ltb (length args) 3) _ _ refl (
    Stays-bind (resolve (get_or args 1 []) s) _ (λ source. Stays-if (source == null) _ _ refl (
      Stays-bind (resolve (get_or args 2 []) s) _ (λ target.
        Stays-if (target == null) _ _ refl (Stays-if (source == target) _ _ refl refl)))))

builtin_echo-Stays : (args : List Bytes) (s : Session) → Stays (builtin_echo args s)
unfolding builtin_echo leaves
builtin_echo-Stays [] s = refl
builtin_echo-Stays (cmd ∷ []) s = refl
builtin_echo-Stays (cmd ∷ (w ∷ rest)) s = refl

builtin_help-Stays : (args : List Bytes) (s : Session) → Stays (builtin_help args s)
unfolding builtin_help leaves
builtin_help-Stays args s = refl

execute-leaves :
    (c : Command) (args : List Bytes) (s : Session) → leaves (execute c args s) ≡ true → c ≡ exit
unfolding execute
execute-leaves Command.cd args s h = absurd (true≢false (sym h ∙ builtin_cd-Stays args s))
execute-leaves Command.ls args s h = absurd (true≢false (sym h ∙ builtin_ls-Stays args s))
execute-leaves Command.cat args s h = absurd (true≢false (sym h ∙ builtin_cat-Stays args s))
execute-leaves Command.touch args s h = absurd (true≢false (sym h ∙ builtin_touch-Stays args s))
execute-leaves Command.mkdir args s h = absurd (true≢false (sym h ∙ builtin_mkdir-Stays args s))
execute-leaves Command.mount args s h = absurd (true≢false (sym h ∙ builtin_mount-Stays args s))
execute-leaves Command.echo args s h = absurd (true≢false (sym h ∙ builtin_echo-Stays args s))
execute-leaves Command.display args s h =
    absurd (true≢false (sym h ∙ Stays-stay (record s { gui = true })))
execute-leaves Command.exit args s h = refl
execute-leaves Command.help args s h = absurd (true≢false (sym h ∙ builtin_help-Stays args s))

-- Every entry of a table for the command `exit` has that name.
abbrev Named : List (Bytes × Command × Bytes) → Type 0
Named [] = Unit {0}
Named ((name, c, text) ∷ rest) = (c ≡ exit → name ≡ bytes_of "exit") × Named rest

process_in-leaves :
    (table : List (Bytes × Command × Bytes)) (cmd : Bytes) (args : List Bytes) (s : Session)
    → Named table
    → leaves (process_in table cmd args s) ≡ true
    → string_eq cmd (bytes_of "exit") ≡ true
unfolding process_in
process_in-leaves [] cmd args s n h = absurd (true≢false (sym h ∙ Stays-stay s))
process_in-leaves ((name, c, text) ∷ rest) cmd args s n h = elim (Bool-cases (string_eq cmd name)) [
  | inl same ↦
      let left : leaves (execute c args s) ≡ true =
        ap (λ b. leaves (if b then execute c args s else process_in rest cmd args s)) (sym same)
        ∙ h in
      ap (string_eq cmd) (sym (n.0 (execute-leaves c args s left))) ∙ same
  | inr other ↦ process_in-leaves rest cmd args s n.1 (
      ap (λ b. leaves (if b then execute c args s else process_in rest cmd args s)) (sym other) ∙ h)
]

not_exit : Command → Bool
not_exit Command.exit = false
not_exit _ = true

other_command {ℓ} : (c : Command) (A : Type ℓ) → not_exit c ≡ true → c ≡ exit → A
unfolding not_exit
other_command c A h e = absurd (true≢false (sym h ∙ ap not_exit e))

commands-Named : Named commands
unfolding not_exit
commands-Named = (
  other_command Command.cd _ refl,
  (
    other_command Command.ls _ refl,
    (
      other_command Command.cat _ refl,
      (
        other_command Command.touch _ refl,
        (
          other_command Command.mkdir _ refl,
          (
            other_command Command.mount _ refl,
            (
              other_command Command.echo _ refl,
              (
                other_command Command.display _ refl,
                (λ e. refl, (other_command Command.help _ refl, record {})),
              ),
            ),
          ),
        ),
      ),
    ),
  ),
)

abbrev unknown : Bytes → Session → Answer
unknown cmd s =
    stay (complain (bytes_of "Command not found or external execution not yet supported: ") cmd s)

unknown-Stays : (cmd : Bytes) (s : Session) → Stays (unknown cmd s)
unfolding leaves
unknown-Stays cmd s = refl

eval_words-leaves :
    (words : List Bytes) (s : Session)
    → leaves (eval_words words s) ≡ true
    → string_eq (get_or words 0 []) (bytes_of "exit") ≡ true
unfolding eval_words process_builtin is_shell_builtin
eval_words-leaves [] s h = absurd (true≢false (sym h ∙ Stays-stay s))
eval_words-leaves (cmd ∷ rest) s h = elim (Bool-cases (is_shell_builtin cmd)) [
  | inl known ↦ process_in-leaves commands cmd (cmd ∷ rest) s commands-Named (
      ap (λ b. leaves (if b then process_builtin cmd (cmd ∷ rest) s else unknown cmd s)) (sym known)
      ∙ h)
  | inr other ↦ absurd (
      true≢false (
        sym h
        ∙ ap (λ b. leaves (if b then process_builtin cmd (cmd ∷ rest) s else unknown cmd s)) other
        ∙ unknown-Stays cmd s))
]

-- Only `exit` leaves the shell: where `eval_user_input` answers true, the first word of the input is
-- the word exit.
pub eval_user_input-leaves :
    (raw : Bytes) (s : Session)
    → leaves (eval_user_input raw s) ≡ true
    → string_eq (get_or (tokens raw) 0 []) (bytes_of "exit") ≡ true
unfolding eval_user_input
eval_user_input-leaves raw s h = elim (Bool-cases (string_empty raw)) [
  | inl empty ↦ absurd (
      true≢false (
        sym h
        ∙ ap (λ b. leaves (if b then stay s else eval_words (tokens raw) s)) empty
        ∙ Stays-stay s))
  | inr some_text ↦
      eval_words-leaves (tokens raw) s
        (ap (λ b. leaves (if b then stay s else eval_words (tokens raw) s)) (sym some_text) ∙ h)
]
