-- ===== src/Kernel/Turn.antt =====
-- A turn of the main loop of src/main.cpp in which a line is ready.
use mathlib.Core.Path.{subst}
use swish_kernel.Prelude.{
  ◌<◌, ◌≡◌, refl, sym, ap, ◌∙◌, arith, Bool, true, false, not, [], ◌∷◌, ◌++◌, inl, inr, ltb,
  if◌then◌else◌, Bool-cases, ne→beq, Res, done, overrun, out_of_fuel, ◌>>=◌,
}
use swish_kernel.Text.{Bytes, c_string}
use swish_kernel.Text.Compare.{IsProper}
use swish_kernel.Shell.{eval_user_input}
use swish_kernel.Shell.State.{Session, Answer}
use swish_kernel.Input.{Router, in_terminal, fetch_line}
use swish_kernel.Input.Line.{cells}
use swish_kernel.Input.Events.{flush_terminal_updates}
use swish_kernel.Kernel.{
  Kernel, max_line_len, to_session, from_session, with_router, prompt, run_line, flush_rest,
  terminal_turn,
}

c_string-snoc : (xs : Bytes) → IsProper xs → c_string (xs ++ 0 ∷ []) ≡ done xs
unfolding c_string
c_string-snoc [] p = refl
c_string-snoc (x ∷ xs) p = rw (ne→beq p.0, c_string-snoc xs p.1) refl

-- The characters of the line.
abbrev pub typed : Router → Bytes
typed r = cells r.input_buffer r.to_input_index

abbrev pub emptied : Router → Router
emptied r = record r {
  input_buffer = λ i. 0;
  to_input_index = 0;
  input_len = 0;
  line_ready = false;
}

fetch_line-typed :
    (r : Router)
    → r.to_input_index < max_line_len
    → fetch_line max_line_len r ≡ (typed r ++ 0 ∷ [], emptied r)
unfolding fetch_line
fetch_line-typed r h =
    let all : (if ltb r.to_input_index 1023 then r.to_input_index else 1023) ≡ r.to_input_index =
      ground arith in
    rw all refl

-- The line is used up, the session is `s`, and the terminal shows what the session has written.
abbrev pub Left : Session → Kernel → Type 0
Left s k =
    (k.session ≡ s)
    × (k.events.router.output ≡ s.output)
    × (k.events.router.line_ready ≡ false)
    × (k.events.router.to_input_index ≡ 0)

-- What the turn makes of the shell's answer: the loop ends after `exit`, and else a prompt follows.
abbrev pub Ran : Answer → Res (Bool × Kernel) → Type 0
Ran (done (true, s)) r = (k : Kernel) × (r ≡ done (true, k)) × Left s k
Ran (done (false, s)) r =
    (k : Kernel) × (r ≡ done (false, k)) × Left (record s { output = s.output ++ prompt s }) k
Ran overrun r = r ≡ overrun
Ran out_of_fuel r = r ≡ out_of_fuel

flush-Left :
    (s : Session) (k : Kernel)
    → Left s k
    → Left s (with_router (flush_terminal_updates k.events.router) k.session k)
unfolding flush_terminal_updates
flush-Left s k l = elim (Bool-cases (in_terminal k.events.router)) [
  | inl e ↦ rw e l
  | inr e ↦ rw e l
]

choose-Left :
    (s : Session) (b : Bool) (k l : Kernel) → Left s k → Left s l → Left s (if b then k else l)
choose-Left s true k l hk hl = hk
choose-Left s false k l hk hl = hl

flush_rest-Left : (s : Session) (k : Kernel) → Left s k → Left s (flush_rest k)
flush_rest-Left s k l =
    choose-Left s k.events.router.dirty
      (with_router (flush_terminal_updates k.events.router) k.session k) k (flush-Left s k l) l

-- What is left of `run_line` and of the turn once the shell has answered.
abbrev answered : Router → Kernel → Bool × Session → Res (Bool × Kernel)
answered r k (leaves, s) = done (
    if leaves
    then (true, with_router (from_session s r) s k)
    else let s' : Session = record s { output = s.output ++ prompt s } in
      (false, with_router (flush_terminal_updates (from_session s' r)) s' k))

abbrev ended : Bool × Kernel → Res (Bool × Kernel)
ended x = done (x.0, if x.0 then x.1 else flush_rest x.1)

answered-Ran :
    (a : Answer) (r : Router) (k : Kernel)
    → r.line_ready ≡ false
    → r.to_input_index ≡ 0
    → Ran a (a >>= answered r k >>= ended)
answered-Ran (done (true, s)) r k ready index =
    (with_router (from_session s r) s k, refl, (refl, refl, ready, index))
answered-Ran (done (false, s)) r k ready index =
    let s' : Session = record s { output = s.output ++ prompt s } in
    let shown = with_router (from_session s' r) s' k in
    (
      _,
      refl,
      flush_rest-Left s' (with_router (flush_terminal_updates (from_session s' r)) s' k)
          (flush-Left s' shown (refl, refl, ready, index)),
    )
answered-Ran overrun r k ready index = refl
answered-Ran out_of_fuel r k ready index = refl

run_line-typed :
    (k : Kernel)
    → k.events.router.to_input_index < max_line_len
    → IsProper (typed k.events.router)
    → run_line k ≡ (
        eval_user_input (typed k.events.router) (to_session k.events.router k.session)
        >>= answered (emptied k.events.router) k)
unfolding run_line
run_line-typed k hi proper =
    rw (fetch_line-typed k.events.router hi, c_string-snoc (typed k.events.router) proper) refl

pub terminal_turn-Ran :
    (k : Kernel)
    → in_terminal k.events.router ≡ true
    → k.events.router.line_ready ≡ true
    → k.events.router.to_input_index < max_line_len
    → IsProper (typed k.events.router)
    → Ran
        (eval_user_input (typed k.events.router) (to_session k.events.router k.session))
        (terminal_turn k)
unfolding terminal_turn
terminal_turn-Ran k ht hl hi proper =
    let a = eval_user_input (typed k.events.router) (to_session k.events.router k.session) in
    subst (Ran a)
      (sym (
        ap
          (λ b.
            if not b
            then done (false, k)
            else if k.events.router.line_ready
            then run_line k >>= ended
            else done (false, flush_rest k))
          ht
        ∙ ap (λ b. if b then run_line k >>= ended else done (false, flush_rest k)) hl
        ∙ ap (λ x. x >>= ended) (run_line-typed k hi proper)))
      (answered-Ran a (emptied k.events.router) k refl refl)
