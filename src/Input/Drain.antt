-- ===== src/Input/Drain.antt =====
-- The keyboard from the interrupt handler to the input router: src/drivers/input/keyboard.cpp fills
-- the ring, and `process_keyboard_events` of src/drivers/input/input.cpp empties it.
use swish_kernel.Prelude.{
  ℕ, zero, suc, ◌<◌, ◌≡◌, refl, sym, ap, ◌∙◌, true, List, [], ◌∷◌, ◌++◌, arith, ltb, if◌then◌else◌,
  length, Res, done, ◌>>=◌, bind_assoc, bind_ext,
}
use swish_kernel.RingBuffer.{KeyboardBuffer, push, pop, buffer_size}
use swish_kernel.RingBuffer.Queue.{IsValid, contents}
use swish_kernel.RingBuffer.Contents.{
  pop-nil, pop-cons, push-contents, pop-IsValid, push-IsValid, length-contents,
}
use swish_kernel.Mouse.{handle_keyboard_interrupt}
use swish_kernel.Input.{Router, on_scancode, process_scancodes, process_keyboard_events}

-- The ring after the loop has popped `q` and found nothing more.
unfoldable pub emptied : List ℕ → KeyboardBuffer → KeyboardBuffer
emptied [] ring = (pop ring).1
emptied (x ∷ q) ring = emptied q (pop ring).1

emptied_lem :
    (q : List ℕ) (ring : KeyboardBuffer)
    → IsValid ring
    → contents ring ≡ q
    → (contents (emptied q ring) ≡ []) × IsValid (emptied q ring)
unfolding emptied
emptied_lem [] ring v e = ((pop-nil ring v e).1, pop-IsValid ring v)
emptied_lem (x ∷ q) ring v e =
    emptied_lem q (pop ring).1 (pop-IsValid ring v) (pop-cons ring x q v e).1

-- The loop handles the scancodes in the ring, oldest first.
process_keyboard_events-contents :
    (fuel : ℕ) (ring : KeyboardBuffer) (q : List ℕ) (r : Router)
    → IsValid ring
    → contents ring ≡ q
    → length q < fuel
    → process_keyboard_events fuel ring r
      ≡ (process_scancodes q r >>= λ r'. done (emptied q ring, r'))
unfolding process_keyboard_events process_scancodes emptied
process_keyboard_events-contents zero ring q r v e enough = absurd (omega arith)
process_keyboard_events-contents (suc fuel) ring [] r v e enough =
    rw (process_keyboard_events, (pop-nil ring v e).0) refl
process_keyboard_events-contents (suc fuel) ring (x ∷ q) r v e enough =
    let (got, left) = pop-cons ring x q v e in
    rw (process_keyboard_events, got)
      (bind_ext (on_scancode x r) (process_keyboard_events fuel (pop ring).1)
          (λ r1. process_scancodes q r1 >>= λ r'. done (emptied q (pop ring).1, r'))
          (λ r1.
            process_keyboard_events-contents fuel (pop ring).1 q r1 (pop-IsValid ring v) left
              (omega arith))
        ∙ sym (
            bind_assoc (on_scancode x r) (process_scancodes q)
              (λ r'. done (emptied q (pop ring).1, r'))))

-- What comes from outside: a scancode that interrupts, and a turn of the main loop.
pub data Event : Type 0 where
  arrives : ℕ → Event
  drains : Event

-- The code: the handler stores a scancode, the loop takes all of them.
unfoldable pub handle : List Event → KeyboardBuffer → Router → Res (KeyboardBuffer × Router)
handle [] ring r = done (ring, r)
handle (arrives c ∷ events) ring r = handle events (handle_keyboard_interrupt true c ring) r
handle (drains ∷ events) ring r =
    process_keyboard_events buffer_size ring r >>= λ x. handle events x.0 x.1

-- The promise: scancodes wait in line, a line of 255 takes no more, and a turn handles all of them.
unfoldable pub promised : List Event → List ℕ → Router → Res (List ℕ × Router)
promised [] waiting r = done (waiting, r)
promised (arrives c ∷ events) waiting r =
    promised events (if ltb (length waiting) 255 then waiting ++ c ∷ [] else waiting) r
promised (drains ∷ events) waiting r = process_scancodes waiting r >>= promised events []

abbrev pub waiting_in : KeyboardBuffer × Router → List ℕ × Router
waiting_in (ring, r) = (contents ring, r)

-- However interrupts and turns of the main loop follow one another, the router is in the state that
-- the promise gives, and the ring holds the scancodes that wait: none is lost, repeated or reordered
-- as long as at most 255 wait.
pub handle-promised :
    (events : List Event) (ring : KeyboardBuffer) (r : Router)
    → IsValid ring
    → (handle events ring r >>= λ x. done (waiting_in x)) ≡ promised events (contents ring) r
unfolding handle promised handle_keyboard_interrupt
handle-promised [] ring r v = refl
handle-promised (arrives c ∷ events) ring r v =
    handle-promised events (push c ring).1 r (push-IsValid ring c v)
    ∙ ap (λ q. promised events q r) (push-contents ring c v)
handle-promised (drains ∷ events) ring r v =
    let q = contents ring in
    let (empty, v') = emptied_lem q ring v refl in
    let next : KeyboardBuffer × Router → Res (KeyboardBuffer × Router) =
      λ x. handle events x.0 x.1 in
    let fits : length q < buffer_size = omega (arith, length-contents ring) in
    ap (λ x. x >>= next >>= λ y. done (waiting_in y))
      (process_keyboard_events-contents buffer_size ring q r v refl fits)
    ∙ ap (λ x. x >>= λ y. done (waiting_in y))
        (bind_assoc (process_scancodes q r) (λ r'. done (emptied q ring, r')) next)
    ∙ bind_assoc (process_scancodes q r) (λ r'. handle events (emptied q ring) r')
        (λ y. done (waiting_in y))
    ∙ bind_ext (process_scancodes q r)
        (λ r'. handle events (emptied q ring) r' >>= λ y. done (waiting_in y)) (promised events [])
        (λ r'. handle-promised events (emptied q ring) r' v' ∙ ap (λ w. promised events w r') empty)
