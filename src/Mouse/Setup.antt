-- ===== src/Mouse/Setup.antt =====
-- `Mouse::initialize` of src/drivers/input/mouse.cpp on a controller that keeps its documented promises.
use mathlib.Core.List.{append_assoc}
use swish_kernel.Prelude.{
  ℕ, zero, suc, ◌/◌, ◌%◌, ◌<◌, ◌≤◌, ◌≡◌, refl, ap, ◌∙◌, inl, inr, Bool, true, false, arith, List,
  [], ◌∷◌, ◌++◌, Bool-cases, Res, done, ◌>>=◌,
}
use swish_kernel.Mouse.{bit}
use swish_kernel.Mouse.Ports.{
  Ports, configured, wait_ready, wait_answer, drain, send, enable_ps2_mouse_interrupts, initialize,
}

-- What the controller promises: within `k` polls of its status it takes a byte, hands out the last of the
-- bytes that wait, and has the answer that it owes; it owes one to the command 0x20, and to 0xF4, which
-- it sends on to the mouse. `written` is what was written to the ports, oldest first.
pub record Promises {D : Type 0} (p : Ports D) (k : ℕ) : Type 0 where
  pub written : D → List (ℕ × ℕ)
  pub busy : D → ℕ
  pub waiting : D → ℕ
  pub due : D → ℕ
  pub owes : D → Bool
  pub in_written : (port : ℕ) (d : D) → written (p.inb port d).1 ≡ written d
  pub out_written :
      (port byte : ℕ) (d : D) → written (p.outb port byte d) ≡ written d ++ (port, byte) ∷ []
  pub busy_le : (d : D) → busy d ≤ k
  pub busy_step : (d : D) → bit (p.inb 100 d).0 1 ≡ true → busy (p.inb 100 d).1 < busy d
  pub waiting_le : (d : D) → waiting d ≤ k
  pub waiting_step :
      (d : D) → bit (p.inb 100 d).0 0 ≡ true → waiting (p.inb 96 (p.inb 100 d).1).1 < waiting d
  pub due_le : (d : D) → due d ≤ k
  pub due_step :
      (d : D)
      → owes d ≡ true
      → bit (p.inb 100 d).0 0 ≡ false
      → (due (p.inb 100 d).1 < due d) × (owes (p.inb 100 d).1 ≡ true)
  pub owes_config : (d : D) → owes (p.outb 100 32 d) ≡ true
  pub owes_report : (d : D) → owes (p.outb 96 244 d) ≡ true

module _ {D : Type 0} (p : Ports D) (k : ℕ) (c : Promises p k) where
  -- The result is there, and these bytes were written to the ports.
  abbrev pub Sent : Res D → List (ℕ × ℕ) → Type 0
  Sent r bytes = (d : D) × (r ≡ done d) × (c.written d ≡ bytes)

  wait_ready-Sent : (fuel : ℕ) (d : D) → c.busy d < fuel → Sent (wait_ready p fuel d) (c.written d)
  unfolding wait_ready
  wait_ready-Sent zero d h = absurd (omega arith)
  wait_ready-Sent (suc fuel) d h = elim (Bool-cases (bit (p.inb 100 d).0 1)) [
    | inl again ↦
        let (e, run, same) =
          wait_ready-Sent fuel (p.inb 100 d).1 (omega (arith, h, c.busy_step d again)) in
        rw again (e, run, same ∙ c.in_written 100 d)
    | inr ready ↦ rw ready ((p.inb 100 d).1, refl, c.in_written 100 d)
  ]

  -- The wait has ended with a poll that told of a byte, while the controller owed its answer.
  abbrev pub Answers : D → List (ℕ × ℕ) → D → Type 0
  Answers polled bytes d =
      (d ≡ (p.inb 100 polled).1)
      × (bit (p.inb 100 polled).0 0 ≡ true)
      × (c.owes polled ≡ true)
      × (c.written polled ≡ bytes)

  wait_answer-Sent :
      (fuel : ℕ) (d : D)
      → c.owes d ≡ true
      → c.due d < fuel
      → (polled : D) × (wait_answer p fuel d ≡ done (p.inb 100 polled).1)
        × Answers polled (c.written d) (p.inb 100 polled).1
  unfolding wait_answer
  wait_answer-Sent zero d o h = absurd (omega arith)
  wait_answer-Sent (suc fuel) d o h = elim (Bool-cases (bit (p.inb 100 d).0 0)) [
    | inl full ↦ rw full (d, refl, (refl, full, o, refl))
    | inr empty ↦
        let step = c.due_step d o empty in
        let (polled, run, (at, full, owed, same)) =
          wait_answer-Sent fuel (p.inb 100 d).1 step.1 (omega (arith, h, step.0)) in
        rw empty (polled, run, (at, full, owed, same ∙ c.in_written 100 d))
  ]

  drain-Sent : (fuel : ℕ) (d : D) → c.waiting d < fuel → Sent (drain p fuel d) (c.written d)
  unfolding drain
  drain-Sent zero d h = absurd (omega arith)
  drain-Sent (suc fuel) d h = elim (Bool-cases (bit (p.inb 100 d).0 0)) [
    | inl full ↦
        let next = (p.inb 96 (p.inb 100 d).1).1 in
        let (e, run, same) = drain-Sent fuel next (omega (arith, h, c.waiting_step d full)) in
        rw full (e, run, same ∙ c.in_written 96 (p.inb 100 d).1 ∙ c.in_written 100 d)
    | inr empty ↦ rw empty ((p.inb 100 d).1, refl, c.in_written 100 d)
  ]

  -- A byte that is sent, and the state right behind it.
  send-Sent :
      (fuel port byte : ℕ) (d : D)
      → k < fuel
      → (e : D) × (send p fuel port byte d ≡ done (p.outb port byte e))
        × (c.written (p.outb port byte e) ≡ c.written d ++ (port, byte) ∷ [])
  unfolding send
  send-Sent fuel port byte d h =
      let (e, run, same) = wait_ready-Sent fuel d (omega (arith, h, c.busy_le d)) in
      (
        e,
        ap (λ r. r >>= λ f. done (p.outb port byte f)) run,
        c.out_written port byte e ∙ ap (λ bytes. bytes ++ (port, byte) ∷ []) same,
      )

-- Bits 0 and 1 are set, bits 4 and 5 are clear, and the others are as they were.
configured-low : (config : ℕ) → configured config % 4 ≡ 3
unfolding configured
configured-low config = ground arith

configured-clocks : (config : ℕ) → configured config / 16 % 4 ≡ 0
unfolding configured
configured-clocks config = ground arith

configured-middle : (config : ℕ) → configured config / 4 % 4 ≡ config / 4 % 4
unfolding configured
configured-middle config = ground arith

configured-high : (config : ℕ) → configured config / 64 ≡ config / 64
unfolding configured
configured-high config = ground arith

module _ {D : Type 0} (p : Ports D) (k : ℕ) (c : Promises p k) (fuel : ℕ) (enough : k < fuel) where
  -- The configuration byte is read right behind a poll that told of a byte, while the controller owed the
  -- answer to 0x20; it is written back with bits 0 and 1 set, bits 4 and 5 clear, and the others as they
  -- are.
  Configures : D → List (ℕ × ℕ) → Res D → Type 0
  Configures d before r =
      (polled : D) × Answers p k c polled (before ++ (100, 32) ∷ []) (p.inb 100 polled).1
      × Sent p k c r (
          before ++ (100, 32) ∷ (100, 96) ∷ (96, configured (p.inb 96 (p.inb 100 polled).1).0) ∷ [])

  enable-Configures : (d : D) → Configures d (c.written d) (enable_ps2_mouse_interrupts p fuel d)
  unfolding Configures enable_ps2_mouse_interrupts
  enable-Configures d =
      let (d1, run1, same1) = send-Sent p k c fuel 100 32 d enough in
      let (polled, run2, (at, full_bit, owed, same2)) =
        wait_answer-Sent p k c fuel (p.outb 100 32 d1) (c.owes_config d1)
          (omega (arith, enough, c.due_le (p.outb 100 32 d1))) in
      let full = (p.inb 100 polled).1 in
      let config = (p.inb 96 full).0 in
      let read = (p.inb 96 full).1 in
      let (d3, run3, same3) = send-Sent p k c fuel 100 96 read enough in
      let (d4, run4, same4) =
        send-Sent p k c fuel 96 (configured config) (p.outb 100 96 d3) enough in
      let asked = c.in_written 100 polled ∙ same2 ∙ same1 in
      (
        polled,
        (at, full_bit, owed, same2 ∙ same1),
        (
          p.outb 96 (configured config) d4,
          rw (run1, run2, run3, run4) refl,
          same4
              ∙ ap (λ w. w ++ (96, configured config) ∷ [])
                  (same3 ∙ ap (λ w. w ++ (100, 96) ∷ []) (c.in_written 96 full ∙ asked))
              ∙ append_assoc (c.written d ++ (100, 32) ∷ []) ((100, 96) ∷ [])
                  ((96, configured config) ∷ [])
              ∙ append_assoc (c.written d) ((100, 32) ∷ [])
                  ((100, 96) ∷ (96, configured config) ∷ []),
        ),
      )

  -- `Mouse::initialize` returns with fuel for one poll more than the controller takes for any answer, and
  -- has written to the ports, in this order: 0xA8 for the mouse, 0x20 for the configuration, 0x60 and
  -- the configuration byte that the controller answered, with bits 0 and 1 set, bits 4 and 5 clear and
  -- the others kept, then 0xD4 and 0xF4, which makes the mouse report. The byte answered is the one that
  -- is read from the port 0x60 right behind a poll that told of a byte, while the controller owed the
  -- answer to the 0x20 that was written last. The controller is one that keeps the promises above.
  pub initialize-Sent :
      (d : D)
      → (config : ℕ) × ((configured config % 4 ≡ 3)
          × (configured config / 16 % 4 ≡ 0)
          × (configured config / 4 % 4 ≡ config / 4 % 4)
          × (configured config / 64 ≡ config / 64))
        × ((polled : D) × Answers p k c polled
              (c.written d ++ (100, 168) ∷ (100, 32) ∷ [])
              (p.inb 100 polled).1
            × ((p.inb 96 (p.inb 100 polled).1).0 ≡ config))
        × Sent p k c (initialize p fuel d) (
            c.written d
            ++ (100, 168)
              ∷ (100, 32)
              ∷ (100, 96)
              ∷ (96, configured config)
              ∷ (100, 212)
              ∷ (96, 244)
              ∷ [])
  unfolding Configures initialize
  initialize-Sent d =
      let (empty, run1, same1) = drain-Sent p k c fuel d (omega (arith, enough, c.waiting_le d)) in
      let (d2, run2, same2) = send-Sent p k c fuel 100 168 empty enough in
      let on = p.outb 100 168 d2 in
      let (polled, (at, full_bit, owed, asked), (d3, run3, same3)) = enable-Configures on in
      let (d4, run4, same4) = send-Sent p k c fuel 100 212 d3 enough in
      let (d5, run5, same5) = send-Sent p k c fuel 96 244 (p.outb 100 212 d4) enough in
      let (acked, run6, (_, _, _, same6)) =
        wait_answer-Sent p k c fuel (p.outb 96 244 d5) (c.owes_report d5)
          (omega (arith, enough, c.due_le (p.outb 96 244 d5))) in
      let config = (p.inb 96 (p.inb 100 polled).1).0 in
      let d6 = (p.inb 100 acked).1 in
      let started : c.written on ≡ c.written d ++ (100, 168) ∷ [] =
        same2 ∙ ap (λ w. w ++ (100, 168) ∷ []) same1 in
      let set_up : List (ℕ × ℕ) = (100, 32) ∷ (100, 96) ∷ (96, configured config) ∷ [] in
      (
        config,
        (
          configured-low config,
          configured-clocks config,
          configured-middle config,
          configured-high config,
        ),
        (
          polled,
          (
            at,
            full_bit,
            owed,
            asked
                ∙ ap (λ w. w ++ (100, 32) ∷ []) started
                ∙ append_assoc (c.written d) ((100, 168) ∷ []) ((100, 32) ∷ []),
          ),
          refl,
        ),
        (
          (p.inb 96 d6).1,
          rw (run1, run2, run3, run4, run5, run6) refl,
          c.in_written 96 d6
              ∙ c.in_written 100 acked
              ∙ same6
              ∙ same5
              ∙ ap (λ w. w ++ (96, 244) ∷ [])
                  (same4
                    ∙ ap (λ w. w ++ (100, 212) ∷ [])
                        (same3
                          ∙ ap (λ w. w ++ set_up) started
                          ∙ append_assoc (c.written d) ((100, 168) ∷ []) set_up)
                    ∙ append_assoc (c.written d) ((100, 168) ∷ set_up) ((100, 212) ∷ []))
              ∙ append_assoc (c.written d) (((100, 168) ∷ set_up) ++ (100, 212) ∷ [])
                  ((96, 244) ∷ []),
        ),
      )
