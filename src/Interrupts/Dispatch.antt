-- ===== src/Interrupts/Dispatch.antt =====
-- Which interrupts of src/arch/x86_64/interrupts.cpp are acknowledged, and which stop the kernel.
use swish_kernel.Prelude.{
  ℕ, [], ◌∷◌, ◌≡◌, refl, sym, inl, inr, Bool, true, ◌&&◌, ◌||◌, arith, ◌++◌, ltb, ◌==◌,
  if◌then◌else◌, bytes_of, Res, done, Bool-cases, beq→eq,
}
use mathlib.Core.List.{append-nil}
use swish_kernel.Pic.{Outs, send_eoi}
use swish_kernel.TerminalWindow.Numbers.{int_text-value}
use swish_kernel.Interrupts.{Machine, Outcome, resumes, halts, say, interrupt_handler}

-- The lines that the kernel uses: the timer, the keyboard and the mouse.
abbrev pub used_line : ℕ → Bool
used_line v = v == 32 || (v == 33 || v == 44)

-- An exception other than the division error stops the kernel.
abbrev pub fatal : ℕ → Bool
fatal v = ltb 0 v && ltb v 32

-- The end of interrupt, 0x20, goes to the command port 0x20 of the first controller, and for a line of
-- the second one before that to the command port 0xA0 of that one.
abbrev pub acknowledgement : ℕ → Outs
acknowledgement v =
    if v == 44
    then (160, 32) ∷ (32, 32) ∷ []
    else if v == 0 || (v == 32 || v == 33)
    then (32, 32) ∷ []
    else []

-- A result that is there, stops exactly if it should, and has written `outs` to the ports.
abbrev pub Dispatched : Bool → Outs → Machine → Res Outcome → Type 0
Dispatched stops outs m r =
    (m' : Machine) × (r ≡ done (if stops then halts m' else resumes m'))
    × (m'.outs ≡ m.outs ++ outs)

-- `interrupt_handler` answers for every vector. It stops the kernel exactly for the exceptions other
-- than the division error. It writes the end of interrupt 0x20 to the port 0x20 for the vectors of the
-- timer and the keyboard and for a division error, to 0xA0 and then to 0x20 for the vector of the
-- mouse, and nothing to a port for any other vector.
pub interrupt_handler_lem :
    (inb : ℕ → ℕ) (v : ℕ) (m : Machine)
    → Dispatched (fatal v) (acknowledgement v) m (interrupt_handler inb v m)
unfolding interrupt_handler send_eoi
interrupt_handler_lem inb v m = elim (Bool-cases (v == 0)) [
  | inl e0 ↦ rw (beq→eq v 0 e0) (_, refl, refl)
  | inr e0 ↦ elim (Bool-cases (v == 8)) [
    | inl e8 ↦ rw (beq→eq v 8 e8) (_, refl, sym (append-nil m.outs))
    | inr e8 ↦ elim (Bool-cases (v == 32)) [
      | inl e32 ↦ rw (beq→eq v 32 e32) (_, refl, refl)
      | inr e32 ↦ elim (Bool-cases (v == 33)) [
        | inl e33 ↦ rw (beq→eq v 33 e33) (_, refl, refl)
        | inr e33 ↦ elim (Bool-cases (v == 44)) [
          | inl e44 ↦ rw (beq→eq v 44 e44) (_, refl, refl)
          | inr e44 ↦ elim (Bool-cases (ltb v 32)) [
            | inl l ↦
                let (text, e, f) = int_text-value v (ground arith) in
                let positive : ltb 0 v ≡ true = ground arith in
                rw (e0, e8, e32, e33, e44, l, positive, e)
                  (
                    say (bytes_of "CPU Exception Caught: " ++ (text ++ bytes_of "\r\n")) m,
                    refl,
                    sym (append-nil m.outs),
                  )
            | inr l ↦
                let positive : ltb 0 v ≡ true = ground arith in
                rw (e0, e8, e32, e33, e44, l, positive) (m, refl, sym (append-nil m.outs))
          ]
        ]
      ]
    ]
  ]
]
