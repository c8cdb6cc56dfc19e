-- ===== src/Kernel/Boot.antt =====
-- How `_start` of src/main.cpp switches the interrupts on, and what then answers them.
mod Tests
use swish_kernel.Prelude.{
  ℕ, ◌<◌, ◌≡◌, List, [], ◌∷◌, ◌++◌, Option, some, Res, done, overrun, out_of_fuel,
}
use swish_kernel.Pic.{Outs, remap, enable}
use swish_kernel.Pic.Promises.{ready, Promises, run}
use swish_kernel.Pic.Ready.{Stages}
use swish_kernel.Interrupts.{Machine, Outcome, resumes, halts, interrupt_handler}
use swish_kernel.Idt.{Idt}

-- The writes of `PIC::remap` and `PIC::enable`.
unfoldable pub interrupts_on : (ℕ → ℕ) → Outs
interrupts_on inb = remap inb 32 40 ++ enable

-- What the handler has written to the ports, for an answer.
outs_of : Res Outcome → Outs
outs_of (done (resumes m)) = m.outs
outs_of (done (halts m)) = m.outs
outs_of overrun = []
outs_of out_of_fuel = []

module _ {D : Type 0} {out : ℕ → ℕ → D → D} (p : Promises out) where
  -- The controllers after the set-up and any interrupts since: the processor takes a line that interrupts
  -- it, and the handler answers its vector and writes to the ports. What the kernel does between two
  -- interrupts may change all that the handler acts on.
  pub data Reached (d0 : D) : D → Type 0 where
    switched_on : (inb : ℕ → ℕ) → Reached d0 (run out (interrupts_on inb) d0)
    interrupt :
        {d : D} (line v : ℕ) (inb : ℕ → ℕ) (m m' : Machine)
        → Reached d0 d
        → line < 16
        → p.raises line d ≡ some v
        → interrupt_handler inb v (record m { outs = [] }) ≡ done (resumes m')
        → Reached d0 (run out m'.outs (p.takes line d))

  -- The vectors, the masks, and no line in service.
  Idle : D → Type 0
  Idle d = Stages p d (ready 32 248 []) (ready 40 239 [])
