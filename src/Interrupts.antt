-- ===== src/Interrupts.antt =====
-- src/arch/x86_64/interrupts.cpp: the function that every interrupt ends up in.
pub mod Dispatch
pub mod Tests
use swish_kernel.Prelude.{
  ℕ, ◌+◌, ◌/◌, ◌%◌, Bool, true, false, List, [], ◌∷◌, ◌++◌, ltb, ◌==◌, if◌then◌else◌, bytes_of, Res,
  done, ◌>>=◌,
}
use swish_kernel.Int.{pos}
use swish_kernel.Text.{Bytes}
use swish_kernel.RingBuffer.{KeyboardBuffer}
use swish_kernel.Mouse.{Packet, handle_keyboard_interrupt, handle_mouse_interrupt}
use swish_kernel.Pic.{Outs, send_eoi}
use swish_kernel.TerminalWindow.Numbers.{int_text}

-- What the handlers act on; `outs` are the writes to the ports.
pub record Machine : Type 0 where
  pub is_enabled : Bool
  pub keyboard : KeyboardBuffer
  pub mouse : Packet
  pub gui : Bool
  pub output : Bytes
  pub outs : Outs

-- The handler returns to what it interrupted, or stops the processor for good.
pub data Outcome : Type 0 where
  resumes : Machine → Outcome
  halts : Machine → Outcome

abbrev pub acknowledge : ℕ → Machine → Machine
acknowledge irq m = record m { outs = m.outs ++ send_eoi irq }

abbrev pub say : Bytes → Machine → Machine
say text m = record m { output = m.output ++ text }

-- `inb` answers the reads of the ports.
unfoldable pub interrupt_handler : (ℕ → ℕ) → ℕ → Machine → Res Outcome
interrupt_handler inb int_no m =
    if int_no == 0
    then done (resumes (acknowledge 0 (say (bytes_of "Division by Zero\r\n") m)))
    else if int_no == 8
    then done (halts (say (bytes_of "Double Fault!\r\n") m))
    else if int_no == 32
    then done (resumes (acknowledge 0 m))
    else if int_no == 33
    then done (
        resumes (
          acknowledge 1
            (record m { keyboard = handle_keyboard_interrupt m.is_enabled (inb 96) m.keyboard })))
    else if int_no == 44
    then done (
        resumes (
          acknowledge 12
            (record m { mouse = handle_mouse_interrupt (inb 100) (inb 96) m.gui m.mouse })))
    else if ltb int_no 32
    then (int_text (pos int_no) >>= λ number.
        done (halts (say (bytes_of "CPU Exception Caught: " ++ (number ++ bytes_of "\r\n")) m)))
    else done (resumes m)
