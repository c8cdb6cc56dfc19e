-- ===== src/Interrupts/Tests.antt =====
-- Runs of src/arch/x86_64/interrupts.cpp.
use swish_kernel.Prelude.{◌≡◌, refl, true, false, [], bytes_of, done}
use swish_kernel.Int.{pos}
use swish_kernel.TerminalWindow.Numbers.{int_text, digits_loop}
use swish_kernel.Interrupts.{Machine, say, interrupt_handler, halts}
use swish_kernel.Interrupts.Dispatch.{Dispatched, interrupt_handler_lem}

abbrev pub idle : Machine
idle = record {
  is_enabled = true;
  keyboard = record { buffer = λ _. 0; head = 0; tail = 0 };
  mouse = record {
    mouse_cycle = 0;
    mouse_packet = λ _. 0;
    mouse_ring_buffer = record {
      buffer = λ _. record { delta_x = pos 0; delta_y = pos 0; buttons = 0 };
      head = 0;
      tail = 0;
    };
  };
  gui = false;
  output = [];
  outs = [];
}

-- A general protection fault stops the kernel, without a write to the controllers.
interrupt_handler_lem_example : Dispatched true [] idle (interrupt_handler (λ _. 30) 13 idle)
interrupt_handler_lem_example = interrupt_handler_lem (λ _. 30) 13 idle

fault_text :
    interrupt_handler (λ _. 30) 13 idle
    ≡ done (halts (say (bytes_of "CPU Exception Caught: 13\r\n") idle))
unfolding interrupt_handler int_text digits_loop
fault_text = refl
