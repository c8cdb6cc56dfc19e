-- ===== src/Mouse.antt =====
-- src/drivers/input/mouse.cpp and src/drivers/input/keyboard.cpp: the interrupt handlers of the PS/2
-- devices. What the ports 0x64 and 0x60 answer are the arguments `status` and `byte`.
pub mod Packets
pub mod Ports
pub mod Setup
mod Tests
use swish_kernel.Prelude.{
  ℕ, ◌+◌, ◌-◌, ◌/◌, ◌%◌, ◌^◌, Bool, true, false, not, ◌||◌, ltb, ◌==◌, if◌then◌else◌, write,
}
use swish_kernel.Int.{ℤ, pos, neg, sub_ℕ}
use swish_kernel.RingBuffer.{Ring, push, MouseEvent, KeyboardBuffer, MouseBuffer}

pub record Packet : Type 0 where
  pub mouse_cycle : ℕ
  pub mouse_packet : ℕ → ℕ
  pub mouse_ring_buffer : MouseBuffer

-- Bit `k` of a byte.
abbrev pub bit : ℕ → ℕ → Bool
bit byte k = byte / 2 ^ k % 2 == 1

-- A delta of 8 bits and its sign.
abbrev pub delta : ℕ → Bool → ℤ
delta byte sign = if sign then sub_ℕ byte 256 else pos byte

pub process_mouse_packet : (ℕ → ℕ) → MouseEvent
process_mouse_packet packet = record {
  delta_x = delta (packet 1) (bit (packet 0) 4);
  delta_y = neg (delta (packet 2) (bit (packet 0) 5));
  buttons = packet 0;
}

-- The `switch` on `mouse_cycle`.
unfoldable pub take_byte : ℕ → Packet → Packet
take_byte byte p =
    let stored : ℕ → ℕ = write p.mouse_packet p.mouse_cycle byte in
    if p.mouse_cycle == 0
    then if bit byte 3 then record p { mouse_packet = stored; mouse_cycle = 1 } else p
    else if p.mouse_cycle == 1
    then record p { mouse_packet = stored; mouse_cycle = 2 }
    else if p.mouse_cycle == 2
    then record {
      mouse_cycle = 0;
      mouse_packet = stored;
      mouse_ring_buffer = (push (process_mouse_packet stored) p.mouse_ring_buffer).1;
    }
    else record p { mouse_cycle = 0; mouse_packet = λ i. if ltb i 3 then 0 else p.mouse_packet i }

-- `Mouse::handle_interrupt`; `gui` tells whether the display context is the graphical one.
unfoldable pub handle_mouse_interrupt : ℕ → ℕ → Bool → Packet → Packet
unfolding take_byte
handle_mouse_interrupt status byte gui p =
    if not (bit status 0) || not (bit status 5)
    then p
    else if gui
    then take_byte byte p
    else record p { mouse_cycle = 0 }

-- `Keyboard::handle_interrupt`
unfoldable pub handle_keyboard_interrupt : Bool → ℕ → KeyboardBuffer → KeyboardBuffer
handle_keyboard_interrupt is_enabled scancode buffer =
    if is_enabled then (push scancode buffer).1 else buffer

-- `Keyboard::disable` sets `is_enabled` to this.
abbrev pub disabled : Bool
disabled = false
