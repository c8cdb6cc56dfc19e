-- ===== src/RingBuffer.antt =====
-- src/drivers/input/ring_buffer.cpp: the buffers between the interrupt handlers, which push, and the
-- input router, which pops with interrupts off. Keyboard and mouse have the same code for bytes and
-- for events, so it is written once for any type of item.
pub mod Queue
pub mod Contents
mod Tests
use swish_kernel.Prelude.{
  ℕ, ◌+◌, ◌%◌, Bool, true, false, Option, none, some, ◌==◌, if◌then◌else◌, write,
}
use swish_kernel.Int.{ℤ}

-- KEYBOARD_BUFFER_SIZE and MOUSE_BUFFER_SIZE
abbrev pub buffer_size : ℕ
buffer_size = 256

-- The array is a function of the index; indices stay below `buffer_size`.
pub record Ring (A : Type 0) : Type 0 where
  pub buffer : ℕ → A
  pub head : ℕ
  pub tail : ℕ

module _ {A : Type 0} where
  unfoldable pub push : A → Ring A → Bool × Ring A
  push item r =
      let next = (r.head + 1) % buffer_size in
      if next == r.tail
      then (false, r)
      else (true, record r { buffer = write r.buffer r.head item; head = next })

  -- The option is the result and the out parameter.
  unfoldable pub pop : Ring A → Option A × Ring A
  pop r =
      if r.head == r.tail
      then (none, r)
      else (some (r.buffer r.tail), record r { tail = (r.tail + 1) % buffer_size })

pub record MouseEvent : Type 0 where
  pub delta_x : ℤ
  pub delta_y : ℤ
  pub buttons : ℕ

abbrev pub KeyboardBuffer : Type 0
KeyboardBuffer = Ring ℕ

abbrev pub MouseBuffer : Type 0
MouseBuffer = Ring MouseEvent
