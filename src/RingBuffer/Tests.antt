-- ===== src/RingBuffer/Tests.antt =====
-- The ring of src/drivers/input/ring_buffer.cpp at a concrete state.
use swish_kernel.Prelude.{ℕ, ◌≡◌, List, [], ◌∷◌, arith}
use swish_kernel.RingBuffer.{KeyboardBuffer}
use swish_kernel.RingBuffer.Queue.{
  Op, pushes, pops, contents, run_ring, run_queue, run_ring-run_queue,
}

-- Two scancodes across the end of the array.
abbrev wrapped : KeyboardBuffer
wrapped = record { buffer = λ i. i; head = 1; tail = 255 }

abbrev history : List (Op ℕ)
history = pops ∷ pushes 30 ∷ pops ∷ pops ∷ pops ∷ []

run_ring-run_queue_example : run_ring wrapped history ≡ run_queue (contents wrapped) history
run_ring-run_queue_example =
    run_ring-run_queue wrapped history (record { head_in = omega arith; tail_in = omega arith })
