-- ===== src/Mouse/Tests.antt =====
-- A packet of src/drivers/input/mouse.cpp, and its set-up on a small controller.
use swish_kernel.Prelude.{
  ℕ, ◌≡◌, ◌≤◌, ◌<◌, refl, true, false, Bool, List, [], ◌∷◌, ◌++◌, ◌||◌, ◌&&◌, ◌==◌, ◌/◌, ◌%◌,
  if◌then◌else◌, arith, Bool-cases, inl, inr,
}
use swish_kernel.Int.{pos}
use swish_kernel.RingBuffer.{Ring, push, MouseEvent}
use swish_kernel.Mouse.{Packet, bit}
use swish_kernel.Mouse.Ports.{Ports, configured, initialize}
use swish_kernel.Mouse.Setup.{Promises, Sent, Answers, initialize-Sent}
use swish_kernel.Mouse.Packets.{feed, at_cycle, Decoded, feed-packet}

abbrev empty_ring : Ring MouseEvent
empty_ring = record {
  buffer = λ i. record { delta_x = pos 0; delta_y = pos 0; buttons = 0 };
  head = 0;
  tail = 0;
}

-- The byte 1 cannot start a packet; the three behind it hold a move to the left.
feed-packet_example :
    ((event : MouseEvent) × Decoded 25 5 3 event
      × ((feed 33 true (1 ∷ 25 ∷ 5 ∷ 3 ∷ []) (at_cycle 0 (λ i. 0) empty_ring)).mouse_ring_buffer
          ≡ (push event empty_ring).1)
      × ((feed 33 true (1 ∷ 25 ∷ 5 ∷ 3 ∷ []) (at_cycle 0 (λ i. 0) empty_ring)).mouse_cycle ≡ 0))
    × ((byte : ℕ) (bytes : List ℕ) (p : Packet)
        → feed 33 false (byte ∷ bytes) p ≡ record p { mouse_cycle = 0 })
feed-packet_example =
    feed-packet 33 25 5 3 (1 ∷ []) (λ i. 0) empty_ring refl refl (refl, record {}) refl

-- A controller that answers at once with the byte 0x61.
record Controller : Type 0 where
  log : List (ℕ × ℕ)
  has_byte : Bool

abbrev ports : Ports Controller
ports = record {
  inb = λ port d.
      if port == 100 then (if d.has_byte then 1 else 0, d) else (97, record d { has_byte = false });
  outb = λ port byte d. record {
    log = d.log ++ (port, byte) ∷ [];
    has_byte = d.has_byte || ((port == 100 && byte == 32) || (port == 96 && byte == 244));
  };
}

in_log : (port : ℕ) (d : Controller) → (ports.inb port d).1.log ≡ d.log
in_log port d = elim (Bool-cases (port == 100)) [ inl e ↦ rw e refl | inr e ↦ rw e refl ]

never_busy : (b : Bool) → bit (if b then 1 else 0) 1 ≡ false
never_busy true = refl
never_busy false = refl

abbrev count : Bool → ℕ
count b = if b then 1 else 0

count_le : (b : Bool) → count b ≤ 1
count_le true = omega arith
count_le false = omega arith

count_step : (b : Bool) → bit (count b) 0 ≡ true → 0 < count b
count_step true h = omega arith
count_step false h = cc

count_full : (b : Bool) → b ≡ true → bit (count b) 0 ≡ true
count_full true h = refl
count_full false h = cc

always : (b : Bool) → (b || true) ≡ true
always true = refl
always false = refl

promises : Promises ports 1
promises = record {
  written = λ d. d.log;
  busy = λ d. 0;
  waiting = λ d. count d.has_byte;
  due = λ d. 0;
  owes = λ d. d.has_byte;
  in_written = in_log;
  out_written = λ port byte d. refl;
  busy_le = λ d. omega arith;
  busy_step = λ d h. cc (h, never_busy d.has_byte);
  waiting_le = λ d. count_le d.has_byte;
  waiting_step = λ d h. count_step d.has_byte h;
  due_le = λ d. omega arith;
  due_step = λ d o h. cc (h, count_full d.has_byte o);
  owes_config = λ d. always d.has_byte;
  owes_report = λ d. always d.has_byte;
}

abbrev switched_on : Controller
switched_on = record { log = []; has_byte = true }

initialize-Sent_example :
    (config : ℕ) × ((configured config % 4 ≡ 3)
      × (configured config / 16 % 4 ≡ 0)
      × (configured config / 4 % 4 ≡ config / 4 % 4)
      × (configured config / 64 ≡ config / 64))
    × ((polled : Controller) × Answers ports 1 promises polled
          (promises.written switched_on ++ (100, 168) ∷ (100, 32) ∷ [])
          (ports.inb 100 polled).1
        × ((ports.inb 96 (ports.inb 100 polled).1).0 ≡ config))
    × Sent ports 1 promises (initialize ports 2 switched_on) (
        promises.written switched_on
        ++ (100, 168)
          ∷ (100, 32)
          ∷ (100, 96)
          ∷ (96, configured config)
          ∷ (100, 212)
          ∷ (96, 244)
          ∷ [])
initialize-Sent_example = initialize-Sent ports 1 promises 2 (omega arith) switched_on
