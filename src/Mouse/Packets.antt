-- ===== src/Mouse/Packets.antt =====
-- The packets that src/drivers/input/mouse.cpp assembles from bytes.
use swish_kernel.Prelude.{
  ◌≡◌, refl, ap, ◌∙◌, true, false, List, [], ◌∷◌, ◌++◌, write, Bool, ◌*◌, ◌/◌, ◌%◌, ◌^◌, leb, arith,
  if◌then◌else◌, ℕ, sym, Bool-cases, inl, inr,
}
use swish_kernel.Int.{pos, neg, ◌+ℤ◌}
use swish_kernel.RingBuffer.{Ring, push, MouseEvent}
use swish_kernel.Mouse.{Packet, bit, delta, process_mouse_packet, take_byte, handle_mouse_interrupt}

-- Some bytes in a row, with the status of a mouse byte; `gui` tells whether the graphical context is on.
pub feed : ℕ → Bool → List ℕ → Packet → Packet
feed status gui [] p = p
feed status gui (byte ∷ bytes) p = feed status gui bytes (handle_mouse_interrupt status byte gui p)

handle-take_byte :
    (status byte : ℕ) (p : Packet)
    → bit status 0 ≡ true
    → bit status 5 ≡ true
    → handle_mouse_interrupt status byte true p ≡ take_byte byte p
unfolding handle_mouse_interrupt
handle-take_byte status byte p s0 s5 = rw (s0, s5)

-- The state after `cycle` bytes.
abbrev pub at_cycle : ℕ → (ℕ → ℕ) → Ring MouseEvent → Packet
at_cycle n packet ring = record { mouse_cycle = n; mouse_packet = packet; mouse_ring_buffer = ring }

skipped :
    (byte : ℕ) (packet : ℕ → ℕ) (ring : Ring MouseEvent)
    → bit byte 3 ≡ false
    → take_byte byte (at_cycle 0 packet ring) ≡ at_cycle 0 packet ring
unfolding take_byte
skipped byte packet ring h = rw h

started :
    (byte : ℕ) (packet : ℕ → ℕ) (ring : Ring MouseEvent)
    → bit byte 3 ≡ true
    → take_byte byte (at_cycle 0 packet ring) ≡ at_cycle 1 (write packet 0 byte) ring
unfolding take_byte
started byte packet ring h = rw h

continued :
    (byte : ℕ) (packet : ℕ → ℕ) (ring : Ring MouseEvent)
    → take_byte byte (at_cycle 1 packet ring) ≡ at_cycle 2 (write packet 1 byte) ring
unfolding take_byte
continued byte packet ring = refl

finished :
    (byte : ℕ) (packet : ℕ → ℕ) (ring : Ring MouseEvent)
    → take_byte byte (at_cycle 2 packet ring)
      ≡ at_cycle 0 (write packet 2 byte) (push (process_mouse_packet (write packet 2 byte)) ring).1
unfolding take_byte
finished byte packet ring = refl

feed_three :
    (status b0 b1 b2 : ℕ) (packet : ℕ → ℕ) (ring : Ring MouseEvent)
    → bit status 0 ≡ true
    → bit status 5 ≡ true
    → bit b0 3 ≡ true
    → feed status true (b0 ∷ b1 ∷ b2 ∷ []) (at_cycle 0 packet ring)
      ≡ at_cycle 0
          (write (write (write packet 0 b0) 1 b1) 2 b2)
          (push (process_mouse_packet (write (write (write packet 0 b0) 1 b1) 2 b2)) ring).1
unfolding feed
feed_three status b0 b1 b2 packet ring s0 s5 start =
    rw (handle-take_byte status b0 (at_cycle 0 packet ring) s0 s5, started b0 packet ring start)
      (rw (handle-take_byte status b1 (at_cycle 1 (write packet 0 b0) ring) s0 s5) (
        rw (continued b1 (write packet 0 b0) ring) (
          handle-take_byte status b2 (at_cycle 2 (write (write packet 0 b0) 1 b1) ring) s0 s5
          ∙ finished b2 (write (write packet 0 b0) 1 b1) ring)))

-- No byte of the list can start a packet.
abbrev pub Junk : List ℕ → Type 0
Junk [] = Unit {0}
Junk (byte ∷ bytes) = (bit byte 3 ≡ false) × Junk bytes

feed-Junk :
    (status : ℕ) (junk bytes : List ℕ) (packet : ℕ → ℕ) (ring : Ring MouseEvent)
    → bit status 0 ≡ true
    → bit status 5 ≡ true
    → Junk junk
    → feed status true (junk ++ bytes) (at_cycle 0 packet ring)
      ≡ feed status true bytes (at_cycle 0 packet ring)
unfolding feed
feed-Junk status [] bytes packet ring s0 s5 j = refl
feed-Junk status (byte ∷ junk) bytes packet ring s0 s5 j =
    ap (feed status true (junk ++ bytes))
      (handle-take_byte status byte (at_cycle 0 packet ring) s0 s5 ∙ skipped byte packet ring j.0)
    ∙ feed-Junk status junk bytes packet ring s0 s5 j.1

handle-terminal :
    (status byte : ℕ) (p : Packet)
    → bit status 0 ≡ true
    → bit status 5 ≡ true
    → handle_mouse_interrupt status byte false p ≡ record p { mouse_cycle = 0 }
unfolding handle_mouse_interrupt
handle-terminal status byte p s0 s5 = rw (s0, s5) refl

feed-terminal :
    (status byte : ℕ) (bytes : List ℕ) (p : Packet)
    → bit status 0 ≡ true
    → bit status 5 ≡ true
    → feed status false (byte ∷ bytes) p ≡ record p { mouse_cycle = 0 }
unfolding feed
feed-terminal status byte [] p s0 s5 = handle-terminal status byte p s0 s5
feed-terminal status byte (next ∷ bytes) p s0 s5 =
    ap (feed status false (next ∷ bytes)) (handle-terminal status byte p s0 s5)
    ∙ feed-terminal status next bytes (record p { mouse_cycle = 0 }) s0 s5

-- A move of two bytes: the low eight bits and, in the first byte of the packet, the sign, worth -256;
-- rows count downwards.
abbrev pub Decoded : ℕ → ℕ → ℕ → MouseEvent → Type 0
Decoded b0 b1 b2 event =
    (event.delta_x +ℤ pos (b0 / 16 % 2 * 256) ≡ pos b1)
    × (event.delta_y +ℤ pos b2 ≡ pos (b0 / 32 % 2 * 256))
    × (event.buttons ≡ b0)

delta-sum : (n : ℕ) (sign : Bool) → delta n sign +ℤ pos (if sign then 256 else 0) ≡ pos n
delta-sum n true = elim (Bool-cases (leb 256 n)) [
  | inl large ↦ rw large (ground arith)
  | inr byte ↦ rw byte (ground arith)
]
delta-sum n false = ground arith

neg-delta-sum : (n : ℕ) (sign : Bool) → neg (delta n sign) +ℤ pos n ≡ pos (if sign then 256 else 0)
neg-delta-sum n true = elim (Bool-cases (leb 256 n)) [
  | inl large ↦ rw large (ground arith)
  | inr byte ↦ rw byte (ground arith)
]
neg-delta-sum n false = ground arith

sign_worth : (b k : ℕ) → (if bit b k then 256 else 0) ≡ b / 2 ^ k % 2 * 256
sign_worth b k = ground arith

process_mouse_packet-Decoded :
    (b0 b1 b2 : ℕ) (packet : ℕ → ℕ)
    → Decoded b0 b1 b2 (process_mouse_packet (write (write (write packet 0 b0) 1 b1) 2 b2))
unfolding process_mouse_packet
process_mouse_packet-Decoded b0 b1 b2 packet = (
  ap (λ n. delta b1 (bit b0 4) +ℤ pos n) (sym (sign_worth b0 4)) ∙ delta-sum b1 (bit b0 4),
  neg-delta-sum b2 (bit b0 5) ∙ ap pos (sign_worth b0 5),
  refl,
)

-- In the graphical context, at the start of a packet: any mouse bytes that cannot start one are skipped,
-- and the next three push exactly one event, whose moves are the two's complement of nine bits that the
-- bytes hold, the rows counted downwards, and end at the start of a packet again. In the context of
-- the terminal any mouse bytes push nothing, and lead to the start of a packet.
pub feed-packet :
    (status b0 b1 b2 : ℕ) (junk : List ℕ) (packet : ℕ → ℕ) (ring : Ring MouseEvent)
    → bit status 0 ≡ true
    → bit status 5 ≡ true
    → Junk junk
    → bit b0 3 ≡ true
    → ((event : MouseEvent) × Decoded b0 b1 b2 event
        × ((feed status true (junk ++ b0 ∷ b1 ∷ b2 ∷ []) (at_cycle 0 packet ring)).mouse_ring_buffer
            ≡ (push event ring).1)
        × ((feed status true (junk ++ b0 ∷ b1 ∷ b2 ∷ []) (at_cycle 0 packet ring)).mouse_cycle ≡ 0))
      × ((byte : ℕ) (bytes : List ℕ) (p : Packet)
          → feed status false (byte ∷ bytes) p ≡ record p { mouse_cycle = 0 })
feed-packet status b0 b1 b2 junk packet ring s0 s5 j start =
    let e =
      feed-Junk status junk (b0 ∷ b1 ∷ b2 ∷ []) packet ring s0 s5 j
      ∙ feed_three status b0 b1 b2 packet ring s0 s5 start in
    (
      (
        process_mouse_packet (write (write (write packet 0 b0) 1 b1) 2 b2),
        process_mouse_packet-Decoded b0 b1 b2 packet,
        ap (λ p. p.mouse_ring_buffer) e,
        ap (λ p. p.mouse_cycle) e,
      ),
      λ byte bytes p. feed-terminal status byte bytes p s0 s5,
    )
