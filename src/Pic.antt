-- ===== src/Pic.antt =====
-- src/drivers/pic.cpp: the two interrupt controllers. Reading a port answers `inb port`, a parameter;
-- what is written is the list of port and value, in order, the waits of `io_wait` left out.
pub mod Promises
pub mod Ready
use swish_kernel.Prelude.{
  ℕ, ◌+◌, ◌-◌, ◌/◌, ◌%◌, ◌^◌, List, [], ◌∷◌, ◌++◌, ltb, leb, ◌==◌, if◌then◌else◌,
}

abbrev pub Outs : Type 0
Outs = List (ℕ × ℕ)

abbrev pub pic1_command : ℕ
pic1_command = 32

abbrev pub pic1_data : ℕ
pic1_data = 33

abbrev pub pic2_command : ℕ
pic2_command = 160

abbrev pub pic2_data : ℕ
pic2_data = 161

abbrev pub pic_eoi : ℕ
pic_eoi = 32

-- The initialization words, then the masks from before.
unfoldable pub remap : (ℕ → ℕ) → ℕ → ℕ → Outs
remap inb offset1 offset2 =
    (pic1_command, 17)
    ∷ (pic2_command, 17)
    ∷ (pic1_data, offset1 % 256)
    ∷ (pic2_data, offset2 % 256)
    ∷ (pic1_data, 4)
    ∷ (pic2_data, 2)
    ∷ (pic1_data, 1)
    ∷ (pic2_data, 1)
    ∷ (pic1_data, inb pic1_data)
    ∷ (pic2_data, inb pic2_data)
    ∷ []

unfoldable pub send_eoi : ℕ → Outs
send_eoi irq =
    (if leb 8 irq then (pic2_command, pic_eoi) ∷ [] else []) ++ (pic1_command, pic_eoi) ∷ []

abbrev pub enable : Outs
enable = (pic1_data, 248) ∷ (pic2_data, 239) ∷ []

abbrev pub disable : Outs
disable = (pic1_data, 255) ∷ (pic2_data, 255) ∷ []

-- The data port and the line of an interrupt.
abbrev pub port_of : ℕ → ℕ
port_of irq = if ltb irq 8 then pic1_data else pic2_data

abbrev pub line_of : ℕ → ℕ
line_of irq = if ltb irq 8 then irq else irq - 8

-- Bit `k` of a byte, and the byte with it set or cleared.
abbrev pub bit : ℕ → ℕ → ℕ
bit value k = value / 2 ^ k % 2

abbrev pub set_bit : ℕ → ℕ → ℕ
set_bit value k = if bit value k == 1 then value else (value + 2 ^ k) % 256

abbrev pub clear_bit : ℕ → ℕ → ℕ
clear_bit value k = if bit value k == 1 then value - 2 ^ k else value

-- For an interrupt below 16.
pub set_mask : (ℕ → ℕ) → ℕ → Outs
set_mask inb irq = (port_of irq, set_bit (inb (port_of irq)) (line_of irq)) ∷ []

pub clear_mask : (ℕ → ℕ) → ℕ → Outs
clear_mask inb irq = (port_of irq, clear_bit (inb (port_of irq)) (line_of irq)) ∷ []
