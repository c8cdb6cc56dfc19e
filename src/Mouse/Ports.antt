-- ===== src/Mouse/Ports.antt =====
-- The set-up of the mouse in src/drivers/input/mouse.cpp, on a controller that answers at the ports 0x64
-- and 0x60.
use swish_kernel.Prelude.{
  ℕ, zero, suc, ◌+◌, ◌-◌, ◌^◌, not, if◌then◌else◌, Res, done, out_of_fuel, ◌>>=◌,
}
use swish_kernel.Mouse.{bit}

-- The instructions on the ports of a device, which changes when a port is read, too.
pub record Ports (D : Type 0) : Type 0 where
  pub inb : ℕ → D → ℕ × D
  pub outb : ℕ → ℕ → D → D

abbrev pub with_bit : ℕ → ℕ → ℕ
with_bit k byte = if bit byte k then byte else byte + 2 ^ k

abbrev pub without_bit : ℕ → ℕ → ℕ
without_bit k byte = if bit byte k then byte - 2 ^ k else byte

-- The configuration byte that is written back.
unfoldable pub configured : ℕ → ℕ
configured config = without_bit 5 (without_bit 4 (with_bit 1 (with_bit 0 config)))

module _ {D : Type 0} (p : Ports D) where
  -- `while (inb(0x64) & 0x02)`: until the controller takes a byte.
  unfoldable pub wait_ready : ℕ → D → Res D
  wait_ready zero d = out_of_fuel
  wait_ready (suc fuel) d =
      let x = p.inb 100 d in let rest = wait_ready fuel x.1 in if bit x.0 1 then rest else done x.1

  -- `while (!(inb(0x64) & 0x01))`: until the controller has a byte.
  unfoldable pub wait_answer : ℕ → D → Res D
  wait_answer zero d = out_of_fuel
  wait_answer (suc fuel) d =
      let x = p.inb 100 d in
      let rest = wait_answer fuel x.1 in if not (bit x.0 0) then rest else done x.1

  -- The first loop of `initialize`, which throws away the bytes that wait.
  unfoldable pub drain : ℕ → D → Res D
  drain zero d = out_of_fuel
  drain (suc fuel) d =
      let x = p.inb 100 d in
      let rest = drain fuel (p.inb 96 x.1).1 in if bit x.0 0 then rest else done x.1

  -- A wait and the byte to the port.
  unfoldable pub send : ℕ → ℕ → ℕ → D → Res D
  send fuel port byte d = wait_ready fuel d >>= λ e. done (p.outb port byte e)

  -- `enable_ps2_mouse_interrupts`
  unfoldable pub enable_ps2_mouse_interrupts : ℕ → D → Res D
  enable_ps2_mouse_interrupts fuel d = do
    asked ← send fuel 100 32 d
    full ← wait_answer fuel asked
    let x = p.inb 96 full
    commanded ← send fuel 100 96 x.1
    send fuel 96 (configured x.0) commanded

  -- `Mouse::initialize`
  unfoldable pub initialize : ℕ → D → Res D
  initialize fuel d = do
    empty ← drain fuel d
    auxiliary ← send fuel 100 168 empty
    enabled ← enable_ps2_mouse_interrupts fuel auxiliary
    addressed ← send fuel 100 212 enabled
    reporting ← send fuel 96 244 addressed
    acknowledged ← wait_answer fuel reporting
    done (p.inb 96 acknowledged).1
