-- ===== src/Idt.antt =====
-- src/arch/x86_64/idt.cpp: the interrupt descriptor table. The table is a function of the vector, and
-- the addresses of the assembly stubs are a parameter.
pub mod Gates
use swish_kernel.Prelude.{
  ℕ, ◌+◌, ◌-◌, ◌*◌, ◌/◌, ◌%◌, ◌^◌, Bool, true, false, ◌==◌, if◌then◌else◌, write,
}

-- The bit fields of the attribute byte.
pub record IdtFlags : Type 0 where
  pub gate_type : ℕ
  pub storage : ℕ
  pub dpl : ℕ
  pub present : ℕ

-- `idt_flags(gate_type, dpl, present)`; the fields have 4, 2 and 1 bits.
pub make_flags : ℕ → ℕ → Bool → IdtFlags
make_flags gate_type dpl present = record {
  gate_type = gate_type % 2 ^ 4;
  storage = 0;
  dpl = dpl % 2 ^ 2;
  present = if present then 1 else 0;
}

-- `idt_flags(val)`
pub of_byte : ℕ → IdtFlags
of_byte val = record {
  gate_type = val % 2 ^ 4;
  storage = val / 2 ^ 4 % 2;
  dpl = val / 2 ^ 5 % 2 ^ 2;
  present = val / 2 ^ 7 % 2;
}

-- `operator=` clears the storage bit.
pub assign : ℕ → IdtFlags
assign value = record {
  gate_type = value % 2 ^ 4;
  storage = 0;
  dpl = value / 2 ^ 5 % 2 ^ 2;
  present = value / 2 ^ 7 % 2;
}

-- `operator uint8_t`
pub to_byte : IdtFlags → ℕ
to_byte f = f.gate_type + f.storage * 2 ^ 4 + f.dpl * 2 ^ 5 + f.present * 2 ^ 7

pub kernel_interrupt : IdtFlags
kernel_interrupt = make_flags 14 0 true

pub user_trap : IdtFlags
user_trap = make_flags 15 3 true

pub record IdtEntry : Type 0 where
  pub isr_low : ℕ
  pub kernel_cs : ℕ
  pub ist : ℕ
  pub reserved0 : ℕ
  pub attributes : IdtFlags
  pub isr_mid : ℕ
  pub isr_high : ℕ
  pub reserved1 : ℕ

abbrev pub Idt : Type 0
Idt = ℕ → IdtEntry

-- The entry that `set_descriptor` writes.
pub descriptor : ℕ → IdtFlags → IdtEntry
descriptor isr flags = record {
  isr_low = isr % 2 ^ 16;
  kernel_cs = 40;
  ist = 0;
  reserved0 = 0;
  attributes = flags;
  isr_mid = isr / 2 ^ 16 % 2 ^ 16;
  isr_high = isr / 2 ^ 32 % 2 ^ 32;
  reserved1 = 0;
}

unfoldable pub set_descriptor : ℕ → ℕ → IdtFlags → Idt → Idt
set_descriptor vector isr flags idt = write idt vector (descriptor isr flags)

-- The vectors that `IDT::initialize` sets, for the stubs `isr`.
pub initialize : (ℕ → ℕ) → Idt → Idt
initialize isr idt = set_descriptor 44 (isr 44) kernel_interrupt (
    set_descriptor 33 (isr 33) kernel_interrupt (
      set_descriptor 32 (isr 32) kernel_interrupt (
        set_descriptor 14 (isr 14) kernel_interrupt (
          set_descriptor 13 (isr 13) kernel_interrupt (
            set_descriptor 8 (isr 8) kernel_interrupt
              (set_descriptor 0 (isr 0) kernel_interrupt idt))))))

-- `idtr.limit`, for entries of 16 bytes.
abbrev pub idtr_limit : ℕ
idtr_limit = 16 * 256 - 1
