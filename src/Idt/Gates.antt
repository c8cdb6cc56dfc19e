-- ===== src/Idt/Gates.antt =====
-- What the processor reads from the table of src/arch/x86_64/idt.cpp.
use swish_kernel.Prelude.{
  ℕ, Bool, ◌||◌, ◌==◌, if◌then◌else◌, ◌+◌, ◌*◌, ◌/◌, ◌%◌, ◌^◌, ◌<◌, ◌≡◌, ◌≢◌, arith, write_self,
  write_ne, refl, sym, ap, ◌∙◌, inl, inr, Bool-cases,
}
use swish_kernel.Idt.{
  IdtFlags, of_byte, assign, to_byte, kernel_interrupt, IdtEntry, Idt, descriptor, set_descriptor,
  initialize,
}

-- The address that the processor puts together from an entry.
pub target : IdtEntry → ℕ
target e = e.isr_low + e.isr_mid * 2 ^ 16 + e.isr_high * 2 ^ 32

descriptor-target :
    (isr : ℕ) (flags : IdtFlags) → isr < 2 ^ 64 → target (descriptor isr flags) ≡ isr
unfolding target descriptor
descriptor-target isr flags h = omega arith

attributes_of : (isr : ℕ) (flags : IdtFlags) → (descriptor isr flags).attributes ≡ flags
unfolding descriptor
attributes_of isr flags = refl

-- After `set_descriptor` an interrupt of that vector goes to the given address with the given
-- attributes, and every other vector is as before.
pub set_descriptor_lem :
    (vector isr : ℕ) (flags : IdtFlags) (idt : Idt)
    → isr < 2 ^ 64
    → (target (set_descriptor vector isr flags idt vector) ≡ isr)
      × ((set_descriptor vector isr flags idt vector).attributes ≡ flags)
      × ((v : ℕ) → v ≢ vector → set_descriptor vector isr flags idt v ≡ idt v)
unfolding set_descriptor
set_descriptor_lem vector isr flags idt h = (
  ap target (write_self idt vector (descriptor isr flags)) ∙ descriptor-target isr flags h,
  ap (λ e. e.attributes) (write_self idt vector (descriptor isr flags)) ∙ attributes_of isr flags,
  λ v ne. write_ne idt vector v (descriptor isr flags) (λ e. ne (sym e)),
)

-- The attribute byte comes back from its fields; `operator=` loses the storage bit and no other.
pub to_byte-of_byte :
    (val : ℕ)
    → val < 256
    → (to_byte (of_byte val) ≡ val) × (to_byte (assign val) + val / 16 % 2 * 16 ≡ val)
unfolding to_byte of_byte assign
to_byte-of_byte val h = (omega arith, omega arith)

-- The vectors that have a stub.
abbrev pub has_stub : ℕ → Bool
has_stub v = v == 0 || (v == 8 || (v == 13 || (v == 14 || (v == 32 || (v == 33 || v == 44)))))

-- `IDT::initialize` sets the gates of these vectors and of no other.
initialize_lem :
    (isr : ℕ → ℕ) (idt : Idt) (v : ℕ)
    → initialize isr idt v ≡ (if has_stub v then descriptor (isr v) kernel_interrupt else idt v)
unfolding initialize set_descriptor
initialize_lem isr idt v = ground arith

pub target-initialize :
    (isr : ℕ → ℕ) (idt : Idt) (v : ℕ)
    → isr v < 2 ^ 64
    → target (initialize isr idt v) ≡ (if has_stub v then isr v else target (idt v))
target-initialize isr idt v h = elim (Bool-cases (has_stub v)) [
  | inl e ↦ rw (initialize_lem isr idt v, e) (descriptor-target (isr v) kernel_interrupt h)
  | inr e ↦ rw (initialize_lem isr idt v, e) refl
]

pub attributes-initialize :
    (isr : ℕ → ℕ) (idt : Idt) (v : ℕ)
    → (initialize isr idt v).attributes
      ≡ (if has_stub v then kernel_interrupt else (idt v).attributes)
attributes-initialize isr idt v = elim (Bool-cases (has_stub v)) [
  | inl e ↦ rw (initialize_lem isr idt v, e) (attributes_of (isr v) kernel_interrupt)
  | inr e ↦ rw (initialize_lem isr idt v, e) refl
]
