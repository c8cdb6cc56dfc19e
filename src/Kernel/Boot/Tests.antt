-- ===== src/Kernel/Boot/Tests.antt =====
-- Controllers that keep the promises, and the interrupts of src/main.cpp on them.
use swish_kernel.Prelude.{
  ℕ, ◌+◌, ◌*◌, ◌-◌, ◌^◌, ◌<◌, ◌≤◌, ◌≡◌, ◌≢◌, refl, ap, ◌∙◌, Bool, true, false, not, ◌&&◌, arith,
  List, [], ◌∷◌, Option, none, ltb, leb, ◌==◌, if◌then◌else◌, Bool-cases, inl, inr,
}
use swish_kernel.Idt.{IdtEntry}
use swish_kernel.Interrupts.{Machine}
use swish_kernel.Interrupts.Tests.{idle}
use swish_kernel.Kernel.Boot.{interrupts_on, switched_on as boot_on}
use swish_kernel.Pic.{bit, remap}
use swish_kernel.Pic.Promises.{
  Stage, awaits_base, awaits_wiring, awaits_mode, ready, command, data_port, wiring, let_through,
  ended, Promises, run,
}
use swish_kernel.Mouse.{handle_mouse_interrupt}

record Controllers : Type 0 where
  first : Stage
  second : Stage

abbrev on_command : ℕ → Stage → Stage
on_command byte (ready base mask serving) =
    if byte == 17 then awaits_base else ready base mask (ended serving)
on_command byte awaits_base = awaits_base
on_command byte (awaits_wiring base) = if byte == 17 then awaits_base else awaits_wiring base
on_command byte (awaits_mode base) = if byte == 17 then awaits_base else awaits_mode base

abbrev on_data : ℕ → Stage → Stage
on_data byte awaits_base = awaits_wiring byte
on_data byte (awaits_wiring base) = awaits_mode base
on_data byte (awaits_mode base) = ready base 0 []
on_data byte (ready base _ serving) = ready base byte serving

abbrev out : ℕ → ℕ → Controllers → Controllers
out port byte d =
    if port == 32
    then record d { first = on_command byte d.first }
    else if port == 33
    then record d { first = on_data byte d.first }
    else if port == 160
    then record d { second = on_command byte d.second }
    else if port == 161
    then record d { second = on_data byte d.second }
    else d

abbrev stage : Bool → Controllers → Stage
stage second d = if second then d.second else d.first

-- The lines in service of a controller keep one of a lower priority, or of the same, from it.
abbrev offers : Stage → ℕ → Option ℕ
offers (ready base mask []) k = let_through base mask k
offers (ready base mask (j ∷ _)) k = if leb j k then none else let_through base mask k
offers awaits_base k = none
offers (awaits_wiring _) k = none
offers (awaits_mode _) k = none

abbrev passes_on : Stage → Bool
passes_on (ready _ mask []) = bit mask 2 == 0
passes_on (ready _ mask (j ∷ _)) = not (leb j 2) && bit mask 2 == 0
passes_on awaits_base = false
passes_on (awaits_wiring _) = false
passes_on (awaits_mode _) = false

abbrev raises : ℕ → Controllers → Option ℕ
raises line d =
    if line == 2
    then none
    else if ltb line 8
    then offers d.first line
    else if passes_on d.first
    then offers d.second (line - 8)
    else none

abbrev with_served : ℕ → Stage → Stage
with_served k (ready base mask serving) = ready base mask (k ∷ serving)
with_served k awaits_base = awaits_base
with_served k (awaits_wiring base) = awaits_wiring base
with_served k (awaits_mode base) = awaits_mode base

abbrev takes : ℕ → Controllers → Controllers
takes line d =
    if ltb line 8
    then record d { first = with_served line d.first }
    else record { first = with_served 2 d.first; second = with_served (line - 8) d.second }

on_command-begins : (s : Stage) → on_command 17 s ≡ awaits_base
on_command-begins awaits_base = refl
on_command-begins (awaits_wiring _) = refl
on_command-begins (awaits_mode _) = refl
on_command-begins (ready _ _ _) = refl

on_command_lem :
    (c : Bool) (byte : ℕ) (d : Controllers)
    → stage c (out (command c) byte d) ≡ on_command byte (stage c d)
on_command_lem true byte d = refl
on_command_lem false byte d = refl

on_data_lem :
    (c : Bool) (byte : ℕ) (d : Controllers)
    → stage c (out (data_port c) byte d) ≡ on_data byte (stage c d)
on_data_lem true byte d = refl
on_data_lem false byte d = refl

command_apart :
    (c : Bool) (byte : ℕ) (d : Controllers)
    → stage (not c) (out (command c) byte d) ≡ stage (not c) d
command_apart true byte d = refl
command_apart false byte d = refl

data_apart :
    (c : Bool) (byte : ℕ) (d : Controllers)
    → stage (not c) (out (data_port c) byte d) ≡ stage (not c) d
data_apart true byte d = refl
data_apart false byte d = refl

raises_first :
    (k : ℕ) {base mask : ℕ} (d : Controllers)
    → k < 8
    → k ≢ 2
    → d.first ≡ ready base mask []
    → raises k d ≡ let_through base mask k
raises_first k d h ne e =
    let not_two : (k == 2) ≡ false = ground arith in
    let first : ltb k 8 ≡ true = ground arith in rw (not_two, first, e) refl

raises_second :
    (k : ℕ) {base mask base' mask' : ℕ} (d : Controllers)
    → k < 8
    → d.first ≡ ready base mask []
    → bit mask 2 ≡ 0
    → d.second ≡ ready base' mask' []
    → raises (8 + k) d ≡ let_through base' mask' k
raises_second k d h e open_line e' =
    let not_two : (8 + k == 2) ≡ false = ground arith in
    let not_first : ltb (8 + k) 8 ≡ false = ground arith in
    let back : 8 + k - 8 ≡ k = omega arith in rw (not_two, not_first, e, open_line, e', back) refl

blocks :
    (k j : ℕ) {base mask : ℕ} {serving : List ℕ} (d : Controllers)
    → k < 8
    → j ≤ k
    → d.first ≡ ready base mask (j ∷ serving)
    → raises k d ≡ none
blocks k j d h le e = elim (Bool-cases (k == 2)) [
  | inl two ↦ rw two refl
  | inr other ↦
      let first : ltb k 8 ≡ true = ground arith in
      let not_above : leb j k ≡ true = ground arith in rw (other, first, e, not_above) refl
]

takes_first :
    (k : ℕ) {base mask : ℕ} (d : Controllers)
    → k < 8
    → d.first ≡ ready base mask []
    → (takes k d).first ≡ ready base mask (k ∷ [])
takes_first k d h e = let first : ltb k 8 ≡ true = ground arith in rw (first, e) refl

first_apart : (k : ℕ) (d : Controllers) → k < 8 → (takes k d).second ≡ d.second
first_apart k d h = let first : ltb k 8 ≡ true = ground arith in rw first refl

takes_second :
    (k : ℕ) {base mask base' mask' : ℕ} (d : Controllers)
    → k < 8
    → d.first ≡ ready base mask []
    → d.second ≡ ready base' mask' []
    → ((takes (8 + k) d).first ≡ ready base mask (2 ∷ []))
      × ((takes (8 + k) d).second ≡ ready base' mask' (k ∷ []))
takes_second k d h e e' =
    let not_first : ltb (8 + k) 8 ≡ false = ground arith in
    let back : 8 + k - 8 ≡ k = omega arith in rw (not_first, e, e', back) (refl, refl)

promises : Promises out
promises = record {
  stage = stage;
  raises = raises;
  takes = takes;
  begins = λ c d. on_command_lem c 17 d ∙ on_command-begins (stage c d);
  takes_base = λ c base d m h. on_data_lem c base d ∙ ap (on_data base) h;
  takes_wiring = λ c d h. on_data_lem c (wiring c) d ∙ ap (on_data (wiring c)) h;
  takes_mode = λ c d h. on_data_lem c 1 d ∙ ap (on_data 1) h;
  takes_mask = λ c mask d h. on_data_lem c mask d ∙ ap (on_data mask) h;
  takes_end = λ c d h. on_command_lem c 32 d ∙ ap (on_command 32) h;
  command_apart = command_apart;
  data_apart = data_apart;
  raises_first = raises_first;
  raises_cascade = λ d. refl;
  raises_second = raises_second;
  blocks = blocks;
  takes_first = takes_first;
  first_apart = first_apart;
  takes_second = takes_second;
}

-- Before the set-up the controllers have the vectors of the exceptions.
abbrev switched_on : Controllers
switched_on = record { first = ready 8 255 []; second = ready 112 255 [] }

abbrev no_gate : IdtEntry
no_gate = record {
  isr_low = 0;
  kernel_cs = 0;
  ist = 0;
  reserved0 = 0;
  attributes = record { gate_type = 0; storage = 0; dpl = 0; present = 0 };
  isr_mid = 0;
  isr_high = 0;
  reserved1 = 0;
}

abbrev stub : ℕ → ℕ
stub v = 2 ^ 40 + 16 * v

-- The controllers that are set up, and then once the mouse was served.
abbrev set_up : Controllers
set_up = run out (interrupts_on (λ _. 255)) switched_on

abbrev served : Machine
served = record idle {
  mouse = handle_mouse_interrupt 255 255 false idle.mouse;
  outs = (160, 32) ∷ (32, 32) ∷ [];
}

-- Without the end of interrupt it does not come again.
mouse_blocked : raises 12 (takes 12 set_up) ≡ none
unfolding run interrupts_on remap
mouse_blocked = refl
