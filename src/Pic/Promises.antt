-- ===== src/Pic/Promises.antt =====
-- What the two interrupt controllers behind src/drivers/pc/pic.cpp are documented to do with the bytes
-- that are written to their ports.
use swish_kernel.Prelude.{
  ℕ, ◌+◌, ◌%◌, ◌<◌, ◌≤◌, ◌≡◌, ◌≢◌, Bool, true, false, not, Option, none, some, List, [], ◌∷◌, ◌++◌,
  refl, ◌==◌, if◌then◌else◌,
}
use swish_kernel.Pic.{Outs, pic1_command, pic1_data, pic2_command, pic2_data, pic_eoi, bit}

-- A controller that is being set up waits for the first of its vectors, for its wiring and for its mode;
-- then it has its first vector, its mask, and its lines in service, the one of the highest priority first.
pub data Stage : Type 0 where
  awaits_base : Stage
  awaits_wiring : ℕ → Stage
  awaits_mode : ℕ → Stage
  ready : ℕ → ℕ → List ℕ → Stage

-- The ports of the second controller or of the first one.
abbrev pub command : Bool → ℕ
command second = if second then pic2_command else pic1_command

abbrev pub data_port : Bool → ℕ
data_port second = if second then pic2_data else pic1_data

-- The second one is at line 2 of the first one.
abbrev pub wiring : Bool → ℕ
wiring second = if second then 2 else 4

-- The vector of a line that the mask lets through.
abbrev pub let_through : ℕ → ℕ → ℕ → Option ℕ
let_through base mask k = if bit mask k == 0 then some (base + k) else none

-- An end of interrupt takes the line of the highest priority out of service.
abbrev pub ended : List ℕ → List ℕ
ended [] = []
ended (k ∷ serving) = serving

-- `raises line d` is the vector at which the line interrupts the processor, if it can, and
-- `takes line d` the controllers once the processor has taken it. A line in service keeps those of its
-- own and of a lower priority from interrupting; the set-up starts with no line in service.
pub record Promises {D : Type 0} (out : ℕ → ℕ → D → D) : Type 0 where
  pub stage : Bool → D → Stage
  pub raises : ℕ → D → Option ℕ
  pub takes : ℕ → D → D
  pub begins : (c : Bool) (d : D) → stage c (out (command c) 17 d) ≡ awaits_base
  pub takes_base :
      (c : Bool) (base : ℕ) (d : D)
      → base % 8 ≡ 0
      → stage c d ≡ awaits_base
      → stage c (out (data_port c) base d) ≡ awaits_wiring base
  pub takes_wiring :
      (c : Bool) {base : ℕ} (d : D)
      → stage c d ≡ awaits_wiring base
      → stage c (out (data_port c) (wiring c) d) ≡ awaits_mode base
  pub takes_mode :
      (c : Bool) {base : ℕ} (d : D)
      → stage c d ≡ awaits_mode base
      → stage c (out (data_port c) 1 d) ≡ ready base 0 []
  pub takes_mask :
      (c : Bool) (mask : ℕ) {base old : ℕ} {serving : List ℕ} (d : D)
      → stage c d ≡ ready base old serving
      → stage c (out (data_port c) mask d) ≡ ready base mask serving
  pub takes_end :
      (c : Bool) {base mask : ℕ} {serving : List ℕ} (d : D)
      → stage c d ≡ ready base mask serving
      → stage c (out (command c) pic_eoi d) ≡ ready base mask (ended serving)
  pub command_apart :
      (c : Bool) (byte : ℕ) (d : D) → stage (not c) (out (command c) byte d) ≡ stage (not c) d
  pub data_apart :
      (c : Bool) (byte : ℕ) (d : D) → stage (not c) (out (data_port c) byte d) ≡ stage (not c) d
  pub raises_first :
      (k : ℕ) {base mask : ℕ} (d : D)
      → k < 8
      → k ≢ 2
      → stage false d ≡ ready base mask []
      → raises k d ≡ let_through base mask k
  pub raises_cascade : (d : D) → raises 2 d ≡ none
  pub raises_second :
      (k : ℕ) {base mask base' mask' : ℕ} (d : D)
      → k < 8
      → stage false d ≡ ready base mask []
      → bit mask 2 ≡ 0
      → stage true d ≡ ready base' mask' []
      → raises (8 + k) d ≡ let_through base' mask' k
  pub blocks :
      (k j : ℕ) {base mask : ℕ} {serving : List ℕ} (d : D)
      → k < 8
      → j ≤ k
      → stage false d ≡ ready base mask (j ∷ serving)
      → raises k d ≡ none
  pub takes_first :
      (k : ℕ) {base mask : ℕ} (d : D)
      → k < 8
      → stage false d ≡ ready base mask []
      → stage false (takes k d) ≡ ready base mask (k ∷ [])
  pub first_apart : (k : ℕ) (d : D) → k < 8 → stage true (takes k d) ≡ stage true d
  pub takes_second :
      (k : ℕ) {base mask base' mask' : ℕ} (d : D)
      → k < 8
      → stage false d ≡ ready base mask []
      → stage true d ≡ ready base' mask' []
      → (stage false (takes (8 + k) d) ≡ ready base mask (2 ∷ []))
        × (stage true (takes (8 + k) d) ≡ ready base' mask' (k ∷ []))

-- The writes, one after another.
unfoldable pub run : {D : Type 0} → (ℕ → ℕ → D → D) → Outs → D → D
run out [] d = d
run out (x ∷ rest) d = run out rest (out x.0 x.1 d)

pub run-append :
    {D : Type 0} (out : ℕ → ℕ → D → D) (xs ys : Outs) (d : D)
    → run out (xs ++ ys) d ≡ run out ys (run out xs d)
unfolding run
run-append out [] ys d = refl
run-append out (x ∷ xs) ys d = run-append out xs ys (out x.0 x.1 d)
