-- ===== src/Pic/Ready.antt =====
-- What the functions of src/drivers/pc/pic.cpp make of controllers that keep their documented promises.
use swish_kernel.Prelude.{ℕ, ◌+◌, ◌<◌, ◌%◌, ◌≡◌, ◌∙◌, true, false, arith, List, [], ◌∷◌}
use swish_kernel.Pic.{remap, enable}
use swish_kernel.Pic.Promises.{Stage, ready, Promises, run}

module _ {D : Type 0} {out : ℕ → ℕ → D → D} (p : Promises out) where
  -- The stages of the first and of the second controller.
  abbrev pub Stages : D → Stage → Stage → Type 0
  Stages d first second = (p.stage false d ≡ first) × (p.stage true d ≡ second)

  pub remap-Stages :
      (inb : ℕ → ℕ) (offset1 offset2 : ℕ) (d : D)
      → offset1 % 8 ≡ 0
      → offset2 % 8 ≡ 0
      → Stages
          (run out (remap inb offset1 offset2) d)
          (ready (offset1 % 256) (inb 33) [])
          (ready (offset2 % 256) (inb 161) [])
  unfolding run remap
  remap-Stages inb offset1 offset2 d h1 h2 =
      let d1 = out 32 17 d in
      let d2 = out 160 17 d1 in
      let d3 = out 33 (offset1 % 256) d2 in
      let d4 = out 161 (offset2 % 256) d3 in
      let d5 = out 33 4 d4 in
      let d6 = out 161 2 d5 in
      let d7 = out 33 1 d6 in
      let d8 = out 161 1 d7 in
      let d9 = out 33 (inb 33) d8 in
      let first3 =
        p.takes_base false (offset1 % 256) d2 (omega (arith, h1))
          (p.command_apart true 17 d1 ∙ p.begins false d) in
      let second4 =
        p.takes_base true (offset2 % 256) d3 (omega (arith, h2))
          (p.data_apart false (offset1 % 256) d2 ∙ p.begins true d1) in
      let first5 = p.takes_wiring false d4 (p.data_apart true (offset2 % 256) d3 ∙ first3) in
      let second6 = p.takes_wiring true d5 (p.data_apart false 4 d4 ∙ second4) in
      let first7 = p.takes_mode false d6 (p.data_apart true 2 d5 ∙ first5) in
      let second8 = p.takes_mode true d7 (p.data_apart false 1 d6 ∙ second6) in
      let first9 = p.takes_mask false (inb 33) d8 (p.data_apart true 1 d7 ∙ first7) in
      (
        p.data_apart true (inb 161) d9 ∙ first9,
        p.takes_mask true (inb 161) d9 (p.data_apart false (inb 33) d8 ∙ second8),
      )

  pub enable-Stages :
      {base1 mask1 base2 mask2 : ℕ} {serving1 serving2 : List ℕ} (d : D)
      → Stages d (ready base1 mask1 serving1) (ready base2 mask2 serving2)
      → Stages (run out enable d) (ready base1 248 serving1) (ready base2 239 serving2)
  unfolding run
  enable-Stages d (first, second) = (
    p.data_apart true 239 (out 33 248 d) ∙ p.takes_mask false 248 d first,
    p.takes_mask true 239 (out 33 248 d) (p.data_apart false 248 d ∙ second),
  )

  -- The first controller serves a line of its own, and the end of interrupt goes to it.
  pub end_first :
      (k : ℕ) {base1 mask1 base2 mask2 : ℕ} (d : D)
      → k < 8
      → Stages d (ready base1 mask1 []) (ready base2 mask2 [])
      → Stages (run out ((32, 32) ∷ []) (p.takes k d)) (ready base1 mask1 []) (ready base2 mask2 [])
  unfolding run
  end_first k d h (first, second) =
      let e = p.takes k d in
      (
        p.takes_end false e (p.takes_first k d h first),
        p.command_apart false 32 e ∙ p.first_apart k d h ∙ second,
      )

  -- Both serve a line of the second one, and the ends of interrupt go to both.
  pub end_second :
      (k : ℕ) {base1 mask1 base2 mask2 : ℕ} (d : D)
      → k < 8
      → Stages d (ready base1 mask1 []) (ready base2 mask2 [])
      → Stages
          (run out ((160, 32) ∷ (32, 32) ∷ []) (p.takes (8 + k) d))
          (ready base1 mask1 [])
          (ready base2 mask2 [])
  unfolding run
  end_second k d h (first, second) =
      let e = p.takes (8 + k) d in
      let f = out 160 32 e in
      let (serving1, serving2) = p.takes_second k d h first second in
      (
        p.takes_end false f (p.command_apart true 32 e ∙ serving1),
        p.command_apart false 32 f ∙ p.takes_end true e serving2,
      )
