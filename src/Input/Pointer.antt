-- ===== src/Input/Pointer.antt =====
-- Where a mouse event of src/drivers/input/input.cpp takes the pointer.
use mathlib.Core.Path.{subst}
use swish_kernel.Prelude.{
  sym, ℕ, ◌+◌, ◌-◌, ◌%◌, ◌^◌, ◌≤◌, ◌<◌, ◌≡◌, refl, ap, ◌∙◌, inl, inr, true, false, not, arith, ltb,
  leb, if◌then◌else◌, Bool-cases,
}
use swish_kernel.Int.{ℤ, ◌+ℤ◌, pos, negsuc, sub_ℕ, pos_part, neg_part, ltb_ℤ}
use swish_kernel.RingBuffer.{MouseEvent}
use swish_kernel.Input.{Router}
use swish_kernel.Input.MouseEvents.{on_mouse}
use swish_kernel.Input.Line.{to_u64, to_i64, add_i64}

-- A coordinate that is not negative.
abbrev floored : ℤ → ℤ
floored z = if ltb_ℤ z (pos 0) then pos 0 else z

floored_lem : (a b : ℕ) → floored (sub_ℕ a b) ≡ pos (a - b)
floored_lem a b = elim (Bool-cases (leb b a)) [
  | inl up ↦ rw up (ground arith)
  | inr down ↦ let e : a - b ≡ 0 = ground arith in rw (down, e) (ground arith)
]

to_i64-pos : (n : ℕ) → n < 2 ^ 63 → to_i64 n ≡ pos n
to_i64-pos n h =
    let same : n % 2 ^ 64 ≡ n = omega arith in
    let low : ltb n (2 ^ 63) ≡ true = ground arith in rw (same, low) refl

-- A difference that has 63 bits does not wrap around.
to_i64-sub : (a b : ℕ) → a < 2 ^ 63 → b < 2 ^ 63 → to_i64 (to_u64 (sub_ℕ a b)) ≡ sub_ℕ a b
to_i64-sub a b ha hb = elim (Bool-cases (leb b a)) [
  | inl up ↦
      let same : (a - b) % 2 ^ 64 ≡ a - b = omega arith in
      rw (up, same) (to_i64-pos (a - b) (omega arith))
  | inr down ↦
      let less : a < b = ground arith in
      let same : (b - a - 1) % 2 ^ 64 ≡ b - a - 1 = omega arith in
      let bits : (2 ^ 64 - 1 - (b - a - 1)) % 2 ^ 64 ≡ 2 ^ 64 - 1 - (b - a - 1) = omega arith in
      let high : ltb (2 ^ 64 - 1 - (b - a - 1)) (2 ^ 63) ≡ false = ground arith in
      let back : 2 ^ 64 - 1 - (2 ^ 64 - 1 - (b - a - 1)) ≡ b - a - 1 = omega arith in
      rw (down, same, bits, high, back) refl
]

-- A position and a move that leave room in 63 bits.
abbrev pub IsSmall : ℕ → ℤ → Type 0
IsSmall n delta = (n < 2 ^ 62) × (pos_part delta < 2 ^ 15) × (neg_part delta ≤ 2 ^ 15)

add_i64-small : (n : ℕ) (delta : ℤ) → IsSmall n delta → add_i64 (to_i64 n) delta ≡ pos n +ℤ delta
add_i64-small n delta (hn, hp, hm) =
    ap (λ z. add_i64 z delta) (to_i64-pos n (omega arith))
    ∙ to_i64-sub (n + pos_part delta) (0 + neg_part delta) (omega arith) (omega arith)

last_lem : (n : ℕ) → 0 < n → n < 2 ^ 62 → to_u64 (add_i64 (pos n) (negsuc 0)) ≡ n - 1
last_lem n h small =
    let up : leb 1 n ≡ true = ground arith in
    ap to_u64 (to_i64-sub (n + 0) (0 + 1) (omega arith) (omega arith)) ∙ ground arith

-- The coordinate that the event asks for, at least 0.
abbrev pub asked : ℕ → ℤ → ℕ
asked from delta = from + pos_part delta - neg_part delta

abbrev pub below : ℕ → ℕ → ℕ
below n bound = if ltb n bound then n else bound - 1

floored-asked : (n : ℕ) (delta : ℤ) → floored (pos n +ℤ delta) ≡ pos (asked n delta)
floored-asked n delta = floored_lem (n + pos_part delta) (0 + neg_part delta) ∙ ap pos (omega arith)

-- The column, for a row and a column that are at least 0: past the last row it becomes a row.
abbrev column : ℤ → ℤ → ℤ → ℤ → ℤ
column right bottom y x =
    if not (ltb_ℤ y bottom)
    then add_i64 bottom (negsuc 0)
    else if not (ltb_ℤ x right)
    then add_i64 right (negsuc 0)
    else x

column_lem :
    (width height y x : ℕ)
    → 0 < width
    → 0 < height
    → width < 2 ^ 62
    → height < 2 ^ 62
    → to_u64 (column (pos width) (pos height) (pos y) (pos x))
      ≡ (if ltb y height then below x width else height - 1)
column_lem width height y x hw hh sw sh = elim (Bool-cases (ltb y height)) [
  | inl on ↦
      let e : ltb_ℤ (pos y) (pos height) ≡ true = ground arith in
      elim (Bool-cases (ltb x width)) [
        | inl left ↦
            let f : ltb_ℤ (pos x) (pos width) ≡ true = ground arith in
            rw (on, e, left, f) (ground arith)
        | inr right ↦
            let f : ltb_ℤ (pos x) (pos width) ≡ false = ground arith in
            rw (on, e, right, f) (last_lem width hw sw)
      ]
  | inr off ↦
      let e : ltb_ℤ (pos y) (pos height) ≡ false = ground arith in
      rw (off, e) (last_lem height hh sh)
]

below-lt : (n bound : ℕ) → 0 < bound → below n bound < bound
below-lt n bound h = ground arith

cut-lt :
    (width height x y : ℕ)
    → 0 < width
    → 0 < height
    → (if ltb y height then below x width else height - 1)
      < (if leb height width then width else height)
cut-lt width height x y hw hh = ground (arith, below-lt x width hw)

module _ (width height : ℕ) (event : MouseEvent) (r : Router) where
  -- A mouse event on a screen that is not empty moves the pointer to the row that it asks for, at least 0,
  -- and, where that row is on the screen, to the column that it asks for, cut to the screen; past the
  -- last row the row is kept and the column becomes the number of the last row. The column stays below
  -- the larger side of the screen. The moves have 16 bits, and the sides of the screen and the pointer
  -- are below 2^62.
  pub on_mouse-asked :
      0 < width
      → 0 < height
      → width < 2 ^ 62
      → height < 2 ^ 62
      → IsSmall r.mouse_x event.delta_x
      → IsSmall r.mouse_y event.delta_y
      → ((on_mouse width height event r).mouse_y ≡ asked r.mouse_y event.delta_y)
        × ((on_mouse width height event r).mouse_x ≡ (
            if ltb (asked r.mouse_y event.delta_y) height
            then below (asked r.mouse_x event.delta_x) width
            else height - 1))
        × ((on_mouse width height event r).mouse_x < (if leb height width then width else height))
  unfolding on_mouse
  on_mouse-asked hw hh sw sh small_x small_y =
      let ex =
        ap floored (add_i64-small r.mouse_x event.delta_x small_x)
        ∙ floored-asked r.mouse_x event.delta_x in
      let ey =
        ap floored (add_i64-small r.mouse_y event.delta_y small_y)
        ∙ floored-asked r.mouse_y event.delta_y in
      let right = to_i64-pos width (omega (arith, sw)) in
      let bottom = to_i64-pos height (omega (arith, sh)) in
      let x = asked r.mouse_x event.delta_x in
      let y = asked r.mouse_y event.delta_y in
      let at : (on_mouse width height event r).mouse_x
          ≡ (if ltb y height then below x width else height - 1) =
        (λ i. to_u64 (column (right i) (bottom i) (ey i) (ex i)))
        ∙ column_lem width height y x hw hh sw sh in
      (
        ap to_u64 ey ∙ omega (arith, small_y.0, small_y.1),
        at,
        subst (λ n. n < (if leb height width then width else height)) (sym at)
            (cut-lt width height x y hw hh),
      )
