-- ===== src/Input/MouseEvents.antt =====
-- A mouse event in src/drivers/input/input.cpp.
use swish_kernel.Prelude.{
  ℕ, ◌%◌, Bool, true, false, not, ◌&&◌, List, [], ◌∷◌, ◌++◌, leb, ◌==◌, if◌then◌else◌,
}
use swish_kernel.Int.{ℤ, pos, negsuc, ltb_ℤ}
use swish_kernel.RingBuffer.{MouseEvent}
use swish_kernel.Input.Line
use swish_kernel.Input.{Call, mouse_button, mouse_move, Router, in_terminal}

-- One round of `process_mouse_events` on a screen of `width` by `height` pixels. The bits of
-- `buttons` are given as Booleans. The last of the four tests assigns `newX`.
unfoldable pub on_mouse : ℕ → ℕ → MouseEvent → Router → Router
on_mouse width height event r =
    let right = Line.to_i64 width in
    let bottom = Line.to_i64 height in
    let x0 = Line.add_i64 (Line.to_i64 r.mouse_x) event.delta_x in
    let y0 = Line.add_i64 (Line.to_i64 r.mouse_y) event.delta_y in
    let x1 = if ltb_ℤ x0 (pos 0) then pos 0 else x0 in
    let x2 : ℤ = if not (ltb_ℤ x1 right) then Line.add_i64 right (negsuc 0) else x1 in
    let y1 = if ltb_ℤ y0 (pos 0) then pos 0 else y0 in
    let x3 : ℤ = if not (ltb_ℤ y1 bottom) then Line.add_i64 bottom (negsuc 0) else x2 in
    let x : ℕ = Line.to_u64 x3 in
    let y : ℕ = Line.to_u64 y1 in
    let left_is_down : Bool = event.buttons % 2 == 1 in
    let right_is_down : Bool = leb 2 (event.buttons % 4) in
    let middle_is_down : Bool = leb 4 (event.buttons % 8) in
    let clicks : List Call =
      if left_is_down && not r.left_button_was_down
      then mouse_button x y true ∷ []
      else if not left_is_down && r.left_button_was_down
      then mouse_button x y false ∷ []
      else [] in
    record r {
      mouse_x = x;
      mouse_y = y;
      calls =
          if not (in_terminal r) && r.has_compositor
          then r.calls ++ mouse_move x y ∷ clicks
          else r.calls;
      left_button_was_down = left_is_down;
      right_button_was_down = right_is_down;
      middle_button_was_down = middle_is_down;
    }
