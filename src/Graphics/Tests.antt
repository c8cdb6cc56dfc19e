-- ===== src/Graphics/Tests.antt =====
-- Drawing over the edge of a small surface, after src/gui/Graphics.cpp.
use swish_kernel.Heap.Tests.{fresh, once, pair, fresh-Run, first_block, second_block}
use swish_kernel.Text.Owner.{Store}
use swish_kernel.Graphics.Buffers.{Framebuffer, TwoBuffers, initialize, initialize-TwoBuffers}
use swish_kernel.Prelude.{[], ◌∷◌, arith, false, if◌then◌else◌}
use swish_kernel.Graphics.{Color, Surface, get_bytes, draw_rect_filled, draw_string}
use swish_kernel.Graphics.Paint.{IsSurface, Painted, inside, draw_rect_filled-Painted}
use swish_kernel.Graphics.Clip.{Clipped, draw_string-Clipped}

abbrev teal : Color
teal = record { r = 0; g = 128; b = 128; a = 255 }

abbrev small : Surface
small = record {
  pixels = λ p. 0;
  buffer = 4096;
  width = 10;
  height = 20;
  pitch = 40;
  background = teal;
}

small-IsSurface : IsSurface small
small-IsSurface = (omega arith, omega arith, omega arith, omega arith)

draw_rect_filled-Painted_example :
    Painted small
      (draw_rect_filled 8 18 5 5 teal small)
      (λ a b v. if inside 8 18 5 5 a b then get_bytes teal else v)
draw_rect_filled-Painted_example =
    draw_rect_filled-Painted 8 18 5 5 teal small small-IsSurface (omega arith) (omega arith)
      (omega arith) (omega arith)

draw_string-Clipped_example :
    Clipped small (draw_string (λ index cx. 255) 6 10 (b'o' ∷ b'k' ∷ []) teal small)
draw_string-Clipped_example =
    draw_string-Clipped (λ index cx. 255) 6 10 (b'o' ∷ b'k' ∷ []) teal small

-- A frame buffer of 2 by 2 pixels.
abbrev little : Framebuffer
little = record { address = 65536; width = 2; height = 2; pitch = 8 }

abbrev booted : Store
booted = record { heap = fresh; memory = λ a. 7 }

initialize-TwoBuffers_example :
    TwoBuffers 4096 1024 (λ _. false) 16 little 4120 4160 (initialize 1024 little booted)
initialize-TwoBuffers_example =
    initialize-TwoBuffers 4096 1024 (omega arith) (omega arith) (omega arith) booted little 4120
      4160 once pair fresh-Run (omega arith) (omega arith) (omega arith) (omega arith) (omega arith)
      first_block (omega arith) second_block (omega arith)
