-- ===== src/Libc/Tests.antt =====
-- The theorems on the memory routines of src/libc at a concrete memory.
use swish_kernel.Prelude.{◌%◌, ◌≡◌, refl, inl, inr, some, arith, Memory, IsBytes}
use swish_kernel.Libc.{memcpy, memmove, memset, strncpy}
use swish_kernel.Libc.Range.{moved, filled}
use swish_kernel.Libc.Copy.{memcpy-moved}
use swish_kernel.Libc.Move.{memmove-moved}
use swish_kernel.Libc.Fill.{memset-filled}
use swish_kernel.Libc.Text.{IsText, padded, strncpy-padded}

-- Byte `a` of memory is `a % 256`, so the text at 250 has six bytes.
abbrev counting : Memory
counting a = a % 256

counting-IsBytes : IsBytes counting
counting-IsBytes a = omega arith

memcpy-moved_example : memcpy 3 100 104 45 counting ≡ some (moved counting 100 104 45)
memcpy-moved_example =
    memcpy-moved 3 100 104 45 counting counting-IsBytes (omega arith) (omega arith)
      (inl (omega arith)) (omega arith)

memmove-moved_example : memmove 5 104 100 45 counting ≡ some (moved counting 104 100 45)
memmove-moved_example =
    memmove-moved 5 104 100 45 counting counting-IsBytes (omega arith) (omega arith) (omega arith)
      (omega arith) (omega arith) (omega arith)

memset-filled_example : memset 3 100 300 45 counting ≡ some (filled counting 100 (300 % 256) 45)
memset-filled_example = memset-filled 3 100 300 45 counting (omega arith) (omega arith)

six-IsText : IsText counting 250 6
six-IsText = record { body = λ i lt. omega arith; terminated = refl }

strncpy-padded_example : strncpy 1000 250 10 counting ≡ padded counting 1000 250 6 10
strncpy-padded_example =
    strncpy-padded counting 1000 250 6 10 (inr (omega arith)) (omega arith) six-IsText.body
      (λ lt. refl)
