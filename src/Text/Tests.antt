-- ===== src/Text/Tests.antt =====
-- Two strings of src/kernel/String.cpp on a heap of 1024 bytes.
use swish_kernel.Prelude.{
  ℕ, ◌≡◌, ◌≢◌, refl, Bool, true, false, arith, ◌==◌, if◌then◌else◌, null, write, Memory, IsBytes,
  done,
}
use swish_kernel.Heap.Tests.{
  twice, twice-Run, freed, again, lower_freed, lower_again, full, full-Run, full_exhausted,
}
use swish_kernel.Text.Owner.{OwnedString, Store, copy_string, assign_string}
use swish_kernel.Text.Copying.{Owns, Copies}
use swish_kernel.Text.Ownership.{assign_string-Copies, copy_string_exhausted}

-- "cd" at 4120 and "cat" at 4160.
abbrev texts : Memory
texts a =
    if a == 4120
    then b'c'
    else if a == 4121
    then b'd'
    else if a == 4160
    then b'c'
    else if a == 4161
    then b'a'
    else if a == 4162
    then b't'
    else 0

abbrev machine : Store
machine = record { heap = twice; memory = texts }

abbrev cd : OwnedString
cd = record { chars = 4120; length = 2 }

abbrev cat : OwnedString
cat = record { chars = 4160; length = 3 }

abbrev live : ℕ → Bool
live = write (write (λ _. false) 4120 true) 4160 true

texts-IsBytes : IsBytes texts
texts-IsBytes a = ground arith

cd-Owns : Owns live machine cd
cd-Owns = (refl, omega arith, record { body = λ i h. ground (arith, h); terminated = refl })

cat-Owns : Owns live machine cat
cat-Owns = (refl, omega arith, record { body = λ i h. ground (arith, h); terminated = refl })

assign_string-Copies_example :
    Copies 4096 1024
      (write live 4120 false)
      (record machine { heap = freed })
      cat
      4120
      (assign_string 1024 false cd cat machine)
    × ((s : OwnedString)
        → Owns live machine s
        → s.chars ≢ 4120
        → Owns (write live 4120 false) (record machine { heap = freed }) s)
assign_string-Copies_example =
    assign_string-Copies 4096 1024 (omega arith) (omega arith) (omega arith) machine cd cat 4120
      freed again (twice-Run, texts-IsBytes) cd-Owns cat-Owns (omega arith) lower_freed lower_again
      (omega arith)

-- "cat" in the only block of a heap.
abbrev only : Memory
only a = if a == 4120 then b'c' else if a == 4121 then b'a' else if a == 4122 then b't' else 0

abbrev crowded : Store
crowded = record { heap = full; memory = only }

only-IsBytes : IsBytes only
only-IsBytes a = ground arith

crowded_copy :
    copy_string 32 (record { chars = 4120; length = 3 }) crowded
    ≡ done (record { chars = null; length = 3 }, crowded)
crowded_copy =
    copy_string_exhausted 4096 32 (omega arith) (omega arith) (omega arith) crowded
      (record { chars = 4120; length = 3 }) full (full-Run, only-IsBytes)
      (refl, omega arith, record { body = λ i h. ground (arith, h); terminated = refl })
      full_exhausted
