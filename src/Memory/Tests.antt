-- ===== src/Memory/Tests.antt =====
-- A memory map with two free regions for src/kernel/memory.cpp.
use swish_kernel.Prelude.{ℕ, ◌≡◌, refl, false, some, List, [], ◌∷◌}
use swish_kernel.Heap.{Heap}
use swish_kernel.Memory.{MemmapEntry, largest_region, initialize_physical_memory}
use swish_kernel.Memory.Region.{Booted, initialize_physical_memory-Booted}

abbrev entry : ℕ → ℕ → ℕ → MemmapEntry
entry base length type = record { base = base; length = length; type = type }

abbrev memory_map : List MemmapEntry
memory_map = entry 0 4096 0 ∷ entry 4096 65536 1 ∷ entry 69632 8192 0 ∷ entry 77824 8192 0 ∷ []

abbrev blank : Heap
blank = record { free_list_head = 0; size = λ a. 0; is_free = λ a. false; next = λ a. 0 }

largest_runs : largest_region memory_map 0 0 ≡ (69632, 8192)
unfolding largest_region
largest_runs = refl

initialize_physical_memory-Booted_example :
    Booted memory_map 1048576 (initialize_physical_memory (some memory_map) (some 1048576) blank)
initialize_physical_memory-Booted_example =
    initialize_physical_memory-Booted memory_map 1048576 blank
