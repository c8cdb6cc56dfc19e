-- ===== src/Memory.antt =====
-- `initialize_physical_memory` of src/kernel/memory.cpp: the heap in the largest free region of memory.
pub mod Region
mod Tests
use swish_kernel.Prelude.{
  ℕ, ◌+◌, ◌%◌, Bool, ◌&&◌, Option, none, some, List, [], ◌∷◌, ltb, ◌==◌, if◌then◌else◌, size_mod,
}
use swish_kernel.Heap.{Heap, init_heap}

-- An entry of the memory map of the boot loader, and the type of a region that is free.
pub record MemmapEntry : Type 0 where
  pub base : ℕ
  pub length : ℕ
  pub type : ℕ

abbrev pub limine_memmap_usable : ℕ
limine_memmap_usable = 0

abbrev pub is_usable : MemmapEntry → Bool
is_usable e = e.type == limine_memmap_usable

-- The loop over the entries, with `highest_base` and `largest_size`.
unfoldable pub largest_region : List MemmapEntry → ℕ → ℕ → ℕ × ℕ
largest_region [] highest_base largest_size = (highest_base, largest_size)
largest_region (e ∷ entries) highest_base largest_size =
    let larger = is_usable e && ltb largest_size e.length in
    largest_region entries (if larger then e.base else highest_base)
      (if larger then e.length else largest_size)

-- `none` where the kernel stops for good. `memmap` and `hhdm` are the answers of the boot loader, if
-- any: the regions, and the offset at which all memory is mapped.
pub initialize_physical_memory : Option (List MemmapEntry) → Option ℕ → Heap → Option Heap
initialize_physical_memory none hhdm h = none
initialize_physical_memory (some entries) none h = none
initialize_physical_memory (some entries) (some hhdm_offset) h =
    let (highest_base, largest_size) = largest_region entries 0 0 in
    if ltb 0 largest_size
    then some (init_heap ((highest_base + hhdm_offset) % size_mod) largest_size h)
    else none
