-- ===== src/Heap.antt =====
-- The kernel heap of src/kernel/memory.cpp: headers of 24 bytes in front of the memory they
-- describe, linked from `free_list_head`. Only headers are state here; what clients write into
-- their blocks is not. The loops run on fuel, and `none` is a loop that ran out of it.
pub mod Reached
pub mod Coalesce
pub mod SizeOf
pub mod Tiles
pub mod Place
pub mod Alloc
pub mod Free
pub mod Usage
pub mod Trace
pub mod Sizes
pub mod RoundTrip
pub mod Tests
use swish_kernel.Prelude.{
  ℕ, zero, suc, ◌+◌, ◌-◌, ◌%◌, Bool, true, false, ◌&&◌, Option, none, some, ltb, leb, ◌==◌,
  if◌then◌else◌, null, write, size_mod,
}

-- The headers, field by field, at the addresses where they lie.
pub record Heap : Type 0 where
  pub free_list_head : ℕ
  pub size : ℕ → ℕ
  pub is_free : ℕ → Bool
  pub next : ℕ → ℕ

-- sizeof(MemoryBlock)
abbrev pub header : ℕ
header = 24

-- Unsigned 64-bit addition and subtraction.
abbrev pub add_size : ℕ → ℕ → ℕ
add_size a b = (a + b) % size_mod

abbrev pub sub_size : ℕ → ℕ → ℕ
sub_size a b = (a + size_mod - b) % size_mod

-- `x & ~7` drops what `x` has beyond a multiple of 8.
unfoldable pub align_8 : ℕ → ℕ
align_8 size = let s = add_size size 7 in s - s % 8

pub init_heap : ℕ → ℕ → Heap → Heap
init_heap heap_start heap_size h = if ltb heap_size header then h else record {
  free_list_head = heap_start;
  size = write h.size heap_start (sub_size heap_size header);
  is_free = write h.is_free heap_start true;
  next = write h.next heap_start null;
}

-- The new header behind `aligned_size` bytes of the block at `current`.
abbrev pub split : ℕ → ℕ → Heap → Heap
split current aligned_size h =
    let new_block = add_size (add_size current header) aligned_size in
    record h {
      size =
          write (write h.size new_block (sub_size (sub_size (h.size current) aligned_size) header))
            current aligned_size;
      is_free = write h.is_free new_block true;
      next = write (write h.next new_block (h.next current)) current new_block;
    }

-- The body of `kmalloc` once a block is found.
pub place : ℕ → ℕ → Heap → ℕ × Heap
place current aligned_size h =
    let h' : Heap =
      if leb (add_size (add_size aligned_size header) 8) (h.size current)
      then split current aligned_size h
      else h in
    (add_size current header, record h' { is_free = write h'.is_free current false })

pub kmalloc_loop : ℕ → ℕ → ℕ → Heap → Option (ℕ × Heap)
kmalloc_loop zero current aligned_size h = none
kmalloc_loop (suc fuel) current aligned_size h =
    let rest = kmalloc_loop fuel (h.next current) aligned_size h in
    if current == null
    then some (null, h)
    else if h.is_free current && leb aligned_size (h.size current)
    then some (place current aligned_size h)
    else rest

pub kmalloc : ℕ → ℕ → Heap → Option (ℕ × Heap)
kmalloc fuel size h =
    if size == 0 then some (null, h) else kmalloc_loop fuel h.free_list_head (align_8 size) h

-- The block behind `current` becomes part of it.
abbrev pub merge_next : ℕ → Heap → Heap
merge_next current h = record h {
  size =
      write h.size current (add_size (h.size current) (add_size header (h.size (h.next current))));
  next = write h.next current (h.next (h.next current));
}

pub coalesce_loop : ℕ → ℕ → Heap → Option Heap
coalesce_loop zero current h = none
coalesce_loop (suc fuel) current h =
    let merged = coalesce_loop fuel current (merge_next current h) in
    let rest = coalesce_loop fuel (h.next current) h in
    if current == null
    then some h
    else if h.next current == null
    then some h
    else if h.is_free current && h.is_free (h.next current)
    then merged
    else rest

pub kfree : ℕ → ℕ → Heap → Option Heap
kfree fuel ptr h =
    if ptr == null
    then some h
    else coalesce_loop fuel h.free_list_head
        (record h { is_free = write h.is_free (sub_size ptr header) true })
