-- ===== src/Heap/Tests.antt =====
-- The theorems on the allocator of src/kernel/memory.cpp at concrete heaps.
use swish_kernel.Prelude.{
  ℕ, ◌+◌, ◌-◌, ◌<◌, ◌≤◌, ◌≡◌, refl, true, false, some, [], ◌∷◌, arith, write, size_mod,
}
use swish_kernel.Heap.{Heap, header, align_8, init_heap, split, place, kmalloc_loop, kmalloc, kfree}
use swish_kernel.Heap.Tiles.{block, IsHeap}
use swish_kernel.Heap.Alloc.{Outcome, kmalloc-Outcome}
use swish_kernel.Heap.Free.{coalesce_all, kfree_lem}
use swish_kernel.Heap.Trace.{Run-Holds, Run-total, Run-disjoint}
use swish_kernel.Heap.Reached.{Run, boot, alloc, Holds, fuel_for}
use swish_kernel.Heap.RoundTrip.{kfree-kmalloc, kmalloc_huge}

abbrev pub blank : Heap
blank = record { free_list_head = 0; size = λ a. 0; is_free = λ a. false; next = λ a. 0 }

-- 1024 bytes at address 4096, and what two calls of `kmalloc` leave.
abbrev pub fresh : Heap
fresh = record {
  free_list_head = 4096;
  size = write blank.size 4096 1000;
  is_free = write blank.is_free 4096 true;
  next = write blank.next 4096 0;
}

abbrev pub once : Heap
once = let h = split 4096 16 fresh in record h { is_free = write h.is_free 4096 false }

abbrev pub twice : Heap
twice = let h = split 4136 24 once in record h { is_free = write h.is_free 4136 false }

init_heap_runs : init_heap 4096 1024 blank ≡ fresh
unfolding init_heap
init_heap_runs = refl

kmalloc_runs : kmalloc 9 12 fresh ≡ some (4120, once)
unfolding kmalloc align_8 place kmalloc_loop
kmalloc_runs = refl

kmalloc_runs_again : kmalloc 1025 20 once ≡ some (4160, twice)
unfolding kmalloc align_8 place kmalloc_loop
kmalloc_runs_again = refl

fresh-IsHeap : IsHeap fresh 4096 (block 1000 true ∷ []) 5120
fresh-IsHeap = record {
  low = omega arith;
  high = omega arith;
  nonempty = λ e. cc;
  head = refl;
  tiles = (refl, refl, refl, refl);
}

once-IsHeap : IsHeap once 4096 (block 16 false ∷ block 960 true ∷ []) 5120
once-IsHeap = record {
  low = omega arith;
  high = omega arith;
  nonempty = λ e. cc;
  head = refl;
  tiles = (refl, refl, refl, (refl, refl, refl, refl));
}

pub twice-Run : Run 4096 1024 twice (write (write (λ _. false) 4120 true) 4160 true)
unfolding init_heap kmalloc align_8 place kmalloc_loop
twice-Run = alloc 20 4160 (alloc 12 4120 (boot blank) (omega arith) refl) (omega arith) refl

-- The lower of the two blocks is freed, and handed out again.
abbrev pub freed : Heap
freed = record twice { is_free = write twice.is_free 4096 true }

abbrev pub again : Heap
again = record freed { is_free = write freed.is_free 4096 false }

pub lower_freed : kfree (fuel_for 1024) 4120 twice ≡ some freed
unfolding kfree swish_kernel.Heap.coalesce_loop
lower_freed = refl

pub lower_again : kmalloc (fuel_for 1024) 4 freed ≡ some (4120, again)
unfolding kmalloc kmalloc_loop place align_8
lower_again = refl

-- Two blocks of 16 bytes.
pub fresh-Run : Run 4096 1024 fresh (λ _. false)
unfolding init_heap
fresh-Run = boot blank

abbrev pub pair : Heap
pair = let h = split 4136 16 once in record h { is_free = write h.is_free 4136 false }

pub first_block : kmalloc (fuel_for 1024) 16 fresh ≡ some (4120, once)
unfolding kmalloc align_8 place kmalloc_loop
first_block = refl

pub second_block : kmalloc (fuel_for 1024) 16 once ≡ some (4160, pair)
unfolding kmalloc align_8 place kmalloc_loop
second_block = refl

-- A heap of one block, which is in use.
abbrev pub full : Heap
full = record {
  free_list_head = 4096;
  size = write blank.size 4096 8;
  is_free = write (write blank.is_free 4096 true) 4096 false;
  next = write blank.next 4096 0;
}

pub full-Run : Run 4096 32 full (write (λ _. false) 4120 true)
unfolding init_heap kmalloc align_8 place kmalloc_loop
full-Run = alloc 4 4120 (boot blank) (omega arith) refl

pub full_exhausted : kmalloc (fuel_for 32) 4 full ≡ some (0, full)
unfolding kmalloc kmalloc_loop align_8
full_exhausted = refl

kmalloc-Outcome_example :
    Outcome once 4096 (block 16 false ∷ block 960 true ∷ []) 5120 (align_8 20) (kmalloc 9 20 once)
kmalloc-Outcome_example =
    kmalloc-Outcome 9 20 once 4096 5120 (block 16 false ∷ block 960 true ∷ []) once-IsHeap
      (omega arith) (omega arith)

kfree_lem_example :
    (h' : Heap) × (kfree 9 (4096 + 0 + header) once ≡ some h')
    × IsHeap h' 4096 (coalesce_all (block 16 true ∷ block 960 true ∷ [])) 5120
kfree_lem_example =
    kfree_lem 9 once 4096 5120 [] (block 16 false) (block 960 true ∷ []) once-IsHeap (omega arith)

kfree-kmalloc_example :
    (h'' : Heap) × (kfree 9 4120 once ≡ some h'') × IsHeap h'' 4096 (block 1000 true ∷ []) 5120
kfree-kmalloc_example =
    kfree-kmalloc 9 12 fresh once 4096 5120 4120 (block 1000 true ∷ []) fresh-IsHeap tt
      (omega arith) (omega arith) kmalloc_runs (omega arith)

kmalloc_huge_example : (h' : Heap) × (kmalloc 9 (size_mod - 1) fresh ≡ some (4096 + header, h'))
kmalloc_huge_example =
    kmalloc_huge 9 (size_mod - 1) fresh 4096 1000 5120 [] fresh-IsHeap (omega arith) (omega arith)
      (omega arith)

Run-Holds_example : Holds 4096 1024 twice (write (write (λ _. false) 4120 true) 4160 true)
Run-Holds_example = Run-Holds 4096 1024 (omega arith) (omega arith) (omega arith) twice-Run

Run-total_example :
    ((size : ℕ)
      → 0 < size
      → (p : ℕ) × (h' : Heap) × (kmalloc (fuel_for 1024) size twice ≡ some (p, h')))
    × ((p : ℕ)
        → write (write (λ _. false) 4120 true) 4160 true p ≡ true
        → (h' : Heap) × (kfree (fuel_for 1024) p twice ≡ some h'))
Run-total_example = Run-total 4096 1024 (omega arith) (omega arith) (omega arith) twice-Run

Run-disjoint_example :
    (4096 + header ≤ 4120)
    × (4120 + twice.size (4120 - header) ≤ 4096 + 1024)
    × (4120 < 4160 → 4120 + twice.size (4120 - header) + header ≤ 4160)
Run-disjoint_example =
    Run-disjoint 4096 1024 4120 4160 (omega arith) (omega arith) (omega arith) twice-Run refl refl
