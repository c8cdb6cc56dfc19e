-- ===== src/Text/Owner.antt =====
-- The constructors, the destructor and the assignment of src/kernel/String.cpp: a string owns a block of
-- the heap, in which its bytes stand.
use swish_kernel.Prelude.{
  ℕ, suc, ◌+◌, ◌%◌, Bool, not, Option, none, some, ◌==◌, if◌then◌else◌, null, size_mod, Memory,
  write, Res, done, out_of_fuel, ◌>>=◌, in_bounds,
}
use swish_kernel.Heap.{Heap, kmalloc, kfree}
use swish_kernel.Libc.{memcpy, strlen}

-- The fields `data`, here `chars`, and `length` of a `String`.
pub record OwnedString : Type 0 where
  pub chars : ℕ
  pub length : ℕ

-- The allocator, and the bytes of the memory besides its headers.
pub record Store : Type 0 where
  pub heap : Heap
  pub memory : Memory

-- A loop of the heap or of the C library that ran out of fuel.
abbrev pub ran : {A : Type 0} → Option A → Res A
ran none = out_of_fuel
ran (some a) = done a

-- `heap_size` is the number of bytes of the heap.
module _ (heap_size : ℕ) where
  -- `new char[n]` and `delete[]`
  unfoldable pub new_chars : ℕ → Store → Res (ℕ × Store)
  new_chars n st =
      ran (kmalloc (suc heap_size) n st.heap) >>= λ x. done (x.0, record st { heap = x.1 })

  unfoldable pub delete_chars : ℕ → Store → Res Store
  delete_chars p st = ran (kfree (suc heap_size) p st.heap) >>= λ h. done (record st { heap = h })

-- `data[i] = c`; a write through `nullptr` is an overrun.
unfoldable pub set_char : ℕ → ℕ → ℕ → Store → Res Store
set_char chars i c st =
    in_bounds (not (chars == null)) (record st { memory = write st.memory (chars + i) c })

-- `memcpy(dest, src, n)`, with fuel for all its blocks.
unfoldable pub copy_chars : ℕ → ℕ → ℕ → Store → Res Store
copy_chars dest src n st =
    ran (memcpy (suc n) dest src n st.memory) >>= λ m. done (record st { memory = m })

module _ (heap_size : ℕ) where
  -- `String::String()`
  unfoldable pub empty_string : Store → Res (OwnedString × Store)
  empty_string st = do
    (chars, allocated) ← new_chars heap_size 1 st
    ended ← set_char chars 0 0 allocated
    done (record { chars = chars; length = 0 }, ended)

  -- `String::String(const char *)`
  unfoldable pub of_c_string : ℕ → Store → Res (OwnedString × Store)
  of_c_string str st = if str == null then empty_string st else do
    length ← ran (strlen size_mod st.memory str)
    (chars, allocated) ← new_chars heap_size ((length + 1) % size_mod) st
    copied ← copy_chars chars str length allocated
    ended ← set_char chars length 0 copied
    done (record { chars = chars; length = length }, ended)

  -- `String::String(const String &)`
  unfoldable pub copy_string : OwnedString → Store → Res (OwnedString × Store)
  copy_string other st = do
    (chars, allocated) ← new_chars heap_size ((other.length + 1) % size_mod) st
    copied ← copy_chars chars other.chars ((other.length + 1) % size_mod) allocated
    done (record { chars = chars; length = other.length }, copied)

  -- `String::~String`
  unfoldable pub destroy : OwnedString → Store → Res Store
  destroy s st = delete_chars heap_size s.chars st

  -- `String::operator=`; `same` tells whether both are one object.
  unfoldable pub assign_string :
      Bool → OwnedString → OwnedString → Store → Res (OwnedString × Store)
  assign_string same this other st =
      if same then done (this, st) else (destroy this st >>= λ freed. copy_string other freed)
