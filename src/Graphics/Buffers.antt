-- ===== src/Graphics/Buffers.antt =====
-- `Graphics::initialize` of src/gui/Graphics.cpp: the buffers of the graphical context and of the terminal.
use mathlib.Core.Path.{subst}
use swish_kernel.Prelude.{
  ℕ, suc, ◌+◌, ◌-◌, ◌*◌, ◌%◌, ◌^◌, ◌≤◌, ◌<◌, ◌≡◌, ◌≢◌, refl, sym, ap, ◌∙◌, inl, inr, ◌⊎◌, Bool,
  true, some, arith, null, size_mod, write, write_self, Memory, Res, done, ◌>>=◌,
}
use swish_kernel.Heap.{Heap, header, kmalloc}
use swish_kernel.Heap.Trace.{Run-disjoint}
use swish_kernel.Heap.Reached.{Run, fuel_for}
use swish_kernel.Heap.Sizes.{kmalloc-IsNew, Run-alloc, Run-apart}
use swish_kernel.Libc.{memset}
use swish_kernel.Libc.Range.{filled}
use swish_kernel.Libc.Fill.{memset-filled}
use swish_kernel.Text.Owner.{Store, ran}
use swish_kernel.Graphics.{Color, Surface}
use swish_kernel.Graphics.Paint.{IsSurface}

-- The fields of a `limine_framebuffer` that are read, and the variables of the file.
pub record Framebuffer : Type 0 where
  pub address : ℕ
  pub width : ℕ
  pub height : ℕ
  pub pitch : ℕ

pub record Buffers : Type 0 where
  pub framebuffer : Framebuffer
  pub local_buffer : ℕ
  pub terminal_buffer : ℕ

-- `kmalloc(n)` and the `memset` to 0 behind it.
unfoldable pub cleared_block : ℕ → ℕ → Store → Res (ℕ × Store)
cleared_block heap_size n st = do
  (buffer, heap) ← ran (kmalloc (suc heap_size) n st.heap)
  memory ← ran (memset (suc n) buffer 0 n st.memory)
  done (buffer, record { heap = heap; memory = memory })

unfoldable pub initialize : ℕ → Framebuffer → Store → Res (Buffers × Store)
initialize heap_size fb st = do
  let n : ℕ = fb.pitch * fb.height % size_mod
  (local_buffer, st1) ← cleared_block heap_size n st
  (terminal_buffer, st2) ← cleared_block heap_size n st1
  done (
    record { framebuffer = fb; local_buffer = local_buffer; terminal_buffer = terminal_buffer },
    st2,
  )

-- The surface that is returned.
pub root_surface : (ℕ → ℕ) → Buffers → Color → Surface
root_surface pixels b background = record {
  pixels = pixels;
  buffer = b.local_buffer;
  width = b.framebuffer.width;
  height = b.framebuffer.height;
  pitch = b.framebuffer.pitch;
  background = background;
}

cleared_block-filled :
    (heap_size n p : ℕ) (st : Store) (h' : Heap)
    → kmalloc (fuel_for heap_size) n st.heap ≡ some (p, h')
    → p ≢ null
    → cleared_block heap_size n st ≡ done (p, record { heap = h'; memory = filled st.memory p 0 n })
unfolding cleared_block
cleared_block-filled heap_size n p st h' allocated real =
    rw (allocated, memset-filled (suc n) p 0 n st.memory real (omega arith)) refl

filled_there : (m : Memory) (d n i : ℕ) → i < n → filled m d 0 n (d + i) ≡ 0
filled_there m d n i h = ground arith

filled_elsewhere : (m : Memory) (d n a : ℕ) → (a < d) ⊎ (d + n ≤ a) → filled m d 0 n a ≡ m a
filled_elsewhere m d n a (inl h) = ground arith
filled_elsewhere m d n a (inr h) = ground arith

-- Two buffers of `n` zeros that share no byte, and a surface whose rows do not overlap.
abbrev pub TwoBuffers :
    ℕ → ℕ → (ℕ → Bool) → ℕ → Framebuffer → ℕ → ℕ → Res (Buffers × Store) → Type 0
TwoBuffers start heap_size live n fb p q r =
    (after : Store) × (r
      ≡ done (record { framebuffer = fb; local_buffer = p; terminal_buffer = q }, after))
    × Run start heap_size after.heap (write (write live p true) q true)
    × ((i : ℕ) → i < n → (after.memory (p + i) ≡ 0) × (after.memory (q + i) ≡ 0))
    × ((p + n ≤ q) ⊎ (q + n ≤ p))
    × ((pixels : ℕ → ℕ) (background : Color)
        → IsSurface (
            root_surface pixels (record { framebuffer = fb; local_buffer = p; terminal_buffer = q })
              background))

module _ (start heap_size : ℕ) (low : 64 ≤ start) (high : start + heap_size < size_mod)
    (room : header ≤ heap_size) {live : ℕ → Bool} (st : Store) (fb : Framebuffer) (p q : ℕ)
    (h1 h2 : Heap) where
  -- On a heap that a run has reached and that has the two blocks for a frame buffer that a `size_t` can
  -- count, with rows of at least four bytes for each pixel: `initialize` returns with two live blocks
  -- that share no byte and hold zeros, and the surface has rows that do not overlap and ends below the
  -- top of the address space.
  pub initialize-TwoBuffers :
      Run start heap_size st.heap live
      → 0 < fb.pitch * fb.height
      → fb.pitch * fb.height ≤ size_mod - 8
      → fb.width * 4 ≤ fb.pitch
      → fb.width < 2 ^ 32
      → fb.height < 2 ^ 32
      → kmalloc (fuel_for heap_size) (fb.pitch * fb.height) st.heap ≡ some (p, h1)
      → p ≢ null
      → kmalloc (fuel_for heap_size) (fb.pitch * fb.height) h1 ≡ some (q, h2)
      → q ≢ null
      → TwoBuffers start heap_size live (fb.pitch * fb.height) fb p q (initialize heap_size fb st)
  unfolding initialize root_surface
  initialize-TwoBuffers r pos small wide hw hh first p0 second q0 =
      let n : ℕ = fb.pitch * fb.height in
      let e : n % size_mod ≡ n = omega (arith, small) in
      let st1 : Store = record { heap = h1; memory = filled st.memory p 0 n } in
      let run1 = Run-alloc n p r pos first p0 in
      let (_, fits, _) = kmalloc-IsNew start heap_size low high room n p r pos small first p0 in
      let run2 = Run-alloc n q run1 pos second q0 in
      let (new, fits_q, same) =
        kmalloc-IsNew start heap_size low high room n q run1 pos small second q0 in
      let on_p : write live p true p ≡ true = write_self live p true in
      let ne : p ≢ q = λ z. cc (on_p, ap (write live p true) z, new) in
      let on_p2 : write (write live p true) q true p ≡ true = ground (arith, on_p) in
      let disjoint : (p + n ≤ q) ⊎ (q + n ≤ p) =
        Run-apart start heap_size low high room q p n n run2 (write_self (write live p true) q true)
          on_p2 ne fits_q (subst (λ k. n ≤ k) (sym (same p on_p)) fits) in
      let (_, below, _) = Run-disjoint start heap_size p p low high room run1 on_p on_p in
      (
        record { heap = h2; memory = filled st1.memory q 0 n },
        rw
            (
              e,
              cleared_block-filled heap_size n p st h1 first p0,
              cleared_block-filled heap_size n q st1 h2 second q0,
            )
            refl,
        run2,
        λ i h. (
          filled_elsewhere st1.memory q n (p + i) (elim disjoint [
            | inl before ↦ inl (omega (arith, before, h))
            | inr behind ↦ inr (omega (arith, behind))
          ])
              ∙ filled_there st.memory p n i h,
          filled_there st1.memory q n i h,
        ),
        disjoint,
        λ pixels background. (wide, omega (arith, below, fits, high), hw, hh),
      )
