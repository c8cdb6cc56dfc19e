-- ===== src/Render/Swap.antt =====
-- The copy of a whole buffer to the frame buffer, `swap_buffers` of src/gui/Graphics.cpp.
use mathlib.Core.Path.{subst}
use swish_kernel.Prelude.{
  ℕ, zero, suc, ◌+◌, ◌*◌, ◌/◌, ◌%◌, ◌<◌, ◌≤◌, ◌≡◌, refl, sym, ap, ◌∙◌, arith, Bool, if◌then◌else◌,
  write, write_ne, write_self, size_mod,
}
use swish_kernel.Graphics.{Surface, pixel_address}
use swish_kernel.Graphics.Paint.{IsSurface, Painted, address_in, rows_apart}
use swish_kernel.Render.{copy_pixels, swap_buffers}

copy_pixels-below :
    (n dest src : ℕ) (from to : ℕ → ℕ) (q : ℕ)
    → dest + n * 4 < size_mod
    → q < dest
    → copy_pixels n dest src from to q ≡ to q
unfolding copy_pixels
copy_pixels-below zero dest src from to q h l = refl
copy_pixels-below (suc n) dest src from to q h l =
    let e : (dest + 4) % size_mod ≡ dest + 4 = omega (arith, h) in
    rw e (
      copy_pixels-below n (dest + 4) ((src + 4) % size_mod) from (write to dest (from src)) q
        (omega (arith, h)) (omega (arith, l))
      ∙ write_ne to dest q (from src) (λ same. omega (arith, l, same)))

-- The pixel `k` of a copy.
copy_pixels-at :
    (n k dest src : ℕ) (from to : ℕ → ℕ)
    → dest + n * 4 < size_mod
    → src + n * 4 < size_mod
    → k < n
    → copy_pixels n dest src from to (dest + k * 4) ≡ from (src + k * 4)
unfolding copy_pixels
copy_pixels-at zero k dest src from to h hs l = absurd (omega (arith, l))
copy_pixels-at (suc n) zero dest src from to h hs l =
    let e : (dest + 4) % size_mod ≡ dest + 4 = omega (arith, h) in
    let d : dest + 0 * 4 ≡ dest = omega arith in
    let s : src + 0 * 4 ≡ src = omega arith in
    rw (e, d, s)
      (copy_pixels-below n (dest + 4) ((src + 4) % size_mod) from (write to dest (from src)) dest
          (omega (arith, h)) (omega arith)
        ∙ write_self to dest (from src))
copy_pixels-at (suc n) (suc k) dest src from to h hs l =
    let e : (dest + 4) % size_mod ≡ dest + 4 = omega (arith, h) in
    let e' : (src + 4) % size_mod ≡ src + 4 = omega (arith, hs) in
    let d : dest + suc k * 4 ≡ dest + 4 + k * 4 = omega arith in
    let s : src + suc k * 4 ≡ src + 4 + k * 4 = omega arith in
    rw (e, e', d, s)
      (copy_pixels-at n k (dest + 4) (src + 4) from (write to dest (from src)) (omega (arith, h))
        (omega (arith, hs)) (omega (arith, l)))

-- Two buffers of the same shape, whose rows are `cells` pixels apart.
pub record IsBuffer (cells : ℕ) (framebuffer from : Surface) : Type 0 where
  pub framebuffer_ok : IsSurface framebuffer
  pub from_ok : IsSurface from
  pub same_width : from.width ≡ framebuffer.width
  pub same_height : from.height ≡ framebuffer.height
  pub pitch : framebuffer.pitch ≡ cells * 4
  pub same_pitch : from.pitch ≡ cells * 4

pub IsBuffer-Painted :
    {cells : ℕ} {framebuffer s t : Surface} {f : ℕ → ℕ → ℕ → ℕ}
    → IsBuffer cells framebuffer s
    → Painted s t f
    → IsBuffer cells framebuffer t
IsBuffer-Painted {cells} {framebuffer} ok p =
    subst (IsBuffer cells framebuffer) (sym p.shape) (record {
      framebuffer_ok = ok.framebuffer_ok;
      from_ok = ok.from_ok;
      same_width = ok.same_width;
      same_height = ok.same_height;
      pitch = ok.pitch;
      same_pitch = ok.same_pitch;
    })

module _ (cells : ℕ) (framebuffer from : Surface) (ok : IsBuffer cells framebuffer from) where
  cell_in :
      (a b : ℕ)
      → a < framebuffer.width
      → b < framebuffer.height
      → b * cells + a < framebuffer.height * cells
  cell_in a b ha hb =
      let next : b * cells + cells ≤ framebuffer.height * cells =
        rows_apart b framebuffer.height cells hb in
      omega (arith, next, ok.framebuffer_ok.0, ok.pitch, ha)

  pub swapped :
      (a b : ℕ)
      → a < framebuffer.width
      → b < framebuffer.height
      → copy_pixels
          (framebuffer.pitch * framebuffer.height % size_mod / 4)
          framebuffer.buffer
          from.buffer
          from.pixels
          framebuffer.pixels
          (pixel_address framebuffer a b)
        ≡ from.pixels (pixel_address from a b)
  swapped a b ha hb =
      let h = framebuffer.height in
      let k = b * cells + a in
      let ha' : a < from.width = omega (arith, ok.same_width, ha) in
      let hb' : b < from.height = omega (arith, ok.same_height, hb) in
      let count : framebuffer.pitch * h % size_mod / 4 ≡ h * cells =
        omega (arith, ok.framebuffer_ok.1, ap (λ p. h * p) ok.pitch) in
      let to_address : pixel_address framebuffer a b ≡ framebuffer.buffer + k * 4 =
        address_in framebuffer a b ok.framebuffer_ok ha hb
        ∙ omega (arith, ap (λ p. b * p) ok.pitch) in
      let from_address : pixel_address from a b ≡ from.buffer + k * 4 =
        address_in from a b ok.from_ok ha' hb' ∙ omega (arith, ap (λ p. b * p) ok.same_pitch) in
      let ends : framebuffer.buffer + h * cells * 4 < size_mod =
        omega (arith, ok.framebuffer_ok.1, ap (λ p. h * p) ok.pitch) in
      let from_ends : from.buffer + h * cells * 4 < size_mod = omega (
        arith,
        ok.from_ok.1,
        ap (λ p. from.height * p) ok.same_pitch,
        ap (λ n. n * cells) ok.same_height,
      ) in
      ap
        (λ n.
          copy_pixels n framebuffer.buffer from.buffer from.pixels framebuffer.pixels
            (pixel_address framebuffer a b))
        count
      ∙ ap (copy_pixels (h * cells) framebuffer.buffer from.buffer from.pixels framebuffer.pixels)
          to_address
      ∙ copy_pixels-at (h * cells) k framebuffer.buffer from.buffer from.pixels framebuffer.pixels
          ends from_ends (cell_in a b ha hb)
      ∙ ap from.pixels (sym from_address)

-- Each pixel of the frame buffer becomes the one of the buffer that is copied.
pub swap_buffers-Painted :
    (cells : ℕ) (is_gui : Bool) (local terminal framebuffer : Surface)
    → IsBuffer cells framebuffer (if is_gui then local else terminal)
    → Painted framebuffer (swap_buffers is_gui local terminal framebuffer) (λ a b v.
      (if is_gui then local else terminal).pixels
        (pixel_address (if is_gui then local else terminal) a b))
unfolding swap_buffers
swap_buffers-Painted cells is_gui local terminal framebuffer ok = record {
  pixels = (swap_buffers is_gui local terminal framebuffer).pixels;
  shape = refl;
  each = swapped cells framebuffer (if is_gui then local else terminal) ok;
}
