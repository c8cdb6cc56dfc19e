-- ===== src/Render/Click.antt =====
-- A press of a mouse button after a frame: `Compositor::inject_mouse_button` of src/gui/Compositor.cpp
-- finds the window that `Compositor::render` shows under the mouse.
use mathlib.Core.Path.{subst}
use swish_kernel.Prelude.{
  ℕ, ◌+◌, ◌%◌, ◌^◌, ◌<◌, ◌≡◌, ◌≢◌, refl, sym, ap, ◌∙◌, arith, Bool, true, false, Option, none, some,
  List, [], ◌∷◌, inl, inr, ◌==◌, leb, if◌then◌else◌, Bool-cases, write, write_self, write_ne,
  size_mod, null, eq→beq, beq→eq, Res, done,
}
use swish_kernel.Graphics.{get_bytes, black, Surface, pixel_address}
use swish_kernel.Graphics.Paint.{Painted-pixels}
use swish_kernel.Graphics.Clip.{Clipped, Clipped-refl, Clipped-trans}
use swish_kernel.Window.{Window}
use swish_kernel.Compositor.{Desktop, hits, inject_mouse_button}
use swish_kernel.Compositor.Neighbours.{has}
use swish_kernel.Compositor.Order.{
  Screen, clicks, promise, perform, Shows, Refines, top_hit, keep_open,
}
use swish_kernel.Compositor.Click.{clicks-Refines}
use swish_kernel.Render.{Scene, draw_window, render, cursor_bitmap}
use swish_kernel.Render.Swap.{IsBuffer}
use swish_kernel.Render.Blit.{Fits, covering}
use swish_kernel.Render.Drawn.{draw_window-Clipped}
use swish_kernel.Render.Cursor.{on_cursor}
use swish_kernel.Render.Topmost.{top_pixel, or_else, covers}
use swish_kernel.Render.Shows.{AllFit, picture, is_nil, render-Displayed}

-- The surface has the size of its window, and the point is not on the right or lower edge of the window.
abbrev Sized : Window → Surface → ℕ → ℕ → Type 0
Sized w s a b =
    (s.width ≡ w.width) × (s.height ≡ w.height) × (a ≢ w.loc.x + w.width) × (b ≢ w.loc.y + w.height)

-- The same for all windows of the screen, of which none is about to be closed.
abbrev pub Settled : Screen → Scene → ℕ → ℕ → Type 0
Settled s scene a b =
    (w : ℕ)
    → has w s.order ≡ true
    → Sized (s.windows w) (scene.surfaces w) a b × ((s.windows w).should_close ≡ false)

hits-inside :
    (w : Window) (s screen layer : Surface) (a b : ℕ)
    → Fits w.loc s screen
    → screen.width < 2 ^ 32
    → Sized w s a b
    → Clipped s layer
    → covers (w.loc, layer) a b ≡ hits a b w
hits-inside w s screen layer a b fits narrow sized c =
    let ew : layer.width ≡ w.width = c.1 ∙ sized.0 in
    let eh : layer.height ≡ w.height = c.2 ∙ sized.1 in
    let ex : (w.loc.x + w.width) % size_mod ≡ w.loc.x + w.width =
      omega (arith, fits, narrow, sized) in
    let ey : (w.loc.y + w.height) % size_mod ≡ w.loc.y + w.height = omega (arith, fits, sized) in
    rw (ew, eh, ex, ey) (ground (arith, sized))

-- What is seen of the windows is a pixel of a drawing of the one that is hit.
abbrev pub Sight : (ℕ → ℕ → ℕ) → Screen → Scene → ℕ → ℕ → Option ℕ → Option ℕ → Type 0
Sight font s scene a b none seen_pixel = seen_pixel ≡ none
Sight font s scene a b (some w) seen_pixel =
    (focused : Bool) × (below : Surface) × Clipped (scene.surfaces w) below
    × (seen_pixel
        ≡ some (
            covering (s.windows w).loc
              (draw_window font focused (scene.titles w) (s.windows w) below) a b))

module _ (font : ℕ → ℕ → ℕ) (s : Screen) (scene : Scene) (a b : ℕ) where
  abbrev drawing : Bool → ℕ → Surface → Surface
  drawing focused w below = draw_window font focused (scene.titles w) (s.windows w) below

  next-Sight :
      (hit t : Option ℕ) (inside_it focused : Bool) (w : ℕ) (below : Surface)
      → Clipped (scene.surfaces w) below
      → Sight font s scene a b hit t
      → Sight font s scene a b
          (elim hit [ none ↦ if inside_it then some w else none | some v ↦ some v ])
          (elim t [
            | none ↦
                if inside_it
                then some (covering (s.windows w).loc (drawing focused w below) a b)
                else none
            | some c ↦ some c
          ])
  next-Sight none t true focused w below c e = rw e (focused, below, c, refl)
  next-Sight none t false focused w below c e = rw e refl
  next-Sight (some v) t inside_it focused w below c (g, under, k, e) = rw e (g, under, k, refl)

  write-Clipped :
      (f : ℕ → Surface) (w : ℕ) (drawn : Surface)
      → ((v : ℕ) → Clipped (scene.surfaces v) (f v))
      → Clipped (f w) drawn
      → (v : ℕ) → Clipped (scene.surfaces v) (write f w drawn v)
  write-Clipped f w drawn kept c v = elim (Bool-cases (v == w)) [
    | inl same ↦
        subst (λ k. Clipped (scene.surfaces k) (write f w drawn k)) (sym (beq→eq v w same))
          (subst (Clipped (scene.surfaces w)) (sym (write_self f w drawn))
            (Clipped-trans (scene.surfaces w) (f w) drawn (kept w) c))
    | inr other ↦
        subst (Clipped (scene.surfaces v))
          (sym (write_ne f w v drawn (λ e. cc (sym (eq→beq (sym e)) ∙ other)))) (kept v)
  ]

  picture-Sight :
      (ws : List ℕ) (f : ℕ → Surface)
      → scene.screen.width < 2 ^ 32
      → ((v : ℕ) → Clipped (scene.surfaces v) (f v))
      → ((w : ℕ) → has w ws ≡ true → Fits (s.windows w).loc (scene.surfaces w) scene.screen)
      → ((w : ℕ) → has w ws ≡ true → Sized (s.windows w) (scene.surfaces w) a b)
      → Sight font s scene a b
          (top_hit s.windows ws a b)
          (top_pixel (picture font scene.titles s.windows ws f) a b)
  unfolding top_hit top_pixel picture has
  picture-Sight [] f narrow kept fits sized = refl
  picture-Sight (w ∷ ws) f narrow kept fits sized =
      let drawn = drawing (is_nil ws) w (f w) in
      let here = draw_window-Clipped font (is_nil ws) (scene.titles w) (s.windows w) (f w) in
      let same =
        hits-inside (s.windows w) (scene.surfaces w) scene.screen drawn a b (fits w (ground arith))
          narrow (sized w (ground arith))
          (Clipped-trans (scene.surfaces w) (f w) drawn (kept w) here) in
      let rest =
        picture-Sight ws (write f w drawn) narrow (write-Clipped f w drawn kept here)
          (λ v h. fits v (ground (arith, h))) (λ v h. sized v (ground (arith, h))) in
      let above = top_pixel (picture font scene.titles s.windows ws (write f w drawn)) a b in
      subst
        (λ t. Sight font s scene a b (top_hit s.windows (w ∷ ws) a b) (elim above [
          | none ↦ if t then some (covering (s.windows w).loc drawn a b) else none
          | some c ↦ some c
        ]))
        (sym same)
        (next-Sight (top_hit s.windows ws a b) above (hits a b (s.windows w)) (is_nil ws) w (f w)
          (kept w) rest)

-- The hot spot of the cursor is left of its bitmap.
hot_spot : (x y : ℕ) → on_cursor cursor_bitmap x y x y ≡ false
hot_spot x y = let e : leb (x + 1) x ≡ false = ground arith in rw e refl

keep_open-none :
    (windows : ℕ → Window) (ws : List ℕ)
    → ((w : ℕ) → has w ws ≡ true → (windows w).should_close ≡ false)
    → keep_open windows ws ≡ ws
unfolding keep_open has
keep_open-none windows [] h = refl
keep_open-none windows (w ∷ ws) h =
    rw (h w (ground arith))
      (ap (λ vs. w ∷ vs) (keep_open-none windows ws (λ v k. h v (ground (arith, k)))))

-- After the frame, a press or a release of a button at the mouse.
abbrev pub Answered :
    (ℕ → ℕ → ℕ) → Screen → Scene → ℕ → ℕ → Bool → Surface → Res (Desktop × Scene × Surface) → Type 0
Answered font s scene x y is_down framebuffer r =
    (d : Desktop) × (after : Scene) × (shown : Surface) × (r ≡ done (d, after, shown))
    × (pixel : Option ℕ) × (shown.pixels (pixel_address shown x y)
        ≡ or_else pixel (get_bytes scene.screen.background))
    × Sight font s scene x y (top_hit s.windows s.order x y) pixel
    × Refines (inject_mouse_button x y is_down d) (promise (clicks x y is_down) s)

module _ (font : ℕ → ℕ → ℕ) (x y : ℕ) (is_down : Bool) (d : Desktop) (scene : Scene) (s : Screen)
    (terminal framebuffer : Surface) where
  -- After a frame in the graphical context, with the mouse at a point of the frame buffer: the pixel at
  -- the point is one of a drawing of the top-most window on which the point lies, and a press or a
  -- release of the button goes to that window, which a press brings to the front; where no window lies,
  -- the pixel is the background and the button changes nothing. The hypotheses are those of
  -- `render-Displayed`; also, each surface has the size of its window, no window is about to be closed,
  -- and the point is on no right or lower edge of a window.
  pub render-Answered :
      (cells : ℕ)
      → Shows d s
      → IsBuffer cells framebuffer scene.screen
      → scene.screen.buffer ≢ null
      → AllFit s scene
      → Settled s scene x y
      → x < framebuffer.width
      → y < framebuffer.height
      → x + 22 < 2 ^ 32
      → y + 28 < 2 ^ 32
      → Answered font s scene x y is_down framebuffer
          (render font x y true d scene terminal framebuffer)
  unfolding perform promise
  render-Answered cells shows same real fit settled hx hy wx wy =
      let (e, after, shown, run, cleaned, painted) =
        render-Displayed font x y d scene s terminal framebuffer cells shows same real fit wx wy in
      let top = top_pixel (picture font scene.titles s.windows s.order scene.surfaces) x y in
      let still = keep_open-none s.windows s.order (λ w h. (settled w h).1) in
      (
        e,
        after,
        shown,
        run,
        top,
        Painted-pixels painted x y hx hy
            ∙ ap
                (λ t.
                  if t then get_bytes black else or_else top (get_bytes scene.screen.background))
                (hot_spot x y),
        picture-Sight font s scene x y s.order scene.surfaces same.from_ok.2
            (λ v. Clipped-refl (scene.surfaces v)) (λ w h. (fit w h).1) (λ w h. (settled w h).0),
        clicks-Refines x y is_down e s
            (subst (λ ws. Shows e (record s { order = ws })) still cleaned),
      )
