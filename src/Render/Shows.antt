-- ===== src/Render/Shows.antt =====
-- What is on the screen after `Compositor::render` of src/gui/Compositor.cpp.
use mathlib.Core.Path.{subst}
use swish_kernel.Prelude.{
  ℕ, suc, ◌+◌, ◌^◌, ◌<◌, ◌≡◌, ◌≢◌, refl, sym, ap, ◌∙◌, arith, Bool, true, false, List, [], ◌∷◌, inl,
  inr, ◌==◌, if◌then◌else◌, Bool-cases, write, null, ne→beq, eq→beq, beq→eq, Res, done,
}
use swish_kernel.Text.{Bytes}
use swish_kernel.Graphics.{get_bytes, black, Surface, draw_bg}
use swish_kernel.Graphics.Paint.{
  IsSurface, Painted, Painted-trans, repaint, Painted-IsSurface, Painted-pixels,
  draw_rect_filled-Painted,
}
use swish_kernel.Window.{Window}
use swish_kernel.Compositor.{Desktop, CompositorWindow, cleanup_closed_windows}
use swish_kernel.Compositor.Neighbours.{has, first}
use swish_kernel.Compositor.Find.{Chain, Chain-next_in, shown}
use swish_kernel.Compositor.Links.{IsStack}
use swish_kernel.Compositor.Order.{Screen, cleans, promise, perform, Shows, cleans-Refines}
use swish_kernel.Render.{
  Scene, draw_window, render_loop, render, cursor_bitmap, draw_cursor, swap_buffers,
}
use swish_kernel.Render.Swap.{IsBuffer, IsBuffer-Painted, swap_buffers-Painted}
use swish_kernel.Render.Blit.{IsPacked, Fits}
use swish_kernel.Render.Cursor.{on_cursor, draw_cursor-Painted}
use swish_kernel.Render.Topmost.{
  Layer, layers, top_pixel, or_else, Ready, Rendered, render_loop-Rendered,
}

draw_bg-Painted :
    (s : Surface) → IsSurface s → Painted s (draw_bg s) (λ a b v. get_bytes s.background)
unfolding draw_bg
draw_bg-Painted s ok =
    repaint
      (draw_rect_filled-Painted 0 0 s.width s.height s.background s ok (omega arith) (omega arith)
        (omega (arith, ok)) (omega (arith, ok)))
      (λ a b v ha hb. ground arith)

abbrev pub is_nil : List ℕ → Bool
is_nil [] = true
is_nil (w ∷ ws) = false

-- The windows of the screen from the bottom to the top, each drawn on its surface, the last of them
-- with its cursor.
unfoldable pub picture :
    (ℕ → ℕ → ℕ) → (ℕ → Bytes) → (ℕ → Window) → List ℕ → (ℕ → Surface) → List Layer
picture font titles windows [] surfaces = []
picture font titles windows (w ∷ ws) surfaces =
    let drawn = draw_window font (is_nil ws) (titles w) (windows w) (surfaces w) in
    ((windows w).loc, drawn) ∷ picture font titles windows ws (write surfaces w drawn)

top_is_last :
    (d : Desktop) (p : ℕ) (ps : List ℕ)
    → (d.node p).next ≡ first ps
    → has null ps ≡ false
    → ((d.node p).next == null) ≡ is_nil (shown d.node ps)
unfolding first has shown
top_is_last d p [] e real = eq→beq e
top_is_last d p (q ∷ ps) e real = ne→beq (λ z. ground arith)

module _ (font : ℕ → ℕ → ℕ) (d : Desktop) (titles : ℕ → Bytes) where
  layers-picture :
      (ps : List ℕ) (surfaces : ℕ → Surface)
      → Chain d.node ps
      → has null ps ≡ false
      → layers font d titles ps surfaces ≡ picture font titles d.windows (shown d.node ps) surfaces
  unfolding layers picture shown has
  layers-picture [] surfaces chain real = refl
  layers-picture (p ∷ ps) surfaces chain real =
      let w = (d.node p).window in
      let drawn =
        draw_window font (is_nil (shown d.node ps)) (titles w) (d.windows w) (surfaces w) in
      rw (top_is_last d p ps chain.0 (ground arith)) (
        ap (λ (rest : List Layer). ((d.windows w).loc, drawn) ∷ rest)
          (layers-picture ps (write surfaces w drawn) chain.1 (ground arith)))

-- The surfaces are as the constructor of a window makes them, and no window lies beyond the right
-- edge of the screen.
abbrev pub AllFit : Screen → Scene → Type 0
AllFit s scene =
    (w : ℕ)
    → has w s.order ≡ true
    → IsPacked (scene.surfaces w) × Fits (s.windows w).loc (scene.surfaces w) scene.screen

-- A pixel with the mouse at `x`, `y`: the cursor, or the top-most window there, or the background.
abbrev pub seen : (ℕ → ℕ → ℕ) → Screen → Scene → ℕ → ℕ → ℕ → ℕ → ℕ
seen font s scene x y a b =
    if on_cursor cursor_bitmap x y a b
    then get_bytes black
    else or_else (top_pixel (picture font scene.titles s.windows s.order scene.surfaces) a b)
        (get_bytes scene.screen.background)

-- The closed windows are removed, and the frame buffer has the pixels that are seen.
abbrev pub Displayed :
    (ℕ → ℕ → ℕ) → Screen → Scene → ℕ → ℕ → Surface → Res (Desktop × Scene × Surface) → Type 0
Displayed font s scene x y framebuffer r =
    (d : Desktop) × (after : Scene) × (shown : Surface) × (r ≡ done (d, after, shown))
    × Shows d (promise cleans s)
    × Painted framebuffer shown (λ a b v. seen font s scene x y a b)

shown-has :
    (node : ℕ → CompositorWindow) (ps : List ℕ) (p : ℕ)
    → has p ps ≡ true
    → has (node p).window (shown node ps) ≡ true
unfolding has shown
shown-has node [] p h = cc
shown-has node (q ∷ ps) p h = elim (Bool-cases (p == q)) [
  | inl same ↦
      let e : (node p).window ≡ (node q).window = ap (λ k. (node k).window) (beq→eq p q same) in
      rw (eq→beq e) refl
  | inr other ↦ ground (arith, shown-has node ps p, h)
]

module _ (font : ℕ → ℕ → ℕ) (x y : ℕ) (d : Desktop) (scene : Scene) (s : Screen)
    (terminal framebuffer : Surface) where
  render_runs :
      (e : Desktop) (drawn : Scene)
      → render_loop font (suc d.fresh) d.head d (record scene { screen = draw_bg scene.screen })
        ≡ done drawn
      → cleanup_closed_windows d ≡ done e
      → render font x y true d scene terminal framebuffer
        ≡ done (
          e,
          record drawn { screen = draw_cursor cursor_bitmap x y drawn.screen },
          swap_buffers true (draw_cursor cursor_bitmap x y drawn.screen) terminal framebuffer,
        )
  unfolding render
  render_runs e drawn walk cleaned = rw (walk, cleaned) refl

  cleaned_up :
      Shows d s → (e : Desktop) × (cleanup_closed_windows d ≡ done e) × Shows e (promise cleans s)
  unfolding perform
  cleaned_up shows = cleans-Refines d s shows

  backdrop : Scene
  backdrop = record scene { screen = draw_bg scene.screen }

  all-Ready :
      (ps : List ℕ)
      → IsSurface scene.screen
      → AllFit s scene
      → shown d.node ps ≡ s.order
      → d.windows ≡ s.windows
      → Ready font d ps scene.surfaces (draw_bg scene.screen)
  all-Ready ps ok fit order same p h =
      let w : ℕ = (d.node p).window in
      let packed = fit w (ap (has w) (sym order) ∙ shown-has d.node ps p h) in
      (
        packed.0,
        subst (λ (f : ℕ → Window). Fits (f w).loc (scene.surfaces w) (draw_bg scene.screen))
            (sym same)
            (subst (Fits (s.windows w).loc (scene.surfaces w))
              (sym (draw_bg-Painted scene.screen ok).shape) packed.1),
      )

  walk_over :
      (ps : List ℕ)
      → IsStack d ps
      → IsSurface scene.screen
      → scene.screen.buffer ≢ null
      → Ready font d ps scene.surfaces (draw_bg scene.screen)
      → Rendered font d ps backdrop (render_loop font (suc d.fresh) d.head d backdrop)
  unfolding backdrop
  walk_over ps is ok real ready =
      let background = draw_bg-Painted scene.screen ok in
      subst (λ p. Rendered font d ps backdrop (render_loop font (suc d.fresh) p d backdrop))
        (sym is.head_is)
        (render_loop-Rendered font d (suc d.fresh) ps backdrop
          (Chain-next_in d.node ps is.distinct is.nexts) is.real (omega (arith, is.few))
          (Painted-IsSurface background ok)
          (subst (λ t. t.buffer ≢ null) (sym background.shape) real) ready)

  -- In the graphical context `render` returns. It shows at each pixel of the frame buffer the mouse
  -- cursor, or else the top-most window that covers the pixel, or else the background, and takes the
  -- closed windows off the list. The surfaces of the windows have rows without gaps, no window
  -- reaches beyond the right edge of the screen, no coordinate leaves 32 bits, and the frame buffer
  -- has the shape of the screen, `cells` pixels from row to row.
  pub render-Displayed :
      (cells : ℕ)
      → Shows d s
      → IsBuffer cells framebuffer scene.screen
      → scene.screen.buffer ≢ null
      → AllFit s scene
      → x + 22 < 2 ^ 32
      → y + 28 < 2 ^ 32
      → Displayed font s scene x y framebuffer (render font x y true d scene terminal framebuffer)
  unfolding backdrop
  render-Displayed cells (ps, is, order, same, f0) same_shape real fit hx hy =
      let ok = same_shape.from_ok in
      let (e, cleaned, after) = cleaned_up (ps, is, order, same, f0) in
      let background = draw_bg-Painted scene.screen ok in
      let (drawn, walk, painted) = walk_over ps is ok real (all-Ready ps ok fit order same) in
      let below = Painted-IsSurface painted (Painted-IsSurface background ok) in
      let cursor = draw_cursor-Painted cursor_bitmap x y drawn.screen below hx hy in
      let whole = Painted-trans background (Painted-trans painted cursor) in
      let last = draw_cursor cursor_bitmap x y drawn.screen in
      let pictured =
        layers-picture font d scene.titles ps scene.surfaces
          (Chain-next_in d.node ps is.distinct is.nexts) is.real
        ∙ (λ i. picture font scene.titles (same i) (order i) scene.surfaces) in
      (
        e,
        record drawn { screen = last },
        swap_buffers true last terminal framebuffer,
        render_runs e drawn walk cleaned,
        after,
        repaint
            (swap_buffers-Painted cells true last terminal framebuffer
              (IsBuffer-Painted same_shape whole))
            (λ a b v ha hb.
              Painted-pixels whole a b (omega (arith, same_shape.same_width, ha))
                (omega (arith, same_shape.same_height, hb))
              ∙ ap
                  (λ ls.
                    if on_cursor cursor_bitmap x y a b
                    then get_bytes black
                    else or_else (top_pixel ls a b) (get_bytes scene.screen.background))
                  pictured),
      )
