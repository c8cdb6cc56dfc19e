-- ===== src/Render/Topmost.antt =====
-- `Compositor::render` of src/gui/Compositor.cpp shows at each pixel the top-most window that covers it.
use mathlib.Core.Bool.{true≢false}
use mathlib.Core.Path.{subst}
use swish_kernel.Prelude.{
  ℕ, zero, suc, ◌<◌, ◌≡◌, ◌≢◌, refl, sym, ◌∙◌, arith, Bool, true, false, Option, none, some, List,
  [], ◌∷◌, inl, inr, ◌==◌, if◌then◌else◌, Bool-cases, length, write, write_self, write_ne, null,
  ne→beq, beq→eq, eq→beq, Res, done,
}
use swish_kernel.Text.{Bytes}
use swish_kernel.Graphics.{Surface}
use swish_kernel.Graphics.Paint.{
  IsSurface, Painted, Painted-trans, repaint, Painted-refl, Painted-IsSurface, inside,
}
use swish_kernel.Graphics.Clip.{Clipped}
use swish_kernel.Window.{Coordinate}
use swish_kernel.Compositor.{Desktop}
use swish_kernel.Compositor.Neighbours.{has, first}
use swish_kernel.Compositor.Find.{Chain}
use swish_kernel.Render.{Scene, draw_window, render_node, render_loop, render_window, copy_rows}
use swish_kernel.Render.Blit.{IsPacked, Fits, covering, covered, copy-Painted}
use swish_kernel.Render.Drawn.{draw_window-Clipped, Clipped-IsPacked, Clipped-Fits}

-- A drawn window, and where it is on the screen.
abbrev pub Layer : Type 0
Layer = Coordinate × Surface

abbrev pub covers : Layer → ℕ → ℕ → Bool
covers (loc, s) a b = inside loc.x loc.y s.width s.height a b

-- The pixel of the last of the layers that cover a pixel of the screen.
unfoldable pub top_pixel : List Layer → ℕ → ℕ → Option ℕ
top_pixel [] a b = none
top_pixel (l ∷ rest) a b = elim (top_pixel rest a b) [
  | none ↦ if covers l a b then some (covering l.0 l.1 a b) else none
  | some c ↦ some c
]

-- What the screen shows above the value `v`.
abbrev pub or_else : Option ℕ → ℕ → ℕ
or_else none v = v
or_else (some c) v = c

or_else-cover :
    (top : Option ℕ) (l : Layer) (a b v : ℕ)
    → or_else top (covered l.0 l.1 a b v)
      ≡ or_else
          (elim top [
            | none ↦ if covers l a b then some (covering l.0 l.1 a b) else none
            | some c ↦ some c
          ])
          v
or_else-cover none l a b v = elim (Bool-cases (covers l a b)) [
  | inl e ↦ rw e refl
  | inr e ↦ rw e refl
]
or_else-cover (some c) l a b v = refl

top_pixel-cover :
    (l : Layer) (rest : List Layer) (a b v : ℕ)
    → or_else (top_pixel rest a b) (covered l.0 l.1 a b v) ≡ or_else (top_pixel (l ∷ rest) a b) v
unfolding top_pixel
top_pixel-cover l rest a b v = or_else-cover (top_pixel rest a b) l a b v

-- A surface that is replaced by what was drawn on it.
module _ (loc : Coordinate) (screen : Surface) where
  write-ready :
      (f : ℕ → Surface) (w w' : ℕ) (drawn : Surface)
      → Clipped (f w) drawn
      → IsPacked (f w') × Fits loc (f w') screen
      → IsPacked (write f w drawn w') × Fits loc (write f w drawn w') screen
  write-ready f w w' drawn c ready = elim (Bool-cases (w' == w)) [
    | inl same ↦
        subst
          (λ k.
            IsPacked (f k) × Fits loc (f k) screen
            → IsPacked (write f w drawn k) × Fits loc (write f w drawn k) screen)
          (sym (beq→eq w' w same))
          (λ r.
            subst (λ s. IsPacked s × Fits loc s screen) (sym (write_self f w drawn))
              (Clipped-IsPacked (f w) drawn c r.0, Clipped-Fits loc (f w) drawn screen c r.1))
          ready
    | inr other ↦
        subst (λ s. IsPacked s × Fits loc s screen)
          (sym (write_ne f w w' drawn (λ e. true≢false (sym (eq→beq (sym e)) ∙ other)))) ready
  ]

module _ (font : ℕ → ℕ → ℕ) (d : Desktop) where
  abbrev pub drawn_at : (ℕ → Bytes) → ℕ → (ℕ → Surface) → Surface
  drawn_at titles p surfaces =
      let w = (d.node p).window in
      draw_window font ((d.node p).next == null) (titles w) (d.windows w) (surfaces w)

  -- The windows of the nodes, each drawn on its surface.
  unfoldable pub layers : (ℕ → Bytes) → List ℕ → (ℕ → Surface) → List Layer
  layers titles [] surfaces = []
  layers titles (p ∷ ps) surfaces =
      let w = (d.node p).window in
      let drawn = drawn_at titles p surfaces in
      ((d.windows w).loc, drawn) ∷ layers titles ps (write surfaces w drawn)

  -- The surfaces of the windows are as the constructor makes them, and no window lies beyond the right
  -- edge of the screen.
  abbrev pub Ready : List ℕ → (ℕ → Surface) → Surface → Type 0
  Ready ps surfaces screen =
      (p : ℕ)
      → has p ps ≡ true
      → IsPacked (surfaces (d.node p).window)
        × Fits (d.windows (d.node p).window).loc (surfaces (d.node p).window) screen

  module _ (p : ℕ) (scene : Scene) (packed : IsPacked (scene.surfaces (d.node p).window))
      (fits : Fits
        (d.windows (d.node p).window).loc
        (scene.surfaces (d.node p).window)
        scene.screen) where
    render_node-Painted :
        IsSurface scene.screen
        → scene.screen.buffer ≢ null
        → Painted scene.screen
            (render_node font p d scene).screen
            (covered (d.windows (d.node p).window).loc (drawn_at scene.titles p scene.surfaces))
    unfolding render_node render_window copy_rows
    render_node-Painted ok real =
        let w = (d.node p).window in
        let c =
          draw_window-Clipped font ((d.node p).next == null) (scene.titles w) (d.windows w)
            (scene.surfaces w) in
        let drawn = drawn_at scene.titles p scene.surfaces in
        copy-Painted (d.windows w).loc drawn (Clipped-IsPacked (scene.surfaces w) drawn c packed)
          scene.screen ok real
          (Clipped-Fits (d.windows w).loc (scene.surfaces w) drawn scene.screen c fits)

    render_node-surfaces :
        (render_node font p d scene).surfaces
        ≡ write scene.surfaces (d.node p).window (drawn_at scene.titles p scene.surfaces)
    unfolding render_node render_window
    render_node-surfaces = refl

    render_node-titles : (render_node font p d scene).titles ≡ scene.titles
    unfolding render_node render_window
    render_node-titles = refl

    -- The other windows can still be rendered.
    render_node-Ready :
        (ps : List ℕ)
        → IsSurface scene.screen
        → scene.screen.buffer ≢ null
        → Ready ps scene.surfaces scene.screen
        → Ready ps (render_node font p d scene).surfaces (render_node font p d scene).screen
    render_node-Ready ps ok real ready =
        subst (λ f. Ready ps f (render_node font p d scene).screen) (sym render_node-surfaces)
          (subst
            (Ready ps
              (write scene.surfaces (d.node p).window (drawn_at scene.titles p scene.surfaces)))
            (sym (render_node-Painted ok real).shape)
            (λ q h.
              write-ready (d.windows (d.node q).window).loc scene.screen scene.surfaces
                (d.node p).window (d.node q).window (drawn_at scene.titles p scene.surfaces)
                (draw_window-Clipped font ((d.node p).next == null) (scene.titles (d.node p).window)
                  (d.windows (d.node p).window) (scene.surfaces (d.node p).window))
                (ready q h)))

  -- The walk has drawn all windows, each over the ones below it.
  abbrev pub Rendered : List ℕ → Scene → Res Scene → Type 0
  Rendered ps scene r =
      (after : Scene) × (r ≡ done after)
      × Painted scene.screen after.screen
          (λ a b v. or_else (top_pixel (layers scene.titles ps scene.surfaces) a b) v)

  render_step :
      (fuel p : ℕ) (ps : List ℕ) (scene : Scene)
      → p ≢ null
      → (d.node p).next ≡ first ps
      → render_loop font (suc fuel) p d scene
        ≡ render_loop font fuel (first ps) d (render_node font p d scene)
  unfolding render_loop
  render_step fuel p ps scene p0 next = rw (ne→beq p0, next) refl

  render_none :
      (fuel : ℕ) (scene : Scene) → Rendered [] scene (render_loop font (suc fuel) null d scene)
  unfolding render_loop layers top_pixel
  render_none fuel scene = (scene, refl, Painted-refl scene.screen)

  render_next :
      (fuel p : ℕ) (ps : List ℕ) (scene : Scene)
      → IsPacked (scene.surfaces (d.node p).window)
      → Fits (d.windows (d.node p).window).loc (scene.surfaces (d.node p).window) scene.screen
      → IsSurface scene.screen
      → scene.screen.buffer ≢ null
      → p ≢ null
      → (d.node p).next ≡ first ps
      → Rendered ps
          (render_node font p d scene)
          (render_loop font fuel (first ps) d (render_node font p d scene))
      → Rendered (p ∷ ps) scene (render_loop font (suc fuel) p d scene)
  unfolding layers render_node render_window
  render_next fuel p ps scene packed fits ok real p0 next (after, r, painted) = (
    after,
    render_step fuel p ps scene p0 next ∙ r,
    repaint (Painted-trans (render_node-Painted p scene packed fits ok real) painted)
        (λ a b v ha hb. top_pixel-cover _ _ a b v),
  )

  pub render_loop-Rendered :
      (fuel : ℕ) (ps : List ℕ) (scene : Scene)
      → Chain d.node ps
      → has null ps ≡ false
      → length ps < fuel
      → IsSurface scene.screen
      → scene.screen.buffer ≢ null
      → Ready ps scene.surfaces scene.screen
      → Rendered ps scene (render_loop font fuel (first ps) d scene)
  unfolding first has
  render_loop-Rendered zero ps scene chain nonnull enough ok real ready = absurd (omega arith)
  render_loop-Rendered (suc fuel) [] scene chain nonnull enough ok real ready =
      render_none fuel scene
  render_loop-Rendered (suc fuel) (p ∷ ps) scene chain nonnull enough ok real ready =
      let here = ready p (ground arith) in
      let later : Ready ps scene.surfaces scene.screen = λ q h. ready q (ground (arith, h)) in
      let painted = render_node-Painted p scene here.0 here.1 ok real in
      render_next fuel p ps scene here.0 here.1 ok real (ground arith) chain.0 (
        render_loop-Rendered fuel ps (render_node font p d scene) chain.1 (ground arith)
          (omega arith) (Painted-IsSurface painted ok)
          (subst (λ t. t.buffer ≢ null) (sym painted.shape) real)
          (render_node-Ready p scene here.0 here.1 ps ok real later))
