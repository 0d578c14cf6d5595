-- ===== src/Gl/Frames/Init/Valid.antt =====
-- No swap panics: what an initialization leaves for the capture after it.
use pw_capture.Common.{
  ℕ, ◌≡◌, ◌≢◌, refl, sym, ◌∙◌, ◌⊎◌, inl, inr, true, false, ◌&&◌, ◌==◌, ==_refl, none, some, List,
  arith, Bool-cases, Option-cases,
}
use pw_capture.Gl.State.{NativeIface, LayerCapture, LayerSurface, GlLayer, ExportTexture}
use pw_capture.Gl.Textures.{
  EglDriver, GlxDriver, Target, Creation, created, creation_failed, creation_panics,
  create_target_textures,
}
use pw_capture.Gl.Frames.{Commands, Lawful, panicked}
use pw_capture.Gl.Frames.Restore.{OnlyTexture, capture-restores}
use pw_capture.Gl.Frames.Init.Exports.{Exports, CreatesOne, Exports-CreatesOne}
use pw_capture.Gl.Frames.Init.{
  Answers, Init, ready, refused, init_panics, has_functions, set_capture, make_capture,
  init_existing, try_init_capture, capture_surface, init_and_capture, try_capture,
}

Creation-cases :
    (o : Creation)
    → (o ≡ creation_panics)
      ⊎ ((es : List ExportTexture) × (gone : List ℕ) × (b : ℕ) × (o ≡ creation_failed es gone b))
      ⊎ ((t : Target) × (es : List ExportTexture) × (b : ℕ) × (o ≡ created t es b))
Creation-cases creation_panics = inl refl
Creation-cases (creation_failed es gone b) = inr (inl (es, gone, b, refl))
Creation-cases (created t es b) = inr (inr (t, es, b, refl))

-- The surface has a capture.
pub record Captures (surface : ℕ) (st : GlLayer) : Type 0 where
  pub layer : LayerSurface
  pub held : LayerCapture
  pub found : st.surface_map surface ≡ some layer
  pub captured : layer.capture ≡ some held

set_capture-Captures :
    (surface : ℕ) (x : LayerCapture) (s : LayerSurface) (st : GlLayer)
    → Captures surface (set_capture surface (some x) s st)
unfolding set_capture
set_capture-Captures surface x s st = record {
  layer = record s { capture = some x };
  held = x;
  found = rw (==_refl surface) refl;
  captured = refl;
}

Init-cases : (i : Init) → (i ≡ refused) ⊎ (i ≡ ready) ⊎ (i ≡ init_panics)
Init-cases refused = inl refl
Init-cases ready = inr (inl refl)
Init-cases init_panics = inr (inr refl)

ready_refused : ready ≢ refused
ready_refused e = ground arith

module _ {Context : Type 0} (gl : Commands Context) (env : Answers) where
  -- What an initialization leaves by its answer.
  After : ℕ → (GlLayer × Context) × Init → Type 0
  After surface (out, ready) = Captures surface out.0
  After surface (out, refused) = Unit
  After surface (out, init_panics) = ⊥

  After-ready :
      (surface : ℕ) (r : (GlLayer × Context) × Init)
      → r.1 ≡ ready
      → After surface r
      → Captures surface r.0.0
  unfolding After
  After-ready surface (out, ready) q a = a
  After-ready surface (out, refused) q a = ground arith
  After-ready surface (out, init_panics) q a = absurd a

  After-panics :
      (surface : ℕ) (r : (GlLayer × Context) × Init) → r.1 ≡ init_panics → After surface r → ⊥
  unfolding After
  After-panics surface (out, ready) q a = ground arith
  After-panics surface (out, refused) q a = ground arith
  After-panics surface (out, init_panics) q a = a

  make_capture-After :
      (native : NativeIface) (dpy surface context : ℕ) (s : LayerSurface) (st : GlLayer)
      (c : Context)
      → CreatesOne env native dpy
      → After surface (make_capture gl env native dpy surface context s st c)
  unfolding make_capture After
  make_capture-After native dpy surface context s st c h =
      elim (Creation-cases
        (create_target_textures env.export native dpy env.textures (gl.bindings c).texture_2d)) [
          | inl q ↦ absurd (h (gl.bindings c).texture_2d q)
          | inr (inl (es, gone, b, q)) ↦ rw (make_capture, q) tt
          | inr (inr (t, es, b, q)) ↦ elim (Bool-cases (env.new_stream t)) [
            | inl made ↦
                rw (make_capture, q, made)
                  (set_capture-Captures surface _ (record s { capture_valid = true }) st)
            | inr no_stream ↦ rw (make_capture, q, no_stream) tt
          ]
        ]

  init_existing-After :
      (native : NativeIface) (dpy surface context : ℕ) (s : LayerSurface) (st : GlLayer)
      (c : Context)
      → st.surface_map surface ≡ some s
      → CreatesOne env native dpy
      → After surface (init_existing gl env native dpy surface context s st c)
  unfolding init_existing After
  init_existing-After native dpy surface context s st c f h = elim (Option-cases s.capture) [
    | inl n ↦ rw (init_existing, n) (make_capture-After native dpy surface context s st c h)
    | inr (old, q) ↦ elim (Bool-cases (old.context == context)) [
      | inr other ↦ rw (init_existing, q, other) tt
      | inl same ↦
          elim (Bool-cases (
            old.width == (env.extent native surface).0
            && old.height == (env.extent native surface).1)) [
              | inl kept ↦
                  rw (init_existing, q, same, kept)
                    (record { layer = s; held = old; found = f; captured = q })
              | inr resized ↦
                  rw (init_existing, q, same, resized)
                    (make_capture-After native dpy surface context (record s { capture = none })
                      (set_capture surface none s st) c h)
            ]
    ]
  ]

  try_init_capture-After :
      (native : NativeIface) (dpy surface : ℕ) (st : GlLayer) (c : Context)
      → CreatesOne env native dpy
      → After surface (try_init_capture gl env native dpy surface st c)
  unfolding try_init_capture After
  try_init_capture-After native dpy surface st c h = elim (Option-cases (env.current native)) [
    | inl n ↦ rw (try_init_capture, n) tt
    | inr (context, q) ↦ elim (Bool-cases (has_functions gl.loaded)) [
      | inr missing ↦ rw (try_init_capture, q, missing) tt
      | inl all ↦ elim (Option-cases (st.surface_map surface)) [
        | inl n ↦ rw (try_init_capture, q, all, n) tt
        | inr (s, f) ↦
            let same : try_init_capture gl env native dpy surface st c
                ≡ init_existing gl env native dpy surface context s st c =
              rw (try_init_capture, q, all, f) refl in
            rw same (init_existing-After native dpy surface context s st c f h)
      ]
    ]
  ]

  -- Without a function that the capture calls, no initialization is ready.
  try_init_capture-missing :
      (native : NativeIface) (dpy surface : ℕ) (st : GlLayer) (c : Context)
      → has_functions gl.loaded ≡ false
      → (try_init_capture gl env native dpy surface st c).1 ≡ refused
  unfolding try_init_capture
  try_init_capture-missing native dpy surface st c m = elim (Option-cases (env.current native)) [
    | inl n ↦ rw (try_init_capture, n) refl
    | inr (context, q) ↦ rw (try_init_capture, q, m) refl
  ]

  module _ (law : Lawful gl) where
    capture_surface-safe :
        (native : NativeIface) (dpy surface : ℕ) (st : GlLayer) (c : Context)
        → has_functions gl.loaded ≡ true
        → OnlyTexture env.dequeued
        → Captures surface st
        → (capture_surface gl env native dpy surface st c).1 ≢ panicked
    unfolding capture_surface has_functions
    capture_surface-safe native dpy surface st c r o h =
        rw (capture_surface, h.found, h.captured)
          (capture-restores gl law native dpy env.dequeued env.queue_ok h.held c r o).1

    init_and_capture-safe :
        (native : NativeIface) (dpy surface : ℕ) (st : GlLayer) (c : Context)
        → OnlyTexture env.dequeued
        → CreatesOne env native dpy
        → (init_and_capture gl env native dpy surface st c).1 ≢ panicked
    unfolding init_and_capture
    init_and_capture-safe native dpy surface st c o h =
        let a = try_init_capture-After native dpy surface st c h in
        let r = try_init_capture gl env native dpy surface st c in
        elim (Init-cases r.1) [
          | inl q ↦ rw (init_and_capture, q) (λ e. ground arith)
          | inr (inr q) ↦ absurd (After-panics surface r q a)
          | inr (inl q) ↦ elim (Bool-cases (has_functions gl.loaded)) [
            | inr m ↦
                absurd (ready_refused (sym q ∙ try_init_capture-missing native dpy surface st c m))
            | inl all ↦
                rw (init_and_capture, q)
                  (capture_surface-safe native dpy surface r.0.0 r.0.1 all o
                    (After-ready surface r q a))
          ]
        ]

    -- A swap does not panic, for a new surface, a resized one, one of another context or one
    -- whose initialization fails, where the buffers of the stream are textures, EGL has loaded both
    -- functions that create images or neither, and the textures that the driver exports have one
    -- format, modifier and number of planes.
    pub try_capture-safe :
        (e : EglDriver) (x : GlxDriver) (native : NativeIface) (dpy surface : ℕ) (st : GlLayer)
        (c : Context)
        → OnlyTexture env.dequeued
        → Exports e x env native
        → (try_capture gl env native dpy surface st c).1 ≢ panicked
    unfolding try_capture
    try_capture-safe e x native dpy surface st c o given =
        let h = Exports-CreatesOne e x env native dpy given in
        elim (Option-cases (st.surface_map surface)) [
          | inl n ↦ rw (try_capture, n) (init_and_capture-safe native dpy surface _ c o h)
          | inr (s, f) ↦ elim (Bool-cases s.capture_valid) [
            | inl v ↦ rw (try_capture, f, v) (init_and_capture-safe native dpy surface st c o h)
            | inr v ↦ rw (try_capture, f, v) (λ q. ground arith)
          ]
        ]
