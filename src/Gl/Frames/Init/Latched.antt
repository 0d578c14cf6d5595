-- ===== src/Gl/Frames/Init/Latched.antt =====
-- A surface whose initialization was refused is not captured again.
use pw_capture.Common.{
  ℕ, ◌≡◌, refl, inl, inr, true, false, ◌==◌, ==_refl, Option, none, some, Bool-cases,
}
use pw_capture.Gl.State.{NativeIface, LayerCapture, LayerSurface, GlLayer}
use pw_capture.Gl.Frames.{Commands, nothing}
use pw_capture.Gl.Frames.Init.{
  Answers, refused, has_functions, init_existing, try_init_capture, invalidate, init_and_capture,
  try_capture,
}

-- The capture that a surface has.
abbrev pub capture_at : ℕ → GlLayer → Option LayerCapture
capture_at surface st = elim (st.surface_map surface) [ none ↦ none | some s ↦ s.capture ]

refused_context :
    {Context : Type 0} (gl : Commands Context) (env : Answers) (native : NativeIface)
    (dpy surface context : ℕ) (s : LayerSurface) (old : LayerCapture) (st : GlLayer) (c : Context)
    → st.surface_map surface ≡ some s
    → s.capture ≡ some old
    → env.current native ≡ some context
    → (old.context == context) ≡ false
    → try_init_capture gl env native dpy surface st c ≡ ((st, c), refused)
unfolding try_init_capture init_existing
refused_context gl env native dpy surface context s old st c f k q other =
    elim (Bool-cases (has_functions gl.loaded)) [
      | inr missing ↦ rw (try_init_capture, q, missing) refl
      | inl all ↦ rw (try_init_capture, q, all, f, init_existing, k, other) refl
    ]

invalid : LayerSurface → LayerSurface
invalid s = record s { capture_valid = false; capture = none }

invalidate-found :
    (surface : ℕ) (s : LayerSurface) (st : GlLayer)
    → st.surface_map surface ≡ some s
    → (invalidate surface st).surface_map surface ≡ some (invalid s)
unfolding invalidate invalid
invalidate-found surface s st f = rw (invalidate, f, ==_refl surface) refl

try_capture-invalid :
    {Context : Type 0} (gl : Commands Context) (env : Answers) (native : NativeIface)
    (dpy surface : ℕ) (s : LayerSurface) (st : GlLayer) (c : Context)
    → st.surface_map surface ≡ some (invalid s)
    → try_capture gl env native dpy surface st c ≡ ((st, c), nothing)
unfolding try_capture invalid
try_capture-invalid gl env native dpy surface s st c f = rw (try_capture, f) refl

try_capture-refused :
    {Context : Type 0} (gl : Commands Context) (env : Answers) (native : NativeIface)
    (dpy surface : ℕ) (s : LayerSurface) (st : GlLayer) (c : Context)
    → st.surface_map surface ≡ some s
    → s.capture_valid ≡ true
    → try_init_capture gl env native dpy surface st c ≡ ((st, c), refused)
    → try_capture gl env native dpy surface st c ≡ ((invalidate surface st, c), nothing)
unfolding try_capture init_and_capture
try_capture-refused gl env native dpy surface s st c f v r =
    rw (try_capture, f, v, init_and_capture, r) (rw r refl)

-- A surface whose initialization is refused for a capture of another context loses the capture,
-- and the next swaps of it, whatever the drivers then answer, do nothing.
pub try_capture-latched :
    {Context : Type 0} (gl : Commands Context) (env later : Answers) (native : NativeIface)
    (dpy surface context : ℕ) (s : LayerSurface) (old : LayerCapture) (st : GlLayer)
    (c c' : Context)
    → st.surface_map surface ≡ some s
    → s.capture_valid ≡ true
    → s.capture ≡ some old
    → env.current native ≡ some context
    → (old.context == context) ≡ false
    → let next = (try_capture gl env native dpy surface st c).0.0 in
      (capture_at surface next ≡ none)
      × (try_capture gl later native dpy surface next c' ≡ ((next, c'), nothing))
unfolding invalid
try_capture-latched gl env later native dpy surface context s old st c c' f v k q other =
    let r = refused_context gl env native dpy surface context s old st c f k q other in
    let gone = invalidate-found surface s st f in
    rw (try_capture-refused gl env native dpy surface s st c f v r) (
      rw (capture_at, gone) refl,
      try_capture-invalid gl later native dpy surface s (invalidate surface st) c' gone,
    )
