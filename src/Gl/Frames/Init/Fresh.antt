-- ===== src/Gl/Frames/Init/Fresh.antt =====
-- A surface that is captured for the first time starts with the textures that were created.
use pw_capture.Common.{ℕ, ◌≡◌, refl, true, false, none, some, List, map, ==_refl, arith}
use pw_capture.Gl.State.{NativeIface, ExportTexture, LayerCapture, LayerSurface, GlLayer}
use pw_capture.Gl.Textures.{Target, created, create_target_textures}
use pw_capture.Gl.Textures.Created.{Sound, create_target_textures-Sound}
use pw_capture.Gl.Pool.Spec.{Op, Pool, answers}
use pw_capture.Gl.Pool.Refine.{Holds, SurfaceHolds, calls, calls-eq-answers}
use pw_capture.Gl.Frames.{Commands}
use pw_capture.Gl.Frames.Init.{
  Answers, ready, has_functions, set_capture, new_capture, make_capture, init_existing,
  try_init_capture,
}

-- A pool that nothing is lent from.
abbrev pub full_pool : List ℕ → Pool
full_pool names = record { free = names; lent = λ t. false }

new_capture-Holds :
    (context width height : ℕ) (es : List ExportTexture) (names : List ℕ)
    → map (λ e. e.texture) es ≡ names
    → Holds (new_capture context width height es) (full_pool names)
unfolding new_capture
new_capture-Holds context width height es names q = record {
  free_eq = q;
  lent_eq = λ t. refl;
  own_key = λ t e k. ground arith;
}

set_capture-Holds :
    (surface : ℕ) (x : LayerCapture) (s : LayerSurface) (st : GlLayer) (p : Pool)
    → Holds x p
    → SurfaceHolds surface (set_capture surface (some x) s st) p
unfolding set_capture
set_capture-Holds surface x s st p h = record {
  layer = record s { capture = some x };
  held = x;
  found = rw (==_refl surface) refl;
  captured = refl;
  holds = h;
}

module _ {Context : Type 0} (gl : Commands Context) (env : Answers) where
  made :
      (native : NativeIface) (dpy surface context : ℕ) (s : LayerSurface) (target : Target)
      (es : List ExportTexture) (bound : ℕ) (st : GlLayer) (c : Context)
      → st.surface_map surface ≡ some s
      → s.capture ≡ none
      → env.current native ≡ some context
      → has_functions gl.loaded ≡ true
      → create_target_textures env.export native dpy env.textures (gl.bindings c).texture_2d
        ≡ created target es bound
      → env.new_stream target ≡ true
      → try_init_capture gl env native dpy surface st c ≡ (
        (
          set_capture surface
              (some (
                new_capture context (env.extent native surface).0 (env.extent native surface).1 es))
              (record s { capture_valid = true })
              st,
          gl.bind_texture bound c,
        ),
        ready,
      )
  unfolding try_init_capture init_existing make_capture
  made native dpy surface context s target es bound st c f n q all m stream =
      rw (try_init_capture, q, all, f, init_existing, n, make_capture, m, stream) refl

  -- The first capture of a surface is initialized where the textures are created and the stream is,
  -- and from then on adding and removing buffers, in any order and number, answers as a pool of the
  -- names that the driver generated, all of them free at first and lent in their order.
  pub try_init_capture-answers :
      (native : NativeIface) (dpy surface context : ℕ) (s : LayerSurface) (target : Target)
      (es : List ExportTexture) (bound : ℕ) (st : GlLayer) (c : Context) (ops : List Op)
      → st.surface_map surface ≡ some s
      → s.capture ≡ none
      → env.current native ≡ some context
      → has_functions gl.loaded ≡ true
      → create_target_textures env.export native dpy env.textures (gl.bindings c).texture_2d
        ≡ created target es bound
      → env.new_stream target ≡ true
      → ((try_init_capture gl env native dpy surface st c).1 ≡ ready)
        × (calls surface ops (try_init_capture gl env native dpy surface st c).0.0
            ≡ answers ops (full_pool env.textures))
  try_init_capture-answers native dpy surface context s target es bound st c ops f n q all m
        stream =
      let sound : Sound env.export env.textures (gl.bindings c).texture_2d
          (created target es bound) =
        rw m at (
          create_target_textures-Sound env.export native dpy (gl.bindings c).texture_2d
            env.textures) in
      let held =
        set_capture-Holds surface _ (record s { capture_valid = true }) st (full_pool env.textures)
          (new_capture-Holds context (env.extent native surface).0 (env.extent native surface).1 es
            env.textures sound.0) in
      rw (made native dpy surface context s target es bound st c f n q all m stream)
        (refl, calls-eq-answers surface ops _ (full_pool env.textures) held)
