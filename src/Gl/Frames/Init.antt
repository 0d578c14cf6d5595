-- ===== src/Gl/Frames/Init.antt =====
-- The capture of a surface at a buffer swap: try_init_capture, try_capture, egl_swap_buffer and the
-- swap functions of gl/src/interface/implementation.rs.
pub mod Exports
pub mod Valid
pub mod Latched
pub mod Fresh
use pw_capture.Common.{
  ℕ, Bool, true, false, not, ◌==◌, if◌then◌else◌, ◌&&◌, ◌||◌, Option, none, some, List, [], ◌∷◌,
  new_map, insert,
}
use pw_capture.Client.Stream.Types.{BufferUserHandle}
use pw_capture.Gl.State.{NativeIface, glx, egl, LayerCapture, LayerSurface, GlLayer, ExportTexture}
use pw_capture.Gl.Surfaces.{Cursors, try_init_surface}
use pw_capture.Gl.Textures.{
  Export, Target, Creation, created, creation_failed, creation_panics, create_target_textures,
}
use pw_capture.Gl.Frames.{Loaded, Bindings, Commands, Captured, nothing, failed, panicked, capture}

-- What the drivers and the client answer: the current context, the extent of a surface, the names
-- and the export of textures, whether a stream is created for a target, what the stream dequeues
-- and whether it takes the buffer.
pub record Answers : Type 0 where
  pub cursors : Cursors
  pub current : NativeIface → Option ℕ
  pub extent : NativeIface → ℕ → ℕ × ℕ
  pub textures : List ℕ
  pub export : ℕ → Export
  pub new_stream : Target → Bool
  pub dequeued : Option (Option (ℕ × BufferUserHandle))
  pub queue_ok : Bool

pub data Init : Type 0 where
  ready refused init_panics : Init

-- The test of the functions that the capture calls.
unfoldable pub has_functions : Loaded → Bool
has_functions l = l.blit && l.read_buffer && (l.draw_buffer || l.draw_buffers)

unfoldable pub set_capture : ℕ → Option LayerCapture → LayerSurface → GlLayer → GlLayer
set_capture surface c s st = record st {
  surface_map = insert surface (record s { capture = c }) st.surface_map;
}

unfoldable pub new_capture : ℕ → ℕ → ℕ → List ExportTexture → LayerCapture
new_capture context width height textures = record {
  context = context;
  width = width;
  height = height;
  cursor_serial = 0;
  free_textures = textures;
  mapped_textures = new_map;
  sync_objects = new_map;
}

-- A refused initialization leaves the surface without a capture, and no longer valid.
unfoldable pub invalidate : ℕ → GlLayer → GlLayer
invalidate surface st = elim (st.surface_map surface) [
  | none ↦ st
  | some s ↦ record st {
    surface_map =
        insert surface (record s { capture_valid = false; capture = none }) st.surface_map;
  }
]

module _ {Context : Type 0} (gl : Commands Context) (env : Answers) where
  -- The textures, the stream and the new capture, for a surface that has none.
  unfoldable pub make_capture :
      NativeIface → ℕ → ℕ → ℕ → LayerSurface → GlLayer → Context → (GlLayer × Context) × Init
  unfolding create_target_textures set_capture new_capture
  make_capture native dpy surface context s st c =
      let (width, height) = env.extent native surface in
      elim (create_target_textures env.export native dpy env.textures (gl.bindings c).texture_2d) [
        | creation_panics ↦ ((st, c), init_panics)
        | creation_failed es deleted bound ↦ ((st, gl.bind_texture bound c), refused)
        | created target es bound ↦
            if env.new_stream target
            then (
              (
                set_capture surface (some (new_capture context width height es))
                    (record s { capture_valid = true }) st,
                gl.bind_texture bound c,
              ),
              ready,
            )
            else ((st, gl.bind_texture bound c), refused)
      ]

  -- A capture of the same context and extent is kept; one of another extent is replaced, its
  -- stream told to terminate.
  unfoldable pub init_existing :
      NativeIface → ℕ → ℕ → ℕ → LayerSurface → GlLayer → Context → (GlLayer × Context) × Init
  unfolding make_capture set_capture
  init_existing native dpy surface context s st c = elim s.capture [
    | none ↦ make_capture native dpy surface context s st c
    | some old ↦
        let (width, height) = env.extent native surface in
        if not (old.context == context)
        then ((st, c), refused)
        else if old.width == width && old.height == height
        then ((st, c), ready)
        else make_capture native dpy surface context (record s { capture = none })
            (set_capture surface none s st) c
  ]

  unfoldable pub try_init_capture :
      NativeIface → ℕ → ℕ → GlLayer → Context → (GlLayer × Context) × Init
  unfolding has_functions init_existing
  try_init_capture native dpy surface st c = elim (env.current native) [
    | none ↦ ((st, c), refused)
    | some context ↦
        if not (has_functions gl.loaded)
        then ((st, c), refused)
        else elim (st.surface_map surface) [
          | none ↦ ((st, c), refused)
          | some s ↦ init_existing native dpy surface context s st c
        ]
  ]

  unfoldable pub capture_surface :
      NativeIface → ℕ → ℕ → GlLayer → Context → (GlLayer × Context) × Captured
  unfolding capture set_capture
  capture_surface native dpy surface st c = elim (st.surface_map surface) [
    | none ↦ ((st, c), nothing)
    | some s ↦ elim s.capture [
      | none ↦ ((st, c), panicked)
      | some layer ↦
          let (out, done) = capture gl native dpy env.dequeued env.queue_ok layer c in
          ((set_capture surface (some out.0) s st, out.1), done)
    ]
  ]

  unfoldable pub init_and_capture :
      NativeIface → ℕ → ℕ → GlLayer → Context → (GlLayer × Context) × Captured
  unfolding try_init_capture invalidate capture_surface
  init_and_capture native dpy surface st c =
      let (out, answer) = try_init_capture native dpy surface st c in
      elim answer [
        | ready ↦ capture_surface native dpy surface out.0 out.1
        | refused ↦ ((invalidate surface out.0, out.1), nothing)
        | init_panics ↦ (out, panicked)
      ]

  unfoldable pub try_capture :
      NativeIface → ℕ → ℕ → GlLayer → Context → (GlLayer × Context) × Captured
  unfolding try_init_surface init_and_capture
  try_capture native dpy surface st c = elim (st.surface_map surface) [
    | some s ↦
        let go = init_and_capture native dpy surface st c in
        if s.capture_valid then go else ((st, c), nothing)
    | none ↦
        init_and_capture native dpy surface
          (try_init_surface env.cursors native dpy surface none st) c
  ]

  -- The swap goes on to the driver after it; `gl_api` is whether the current API is OpenGL or
  -- OpenGL ES.
  unfoldable pub egl_swap_buffer : Bool → ℕ → ℕ → GlLayer → Context → (GlLayer × Context) × Captured
  unfolding try_capture
  egl_swap_buffer gl_api dpy surface st c =
      let go = try_capture egl dpy surface st c in if gl_api then go else ((st, c), nothing)

  unfoldable pub impl_glx_swap_buffers : ℕ → ℕ → GlLayer → Context → (GlLayer × Context) × Captured
  unfolding try_capture
  impl_glx_swap_buffers dpy drawable st c = try_capture glx dpy drawable st c
