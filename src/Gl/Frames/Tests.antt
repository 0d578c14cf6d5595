-- ===== src/Gl/Frames/Tests.antt =====
-- Frames on a context that is nothing but its bindings.
use pw_capture.Common.{
  ◌+◌, ℕ, ◌≡◌, ◌≢◌, refl, true, false, none, some, [], ◌∷◌, new_map, insert, arith,
}
use pw_capture.Client.Format.{rgba}
use pw_capture.Client.Stream.Types.{texture}
use pw_capture.Gl.State.{egl, gl_sync, egl_image, LayerCapture, LayerSurface, GlLayer}
use pw_capture.Gl.Displays.{Memory}
use pw_capture.Gl.Surfaces.{Cursors}
use pw_capture.Gl.Textures.{
  EglDriver, GlxDriver, egl_export_dmabuf, export_image, format_of_fourcc, Exported, exported,
  Target, created, create_target_textures, texture_of_export, target_of,
}
use pw_capture.Gl.Textures.Created.{create_target_textures-uniform}
use pw_capture.Gl.Pool.{process_texture}
use pw_capture.Gl.Pool.Spec.{lend, give_back, answers}
use pw_capture.Gl.Pool.Refine.{calls}
use pw_capture.Gl.Frames.{
  Loaded, Bindings, Commands, Lawful, nothing, panicked, new_sync, bind_target, capture,
}
use pw_capture.Gl.Frames.Restore.{waited_of, capture-restores, capture-fence}
use pw_capture.Gl.Frames.Init.{Answers, ready, has_functions, try_init_capture, try_capture}
use pw_capture.Gl.Frames.Init.Exports.{Exports}
use pw_capture.Gl.Frames.Init.Valid.{try_capture-safe}
use pw_capture.Gl.Frames.Init.Latched.{capture_at, try_capture-latched}
use pw_capture.Gl.Frames.Init.Fresh.{full_pool, try_init_capture-answers}

abbrev all_loaded : Loaded
all_loaded = record {
  blit = true;
  read_buffer = true;
  draw_buffer = true;
  draw_buffers = false;
  fence_sync = true;
  create_sync = false;
  create_sync_khr = false;
}

abbrev gl : Commands Bindings
gl = record {
  loaded = all_loaded;
  bindings = λ c. c;
  set_srgb = λ b c. record c { srgb = b };
  bind_read = λ n c. record c { read_fbo = n };
  bind_draw = λ n c. record c { draw_fbo = n };
  bind_texture = λ n c. record c { texture_2d = n };
  gen_framebuffer = λ c. (9, c);
  attach = λ t c. c;
  read_back = λ c. c;
  draw_to = λ c. c;
  blit = λ w h c. c;
  fence = λ c. (77, c);
  finish = λ c. c;
  delete_framebuffer = λ n c. c;
}

gl-Lawful : Lawful gl
gl-Lawful = record {
  on_srgb = λ b c. refl;
  on_read = λ n c. refl;
  on_draw = λ n c. refl;
  on_texture = λ n c. refl;
}

abbrev before : Bindings
before = record { srgb = true; read_fbo = 3; draw_fbo = 4; texture_2d = 5 }

abbrev held : LayerCapture
held = record {
  context = 1;
  width = 8;
  height = 6;
  cursor_serial = 0;
  free_textures = [];
  mapped_textures = new_map;
  sync_objects = new_map;
}

capture-restores_example :
    (gl.bindings (capture gl egl 2 (some (some (90, texture 21))) true held before).0.1 ≡ before)
    × ((capture gl egl 2 (some (some (90, texture 21))) true held before).1 ≢ panicked)
capture-restores_example =
    capture-restores gl gl-Lawful egl 2 (some (some (90, texture 21))) true held before refl tt

abbrev drawn : Bindings
drawn = record { srgb = false; read_fbo = 0; draw_fbo = 9; texture_2d = 21 }

capture-fence_example :
    (waited_of
        (process_texture none 21
          (capture gl egl 2 (some (some (90, texture 21))) true held before).0.0).1
      ≡ some (gl_sync egl 77))
    × ((process_texture none 21
            (capture gl egl 2 (some (some (90, texture 21))) true held before).0.0).0.sync_objects
          21
        ≡ none)
capture-fence_example =
    capture-fence gl egl 2 21 90 true held before drawn (gl_sync egl 77) none refl
      (unfold new_sync bind_target in refl)

abbrev memory : Memory
memory = record { page_size = some 4096; mincore = λ p. true; word_at = λ p. p }

abbrev cursors : Cursors
cursors = record {
  xcb_window = λ w. true;
  memory = memory;
  egl_window = λ w. (3, w);
  get_cursor_manager = λ d s. true;
}

abbrev of : ℕ → Exported
of x = record { format = rgba; modifier = 0; image = egl_image x; planes = [] }

abbrev env : Answers
env = record {
  cursors = cursors;
  current = λ n. some 1;
  extent = λ n s. (8, 6);
  textures = 21 ∷ 22 ∷ [];
  export = λ x. exported (of x);
  new_stream = λ t. true;
  dequeued = some none;
  queue_ok = true;
}

abbrev common : Target
common = record { format = rgba; modifier = 0; num_planes = 0 }

made_now :
    (b : ℕ)
    → create_target_textures env.export egl 2 env.textures b
      ≡ created common
          (texture_of_export egl 2 21 (of 21) ∷ texture_of_export egl 2 22 (of 22) ∷ [])
          b
made_now b =
    create_target_textures-uniform env.export egl 2 b common of 21 (22 ∷ []) (λ y. refl)
      (λ y. unfold target_of in refl)

-- Every texture is exported as rgba, without planes.
abbrev egl_driver : EglDriver
egl_driver = record {
  query_loaded = true;
  export_loaded = true;
  create_image_loaded = true;
  create_image_khr_loaded = true;
  create_image = λ t. t + 1;
  create_image_khr = λ t. t + 1;
  query = λ i. some (875708993, 0);
  export = λ i. some [];
}

abbrev glx_driver : GlxDriver
glx_driver = record {
  x11_lib = false;
  bind_loaded = false;
  xcb_conn = 0;
  fb_configs = 0;
  glx_pixmap = λ t. t;
  x_pixmap = λ t. t;
  reply = λ p. none;
}

abbrev env_egl : Answers
env_egl = record env { export = egl_export_dmabuf egl_driver 6 }

one_target : (t : ℕ) (y : Exported) → env_egl.export t ≡ exported y → target_of y ≡ common
unfolding egl_export_dmabuf export_image format_of_fourcc target_of
one_target t y q = ground (arith, q)

env-Exports : Exports egl_driver glx_driver env_egl egl
env-Exports = record {
  height = 6;
  target = common;
  exports = λ t. refl;
  both = refl;
  alike = one_target;
}

abbrev surface : LayerSurface
surface = record {
  native = egl;
  platform_surface = none;
  display = 2;
  surface = 7;
  cursor_manager = none;
  capture_valid = true;
  capture = none;
}

abbrev layer : GlLayer
layer = record { display_map = new_map; surface_map = insert 7 surface new_map }

try_capture-safe_example : (try_capture gl env_egl egl 2 7 layer before).1 ≢ panicked
try_capture-safe_example =
    try_capture-safe gl env_egl gl-Lawful egl_driver glx_driver egl 2 7 layer before tt env-Exports

abbrev captured : GlLayer
captured = record layer {
  surface_map = insert 7 (record surface { capture = some (record held { context = 6 }) }) new_map;
}

try_capture-latched_example :
    (capture_at 7 (try_capture gl env egl 2 7 captured before).0.0 ≡ none)
    × (try_capture gl env egl 2 7 (try_capture gl env egl 2 7 captured before).0.0 before
        ≡ (((try_capture gl env egl 2 7 captured before).0.0, before), nothing))
try_capture-latched_example =
    try_capture-latched gl env env egl 2 7 1
      (record surface { capture = some (record held { context = 6 }) })
      (record held { context = 6 }) captured before before refl refl refl refl refl

try_init_capture-answers_example :
    ((try_init_capture gl env egl 2 7 layer before).1 ≡ ready)
    × (calls 7
          (lend ∷ lend ∷ lend ∷ give_back 21 ∷ [])
          (try_init_capture gl env egl 2 7 layer before).0.0
        ≡ answers (lend ∷ lend ∷ lend ∷ give_back 21 ∷ []) (full_pool (21 ∷ 22 ∷ [])))
try_init_capture-answers_example =
    try_init_capture-answers gl env egl 2 7 1 surface common
      (texture_of_export egl 2 21 (of 21) ∷ texture_of_export egl 2 22 (of 22) ∷ []) 5 layer before
      (lend ∷ lend ∷ lend ∷ give_back 21 ∷ []) refl refl refl (unfold has_functions in refl)
      (made_now 5) refl

pool_runs :
    answers (lend ∷ lend ∷ lend ∷ give_back 21 ∷ lend ∷ []) (full_pool (21 ∷ 22 ∷ []))
    ≡ some 21 ∷ some 22 ∷ none ∷ some 21 ∷ some 21 ∷ []
unfolding answers
pool_runs = refl
