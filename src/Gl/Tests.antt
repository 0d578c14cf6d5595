-- ===== src/Gl/Tests.antt =====
-- The pool, the textures, the surfaces, the names and the negotiation on concrete inputs.
use pw_capture.Common.{
  ◌↔◌, ℕ, ◌+◌, ◌≡◌, refl, ◌≢◌, ◌≤◌, Option, true, none, some, List, [], ◌∷◌, new_map, insert, arith,
}
use pw_capture.Client.Format.{rgba}
use pw_capture.Client.Pod.{try_from, ok, Value, VideoRawInfo}
use pw_capture.Client.Params.{built, build_stream_params}
use pw_capture.Client.Negotiation.{updates, connect_params, react, on_param_changed}
use pw_capture.Client.Tests.{spa, keys}
use pw_capture.Cursor.Xcb.{Server}
use pw_capture.Cursor.Wayland.Snapshot.{Fetch, absent}
use pw_capture.Cursor.Info.{CursorSnapshot}
use pw_capture.Vulkan.Layer.{Layer}
use pw_capture.Vulkan.Surfaces.{wayland_handle, Surfaces, create_surface}
use pw_capture.Vulkan.Surfaces.Owned.{IsOwned, Reach, starts, creates}
use pw_capture.Gl.Managers.{CursorManagers, gl_managers, holds, IsFree, managers-IsOwned}
use pw_capture.Gl.State.{
  NativeIface, glx, egl, x11, egl_image, ExportTexture, LayerCapture, LayerSurface, GlLayer,
}
use pw_capture.Gl.Displays.{Enums, egl_platform_from_ext, impl_egl_get_platform_display}
use pw_capture.Gl.Surfaces.{Cursors, impl_egl_create_platform_window_surface}
use pw_capture.Gl.Surfaces.Windows.{manager_of, tracked, create-tracks}
use pw_capture.Gl.Textures.{exported, create_target_textures}
use pw_capture.Gl.Textures.Created.{Sound, create_target_textures-Sound}
use pw_capture.Gl.Pool.{map_texture}
use pw_capture.Gl.Pool.Apart.{one_if, mapped, copies, Distinct}
use pw_capture.Gl.Pool.Spec.{lend}
use pw_capture.Gl.Pool.Freed.{drop_capture}
use pw_capture.Gl.Pool.Freed.Once.{deleted, listed, run, drop_capture-once}
use pw_capture.Gl.Names.{
  calls, provides, wl_cursor_snapshot, impl_egl_swap_buffers, do_intercept, exported_symbol,
}
use pw_capture.Gl.Names.Agree.{exported_symbol-eq-do_intercept}
use pw_capture.Gl.Negotiation.{create_stream}
use pw_capture.Gl.Negotiation.Rounds.{create_stream-rounds}

abbrev texture_21 : ExportTexture
texture_21 = record { native = egl; dpy = 2; texture = 21; planes = []; image = egl_image 31 }

abbrev capture_one : LayerCapture
capture_one = record {
  context = 1;
  width = 8;
  height = 6;
  cursor_serial = 0;
  free_textures = texture_21 ∷ [];
  mapped_textures = new_map;
  sync_objects = new_map;
}

capture_one-Distinct : Distinct capture_one
unfolding copies
capture_one-Distinct = record { once = λ t. ground arith; own_key = λ t e k. ground arith }

keys_one : (t : ℕ) → listed t (21 ∷ []) ≡ mapped ((run (lend ∷ []) capture_one).mapped_textures t)
unfolding listed mapped run map_texture one_if
keys_one t = ground arith

drop_capture-once_example :
    (deleted 21 (drop_capture (21 ∷ []) [] (run (lend ∷ []) capture_one)) ≡ copies 21 capture_one)
    × (copies 21 capture_one ≤ 1)
drop_capture-once_example =
    drop_capture-once (lend ∷ []) capture_one (21 ∷ []) [] capture_one-Distinct keys_one 21

create_target_textures-Sound_example :
    Sound
      (λ x. exported (record { format = rgba; modifier = 0; image = egl_image x; planes = [] }))
      (21 ∷ 22 ∷ [])
      5
      (create_target_textures
        (λ x. exported (record { format = rgba; modifier = 0; image = egl_image x; planes = [] }))
        egl
        2
        (21 ∷ 22 ∷ [])
        5)
create_target_textures-Sound_example =
    create_target_textures-Sound
      (λ x. exported (record { format = rgba; modifier = 0; image = egl_image x; planes = [] })) egl
      2 5 (21 ∷ 22 ∷ [])

abbrev surface_of : LayerCapture → LayerSurface
surface_of c = record {
  native = egl;
  platform_surface = none;
  display = 2;
  surface = 7;
  cursor_manager = none;
  capture_valid = true;
  capture = some c;
}

abbrev two_surfaces : GlLayer
two_surfaces = record {
  display_map = new_map;
  surface_map =
      insert 7 (surface_of capture_one)
        (insert 8 (surface_of (record capture_one { context = 3 })) new_map);
}

-- The context is current under EGL only.
abbrev under_egl : NativeIface → Option ℕ
under_egl egl = some 1
under_egl glx = none

abbrev enums : Enums
enums = record { platform_x11_ext = 10; platform_xcb_ext = 11; platform_wayland_ext = 12 }

abbrev cursors : Cursors
cursors = record {
  xcb_window = λ w. true;
  memory = record { page_size = some 4096; mincore = λ p. true; word_at = λ p. p + 1 };
  egl_window = λ w. (3, w);
  get_cursor_manager = λ d s. true;
}

abbrev empty : GlLayer
empty = record { display_map = new_map; surface_map = new_map }

create-tracks_example :
    manager_of (
      (impl_egl_create_platform_window_surface cursors
          (λ w. w + 100)
          2
          60
          (impl_egl_get_platform_display enums 10 5 2 empty).0).0.surface_map
        161)
    ≡ tracked cursors x11 5 61
create-tracks_example =
    create-tracks enums cursors (λ w. w + 100) 10 5 2 60 x11 empty
      (unfold egl_platform_from_ext in refl) (λ e. ground (arith, e)) refl

exported_symbol-eq-do_intercept_example :
    ((exported_symbol "eglSwapBuffers" ≡ some (calls impl_egl_swap_buffers))
      ↔ (do_intercept "eglSwapBuffers" ≡ some impl_egl_swap_buffers))
    × (exported_symbol "me_eh5_pw_capture_wl_cursor_snapshot" ≡ some (provides wl_cursor_snapshot))
    × (do_intercept "me_eh5_pw_capture_wl_cursor_snapshot" ≡ none)
exported_symbol-eq-do_intercept_example =
    exported_symbol-eq-do_intercept "eglSwapBuffers" impl_egl_swap_buffers wl_cursor_snapshot

abbrev open_format : VideoRawInfo
open_format = record { format = rgba; dont_fixate_modifier = true; modifiers = 7 ∷ 7 ∷ [] }

create_stream-rounds_example :
    ((vs : List Value) × (connect_params spa (create_stream rgba 7 1 32 640 480) ≡ built vs)
      × ((v : Value) × (vs ≡ v ∷ [])
          × (try_from spa v
              ≡ ok
                  (record { format = rgba; dont_fixate_modifier = true; modifiers = 7 ∷ 7 ∷ [] }))))
    × ((fixed : Value) × (vs : List Value) × (react spa
            (create_stream rgba 7 1 32 640 480)
            open_format
          ≡ updates (fixed ∷ vs))
        × (on_param_changed spa
              (create_stream rgba 7 1 32 640 480)
              spa.param_format
              (some (some fixed))
            ≡ updates (build_stream_params spa 32 1 true)))
create_stream-rounds_example =
    create_stream-rounds spa keys rgba 7 1 32 640 480 open_format (7 ∷ []) (omega arith) refl refl
      refl

-- The interception tracks every surface, and the box of a manager is at address 100.
abbrev tracks_all : Option (ℕ → ℕ → Option ℕ)
tracks_all = some (λ display surface. some surface)

abbrev no_cursor : ℕ → ℕ → Fetch CursorSnapshot
no_cursor serial surface = absent

abbrev at_hundred : CursorManagers → ℕ
at_hundred m = 100

abbrev no_server : Server
no_server = record {
  connect = 1;
  query_version = λ c. none;
  get_geometry = λ c w. none;
  translate_coordinates = λ c w r. none;
  get_cursor_image = λ c. none;
}

abbrev one_instance : Layer
one_instance = record {
  instance_map = insert 1 (record { valid = true }) new_map;
  device_map = new_map;
  queue_map = new_map;
  swapchain_map = new_map;
}

abbrev no_surfaces : Surfaces CursorManagers
no_surfaces = record { surface_map = new_map; managers = new_map }

abbrev one_surface : Surfaces CursorManagers
one_surface =
    (create_surface (gl_managers tracks_all no_cursor at_hundred) no_server (wayland_handle 3 9)
      (some 40) 1 one_instance no_surfaces).0

one_surface-Reach :
    Reach
      (gl_managers tracks_all no_cursor at_hundred)
      no_server
      (holds tracks_all no_cursor at_hundred)
      (IsFree tracks_all no_cursor at_hundred)
      one_surface
unfolding holds
one_surface-Reach =
    creates no_surfaces (wayland_handle 3 9) (some 40) 1 one_instance
      (starts no_surfaces (λ i. refl) (λ h. ground arith)) (λ s e. refl)
      (λ z. ground (arith, z), refl)

managers-IsOwned_example :
    IsOwned (holds tracks_all no_cursor at_hundred) one_surface
    × (((i : ℕ) → one_surface.surface_map i ≡ none)
        → (h : ℕ) → h ≢ 0
        → one_surface.managers h ≡ none)
managers-IsOwned_example =
    managers-IsOwned tracks_all no_cursor at_hundred no_server one_surface one_surface-Reach
