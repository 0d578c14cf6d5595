-- ===== src/Gl/Surfaces.antt =====
-- The surfaces of the OpenGL layer, as gl/src/interface/implementation.rs keeps them: creation of
-- window surfaces, try_init_surface, and the destruction of surfaces and contexts.
pub mod Destroy
pub mod Windows
use pw_capture.Common.{
  ℕ, ◌%◌, ◌^◌, Bool, true, false, ◌==◌, if◌then◌else◌, Option, none, some, List, [], ◌∷◌, insert,
  remove,
}
use pw_capture.Gl.State.{
  NativeIface, glx, egl, EglPlatform, x11, xcb, wayland, unknown_platform, EglDisplay,
  GlCursorManager, xcb_manager, wl_manager, LayerSurface, GlLayer,
}
use pw_capture.Gl.Displays.{Memory, fixup_native_pixmap, wl_egl_window_get_wl_surface}

-- Whether an X11 window can be tracked, the version and surface fields of a wl_egl_window, and the
-- interception's cursor manager for a Wayland display and surface.
pub record Cursors : Type 0 where
  pub xcb_window : ℕ → Bool
  pub memory : Memory
  pub egl_window : ℕ → ℕ × ℕ
  pub get_cursor_manager : ℕ → ℕ → Bool

-- The window's number is cut to 32 bits.
unfoldable pub create_xcb_cursor_manager : Cursors → ℕ → Option GlCursorManager
create_xcb_cursor_manager e window =
    let w = window % 2 ^ 32 in if e.xcb_window w then some (xcb_manager w) else none

unfoldable pub wl_cursor_manager : Cursors → ℕ → ℕ → Option GlCursorManager
unfolding wl_egl_window_get_wl_surface
wl_cursor_manager e display window =
    let s = wl_egl_window_get_wl_surface e.memory (e.egl_window window).0 (e.egl_window window).1 in
    if s == 0 then none else if e.get_cursor_manager display s then some (wl_manager s) else none

unfoldable pub egl_cursor_manager : Cursors → EglDisplay → ℕ → Option GlCursorManager
unfolding create_xcb_cursor_manager wl_cursor_manager
egl_cursor_manager e d window = elim d.platform [
  | none ↦ create_xcb_cursor_manager e window
  | some x11 ↦ create_xcb_cursor_manager e window
  | some xcb ↦ create_xcb_cursor_manager e window
  | some wayland ↦ wl_cursor_manager e d.platform_display window
  | some unknown_platform ↦ none
]

unfoldable pub cursor_manager_for :
    Cursors → NativeIface → ℕ → Option ℕ → GlLayer → Option GlCursorManager
unfolding egl_cursor_manager create_xcb_cursor_manager
cursor_manager_for e native dpy none st = none
cursor_manager_for e glx dpy (some window) st = create_xcb_cursor_manager e window
cursor_manager_for e egl dpy (some window) st = elim (st.display_map dpy) [
  | none ↦ none
  | some d ↦ elim d.egl_display [ none ↦ none | some x ↦ egl_cursor_manager e x window ]
]

unfoldable pub platform_surface_of : NativeIface → ℕ → Option ℕ → Option ℕ
platform_surface_of glx surface window = some surface
platform_surface_of egl surface window = window

unfoldable pub try_init_surface : Cursors → NativeIface → ℕ → ℕ → Option ℕ → GlLayer → GlLayer
unfolding cursor_manager_for platform_surface_of
try_init_surface e native dpy surface window st = elim (st.surface_map surface) [
  | some s ↦ st
  | none ↦
      let platform_surface = platform_surface_of native surface window in
      record st {
        surface_map =
            insert surface
              (record {
                native = native;
                platform_surface = platform_surface;
                display = dpy;
                surface = surface;
                cursor_manager = cursor_manager_for e native dpy platform_surface st;
                capture_valid = true;
                capture = none;
              })
              st.surface_map;
      }
]

-- `create` is the driver's: the surface that it makes for the window it is given.
unfoldable pub impl_egl_create_window_surface : Cursors → (ℕ → ℕ) → ℕ → ℕ → GlLayer → GlLayer × ℕ
unfolding try_init_surface
impl_egl_create_window_surface e create dpy win st =
    (try_init_surface e egl dpy (create win) (some win) st, create win)

unfoldable pub impl_egl_create_platform_window_surface :
    Cursors → (ℕ → ℕ) → ℕ → ℕ → GlLayer → GlLayer × ℕ
unfolding try_init_surface fixup_native_pixmap
impl_egl_create_platform_window_surface e create dpy win st =
    let w = fixup_native_pixmap e.memory dpy win st in
    (try_init_surface e egl dpy (create w) (some w) st, create w)

unfoldable pub impl_egl_create_platform_window_surface_ext :
    Cursors → (ℕ → ℕ) → ℕ → ℕ → GlLayer → GlLayer × ℕ
unfolding try_init_surface fixup_native_pixmap
impl_egl_create_platform_window_surface_ext e create dpy win st =
    let w = fixup_native_pixmap e.memory dpy win st in
    (try_init_surface e egl dpy (create w) (some w) st, create w)

-- Whether the surface has a capture of the context.
unfoldable pub captured_by : ℕ → Option LayerSurface → Bool
captured_by context none = false
captured_by context (some s) = elim s.capture [ none ↦ false | some c ↦ c.context == context ]

-- `current` is the calling thread's context under an interface.
unfoldable pub is_destroyed : (NativeIface → Option ℕ) → Option LayerSurface → Bool
unfolding captured_by
is_destroyed current none = false
is_destroyed current (some s) = elim s.capture [
  | none ↦ true
  | some c ↦ elim (current s.native) [ none ↦ false | some context ↦ c.context == context ]
]

unfoldable pub destroy_surface : (NativeIface → Option ℕ) → ℕ → GlLayer → GlLayer
unfolding is_destroyed
destroy_surface current surface st =
    if is_destroyed current (st.surface_map surface)
    then record st { surface_map = remove surface st.surface_map }
    else st

-- `keys` are the map's keys as its iteration gives them.
unfoldable pub captured_keys : ℕ → List ℕ → GlLayer → List ℕ
unfolding captured_by
captured_keys context [] st = []
captured_keys context (k ∷ keys) st =
    let rest = captured_keys context keys st in
    if captured_by context (st.surface_map k) then k ∷ rest else rest

unfoldable pub destroy_all : (NativeIface → Option ℕ) → List ℕ → GlLayer → GlLayer
unfolding destroy_surface
destroy_all current [] st = st
destroy_all current (k ∷ keys) st = destroy_all current keys (destroy_surface current k st)

unfoldable pub destroy_context : (NativeIface → Option ℕ) → List ℕ → ℕ → GlLayer → GlLayer
unfolding captured_keys destroy_all
destroy_context current keys context st = destroy_all current (captured_keys context keys st) st
