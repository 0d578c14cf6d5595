-- ===== src/Gl/Displays.antt =====
-- The displays of the OpenGL layer: gl/src/utils/egl.rs, and the calls on displays in
-- gl/src/interface/implementation.rs. A pointer is its number, 0 is null. What reading memory and
-- asking the system gives are arguments.
use pw_capture.Common.{
  ℕ, ◌-◌, ◌%◌, Bool, false, not, ◌==◌, if◌then◌else◌, Option, none, some, String, str_eq, insert,
  remove,
}
use pw_capture.Gl.State.{EglPlatform, x11, xcb, wayland, unknown_platform, GlLayer}

-- The constants of the bindings: eglPlatform values and the null display.
pub record Enums : Type 0 where
  pub platform_x11_ext : ℕ
  pub platform_xcb_ext : ℕ
  pub platform_wayland_ext : ℕ

unfoldable pub egl_platform_from_ext : Enums → ℕ → EglPlatform
egl_platform_from_ext k p =
    if p == k.platform_x11_ext
    then x11
    else if p == k.platform_xcb_ext
    then xcb
    else if p == k.platform_wayland_ext
    then wayland
    else unknown_platform

unfoldable pub platform_named : String → EglPlatform
platform_named name =
    if str_eq name "x11"
    then x11
    else if str_eq name "xcb"
    then xcb
    else if str_eq name "wayland"
    then xcb
    else unknown_platform

unfoldable pub non_empty : Option String → Option String
non_empty none = none
non_empty (some name) = if str_eq name "" then none else some name

-- EGL_PLATFORM and EGL_DISPLAY of the environment.
unfoldable pub egl_get_native_platform_from_env : Option String → Option String → Option EglPlatform
unfolding platform_named non_empty
egl_get_native_platform_from_env platform display = elim (non_empty platform) [
  | some name ↦ some (platform_named name)
  | none ↦ elim (non_empty display) [ some name ↦ some (platform_named name) | none ↦ none ]
]

-- The page size, `none` where it is not positive, and whether `mincore` knows a page.
pub record Memory : Type 0 where
  pub page_size : Option ℕ
  pub mincore : ℕ → Bool
  pub word_at : ℕ → ℕ

unfoldable pub egl_pointer_is_dereferencable : Memory → ℕ → Bool
egl_pointer_is_dereferencable m p =
    if p == 0
    then false
    else elim m.page_size [ none ↦ false | some size ↦ m.mincore (p - p % size) ]

-- `interface` is the address of wl_display_interface, if the library loads.
unfoldable pub egl_native_platform_detect_native_display :
    Memory → Option ℕ → ℕ → Option EglPlatform
unfolding egl_pointer_is_dereferencable
egl_native_platform_detect_native_display m interface display =
    if display == 0
    then none
    else if not (egl_pointer_is_dereferencable m display)
    then none
    else if m.word_at display == 0
    then none
    else elim interface [
      | none ↦ none
      | some address ↦ if address == m.word_at display then some wayland else none
    ]

pub record Detection : Type 0 where
  pub env_platform : Option String
  pub env_display : Option String
  pub memory : Memory
  pub wl_display_interface : Option ℕ

unfoldable pub egl_get_native_platform : Detection → ℕ → Option EglPlatform
unfolding egl_get_native_platform_from_env egl_native_platform_detect_native_display
egl_get_native_platform d display =
    elim (egl_get_native_platform_from_env d.env_platform d.env_display) [
      | some p ↦ some p
      | none ↦ egl_native_platform_detect_native_display d.memory d.wl_display_interface display
    ]

-- The window's version, or in older structs the surface itself, and its surface.
unfoldable pub wl_egl_window_get_wl_surface : Memory → ℕ → ℕ → ℕ
unfolding egl_pointer_is_dereferencable
wl_egl_window_get_wl_surface m version surface =
    if egl_pointer_is_dereferencable m version then version else if version == 3 then surface else 0

unfoldable pub add_egl_display : ℕ → Option EglPlatform → ℕ → GlLayer → GlLayer
add_egl_display dpy platform native_display st = if dpy == 0 then st else record st {
  display_map =
      insert dpy
        (record {
          egl_display = some (record { platform_display = native_display; platform = platform });
        })
        st.display_map;
}

-- Each call passes on the display that the driver gives, `dpy`.
unfoldable pub impl_egl_get_display : Detection → ℕ → ℕ → GlLayer → GlLayer × ℕ
unfolding egl_get_native_platform add_egl_display
impl_egl_get_display d native_display dpy st =
    (add_egl_display dpy (egl_get_native_platform d native_display) native_display st, dpy)

unfoldable pub impl_egl_get_platform_display : Enums → ℕ → ℕ → ℕ → GlLayer → GlLayer × ℕ
unfolding egl_platform_from_ext add_egl_display
impl_egl_get_platform_display k platform native_display dpy st =
    (add_egl_display dpy (some (egl_platform_from_ext k platform)) native_display st, dpy)

unfoldable pub impl_egl_get_platform_display_ext : Enums → ℕ → ℕ → ℕ → GlLayer → GlLayer × ℕ
unfolding egl_platform_from_ext add_egl_display
impl_egl_get_platform_display_ext k platform native_display dpy st =
    (add_egl_display dpy (some (egl_platform_from_ext k platform)) native_display st, dpy)

unfoldable pub impl_egl_terminate : ℕ → GlLayer → GlLayer
impl_egl_terminate dpy st = record st { display_map = remove dpy st.display_map }

unfoldable pub platform_of : ℕ → GlLayer → Option EglPlatform
platform_of dpy st = elim (st.display_map dpy) [
  | none ↦ none
  | some d ↦ elim d.egl_display [ none ↦ none | some e ↦ e.platform ]
]

-- A window of X11 is passed as a pointer to it.
unfoldable pub fixup_native_pixmap : Memory → ℕ → ℕ → GlLayer → ℕ
unfolding platform_of
fixup_native_pixmap m dpy window st = elim (platform_of dpy st) [
  | none ↦ window
  | some x11 ↦ m.word_at window
  | some xcb ↦ m.word_at window
  | some p ↦ window
]
