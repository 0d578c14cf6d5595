-- ===== src/Gl/Surfaces/Windows.antt =====
-- From the display of a platform to the cursor manager of a window's surface.
use pw_capture.Common.{
  ℕ, ◌%◌, ◌^◌, if◌then◌else◌, ◌≡◌, refl, ◌≢◌, false, ◌==◌, ==_refl, Option, none, some, arith,
  insert,
}
use pw_capture.Gl.State.{
  EglPlatform, LayerDisplay, egl, x11, xcb, wayland, unknown_platform, GlCursorManager, xcb_manager,
  wl_manager, LayerSurface, GlLayer,
}
use pw_capture.Gl.Displays.{
  Enums, Memory, egl_platform_from_ext, add_egl_display, impl_egl_get_platform_display, platform_of,
  fixup_native_pixmap,
}
use pw_capture.Gl.Surfaces.{
  Cursors, wl_egl_window_get_wl_surface, create_xcb_cursor_manager, wl_cursor_manager,
  egl_cursor_manager, cursor_manager_for, try_init_surface, impl_egl_create_platform_window_surface,
  platform_surface_of,
}

-- The window that a caller means: under X11 it passes a pointer to it.
abbrev pub meant : Memory → EglPlatform → ℕ → ℕ
meant m x11 win = m.word_at win
meant m xcb win = m.word_at win
meant m wayland win = win
meant m unknown_platform win = win

-- The cursor of an X11 window, whose number has 32 bits.
abbrev pub of_window : Cursors → ℕ → Option GlCursorManager
of_window e window =
    if e.xcb_window (window % 2 ^ 32) then some (xcb_manager (window % 2 ^ 32)) else none

-- The cursor of the surface of a wl_egl_window, on a display.
abbrev pub of_surface : Cursors → ℕ → ℕ → Option GlCursorManager
of_surface e display surface =
    if surface == 0
    then none
    else if e.get_cursor_manager display surface
    then some (wl_manager surface)
    else none

-- The manager that is meant for a platform, its display and a window.
abbrev pub tracked : Cursors → EglPlatform → ℕ → ℕ → Option GlCursorManager
tracked e x11 display window = of_window e window
tracked e xcb display window = of_window e window
tracked e wayland display window =
    of_surface e display
      (wl_egl_window_get_wl_surface e.memory (e.egl_window window).0 (e.egl_window window).1)
tracked e unknown_platform display window = none

abbrev pub manager_of : Option LayerSurface → Option GlCursorManager
manager_of none = none
manager_of (some s) = s.cursor_manager

not_null : (n : ℕ) → n ≢ 0 → (n == 0) ≡ false
not_null n h = ground arith

display_for : EglPlatform → ℕ → LayerDisplay
display_for p native = record {
  egl_display = some (record { platform_display = native; platform = some p });
}

add_display : EglPlatform → ℕ → ℕ → GlLayer → GlLayer
add_display p native dpy st = record st {
  display_map = insert dpy (display_for p native) st.display_map;
}

display-added :
    (k : Enums) (platform native dpy : ℕ) (p : EglPlatform) (st : GlLayer)
    → egl_platform_from_ext k platform ≡ p
    → dpy ≢ 0
    → (impl_egl_get_platform_display k platform native dpy st).0 ≡ add_display p native dpy st
unfolding impl_egl_get_platform_display add_egl_display display_for add_display
display-added k platform native dpy p st q d = rw (add_egl_display, not_null dpy d, q) refl

fixup_native_pixmap-meant :
    (m : Memory) (p : EglPlatform) (native dpy win : ℕ) (st : GlLayer)
    → st.display_map dpy ≡ some (display_for p native)
    → fixup_native_pixmap m dpy win st ≡ meant m p win
unfolding fixup_native_pixmap platform_of display_for
fixup_native_pixmap-meant m x11 native dpy win st q = rw (fixup_native_pixmap, platform_of, q) refl
fixup_native_pixmap-meant m xcb native dpy win st q = rw (fixup_native_pixmap, platform_of, q) refl
fixup_native_pixmap-meant m wayland native dpy win st q =
    rw (fixup_native_pixmap, platform_of, q) refl
fixup_native_pixmap-meant m unknown_platform native dpy win st q =
    rw (fixup_native_pixmap, platform_of, q) refl

cursor_manager_for-tracked :
    (e : Cursors) (p : EglPlatform) (native dpy window : ℕ) (st : GlLayer)
    → st.display_map dpy ≡ some (display_for p native)
    → cursor_manager_for e egl dpy (some window) st ≡ tracked e p native window
unfolding cursor_manager_for egl_cursor_manager display_for create_xcb_cursor_manager
    wl_cursor_manager
cursor_manager_for-tracked e x11 native dpy window st q = rw (cursor_manager_for, q) refl
cursor_manager_for-tracked e xcb native dpy window st q = rw (cursor_manager_for, q) refl
cursor_manager_for-tracked e wayland native dpy window st q = rw (cursor_manager_for, q) refl
cursor_manager_for-tracked e unknown_platform native dpy window st q =
    rw (cursor_manager_for, q) refl

try_init_surface-manager :
    (e : Cursors) (dpy surface window : ℕ) (st : GlLayer)
    → st.surface_map surface ≡ none
    → manager_of ((try_init_surface e egl dpy surface (some window) st).surface_map surface)
      ≡ cursor_manager_for e egl dpy (some window) st
unfolding try_init_surface platform_surface_of
try_init_surface-manager e dpy surface window st n = rw (try_init_surface, n, ==_refl surface) refl

-- A surface created for a window of a display that was got for a platform tracks the cursor of that
-- window, if it can be tracked: under X11 of the window the caller means, by the low 32 bits of its
-- number, and under Wayland of the surface behind the window, if there is one, on the display it
-- was got for. The driver's display is not null, and its surface has no entry yet.
pub create-tracks :
    (k : Enums) (e : Cursors) (create : ℕ → ℕ) (platform native dpy win : ℕ) (p : EglPlatform)
    (st : GlLayer)
    → egl_platform_from_ext k platform ≡ p
    → dpy ≢ 0
    → st.surface_map (create (meant e.memory p win)) ≡ none
    → manager_of (
        (impl_egl_create_platform_window_surface e create dpy win
            (impl_egl_get_platform_display k platform native dpy st).0).0.surface_map
          (create (meant e.memory p win)))
      ≡ tracked e p native (meant e.memory p win)
unfolding impl_egl_create_platform_window_surface add_display
create-tracks k e create platform native dpy win p st q d n =
    let known : (add_display p native dpy st).display_map dpy ≡ some (display_for p native) =
      rw ==_refl refl in
    rw
      (
        display-added k platform native dpy p st q d,
        fixup_native_pixmap-meant e.memory p native dpy win (add_display p native dpy st) known,
        try_init_surface-manager e dpy (create (meant e.memory p win)) (meant e.memory p win)
            (add_display p native dpy st) n,
      )
      (cursor_manager_for-tracked e p native dpy (meant e.memory p win)
        (add_display p native dpy st) known)
