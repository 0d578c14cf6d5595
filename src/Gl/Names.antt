-- ===== src/Gl/Names.antt =====
-- The names that the OpenGL layer answers for: do_intercept, do_intercept_egl, do_intercept_glx and
-- the lookup functions of gl/src/interface/implementation.rs, and the symbols that
-- gl/src/interface/mod.rs exports.
pub mod Agree
use pw_capture.Common.{
  ℕ, ◌==◌, Bool, true, false, Option, none, some, List, [], ◌∷◌, String, str_eq, if◌then◌else◌,
}

-- The functions of the layer, each by its own name.
pub data Handler : Type 0 where
  impl_dlsym impl_dlvsym impl_wl_proxy_marshal_array_flags : Handler
  impl_wl_proxy_create impl_wl_proxy_add_listener impl_wl_proxy_add_dispatcher : Handler
  impl_wl_proxy_get_listener impl_wl_proxy_destroy impl_egl_get_proc_address : Handler
  impl_egl_get_display impl_egl_get_platform_display impl_egl_get_platform_display_ext : Handler
  impl_egl_create_window_surface impl_egl_create_platform_window_surface
        impl_egl_create_platform_window_surface_ext :
      Handler
  impl_egl_swap_buffers impl_egl_swap_buffers_with_damage_ext
        impl_egl_swap_buffers_with_damage_khr :
      Handler
  impl_egl_destroy_surface impl_egl_destroy_context impl_egl_terminate : Handler
  impl_glx_get_proc_address impl_glx_get_proc_address_arb impl_glx_swap_buffers : Handler
  impl_glx_swap_buffers_msc_oml impl_glx_destroy_window impl_glx_destroy_context : Handler

-- The arms of a match on a name, in order.
unfoldable pub match_name : String → List (String × Handler) → Option Handler
match_name name [] = none
match_name name ((n, h) ∷ arms) = if str_eq name n then some h else match_name name arms

abbrev pub egl_arms : List (String × Handler)
egl_arms =
    ("eglGetProcAddress", impl_egl_get_proc_address)
    ∷ ("eglGetDisplay", impl_egl_get_display)
    ∷ ("eglGetPlatformDisplay", impl_egl_get_platform_display)
    ∷ ("eglGetPlatformDisplayEXT", impl_egl_get_platform_display_ext)
    ∷ ("eglCreateWindowSurface", impl_egl_create_window_surface)
    ∷ ("eglCreatePlatformWindowSurface", impl_egl_create_platform_window_surface)
    ∷ ("eglCreatePlatformWindowSurfaceEXT", impl_egl_create_platform_window_surface_ext)
    ∷ ("eglSwapBuffers", impl_egl_swap_buffers)
    ∷ ("eglSwapBuffersWithDamageEXT", impl_egl_swap_buffers_with_damage_ext)
    ∷ ("eglSwapBuffersWithDamageKHR", impl_egl_swap_buffers_with_damage_khr)
    ∷ ("eglDestroySurface", impl_egl_destroy_surface)
    ∷ ("eglDestroyContext", impl_egl_destroy_context)
    ∷ ("eglTerminate", impl_egl_terminate)
    ∷ []

abbrev pub glx_arms : List (String × Handler)
glx_arms =
    ("glXGetProcAddress", impl_glx_get_proc_address)
    ∷ ("glXGetProcAddressARB", impl_glx_get_proc_address_arb)
    ∷ ("glXSwapBuffers", impl_glx_swap_buffers)
    ∷ ("glXSwapBuffersMscOML", impl_glx_swap_buffers_msc_oml)
    ∷ ("glXDestroyWindow", impl_glx_destroy_window)
    ∷ ("glXDestroyContext", impl_glx_destroy_context)
    ∷ []

abbrev pub own_arms : List (String × Handler)
own_arms =
    ("dlsym", impl_dlsym)
    ∷ ("dlvsym", impl_dlvsym)
    ∷ ("wl_proxy_marshal_array_flags", impl_wl_proxy_marshal_array_flags)
    ∷ ("wl_proxy_create", impl_wl_proxy_create)
    ∷ ("wl_proxy_add_listener", impl_wl_proxy_add_listener)
    ∷ ("wl_proxy_add_dispatcher", impl_wl_proxy_add_dispatcher)
    ∷ ("wl_proxy_get_listener", impl_wl_proxy_get_listener)
    ∷ ("wl_proxy_destroy", impl_wl_proxy_destroy)
    ∷ []

unfoldable pub do_intercept_egl : String → Option Handler
unfolding match_name
do_intercept_egl name = match_name name egl_arms

unfoldable pub do_intercept_glx : String → Option Handler
unfolding match_name
do_intercept_glx name = match_name name glx_arms

-- `or_else`.
unfoldable pub or_else : Option Handler → Option Handler → Option Handler
or_else none o = o
or_else (some h) o = some h

-- Built without the nightly feature, which adds wl_proxy_marshal_flags.
unfoldable pub do_intercept : String → Option Handler
unfolding match_name do_intercept_egl do_intercept_glx or_else
do_intercept name =
    or_else (match_name name own_arms) (or_else (do_intercept_egl name) (do_intercept_glx name))

-- The address that a program gets: the layer's, the real one, or none.
pub data Address : Type 0 where
  null : Address
  real : ℕ → Address
  ours : Handler → Address

unfoldable pub or_real : Option Handler → ℕ → Address
or_real none p = real p
or_real (some h) p = ours h

unfoldable pub dlsym : (String → ℕ) → String → Address
unfolding do_intercept or_real
dlsym real_dlsym name = or_real (do_intercept name) (real_dlsym name)

-- The real function is there; otherwise the code panics where the layer has no such name.
unfoldable pub dlvsym : (String → ℕ → ℕ) → String → ℕ → Address
unfolding do_intercept or_real
dlvsym real_dlvsym name version = or_real (do_intercept name) (real_dlvsym name version)

-- `orig` is the driver's function, if the library loads; a name that it does not know has none.
unfoldable pub get_proc_address : Option (String → ℕ) → (String → Option Handler) → String → Address
unfolding or_real
get_proc_address none intercept name = null
get_proc_address (some orig) intercept name =
    if orig name == 0 then null else or_real (intercept name) (orig name)

unfoldable pub glx_get_proc_address : Option (String → ℕ) → String → Address
unfolding get_proc_address do_intercept_glx
glx_get_proc_address orig name = get_proc_address orig do_intercept_glx name

unfoldable pub glx_get_proc_address_arb : Option (String → ℕ) → String → Address
unfolding get_proc_address do_intercept_glx
glx_get_proc_address_arb orig name = get_proc_address orig do_intercept_glx name

unfoldable pub egl_get_proc_address : Option (String → ℕ) → String → Address
unfolding get_proc_address do_intercept_egl
egl_get_proc_address orig name = get_proc_address orig do_intercept_egl name

-- The symbols of the library that call a function of the layer, and what each calls.
abbrev pub exports : List (String × Handler)
exports =
    ("dlsym", impl_dlsym)
    ∷ ("dlvsym", impl_dlvsym)
    ∷ ("wl_proxy_marshal_array_flags", impl_wl_proxy_marshal_array_flags)
    ∷ ("wl_proxy_create", impl_wl_proxy_create)
    ∷ ("wl_proxy_add_listener", impl_wl_proxy_add_listener)
    ∷ ("wl_proxy_add_dispatcher", impl_wl_proxy_add_dispatcher)
    ∷ ("wl_proxy_get_listener", impl_wl_proxy_get_listener)
    ∷ ("wl_proxy_destroy", impl_wl_proxy_destroy)
    ∷ ("glXGetProcAddress", impl_glx_get_proc_address)
    ∷ ("glXGetProcAddressARB", impl_glx_get_proc_address_arb)
    ∷ ("glXSwapBuffers", impl_glx_swap_buffers)
    ∷ ("glXSwapBuffersMscOML", impl_glx_swap_buffers_msc_oml)
    ∷ ("glXDestroyWindow", impl_glx_destroy_window)
    ∷ ("glXDestroyContext", impl_glx_destroy_context)
    ∷ ("eglGetProcAddress", impl_egl_get_proc_address)
    ∷ ("eglGetDisplay", impl_egl_get_display)
    ∷ ("eglGetPlatformDisplay", impl_egl_get_platform_display)
    ∷ ("eglGetPlatformDisplayEXT", impl_egl_get_platform_display_ext)
    ∷ ("eglCreateWindowSurface", impl_egl_create_window_surface)
    ∷ ("eglCreatePlatformWindowSurface", impl_egl_create_platform_window_surface)
    ∷ ("eglCreatePlatformWindowSurfaceEXT", impl_egl_create_platform_window_surface_ext)
    ∷ ("eglSwapBuffers", impl_egl_swap_buffers)
    ∷ ("eglSwapBuffersWithDamageEXT", impl_egl_swap_buffers_with_damage_ext)
    ∷ ("eglSwapBuffersWithDamageKHR", impl_egl_swap_buffers_with_damage_khr)
    ∷ ("eglDestroySurface", impl_egl_destroy_surface)
    ∷ ("eglDestroyContext", impl_egl_destroy_context)
    ∷ ("eglTerminate", impl_egl_terminate)
    ∷ []

-- The functions that the Vulkan layer looks for.
pub data ManagerCall : Type 0 where
  get_wl_cursor_manager release_wl_cursor_manager wl_cursor_snapshot : ManagerCall

pub data Symbol : Type 0 where
  calls : Handler → Symbol
  provides : ManagerCall → Symbol

unfoldable pub manager_symbol : String → Option Symbol
manager_symbol name =
    if str_eq name "me_eh5_pw_capture_get_wl_cursor_manager"
    then some (provides get_wl_cursor_manager)
    else if str_eq name "me_eh5_pw_capture_release_wl_cursor_manager"
    then some (provides release_wl_cursor_manager)
    else if str_eq name "me_eh5_pw_capture_wl_cursor_snapshot"
    then some (provides wl_cursor_snapshot)
    else none

abbrev pub or_manager : Option Handler → Option Symbol → Option Symbol
or_manager none o = o
or_manager (some h) o = some (calls h)

-- Built without the nightly feature.
unfoldable pub exported_symbol : String → Option Symbol
unfolding match_name manager_symbol
exported_symbol name = or_manager (match_name name exports) (manager_symbol name)
