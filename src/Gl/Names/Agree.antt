-- ===== src/Gl/Names/Agree.antt =====
-- The layer answers for a name the same, whichever way a program asks for it.
use pw_capture.Common.{
  ℕ, ◌≡◌, ◌↔◌, ◌≢◌, refl, sym, ap, ◌∙◌, Bool, true, false, if◌then◌else◌, ◌==◌, Option, none, some,
  List, [], ◌∷◌, String, str_eq, eq_iff, Bool-cases, Option-cases, inl, inr, arith,
}
use pw_capture.Gl.Names.{
  Handler, match_name, egl_arms, glx_arms, own_arms, do_intercept, do_intercept_egl,
  do_intercept_glx, or_else, or_real, ours, dlsym, get_proc_address, egl_get_proc_address, exports,
  ManagerCall, get_wl_cursor_manager, release_wl_cursor_manager, wl_cursor_snapshot, calls,
  provides, manager_symbol, or_manager, exported_symbol, impl_dlsym, impl_dlvsym,
  impl_egl_create_platform_window_surface, impl_egl_create_platform_window_surface_ext,
  impl_egl_create_window_surface, impl_egl_destroy_context, impl_egl_destroy_surface,
  impl_egl_get_display, impl_egl_get_platform_display, impl_egl_get_platform_display_ext,
  impl_egl_get_proc_address, impl_egl_swap_buffers, impl_egl_swap_buffers_with_damage_ext,
  impl_egl_swap_buffers_with_damage_khr, impl_egl_terminate, impl_glx_destroy_context,
  impl_glx_destroy_window, impl_glx_get_proc_address, impl_glx_get_proc_address_arb,
  impl_glx_swap_buffers, impl_glx_swap_buffers_msc_oml, impl_wl_proxy_add_dispatcher,
  impl_wl_proxy_add_listener, impl_wl_proxy_create, impl_wl_proxy_destroy,
  impl_wl_proxy_get_listener, impl_wl_proxy_marshal_array_flags,
}

-- The name that each function stands for.
abbrev pub name_of : Handler → String
name_of impl_dlsym = "dlsym"
name_of impl_dlvsym = "dlvsym"
name_of impl_wl_proxy_marshal_array_flags = "wl_proxy_marshal_array_flags"
name_of impl_wl_proxy_create = "wl_proxy_create"
name_of impl_wl_proxy_add_listener = "wl_proxy_add_listener"
name_of impl_wl_proxy_add_dispatcher = "wl_proxy_add_dispatcher"
name_of impl_wl_proxy_get_listener = "wl_proxy_get_listener"
name_of impl_wl_proxy_destroy = "wl_proxy_destroy"
name_of impl_egl_get_proc_address = "eglGetProcAddress"
name_of impl_egl_get_display = "eglGetDisplay"
name_of impl_egl_get_platform_display = "eglGetPlatformDisplay"
name_of impl_egl_get_platform_display_ext = "eglGetPlatformDisplayEXT"
name_of impl_egl_create_window_surface = "eglCreateWindowSurface"
name_of impl_egl_create_platform_window_surface = "eglCreatePlatformWindowSurface"
name_of impl_egl_create_platform_window_surface_ext = "eglCreatePlatformWindowSurfaceEXT"
name_of impl_egl_swap_buffers = "eglSwapBuffers"
name_of impl_egl_swap_buffers_with_damage_ext = "eglSwapBuffersWithDamageEXT"
name_of impl_egl_swap_buffers_with_damage_khr = "eglSwapBuffersWithDamageKHR"
name_of impl_egl_destroy_surface = "eglDestroySurface"
name_of impl_egl_destroy_context = "eglDestroyContext"
name_of impl_egl_terminate = "eglTerminate"
name_of impl_glx_get_proc_address = "glXGetProcAddress"
name_of impl_glx_get_proc_address_arb = "glXGetProcAddressARB"
name_of impl_glx_swap_buffers = "glXSwapBuffers"
name_of impl_glx_swap_buffers_msc_oml = "glXSwapBuffersMscOML"
name_of impl_glx_destroy_window = "glXDestroyWindow"
name_of impl_glx_destroy_context = "glXDestroyContext"

-- Whether each function stands under its own name.
unfoldable well_named : List (String × Handler) → Bool
well_named [] = true
well_named ((n, h) ∷ arms) =
    let rest = well_named arms in if str_eq (name_of h) n then rest else false

match_name-named :
    (arms : List (String × Handler)) (name : String) (h : Handler)
    → well_named arms ≡ true
    → match_name name arms ≡ some h
    → name_of h ≡ name
unfolding match_name well_named
match_name-named [] name h w q = ground arith
match_name-named ((n, g) ∷ arms) name h w q = elim (Bool-cases (str_eq (name_of g) n)) [
  | inr wrong ↦ absurd (ground (arith, w, wrong))
  | inl own ↦ elim (Bool-cases (str_eq name n)) [
    | inl same ↦
        ground
          (arith, rw (match_name, same) at q, (eq_iff (name_of g) n).0 own, (eq_iff name n).0 same)
    | inr other ↦
        match_name-named arms name h (ground (arith, w, own)) (rw (match_name, other) at q)
  ]
]

not_zero : (n : ℕ) → n ≢ 0 → (n == 0) ≡ false
not_zero n k = ground arith

own_of : (h : Handler) → do_intercept (name_of h) ≡ some h
unfolding do_intercept do_intercept_egl do_intercept_glx match_name or_else
own_of impl_dlsym = refl
own_of impl_dlvsym = refl
own_of impl_wl_proxy_marshal_array_flags = refl
own_of impl_wl_proxy_create = refl
own_of impl_wl_proxy_add_listener = refl
own_of impl_wl_proxy_add_dispatcher = refl
own_of impl_wl_proxy_get_listener = refl
own_of impl_wl_proxy_destroy = refl
own_of impl_egl_get_proc_address = refl
own_of impl_egl_get_display = refl
own_of impl_egl_get_platform_display = refl
own_of impl_egl_get_platform_display_ext = refl
own_of impl_egl_create_window_surface = refl
own_of impl_egl_create_platform_window_surface = refl
own_of impl_egl_create_platform_window_surface_ext = refl
own_of impl_egl_swap_buffers = refl
own_of impl_egl_swap_buffers_with_damage_ext = refl
own_of impl_egl_swap_buffers_with_damage_khr = refl
own_of impl_egl_destroy_surface = refl
own_of impl_egl_destroy_context = refl
own_of impl_egl_terminate = refl
own_of impl_glx_get_proc_address = refl
own_of impl_glx_get_proc_address_arb = refl
own_of impl_glx_swap_buffers = refl
own_of impl_glx_swap_buffers_msc_oml = refl
own_of impl_glx_destroy_window = refl
own_of impl_glx_destroy_context = refl

exports_of : (h : Handler) → match_name (name_of h) exports ≡ some h
unfolding match_name
exports_of impl_dlsym = refl
exports_of impl_dlvsym = refl
exports_of impl_wl_proxy_marshal_array_flags = refl
exports_of impl_wl_proxy_create = refl
exports_of impl_wl_proxy_add_listener = refl
exports_of impl_wl_proxy_add_dispatcher = refl
exports_of impl_wl_proxy_get_listener = refl
exports_of impl_wl_proxy_destroy = refl
exports_of impl_egl_get_proc_address = refl
exports_of impl_egl_get_display = refl
exports_of impl_egl_get_platform_display = refl
exports_of impl_egl_get_platform_display_ext = refl
exports_of impl_egl_create_window_surface = refl
exports_of impl_egl_create_platform_window_surface = refl
exports_of impl_egl_create_platform_window_surface_ext = refl
exports_of impl_egl_swap_buffers = refl
exports_of impl_egl_swap_buffers_with_damage_ext = refl
exports_of impl_egl_swap_buffers_with_damage_khr = refl
exports_of impl_egl_destroy_surface = refl
exports_of impl_egl_destroy_context = refl
exports_of impl_egl_terminate = refl
exports_of impl_glx_get_proc_address = refl
exports_of impl_glx_get_proc_address_arb = refl
exports_of impl_glx_swap_buffers = refl
exports_of impl_glx_swap_buffers_msc_oml = refl
exports_of impl_glx_destroy_window = refl
exports_of impl_glx_destroy_context = refl

or_else-named :
    (name : String) (h : Handler) (o o' : Option Handler)
    → (o ≡ some h → name_of h ≡ name)
    → (o' ≡ some h → name_of h ≡ name)
    → or_else o o' ≡ some h
    → name_of h ≡ name
unfolding or_else
or_else-named name h none o' f g q = g q
or_else-named name h (some x) o' f g q = f q

egl_named : well_named egl_arms ≡ true
unfolding well_named
egl_named = refl

do_intercept-named : (name : String) (h : Handler) → do_intercept name ≡ some h → name_of h ≡ name
unfolding do_intercept do_intercept_egl do_intercept_glx well_named
do_intercept-named name h q =
    or_else-named name h (match_name name own_arms) _ (match_name-named own_arms name h refl)
      (or_else-named name h (match_name name egl_arms) (match_name name glx_arms)
        (match_name-named egl_arms name h egl_named) (match_name-named glx_arms name h refl))
      q

handler_named : (name : String) (h : Handler) → match_name name exports ≡ some h → name_of h ≡ name
unfolding well_named
handler_named name h q = match_name-named exports name h refl q

exports-eq-do_intercept : (name : String) → match_name name exports ≡ do_intercept name
exports-eq-do_intercept name = elim (Option-cases (match_name name exports)) [
  | inr (h, q) ↦ q ∙ sym (own_of h) ∙ ap do_intercept (handler_named name h q)
  | inl n ↦ elim (Option-cases (do_intercept name)) [
    | inl m ↦ n ∙ sym m
    | inr (h, q) ↦
        sym (ap (λ s. match_name s exports) (do_intercept-named name h q)) ∙ exports_of h ∙ sym q
  ]
]

abbrev pub manager_name : ManagerCall → String
manager_name get_wl_cursor_manager = "me_eh5_pw_capture_get_wl_cursor_manager"
manager_name release_wl_cursor_manager = "me_eh5_pw_capture_release_wl_cursor_manager"
manager_name wl_cursor_snapshot = "me_eh5_pw_capture_wl_cursor_snapshot"

not_intercepted : (c : ManagerCall) → do_intercept (manager_name c) ≡ none
unfolding do_intercept do_intercept_egl do_intercept_glx match_name or_else
not_intercepted get_wl_cursor_manager = refl
not_intercepted release_wl_cursor_manager = refl
not_intercepted wl_cursor_snapshot = refl

manager_symbol_of : (c : ManagerCall) → manager_symbol (manager_name c) ≡ some (provides c)
unfolding manager_symbol
manager_symbol_of get_wl_cursor_manager = refl
manager_symbol_of release_wl_cursor_manager = refl
manager_symbol_of wl_cursor_snapshot = refl

manager_symbol-calls : (name : String) (h : Handler) → manager_symbol name ≢ some (calls h)
unfolding manager_symbol
manager_symbol-calls name h e = ground (arith, e)

from_handler :
    (o : Option Handler) (name : String) (h : Handler)
    → (or_manager o (manager_symbol name) ≡ some (calls h)) ↔ (o ≡ some h)
from_handler none name h = (λ e. absurd (manager_symbol-calls name h e), λ e. ground (arith, e))
from_handler (some x) name h = (λ e. ground (arith, e), λ e. ground (arith, e))

-- Without the nightly feature, the library exports a symbol that calls a function of the layer for
-- exactly the names that it answers for in a lookup, and the symbol calls the function that the
-- lookup gives; it also exports the three functions for managers of Wayland cursors, which no
-- lookup answers for.
pub exported_symbol-eq-do_intercept :
    (name : String) (h : Handler) (c : ManagerCall)
    → ((exported_symbol name ≡ some (calls h)) ↔ (do_intercept name ≡ some h))
      × (exported_symbol (manager_name c) ≡ some (provides c))
      × (do_intercept (manager_name c) ≡ none)
unfolding exported_symbol
exported_symbol-eq-do_intercept name h c = (
  rw (← exports-eq-do_intercept name) (from_handler (match_name name exports) name h),
  rw (exported_symbol, exports-eq-do_intercept (manager_name c), not_intercepted c)
      (manager_symbol_of c),
  not_intercepted c,
)

-- A name that eglGetProcAddress answers for, and that the driver knows, has the address that
-- dlsym gives for it, which is the layer's function of that name.
pub egl_get_proc_address-eq-dlsym :
    (orig real_dlsym : String → ℕ) (name : String) (h : Handler)
    → do_intercept_egl name ≡ some h
    → orig name ≢ 0
    → (egl_get_proc_address (some orig) name ≡ dlsym real_dlsym name)
      × (egl_get_proc_address (some orig) name ≡ ours h)
      × (name_of h ≡ name)
unfolding egl_get_proc_address get_proc_address dlsym or_real
egl_get_proc_address-eq-dlsym orig real_dlsym name h q k =
    let named : name_of h ≡ name =
      match_name-named egl_arms name h egl_named (unfold do_intercept_egl in q) in
    let own : do_intercept name ≡ some h = sym (ap do_intercept named) ∙ own_of h in
    let there = not_zero (orig name) k in
    let here : egl_get_proc_address (some orig) name ≡ ours h =
      rw (get_proc_address, there, q) refl in
    (here ∙ sym (rw (dlsym, own) refl), here, named)
