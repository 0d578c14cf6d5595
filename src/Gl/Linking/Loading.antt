-- ===== src/Gl/Linking/Loading.antt =====
-- The loading of libraries: dlopen of gl/src/utils/mod.rs and cursor/src/utils.rs, load_gpa, GL_EGL
-- and GL_GLX of gl/src/interface/state.rs, and the load_with of gl/src/utils/x11_lib.rs and
-- cursor/src/wayland/wl_lib.rs. An address is its number, 0 for null. The functions that the
-- bindings then load by name are left out.
use pw_capture.Common.{
  ℕ, ◌≡◌, ◌≢◌, ◌==◌, if◌then◌else◌, Option, none, some, List, [], ◌∷◌, String, All, length, arith,
  Bool-cases, Option-cases, inl, inr, map, subst, ap, ◌∙◌, sym,
}

-- The linker: the handle of a file, the real dlsym, and the pseudo-handle RTLD_NEXT.
pub record Linker : Type 0 where
  pub libc_dlopen : String → ℕ
  pub dlsym : ℕ → String → ℕ
  pub rtld_next : ℕ

module _ (ld : Linker) where
  unfoldable pub dlopen : List String → Option ℕ
  dlopen [] = none
  dlopen (f ∷ filenames) =
      let rest = dlopen filenames in if ld.libc_dlopen f == 0 then rest else some (ld.libc_dlopen f)

  abbrev pub non_null : ℕ → Option ℕ
  non_null p = if p == 0 then none else some p

  unfoldable pub load_gpa : List String → String → Option ℕ
  load_gpa filenames symbol =
      let opened : Option ℕ = elim (dlopen filenames) [
        | none ↦ none
        | some handle ↦ non_null (ld.dlsym handle symbol)
      ] in
      if ld.dlsym ld.rtld_next symbol == 0 then opened else some (ld.dlsym ld.rtld_next symbol)

  abbrev pub or_else : Option ℕ → Option ℕ → Option ℕ
  or_else none later = later
  or_else (some p) later = some p

  -- eglGetProcAddress.
  unfoldable pub gl_egl : Option ℕ
  gl_egl = load_gpa ("libEGL.so.1" ∷ "libEGL.so" ∷ []) "eglGetProcAddress"

  abbrev pub glx_files : List String
  glx_files = "libGLX.so.0" ∷ "libGLX.so" ∷ []

  abbrev pub gl_files : List String
  gl_files = "libGL.so.1" ∷ "libGL.so" ∷ []

  -- glXGetProcAddress, or glXGetProcAddressARB.
  unfoldable pub gl_glx : Option ℕ
  gl_glx =
      or_else
        (or_else
          (or_else (load_gpa glx_files "glXGetProcAddress") (load_gpa gl_files "glXGetProcAddress"))
          (load_gpa glx_files "glXGetProcAddressARB"))
        (load_gpa gl_files "glXGetProcAddressARB")

  -- The functions of the struct in their order; one that is missing ends the loading.
  unfoldable pub construct : List (ℕ × String) → Option (List ℕ)
  construct [] = some []
  construct ((handle, symbol) ∷ symbols) =
      let rest : Option (List ℕ) = elim (construct symbols) [
        | none ↦ none
        | some ps ↦ some (ld.dlsym handle symbol ∷ ps)
      ] in
      if ld.dlsym handle symbol == 0 then none else rest

  abbrev pub x11_symbols : ℕ → ℕ → ℕ → List (ℕ × String)
  x11_symbols xlib xlib_xcb dri3 =
      (xlib, "XDefaultRootWindow")
      ∷ (xlib, "XDefaultScreen")
      ∷ (xlib, "XCreatePixmap")
      ∷ (xlib, "XFreePixmap")
      ∷ (xlib, "XFree")
      ∷ (xlib_xcb, "XGetXCBConnection")
      ∷ (dri3, "xcb_dri3_buffers_from_pixmap")
      ∷ (dri3, "xcb_dri3_buffers_from_pixmap_reply")
      ∷ (dri3, "xcb_dri3_buffers_from_pixmap_reply_fds")
      ∷ (dri3, "xcb_dri3_buffers_from_pixmap_strides")
      ∷ (dri3, "xcb_dri3_buffers_from_pixmap_offsets")
      ∷ []

  -- `X11Lib::load_with`.
  unfoldable pub load_x11 : Option (List ℕ)
  load_x11 = elim (dlopen ("libX11.so.6" ∷ "libX11.so" ∷ [])) [
    | none ↦ none
    | some xlib ↦ elim (dlopen ("libX11-xcb.so.1" ∷ "libX11-xcb.so" ∷ [])) [
      | none ↦ none
      | some xlib_xcb ↦ elim (dlopen ("libxcb-dri3.so.0" ∷ "libxcb-dri3.so" ∷ [])) [
        | none ↦ none
        | some dri3 ↦ construct (x11_symbols xlib xlib_xcb dri3)
      ]
    ]
  ]

  abbrev pub wl_symbols : ℕ → List (ℕ × String)
  wl_symbols wl_client =
      (wl_client, "wl_display_interface")
      ∷ (wl_client, "wl_proxy_marshal_array_flags")
      ∷ (wl_client, "wl_proxy_create")
      ∷ (wl_client, "wl_proxy_add_listener")
      ∷ (wl_client, "wl_proxy_add_dispatcher")
      ∷ (wl_client, "wl_proxy_get_user_data")
      ∷ (wl_client, "wl_proxy_get_listener")
      ∷ (wl_client, "wl_proxy_destroy")
      ∷ []

  -- `WlLib::load_with`.
  unfoldable pub load_wayland : Option (List ℕ)
  load_wayland = elim (dlopen ("libwayland-client.so.0" ∷ "libwayland-client.so" ∷ [])) [
    | none ↦ none
    | some wl_client ↦ construct (wl_symbols wl_client)
  ]

  symbols_of : List (ℕ × String) → List ℕ
  symbols_of = map (λ s. ld.dlsym s.0 s.1)

  -- A struct that is loaded has every function, and none is null.
  construct-All :
      (symbols : List (ℕ × String)) (ps : List ℕ)
      → construct symbols ≡ some ps
      → (symbols_of symbols ≡ ps) × All (λ p. p ≢ 0) ps
  unfolding construct symbols_of
  construct-All [] ps e =
      let same : [] ≡ ps = ground (arith, e) in (same, subst (All (λ p. p ≢ 0)) same tt)
  construct-All ((handle, symbol) ∷ symbols) ps e =
      elim (Bool-cases (ld.dlsym handle symbol == 0)) [
        | inl z ↦ absurd (ground (arith, e, z))
        | inr z ↦ elim (Option-cases (construct symbols)) [
          | inl n ↦ absurd (ground (arith, e, z, n))
          | inr (qs, k) ↦
              let (m, a) = construct-All symbols qs k in
              let same : (ld.dlsym handle symbol ∷ qs) ≡ ps = ground (arith, e, z, k) in
              let here : ld.dlsym handle symbol ≢ 0 = λ q. ground (arith, z, q) in
              (
                ap (λ rest. ld.dlsym handle symbol ∷ rest) m ∙ same,
                subst (All (λ p. p ≢ 0)) same (here, a),
              )
        ]
      ]

  -- Xlib is loaded with its 11 functions or not at all; none of them is null.
  pub load_x11-whole : (ps : List ℕ) → load_x11 ≡ some ps → (length ps ≡ 11) × All (λ p. p ≢ 0) ps
  unfolding load_x11 symbols_of
  load_x11-whole ps e = elim (Option-cases (dlopen ("libX11.so.6" ∷ "libX11.so" ∷ []))) [
    | inl n ↦ absurd (ground (arith, e, n))
    | inr (x, k) ↦ elim (Option-cases (dlopen ("libX11-xcb.so.1" ∷ "libX11-xcb.so" ∷ []))) [
      | inl n ↦ absurd (ground (arith, e, k, n))
      | inr (c, l) ↦ elim (Option-cases (dlopen ("libxcb-dri3.so.0" ∷ "libxcb-dri3.so" ∷ []))) [
        | inl n ↦ absurd (ground (arith, e, k, l, n))
        | inr (d, m) ↦
            let all = construct-All (x11_symbols x c d) ps (ground (arith, e, k, l, m)) in
            (sym (ap length all.0), all.1)
      ]
    ]
  ]
