-- ===== src/Cursor/Wayland/Collect/Isolation.antt =====
-- Which surfaces a request changes, collect_method of cursor/src/wayland/mod.rs.
use pw_capture.Common.{ℕ, ◌≡◌, refl, ◌≢◌, Option, none, some, List, String, arith}
use pw_capture.Cursor.Wayland.State.{WlHandle, WlIntercept}
use pw_capture.Cursor.Wayland.Methods.{
  m_display_get_registry, m_registry_bind, m_compositor_create_surface, m_shm_create_pool,
  m_shm_pool_create_buffer, m_shm_pool_resize, m_surface_attach, m_surface_set_buffer_scale,
  m_surface_commit, m_seat_get_pointer, m_pointer_set_cursor, m_pointer_release, shm_pool_destroy,
  buffer_destroy, surface_destroy,
}
use pw_capture.Cursor.Wayland.Collect.{
  Method, get_registry, which_method, arg_o, run_method, collect_method,
}

-- The surface that a pointer is over, by the pointer table.
abbrev pub over : WlHandle → WlIntercept → Option WlHandle
over pointer st = elim (st.pointer_map pointer) [ none ↦ none | some p ↦ p.current_surface ]

module _ (cstr : ℕ → String) (j : WlHandle) where
  run_method-other :
      (m : Method) (proxy : WlHandle) (args : List ℕ) (st : WlIntercept)
      → j ≢ proxy
      → j ≢ arg_o args 0
      → over proxy st ≢ some j
      → (run_method cstr m proxy args st).surface_map j ≡ st.surface_map j
  unfolding run_method m_display_get_registry m_registry_bind m_compositor_create_surface
      m_shm_create_pool m_shm_pool_create_buffer m_shm_pool_resize m_surface_attach
      m_surface_set_buffer_scale m_surface_commit m_seat_get_pointer m_pointer_set_cursor
      m_pointer_release shm_pool_destroy buffer_destroy surface_destroy
  run_method-other get_registry proxy args st p a o = refl
  run_method-other m proxy args st p a o = ground arith

  -- A request leaves the record of surface `j` as it was, if it is neither sent to `j`, nor has `j`
  -- as its first argument, nor is sent to a pointer that is over `j`.
  pub collect_method-other :
      (proxy : WlHandle) (interface_name method_name : String) (args : List ℕ) (st : WlIntercept)
      → j ≢ proxy
      → j ≢ arg_o args 0
      → over proxy st ≢ some j
      → (collect_method cstr proxy interface_name method_name args st).surface_map j
        ≡ st.surface_map j
  unfolding collect_method
  collect_method-other proxy i m args st p a o =
      run_method-other (which_method i m) proxy args st p a o
