-- ===== src/Cursor/Wayland/Snapshot/Managers.antt =====
-- Which windows get a cursor manager, get_cursor_manager and collect_method of
-- cursor/src/wayland/mod.rs.
use pw_capture.Common.{ℕ, ◌≡◌, true, some, none, List, ◌∷◌, String, arith, ==_refl}
use pw_capture.Cursor.Wayland.State.{WlHandle, WlIntercept}
use pw_capture.Cursor.Wayland.Methods.{
  m_display_get_registry, m_registry_bind, m_compositor_create_surface, surface_destroy,
}
use pw_capture.Cursor.Wayland.Collect.{which_method, run_method, collect_method}
use pw_capture.Cursor.Wayland.Snapshot.{get_cursor_manager}

module _ (cstr : ℕ → String) where
  -- The requests by which a client comes to have a surface.
  abbrev set_up : WlHandle → WlHandle → WlHandle → WlHandle → ℕ → List ℕ → WlIntercept → WlIntercept
  set_up display registry compositor surface interface rest st =
      let st1 = collect_method cstr display "wl_display" "get_registry" (registry ∷ rest) st in
      let st2 =
        collect_method cstr registry "wl_registry" "bind" (0 ∷ interface ∷ 0 ∷ compositor ∷ rest)
          st1 in
      collect_method cstr compositor "wl_compositor" "create_surface" (surface ∷ rest) st2

  -- A surface whose registry, compositor and creation were collected gets a cursor manager, where
  -- the display is readable and of the shared library, and no longer once it is destroyed.
  pub manager-set_up :
      (display registry compositor surface interface : ℕ) (rest : List ℕ) (st : WlIntercept)
      → let st' = set_up display registry compositor surface interface rest st in
        (get_cursor_manager true true surface st' ≡ some surface)
        × (get_cursor_manager true true surface
              (collect_method cstr surface "wl_surface" "destroy" rest st')
            ≡ none)
  unfolding collect_method which_method run_method m_display_get_registry m_registry_bind
      m_compositor_create_surface surface_destroy get_cursor_manager
  manager-set_up display registry compositor surface interface rest st = (
    ground (arith, ==_refl surface, ==_refl compositor, ==_refl registry),
    ground (arith, ==_refl surface),
  )
