-- ===== src/Cursor/Wayland/Collect.antt =====
-- `collect_method`, `collect_event_filter` and `collect_event` of cursor/src/wayland/mod.rs: which
-- request or event is recorded, and from which arguments.
pub mod Isolation
pub mod Filter
use pw_capture.Common.{
  ℕ, ℤ, List, Bool, true, false, ◌&&◌, String, str_eq, if◌then◌else◌, get_or, ◌%◌, ◌^◌, as_i32,
}
use pw_capture.Cursor.Wayland.State.{WlHandle, WlIntercept}
use pw_capture.Cursor.Wayland.Methods.{
  m_display_get_registry, m_registry_bind, m_compositor_create_surface, m_shm_create_pool,
  m_shm_pool_create_buffer, m_shm_pool_resize, m_surface_attach, m_surface_set_buffer_scale,
  m_surface_commit, m_seat_get_pointer, m_pointer_set_cursor, m_pointer_release, shm_pool_destroy,
  buffer_destroy, surface_destroy,
}
use pw_capture.Cursor.Wayland.Events.{e_pointer_enter, e_pointer_leave, e_pointer_motion}

-- The arms of the two matches.
pub data Method : Type 0 where
  get_registry bind create_surface create_pool create_buffer pool_resize pool_destroy : Method
  buffer_destroyed attach set_buffer_scale commit surface_destroyed get_pointer : Method
  set_cursor release other_method : Method

pub data Event : Type 0 where
  enter motion leave other_event : Event

abbrev names : String → String → String → String → Bool
names interface name interface' name' = str_eq interface interface' && str_eq name name'

unfoldable pub which_method : String → String → Method
which_method i m =
    if names i m "wl_display" "get_registry"
    then get_registry
    else if names i m "wl_registry" "bind"
    then bind
    else if names i m "wl_compositor" "create_surface"
    then create_surface
    else if names i m "wl_shm" "create_pool"
    then create_pool
    else if names i m "wl_shm_pool" "create_buffer"
    then create_buffer
    else if names i m "wl_shm_pool" "resize"
    then pool_resize
    else if names i m "wl_shm_pool" "destroy"
    then pool_destroy
    else if names i m "wl_buffer" "destroy"
    then buffer_destroyed
    else if names i m "wl_surface" "attach"
    then attach
    else if names i m "wl_surface" "set_buffer_scale"
    then set_buffer_scale
    else if names i m "wl_surface" "commit"
    then commit
    else if names i m "wl_surface" "destroy"
    then surface_destroyed
    else if names i m "wl_seat" "get_pointer"
    then get_pointer
    else if names i m "wl_pointer" "set_cursor"
    then set_cursor
    else if names i m "wl_pointer" "release"
    then release
    else other_method

unfoldable pub which_event : String → String → Event
which_event i e =
    if names i e "wl_pointer" "enter"
    then enter
    else if names i e "wl_pointer" "motion"
    then motion
    else if names i e "wl_pointer" "leave"
    then leave
    else other_event

-- One `wl_argument` of the union, by its 64 bits; an index stays below the 20 of the slice.
abbrev pub arg_o : List ℕ → ℕ → WlHandle
arg_o args i = get_or args i 0

abbrev pub arg_u : List ℕ → ℕ → ℕ
arg_u args i = get_or args i 0 % 2 ^ 32

abbrev pub arg_i : List ℕ → ℕ → ℤ
arg_i args i = as_i32 (get_or args i 0)

-- `cstr` reads the C string at an address, `CStr::from_ptr(..).to_string_lossy()`.
module _ (cstr : ℕ → String) where
  unfoldable pub run_method : Method → WlHandle → List ℕ → WlIntercept → WlIntercept
  run_method get_registry proxy args st = m_display_get_registry proxy (arg_o args 0) st
  run_method bind proxy args st = m_registry_bind proxy (cstr (arg_o args 1)) (arg_o args 3) st
  run_method create_surface proxy args st = m_compositor_create_surface proxy (arg_o args 0) st
  run_method create_pool proxy args st =
      m_shm_create_pool proxy (arg_i args 1) (arg_i args 2) (arg_o args 0) st
  run_method create_buffer proxy args st =
      m_shm_pool_create_buffer proxy (arg_i args 1) (arg_i args 2) (arg_i args 3) (arg_i args 4)
        (arg_u args 5) (arg_o args 0) st
  run_method pool_resize proxy args st = (m_shm_pool_resize proxy (arg_i args 0) st).0
  run_method pool_destroy proxy args st = shm_pool_destroy proxy st
  run_method buffer_destroyed proxy args st = buffer_destroy proxy st
  run_method attach proxy args st = (m_surface_attach proxy (arg_o args 0) st).0
  run_method set_buffer_scale proxy args st = (m_surface_set_buffer_scale proxy (arg_i args 0) st).0
  run_method commit proxy args st = (m_surface_commit proxy st).0
  run_method surface_destroyed proxy args st = surface_destroy proxy st
  run_method get_pointer proxy args st = m_seat_get_pointer proxy (arg_o args 0) st
  run_method set_cursor proxy args st =
      (m_pointer_set_cursor proxy (arg_u args 0) (arg_o args 1) (arg_i args 2) (arg_i args 3) st).0
  run_method release proxy args st = m_pointer_release proxy st
  run_method other_method proxy args st = st

  unfoldable pub collect_method : WlHandle → String → String → List ℕ → WlIntercept → WlIntercept
  collect_method proxy interface_name method_name args st =
      run_method (which_method interface_name method_name) proxy args st

unfoldable pub run_event : Event → WlHandle → List ℕ → WlIntercept → WlIntercept
run_event enter proxy args st =
    (e_pointer_enter proxy (arg_u args 0) (arg_o args 1) (arg_i args 2) (arg_i args 3) st).0
run_event motion proxy args st =
    (e_pointer_motion proxy (arg_u args 0) (arg_i args 1) (arg_i args 2) st).0
run_event leave proxy args st = (e_pointer_leave proxy (arg_u args 0) (arg_o args 1) st).0
run_event other_event proxy args st = st

unfoldable pub collect_event_filter : String → Bool
collect_event_filter interface_name = str_eq interface_name "wl_pointer"

unfoldable pub collect_event : WlHandle → String → String → List ℕ → WlIntercept → WlIntercept
collect_event proxy interface_name event_name args st =
    run_event (which_event interface_name event_name) proxy args st
