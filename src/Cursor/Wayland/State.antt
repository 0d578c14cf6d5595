-- ===== src/Cursor/Wayland/State.antt =====
-- The tables of cursor/src/wayland/mod.rs. A handle is the address of a `wl_proxy`; the function
-- pointers of `wl` and the display of `RegistryState` play no part in the methods.
use pw_capture.Common.{ℕ, ℤ, Option, String, DashMap, new_map, insert}

abbrev pub WlHandle : Type 0
WlHandle = ℕ

-- `wl_fixed_t`, by the 32 bits that represent it.
abbrev pub WlFixed : Type 0
WlFixed = ℤ

pub record RegistryState : Type 0 where
  pub display : WlHandle

pub record GlobalState : Type 0 where
  pub registry : WlHandle
  pub name : String

pub record SurfaceBuffer : Type 0 where
  pub buffer : WlHandle
  pub scale : ℤ

pub record SurfacePointer : Type 0 where
  pub pointer : WlHandle
  pub serial : ℕ
  pub cursor_surface : Option WlHandle
  pub hotspot_x : ℤ
  pub hotspot_y : ℤ
  pub motion_time : ℕ
  pub surface_x : WlFixed
  pub surface_y : WlFixed

pub record SurfaceState : Type 0 where
  pub g_compositor : WlHandle
  pub active_buffer : Option SurfaceBuffer
  pub pending_buffer : Option SurfaceBuffer
  pub entered_pointer : Option SurfacePointer

pub record ShmPoolState : Type 0 where
  pub g_shm : WlHandle
  pub fd : ℤ
  pub size : ℤ

pub record ShmBufferState : Type 0 where
  pub shm_pool : WlHandle
  pub offset : ℤ
  pub width : ℤ
  pub height : ℤ
  pub stride : ℤ
  pub format : ℕ

pub record PointerState : Type 0 where
  pub g_seat : WlHandle
  pub current_surface : Option WlHandle

pub record WlIntercept : Type 0 where
  pub registry_map : DashMap RegistryState
  pub global_map : DashMap GlobalState
  pub surface_map : DashMap SurfaceState
  pub shm_pool_map : DashMap ShmPoolState
  pub shm_buffer_map : DashMap ShmBufferState
  pub pointer_map : DashMap PointerState

abbrev pub new_load_with : WlIntercept
new_load_with = record {
  registry_map = new_map;
  global_map = new_map;
  surface_map = new_map;
  shm_pool_map = new_map;
  shm_buffer_map = new_map;
  pointer_map = new_map;
}

-- A write through the lock of one surface.
abbrev pub set_surface : WlHandle → SurfaceState → WlIntercept → WlIntercept
set_surface surface s st = record st { surface_map = insert surface s st.surface_map }
