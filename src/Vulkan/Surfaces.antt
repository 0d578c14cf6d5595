-- ===== src/Vulkan/Surfaces.antt =====
-- The surfaces of the Vulkan layer: init_surface, the creation of Xlib, Xcb and Wayland surfaces,
-- their destruction, and the cursor of a surface, vulkan/src/lib.rs.
pub mod Owned
use pw_capture.Common.{
  ℕ, ◌%◌, ◌^◌, Bool, true, false, not, ◌==◌, if◌then◌else◌, Option, none, some, DashMap, insert,
  remove,
}
use pw_capture.Client.Stream.Types.{BufferCursorInfo}
use pw_capture.Cursor.Xcb.{XcbWindow, Server, Reply, ok, err, new_connection, snapshot_cursor}
use pw_capture.Cursor.Wayland.Snapshot.{Fetch, absent, got, fault}
use pw_capture.Cursor.Info.{CursorSnapshot, WlManagers, as_cursor_info, xcb_snapshot}
use pw_capture.Vulkan.Layer.{Layer}
use pw_capture.Vulkan.Objects.{Result, success, error}

pub data SurfaceRawHandle : Type 0 where
  xlib_handle xcb_handle : ℕ → ℕ → SurfaceRawHandle
  wayland_handle : ℕ → ℕ → SurfaceRawHandle

-- `wl_cursor_manager` is the handle of a manager of the OpenGL layer, 0 for none.
pub record LayerSurface : Type 0 where
  pub instance' : ℕ
  pub cursor_manager : Option XcbWindow
  pub wl_cursor_manager : ℕ

-- `SURFACE_MAP`, and the state of the Wayland managers.
pub record Surfaces (S : Type 0) : Type 0 where
  pub surface_map : DashMap LayerSurface
  pub managers : S

-- Without the OpenGL layer there is no manager.
abbrev pub no_managers : WlManagers Unit
no_managers = record {
  get_wl_cursor_manager = λ display surface s. (s, 0);
  release_wl_cursor_manager = λ handle s. (s, false);
  wl_cursor_snapshot = λ handle serial s. absent;
}

unfoldable pub opened {ℓ} : {A : Type ℓ} → Reply A → Option A
opened (ok a) = some a
opened (err e) = none

module _ {S : Type 0} (wl : WlManagers S) (xcb : Server) where
  -- The window's number is cut to 32 bits for Xlib.
  unfoldable pub cursor_manager_of : SurfaceRawHandle → Option XcbWindow
  unfolding opened
  cursor_manager_of (xlib_handle dpy window) = opened (new_connection xcb (window % 2 ^ 32))
  cursor_manager_of (xcb_handle connection window) = opened (new_connection xcb window)
  cursor_manager_of (wayland_handle display surface) = none

  unfoldable pub wl_manager_of : SurfaceRawHandle → S → S × ℕ
  wl_manager_of (xlib_handle dpy window) s = (s, 0)
  wl_manager_of (xcb_handle connection window) s = (s, 0)
  wl_manager_of (wayland_handle display surface) s = wl.get_wl_cursor_manager display surface s

  unfoldable pub init_surface : ℕ → ℕ → SurfaceRawHandle → Surfaces S → Surfaces S
  unfolding cursor_manager_of wl_manager_of
  init_surface instance' surface raw t =
      let (managers, handle) = wl_manager_of raw t.managers in
      record {
        surface_map =
            insert surface
              (record {
                instance' = instance';
                cursor_manager = cursor_manager_of raw;
                wl_cursor_manager = handle;
              })
              t.surface_map;
        managers = managers;
      }

  -- `created` is the driver's surface, `none` where it fails.
  unfoldable pub create_surface :
      SurfaceRawHandle → Option ℕ → ℕ → Layer → Surfaces S → Surfaces S × Result
  unfolding init_surface
  create_surface raw created instance' layer t = elim (layer.instance_map instance') [
    | none ↦ (t, error)
    | some i ↦ elim created [
      | none ↦ (t, error)
      | some surface ↦ (init_surface instance' surface raw t, success surface)
    ]
  ]

  unfoldable pub create_xlib_surface :
      ℕ → ℕ → Option ℕ → ℕ → Layer → Surfaces S → Surfaces S × Result
  unfolding create_surface
  create_xlib_surface dpy window = create_surface (xlib_handle dpy window)

  unfoldable pub create_xcb_surface :
      ℕ → ℕ → Option ℕ → ℕ → Layer → Surfaces S → Surfaces S × Result
  unfolding create_surface
  create_xcb_surface connection window = create_surface (xcb_handle connection window)

  unfoldable pub create_wayland_surface :
      ℕ → ℕ → Option ℕ → ℕ → Layer → Surfaces S → Surfaces S × Result
  unfolding create_surface
  create_wayland_surface display surface = create_surface (wayland_handle display surface)

  unfoldable pub release_of : Option LayerSurface → S → S
  release_of none s = s
  release_of (some x) s =
      if x.wl_cursor_manager == 0 then s else (wl.release_wl_cursor_manager x.wl_cursor_manager s).0

  -- The flag tells whether the driver's function is called.
  unfoldable pub destroy_surface : ℕ → ℕ → Layer → Surfaces S → Surfaces S × Bool
  unfolding release_of
  destroy_surface instance' surface layer t = elim (layer.instance_map instance') [
    | none ↦ (t, false)
    | some i ↦ (
      record {
        surface_map = remove surface t.surface_map;
        managers = release_of (t.surface_map surface) t.managers;
      },
      true,
    )
  ]

  unfoldable pub xcb_fetch : Option XcbWindow → ℕ → Fetch CursorSnapshot
  xcb_fetch none serial = absent
  xcb_fetch (some w) serial = elim (snapshot_cursor xcb w serial) [
    | ok c ↦ got (xcb_snapshot c)
    | err e ↦ absent
  ]

  -- The snapshot of the swapchain's surface, which on_process_buffer adds to a buffer.
  unfoldable pub surface_snapshot : ℕ → ℕ → Surfaces S → Fetch CursorSnapshot
  unfolding xcb_fetch
  surface_snapshot surface old_serial t = elim (t.surface_map surface) [
    | none ↦ absent
    | some x ↦
        if x.wl_cursor_manager == 0
        then xcb_fetch x.cursor_manager old_serial
        else wl.wl_cursor_snapshot x.wl_cursor_manager old_serial t.managers
  ]
