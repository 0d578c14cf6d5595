-- ===== src/Cursor/Wayland/Methods.antt =====
-- The requests that the interception records: the `m_*` methods of `WlIntercept` in
-- cursor/src/wayland/mod.rs. A method that the source types `Option<()>` returns the new state
-- and that option; a lookup that fails leaves the rest undone.
pub mod Frames
use pw_capture.Common.{ℕ, ℤ, pos, Option, none, some, String, insert, remove}
use pw_capture.Cursor.Wayland.State.{
  WlHandle, SurfaceBuffer, SurfacePointer, SurfaceState, PointerState, ShmPoolState, WlIntercept,
  set_surface,
}

unfoldable pub m_display_get_registry : WlHandle → WlHandle → WlIntercept → WlIntercept
m_display_get_registry display registry st = record st {
  registry_map = insert registry (record { display = display }) st.registry_map;
}

unfoldable pub m_registry_bind : WlHandle → String → WlHandle → WlIntercept → WlIntercept
m_registry_bind registry name global st = record st {
  global_map = insert global (record { registry = registry; name = name }) st.global_map;
}

unfoldable pub m_compositor_create_surface : WlHandle → WlHandle → WlIntercept → WlIntercept
m_compositor_create_surface g_compositor surface st =
    set_surface surface
      (record {
        g_compositor = g_compositor;
        active_buffer = none;
        pending_buffer = none;
        entered_pointer = none;
      })
      st

unfoldable pub m_shm_create_pool : WlHandle → ℤ → ℤ → WlHandle → WlIntercept → WlIntercept
m_shm_create_pool g_shm fd size shm_pool st = record st {
  shm_pool_map = insert shm_pool (record { g_shm = g_shm; fd = fd; size = size }) st.shm_pool_map;
}

unfoldable pub m_shm_pool_create_buffer :
    WlHandle → ℤ → ℤ → ℤ → ℤ → ℕ → WlHandle → WlIntercept → WlIntercept
m_shm_pool_create_buffer shm_pool offset width height stride format shm_buffer st = record st {
  shm_buffer_map =
      insert shm_buffer
        (record {
          shm_pool = shm_pool;
          offset = offset;
          width = width;
          height = height;
          stride = stride;
          format = format;
        })
        st.shm_buffer_map;
}

unfoldable pub m_shm_pool_resize : WlHandle → ℤ → WlIntercept → WlIntercept × Option (Unit {0})
m_shm_pool_resize shm_pool size st = elim (st.shm_pool_map shm_pool) [
  | none ↦ (st, none)
  | some pool ↦ (
    record st { shm_pool_map = insert shm_pool (record pool { size = size }) st.shm_pool_map },
    some tt,
  )
]

-- What `attach` writes to the pending state. With no pending state yet the source stores the
-- null handle, not `buffer`.
unfoldable pub attach_pending : WlHandle → Option SurfaceBuffer → SurfaceBuffer
attach_pending buffer (some state) = record state { buffer = buffer }
attach_pending buffer none = record { buffer = 0; scale = pos 1 }

unfoldable pub m_surface_attach :
    WlHandle → WlHandle → WlIntercept → WlIntercept × Option (Unit {0})
unfolding attach_pending
m_surface_attach surface buffer st = elim (st.surface_map surface) [
  | none ↦ (st, none)
  | some s ↦ (
    set_surface surface
        (record s { pending_buffer = some (attach_pending buffer s.pending_buffer) }) st,
    some tt,
  )
]

unfoldable pub scale_pending : ℤ → Option SurfaceBuffer → SurfaceBuffer
scale_pending scale (some state) = record state { scale = scale }
scale_pending scale none = record { buffer = 0; scale = scale }

unfoldable pub m_surface_set_buffer_scale :
    WlHandle → ℤ → WlIntercept → WlIntercept × Option (Unit {0})
unfolding scale_pending
m_surface_set_buffer_scale surface scale st = elim (st.surface_map surface) [
  | none ↦ (st, none)
  | some s ↦ (
    set_surface surface (record s { pending_buffer = some (scale_pending scale s.pending_buffer) })
        st,
    some tt,
  )
]

unfoldable pub m_surface_commit : WlHandle → WlIntercept → WlIntercept × Option (Unit {0})
m_surface_commit surface st = elim (st.surface_map surface) [
  | none ↦ (st, none)
  | some s ↦ (
    set_surface surface (record s { active_buffer = s.pending_buffer; pending_buffer = none }) st,
    some tt,
  )
]

unfoldable pub m_seat_get_pointer : WlHandle → WlHandle → WlIntercept → WlIntercept
m_seat_get_pointer g_seat pointer st = record st {
  pointer_map = insert pointer (record { g_seat = g_seat; current_surface = none }) st.pointer_map;
}

-- The surface that a pointer is over, with the pointer entered on it: the three lookups that
-- `m_pointer_set_cursor` and `e_pointer_motion` begin with.
unfoldable pub entered_on :
    WlHandle → WlIntercept → Option (WlHandle × SurfaceState × SurfacePointer)
entered_on pointer st = elim (st.pointer_map pointer) [
  | none ↦ none
  | some p ↦ elim p.current_surface [
    | none ↦ none
    | some surface ↦ elim (st.surface_map surface) [
      | none ↦ none
      | some s ↦ elim s.entered_pointer [ none ↦ none | some e ↦ some (surface, s, e) ]
    ]
  ]
]

-- The debug build also compares `serial` with the latest one, and only logs.
unfoldable pub m_pointer_set_cursor :
    WlHandle → ℕ → WlHandle → ℤ → ℤ → WlIntercept → WlIntercept × Option (Unit {0})
unfolding entered_on
m_pointer_set_cursor pointer serial cursor_surface hotspot_x hotspot_y st =
    elim (entered_on pointer st) [
      | none ↦ (st, none)
      | some (surface, s, e) ↦ (
        set_surface surface
            (record s {
              entered_pointer = some (record e {
                cursor_surface = some cursor_surface;
                hotspot_x = hotspot_x;
                hotspot_y = hotspot_y;
              });
            })
            st,
        some tt,
      )
    ]

unfoldable pub m_pointer_release : WlHandle → WlIntercept → WlIntercept
m_pointer_release pointer st = record st { pointer_map = remove pointer st.pointer_map }

-- The three removals that `collect_method` makes itself.
unfoldable pub shm_pool_destroy : WlHandle → WlIntercept → WlIntercept
shm_pool_destroy proxy st = record st { shm_pool_map = remove proxy st.shm_pool_map }

unfoldable pub buffer_destroy : WlHandle → WlIntercept → WlIntercept
buffer_destroy proxy st = record st { shm_buffer_map = remove proxy st.shm_buffer_map }

unfoldable pub surface_destroy : WlHandle → WlIntercept → WlIntercept
surface_destroy proxy st = record st { surface_map = remove proxy st.surface_map }
