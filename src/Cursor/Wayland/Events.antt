-- ===== src/Cursor/Wayland/Events.antt =====
-- The pointer events that the interception records: the `e_*` methods of `WlIntercept` in
-- cursor/src/wayland/mod.rs.
use pw_capture.Common.{ℕ, Option, none, some, pos, insert}
use pw_capture.Cursor.Wayland.State.{WlHandle, WlFixed, SurfacePointer, WlIntercept, set_surface}
use pw_capture.Cursor.Wayland.Methods.{entered_on}

abbrev set_current : WlHandle → Option WlHandle → WlIntercept → WlIntercept × Option (Unit {0})
set_current pointer current st = elim (st.pointer_map pointer) [
  | none ↦ (st, none)
  | some p ↦ (
    record st {
      pointer_map = insert pointer (record p { current_surface = current }) st.pointer_map;
    },
    some tt,
  )
]

abbrev pub entering : WlHandle → ℕ → WlFixed → WlFixed → SurfacePointer
entering pointer serial surface_x surface_y = record {
  pointer = pointer;
  serial = serial;
  cursor_surface = none;
  hotspot_x = pos 0;
  hotspot_y = pos 0;
  motion_time = 0;
  surface_x = surface_x;
  surface_y = surface_y;
}

-- The surface is written before the pointer is looked up, so a missing pointer leaves it written.
unfoldable pub e_pointer_enter :
    WlHandle → ℕ → WlHandle → WlFixed → WlFixed → WlIntercept → WlIntercept × Option (Unit {0})
e_pointer_enter pointer serial surface surface_x surface_y st = elim (st.surface_map surface) [
  | none ↦ (st, none)
  | some s ↦ set_current pointer (some surface) (
      set_surface surface
        (record s { entered_pointer = some (entering pointer serial surface_x surface_y) }) st)
]

unfoldable pub e_pointer_leave :
    WlHandle → ℕ → WlHandle → WlIntercept → WlIntercept × Option (Unit {0})
e_pointer_leave pointer serial surface st = elim (st.surface_map surface) [
  | none ↦ (st, none)
  | some s ↦ set_current pointer none (set_surface surface (record s { entered_pointer = none }) st)
]

unfoldable pub e_pointer_motion :
    WlHandle → ℕ → WlFixed → WlFixed → WlIntercept → WlIntercept × Option (Unit {0})
unfolding entered_on
e_pointer_motion pointer time surface_x surface_y st = elim (entered_on pointer st) [
  | none ↦ (st, none)
  | some (surface, s, e) ↦ (
    set_surface surface
        (record s {
          entered_pointer =
              some (record e { motion_time = time; surface_x = surface_x; surface_y = surface_y });
        })
        st,
    some tt,
  )
]
