-- ===== src/Cursor/Wayland/Collect/Filter.antt =====
-- The event filter decides when the dispatcher is to record, collect_event_filter and
-- impl_dispatcher of cursor/src/wayland/mod.rs.
use pw_capture.Common.{ℕ, ◌≡◌, refl, List, String, Bool-cases, inl, inr, if◌then◌else◌, str_eq}
use pw_capture.Cursor.Wayland.State.{WlHandle, WlIntercept}
use pw_capture.Cursor.Wayland.Collect.{which_event, run_event, collect_event_filter, collect_event}

-- `if data.collect { self_.collect_event(..) }` of `impl_dispatcher`, where `data.collect` is the
-- filter's answer for the interface that the listener was added to.
unfoldable pub dispatcher_collect : WlHandle → String → String → List ℕ → WlIntercept → WlIntercept
dispatcher_collect proxy interface_name event_name args st =
    if collect_event_filter interface_name
    then collect_event proxy interface_name event_name args st
    else st

-- The filter hides no recorded event: a dispatcher that collects only where the filter says so
-- leaves the tables as one that always collects.
pub dispatcher_collect-eq-collect_event :
    (proxy : WlHandle) (interface_name event_name : String) (args : List ℕ) (st : WlIntercept)
    → dispatcher_collect proxy interface_name event_name args st
      ≡ collect_event proxy interface_name event_name args st
unfolding dispatcher_collect collect_event_filter collect_event which_event
dispatcher_collect-eq-collect_event proxy i e args st = elim (Bool-cases (str_eq i "wl_pointer")) [
  | inl yes' ↦ rw yes' refl
  | inr no' ↦ rw no' (unfold run_event in refl)
]
