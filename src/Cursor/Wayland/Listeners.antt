-- ===== src/Cursor/Wayland/Listeners.antt =====
-- The intercepted entry points of libwayland-client and the memory that they manage:
-- `DispatcherData`, the `intercept_wl_proxy_*` functions and `impl_dispatcher` of
-- cursor/src/wayland/mod.rs. The library keeps one implementation pointer for each proxy; the
-- interception puts a `DispatcherData` of its own there.
pub mod Memory
pub mod Life
use pw_capture.Common.{
  ℕ, ◌%◌, Bool, true, false, ◌&&◌, not, Option, none, some, List, String, DashMap, insert, remove,
  ◌==◌, if◌then◌else◌,
}
use pw_capture.Cursor.Wayland.State.{WlHandle, WlIntercept}
use pw_capture.Cursor.Wayland.Collect.{collect_method, collect_event_filter, collect_event}
use pw_capture.Cursor.Wayland.Signature.{Forward, dispatch_event}

pub record DispatcherData : Type 0 where
  pub raw_dispatcher : Option ℕ
  pub raw_implementation : ℕ
  pub collect : Bool

-- `listeners` is the library's: the implementation pointer of each proxy that has one. `heap`
-- holds the live allocations of `DispatcherData` by address.
pub record Interception : Type 0 where
  pub tables : WlIntercept
  pub listeners : DashMap ℕ
  pub heap : DashMap DispatcherData

unfoldable pub wl_proxy_get_listener : WlHandle → Interception → Option ℕ
wl_proxy_get_listener proxy st = st.listeners proxy

-- `none` is a deallocation of what is not allocated.
unfoldable pub dealloc : ℕ → Interception → Option Interception
dealloc addr st = elim (st.heap addr) [
  | none ↦ none
  | some d ↦ some (record st { heap = remove addr st.heap })
]

abbrev pub dealloc_implementation : Option ℕ → Interception → Option Interception
dealloc_implementation none st = some st
dealloc_implementation (some addr) st = dealloc addr st

-- The library forgets a proxy that is destroyed.
abbrev pub forget : WlHandle → Interception → Interception
forget proxy st = record st { listeners = remove proxy st.listeners }

abbrev pub is_none : Option ℕ → Bool
is_none none = true
is_none (some d) = false

-- `addr` is what `alloc` returns, `res` what the library's function returns; it stores the
-- pointer where `res` is 0.
unfoldable pub intercept_wl_proxy_add_dispatcher :
    ℕ → ℕ → WlHandle → String → Option ℕ → ℕ → Interception → Option (Interception × ℕ)
unfolding dealloc
intercept_wl_proxy_add_dispatcher addr res proxy interface_name dispatcher implementation st =
    if is_none dispatcher && implementation == 0
    then some (st, 0)
    else let impl_data : DispatcherData = record {
      raw_dispatcher = dispatcher;
      raw_implementation = implementation;
      collect = collect_event_filter interface_name;
    } in
      let allocated = record st { heap = insert addr impl_data st.heap } in
      if res == 0
      then some (record allocated { listeners = insert proxy addr st.listeners }, res)
      else elim (dealloc addr allocated) [ none ↦ none | some st' ↦ some (st', res) ]

unfoldable pub intercept_wl_proxy_add_listener :
    ℕ → ℕ → WlHandle → String → ℕ → Interception → Option (Interception × ℕ)
unfolding intercept_wl_proxy_add_dispatcher
intercept_wl_proxy_add_listener addr res proxy interface_name implementation st =
    intercept_wl_proxy_add_dispatcher addr res proxy interface_name none implementation st

-- 0 is the null pointer; the outer `none` is a read of what is not allocated.
unfoldable pub intercept_wl_proxy_get_listener : WlHandle → Interception → Option ℕ
unfolding wl_proxy_get_listener
intercept_wl_proxy_get_listener proxy st = elim (wl_proxy_get_listener proxy st) [
  | none ↦ some 0
  | some addr ↦ elim (st.heap addr) [ none ↦ none | some d ↦ some d.raw_implementation ]
]

unfoldable pub intercept_wl_proxy_destroy : WlHandle → Interception → Option Interception
unfolding wl_proxy_get_listener dealloc
intercept_wl_proxy_destroy proxy st =
    dealloc_implementation (wl_proxy_get_listener proxy st) (forget proxy st)

-- Bit 0 of the flags.
abbrev pub marshal_flag_destroy : ℕ → Bool
marshal_flag_destroy flags = flags % 2 == 1

-- The library may destroy the proxy; its implementation was read before. `cstr` is as in
-- `collect_method`, and `args` are the arguments after the library filled in the new object.
unfoldable pub intercept_wl_proxy_marshal_array_flags :
    (ℕ → String) → WlHandle → String → String → ℕ → List ℕ → Interception → Option Interception
unfolding wl_proxy_get_listener dealloc
intercept_wl_proxy_marshal_array_flags cstr proxy interface_name method_name flags args st =
    let implementation = wl_proxy_get_listener proxy st in
    let sent = if marshal_flag_destroy flags then forget proxy st else st in
    let collected = record sent {
      tables = collect_method cstr proxy interface_name method_name args sent.tables;
    } in
    if marshal_flag_destroy flags
    then dealloc_implementation implementation collected
    else some collected

-- The dispatcher that the library calls with the stored pointer.
unfoldable pub impl_dispatcher :
    (ℕ → Option ℕ)
    → ℕ
    → ℕ
    → WlHandle
    → String
    → ℕ
    → String
    → List ℕ
    → List ℕ
    → Interception
    → Option (Interception × Option Forward)
impl_dispatcher callbacks user_data implementation proxy interface_name opcode event_name signature
      args st =
    elim (st.heap implementation) [
      | none ↦ none
      | some d ↦ some (
        record st {
          tables =
              if d.collect
              then collect_event proxy interface_name event_name args st.tables
              else st.tables;
        },
        dispatch_event d.raw_dispatcher d.raw_implementation callbacks user_data proxy opcode
            signature args,
      )
    ]
