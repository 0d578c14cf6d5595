-- ===== src/Cursor/Wayland/Listeners/Life.antt =====
-- The life of the wrapped listeners under every sequence of calls, the `intercept_wl_proxy_*`
-- functions and `impl_dispatcher` of cursor/src/wayland/mod.rs.
use pw_capture.Common.{
  ℕ, ◌≡◌, refl, subst, ◌≢◌, Bool-cases, inl, inr, Option, none, some, List, [], String, arith,
  ==_refl, new_map, if◌then◌else◌,
}
use pw_capture.Cursor.Wayland.State.{WlHandle, WlIntercept}
use pw_capture.Cursor.Wayland.Collect.{collect_method, collect_event}
use pw_capture.Cursor.Wayland.Listeners.{
  Interception, intercept_wl_proxy_add_dispatcher, intercept_wl_proxy_destroy,
  intercept_wl_proxy_marshal_array_flags, intercept_wl_proxy_get_listener, impl_dispatcher,
  marshal_flag_destroy,
}
use pw_capture.Cursor.Wayland.Listeners.Memory.{IsOwned, release-IsOwned, add_dispatcher-IsOwned}

-- A call of an entry point, with what `alloc` and the library return in it.
pub data Call : Type 0 where
  adds : ℕ → ℕ → WlHandle → String → Option ℕ → ℕ → Call
  destroys : WlHandle → Call
  marshals : WlHandle → String → String → ℕ → List ℕ → Call
  dispatches : ℕ → WlHandle → String → String → List ℕ → Call

-- What `alloc` and the library guarantee: a new allocation is not in use, a second listener of a
-- proxy is refused, and the dispatcher is called with the stored pointer.
abbrev pub IsLegal : Interception → Call → Type 0
IsLegal st (adds addr res proxy interface_name dispatcher implementation) =
    (st.heap addr ≡ none) × (res ≡ 0 → st.listeners proxy ≡ none)
IsLegal st (dispatches addr proxy interface_name event_name args) = st.listeners proxy ≡ some addr
IsLegal st _ = Unit {0}

module _ (cstr : ℕ → String) where
  unfoldable pub call : Call → Interception → Option Interception
  call (adds addr res proxy interface_name dispatcher implementation) st =
      elim (intercept_wl_proxy_add_dispatcher addr res proxy interface_name dispatcher
        implementation st) [ none ↦ none | some (st', r) ↦ some st' ]
  call (destroys proxy) st = intercept_wl_proxy_destroy proxy st
  call (marshals proxy interface_name method_name flags args) st =
      intercept_wl_proxy_marshal_array_flags cstr proxy interface_name method_name flags args st
  call (dispatches addr proxy interface_name event_name args) st =
      elim (impl_dispatcher (λ _. none) 0 addr proxy interface_name 0 event_name [] args st) [
        | none ↦ none
        | some (st', f) ↦ some st'
      ]

  -- A legal call on a state whose listeners and allocations correspond one to one frees only what
  -- is allocated, reads only what is allocated, and keeps the correspondence.
  pub call-IsOwned :
      (c : Call) (st : Interception)
      → IsLegal st c
      → IsOwned st
      → (st' : Interception) × (call c st ≡ some st') × IsOwned st'
  unfolding call
  call-IsOwned (adds addr res proxy i dispatcher impl) st l o =
      let (st', r, e, o') = add_dispatcher-IsOwned addr res proxy i dispatcher impl st l.0 l.1 o in
      (st', rw (e, call), o')
  call-IsOwned (destroys proxy) st l o =
      let (st', e, o', _) = release-IsOwned proxy st st.tables o in
      (st', (unfold intercept_wl_proxy_destroy in e), o')
  call-IsOwned (marshals proxy i m flags args) st l o =
      elim (Bool-cases (marshal_flag_destroy flags)) [
        | inl e ↦
            let (st', f, o', _) =
              release-IsOwned proxy st (collect_method cstr proxy i m args st.tables) o in
            (st', (unfold intercept_wl_proxy_marshal_array_flags in rw e f), o')
        | inr e ↦ (
          record st { tables = collect_method cstr proxy i m args st.tables },
          (unfold intercept_wl_proxy_marshal_array_flags in rw e refl),
          record { allocated = o.allocated; single = o.single; reachable = o.reachable },
        )
      ]
  call-IsOwned (dispatches addr proxy i n args) st l o =
      let (d, h) = o.allocated proxy addr l in
      (
        record st {
          tables = if d.collect then collect_event proxy i n args st.tables else st.tables;
        },
        (unfold impl_dispatcher in ground (arith, h)),
        record { allocated = o.allocated; single = o.single; reachable = o.reachable },
      )

  -- The states that legal calls lead to from one without listeners.
  pub data Reach : Interception → Type 0 where
    start : (t : WlIntercept) → Reach (record { tables = t; listeners = new_map; heap = new_map })
    step :
        {st st' : Interception} (c : Call)
        → Reach st
        → IsLegal st c
        → call c st ≡ some st'
        → Reach st'

  Reach-IsOwned : {st : Interception} → Reach st → IsOwned st
  Reach-IsOwned (start t) = record {
    allocated = λ p a h. cc;
    single = λ p q a h k. cc;
    reachable = λ a d h. cc;
  }
  Reach-IsOwned (step {st = s} {st' = s'} c r l e) =
      let (s'', f, o) = call-IsOwned c s l (Reach-IsOwned r) in subst IsOwned (cc (f, e)) o

  -- After any legal history every allocation belongs to exactly one proxy and every stored pointer
  -- to an allocation, and the next legal call neither frees nor reads anything else.
  pub Reach-safe :
      {st : Interception} (c : Call)
      → Reach st
      → IsLegal st c
      → IsOwned st × ((st' : Interception) × (call c st ≡ some st'))
  Reach-safe {st} c r l =
      let o = Reach-IsOwned r in let (st', e, _) = call-IsOwned c st l o in (o, (st', e))

-- An accepted listener is transparent: the application reads back the implementation that it
-- added.
pub get_listener-add_dispatcher :
    (addr : ℕ) (proxy : WlHandle) (interface_name : String) (dispatcher : Option ℕ)
    (implementation : ℕ) (st : Interception) {st' : Interception}
    → implementation ≢ 0
    → intercept_wl_proxy_add_dispatcher addr 0 proxy interface_name dispatcher implementation st
      ≡ some (st', 0)
    → intercept_wl_proxy_get_listener proxy st' ≡ some implementation
unfolding intercept_wl_proxy_add_dispatcher intercept_wl_proxy_get_listener
get_listener-add_dispatcher addr proxy i dispatcher impl st {st'} nonnull e =
    ground (arith, ==_refl proxy, ==_refl addr)
