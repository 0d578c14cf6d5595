-- ===== src/Cursor/Wayland/Listeners/Memory.antt =====
-- Each wrapped listener is allocated once and freed once, the `intercept_wl_proxy_*` functions of
-- cursor/src/wayland/mod.rs.
use native.Mathlib.Decide.{ℕ_discrete}
use pw_capture.Common.{
  DashMap, insert, remove, ℕ, ◌≡◌, refl, ◌&&◌, ap, sym, ◌∙◌, ◌≢◌, ◌⊎◌, inl, inr, Bool-cases,
  Option-cases, Option, none, some, String, arith, ==_refl, ◌==◌,
}
use pw_capture.Cursor.Wayland.State.{WlHandle, WlIntercept}
use pw_capture.Cursor.Wayland.Collect.{collect_event_filter}
use pw_capture.Cursor.Wayland.Listeners.{
  is_none, DispatcherData, Interception, forget, dealloc, dealloc_implementation,
  intercept_wl_proxy_add_dispatcher,
}

-- The listeners that the library holds and the allocations correspond one to one.
pub record IsOwned (st : Interception) : Type 0 where
  pub allocated :
      (p : WlHandle) (a : ℕ) → st.listeners p ≡ some a → (d : DispatcherData) × (st.heap a ≡ some d)
  pub single : (p q : WlHandle) (a : ℕ) → st.listeners p ≡ some a → st.listeners q ≡ some a → p ≡ q
  pub reachable :
      (a : ℕ) (d : DispatcherData) → st.heap a ≡ some d → (p : WlHandle) × (st.listeners p ≡ some a)

remove-some :
    {V : Type 0} (k j : ℕ) (m : DashMap V) (v : V)
    → remove k m j ≡ some v
    → (j ≢ k) × (m j ≡ some v)
remove-some k j m v e = ground arith

remove_other :
    {V : Type 0} (k j : ℕ) (m : DashMap V) (v : V) → j ≢ k → m j ≡ some v → remove k m j ≡ some v
remove_other k j m v h e = ground arith

-- The state after a proxy and its allocation are gone.
abbrev without : WlHandle → ℕ → Interception → Interception
without proxy a st = record (forget proxy st) { heap = remove a st.heap }

forget-IsOwned :
    (proxy : WlHandle) (st : Interception)
    → st.listeners proxy ≡ none
    → IsOwned st
    → IsOwned (forget proxy st)
forget-IsOwned proxy st e o = record {
  allocated = λ p a h. o.allocated p a (remove-some proxy p st.listeners a h).1;
  single = λ p q a h k.
      o.single p q a (remove-some proxy p st.listeners a h).1
        (remove-some proxy q st.listeners a k).1;
  reachable = λ a d h.
      let (p, l) = o.reachable a d h in
      (p, remove_other proxy p st.listeners a (λ same. cc (rw same at l)) l);
}

without-IsOwned :
    (proxy : WlHandle) (a : ℕ) (st : Interception)
    → st.listeners proxy ≡ some a
    → IsOwned st
    → IsOwned (without proxy a st)
without-IsOwned proxy a st e o = record {
  allocated = λ p b h.
      let (apart, l) = remove-some proxy p st.listeners b h in
      let (d, k) = o.allocated p b l in
      (d, remove_other a b st.heap d (λ same. apart (o.single p proxy a (rw same at l) e)) k);
  single = λ p q b h k.
      o.single p q b (remove-some proxy p st.listeners b h).1
        (remove-some proxy q st.listeners b k).1;
  reachable = λ b d h.
      let (apart, k) = remove-some a b st.heap d h in
      let (p, l) = o.reachable b d k in
      (p, remove_other proxy p st.listeners b (λ same. apart (cc (ap st.listeners same))) l);
}

-- Freeing the allocation of a proxy that the library has forgotten, whatever the tables hold.
pub release-IsOwned :
    (proxy : WlHandle) (st : Interception) (t : WlIntercept)
    → IsOwned st
    → (st' : Interception) × (dealloc_implementation
          (st.listeners proxy)
          (record (forget proxy st) { tables = t })
        ≡ some st')
      × IsOwned st'
      × (st'.listeners proxy ≡ none)
unfolding dealloc
release-IsOwned proxy st t o = elim (Option-cases (st.listeners proxy)) [
  | inl e ↦ (
    record (forget proxy st) { tables = t },
    rw e refl,
    (let o' = forget-IsOwned proxy st e o in
        record { allocated = o'.allocated; single = o'.single; reachable = o'.reachable }),
    ground (arith, ==_refl proxy),
  )
  | inr (a, e) ↦ (
    record (without proxy a st) { tables = t },
    ground (arith, (o.allocated proxy a e).1),
    (let o' = without-IsOwned proxy a st e o in
        record { allocated = o'.allocated; single = o'.single; reachable = o'.reachable }),
    ground (arith, ==_refl proxy),
  )
]

insert-some :
    {V : Type 0} (k j : ℕ) (w : V) (m : DashMap V) (v : V)
    → insert k w m j ≡ some v
    → ((j ≡ k) × (w ≡ v)) ⊎ ((j ≢ k) × (m j ≡ some v))
insert-some k j w m v e = ground arith

insert_self : {V : Type 0} (k : ℕ) (w : V) (m : DashMap V) → insert k w m k ≡ some w
insert_self k w m = ground arith

insert_other :
    {V : Type 0} (k j : ℕ) (w : V) (m : DashMap V) (v : V)
    → j ≢ k
    → m j ≡ some v
    → insert k w m j ≡ some v
insert_other k j w m v h e = ground arith

-- The state after an accepted listener.
abbrev with_listener : WlHandle → ℕ → DispatcherData → Interception → Interception
with_listener proxy addr d st = record st {
  heap = insert addr d st.heap;
  listeners = insert proxy addr st.listeners;
}

-- The state after a refused one: the allocation is made and freed.
abbrev undone : ℕ → DispatcherData → Interception → Interception
undone addr d st = record st { heap = remove addr (insert addr d st.heap) }

module _ (addr : ℕ) (proxy : WlHandle) (d : DispatcherData) (st : Interception)
    (fresh : st.heap addr ≡ none) (o : IsOwned st) where
  unused : (p : WlHandle) → st.listeners p ≢ some addr
  unused p e = cc (fresh, (o.allocated p addr e).1)

  undone-IsOwned : IsOwned (undone addr d st)
  undone-IsOwned = record {
    allocated = λ p a h. let (d', k) = o.allocated p a h in (d', ground (arith, k, fresh));
    single = o.single;
    reachable = λ a d' h. o.reachable a d' (ground arith);
  }

  with_listener-IsOwned : st.listeners proxy ≡ none → IsOwned (with_listener proxy addr d st)
  with_listener-IsOwned free = record {
    allocated = λ p a h. elim (insert-some proxy p addr st.listeners a h) [
      | inl (_, e) ↦ (d, rw (← e) (insert_self addr d st.heap))
      | inr (_, l) ↦
          let (d', k) = o.allocated p a l in
          (d', insert_other addr a d st.heap d' (λ same. unused p (rw same at l)) k)
    ];
    single = λ p q a h k. elim (insert-some proxy p addr st.listeners a h) [
      | inl (e, f) ↦ elim (insert-some proxy q addr st.listeners a k) [
        | inl (e', _) ↦ e ∙ sym e'
        | inr (_, l') ↦ absurd (unused q (rw (← f) at l'))
      ]
      | inr (_, l) ↦ elim (insert-some proxy q addr st.listeners a k) [
        | inl (_, f') ↦ absurd (unused p (rw (← f') at l))
        | inr (_, l') ↦ o.single p q a l l'
      ]
    ];
    reachable = λ a d' h. elim (insert-some addr a d st.heap d' h) [
      | inl (e, _) ↦ (proxy, rw e (insert_self proxy addr st.listeners))
      | inr (_, k) ↦
          let (p, l) = o.reachable a d' k in
          (p, insert_other proxy p addr st.listeners a (λ same. cc (ap st.listeners same)) l)
    ];
  }

pub add_dispatcher-IsOwned :
    (addr res : ℕ) (proxy : WlHandle) (interface_name : String) (dispatcher : Option ℕ)
    (implementation : ℕ) (st : Interception)
    → st.heap addr ≡ none
    → (res ≡ 0 → st.listeners proxy ≡ none)
    → IsOwned st
    → (st' : Interception) × (r : ℕ) × (intercept_wl_proxy_add_dispatcher addr res proxy
          interface_name dispatcher implementation st
        ≡ some (st', r))
      × IsOwned st'
unfolding intercept_wl_proxy_add_dispatcher
add_dispatcher-IsOwned addr res proxy i dispatcher impl st fresh free o =
    elim (Bool-cases (is_none dispatcher && impl == 0)) [
      | inl e ↦ (st, 0, rw e refl, o)
      | inr e ↦ elim (ℕ_discrete res 0) [
        | yes z ↦ (
          with_listener proxy addr data' st,
          res,
          ground (arith, e),
          with_listener-IsOwned addr proxy data' st fresh o (free z),
        )
        | no nz ↦ (
          undone addr data' st,
          res,
          ground (arith, e, ==_refl addr),
          undone-IsOwned addr proxy data' st fresh o,
        )
      ]
    ]
  where
    data' : DispatcherData
    data' = record {
      raw_dispatcher = dispatcher;
      raw_implementation = impl;
      collect = collect_event_filter i;
    }
