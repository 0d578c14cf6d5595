-- ===== src/Vulkan/Objects/Queues/Owners.antt =====
-- The queues of the layer of vulkan/src/lib.rs and the devices that own them.
use pw_capture.Common.{
  ℕ, ◌≡◌, ◌≢◌, refl, sym, ap, ◌∙◌, inl, inr, Bool, true, false, ◌==◌, ==_refl, ==_iff, none, some,
  List, [], ◌∷◌, has, DashMap, insert, remove, arith, Bool-cases,
}
use pw_capture.Vulkan.Layer.{LayerDevice, LayerQueue, Layer}
use pw_capture.Vulkan.Objects.{remove_all}

-- The device of a queue is there, and lists it.
pub record Owned (devices : DashMap LayerDevice) (queue : ℕ) (l : LayerQueue) : Type 0 where
  pub owner : LayerDevice
  pub there : devices l.device ≡ some owner
  pub listed : has queue owner.queues ≡ true

unfoldable pub QueuesOwned : Layer → Type 0
QueuesOwned layer =
    (q : ℕ) (l : LayerQueue) → layer.queue_map q ≡ some l → Owned layer.device_map q l

pub remove_all-kept :
    (ks : List ℕ) (m : DashMap LayerQueue) (q : ℕ) (l : LayerQueue)
    → remove_all ks m q ≡ some l
    → (m q ≡ some l) × (has q ks ≡ false)
unfolding remove_all
remove_all-kept [] m q l e = (e, refl)
remove_all-kept (k ∷ ks) m q l e =
    let (e', h) = remove_all-kept ks (remove k m) q l e in (ground arith, ground arith)

false-true : false ≢ true
false-true e = ground arith

pub destroyed-Owned :
    (devices : DashMap LayerDevice) (device q : ℕ) (d : LayerDevice) (l : LayerQueue)
    → devices device ≡ some d
    → has q d.queues ≡ false
    → Owned devices q l
    → Owned (remove device devices) q l
destroyed-Owned devices device q d l k gone o = elim (Bool-cases (l.device == device)) [
  | inr other ↦ record { owner = o.owner; there = rw other o.there; listed = o.listed }
  | inl same ↦
      let mine : some d ≡ some o.owner = sym k ∙ sym (ap devices ((==_iff _ _).0 same)) ∙ o.there in
      let mine' : d ≡ o.owner = ground (arith, mine) in
      absurd (false-true (sym gone ∙ ap (λ x. has q x.queues) mine' ∙ o.listed))
]

other_key :
    (devices : DashMap LayerDevice) (device i : ℕ) (d o : LayerDevice)
    → devices device ≡ none
    → devices i ≡ some o
    → insert device d devices i ≡ some o
other_key devices device i d o fresh k = elim (Bool-cases (i == device)) [
  | inr e ↦ rw e k
  | inl e ↦
      let clash : none ≡ some o = sym fresh ∙ sym (ap devices ((==_iff _ _).0 e)) ∙ k in
      ground (arith, clash)
]

-- The device under a new handle.
pub added_old :
    (devices : DashMap LayerDevice) (device q : ℕ) (d : LayerDevice) (l : LayerQueue)
    → devices device ≡ none
    → Owned devices q l
    → Owned (insert device d devices) q l
added_old devices device q d l fresh o = record {
  owner = o.owner;
  there = other_key devices device l.device d o.owner fresh o.there;
  listed = o.listed;
}

pub added_own :
    (devices : DashMap LayerDevice) (device q : ℕ) (d : LayerDevice) (l : LayerQueue)
    → l.device ≡ device
    → has q d.queues ≡ true
    → Owned (insert device d devices) q l
added_own devices device q d l own listed = record {
  owner = d;
  there = rw (own, ==_refl device) refl;
  listed = listed;
}

abbrev pub made : ℕ → ℕ → List ℕ → Bool → LayerDevice
made instance' phy queues valid = record {
  instance' = instance';
  phy_device = phy;
  queues = queues;
  valid = valid;
}
