-- ===== src/Vulkan/Objects/Queues.antt =====
-- Every queue belongs to a device that is there.
pub mod Owners
pub mod Registered
use pw_capture.Common.{
  ℕ, ◌≡◌, ◌≢◌, refl, sym, ap, ◌∙◌, ◌⊎◌, inl, inr, if◌then◌else◌, ◌==◌, ==_refl, ==_iff, none, some,
  List, [], ◌∷◌, ◌++◌, has, DashMap, insert, remove, get_elem?, arith, Bool-cases, Option-cases,
}
use pw_capture.Vulkan.Layer.{LayerDevice, LayerQueue, Layer}
use pw_capture.Vulkan.Objects.{
  Result, success, error, panicked, Tables, Family, DeviceDriver, remove_all, family_queues,
  insert_queues, destroy_device,
}
use pw_capture.Vulkan.Objects.Queues.Registered.{Holds, Asked}
use pw_capture.Vulkan.Objects.Queues.Owners.{Owned, QueuesOwned, remove_all-kept, destroyed-Owned}

missing_removed :
    (device i : ℕ) (m : DashMap LayerDevice)
    → m device ≡ none
    → m i ≡ (if i == device then none else m i)
missing_removed device i m n = elim (Bool-cases (i == device)) [
  | inl e ↦ rw (e, (==_iff i device).0 e) n
  | inr e ↦ rw e refl
]

devices_left :
    (device : ℕ) (t : Tables) (i : ℕ)
    → (destroy_device device t).0.layer.device_map i
      ≡ (if i == device then none else t.layer.device_map i)
unfolding destroy_device
devices_left device t i = elim (Option-cases (t.layer.device_map device)) [
  | inr (d, k) ↦ rw (destroy_device, k) refl
  | inl n ↦ rw (destroy_device, n) (missing_removed device i t.layer.device_map n)
]

kept-QueuesOwned :
    (device : ℕ) (t : Tables) → QueuesOwned t.layer → QueuesOwned (destroy_device device t).0.layer
unfolding destroy_device QueuesOwned
kept-QueuesOwned device t h = elim (Option-cases (t.layer.device_map device)) [
  | inl n ↦ rw (destroy_device, n) h
  | inr (d, k) ↦
      rw (destroy_device, k)
        (λ q l e.
          let (e', gone) = remove_all-kept d.queues t.layer.queue_map q l e in
          destroyed-Owned t.layer.device_map device q d l k gone (h q l e'))
]

never_none : {o : LayerDevice} → none ≢ some o
never_none e = ground (arith, e)

-- Destroying a device, known or not, removes it from the table and no other device, and leaves no
-- queue of it: every queue that stays is of another device, which is in the table and lists it.
pub destroy_device-QueuesOwned :
    (device : ℕ) (t : Tables)
    → QueuesOwned t.layer
    → QueuesOwned (destroy_device device t).0.layer
      × ((i : ℕ)
          → (destroy_device device t).0.layer.device_map i
            ≡ (if i == device then none else t.layer.device_map i))
      × ((q : ℕ) (l : LayerQueue)
          → (destroy_device device t).0.layer.queue_map q ≡ some l
          → l.device ≢ device)
unfolding QueuesOwned
destroy_device-QueuesOwned device t h =
    let owned = kept-QueuesOwned device t h in
    (
      owned,
      devices_left device t,
      λ q l e s.
          let o = owned q l e in
          let gone : (destroy_device device t).0.layer.device_map device ≡ none =
            devices_left device t device ∙ (rw (==_refl device) refl) in
          never_none (sym gone ∙ sym (ap (destroy_device device t).0.layer.device_map s) ∙ o.there),
    )

-- Where a device is created, every queue that is asked for is in the map, as one of the device.
abbrev pub Registers : DeviceDriver → List (ℕ × ℕ) → Tables × Result → Type 0
Registers d infos (t, success device) =
    (q : ℕ) → Asked (d.device_queue device) q infos → Holds t.layer.queue_map device q
Registers d infos (t, error) = Unit
Registers d infos (t, panicked) = Unit
