-- ===== src/Vulkan/Objects/Retry.antt =====
-- A program gets its instance, with the layer's extensions or without them.
use pw_capture.Common.{
  ℕ, ◌≡◌, ◌≢◌, refl, inl, inr, Bool, true, false, ◌==◌, ==_refl, if◌then◌else◌, Option, some, List,
  String, arith, Option-cases,
}
use pw_capture.Vulkan.Objects.{
  Tables, success, with_extensions, create_or_retry, register_instance, create_instance,
}

not_zero : (n : ℕ) → n ≢ 0 → (n == 0) ≡ false
not_zero n k = ground arith

registered :
    (phy_devices : ℕ → Option (List ℕ)) (gipa i : ℕ) (valid : Bool) (t : Tables)
    → i ≢ 0
    → (phys : List ℕ) × (phy_devices i ≡ some phys)
    → ((register_instance phy_devices gipa i valid t).1 ≡ success i)
      × ((register_instance phy_devices gipa i valid t).0.layer.instance_map i
          ≡ some (record { valid = valid }))
unfolding register_instance
registered phy_devices gipa i valid t z (phys, p) =
    rw (register_instance, not_zero i z, p) (refl, rw (==_refl i) refl)

-- The layer does not cost a program its instance: where the driver accepts the program's own
-- extensions, the creation succeeds, with the layer's extensions if the driver takes them too, and
-- the table says which; handles that the driver gives are not null and list their devices.
pub create_instance-succeeds :
    (gipa i : ℕ) (create : List String → Option ℕ) (phy_devices : ℕ → Option (List ℕ))
    (own names : List String) (t : Tables)
    → create names ≡ some i
    → ((xs : List String) → (j : ℕ) → create xs ≡ some j → j ≢ 0)
    → ((j : ℕ) → (phys : List ℕ) × (phy_devices j ≡ some phys))
    → (j : ℕ) × (valid : Bool) × ((create_instance
          (some (some gipa))
          create
          phy_devices
          own
          names
          t).1
        ≡ success j)
      × ((create_instance (some (some gipa)) create phy_devices own names t).0.layer.instance_map j
          ≡ some (record { valid = valid }))
      × (create (if valid then with_extensions own names else names) ≡ some j)
unfolding create_instance create_or_retry
create_instance-succeeds gipa i create phy_devices own names t e z p =
    elim (Option-cases (create (with_extensions own names))) [
      | inr (j, q) ↦
          let (a, b) = registered phy_devices gipa j true t (z _ j q) (p j) in
          (
            j,
            true,
            rw (create_instance, create_or_retry, q) a,
            rw (create_instance, create_or_retry, q) b,
            q,
          )
      | inl q ↦
          let (a, b) = registered phy_devices gipa i false t (z names i e) (p i) in
          (
            i,
            false,
            rw (create_instance, create_or_retry, q, e) a,
            rw (create_instance, create_or_retry, q, e) b,
            e,
          )
    ]
