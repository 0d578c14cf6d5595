-- ===== src/Vulkan/Objects.antt =====
-- The instances, devices and queues of the Vulkan layer, and the addresses of its functions:
-- pwcap_vkCreateInstance, destroy_instance, pwcap_vkCreateDevice and destroy_device of
-- vulkan/src/lib.rs. What the next layer answers are arguments.
pub mod Queues
mod Tests
pub mod Retry
use pw_capture.Common.{
  ℕ, suc, zero, Bool, true, false, ◌==◌, if◌then◌else◌, Option, none, some, List, [], ◌∷◌, ◌++◌,
  String, str_eq, DashMap, insert, remove, get_elem?,
}
use pw_capture.Vulkan.Layer.{LayerInstance, LayerDevice, LayerQueue, Layer}

-- The statics of the layer; a function is its number.
pub record Tables : Type 0 where
  pub layer : Layer
  pub gipa : Option ℕ
  pub phy_to_instance_map : DashMap ℕ
  pub gdpa_map : DashMap ℕ

pub data Result : Type 0 where
  success : ℕ → Result
  error panicked : Result

unfoldable pub contains : String → List String → Bool
contains name [] = false
contains name (x ∷ xs) = if str_eq name x then true else contains name xs

-- The set of the program's extensions and the layer's.
unfoldable pub with_extensions : List String → List String → List String
unfolding contains
with_extensions [] names = names
with_extensions (x ∷ own) names =
    let rest = with_extensions own names in if contains x rest then rest else x ∷ rest

-- The call with the extensions, and without them where that fails; the flag tells which.
unfoldable pub create_or_retry :
    (List String → Option ℕ) → List String → List String → Option (ℕ × Bool)
unfolding with_extensions
create_or_retry create own names = elim (create (with_extensions own names)) [
  | some handle ↦ some (handle, true)
  | none ↦ elim (create names) [ none ↦ none | some handle ↦ some (handle, false) ]
]

unfoldable pub insert_all : List ℕ → ℕ → DashMap ℕ → DashMap ℕ
insert_all [] v m = m
insert_all (k ∷ ks) v m = insert_all ks v (insert k v m)

unfoldable pub remove_all : {V : Type 0} → List ℕ → DashMap V → DashMap V
remove_all [] m = m
remove_all (k ∷ ks) m = remove_all ks (remove k m)

-- The first value stays.
unfoldable pub set_once : ℕ → Option ℕ → Option ℕ
set_once v none = some v
set_once v (some old) = some old

unfoldable pub register_instance : (ℕ → Option (List ℕ)) → ℕ → ℕ → Bool → Tables → Tables × Result
unfolding insert_all set_once
register_instance phy_devices gipa instance' valid t =
    if instance' == 0 then (t, panicked) else elim (phy_devices instance') [
      | none ↦ (record t { gipa = set_once gipa t.gipa }, panicked)
      | some phys ↦ (
        record t {
          gipa = set_once gipa t.gipa;
          phy_to_instance_map = insert_all phys instance' t.phy_to_instance_map;
          layer = record t.layer {
            instance_map = insert instance' (record { valid = valid }) t.layer.instance_map;
          };
        },
        success instance',
      )
    ]

-- `chain` is the next layer's function in the chain of the creation, if there is a chain and one.
unfoldable pub create_instance :
    Option (Option ℕ)
    → (List String → Option ℕ)
    → (ℕ → Option (List ℕ))
    → List String
    → List String
    → Tables
    → Tables × Result
unfolding create_or_retry register_instance
create_instance none create phy_devices own names t = (t, error)
create_instance (some none) create phy_devices own names t = (t, panicked)
create_instance (some (some gipa)) create phy_devices own names t =
    elim (create_or_retry create own names) [
      | none ↦ (t, error)
      | some (instance', valid) ↦ register_instance phy_devices gipa instance' valid t
    ]

-- An instance whose devices cannot be listed has none.
unfoldable pub phys_or_none : Option (List ℕ) → List ℕ
phys_or_none none = []
phys_or_none (some phys) = phys

unfoldable pub destroy_instance : (ℕ → Option (List ℕ)) → ℕ → Tables → Tables × Result
unfolding remove_all phys_or_none
destroy_instance phy_devices instance' t = elim (t.layer.instance_map instance') [
  | none ↦ (t, error)
  | some i ↦ (
    record t {
      layer = record t.layer { instance_map = remove instance' t.layer.instance_map };
      phy_to_instance_map = remove_all (phys_or_none (phy_devices instance')) t.phy_to_instance_map;
    },
    success instance',
  )
]

-- What the driver tells of a queue's family.
pub record Family : Type 0 where
  pub graphics : Bool
  pub transfer : Bool

-- The queues of one entry, `count` of them from `index` on.
unfoldable pub family_queues : (ℕ → ℕ) → ℕ → ℕ → List ℕ
family_queues queue zero index = []
family_queues queue (suc count) index = queue index ∷ family_queues queue count (suc index)

unfoldable pub insert_queues : List ℕ → LayerQueue → DashMap LayerQueue → DashMap LayerQueue
insert_queues [] l m = m
insert_queues (q ∷ qs) l m = insert_queues qs l (insert q l m)

-- The queues of a device, in order; `none` is a family out of bounds.
unfoldable pub register_queues :
    (ℕ → ℕ → ℕ)
    → List Family
    → ℕ
    → List (ℕ × ℕ)
    → DashMap LayerQueue
    → Option (List ℕ × DashMap LayerQueue)
unfolding family_queues insert_queues
register_queues queue families device [] m = some ([], m)
register_queues queue families device ((family, count) ∷ infos) m =
    elim (get_elem? families family) [
      | none ↦ none
      | some f ↦
          let qs = family_queues (queue family) count 0 in
          let l : LayerQueue = record {
            device = device;
            family_index = family;
            graphics = f.graphics;
            transfer = f.transfer;
          } in
          elim (register_queues queue families device infos (insert_queues qs l m)) [
            | none ↦ none
            | some (rest, m') ↦ some (qs ++ rest, m')
          ]
    ]

-- The physical device's queue families, the driver's device, and its queues.
pub record DeviceDriver : Type 0 where
  pub create_device : List String → Option ℕ
  pub families : List Family
  pub device_queue : ℕ → ℕ → ℕ → ℕ

unfoldable pub register_device :
    DeviceDriver → List (ℕ × ℕ) → ℕ → ℕ → ℕ → ℕ → Bool → Tables → Tables × Result
unfolding register_queues
register_device d infos gdpa instance' phy device valid t =
    if device == 0
    then (t, panicked)
    else elim (register_queues (d.device_queue device) d.families device infos t.layer.queue_map) [
      | none ↦ (record t { gdpa_map = insert device gdpa t.gdpa_map }, panicked)
      | some (queues, queue_map) ↦ (
        record t {
          gdpa_map = insert device gdpa t.gdpa_map;
          layer = record t.layer {
            queue_map = queue_map;
            device_map =
                insert device
                  (record {
                    instance' = instance';
                    phy_device = phy;
                    queues = queues;
                    valid = valid;
                  })
                  t.layer.device_map;
          };
        },
        success device,
      )
    ]

unfoldable pub create_device :
    Option (Option ℕ)
    → DeviceDriver
    → ℕ
    → List (ℕ × ℕ)
    → List String
    → List String
    → Tables
    → Tables × Result
unfolding create_or_retry register_device
create_device chain d phy infos own names t = elim (t.phy_to_instance_map phy) [
  | none ↦ (t, panicked)
  | some instance' ↦ elim (t.layer.instance_map instance') [
    | none ↦ (t, panicked)
    | some i ↦ elim chain [
      | none ↦ (t, error)
      | some none ↦ (t, panicked)
      | some (some gdpa) ↦ elim (create_or_retry d.create_device own names) [
        | none ↦ (t, error)
        | some (device, valid) ↦ register_device d infos gdpa instance' phy device valid t
      ]
    ]
  ]
]

unfoldable pub destroy_device : ℕ → Tables → Tables × Result
unfolding remove_all
destroy_device device t = elim (t.layer.device_map device) [
  | none ↦ (record t { gdpa_map = remove device t.gdpa_map }, error)
  | some d ↦ (
    record t {
      gdpa_map = remove device t.gdpa_map;
      layer = record t.layer {
        device_map = remove device t.layer.device_map;
        queue_map = remove_all d.queues t.layer.queue_map;
      };
    },
    success device,
  )
]
