-- ===== src/Vulkan/Swapchains.antt =====
-- The creation and destruction of swapchains: create_swapchain_khr and destroy_swapchain_khr of
-- vulkan/src/lib.rs. What the driver and the client answer are arguments.
pub mod Created
use pw_capture.Common.{
  ℕ, Bool, true, false, ◌&&◌, if◌then◌else◌, Option, none, some, List, [], ◌∷◌, ◌++◌, DashMap,
  new_map, insert, remove,
}
use pw_capture.Vulkan.Layer.{
  LayerInstance, LayerDevice, ExportData, ImageData, LayerSwapchain, Layer,
}

-- The handle and the images of the new swapchain, the semaphore and the fence of each image, and
-- whether a stream is created.
pub record SwapchainDriver : Type 0 where
  pub create : Option ℕ
  pub format : ℕ
  pub images : List ℕ
  pub semaphore : ℕ → Option ℕ
  pub fence_ok : ℕ → Bool
  pub new_stream : Bool

unfoldable pub new_image : ℕ → ImageData
new_image semaphore = record {
  semaphores = semaphore ∷ [];
  busy = false;
  seq = 0;
  submitted = false;
  finished = 0;
}

unfoldable pub init_images :
    SwapchainDriver → List ℕ → DashMap ImageData → Option (DashMap ImageData)
unfolding new_image
init_images d [] m = some m
init_images d (i ∷ images) m = elim (d.semaphore i) [
  | none ↦ none
  | some s ↦
      let rest = init_images d images (insert i (new_image s) m) in
      if d.fence_ok i then rest else none
]

-- The images' data and whether there is a stream, with a valid instance and device.
unfoldable pub init_stream : SwapchainDriver → Bool → Option (DashMap ImageData × Bool)
unfolding init_images
init_stream d valid =
    let made = init_images d d.images new_map in
    if valid
    then elim made [ none ↦ none | some m ↦ some (m, d.new_stream) ]
    else some (new_map, false)

unfoldable pub new_swapchain : SwapchainDriver → DashMap ImageData → Bool → LayerSwapchain
new_swapchain d m has_stream = record {
  format = d.format;
  images = d.images;
  has_stream = has_stream;
  image_datas = m;
  export_images = new_map;
  cursor_serial = 0;
  export_data = none;
}

-- `none` is an error.
unfoldable pub create_swapchain_khr : SwapchainDriver → ℕ → Layer → Layer × Option ℕ
unfolding init_stream new_swapchain
create_swapchain_khr d device layer = elim (layer.device_map device) [
  | none ↦ (layer, none)
  | some dev ↦ elim (layer.instance_map dev.instance') [
    | none ↦ (layer, none)
    | some i ↦ elim d.create [
      | none ↦ (layer, none)
      | some swapchain ↦ elim (init_stream d (i.valid && dev.valid)) [
        | none ↦ (layer, none)
        | some (m, has_stream) ↦ (
          record layer {
            swapchain_map = insert swapchain (new_swapchain d m has_stream) layer.swapchain_map;
          },
          some swapchain,
        )
      ]
    ]
  ]
]

-- What is given back to the driver, in order.
pub data Freed : Type 0 where
  fence_of semaphore command_pool swapchain_of : ℕ → Freed
  command_buffers : ℕ → List ℕ → Freed

unfoldable pub free_semaphores : List ℕ → List Freed
free_semaphores [] = []
free_semaphores (s ∷ ss) = semaphore s ∷ free_semaphores ss

-- `keys` are the images as the map's iteration gives them.
unfoldable pub free_images : List ℕ → DashMap ImageData → List Freed
unfolding free_semaphores
free_images [] m = []
free_images (i ∷ keys) m = elim (m i) [
  | none ↦ free_images keys m
  | some d ↦ fence_of i ∷ free_semaphores d.semaphores ++ free_images keys m
]

unfoldable pub free_export : Option ExportData → List Freed
free_export none = []
free_export (some e) =
    command_buffers e.command_pool e.command_buffers ∷ command_pool e.command_pool ∷ []

unfoldable pub free_swapchain : List ℕ → Option LayerSwapchain → List Freed
unfolding free_images free_export
free_swapchain keys none = []
free_swapchain keys (some s) = free_images keys s.image_datas ++ free_export s.export_data

-- The stream is told to terminate first, then the entry goes, and with a missing device nothing
-- is given back.
unfoldable pub destroy_swapchain_khr : List ℕ → ℕ → ℕ → Layer → Layer × Option (List Freed)
unfolding free_swapchain
destroy_swapchain_khr keys device swapchain layer =
    let layer' = record layer { swapchain_map = remove swapchain layer.swapchain_map } in
    elim (layer.device_map device) [
      | none ↦ (layer', none)
      | some dev ↦ (
        layer',
        some (free_swapchain keys (layer.swapchain_map swapchain) ++ swapchain_of swapchain ∷ []),
      )
    ]
