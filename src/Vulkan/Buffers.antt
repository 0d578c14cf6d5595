-- ===== src/Vulkan/Buffers.antt =====
-- The images that are exported as buffers: get_memory_type_indices and create_target_image of
-- vulkan/src/utils/vk_helper.rs, on_add_buffer and on_remove_buffer of vulkan/src/lib.rs.
pub mod Balance
use pw_capture.Common.{
  ℕ, ℤ, suc, zero, ◌+◌, ◌-◌, ◌/◌, ◌%◌, ◌^◌, Bool, true, false, ◌==◌, ◌&&◌, leb, if◌then◌else◌,
  Option, none, some, List, [], ◌∷◌, ◌++◌, map, DashMap, insert, remove, Reply, ok, err, panics,
  min, max,
}
use pw_capture.Client.Stream.Types.{
  BufferUserHandle, vk_image, texture, BufferPlaneInfo, BufferInfo,
}
use pw_capture.Vulkan.Layer.{
  SubresourceLayout, ExportImage, ExportData, LayerSwapchain, LayerDevice, Layer,
}

-- A memory type is suitable if the bit of its index is set; `types` tells which have the
-- properties, from `i` on.
unfoldable pub get_memory_type_indices : ℕ → ℕ → List Bool → List ℕ
get_memory_type_indices bits i [] = []
get_memory_type_indices bits i (has_properties ∷ types) =
    let rest = get_memory_type_indices bits (i + 1) types in
    if bits / 2 ^ i % 2 == 1 && has_properties then i ∷ rest else rest

-- The driver's answers for one image; `dup` is the descriptor that a later plane gets.
pub record ImageDriver : Type 0 where
  pub create_image : Option ℕ
  pub memory_type_bits : ℕ
  pub memory_types : List Bool
  pub allocate_memory : ℕ → Option ℕ
  pub bind_ok : Bool
  pub memory_fd : Option ℤ
  pub dup : ℕ → ℤ
  pub layout : ℕ → SubresourceLayout

unfoldable pub allocate_first : (ℕ → Option ℕ) → List ℕ → Option ℕ
allocate_first allocate [] = none
allocate_first allocate (i ∷ indices) = elim (allocate i) [
  | some memory ↦ some memory
  | none ↦ allocate_first allocate indices
]

-- The planes from `i` on, `n` of them.
unfoldable pub plane_fds : ImageDriver → ℤ → ℕ → ℕ → List (ℤ × SubresourceLayout)
plane_fds d fd i zero = []
plane_fds d fd i (suc n) =
    let rest = plane_fds d fd (i + 1) n in
    let own = if i == 0 then fd else d.dup i in (own, d.layout i) ∷ rest

-- `clamp(1, 4)`.
unfoldable pub clamp_planes : ℕ → ℕ
clamp_planes n = min 4 (max 1 n)

-- The image, its memory and its descriptors; or what a failure leaves, an image and a memory.
pub data Target : Type 0 where
  target : ℕ → ℕ → List (ℤ × SubresourceLayout) → Target
  target_failed : Option ℕ → Option ℕ → Target

unfoldable pub create_target_image : ImageDriver → ℕ → Target
unfolding get_memory_type_indices allocate_first plane_fds clamp_planes
create_target_image d num_planes = elim d.create_image [
  | none ↦ target_failed none none
  | some image ↦
      elim (allocate_first d.allocate_memory
        (get_memory_type_indices d.memory_type_bits 0 d.memory_types)) [
          | none ↦ target_failed (some image) none
          | some memory ↦
              if d.bind_ok
              then elim d.memory_fd [
                | none ↦ target_failed (some image) (some memory)
                | some fd ↦ target image memory (plane_fds d fd 0 (clamp_planes num_planes))
              ]
              else target_failed (some image) (some memory)
        ]
]

-- The fields are 32 bits wide.
unfoldable pub plane_info : ℤ × SubresourceLayout → BufferPlaneInfo
plane_info (fd, layout) = record {
  fd = fd;
  offset = layout.offset % 2 ^ 32;
  size = layout.size % 2 ^ 32;
  stride = layout.row_pitch % 2 ^ 32;
}

-- `plane_size > 0` of the first plane.
unfoldable pub first_has_size : List (ℤ × SubresourceLayout) → Bool
first_has_size [] = false
first_has_size ((fd, layout) ∷ fds) = leb 1 layout.size

unfoldable pub export_target :
    ImageDriver → ExportData → LayerSwapchain → LayerSwapchain × Reply BufferInfo
unfolding create_target_image plane_info first_has_size
export_target d e s = elim (create_target_image d e.num_planes) [
  | target_failed image memory ↦ (s, err)
  | target image memory fds ↦
      if first_has_size fds
      then (
        record s {
          export_images =
              insert image
                (record { format = e.format; memory = memory; fds = fds; src_image = (0, 0) })
                s.export_images;
        },
        ok (record {
          is_dma_buf = true;
          planes = map plane_info fds;
          user_handle = vk_image image;
        }),
      )
      else (s, panics)
]

-- A format without a modifier is not implemented.
unfoldable pub add_to_swapchain : ImageDriver → LayerSwapchain → LayerSwapchain × Reply BufferInfo
unfolding export_target
add_to_swapchain d s = elim s.export_data [
  | none ↦ (s, err)
  | some e ↦ elim e.modifier [ none ↦ (s, panics) | some m ↦ export_target d e s ]
]

abbrev pub put : ℕ → LayerSwapchain → Layer → Layer
put swapchain s layer = record layer { swapchain_map = insert swapchain s layer.swapchain_map }

-- An invalid device is a panic.
unfoldable pub on_add_buffer : ImageDriver → ℕ → ℕ → Layer → Layer × Reply BufferInfo
unfolding add_to_swapchain
on_add_buffer d device swapchain layer = elim (layer.device_map device) [
  | none ↦ (layer, err)
  | some dev ↦
      if dev.valid
      then elim (layer.instance_map dev.instance') [
        | none ↦ (layer, err)
        | some i ↦ elim (layer.swapchain_map swapchain) [
          | none ↦ (layer, err)
          | some s ↦ let (s', r) = add_to_swapchain d s in (put swapchain s' layer, r)
        ]
      ]
      else (layer, panics)
]

-- What is destroyed: the image, the descriptors that are closed, the memory.
pub record Released : Type 0 where
  pub image : ℕ
  pub fds : List ℤ
  pub memory : ℕ

abbrev pub fd_of : ℤ × SubresourceLayout → ℤ
fd_of f = f.0

unfoldable pub remove_image : ℕ → LayerSwapchain → LayerSwapchain × Reply Released
remove_image image s = elim (s.export_images image) [
  | none ↦ (s, err)
  | some e ↦ (
    record s { export_images = remove image s.export_images },
    ok (record { image = image; fds = map fd_of e.fds; memory = e.memory }),
  )
]

unfoldable pub on_remove_buffer : ℕ → ℕ → BufferUserHandle → Layer → Layer × Reply Released
unfolding remove_image
on_remove_buffer device swapchain (texture t) layer = (layer, panics)
on_remove_buffer device swapchain (vk_image image) layer = elim (layer.device_map device) [
  | none ↦ (layer, err)
  | some dev ↦ elim (layer.swapchain_map swapchain) [
    | none ↦ (layer, err)
    | some s ↦ let (s', r) = remove_image image s in (put swapchain s' layer, r)
  ]
]
