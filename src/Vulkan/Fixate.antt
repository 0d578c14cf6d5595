-- ===== src/Vulkan/Fixate.antt =====
-- The choice of a format's modifier, queue and command buffers: on_fixate_format of
-- vulkan/src/lib.rs.
pub mod Queues
pub mod Usable
pub mod Floats
use pw_capture.Common.{
  ℕ, Bool, true, false, not, ◌&&◌, ◌==◌, leb, if◌then◌else◌, Option, none, some, List, [], ◌∷◌,
  length, keep, any, DashMap, insert,
}
use pw_capture.Client.Format.{Format}
use pw_capture.Client.Negotiation.{EnumFormatInfo, FixateFormat}
use pw_capture.Vulkan.Formats.{
  VkFormats, VkFormatInfo, vk_format_get_transfer, client_format_get_info,
}
use pw_capture.Vulkan.Offers.{
  PhysicalDevice, ModifierProps, transfer_dst, no_usage, get_supported_modifiers,
}
use pw_capture.Vulkan.Layer.{
  LayerInstance, LayerDevice, LayerQueue, ExportData, LayerSwapchain, Layer,
}

-- The loop over the device's queues; `chosen` is `command_queue` so far.
unfoldable pub choose_queue : DashMap LayerQueue → Bool → List ℕ → Option (ℕ × ℕ) → Option (ℕ × ℕ)
choose_queue queue_map need_graphics [] chosen = chosen
choose_queue queue_map need_graphics (q ∷ queues) chosen =
    let skip = choose_queue queue_map need_graphics queues chosen in
    elim (queue_map q) [
      | none ↦ skip
      | some lq ↦
          let this = some (q, lq.family_index) in
          let go_on = choose_queue queue_map need_graphics queues this in
          if need_graphics
          then if lq.graphics then this else skip
          else if lq.transfer
          then if lq.graphics then go_on else this
          else skip
    ]

-- What the driver does for the command buffers of a device: a pool for a queue family, and as
-- many buffers of a pool as asked for; `none` is an error.
pub record CommandDriver : Type 0 where
  pub create_command_pool : ℕ → Option ℕ
  pub allocate_command_buffers : ℕ → ℕ → Option (List ℕ)

-- `Ok`, `Err`, or a panic.
pub data Fixated : Type 0 where
  fixated : FixateFormat → Fixated
  failed panicked : Fixated

module _ (vk : VkFormats) (phy_devices : ℕ → PhysicalDevice) (driver : CommandDriver) where
  -- A new pool with its buffers.
  unfoldable pub new_commands : ℕ → ℕ → Option (ℕ × List ℕ)
  new_commands family count = elim (driver.create_command_pool family) [
    | none ↦ none
    | some pool ↦ elim (driver.allocate_command_buffers pool count) [
      | none ↦ none
      | some buffers ↦ some (pool, buffers)
    ]
  ]

  -- The pool and the buffers of the last format are used again where they fit.
  unfoldable pub commands : Option ExportData → ℕ → ℕ → ℕ → Option (ℕ × List ℕ)
  unfolding new_commands
  commands none queue family count = new_commands family count
  commands (some data') queue family count =
      if (data'.queue == queue) && leb count (length data'.command_buffers)
      then some (data'.command_pool, data'.command_buffers)
      else new_commands family count

  unfoldable pub shared_modifiers : ℕ → VkFormatInfo → List ℕ → List ModifierProps
  unfolding get_supported_modifiers
  shared_modifiers phy_device format_info modifiers =
      keep (λ p. any (λ m. m == p.drm_format_modifier) modifiers)
        (get_supported_modifiers vk (phy_devices phy_device) format_info.vk_format no_usage
          transfer_dst)

  abbrev pub export_of : ℕ → ModifierProps → ℕ → ℕ → ℕ → List ℕ → ExportData
  export_of vk_format props queue family pool buffers = record {
    format = vk_format;
    queue = queue;
    queue_family_index = family;
    command_pool = pool;
    command_buffers = buffers;
    modifier = some props.drm_format_modifier;
    num_planes = props.plane_count;
  }

  abbrev pub put : ℕ → LayerSwapchain → Layer → Layer
  put swapchain s layer = record layer { swapchain_map = insert swapchain s layer.swapchain_map }

  -- From the chosen queue on. `export_data.take()` leaves `None` where an error follows.
  unfoldable pub fixate_commands :
      ℕ → LayerSwapchain → ℕ → ModifierProps → Option (ℕ × ℕ) → Layer → Layer × Fixated
  unfolding commands
  fixate_commands swapchain s vk_format props none layer = (layer, failed)
  fixate_commands swapchain s vk_format props (some (queue, family)) layer =
      elim (commands s.export_data queue family (length s.images)) [
        | none ↦ (put swapchain (record s { export_data = none }) layer, failed)
        | some (pool, buffers) ↦ (
          put swapchain
              (record s {
                export_data = some (export_of vk_format props queue family pool buffers);
              })
              layer,
          fixated (record {
            modifier = some props.drm_format_modifier;
            num_planes = props.plane_count;
          }),
        )
      ]

  -- From the swapchain's format on; an empty list of modifiers is a `todo!`.
  unfoldable pub fixate_format :
      LayerDevice → ℕ → LayerSwapchain → Format → List ℕ → Layer → Layer × Fixated
  unfolding shared_modifiers fixate_commands choose_queue
  fixate_format device swapchain s format modifiers layer =
      let format_info = client_format_get_info vk format (vk_format_get_transfer vk s.format) in
      if format_info.vk_format == vk.undefined then (layer, failed) else elim modifiers [
        | [] ↦ (layer, panicked)
        | m ∷ ms ↦ elim (shared_modifiers device.phy_device format_info (m ∷ ms)) [
          | [] ↦ (layer, failed)
          | props ∷ others ↦
              fixate_commands swapchain s format_info.vk_format props
                (choose_queue layer.queue_map (not (format_info.vk_format == s.format))
                  device.queues none)
                layer
        ]
      ]

  unfoldable pub on_fixate_format : ℕ → ℕ → EnumFormatInfo → Layer → Layer × Fixated
  unfolding fixate_format
  on_fixate_format device swapchain info layer = elim (layer.device_map device) [
    | none ↦ (layer, failed)
    | some d ↦ elim (layer.instance_map d.instance') [
      | none ↦ (layer, failed)
      | some i ↦
          if i.valid
          then elim (layer.swapchain_map swapchain) [
            | none ↦ (layer, failed)
            | some s ↦ elim info.formats [
              | [] ↦ (layer, panicked)
              | f ∷ fs ↦ fixate_format d swapchain s f info.modifiers layer
            ]
          ]
          else (layer, panicked)
    ]
  ]
