-- ===== src/Vulkan/Frames/Tests.antt =====
-- A format that is fixed and frames that are captured, on concrete inputs.
use pw_capture.Common.{
  ℕ, zero, suc, length, subst, ◌≤◌, ◌≡◌, refl, true, false, none, some, List, [], ◌∷◌, arith,
  new_map, insert,
}
use pw_capture.Client.Format.{bgra, rgba_f16, format_into}
use pw_capture.Client.Negotiation.{EnumFormatInfo, FixateFormat}
use pw_capture.Vulkan.Tests.{vk, names, phy}
use pw_capture.Vulkan.Formats.{
  r16g16b16a16, vk_format_get_transfer, client_format_get_info, client_info_in,
  vk_format_info_table,
}
use pw_capture.Vulkan.Offers.{get_supported_modifiers}
use pw_capture.Vulkan.Layer.{LayerDevice, LayerQueue, ExportData, ImageData, LayerSwapchain, Layer}
use pw_capture.Vulkan.Fixate.{
  CommandDriver, fixated, failed, choose_queue, on_fixate_format, export_of, put, shared_modifiers,
  fixate_format, fixate_commands, commands, new_commands,
}
use pw_capture.Vulkan.Fixate.Usable.{Usable, on_fixate_format-Usable}
use pw_capture.Vulkan.Fixate.Floats.{on_fixate_format-floats}
use pw_capture.Vulkan.Frames.{
  processed, wait_for_copy, submit, use_fence, wait_and_reset, lost, hangs, Driver, capture_buffer,
}
use pw_capture.Vulkan.Frames.Fences.{IsSynced, wait_and_reset-submit_failed}
use pw_capture.Vulkan.Frames.Copies.{AllSynced, wait_for_copy-over}
use pw_capture.Vulkan.Frames.Synced.{EachSynced, capture_buffer-EachSynced}

abbrev graphics : LayerQueue
graphics = record { device = 5; family_index = 0; graphics = true; transfer = true }

abbrev copies : LayerQueue
copies = record { device = 5; family_index = 1; graphics = false; transfer = true }

abbrev image_one : ImageData
image_one = record { semaphores = 60 ∷ []; busy = true; seq = 3; submitted = true; finished = 2 }

abbrev swapchain_one : LayerSwapchain
swapchain_one = record {
  format = 32;
  images = 50 ∷ 51 ∷ [];
  has_stream = true;
  image_datas = insert 50 image_one new_map;
  export_images =
      insert 70 (record { format = 32; memory = 71; fds = []; src_image = (50, 3) }) new_map;
  cursor_serial = 0;
  export_data = none;
}

abbrev device_one : LayerDevice
device_one = record { instance' = 1; phy_device = 2; queues = 10 ∷ 11 ∷ []; valid = true }

abbrev layer : Layer
layer = record {
  instance_map = insert 1 (record { valid = true }) new_map;
  device_map = insert 5 device_one new_map;
  queue_map = insert 10 graphics (insert 11 copies new_map);
  swapchain_map =
      insert 20 swapchain_one (insert 21 (record swapchain_one { format = 150 }) new_map);
}

abbrev many : ℕ → List ℕ
many zero = []
many (suc n) = n ∷ many n

length-many : (n : ℕ) → length (many n) ≡ n
length-many zero = refl
length-many (suc n) = omega (arith, length-many n)

abbrev driver : CommandDriver
driver = record {
  create_command_pool = λ f. some 80;
  allocate_command_buffers = λ p n. some (many n);
}

counted :
    (pool n : ℕ) (bs : List ℕ) → driver.allocate_command_buffers pool n ≡ some bs → length bs ≡ n
counted pool n bs e =
    let same : many n ≡ bs = ground (arith, e) in subst (λ xs. length xs ≡ n) same (length-many n)

abbrev offer : EnumFormatInfo
offer = record { formats = bgra ∷ []; modifiers = 0 ∷ [] }

abbrev exported : ExportData
exported =
    export_of vk (λ d. phy) driver 32
      (record { drm_format_modifier = 0; plane_count = 1; tiling_features = λ f. true }) 11 1 80
      (1 ∷ 0 ∷ [])

abbrev ready : LayerSwapchain
ready = record swapchain_one { export_data = some exported }

abbrev layer_after : Layer
layer_after = put vk (λ d. phy) driver 20 ready layer

abbrev out : FixateFormat
out = record { modifier = some 0; num_planes = 1 }

fixate_now : on_fixate_format vk (λ d. phy) driver 5 20 offer layer ≡ (layer_after, fixated out)
unfolding on_fixate_format fixate_format fixate_commands commands new_commands shared_modifiers
    get_supported_modifiers choose_queue vk_format_get_transfer client_format_get_info
    client_info_in vk_format_info_table format_into
fixate_now = refl

on_fixate_format-Usable_example : Usable vk (λ d. phy) driver counted 20 (0 ∷ []) out layer_after
on_fixate_format-Usable_example =
    on_fixate_format-Usable vk (λ d. phy) driver counted 5 20 offer layer layer_after out fixate_now

on_fixate_format-floats_example :
    on_fixate_format vk
      (λ d. phy)
      driver
      5
      21
      (record { formats = rgba_f16 ∷ []; modifiers = 0 ∷ [] })
      layer
    ≡ (layer, failed)
on_fixate_format-floats_example =
    on_fixate_format-floats vk names (λ d. phy) driver 5 21 r16g16b16a16 rgba_f16 [] (0 ∷ []) layer
      device_one (record { valid = true }) (record swapchain_one { format = 150 }) refl refl refl
      refl refl

image_one-IsSynced : IsSynced image_one
unfolding IsSynced
image_one-IsSynced = (refl, refl)

ready-AllSynced : AllSynced ready
unfolding AllSynced IsSynced
ready-AllSynced i d k = ground (arith, k)

wait_for_copy-over_example :
    (s' : LayerSwapchain) × (d' : ImageData) × (wait_for_copy true (50, 3) ready ≡ (s', processed))
    × (s'.image_datas 50 ≡ some d')
    × (3 ≤ d'.finished)
wait_for_copy-over_example =
    wait_for_copy-over ready 50 3 image_one ready-AllSynced refl (omega arith)

abbrev calls : Driver
calls = record { wait_ok = true; record_ok = true; submit_ok = true }

capture_buffer-EachSynced_example : EachSynced (capture_buffer calls 90 70 0 ready).0
capture_buffer-EachSynced_example =
    capture_buffer-EachSynced calls refl 90 70 0 ready ready-AllSynced

abbrev idle : ImageData
idle = record { semaphores = 60 ∷ []; busy = false; seq = 3; submitted = false; finished = 3 }

idle-IsSynced : IsSynced idle
unfolding IsSynced
idle-IsSynced = (refl, refl)

wait_and_reset-submit_failed_example :
    (wait_and_reset true (record idle { busy = true }) ≡ hangs)
    × (wait_and_reset false (record idle { busy = true }) ≡ lost)
wait_and_reset-submit_failed_example =
    wait_and_reset-submit_failed idle (record idle { busy = true }) idle-IsSynced
      (unfold submit use_fence in refl)
