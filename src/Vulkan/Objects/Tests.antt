-- ===== src/Vulkan/Objects/Tests.antt =====
-- Instances, devices, swapchains, buffers, presents and copies on concrete inputs.
use pw_capture.Common.{
  ltb, ◌&&◌, ℕ, ◌+◌, ◌≡◌, ◌≢◌, refl, Bool, true, false, ◌==◌, if◌then◌else◌, Option, none, some,
  List, [], ◌∷◌, map, pos, String, new_map, insert, arith, ok,
}
use pw_capture.Client.Stream.Types.{vk_image, BufferInfo}
use pw_capture.Vulkan.Layer.{
  LayerDevice, LayerQueue, SubresourceLayout, ExportData, ImageData, LayerSwapchain, Layer,
}
use pw_capture.Vulkan.Objects.{
  Tables, DeviceDriver, success, with_extensions, create_device, destroy_device, create_instance,
}
use pw_capture.Vulkan.Objects.Queues.Owners.{QueuesOwned}
use pw_capture.Vulkan.Objects.Queues.{destroy_device-QueuesOwned}
use pw_capture.Vulkan.Objects.Retry.{create_instance-succeeds}
use pw_capture.Vulkan.Buffers.{
  ImageDriver, on_add_buffer, on_remove_buffer, first_has_size, create_target_image,
}
use pw_capture.Vulkan.Buffers.Balance.{exports_at, plane_fd, on_remove_buffer-on_add_buffer}
use pw_capture.Vulkan.Frames.Fences.{IsSynced}
use pw_capture.Vulkan.Frames.Copies.{AllSynced}
use pw_capture.Vulkan.Swapchains.{SwapchainDriver, create_swapchain_khr}
use pw_capture.Vulkan.Swapchains.Created.{Starts, create_swapchain_khr-Starts}
use pw_capture.Vulkan.Frames.{queued}
use pw_capture.Vulkan.Present.{Frame, queue_present_khr, present_stops}
use pw_capture.Vulkan.Frames.{queued}
use pw_capture.Vulkan.Present.Waits.{queue_present_khr-goes_on}
use pw_capture.Vulkan.Commands.{
  memory_read, no_access, Command, general, present_src, record_copy_image,
}
use pw_capture.Vulkan.Commands.Exec.{Images, run_commands}
use pw_capture.Vulkan.Commands.Copied.{record_copy_image-copies}

abbrev device_five : LayerDevice
device_five = record { instance' = 1; phy_device = 2; queues = 10 ∷ []; valid = true }

abbrev queue_ten : LayerQueue
queue_ten = record { device = 5; family_index = 0; graphics = true; transfer = true }

abbrev idle : ImageData
idle = record { semaphores = 60 ∷ []; busy = false; seq = 0; submitted = false; finished = 0 }

abbrev export_one : ExportData
export_one = record {
  format = 44;
  queue = 10;
  queue_family_index = 0;
  command_pool = 80;
  command_buffers = 0 ∷ [];
  modifier = some 0;
  num_planes = 1;
}

abbrev swapchain_one : LayerSwapchain
swapchain_one = record {
  format = 44;
  images = 50 ∷ [];
  has_stream = true;
  image_datas = insert 50 idle new_map;
  export_images = new_map;
  cursor_serial = 0;
  export_data = some export_one;
}

abbrev layer : Layer
layer = record {
  instance_map = insert 1 (record { valid = true }) new_map;
  device_map = insert 5 device_five new_map;
  queue_map = insert 10 queue_ten new_map;
  swapchain_map = insert 20 swapchain_one new_map;
}

abbrev tables : Tables
tables = record {
  layer = layer;
  gipa = none;
  phy_to_instance_map = insert 2 1 new_map;
  gdpa_map = new_map;
}

tables-QueuesOwned : QueuesOwned tables.layer
unfolding QueuesOwned
tables-QueuesOwned q l e =
    let same : (l ≡ queue_ten) × (q ≡ 10) = (ground arith, ground arith) in
    record { owner = device_five; there = rw same.0 refl; listed = rw same.1 refl }

destroy_device-QueuesOwned_example :
    QueuesOwned (destroy_device 5 tables).0.layer
    × ((i : ℕ)
        → (destroy_device 5 tables).0.layer.device_map i
          ≡ (if i == 5 then none else layer.device_map i))
    × ((q : ℕ) (l : LayerQueue)
        → (destroy_device 5 tables).0.layer.queue_map q ≡ some l
        → l.device ≢ 5)
destroy_device-QueuesOwned_example = destroy_device-QueuesOwned 5 tables tables-QueuesOwned

abbrev only_plain : List String → Option ℕ
only_plain [] = some 6
only_plain (x ∷ xs) = none

abbrev devices : DeviceDriver
devices = record {
  create_device = only_plain;
  families = record { graphics = true; transfer = true } ∷ [];
  device_queue = λ d f i. d + 100;
}

plain_not_null : (xs : List String) (j : ℕ) → only_plain xs ≡ some j → j ≢ 0
plain_not_null [] j e q = ground (arith, e, q)
plain_not_null (x ∷ xs) j e q = ground (arith, e)

create_instance-succeeds_example :
    (j : ℕ) × (valid : Bool) × ((create_instance
        (some (some 4))
        only_plain
        (λ i. some (2 ∷ []))
        ("VK_KHR_surface" ∷ [])
        []
        tables).1
      ≡ success j)
    × ((create_instance
            (some (some 4))
            only_plain
            (λ i. some (2 ∷ []))
            ("VK_KHR_surface" ∷ [])
            []
            tables).0.layer.instance_map
          j
        ≡ some (record { valid = valid }))
    × (only_plain (if valid then with_extensions ("VK_KHR_surface" ∷ []) [] else []) ≡ some j)
create_instance-succeeds_example =
    create_instance-succeeds 4 6 only_plain (λ i. some (2 ∷ [])) ("VK_KHR_surface" ∷ []) [] tables
      refl plain_not_null (λ j. (2 ∷ [], refl))

abbrev plane : SubresourceLayout
plane = record { offset = 0; size = 4096; row_pitch = 64 }

abbrev image_driver : ImageDriver
image_driver = record {
  create_image = some 70;
  memory_type_bits = 2;
  memory_types = true ∷ true ∷ [];
  allocate_memory = λ i. some 71;
  bind_ok = true;
  memory_fd = some (pos 12);
  dup = λ i. pos 13;
  layout = λ i. plane;
}

on_remove_buffer-on_add_buffer_example :
    (layer' : Layer) × (info : BufferInfo) × (on_add_buffer image_driver 5 20 layer
      ≡ (layer', ok info))
    × (info.user_handle ≡ vk_image 70)
    × (exports_at 20 layer' 70
        ≡ some
            (record { format = 44; memory = 71; fds = (pos 12, plane) ∷ []; src_image = (0, 0) }))
    × ((on_remove_buffer 5 20 (vk_image 70) layer').1
        ≡ ok (record { image = 70; fds = map plane_fd info.planes; memory = 71 }))
    × ((j : ℕ) → exports_at 20 (on_remove_buffer 5 20 (vk_image 70) layer').0 j ≡ none)
on_remove_buffer-on_add_buffer_example =
    on_remove_buffer-on_add_buffer image_driver 5 20 layer device_five (record { valid = true })
      swapchain_one export_one 0 70 71 ((pos 12, plane) ∷ []) refl refl refl refl refl refl
      (unfold create_target_image in refl) (unfold first_has_size in refl) refl

abbrev new_one : SwapchainDriver
new_one = record {
  create = some 21;
  format = 44;
  images = 51 ∷ 52 ∷ [];
  semaphore = λ i. some (i + 100);
  fence_ok = λ i. true;
  new_stream = true;
}

create_swapchain_khr-Starts_example : Starts new_one layer (create_swapchain_khr new_one 5 layer)
create_swapchain_khr-Starts_example = create_swapchain_khr-Starts new_one 5 layer

swapchain_one-AllSynced : AllSynced swapchain_one
unfolding AllSynced IsSynced
swapchain_one-AllSynced i d k = ground (arith, k)

abbrev frames : ℕ → Frame
frames s = record {
  driver = record { wait_ok = true; record_ok = true; submit_ok = true };
  dequeued = some (some (90, vk_image 70));
  queued = queued;
}

queue_present_khr-goes_on_example :
    (queue_present_khr frames 10 ((20, 0) ∷ []) (61 ∷ []) layer).1 ≢ present_stops
queue_present_khr-goes_on_example =
    queue_present_khr-goes_on frames 10 ((20, 0) ∷ []) (61 ∷ []) layer (refl, tt)
      (
        record {
          s = swapchain_one;
          there = refl;
          synced = swapchain_one-AllSynced;
          export_data = export_one;
          fixed = refl;
          enough = omega arith;
          below = omega arith;
          images = tt;
          sends = λ q. ground (arith, q);
        },
        tt,
      )

abbrev images : Images
images i =
    if i == 50
    then record { layout = present_src; owner = 1; access = memory_read; content = λ x y. 7 }
    else record { layout = general; owner = 1; access = no_access; content = λ x y. 8 }

record_copy_image-copies_example :
    (cs : List Command) × (m' : Images) × (record_copy_image true true 50 70 1 1 8 6 true ≡ some cs)
    × (run_commands 1 cs images ≡ some m')
    × (m' 50 ≡ images 50)
    × (m' 70 ≡ record {
      layout = general;
      owner = 1;
      access = no_access;
      content = λ x y. if ltb x 8 && ltb y 6 then 7 else 8;
    })
record_copy_image-copies_example =
    record_copy_image-copies 50 70 refl 1 8 6 1 (λ x y. 7) (λ x y. 8) true images refl refl
