-- ===== src/Vulkan/Layer.antt =====
-- The tables of the Vulkan layer: the structs and the maps of vulkan/src/lib.rs, as far as the
-- callbacks of a stream read and write them. Handles are numbers.
use pw_capture.Common.{ℕ, ℤ, Bool, Option, List, DashMap}

pub record LayerInstance : Type 0 where
  pub valid : Bool

pub record LayerDevice : Type 0 where
  pub instance' : ℕ
  pub phy_device : ℕ
  pub queues : List ℕ
  pub valid : Bool

-- The flags are those of the queue's family.
pub record LayerQueue : Type 0 where
  pub device : ℕ
  pub family_index : ℕ
  pub graphics : Bool
  pub transfer : Bool

pub record ExportData : Type 0 where
  pub format : ℕ
  pub queue : ℕ
  pub queue_family_index : ℕ
  pub command_pool : ℕ
  pub command_buffers : List ℕ
  pub modifier : Option ℕ
  pub num_planes : ℕ

-- An image of a swapchain: `busy` is its fence's; `submitted` and `finished` are the driver's side,
-- whether a submission carries the fence, and how many of the image's copies are known to be over.
pub record ImageData : Type 0 where
  pub semaphores : List ℕ
  pub busy : Bool
  pub seq : ℕ
  pub submitted : Bool
  pub finished : ℕ

pub record SubresourceLayout : Type 0 where
  pub offset : ℕ
  pub size : ℕ
  pub row_pitch : ℕ

-- `src_image` is the image that was copied last, with its sequence number.
pub record ExportImage : Type 0 where
  pub format : ℕ
  pub memory : ℕ
  pub fds : List (ℤ × SubresourceLayout)
  pub src_image : ℕ × ℕ

pub record LayerSwapchain : Type 0 where
  pub format : ℕ
  pub images : List ℕ
  pub has_stream : Bool
  pub image_datas : DashMap ImageData
  pub export_images : DashMap ExportImage
  pub cursor_serial : ℕ
  pub export_data : Option ExportData

pub record Layer : Type 0 where
  pub instance_map : DashMap LayerInstance
  pub device_map : DashMap LayerDevice
  pub queue_map : DashMap LayerQueue
  pub swapchain_map : DashMap LayerSwapchain
