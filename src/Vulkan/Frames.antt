-- ===== src/Vulkan/Frames.antt =====
-- The frames of a swapchain: FenceState of vulkan/src/utils/vk_helper.rs, and capture_swapchain,
-- on_process_buffer and ly_swapchain_wait_image of vulkan/src/lib.rs.
pub mod Fences
pub mod Copies
pub mod Synced
pub mod Cursors
mod Tests
use pw_capture.Common.{
  ℕ, ◌+◌, ◌%◌, ◌^◌, Bool, true, false, not, ◌==◌, if◌then◌else◌, Option, none, some, List,
  get_elem?, DashMap, insert,
}
use pw_capture.Client.Stream.Types.{BufferUserHandle, vk_image, texture, BufferCursorInfo}
use pw_capture.Cursor.Info.{CursorSnapshot, as_cursor_info}
use pw_capture.Vulkan.Layer.{ImageData, ExportImage, ExportData, LayerSwapchain, Layer}

-- A call that uses the fence of an image: it returns, fails, panics, or waits for ever.
pub data Wait : Type 0 where
  returned : ImageData → Wait
  lost hangs : Wait

-- A fence that no submission carries is never signalled. `ok` is whether the driver's waiting and
-- resetting end without an error, as after the loss of the device.
unfoldable pub wait_and_reset : Bool → ImageData → Wait
wait_and_reset ok d =
    if not d.busy
    then returned d
    else if not ok
    then lost
    else if not d.submitted
    then hangs
    else returned (record d { busy = false; submitted = false; finished = d.seq })

-- `none` is the failing assertion.
unfoldable pub use_fence : ImageData → Option ImageData
use_fence d = if d.busy then none else some (record d { busy = true })

-- `queue_submit` with the fence, and `data.seq += 1`, which wraps at the width of `usize`; the
-- flag is whether `queue_submit` succeeds.
unfoldable pub submit : Bool → ImageData → Option ImageData
unfolding use_fence
submit ok d = elim (use_fence d) [
  | none ↦ none
  | some d' ↦ some (if ok then record d' { submitted = true; seq = (d.seq + 1) % 2 ^ 64 } else d')
]

pub data Outcome : Type 0 where
  nothing failed panicked hung : Outcome
  captured : ℕ → List ℕ → Outcome
  buffer_lost : ℕ → Outcome

-- What the driver does in one capture: waiting, recording the copy and submitting it.
pub record Driver : Type 0 where
  pub wait_ok : Bool
  pub record_ok : Bool
  pub submit_ok : Bool

abbrev pub put_image : ℕ → ImageData → LayerSwapchain → LayerSwapchain
put_image image d s = record s { image_datas = insert image d s.image_datas }

-- The submission, and what it leaves in both images.
unfoldable pub submit_copy :
    Driver → ℕ → ℕ → ℕ → ExportImage → ImageData → LayerSwapchain → LayerSwapchain × Outcome
unfolding submit
submit_copy driver buffer src image exported d s = elim (submit driver.submit_ok d) [
  | none ↦ (put_image src d s, panicked)
  | some d' ↦
      if driver.submit_ok
      then (
        record (put_image src d' s) {
          export_images =
              insert image (record exported { src_image = (src, d'.seq) }) s.export_images;
        },
        captured buffer d'.semaphores,
      )
      else (put_image src d' s, buffer_lost buffer)
]

-- From the wait for the source image's last copy on.
unfoldable pub copy_image :
    Driver
    → ℕ
    → Option ℕ
    → ℕ
    → ℕ
    → ExportImage
    → ImageData
    → LayerSwapchain
    → LayerSwapchain × Outcome
unfolding wait_and_reset submit_copy
copy_image driver buffer command_buffer src image exported d s =
    elim (wait_and_reset driver.wait_ok d) [
      | hangs ↦ (s, hung)
      | lost ↦ (s, buffer_lost buffer)
      | returned d' ↦ elim command_buffer [
        | none ↦ (put_image src d' s, panicked)
        | some c ↦
            let go = submit_copy driver buffer src image exported d' s in
            if driver.record_ok then go else (put_image src d' s, buffer_lost buffer)
      ]
    ]

-- From the buffer of the stream on.
unfoldable pub capture_buffer : Driver → ℕ → ℕ → ℕ → LayerSwapchain → LayerSwapchain × Outcome
unfolding copy_image
capture_buffer driver buffer image index s = elim s.export_data [
  | none ↦ (s, buffer_lost buffer)
  | some export_data ↦ elim (get_elem? s.images index) [
    | none ↦ (s, panicked)
    | some src ↦ elim (s.export_images image) [
      | none ↦ (s, buffer_lost buffer)
      | some exported ↦ elim (s.image_datas src) [
        | none ↦ (s, buffer_lost buffer)
        | some d ↦
            copy_image driver buffer (get_elem? export_data.command_buffers index) src image
              exported d s
      ]
    ]
  ]
]

-- The stream's answer to `queue_buffer_process`: sending to a channel that stays full waits.
pub data Queued : Type 0 where
  queued queue_failed queue_waits : Queued

-- The end of a capture: its buffer is queued, and the semaphores are returned if that succeeds.
unfoldable pub give_back : Queued → LayerSwapchain × Outcome → LayerSwapchain × Outcome
give_back queued (s, captured buffer semaphores) = (s, captured buffer semaphores)
give_back queue_failed (s, captured buffer semaphores) = (s, buffer_lost buffer)
give_back queue_waits (s, captured buffer semaphores) = (s, hung)
give_back answer (s, nothing) = (s, nothing)
give_back answer (s, failed) = (s, failed)
give_back answer (s, panicked) = (s, panicked)
give_back answer (s, hung) = (s, hung)
give_back answer (s, buffer_lost buffer) = (s, buffer_lost buffer)

-- `dequeued` is the stream's answer to `dequeue_buffer`, `none` where asking fails.
unfoldable pub capture_swapchain :
    Driver
    → Option (Option (ℕ × BufferUserHandle))
    → Queued
    → ℕ
    → LayerSwapchain
    → LayerSwapchain × Outcome
unfolding capture_buffer give_back
capture_swapchain driver none answer index s = if s.has_stream then (s, failed) else (s, nothing)
capture_swapchain driver (some none) answer index s = (s, nothing)
capture_swapchain driver (some (some (buffer, vk_image image))) answer index s =
    let go = give_back answer (capture_buffer driver buffer image index s) in
    if s.has_stream then go else (s, nothing)
capture_swapchain driver (some (some (buffer, texture image))) answer index s =
    if s.has_stream then (s, panicked) else (s, nothing)

-- The cursor that is added to a buffer, if the snapshot at the old serial has one over the window;
-- its bitmap is new where the serial is.
unfoldable pub take_cursor :
    (ℕ → Option CursorSnapshot) → LayerSwapchain → LayerSwapchain × Option BufferCursorInfo
unfolding as_cursor_info
take_cursor snapshot s = elim (snapshot s.cursor_serial) [
  | none ↦ (s, none)
  | some snap ↦ (
    record s { cursor_serial = snap.serial },
    as_cursor_info (not (s.cursor_serial == snap.serial)) snap,
  )
]

pub data Processed : Type 0 where
  processed already_removed processing_failed processing_hangs processing_panics : Processed

-- The wait for the copy into an exported image; a later copy of the same source has waited.
unfoldable pub wait_for_copy : Bool → ℕ × ℕ → LayerSwapchain → LayerSwapchain × Processed
unfolding wait_and_reset
wait_for_copy ok (src, seq) s = elim (s.image_datas src) [
  | none ↦ (s, processing_failed)
  | some d ↦
      if seq == d.seq
      then elim (wait_and_reset ok d) [
        | hangs ↦ (s, processing_hangs)
        | lost ↦ (s, processing_failed)
        | returned d' ↦ (put_image src d' s, processed)
      ]
      else (s, processed)
]

-- The third result is the cursor that is added, if any.
unfoldable pub on_process_buffer :
    Bool
    → Bool
    → (ℕ → Option CursorSnapshot)
    → ℕ
    → LayerSwapchain
    → LayerSwapchain × Processed × Option BufferCursorInfo
unfolding take_cursor wait_for_copy
on_process_buffer ok add_cursor snapshot image s = elim (s.export_images image) [
  | none ↦ (s, already_removed, none)
  | some exported ↦
      let (s', cursor) = if add_cursor then take_cursor snapshot s else (s, none) in
      let (s2, result) = wait_for_copy ok exported.src_image s' in (s2, result, cursor)
]

-- The wait after an image was acquired; an index that the swapchain does not have is out of bounds.
unfoldable pub ly_swapchain_wait_image : Bool → ℕ → LayerSwapchain → LayerSwapchain × Processed
unfolding wait_and_reset
ly_swapchain_wait_image ok index s = elim (get_elem? s.images index) [
  | none ↦ (s, processing_panics)
  | some image ↦ elim (s.image_datas image) [
    | none ↦ (s, processing_failed)
    | some d ↦ elim (wait_and_reset ok d) [
      | hangs ↦ (s, processing_hangs)
      | lost ↦ (s, processing_failed)
      | returned d' ↦ (put_image image d' s, processed)
    ]
  ]
]
