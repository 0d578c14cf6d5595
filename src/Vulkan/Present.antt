-- ===== src/Vulkan/Present.antt =====
-- The presentation and the acquisition of images: capture, queue_present_khr and
-- acquire_next_image_khr of vulkan/src/lib.rs, over the capture of one swapchain in Frames.
pub mod Waits
use pw_capture.Common.{
  ℕ, Bool, true, false, if◌then◌else◌, Option, none, some, List, [], ◌∷◌, ◌++◌, DashMap, insert,
}
use pw_capture.Client.Stream.Types.{BufferUserHandle}
use pw_capture.Vulkan.Layer.{LayerDevice, LayerQueue, LayerSwapchain, Layer}
use pw_capture.Vulkan.Frames.{
  Driver, Queued, Outcome, nothing, failed, panicked, hung, captured, buffer_lost,
  capture_swapchain, Processed, processed, already_removed, processing_failed, processing_hangs,
  processing_panics, ly_swapchain_wait_image,
}

-- The answers of the driver and of the stream for a swapchain.
pub record Frame : Type 0 where
  pub driver : Driver
  pub dequeued : Option (Option (ℕ × BufferUserHandle))
  pub queued : Queued

-- The capture of one swapchain of the table; a missing one is an error.
unfoldable pub capture_at : Frame → ℕ → ℕ → Layer → Layer × Outcome
unfolding capture_swapchain
capture_at f swapchain index layer = elim (layer.swapchain_map swapchain) [
  | none ↦ (layer, failed)
  | some s ↦
      let (s', out) = capture_swapchain f.driver f.dequeued f.queued index s in
      (record layer { swapchain_map = insert swapchain s' layer.swapchain_map }, out)
]

-- The semaphores that the present waits on instead; errors and swapchains that are not captured
-- add none. `none` is a panic or a wait without end.
unfoldable pub signalled : Outcome → Option (List ℕ)
signalled nothing = some []
signalled failed = some []
signalled panicked = none
signalled hung = none
signalled (captured buffer semaphores) = some semaphores
signalled (buffer_lost buffer) = some []

unfoldable pub add_signalled : Option (List ℕ) → Layer × Option (List ℕ) → Layer × Option (List ℕ)
add_signalled none (layer, rest) = (layer, none)
add_signalled (some xs) (layer, none) = (layer, none)
add_signalled (some xs) (layer, some ys) = (layer, some (xs ++ ys))

-- The swapchains of a present with the index of each one's image.
unfoldable pub capture : (ℕ → Frame) → List (ℕ × ℕ) → Layer → Layer × Option (List ℕ)
unfolding capture_at signalled add_signalled
capture frames [] layer = (layer, some [])
capture frames ((swapchain, index) ∷ rest) layer =
    let (layer', out) = capture_at (frames swapchain) swapchain index layer in
    add_signalled (signalled out) (capture frames rest layer')

pub data Presented : Type 0 where
  -- The driver's answer for the semaphores it was given.
  presented : List ℕ → Presented
  not_presented present_stops : Presented

unfoldable pub waits_of : List ℕ → List ℕ → List ℕ
waits_of [] semaphores = semaphores
waits_of (x ∷ xs) semaphores = x ∷ xs

unfoldable pub queue_present_khr :
    (ℕ → Frame) → ℕ → List (ℕ × ℕ) → List ℕ → Layer → Layer × Presented
unfolding capture waits_of
queue_present_khr frames queue swapchains semaphores layer = elim (layer.queue_map queue) [
  | none ↦ (layer, not_presented)
  | some q ↦ elim (layer.device_map q.device) [
    | none ↦ (layer, not_presented)
    | some dev ↦
        let (layer', res) = capture frames swapchains layer in
        if dev.valid
        then elim res [
          | none ↦ (layer', present_stops)
          | some xs ↦ (layer', presented (waits_of xs semaphores))
        ]
        else (layer, presented semaphores)
  ]
]

pub data Acquired : Type 0 where
  acquired : ℕ → Acquired
  not_acquired acquire_stops : Acquired

unfoldable pub after_wait : ℕ → Processed → Acquired
after_wait index processed = acquired index
after_wait index already_removed = not_acquired
after_wait index processing_failed = not_acquired
after_wait index processing_hangs = acquire_stops
after_wait index processing_panics = acquire_stops

-- `index` is the driver's answer, and `ok` whether waiting for the fence of its image succeeds.
unfoldable pub acquire_next_image_khr : Option ℕ → Bool → ℕ → ℕ → Layer → Layer × Acquired
unfolding ly_swapchain_wait_image after_wait
acquire_next_image_khr index ok device swapchain layer = elim (layer.device_map device) [
  | none ↦ (layer, not_acquired)
  | some dev ↦ elim (layer.swapchain_map swapchain) [
    | none ↦ (layer, not_acquired)
    | some s ↦ elim index [
      | none ↦ (layer, not_acquired)
      | some i ↦
          let (s', done) = ly_swapchain_wait_image ok i s in
          if dev.valid
          then (
            record layer { swapchain_map = insert swapchain s' layer.swapchain_map },
            after_wait i done,
          )
          else (layer, acquired i)
    ]
  ]
]

unfoldable pub acquire_next_image2_khr : Option ℕ → Bool → ℕ → ℕ → Layer → Layer × Acquired
unfolding acquire_next_image_khr
acquire_next_image2_khr index ok device swapchain layer =
    acquire_next_image_khr index ok device swapchain layer
