-- ===== src/Vulkan/Present/Waits.antt =====
-- A present of several swapchains captures each of them, and stops on none.
use pw_capture.Common.{
  ℕ, ◌≤◌, ◌<◌, ◌≡◌, ◌≢◌, refl, ◌∙◌, Bool, true, false, ◌==◌, if◌then◌else◌, Option, none, some,
  List, [], ◌∷◌, map, length, All, has, arith, Bool-cases, Option-cases, inl, inr,
}
use pw_capture.Client.Stream.Types.{BufferUserHandle, vk_image, texture}
use pw_capture.Vulkan.Layer.{ExportData, LayerSwapchain, Layer}
use pw_capture.Vulkan.Frames.{
  Driver, Queued, queued, queue_failed, queue_waits, give_back, Outcome, nothing, failed, panicked,
  hung, captured, buffer_lost, capture_swapchain, capture_buffer,
}
use pw_capture.Vulkan.Frames.Copies.{AllSynced, Harmless, capture_buffer-Harmless}
use pw_capture.Vulkan.Present.{
  Frame, capture_at, signalled, add_signalled, capture, queue_present_khr, present_stops,
}

-- The buffer that is dequeued, if any, is an image.
abbrev pub OnlyImage : Option (Option (ℕ × BufferUserHandle)) → Type 0
OnlyImage (some (some (b, texture t))) = ⊥
OnlyImage d = Unit

-- A swapchain whose format is fixed, with an index that it has.
pub record ReadyAt (frames : ℕ → Frame) (layer : Layer) (shown : ℕ × ℕ) : Type 0 where
  pub s : LayerSwapchain
  pub there : layer.swapchain_map shown.0 ≡ some s
  pub synced : AllSynced s
  pub export_data : ExportData
  pub fixed : s.export_data ≡ some export_data
  pub enough : length s.images ≤ length export_data.command_buffers
  pub below : shown.1 < length s.images
  pub images : OnlyImage (frames shown.0).dequeued
  pub sends : (frames shown.0).queued ≢ queue_waits

abbrev pub handle_of : ℕ × ℕ → ℕ
handle_of shown = shown.0

-- No swapchain is presented twice.
abbrev pub Apart : List (ℕ × ℕ) → Type 0
Apart [] = Unit
Apart (x ∷ xs) = (has x.0 (map handle_of xs) ≡ false) × Apart xs

either_Harmless :
    (b : Bool) (x y : LayerSwapchain × Outcome)
    → Harmless x.1
    → Harmless y.1
    → Harmless (if b then x else y).1
either_Harmless true x y h k = h
either_Harmless false x y h k = k

give_back-Harmless :
    (answer : Queued) (r : LayerSwapchain × Outcome)
    → answer ≢ queue_waits
    → Harmless r.1
    → Harmless (give_back answer r).1
unfolding Harmless give_back
give_back-Harmless queued (s, captured b xs) g h = h
give_back-Harmless queue_failed (s, captured b xs) g h =
    (λ q. ground (arith, q), λ q. ground (arith, q))
give_back-Harmless queue_waits (s, captured b xs) g h = absurd (g refl)
give_back-Harmless answer (s, nothing) g h = h
give_back-Harmless answer (s, failed) g h = h
give_back-Harmless answer (s, panicked) g h = h
give_back-Harmless answer (s, hung) g h = h
give_back-Harmless answer (s, buffer_lost b) g h = h

capture_swapchain-Harmless :
    (driver : Driver) (dequeued : Option (Option (ℕ × BufferUserHandle))) (answer : Queued)
    (index : ℕ) (s : LayerSwapchain) (e : ExportData)
    → OnlyImage dequeued
    → answer ≢ queue_waits
    → AllSynced s
    → s.export_data ≡ some e
    → length s.images ≤ length e.command_buffers
    → index < length s.images
    → Harmless (capture_swapchain driver dequeued answer index s).1
unfolding capture_swapchain Harmless
capture_swapchain-Harmless driver none answer index s e o g a x l b =
    elim (Bool-cases s.has_stream) [
      | inl h ↦ rw (capture_swapchain, h) (λ q. ground (arith, q), λ q. ground (arith, q))
      | inr h ↦ rw (capture_swapchain, h) (λ q. ground (arith, q), λ q. ground (arith, q))
    ]
capture_swapchain-Harmless driver (some none) answer index s e o g a x l b =
    (λ q. ground (arith, q), λ q. ground (arith, q))
capture_swapchain-Harmless driver (some (some (buffer, vk_image i))) answer index s e o g a x l b =
    either_Harmless s.has_stream (give_back answer (capture_buffer driver buffer i index s))
      (s, nothing)
      (give_back-Harmless answer (capture_buffer driver buffer i index s) g
        (capture_buffer-Harmless driver buffer i index s e a x l b))
      (λ q. ground (arith, q), λ q. ground (arith, q))
capture_swapchain-Harmless driver (some (some (buffer, texture t))) answer index s e o g a x l b =
    absurd o

capture_at-other :
    (f : Frame) (swapchain index j : ℕ) (layer : Layer)
    → (j == swapchain) ≡ false
    → (capture_at f swapchain index layer).0.swapchain_map j ≡ layer.swapchain_map j
unfolding capture_at
capture_at-other f swapchain index j layer q = elim (Option-cases (layer.swapchain_map swapchain)) [
  | inl n ↦ rw (capture_at, n) refl
  | inr (s, k) ↦ rw (capture_at, k, q) refl
]

signalled-Harmless : (o : Outcome) → Harmless o → signalled o ≢ none
unfolding Harmless signalled
signalled-Harmless nothing h q = ground (arith, q)
signalled-Harmless failed h q = ground (arith, q)
signalled-Harmless panicked h q = h.0 refl
signalled-Harmless hung h q = h.1 refl
signalled-Harmless (captured b s) h q = ground (arith, q)
signalled-Harmless (buffer_lost b) h q = ground (arith, q)

add_signalled-some :
    (o : Option (List ℕ)) (r : Layer × Option (List ℕ))
    → o ≢ none
    → r.1 ≢ none
    → (add_signalled o r).1 ≢ none
unfolding add_signalled
add_signalled-some none r h k q = h refl
add_signalled-some (some xs) (layer, none) h k q = k refl
add_signalled-some (some xs) (layer, some ys) h k q = ground (arith, q)

capture_at-Harmless :
    (frames : ℕ → Frame) (shown : ℕ × ℕ) (layer : Layer)
    → ReadyAt frames layer shown
    → Harmless (capture_at (frames shown.0) shown.0 shown.1 layer).1
unfolding capture_at
capture_at-Harmless frames shown layer r =
    rw (capture_at, r.there)
      (capture_swapchain-Harmless (frames shown.0).driver (frames shown.0).dequeued
        (frames shown.0).queued shown.1 r.s r.export_data r.images r.sends r.synced r.fixed r.enough
        r.below)

head_other : (k x : ℕ) (xs : List ℕ) → has k (x ∷ xs) ≡ false → (x == k) ≡ false
head_other k x xs q = ground arith

tail_other : (k x : ℕ) (xs : List ℕ) → has k (x ∷ xs) ≡ false → has k xs ≡ false
tail_other k x xs q = ground arith

-- A swapchain is as ready after another one's capture.
ReadyAt-capture_at :
    (frames : ℕ → Frame) (f : Frame) (swapchain index : ℕ) (layer : Layer) (xs : List (ℕ × ℕ))
    → has swapchain (map handle_of xs) ≡ false
    → All (ReadyAt frames layer) xs
    → All (ReadyAt frames (capture_at f swapchain index layer).0) xs
ReadyAt-capture_at frames f swapchain index layer [] a r = tt
ReadyAt-capture_at frames f swapchain index layer (x ∷ xs) a (r, rs) = (
  record {
    s = r.s;
    there =
        capture_at-other f swapchain index x.0 layer (head_other swapchain x.0 (map handle_of xs) a)
        ∙ r.there;
    synced = r.synced;
    export_data = r.export_data;
    fixed = r.fixed;
    enough = r.enough;
    below = r.below;
    images = r.images;
    sends = r.sends;
  },
  ReadyAt-capture_at frames f swapchain index layer xs
      (tail_other swapchain x.0 (map handle_of xs) a) rs,
)

capture-some :
    (frames : ℕ → Frame) (xs : List (ℕ × ℕ)) (layer : Layer)
    → Apart xs
    → All (ReadyAt frames layer) xs
    → (capture frames xs layer).1 ≢ none
unfolding capture
capture-some frames [] layer a r = λ q. ground (arith, q)
capture-some frames ((swapchain, index) ∷ xs) layer (a, apart) (r, rs) =
    add_signalled-some (signalled (capture_at (frames swapchain) swapchain index layer).1)
      (capture frames xs (capture_at (frames swapchain) swapchain index layer).0)
      (signalled-Harmless _ (capture_at-Harmless frames (swapchain, index) layer r))
      (capture-some frames xs (capture_at (frames swapchain) swapchain index layer).0 apart
        (ReadyAt-capture_at frames (frames swapchain) swapchain index layer xs a rs))

-- A present never stops: where the presented swapchains differ and each has a fixed format, only
-- synced images, a command buffer for each and the index of one, and no stream's channel stays full
-- when a captured buffer is given back, the present of any queue goes on to the driver or fails
-- with an error, whatever else the driver and the streams answer, buffers of images or none.
pub queue_present_khr-goes_on :
    (frames : ℕ → Frame) (queue : ℕ) (xs : List (ℕ × ℕ)) (semaphores : List ℕ) (layer : Layer)
    → Apart xs
    → All (ReadyAt frames layer) xs
    → (queue_present_khr frames queue xs semaphores layer).1 ≢ present_stops
unfolding queue_present_khr
queue_present_khr-goes_on frames queue xs semaphores layer a r =
    elim (Option-cases (layer.queue_map queue)) [
      | inl n ↦ rw (queue_present_khr, n) (λ q. ground (arith, q))
      | inr (l, k) ↦ elim (Option-cases (layer.device_map l.device)) [
        | inl n ↦ rw (queue_present_khr, k, n) (λ q. ground (arith, q))
        | inr (dev, d) ↦ elim (Bool-cases dev.valid) [
          | inr v ↦ rw (queue_present_khr, k, d, v) (λ q. ground (arith, q))
          | inl v ↦ elim (Option-cases (capture frames xs layer).1) [
            | inl n ↦ absurd (capture-some frames xs layer a r n)
            | inr (res, e) ↦ rw (queue_present_khr, k, d, v, e) (λ q. ground (arith, q))
          ]
        ]
      ]
    ]
