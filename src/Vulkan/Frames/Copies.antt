-- ===== src/Vulkan/Frames/Copies.antt =====
-- The copies of the frames of a swapchain, capture_swapchain and on_process_buffer of
-- vulkan/src/lib.rs.
use pw_capture.Common.{
  ℕ, zero, suc, ◌+◌, ◌^◌, ◌<◌, ◌≤◌, ◌≡◌, ◌≢◌, refl, Bool, true, false, ◌==◌, ==_iff, ==_refl, some,
  List, [], ◌∷◌, length, get_elem?, arith, Bool-cases, Option-cases, inl, inr,
}
use pw_capture.Vulkan.Layer.{ImageData, ExportImage, ExportData, LayerSwapchain}
use pw_capture.Vulkan.Frames.{
  Wait, returned, lost, hangs, wait_and_reset, use_fence, submit, Outcome, panicked, hung, Driver,
  put_image, submit_copy, copy_image, capture_buffer, processed, wait_for_copy,
}
use pw_capture.Vulkan.Frames.Fences.{IsSynced, wait_and_reset-IsSynced}

-- Every image of the swapchain is synced, and far from the end of its sequence numbers.
unfoldable pub AllSynced : LayerSwapchain → Type 0
AllSynced s = (i : ℕ) (d : ImageData) → s.image_datas i ≡ some d → IsSynced d × (d.seq + 1 < 2 ^ 64)

-- Where every image is synced and below the end of its sequence numbers, waiting for a copy that
-- was made before ends, if the driver's calls succeed, and then the copy is over, also where the
-- source image was copied again since.
pub wait_for_copy-over :
    (s : LayerSwapchain) (src seq : ℕ) (d : ImageData)
    → AllSynced s
    → s.image_datas src ≡ some d
    → seq ≤ d.seq
    → (s' : LayerSwapchain) × (d' : ImageData) × (wait_for_copy true (src, seq) s ≡ (s', processed))
      × (s'.image_datas src ≡ some d')
      × (seq ≤ d'.finished)
unfolding wait_for_copy AllSynced IsSynced
wait_for_copy-over s src seq d h k l = elim (Bool-cases (seq == d.seq)) [
  | inr e ↦ (s, d, ground (arith, k, e), k, ground (arith, e, l, ==_iff seq d.seq, (h src d k).0))
  | inl e ↦
      let (d', w, b, f, q, y) = wait_and_reset-IsSynced d (h src d k).0 in
      (put_image src d' s, d', ground (arith, k, e, w), rw (==_refl src) refl, omega (arith, f, l))
]

-- Neither the assertion on the fence nor an index fails, and nothing waits for ever.
unfoldable pub Harmless : Outcome → Type 0
Harmless o = (o ≢ panicked) × (o ≢ hung)

submit_copy-Harmless :
    (driver : Driver) (buffer src image : ℕ) (e : ExportImage) (d : ImageData) (s : LayerSwapchain)
    → d.busy ≡ false
    → Harmless (submit_copy driver buffer src image e d s).1
unfolding submit_copy submit use_fence Harmless
submit_copy-Harmless driver buffer src image e d s b = elim (Bool-cases driver.submit_ok) [
  | inl o ↦ (λ q. ground (arith, q, b, o), λ q. ground (arith, q, b, o))
  | inr o ↦ (λ q. ground (arith, q, b, o), λ q. ground (arith, q, b, o))
]

pub wait_free : (ok : Bool) (d d' : ImageData) → wait_and_reset ok d ≡ returned d' → d'.busy ≡ false
unfolding wait_and_reset
wait_free ok d d' e = elim (Bool-cases d.busy) [
  | inr b ↦ ground (arith, e, b)
  | inl b ↦ ground (arith, e, b)
]

wait_ends : (ok : Bool) (d : ImageData) → IsSynced d → wait_and_reset ok d ≢ hangs
unfolding wait_and_reset IsSynced
wait_ends ok d h e = ground (arith, e, h)

copy_image-Harmless :
    (driver : Driver) (buffer c src image : ℕ) (exported : ExportImage) (d : ImageData)
    (s : LayerSwapchain)
    → IsSynced d
    → Harmless (copy_image driver buffer (some c) src image exported d s).1
unfolding copy_image Harmless
copy_image-Harmless driver buffer c src image exported d s h =
    go (wait_and_reset driver.wait_ok d) refl
  where
    go :
        (w : Wait)
        → wait_and_reset driver.wait_ok d ≡ w
        → Harmless (copy_image driver buffer (some c) src image exported d s).1
    go hangs e = absurd (wait_ends driver.wait_ok d h e)
    go lost e = rw (copy_image, e) (λ q. ground (arith, q), λ q. ground (arith, q))
    go (returned d') e = elim (Bool-cases driver.record_ok) [
      | inl r ↦
          rw (copy_image, e, r)
            (submit_copy-Harmless driver buffer src image exported d' s
              (wait_free driver.wait_ok d d' e))
      | inr r ↦ rw (copy_image, e, r) (λ q. ground (arith, q), λ q. ground (arith, q))
    ]

get_elem_below : (xs : List ℕ) (i : ℕ) → i < length xs → (x : ℕ) × (get_elem? xs i ≡ some x)
get_elem_below [] i l = absurd (omega (arith, l))
get_elem_below (x ∷ xs) zero l = (x, refl)
get_elem_below (x ∷ xs) (suc i) l = get_elem_below xs i (omega (arith, l))

-- A capture of one of the images of a swapchain whose images are synced and below the end of their
-- sequence numbers, and which has export data with a command buffer for each image, neither panics
-- nor hangs, whatever the driver's calls return.
pub capture_buffer-Harmless :
    (driver : Driver) (buffer image index : ℕ) (s : LayerSwapchain) (data' : ExportData)
    → AllSynced s
    → s.export_data ≡ some data'
    → length s.images ≤ length data'.command_buffers
    → index < length s.images
    → Harmless (capture_buffer driver buffer image index s).1
unfolding capture_buffer AllSynced Harmless
capture_buffer-Harmless driver buffer image index s data' h x enough l =
    let (c, kc) = get_elem_below data'.command_buffers index (omega (arith, enough, l)) in
    let (src, ks) = get_elem_below s.images index l in
    elim (Option-cases (s.export_images image)) [
      | inl n ↦ rw (capture_buffer, x, ks, n) (λ q. ground (arith, q), λ q. ground (arith, q))
      | inr (exported, ke) ↦ elim (Option-cases (s.image_datas src)) [
        | inl n ↦ rw (capture_buffer, x, ks, ke, n) (λ q. ground (arith, q), λ q. ground (arith, q))
        | inr (d, kd) ↦
            rw (capture_buffer, x, ks, ke, kd, kc)
              (copy_image-Harmless driver buffer c src image exported d s (h src d kd).0)
      ]
    ]
