-- ===== src/Vulkan/Frames/Synced.antt =====
-- What a capture leaves of the images' fences, capture_swapchain of vulkan/src/lib.rs.
use pw_capture.Common.{
  ℕ, ◌+◌, ◌^◌, ◌<◌, ◌≡◌, refl, sym, subst, Bool, true, false, ◌==◌, Option, none, some, get_elem?,
  arith, Bool-cases, Option-cases, inl, inr,
}
use pw_capture.Vulkan.Layer.{ImageData, ExportImage, LayerSwapchain}
use pw_capture.Vulkan.Frames.{
  Wait, returned, lost, hangs, wait_and_reset, submit, Driver, put_image, submit_copy, copy_image,
  capture_buffer,
}
use pw_capture.Vulkan.Frames.Fences.{IsSynced, submit-IsSynced}
use pw_capture.Vulkan.Frames.Copies.{AllSynced, wait_free}

-- Every image of the swapchain is synced.
pub EachSynced : LayerSwapchain → Type 0
EachSynced s = (i : ℕ) (d : ImageData) → s.image_datas i ≡ some d → IsSynced d

put_image-EachSynced :
    (image : ℕ) (d : ImageData) (s : LayerSwapchain)
    → EachSynced s
    → IsSynced d
    → EachSynced (put_image image d s)
unfolding EachSynced
put_image-EachSynced image d s h y i x k = elim (Bool-cases (i == image)) [
  | inl e ↦ let q : d ≡ x = ground (arith, k, e) in subst IsSynced q y
  | inr e ↦ h i x (ground (arith, k, e))
]

wait_and_reset-IsSynced_kept :
    (ok : Bool) (d d' : ImageData)
    → IsSynced d
    → wait_and_reset ok d ≡ returned d'
    → IsSynced d' × (d'.seq ≡ d.seq)
unfolding wait_and_reset IsSynced
wait_and_reset-IsSynced_kept ok d d' h e = elim (Bool-cases d.busy) [
  | inr b ↦ ground (arith, e, h, b)
  | inl b ↦ ground (arith, e, h, b)
]

module _ (driver : Driver) (succeeds : driver.submit_ok ≡ true) where
  submit_copy-EachSynced :
      (buffer src image : ℕ) (e : ExportImage) (d : ImageData) (s : LayerSwapchain)
      → EachSynced s
      → IsSynced d
      → d.busy ≡ false
      → d.seq + 1 < 2 ^ 64
      → EachSynced (submit_copy driver buffer src image e d s).0
  unfolding submit_copy EachSynced
  submit_copy-EachSynced buffer src image e d s h y b l =
      let (d', k, q, y') = submit-IsSynced d y b l in
      let sent : submit driver.submit_ok d ≡ some d' =
        subst (λ o. submit o d ≡ some d') (sym succeeds) k in
      rw (submit_copy, sent, succeeds) (put_image-EachSynced src d' s h y')

  copy_image-EachSynced :
      (buffer : ℕ) (c : Option ℕ) (src image : ℕ) (exported : ExportImage) (d : ImageData)
      (s : LayerSwapchain)
      → EachSynced s
      → IsSynced d
      → d.seq + 1 < 2 ^ 64
      → EachSynced (copy_image driver buffer c src image exported d s).0
  unfolding copy_image
  copy_image-EachSynced buffer c src image exported d s h y l =
      go c (wait_and_reset driver.wait_ok d) refl
    where
      go :
          (c : Option ℕ) (w : Wait)
          → wait_and_reset driver.wait_ok d ≡ w
          → EachSynced (copy_image driver buffer c src image exported d s).0
      go c hangs e = rw (copy_image, e) h
      go c lost e = rw (copy_image, e) h
      go none (returned d') e =
          rw (copy_image, e)
            (put_image-EachSynced src d' s h
              (wait_and_reset-IsSynced_kept driver.wait_ok d d' y e).0)
      go (some c) (returned d') e =
          let (y', q) = wait_and_reset-IsSynced_kept driver.wait_ok d d' y e in
          elim (Bool-cases driver.record_ok) [
            | inl r ↦
                rw (copy_image, e, r)
                  (submit_copy-EachSynced buffer src image exported d' s h y'
                    (wait_free driver.wait_ok d d' e) (omega (arith, q, l)))
            | inr r ↦ rw (copy_image, e, r) (put_image-EachSynced src d' s h y')
          ]

  each : (s : LayerSwapchain) → AllSynced s → EachSynced s
  unfolding AllSynced EachSynced
  each s h i d k = (h i d k).0

  -- While `queue_submit` succeeds, a capture of a swapchain whose images are synced and below the
  -- end of their sequence numbers leaves every image synced, however it ends.
  pub capture_buffer-EachSynced :
      (buffer image index : ℕ) (s : LayerSwapchain)
      → AllSynced s
      → EachSynced (capture_buffer driver buffer image index s).0
  unfolding capture_buffer AllSynced
  capture_buffer-EachSynced buffer image index s h = elim (Option-cases s.export_data) [
    | inl n ↦ rw (capture_buffer, n) (each s h)
    | inr (x, kx) ↦ elim (Option-cases (get_elem? s.images index)) [
      | inl n ↦ rw (capture_buffer, kx, n) (each s h)
      | inr (src, ks) ↦ elim (Option-cases (s.export_images image)) [
        | inl n ↦ rw (capture_buffer, kx, ks, n) (each s h)
        | inr (exported, ke) ↦ elim (Option-cases (s.image_datas src)) [
          | inl n ↦ rw (capture_buffer, kx, ks, ke, n) (each s h)
          | inr (d, kd) ↦
              rw (capture_buffer, kx, ks, ke, kd)
                (copy_image-EachSynced buffer (get_elem? x.command_buffers index) src image exported
                  d s (each s h) (h src d kd).0 (h src d kd).1)
        ]
      ]
    ]
  ]
