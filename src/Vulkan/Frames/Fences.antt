-- ===== src/Vulkan/Frames/Fences.antt =====
-- The fences of the images and the sequence numbers of the copies.
use pw_capture.Common.{
  ◌+◌, ◌%◌, ◌^◌, ◌<◌, ◌≡◌, refl, true, false, if◌then◌else◌, some, arith, Bool-cases, inl, inr,
}
use pw_capture.Vulkan.Layer.{ImageData}
use pw_capture.Vulkan.Frames.{returned, lost, hangs, wait_and_reset, use_fence, submit}

-- A busy fence is carried by a submission, and every copy but the one under way is over.
unfoldable pub IsSynced : ImageData → Type 0
IsSynced d = (d.submitted ≡ d.busy) × (d.finished + (if d.busy then 1 else 0) ≡ d.seq)

-- Waiting for a synced image never hangs, and leaves it synced and with every copy over.
pub wait_and_reset-IsSynced :
    (d : ImageData)
    → IsSynced d
    → (d' : ImageData) × (wait_and_reset true d ≡ returned d')
      × (d'.busy ≡ false)
      × (d'.finished ≡ d.seq)
      × (d'.seq ≡ d.seq)
      × IsSynced d'
unfolding wait_and_reset IsSynced
wait_and_reset-IsSynced d h = elim (Bool-cases d.busy) [
  | inr e ↦ (d, ground (arith, e), e, ground (arith, e, h), refl, h)
  | inl e ↦ (
    record d { busy = false; submitted = false; finished = d.seq },
    ground (arith, e, h),
    refl,
    refl,
    refl,
    (refl, ground arith),
  )
]

-- A submission right after waiting passes the assertion on the fence.
pub submit-IsSynced :
    (d : ImageData)
    → IsSynced d
    → d.busy ≡ false
    → d.seq + 1 < 2 ^ 64
    → (d' : ImageData) × (submit true d ≡ some d') × (d'.seq ≡ d.seq + 1) × IsSynced d'
unfolding submit use_fence IsSynced
submit-IsSynced d h e l = (
  record d { busy = true; submitted = true; seq = (d.seq + 1) % 2 ^ 64 },
  ground (arith, e),
  ground (arith, l),
  (refl, ground (arith, h, e, l)),
)

-- After a submission that fails, the next wait for the image ends only with an error of the driver:
-- without one it never ends, though the image was synced before.
pub wait_and_reset-submit_failed :
    (d d' : ImageData)
    → IsSynced d
    → submit false d ≡ some d'
    → (wait_and_reset true d' ≡ hangs) × (wait_and_reset false d' ≡ lost)
unfolding wait_and_reset submit use_fence IsSynced
wait_and_reset-submit_failed d d' h e = (ground (arith, h, e), ground (arith, h, e))
