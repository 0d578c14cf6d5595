-- ===== src/Vulkan/Swapchains/Created.antt =====
-- A new swapchain starts with its images synced.
use pw_capture.Common.{
  ℕ, ◌^◌, ◌<◌, ◌+◌, ◌≡◌, refl, ◌&&◌, Bool, true, false, ◌==◌, ==_refl, Option, none, some, List, [],
  ◌∷◌, DashMap, new_map, insert, arith, Bool-cases, Option-cases, inl, inr,
}
use pw_capture.Vulkan.Layer.{ImageData, LayerSwapchain, Layer}
use pw_capture.Vulkan.Frames.Fences.{IsSynced}
use pw_capture.Vulkan.Frames.Copies.{AllSynced}
use pw_capture.Vulkan.Swapchains.{
  SwapchainDriver, new_image, init_images, init_stream, new_swapchain, create_swapchain_khr,
}

-- An image that no copy has been made of.
abbrev Fresh : DashMap ImageData → Type 0
Fresh m = (i : ℕ) (x : ImageData) → m i ≡ some x → IsSynced x × (x.seq + 1 < 2 ^ 64)

abbrev FreshIf : Option (DashMap ImageData) → Type 0
FreshIf none = Unit
FreshIf (some m) = Fresh m

new_image-Fresh : (s i k : ℕ) (m : DashMap ImageData) → Fresh m → Fresh (insert i (new_image s) m)
unfolding new_image IsSynced
new_image-Fresh s i k m f j x e = elim (Bool-cases (j == i)) [
  | inr q ↦ f j x (ground (arith, e, q))
  | inl q ↦
      let same : new_image s ≡ x = ground (arith, e, q) in rw (← same) ((refl, refl), omega arith)
]

init_images-Fresh :
    (d : SwapchainDriver) (images : List ℕ) (m : DashMap ImageData)
    → Fresh m
    → FreshIf (init_images d images m)
unfolding init_images
init_images-Fresh d [] m f = f
init_images-Fresh d (i ∷ images) m f = elim (Option-cases (d.semaphore i)) [
  | inl n ↦ rw (init_images, n) tt
  | inr (s, q) ↦ elim (Bool-cases (d.fence_ok i)) [
    | inr b ↦ rw (init_images, q, b) tt
    | inl b ↦
        rw (init_images, q, b)
          (init_images-Fresh d images (insert i (new_image s) m) (new_image-Fresh s i i m f))
  ]
]

-- The new swapchain is in the table with the driver's images, no format and no exported image, and
-- every image of it is synced; an error changes no table.
abbrev pub Starts : SwapchainDriver → Layer → Layer × Option ℕ → Type 0
Starts d layer (layer', none) = layer' ≡ layer
Starts d layer (layer', some swapchain) =
    (s : LayerSwapchain) × (layer'.swapchain_map swapchain ≡ some s)
    × AllSynced s
    × (s.images ≡ d.images)
    × (s.export_data ≡ none)

starts :
    (d : SwapchainDriver) (layer : Layer) (swapchain : ℕ) (m : DashMap ImageData) (b : Bool)
    → Fresh m
    → Starts d layer (
      record layer { swapchain_map = insert swapchain (new_swapchain d m b) layer.swapchain_map },
      some swapchain,
    )
unfolding new_swapchain AllSynced
starts d layer swapchain m b f = (new_swapchain d m b, rw (==_refl swapchain) refl, f, refl, refl)

abbrev FreshStream : Option (DashMap ImageData × Bool) → Type 0
FreshStream none = Unit
FreshStream (some (m, b)) = Fresh m

init_stream-Fresh : (d : SwapchainDriver) (valid : Bool) → FreshStream (init_stream d valid)
unfolding init_stream
init_stream-Fresh d false = λ i x e. ground arith
init_stream-Fresh d true = elim (Option-cases (init_images d d.images new_map)) [
  | inl n ↦ rw (init_stream, n) tt
  | inr (m, q) ↦
      rw (init_stream, q) (rw q at (init_images-Fresh d d.images new_map (λ i x e. ground arith)))
]

-- Creating a swapchain either fails and leaves the tables as they were, or puts a swapchain in the
-- table that has the driver's images, no fixed format, and only synced images, so that its first
-- captures wait for nothing that was never submitted.
pub create_swapchain_khr-Starts :
    (d : SwapchainDriver) (device : ℕ) (layer : Layer)
    → Starts d layer (create_swapchain_khr d device layer)
unfolding create_swapchain_khr
create_swapchain_khr-Starts d device layer = elim (Option-cases (layer.device_map device)) [
  | inl n ↦ rw (create_swapchain_khr, n) refl
  | inr (dev, a) ↦ elim (Option-cases (layer.instance_map dev.instance')) [
    | inl n ↦ rw (create_swapchain_khr, a, n) refl
    | inr (i, b) ↦ elim (Option-cases d.create) [
      | inl n ↦ rw (create_swapchain_khr, a, b, n) refl
      | inr (swapchain, c) ↦ elim (Option-cases (init_stream d (i.valid && dev.valid))) [
        | inl n ↦ rw (create_swapchain_khr, a, b, c, n) refl
        | inr ((m, has_stream), e) ↦
            rw (create_swapchain_khr, a, b, c, e)
              (starts d layer swapchain m has_stream
                (rw e at (init_stream-Fresh d (i.valid && dev.valid))))
      ]
    ]
  ]
]
