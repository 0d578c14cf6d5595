-- ===== src/Vulkan/Buffers/Balance.antt =====
-- A buffer that is removed releases what adding it made.
use pw_capture.Common.{
  ℕ, ℤ, suc, zero, ◌+◌, ◌≡◌, refl, sym, ap, ◌∙◌, true, ◌==◌, ==_refl, ==_iff, Option, none, some,
  List, [], ◌∷◌, map, length, insert, remove, DashMap, ok, Bool-cases, inl, inr,
}
use pw_capture.Client.Stream.Types.{vk_image, BufferInfo, BufferPlaneInfo}
use pw_capture.Vulkan.Layer.{
  SubresourceLayout, ExportImage, ExportData, LayerSwapchain, LayerDevice, LayerInstance, Layer,
}
use pw_capture.Vulkan.Buffers.{
  ImageDriver, target, create_target_image, plane_fds, plane_info, first_has_size, export_target,
  add_to_swapchain, on_add_buffer, put, fd_of, remove_image, on_remove_buffer,
}

abbrev pub exports_at : ℕ → Layer → ℕ → Option ExportImage
exports_at swapchain layer image = elim (layer.swapchain_map swapchain) [
  | none ↦ none
  | some s ↦ s.export_images image
]

abbrev pub plane_fd : BufferPlaneInfo → ℤ
plane_fd p = p.fd

planes-fds :
    (fds : List (ℤ × SubresourceLayout)) → map plane_fd (map plane_info fds) ≡ map fd_of fds
unfolding plane_info
planes-fds [] = refl
planes-fds ((fd, l) ∷ fds) = ap (fd ∷◌) (planes-fds fds)

inserted_removed :
    {V : Type 0} (k i : ℕ) (v : V) (m : DashMap V) → m k ≡ none → remove k (insert k v m) i ≡ m i
inserted_removed k i v m n = elim (Bool-cases (i == k)) [
  | inr e ↦ rw e refl
  | inl e ↦ rw e (sym (ap m ((==_iff i k).0 e) ∙ n))
]

-- The swapchain with the exported image.
with_image : ℕ → ExportImage → LayerSwapchain → LayerSwapchain
with_image image x s = record s { export_images = insert image x s.export_images }

abbrev fresh_image : ExportData → ℕ → List (ℤ × SubresourceLayout) → ExportImage
fresh_image e memory fds = record {
  format = e.format;
  memory = memory;
  fds = fds;
  src_image = (0, 0);
}

added :
    (d : ImageDriver) (e : ExportData) (m image memory : ℕ) (fds : List (ℤ × SubresourceLayout))
    (s : LayerSwapchain)
    → s.export_data ≡ some e
    → e.modifier ≡ some m
    → create_target_image d e.num_planes ≡ target image memory fds
    → first_has_size fds ≡ true
    → add_to_swapchain d s ≡ (
      with_image image (fresh_image e memory fds) s,
      ok (record { is_dma_buf = true; planes = map plane_info fds; user_handle = vk_image image }),
    )
unfolding add_to_swapchain export_target with_image
added d e m image memory fds s x k c z =
    let first : add_to_swapchain d s ≡ export_target d e s = simp (add_to_swapchain, x, k) in
    first ∙ rw (export_target, c, z) refl

-- Adding a buffer to a swapchain whose format is fixed makes an image that it did not have, and the
-- buffer carries that image and its descriptors; removing the buffer then destroys that image and
-- its memory, closes the descriptors of the buffer's planes, and leaves the swapchain's exported
-- images as they were.
pub on_remove_buffer-on_add_buffer :
    (d : ImageDriver) (device swapchain : ℕ) (layer : Layer) (dev : LayerDevice) (i : LayerInstance)
    (s : LayerSwapchain) (e : ExportData) (m image memory : ℕ) (fds : List (ℤ × SubresourceLayout))
    → layer.device_map device ≡ some dev
    → dev.valid ≡ true
    → layer.instance_map dev.instance' ≡ some i
    → layer.swapchain_map swapchain ≡ some s
    → s.export_data ≡ some e
    → e.modifier ≡ some m
    → create_target_image d e.num_planes ≡ target image memory fds
    → first_has_size fds ≡ true
    → s.export_images image ≡ none
    → (layer' : Layer) × (info : BufferInfo) × (on_add_buffer d device swapchain layer
        ≡ (layer', ok info))
      × (info.user_handle ≡ vk_image image)
      × (exports_at swapchain layer' image ≡ some (fresh_image e memory fds))
      × ((on_remove_buffer device swapchain (vk_image image) layer').1
          ≡ ok (record { image = image; fds = map plane_fd info.planes; memory = memory }))
      × ((j : ℕ)
          → exports_at swapchain (on_remove_buffer device swapchain (vk_image image) layer').0 j
            ≡ s.export_images j)
unfolding on_add_buffer on_remove_buffer remove_image with_image
on_remove_buffer-on_add_buffer d device swapchain layer dev i s e m image memory fds a v b c x k t z
      n =
    let s' = with_image image (fresh_image e memory fds) s in
    let info : BufferInfo = record {
      is_dma_buf = true;
      planes = map plane_info fds;
      user_handle = vk_image image;
    } in
    (
      put swapchain s' layer,
      info,
      rw (on_add_buffer, a, v, b, c, added d e m image memory fds s x k t z) refl,
      refl,
      rw (exports_at, ==_refl swapchain, ==_refl image) refl,
      rw (on_remove_buffer, a, ==_refl swapchain, remove_image, ==_refl image, planes-fds fds) refl,
      λ j.
          rw
            (
              on_remove_buffer,
              a,
              ==_refl swapchain,
              remove_image,
              ==_refl image,
              exports_at,
              ==_refl swapchain,
            )
            (inserted_removed image j (fresh_image e memory fds) s.export_images n),
    )

-- The buffer has one plane for each plane of the format, and between one and four.
pub plane_fds-length : (d : ImageDriver) (fd : ℤ) (i n : ℕ) → length (plane_fds d fd i n) ≡ n
unfolding plane_fds
plane_fds-length d fd i zero = refl
plane_fds-length d fd i (suc n) = ap suc (plane_fds-length d fd (i + 1) n)
