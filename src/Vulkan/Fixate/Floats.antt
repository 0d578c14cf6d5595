-- ===== src/Vulkan/Fixate/Floats.antt =====
-- Swapchains of floats, in on_fixate_format of vulkan/src/lib.rs.
use pw_capture.Common.{ℕ, ◌≡◌, true, ==_refl, some, List, ◌∷◌, arith}
use pw_capture.Client.Format.{Format, Transfer, sfloat}
use pw_capture.Vulkan.Formats.{VkLayout, VkFormats, same_transfer}
use pw_capture.Vulkan.Formats.Lookup.{client_format_get_info-floats}
use pw_capture.Vulkan.Offers.{PhysicalDevice}
use pw_capture.Vulkan.Layer.{LayerDevice, LayerInstance, LayerSwapchain, Layer}
use pw_capture.Vulkan.Fixate.{CommandDriver, failed, fixate_format, on_fixate_format}

module _ (vk : VkFormats)
    (names : (l : VkLayout) (t t' : Transfer)
      → vk.name_contains (vk.full_fmt l t) t' ≡ same_transfer t t')
    (phy_devices : ℕ → PhysicalDevice) (driver : CommandDriver) where
  -- For a swapchain whose format is one of floats, on a valid instance, every offer that names a
  -- format is refused, with the layer unchanged.
  pub on_fixate_format-floats :
      (device swapchain : ℕ) (l : VkLayout) (f : Format) (fs : List Format) (modifiers : List ℕ)
      (layer : Layer) (d : LayerDevice) (i : LayerInstance) (s : LayerSwapchain)
      → layer.device_map device ≡ some d
      → layer.instance_map d.instance' ≡ some i
      → i.valid ≡ true
      → layer.swapchain_map swapchain ≡ some s
      → s.format ≡ vk.full_fmt l sfloat
      → on_fixate_format vk phy_devices driver device swapchain
          (record { formats = f ∷ fs; modifiers = modifiers })
          layer
        ≡ (layer, failed)
  unfolding on_fixate_format fixate_format
  on_fixate_format-floats device w l f fs ms layer d i s kd ki v ks e =
      ground
        (arith, kd, ki, v, ks, e, client_format_get_info-floats vk names l f, ==_refl vk.undefined)
