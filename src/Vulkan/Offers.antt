-- ===== src/Vulkan/Offers.antt =====
-- The formats that the Vulkan layer offers: create_stream of vulkan/src/lib.rs and
-- get_supported_modifiers of vulkan/src/utils/vk_helper.rs.
pub mod Groups
pub mod Valid
use pw_capture.Common.{
  ℕ, Bool, true, false, not, ◌&&◌, ◌==◌, if◌then◌else◌, List, [], ◌∷◌, ◌++◌, map, keep, any,
}
use pw_capture.Client.Format.{Format}
use pw_capture.Client.Negotiation.{EnumFormatInfo}
use pw_capture.Vulkan.Formats.{
  VkFormats, VkFormatInfo, vk_format_info_table, vk_format_get_info, same_format, same_transfer,
}

-- The features that the layer asks for.
pub data Feature : Type 0 where
  transfer_dst blit_dst : Feature

-- What the layer asks the image to be used for.
pub data Usage : Type 0 where
  no_usage transfer_dst_usage : Usage

pub record ModifierProps : Type 0 where
  pub drm_format_modifier : ℕ
  pub plane_count : ℕ
  pub tiling_features : Feature → Bool

-- The Vulkan driver's answers: the modifiers of a format, and whether an image of the format and
-- the usage can be exported with a modifier.
pub record PhysicalDevice : Type 0 where
  pub modifier_props : ℕ → List ModifierProps
  pub image_format_ok : ℕ → Usage → ℕ → Bool

-- `Vec`'s derived equality.
abbrev pub same_modifiers : List ℕ → List ℕ → Bool
same_modifiers [] [] = true
same_modifiers (x ∷ xs) (y ∷ ys) = (x == y) && same_modifiers xs ys
same_modifiers _ _ = false

abbrev pub remove_zero : List ℕ → List ℕ
remove_zero [] = []
remove_zero (m ∷ ms) = let rest = m ∷ remove_zero ms in if m == 0 then ms else rest

-- The linear modifier, 0, is moved to the front.
unfoldable pub default_first : List ℕ → List ℕ
default_first ms = if any (λ m. m == 0) ms then 0 ∷ remove_zero ms else ms

-- The loop over the offers made so far: the first with these modifiers takes the format, and a
-- new offer is made where there is none.
unfoldable pub push_format : Format → List ℕ → List EnumFormatInfo → List EnumFormatInfo
push_format f ms [] = record { formats = f ∷ []; modifiers = ms } ∷ []
push_format f ms (e ∷ es) =
    let rest = e ∷ push_format f ms es in
    if same_modifiers e.modifiers ms then record e { formats = e.formats ++ f ∷ [] } ∷ es else rest

module _ (vk : VkFormats) (phy : PhysicalDevice) where
  unfoldable pub get_supported_modifiers : ℕ → Usage → Feature → List ModifierProps
  get_supported_modifiers f usage feature =
      keep (λ p. p.tiling_features feature && phy.image_format_ok f usage p.drm_format_modifier)
        (phy.modifier_props f)

  -- The formats of the swapchain's transfer, its own format first where the table has it.
  unfoldable pub stream_formats : ℕ → List VkFormatInfo
  stream_formats swapchain_format =
      let src = vk_format_get_info vk swapchain_format in
      if same_format src.format Format.unknown
      then keep (λ i. same_transfer i.transfer src.transfer) (vk_format_info_table vk)
      else src
        ∷ keep (λ i. same_transfer i.transfer src.transfer && not (i.vk_format == src.vk_format))
            (vk_format_info_table vk)

  -- The modifiers of one format, the default first.
  unfoldable pub format_modifiers : ℕ → VkFormatInfo → List ℕ
  unfolding default_first get_supported_modifiers
  format_modifiers src_format i =
      let feature = if src_format == i.vk_format then transfer_dst else blit_dst in
      default_first (
        map (λ p. p.drm_format_modifier)
          (get_supported_modifiers i.vk_format transfer_dst_usage feature))

  -- A format without modifiers is skipped.
  unfoldable pub push_unless_empty : Format → List ℕ → List EnumFormatInfo → List EnumFormatInfo
  unfolding push_format
  push_unless_empty f [] es = es
  push_unless_empty f (m ∷ ms) es = push_format f (m ∷ ms) es

  unfoldable pub offer_formats : ℕ → List VkFormatInfo → List EnumFormatInfo → List EnumFormatInfo
  unfolding format_modifiers push_unless_empty
  offer_formats src_format [] es = es
  offer_formats src_format (i ∷ is) es =
      offer_formats src_format is (push_unless_empty i.format (format_modifiers src_format i) es)

  -- `enum_formats` of the stream that is created for a swapchain.
  unfoldable pub enum_formats : ℕ → List EnumFormatInfo
  unfolding stream_formats offer_formats
  enum_formats swapchain_format =
      offer_formats (vk_format_get_info vk swapchain_format).vk_format
        (stream_formats swapchain_format) []
