-- ===== src/Vulkan/Formats.antt =====
-- The table of formats and its lookups, vulkan/src/utils/format_info.rs.
pub mod Lookup
use pw_capture.Common.{ℕ, Bool, true, false, ◌&&◌, ◌==◌, if◌then◌else◌, List, [], ◌∷◌, map}
use pw_capture.Client.Format.{
  Format, format_into, Transfer, unknown_transfer, srgb, unorm, snorm, uint, sint, uscaled, sscaled,
  ufloat, sfloat, gray8, gray16_be, gray16_le, rgba, bgra, rgb, bgr, rgba_f16, rgba_f32, rgba_102le,
  bgra_102le,
}

-- The first part of the name of a `vk::Format` of the table; its transfer is the second.
pub data VkLayout : Type 0 where
  b8g8r8a8 r8g8b8a8 b8g8r8 r8g8b8 a2b10g10r10 a2r10g10b10 : VkLayout
  r16g16b16a16 r32g32b32a32 r16 r8 : VkLayout

-- The formats of the `ash` crate: their numbers, and whether the name that `Debug` prints contains
-- `_` and the transfer's name.
pub record VkFormats : Type 0 where
  pub full_fmt : VkLayout → Transfer → ℕ
  pub undefined : ℕ
  pub name_contains : ℕ → Transfer → Bool

pub record VkFormatInfo : Type 0 where
  pub format : Format
  pub transfer : Transfer
  pub vk_format : ℕ

pub record Row : Type 0 where
  pub format : Format
  pub layout : VkLayout
  pub transfer : Transfer

abbrev finfo : Format → VkLayout → Transfer → Row
finfo f l t = record { format = f; layout = l; transfer = t }

-- The arguments of the table's `finfo!`.
abbrev pub rows : List Row
rows =
    finfo bgra b8g8r8a8 sint
    ∷ finfo bgra b8g8r8a8 snorm
    ∷ finfo bgra b8g8r8a8 srgb
    ∷ finfo bgra b8g8r8a8 sscaled
    ∷ finfo bgra b8g8r8a8 uint
    ∷ finfo bgra b8g8r8a8 unorm
    ∷ finfo bgra b8g8r8a8 uscaled
    ∷ finfo rgba r8g8b8a8 sint
    ∷ finfo rgba r8g8b8a8 snorm
    ∷ finfo rgba r8g8b8a8 srgb
    ∷ finfo rgba r8g8b8a8 sscaled
    ∷ finfo rgba r8g8b8a8 uint
    ∷ finfo rgba r8g8b8a8 unorm
    ∷ finfo rgba r8g8b8a8 uscaled
    ∷ finfo bgr b8g8r8 sint
    ∷ finfo bgr b8g8r8 snorm
    ∷ finfo bgr b8g8r8 srgb
    ∷ finfo bgr b8g8r8 sscaled
    ∷ finfo bgr b8g8r8 uint
    ∷ finfo bgr b8g8r8 unorm
    ∷ finfo bgr b8g8r8 uscaled
    ∷ finfo rgb r8g8b8 sint
    ∷ finfo rgb r8g8b8 snorm
    ∷ finfo rgb r8g8b8 srgb
    ∷ finfo rgb r8g8b8 sscaled
    ∷ finfo rgb r8g8b8 uint
    ∷ finfo rgb r8g8b8 unorm
    ∷ finfo rgb r8g8b8 uscaled
    ∷ finfo rgba_102le a2b10g10r10 sint
    ∷ finfo rgba_102le a2b10g10r10 snorm
    ∷ finfo rgba_102le a2b10g10r10 sscaled
    ∷ finfo rgba_102le a2b10g10r10 uint
    ∷ finfo rgba_102le a2b10g10r10 unorm
    ∷ finfo rgba_102le a2b10g10r10 uscaled
    ∷ finfo bgra_102le a2r10g10b10 sint
    ∷ finfo bgra_102le a2r10g10b10 snorm
    ∷ finfo bgra_102le a2r10g10b10 sscaled
    ∷ finfo bgra_102le a2r10g10b10 uint
    ∷ finfo bgra_102le a2r10g10b10 unorm
    ∷ finfo bgra_102le a2r10g10b10 uscaled
    ∷ finfo rgba_f16 r16g16b16a16 sfloat
    ∷ finfo rgba_f32 r32g32b32a32 sfloat
    ∷ finfo gray16_le r16 sint
    ∷ finfo gray16_le r16 snorm
    ∷ finfo gray16_le r16 sscaled
    ∷ finfo gray16_le r16 uint
    ∷ finfo gray16_le r16 unorm
    ∷ finfo gray16_le r16 uscaled
    ∷ finfo gray16_be r16 sint
    ∷ finfo gray16_be r16 snorm
    ∷ finfo gray16_be r16 sscaled
    ∷ finfo gray16_be r16 uint
    ∷ finfo gray16_be r16 unorm
    ∷ finfo gray16_be r16 uscaled
    ∷ finfo gray8 r8 sint
    ∷ finfo gray8 r8 snorm
    ∷ finfo gray8 r8 srgb
    ∷ finfo gray8 r8 sscaled
    ∷ finfo gray8 r8 uint
    ∷ finfo gray8 r8 unorm
    ∷ finfo gray8 r8 uscaled
    ∷ []

-- The derived equality of `Transfer`.
abbrev pub transfer_number : Transfer → ℕ
transfer_number unknown_transfer = 0
transfer_number srgb = 1
transfer_number unorm = 2
transfer_number snorm = 3
transfer_number uint = 4
transfer_number sint = 5
transfer_number uscaled = 6
transfer_number sscaled = 7
transfer_number ufloat = 8
transfer_number sfloat = 9

abbrev pub same_transfer : Transfer → Transfer → Bool
same_transfer a b = transfer_number a == transfer_number b

abbrev pub same_format : Format → Format → Bool
same_format a b = format_into a == format_into b

module _ (vk : VkFormats) where
  abbrev pub full : Row → VkFormatInfo
  full r = record {
    format = r.format;
    transfer = r.transfer;
    vk_format = vk.full_fmt r.layout r.transfer;
  }

  unfoldable pub vk_format_info_table : List VkFormatInfo
  vk_format_info_table = map full rows

  unfoldable pub vk_format_get_transfer : ℕ → Transfer
  vk_format_get_transfer f =
      if vk.name_contains f srgb
      then srgb
      else if vk.name_contains f unorm
      then unorm
      else if vk.name_contains f uint
      then uint
      else if vk.name_contains f uscaled
      then uscaled
      else if vk.name_contains f snorm
      then snorm
      else if vk.name_contains f sint
      then sint
      else if vk.name_contains f sscaled
      then sscaled
      else unknown_transfer

  unfoldable pub info_in : List VkFormatInfo → ℕ → VkFormatInfo
  info_in [] f = record {
    format = Format.unknown;
    transfer = vk_format_get_transfer f;
    vk_format = f;
  }
  info_in (info ∷ infos) f =
      let rest = info_in infos f in if info.vk_format == f then info else rest

  unfoldable pub vk_format_get_info : ℕ → VkFormatInfo
  unfolding info_in vk_format_info_table
  vk_format_get_info f = info_in vk_format_info_table f

  unfoldable pub client_info_in : List VkFormatInfo → Format → Transfer → VkFormatInfo
  client_info_in [] f t = record { format = f; transfer = t; vk_format = vk.undefined }
  client_info_in (info ∷ infos) f t =
      let rest = client_info_in infos f t in
      if same_format info.format f && same_transfer info.transfer t then info else rest

  unfoldable pub client_format_get_info : Format → Transfer → VkFormatInfo
  unfolding client_info_in vk_format_info_table
  client_format_get_info f t = client_info_in vk_format_info_table f t
