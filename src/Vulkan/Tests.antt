-- ===== src/Vulkan/Tests.antt =====
-- The Vulkan layer on concrete inputs.
use mathlib.Core.List.{Perm}
use pw_capture.Common.{ℕ, ◌+◌, ◌*◌, ◌/◌, ◌<◌, ◌≡◌, refl, true, ◌==◌, [], ◌∷◌, arith, All}
use pw_capture.Client.Format.{bgra, Transfer, unorm}
use pw_capture.Vulkan.Formats.{
  VkLayout, b8g8r8a8, r8g8b8a8, b8g8r8, r8g8b8, a2b10g10r10, a2r10g10b10, r16g16b16a16,
  r32g32b32a32, r16, r8, VkFormats, Row, transfer_number, same_transfer, vk_format_get_info,
}
use pw_capture.Vulkan.Offers.{PhysicalDevice, ModifierProps, enum_formats, stream_formats}
use pw_capture.Vulkan.Offers.Groups.{pairs, distinct, all_wanted, enum_formats-groups}
use pw_capture.Vulkan.Offers.Valid.{IsWord}

abbrev layout_number : VkLayout → ℕ
layout_number b8g8r8a8 = 0
layout_number r8g8b8a8 = 1
layout_number b8g8r8 = 2
layout_number r8g8b8 = 3
layout_number a2b10g10r10 = 4
layout_number a2r10g10b10 = 5
layout_number r16g16b16a16 = 6
layout_number r32g32b32a32 = 7
layout_number r16 = 8
layout_number r8 = 9

layout_small : (l : VkLayout) → layout_number l < 16
layout_small b8g8r8a8 = omega arith
layout_small _ = omega arith

-- Numbers of formats from which their parts can be read.
abbrev pub vk : VkFormats
vk = record {
  full_fmt = λ l t. transfer_number t * 16 + layout_number l;
  undefined = 1000;
  name_contains = λ f t. f / 16 == transfer_number t;
}

read_back : (n k : ℕ) → k < 16 → (n * 16 + k) / 16 ≡ n
read_back n k h = omega (arith, h)

pub names :
    (l : VkLayout) (t t' : Transfer) → vk.name_contains (vk.full_fmt l t) t' ≡ same_transfer t t'
names l t t' = rw (read_back (transfer_number t) (layout_number l) (layout_small l)) refl

abbrev linear : ModifierProps
linear = record { drm_format_modifier = 0; plane_count = 1; tiling_features = λ f. true }

abbrev tiled : ModifierProps
tiled = record { drm_format_modifier = 7; plane_count = 1; tiling_features = λ f. true }

abbrev pub phy : PhysicalDevice
phy = record { modifier_props = λ f. tiled ∷ linear ∷ []; image_format_ok = λ f u m. true }

enum_formats-groups_example :
    Perm
      (pairs (enum_formats vk phy 32))
      (all_wanted vk phy (vk_format_get_info vk 32).vk_format (stream_formats vk phy 32))
    × (distinct (enum_formats vk phy 32) ≡ true)
enum_formats-groups_example = enum_formats-groups vk phy 32

words : (f : ℕ) → All IsWord (phy.modifier_props f)
words f = (omega arith, (omega arith, tt))

abbrev row_five : Row
row_five = record { format = bgra; layout = b8g8r8a8; transfer = unorm }
