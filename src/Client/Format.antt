-- ===== src/Client/Format.antt =====
-- The pixel formats and transfer functions of client/src/format.rs. A format's number is its
-- position, as `enum spa_video_format` has it; an unknown number reads as the default.
pub mod Numbers
use pw_capture.Common.{
  ℕ, ◌<◌, ◌≤◌, ◌≡◌, refl, ◌⊎◌, List, [], ◌∷◌, arith, length, get_or, if◌then◌else◌, ltb, ◌==◌, Bool,
}

pub data Format : Type 0 where
  unknown encoded i420 yv12 yuy2 uyvy ayuv rgbx : Format
  bgrx xrgb xbgr rgba bgra argb abgr rgb : Format
  bgr y41b y42b yvyu y444 v210 v216 nv12 : Format
  nv21 gray8 gray16_be gray16_le v308 rgb16 bgr16 rgb15 : Format
  bgr15 uyvp a420 rgb8p yuv9 yvu9 iyu1 argb64 : Format
  ayuv64 r210 i420_10be i420_10le i422_10be i422_10le y444_10be y444_10le : Format
  gbr gbr_10be gbr_10le nv16 nv24 nv12_64z32 a420_10be a420_10le : Format
  a422_10be a422_10le a444_10be a444_10le nv61 p010_10be p010_10le iyu2 : Format
  vyuy gbra gbra_10be gbra_10le gbr_12be gbr_12le gbra_12be gbra_12le : Format
  i420_12be i420_12le i422_12be i422_12le y444_12be y444_12le rgba_f16 rgba_f32 : Format
  xrgb_210le xbgr_210le rgbx_102le bgrx_102le argb_210le abgr_210le rgba_102le bgra_102le : Format

unfoldable pub format_default : Format
format_default = unknown

-- `u32::from`.
unfoldable pub format_into : Format → ℕ
format_into unknown = 0
format_into encoded = 1
format_into i420 = 2
format_into yv12 = 3
format_into yuy2 = 4
format_into uyvy = 5
format_into ayuv = 6
format_into rgbx = 7
format_into bgrx = 8
format_into xrgb = 9
format_into xbgr = 10
format_into rgba = 11
format_into bgra = 12
format_into argb = 13
format_into abgr = 14
format_into rgb = 15
format_into bgr = 16
format_into y41b = 17
format_into y42b = 18
format_into yvyu = 19
format_into y444 = 20
format_into v210 = 21
format_into v216 = 22
format_into nv12 = 23
format_into nv21 = 24
format_into gray8 = 25
format_into gray16_be = 26
format_into gray16_le = 27
format_into v308 = 28
format_into rgb16 = 29
format_into bgr16 = 30
format_into rgb15 = 31
format_into bgr15 = 32
format_into uyvp = 33
format_into a420 = 34
format_into rgb8p = 35
format_into yuv9 = 36
format_into yvu9 = 37
format_into iyu1 = 38
format_into argb64 = 39
format_into ayuv64 = 40
format_into r210 = 41
format_into i420_10be = 42
format_into i420_10le = 43
format_into i422_10be = 44
format_into i422_10le = 45
format_into y444_10be = 46
format_into y444_10le = 47
format_into gbr = 48
format_into gbr_10be = 49
format_into gbr_10le = 50
format_into nv16 = 51
format_into nv24 = 52
format_into nv12_64z32 = 53
format_into a420_10be = 54
format_into a420_10le = 55
format_into a422_10be = 56
format_into a422_10le = 57
format_into a444_10be = 58
format_into a444_10le = 59
format_into nv61 = 60
format_into p010_10be = 61
format_into p010_10le = 62
format_into iyu2 = 63
format_into vyuy = 64
format_into gbra = 65
format_into gbra_10be = 66
format_into gbra_10le = 67
format_into gbr_12be = 68
format_into gbr_12le = 69
format_into gbra_12be = 70
format_into gbra_12le = 71
format_into i420_12be = 72
format_into i420_12le = 73
format_into i422_12be = 74
format_into i422_12le = 75
format_into y444_12be = 76
format_into y444_12le = 77
format_into rgba_f16 = 78
format_into rgba_f32 = 79
format_into xrgb_210le = 80
format_into xbgr_210le = 81
format_into rgbx_102le = 82
format_into bgrx_102le = 83
format_into argb_210le = 84
format_into abgr_210le = 85
format_into rgba_102le = 86
format_into bgra_102le = 87

abbrev pub all_formats : List Format
all_formats =
    unknown ∷ encoded ∷ i420 ∷ yv12 ∷ yuy2 ∷ uyvy ∷ ayuv ∷ rgbx ∷ bgrx ∷ xrgb ∷ xbgr ∷ rgba ∷ bgra
    ∷ argb ∷ abgr ∷ rgb ∷ bgr ∷ y41b ∷ y42b ∷ yvyu ∷ y444 ∷ v210 ∷ v216 ∷ nv12 ∷ nv21 ∷ gray8
    ∷ gray16_be ∷ gray16_le ∷ v308 ∷ rgb16 ∷ bgr16 ∷ rgb15 ∷ bgr15 ∷ uyvp ∷ a420 ∷ rgb8p ∷ yuv9
    ∷ yvu9 ∷ iyu1 ∷ argb64 ∷ ayuv64 ∷ r210 ∷ i420_10be ∷ i420_10le ∷ i422_10be ∷ i422_10le
    ∷ y444_10be ∷ y444_10le ∷ gbr ∷ gbr_10be ∷ gbr_10le ∷ nv16 ∷ nv24 ∷ nv12_64z32 ∷ a420_10be
    ∷ a420_10le ∷ a422_10be ∷ a422_10le ∷ a444_10be ∷ a444_10le ∷ nv61 ∷ p010_10be ∷ p010_10le
    ∷ iyu2 ∷ vyuy ∷ gbra ∷ gbra_10be ∷ gbra_10le ∷ gbr_12be ∷ gbr_12le ∷ gbra_12be ∷ gbra_12le
    ∷ i420_12be ∷ i420_12le ∷ i422_12be ∷ i422_12le ∷ y444_12be ∷ y444_12le ∷ rgba_f16 ∷ rgba_f32
    ∷ xrgb_210le ∷ xbgr_210le ∷ rgbx_102le ∷ bgrx_102le ∷ argb_210le ∷ abgr_210le ∷ rgba_102le
    ∷ bgra_102le ∷ []

-- `Format::from`, with `#[num_enum(default)]`.
unfoldable pub format_from : ℕ → Format
unfolding format_default
format_from n = get_or all_formats n format_default

pub data Transfer : Type 0 where
  unknown_transfer srgb unorm snorm uint sint uscaled sscaled ufloat sfloat : Transfer
