-- ===== src/Client/Tests.antt =====
-- The client on concrete inputs.

use pw_capture.Common.{
  pos, ◌≡◌, ◌≢◌, ◌↔◌, refl, true, false, Option, none, some, List, [], ◌∷◌, arith, All,
}
use pw_capture.Client.Format.{bgra, rgba}
use pw_capture.Client.Pod.{SpaSys, HasKeys, Value, VideoRawInfo, try_from, ok}
use pw_capture.Client.Params.{built, build_format, build_stream_params}
use pw_capture.Client.Params.Formats.{offered, asks_fixate, try_from-build_format}
use pw_capture.Client.Negotiation.{
  EnumFormatInfo, FixateFormat, StreamInfo, updates, aborts, react, on_param_changed,
}
use pw_capture.Client.Negotiation.Rounds.{IsOffer, rounds_end, react-aborts_iff}
use pw_capture.Client.Stream.Types.{CursorMeta, BitmapMeta, Point}

abbrev pub spa : SpaSys
spa = record {
  type_object_format = 1;
  type_object_param_buffers = 2;
  type_object_param_meta = 3;
  param_enum_format = 3;
  param_format = 4;
  param_buffers = 5;
  param_meta = 6;
  param_buffers_buffers = 1;
  param_buffers_blocks = 2;
  param_buffers_data_type = 6;
  param_meta_type = 1;
  param_meta_size = 2;
  format_media_type = 1;
  format_media_subtype = 2;
  format_video_format = 3;
  format_video_modifier = 4;
  format_video_size = 5;
  format_video_framerate = 6;
  media_type_video = 2;
  media_subtype_raw = 1;
  data_invalid = 0;
  data_mem_fd = 2;
  data_dma_buf = 3;
  meta_header = 1;
  meta_cursor = 5;
  sizeof_meta_header = 32;
  sizeof_meta_cursor = 28;
  sizeof_meta_bitmap = 20;
}

pub keys : HasKeys spa
keys = record {
  type_ne = λ e. ground (arith, e);
  subtype_ne = λ e. ground (arith, e);
  size_ne = λ e. ground (arith, e);
  framerate_ne = λ e. ground (arith, e);
  type_ne' = λ e. ground (arith, e);
  subtype_ne' = λ e. ground (arith, e);
  size_ne' = λ e. ground (arith, e);
  framerate_ne' = λ e. ground (arith, e);
  format_ne = λ e. ground (arith, e);
}

abbrev pub first_modifier : EnumFormatInfo → Option FixateFormat
first_modifier e = some (record { modifier = some 0; num_planes = 1 })

abbrev pub info : StreamInfo
info = record {
  width = 640;
  height = 480;
  enum_formats = record { formats = bgra ∷ []; modifiers = 0 ∷ 7 ∷ [] } ∷ [];
  max_buffers = 16;
  fixate_format = first_modifier;
}

offers_valid : All IsOffer info.enum_formats
offers_valid = ((λ e. ground (arith, e), (omega arith, (omega arith, tt))), tt)

abbrev open_format : VideoRawInfo
open_format = record { format = bgra; dont_fixate_modifier = true; modifiers = 0 ∷ 7 ∷ [] }

abbrev linear : FixateFormat
linear = record { modifier = some 0; num_planes = 1 }

rounds_end_example :
    (fixed : Value) × (vs : List Value) × (react spa info open_format ≡ updates (fixed ∷ vs))
    × (on_param_changed spa info spa.param_format (some (some fixed))
        ≡ updates (build_stream_params spa 16 1 true))
rounds_end_example =
    rounds_end spa info keys offers_valid open_format 0 (7 ∷ []) linear linear 0 0 refl refl refl
      refl (omega arith) refl refl

react-aborts_iff_example : (react spa info open_format ≡ aborts) ↔ (
    (open_format.modifiers ≢ [])
    × (f : FixateFormat) × (first_modifier (record { formats = bgra ∷ []; modifiers = 0 ∷ 7 ∷ [] })
        ≡ some f)
    × (f.modifier ≡ none))
react-aborts_iff_example =
    react-aborts_iff spa info keys offers_valid open_format (λ f m e k. ground (arith, e, k))

try_from-build_format_example :
    (v : Value) × (build_format spa 640 480 (bgra ∷ rgba ∷ []) (0 ∷ 7 ∷ []) false ≡ built v)
    × (try_from spa v
        ≡ ok (record {
          format = bgra;
          dont_fixate_modifier = asks_fixate (0 ∷ 7 ∷ []) false;
          modifiers = offered (0 ∷ 7 ∷ []) false;
        }))
try_from-build_format_example =
    try_from-build_format spa 640 480 bgra (rgba ∷ []) (0 ∷ 7 ∷ []) false keys
      (omega arith, (omega arith, tt))

abbrev pub no_bitmap : BitmapMeta
no_bitmap = record { format = 0; width = 0; height = 0; stride = pos 0; offset = 0; pixels = [] }

abbrev pub origin : Point
origin = record { x = pos 0; y = pos 0 }

abbrev pub hidden : CursorMeta
hidden = record {
  id = 0;
  flags = 0;
  position = origin;
  hotspot = origin;
  bitmap_offset = 0;
  bitmap = no_bitmap;
}
