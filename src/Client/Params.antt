-- ===== src/Client/Params.antt =====
-- The parameters that the client offers, build_format and build_stream_params of
-- client/src/stream.rs. The bytes of a value are left to `libspa`: the builders return the value
-- that they serialize, and `panics` where the source's assertion fails.
pub mod Formats
use pw_capture.Common.{
  ℕ, ℤ, pos, ◌+◌, ◌*◌, ◌^◌, max, Bool, true, false, List, [], ◌∷◌, map, if◌then◌else◌, u64_as_i64,
  as_i32,
}
use pw_capture.Client.Format.{Format, format_into}
use pw_capture.Client.Pod.{
  SpaSys, ChoiceEnum, choice_range, choice_enum, choice_flags, PropertyFlags, no_flags, Value,
  id_value, int_value, long_value, rectangle_value, fraction_value, id_choice, int_choice,
  long_choice, object_value, Properties, nil, property,
}

abbrev pub max_cursor_width : ℕ
max_cursor_width = 64

abbrev pub max_cursor_bpp : ℕ
max_cursor_bpp = 4

abbrev pub max_cursor_bitmap_size : ℕ
max_cursor_bitmap_size = max_cursor_width * max_cursor_width * max_cursor_bpp

pub data Built (A : Type 0) : Type 0 where
  built : A → Built A
  panics : Built A

module _ (spa : SpaSys) where
  -- Three objects: the buffers, the header metadata and the cursor metadata.
  unfoldable pub build_stream_params : ℕ → ℕ → Bool → List Value
  build_stream_params max_buffers blocks is_dma_buf =
      let data_type_flag = 2 ^ (if is_dma_buf then spa.data_dma_buf else spa.data_mem_fd) in
      let buffers = object_value spa.type_object_param_buffers spa.param_buffers (
        property spa.param_buffers_buffers no_flags
          (int_choice (choice_range (pos 8) (pos 1) (as_i32 max_buffers)))
          (property spa.param_buffers_blocks no_flags (int_value (as_i32 (max blocks 1))) (
            property spa.param_buffers_data_type no_flags
              (int_choice (choice_flags (as_i32 data_type_flag) [])) nil))) in
      let meta_header = object_value spa.type_object_param_meta spa.param_meta (
        property spa.param_meta_type no_flags (id_value spa.meta_header) (
          property spa.param_meta_size no_flags (int_value (as_i32 spa.sizeof_meta_header)) nil)) in
      let cursor_meta_size =
        spa.sizeof_meta_cursor + spa.sizeof_meta_bitmap + max_cursor_bitmap_size in
      let meta_cursor = object_value spa.type_object_param_meta spa.param_meta (
        property spa.param_meta_type no_flags (id_value spa.meta_cursor)
          (property spa.param_meta_size no_flags (int_value (as_i32 cursor_meta_size)) nil)) in
      buffers ∷ meta_header ∷ meta_cursor ∷ []

  -- One format is a plain identifier, several are a choice with the first as the default.
  unfoldable pub format_value : Format → List Format → Value
  format_value f [] = id_value (format_into f)
  format_value f (g ∷ fs) = id_choice (choice_enum (format_into f) (map format_into (f ∷ g ∷ fs)))

  unfoldable pub modifier_property : List ℕ → Bool → Properties
  modifier_property [] fixate = nil
  modifier_property (m ∷ ms) true =
      property spa.format_video_modifier (record { mandatory = true; dont_fixate = false })
        (long_value (u64_as_i64 m)) nil
  modifier_property (m ∷ ms) false =
      property spa.format_video_modifier (record { mandatory = true; dont_fixate = true })
        (long_choice (choice_enum (u64_as_i64 m) (map u64_as_i64 (m ∷ ms)))) nil

  unfoldable pub build_format : ℕ → ℕ → List Format → List ℕ → Bool → Built Value
  unfolding format_value modifier_property
  build_format width height [] modifiers fixate = panics
  build_format width height (f ∷ fs) modifiers fixate = built (
      object_value spa.type_object_format spa.param_enum_format (
        property spa.format_media_type no_flags (id_value spa.media_type_video) (
          property spa.format_media_subtype no_flags (id_value spa.media_subtype_raw) (
            property spa.format_video_format no_flags (format_value f fs) (
              property spa.format_video_size no_flags (rectangle_value width height) (
                property spa.format_video_framerate no_flags (fraction_value 0 1)
                  (modifier_property modifiers fixate)))))))
