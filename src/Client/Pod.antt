-- ===== src/Client/Pod.antt =====
-- The parameter values that go between the client and PipeWire, client/src/spa_utils.rs: which
-- values it builds, and how it reads a format back. The value types are those of the `libspa`
-- crate, as far as the code names them; its constants are the fields of `SpaSys`.
use pw_capture.Common.{ℕ, ℤ, ◌≢◌, Bool, false, List, [], ◌∷◌, map, ◌==◌, if◌then◌else◌, i64_as_u64}
use pw_capture.Client.Format.{Format, format_from}

-- `ChoiceEnum` of identifiers, integers or longs.
pub data ChoiceEnum (A : Type 0) : Type 0 where
  choice_none : A → ChoiceEnum A
  choice_range : A → A → A → ChoiceEnum A
  choice_step : A → A → A → A → ChoiceEnum A
  choice_enum : A → List A → ChoiceEnum A
  choice_flags : A → List A → ChoiceEnum A

pub record PropertyFlags : Type 0 where
  pub mandatory : Bool
  pub dont_fixate : Bool

abbrev pub no_flags : PropertyFlags
no_flags = record { mandatory = false; dont_fixate = false }

mutual
  pub data Value : Type 0 where
    id_value : ℕ → Value
    int_value long_value : ℤ → Value
    rectangle_value fraction_value : ℕ → ℕ → Value
    id_array : List ℕ → Value
    long_array : List ℤ → Value
    id_choice : ChoiceEnum ℕ → Value
    int_choice long_choice : ChoiceEnum ℤ → Value
    object_value : ℕ → ℕ → Properties → Value
    other_value : Value

  pub data Properties : Type 0 where
    nil : Properties
    property : ℕ → PropertyFlags → Value → Properties → Properties

-- The constants of `spa_sys`.
pub record SpaSys : Type 0 where
  pub type_object_format : ℕ
  pub type_object_param_buffers : ℕ
  pub type_object_param_meta : ℕ
  pub param_enum_format : ℕ
  pub param_format : ℕ
  pub param_buffers : ℕ
  pub param_meta : ℕ
  pub param_buffers_buffers : ℕ
  pub param_buffers_blocks : ℕ
  pub param_buffers_data_type : ℕ
  pub param_meta_type : ℕ
  pub param_meta_size : ℕ
  pub format_media_type : ℕ
  pub format_media_subtype : ℕ
  pub format_video_format : ℕ
  pub format_video_modifier : ℕ
  pub format_video_size : ℕ
  pub format_video_framerate : ℕ
  pub media_type_video : ℕ
  pub media_subtype_raw : ℕ
  pub data_invalid : ℕ
  pub data_mem_fd : ℕ
  pub data_dma_buf : ℕ
  pub meta_header : ℕ
  pub meta_cursor : ℕ
  pub sizeof_meta_header : ℕ
  pub sizeof_meta_cursor : ℕ
  pub sizeof_meta_bitmap : ℕ

-- The keys of a format object's properties differ.
pub record HasKeys (spa : SpaSys) : Type 0 where
  pub type_ne : spa.format_media_type ≢ spa.format_video_format
  pub subtype_ne : spa.format_media_subtype ≢ spa.format_video_format
  pub size_ne : spa.format_video_size ≢ spa.format_video_format
  pub framerate_ne : spa.format_video_framerate ≢ spa.format_video_format
  pub type_ne' : spa.format_media_type ≢ spa.format_video_modifier
  pub subtype_ne' : spa.format_media_subtype ≢ spa.format_video_modifier
  pub size_ne' : spa.format_video_size ≢ spa.format_video_modifier
  pub framerate_ne' : spa.format_video_framerate ≢ spa.format_video_modifier
  pub format_ne : spa.format_video_format ≢ spa.format_video_modifier

unfoldable pub choice_collect : {A : Type 0} → ChoiceEnum A → List A
choice_collect (choice_enum default alternatives) = default ∷ alternatives
choice_collect (choice_flags default flags) = default ∷ flags
choice_collect (choice_step default _ _ _) = default ∷ []
choice_collect (choice_range default _ _) = default ∷ []
choice_collect (choice_none value) = value ∷ []

unfoldable pub value_collect_id : Value → List ℕ
unfolding choice_collect
value_collect_id (id_array v) = v
value_collect_id (id_choice choice) = choice_collect choice
value_collect_id (id_value v) = v ∷ []
value_collect_id _ = []

unfoldable pub value_collect_long : Value → List ℤ
unfolding choice_collect
value_collect_long (long_array v) = v
value_collect_long (long_choice choice) = choice_collect choice
value_collect_long (long_value v) = v ∷ []
value_collect_long _ = []

pub record VideoRawInfo : Type 0 where
  pub format : Format
  pub dont_fixate_modifier : Bool
  pub modifiers : List ℕ

abbrev pub info_default : VideoRawInfo
info_default = record { format = Format.unknown; dont_fixate_modifier = false; modifiers = [] }

pub data ParseError : Type 0 where
  not_an_object not_a_format no_format : ParseError

pub data Parsed : Type 0 where
  ok : VideoRawInfo → Parsed
  err : ParseError → Parsed

module _ (spa : SpaSys) where
  -- The loop over the properties: a later one overwrites an earlier one.
  unfoldable pub read_properties : Properties → VideoRawInfo → Parsed
  unfolding value_collect_id value_collect_long
  read_properties nil info = ok info
  read_properties (property key flags value rest) info =
      let with_modifiers = read_properties rest (record info {
        dont_fixate_modifier = flags.dont_fixate;
        modifiers = map i64_as_u64 (value_collect_long value);
      }) in
      let skipped = read_properties rest info in
      if key == spa.format_video_format
      then elim (value_collect_id value) [
        | [] ↦ err no_format
        | id ∷ ids ↦ read_properties rest (record info { format = format_from id })
      ]
      else if key == spa.format_video_modifier
      then with_modifiers
      else skipped

  -- `VideoRawInfo::try_from`.
  unfoldable pub try_from : Value → Parsed
  unfolding read_properties
  try_from (object_value type id properties) =
      if type == spa.type_object_format
      then read_properties properties info_default
      else err not_a_format
  try_from _ = err not_an_object
