-- ===== src/Client/Params/Formats.antt =====
-- A format that the client builds reads back, build_format of client/src/stream.rs against
-- VideoRawInfo::try_from of client/src/spa_utils.rs.
use pw_capture.Common.{
  ℕ, ◌<◌, ◌^◌, ◌≡◌, ◌≢◌, refl, Bool, true, false, List, [], ◌∷◌, map, All, arith, u64_as_i64,
  i64_as_u64, i64_as_u64-u64_as_i64, ==_refl,
}
use pw_capture.Client.Format.{Format}
use pw_capture.Client.Format.Numbers.{format_from-format_into}
use pw_capture.Client.Pod.{
  property, PropertyFlags, SpaSys, HasKeys, VideoRawInfo, ok, try_from, read_properties, Value,
  Properties, info_default,
}
use pw_capture.Client.Params.{built, build_format, format_value, modifier_property}

abbrev pub IsU64 : ℕ → Type 0
IsU64 m = m < 2 ^ 64

i64_round : (ms : List ℕ) → All IsU64 ms → map i64_as_u64 (map u64_as_i64 ms) ≡ ms
i64_round [] h = refl
i64_round (m ∷ ms) h = ground (arith, i64_as_u64-u64_as_i64 m h.0, i64_round ms h.1)

-- What a reader is to learn of the modifiers: a fixed format carries the first one, an offer all
-- of them behind the default, which is the first again.
unfoldable pub offered : List ℕ → Bool → List ℕ
offered [] fixate = []
offered (m ∷ ms) true = m ∷ []
offered (m ∷ ms) false = m ∷ m ∷ ms

unfoldable pub asks_fixate : List ℕ → Bool → Bool
asks_fixate [] fixate = false
asks_fixate (m ∷ ms) true = false
asks_fixate (m ∷ ms) false = true

module _ (spa : SpaSys) (keys : HasKeys spa) where
  read_skip :
      (key : ℕ) (flags : PropertyFlags) (v : Value) (rest : Properties) (info : VideoRawInfo)
      → key ≢ spa.format_video_format
      → key ≢ spa.format_video_modifier
      → read_properties spa (property key flags v rest) info ≡ read_properties spa rest info
  unfolding read_properties
  read_skip key flags v rest info a b = ground arith

  read_format :
      (f : Format) (fs : List Format) (flags : PropertyFlags) (rest : Properties)
      (info : VideoRawInfo)
      → read_properties spa
          (property spa.format_video_format flags (format_value spa f fs) rest)
          info
        ≡ read_properties spa rest (record info { format = f })
  unfolding read_properties format_value
  read_format f [] flags rest info =
      ground (arith, ==_refl spa.format_video_format, format_from-format_into f)
  read_format f (g ∷ fs) flags rest info =
      ground (arith, ==_refl spa.format_video_format, format_from-format_into f)

  read_modifiers :
      (ms : List ℕ) (fixate : Bool) (f : Format)
      → All IsU64 ms
      → read_properties spa (modifier_property spa ms fixate) (record info_default { format = f })
        ≡ ok (record {
          format = f;
          dont_fixate_modifier = asks_fixate ms fixate;
          modifiers = offered ms fixate;
        })
  unfolding read_properties modifier_property asks_fixate offered
  read_modifiers [] fixate f h = refl
  read_modifiers (m ∷ ms) true f h =
      ground (arith, keys.format_ne, ==_refl spa.format_video_modifier, i64_as_u64-u64_as_i64 m h.0)
  read_modifiers (m ∷ ms) false f h = ground (
    arith,
    keys.format_ne,
    ==_refl spa.format_video_modifier,
    i64_as_u64-u64_as_i64 m h.0,
    i64_round ms h.1,
  )

-- Where the keys of a format differ, a built format whose modifiers are 64-bit words reads back as
-- its first format, with the offered modifiers, and asks for a modifier to be fixed exactly if it
-- carries modifiers and is not fixed itself.
pub try_from-build_format :
    (spa : SpaSys) (width height : ℕ) (f : Format) (fs : List Format) (modifiers : List ℕ)
    (fixate : Bool)
    → HasKeys spa
    → All IsU64 modifiers
    → (v : Value) × (build_format spa width height (f ∷ fs) modifiers fixate ≡ built v)
      × (try_from spa v
          ≡ ok (record {
            format = f;
            dont_fixate_modifier = asks_fixate modifiers fixate;
            modifiers = offered modifiers fixate;
          }))
unfolding build_format try_from
try_from-build_format spa width height f fs modifiers fixate k h = (
  _,
  refl,
  rw
      (
        ==_refl spa.type_object_format,
        read_skip spa k spa.format_media_type _ _ _ _ k.type_ne k.type_ne',
        read_skip spa k spa.format_media_subtype _ _ _ _ k.subtype_ne k.subtype_ne',
        read_format spa k f fs,
        read_skip spa k spa.format_video_size _ _ _ _ k.size_ne k.size_ne',
        read_skip spa k spa.format_video_framerate _ _ _ _ k.framerate_ne k.framerate_ne',
      )
      (read_modifiers spa k modifiers fixate f h),
)
