-- ===== src/Client/Negotiation.antt =====
-- The negotiation of a stream's format: the offers of StreamImpl::new and the reaction of
-- on_param_changed, both in client/src/stream.rs.
pub mod Rounds
use pw_capture.Common.{
  ℕ, Bool, true, false, Option, none, some, List, [], ◌∷◌, ◌==◌, not, if◌then◌else◌,
}
use pw_capture.Client.Format.{Format}
use pw_capture.Client.Pod.{SpaSys, Value, VideoRawInfo, Parsed, ok, err, try_from}
use pw_capture.Client.Params.{Built, built, panics, build_format, build_stream_params}

pub record EnumFormatInfo : Type 0 where
  pub formats : List Format
  pub modifiers : List ℕ

pub record FixateFormat : Type 0 where
  pub modifier : Option ℕ
  pub num_planes : ℕ

-- What the stream is created with, as far as the negotiation reads it. `fixate_format` is the
-- callback of the capturing layer.
pub record StreamInfo : Type 0 where
  pub width : ℕ
  pub height : ℕ
  pub enum_formats : List EnumFormatInfo
  pub max_buffers : ℕ
  pub fixate_format : EnumFormatInfo → Option FixateFormat

-- Nothing is sent, the parameters are updated, or the code panics.
pub data Reaction : Type 0 where
  ignored : Reaction
  updates : List Value → Reaction
  aborts : Reaction

module _ (spa : SpaSys) (info : StreamInfo) where
  -- The loop over the formats to offer, here and in `StreamImpl::new`.
  unfoldable pub build_offers : List EnumFormatInfo → Built (List Value)
  build_offers [] = built []
  build_offers (e ∷ es) =
      let rest = build_offers es in
      elim (build_format spa info.width info.height e.formats e.modifiers false) [
        | panics ↦ panics
        | built v ↦ elim rest [ panics ↦ panics | built vs ↦ built (v ∷ vs) ]
      ]

  -- What the new stream connects with.
  unfoldable pub connect_params : Built (List Value)
  unfolding build_offers
  connect_params = build_offers info.enum_formats

  abbrev pub is_some : Option ℕ → Bool
  is_some none = false
  is_some (some m) = true

  -- The peer has left the modifier open: a fixed format first, then all offers again.
  unfoldable pub fixate_modifier : Format → Option ℕ → Reaction
  unfolding build_offers
  fixate_modifier format none = aborts
  fixate_modifier format (some m) =
      elim (build_format spa info.width info.height (format ∷ []) (m ∷ []) true) [
        | panics ↦ aborts
        | built fixed ↦ elim (build_offers info.enum_formats) [
          | panics ↦ aborts
          | built offers ↦ updates (fixed ∷ offers)
        ]
      ]

  unfoldable pub stream_params : FixateFormat → Reaction
  stream_params f =
      updates (build_stream_params spa info.max_buffers f.num_planes (is_some f.modifier))

  abbrev pub is_empty : List ℕ → Bool
  is_empty [] = true
  is_empty (m ∷ ms) = false

  -- `unwrap` of a missing modifier panics.
  unfoldable pub with_modifiers : VideoRawInfo → FixateFormat → Reaction
  unfolding fixate_modifier stream_params
  with_modifiers raw f = elim f.modifier [
    | none ↦ aborts
    | some m ↦
        if raw.dont_fixate_modifier then fixate_modifier raw.format (some m) else stream_params f
  ]

  unfoldable pub react : VideoRawInfo → Reaction
  unfolding with_modifiers stream_params
  react raw =
      elim (info.fixate_format (record { formats = raw.format ∷ []; modifiers = raw.modifiers })) [
        | none ↦ ignored
        | some f ↦ if is_empty raw.modifiers then stream_params f else with_modifiers raw f
      ]

  -- `param` is the parameter that PipeWire sent, if any; the inner `none` is one that does not
  -- parse.
  unfoldable pub on_param_changed : ℕ → Option (Option Value) → Reaction
  unfolding react
  on_param_changed id none = ignored
  on_param_changed id (some param) = if not (id == spa.param_format) then ignored else elim param [
    | none ↦ ignored
    | some pod ↦ elim (try_from spa pod) [ err e ↦ ignored | ok raw ↦ react raw ]
  ]
