-- ===== src/Client/Negotiation/Rounds.antt =====
-- How many rounds a negotiation takes, on_param_changed of client/src/stream.rs.
use pw_capture.Common.{
  ℕ, ◌≡◌, ◌↔◌, sym, ◌∙◌, refl, ◌≢◌, inl, inr, true, false, none, some, List, [], ◌∷◌, All, arith,
  ==_refl, Option-cases,
}
use pw_capture.Client.Format.{Format}
use pw_capture.Client.Pod.{SpaSys, HasKeys, Value, VideoRawInfo, ok, try_from}
use pw_capture.Client.Params.{built, build_format, build_stream_params}
use pw_capture.Client.Params.Formats.{IsU64, offered, asks_fixate, try_from-build_format}
use pw_capture.Client.Negotiation.{
  EnumFormatInfo, FixateFormat, StreamInfo, updates, aborts, build_offers, connect_params,
  fixate_modifier, stream_params, with_modifiers, react, on_param_changed,
}

-- Every format that is offered names a pixel format, and its modifiers are words.
abbrev pub IsOffer : EnumFormatInfo → Type 0
IsOffer e = (e.formats ≢ []) × All IsU64 e.modifiers

module _ (spa : SpaSys) (info : StreamInfo) (keys : HasKeys spa) where
  -- What a value tells its reader, for each offer.
  abbrev pub Tells : List EnumFormatInfo → List Value → Type 0
  Tells [] [] = Unit {0}
  Tells [] (v ∷ vs) = ⊥
  Tells (e ∷ es) [] = ⊥
  Tells (e ∷ es) (v ∷ vs) =
      ((raw : VideoRawInfo) × (try_from spa v ≡ ok raw)
        × (raw.modifiers ≡ offered e.modifiers false)
        × (raw.dont_fixate_modifier ≡ asks_fixate e.modifiers false))
      × Tells es vs

  offer :
      (e : EnumFormatInfo)
      → IsOffer e
      → (v : Value) × (build_format spa info.width info.height e.formats e.modifiers false
          ≡ built v)
        × ((raw : VideoRawInfo) × (try_from spa v ≡ ok raw)
            × (raw.modifiers ≡ offered e.modifiers false)
            × (raw.dont_fixate_modifier ≡ asks_fixate e.modifiers false))
  offer e h = go e.formats refl
    where
      go :
          (fs : List Format)
          → e.formats ≡ fs
          → (v : Value) × (build_format spa info.width info.height fs e.modifiers false ≡ built v)
            × ((raw : VideoRawInfo) × (try_from spa v ≡ ok raw)
                × (raw.modifiers ≡ offered e.modifiers false)
                × (raw.dont_fixate_modifier ≡ asks_fixate e.modifiers false))
      go [] eq = absurd (h.0 eq)
      go (f ∷ fs) eq =
          let (v, b, t) =
            try_from-build_format spa info.width info.height f fs e.modifiers false keys h.1 in
          (v, b, (_, t, refl, refl))

  offers :
      (es : List EnumFormatInfo)
      → All IsOffer es
      → (vs : List Value) × (build_offers spa info es ≡ built vs) × Tells es vs
  unfolding build_offers
  offers [] h = ([], refl, tt)
  offers (e ∷ es) h =
      let (v, b, t) = offer e h.0 in
      let (vs, bs, ts) = offers es h.1 in (v ∷ vs, rw (b, bs, build_offers) refl, (t, ts))

  module _ (valid : All IsOffer info.enum_formats) where
    -- A stream whose offers all name a pixel format and have 64-bit words as modifiers connects with
    -- one value for each of them, and each reads back with the offer's modifiers behind their
    -- default, to be fixed if it has any.
    pub connect_offers :
        (vs : List Value) × (connect_params spa info ≡ built vs) × Tells info.enum_formats vs
    unfolding connect_params
    connect_offers = offers info.enum_formats valid

    fixate_modifier_lem :
        (format : Format) (m : ℕ)
        → IsU64 m
        → (fixed : Value) × (vs : List Value) × (fixate_modifier spa info format (some m)
            ≡ updates (fixed ∷ vs))
          × (try_from spa fixed
              ≡ ok (record { format = format; dont_fixate_modifier = false; modifiers = m ∷ [] }))
    unfolding fixate_modifier
    fixate_modifier_lem format m h =
        let (fixed, b, t) =
          try_from-build_format spa info.width info.height format [] (m ∷ []) true keys (h, tt) in
        let (vs, bs, _) = offers info.enum_formats valid in
        (fixed, vs, rw (b, bs, fixate_modifier) refl, unfold offered asks_fixate in t)

    -- Let every offer name a pixel format and have 64-bit words as modifiers. Where the peer leaves
    -- a non-empty choice of modifiers open and the layer fixes a word of its own, and answers with
    -- a modifier when it is asked for that one alone, the first answer starts with a format that
    -- the peer can settle on: when the peer sends that format back, the buffer parameters follow,
    -- and no other round.
    pub rounds_end :
        (raw : VideoRawInfo) (m0 : ℕ) (ms : List ℕ) (f f' : FixateFormat) (m m' : ℕ)
        → raw.modifiers ≡ m0 ∷ ms
        → raw.dont_fixate_modifier ≡ true
        → info.fixate_format (record { formats = raw.format ∷ []; modifiers = raw.modifiers })
          ≡ some f
        → f.modifier ≡ some m
        → IsU64 m
        → info.fixate_format (record { formats = raw.format ∷ []; modifiers = m ∷ [] }) ≡ some f'
        → f'.modifier ≡ some m'
        → (fixed : Value) × (vs : List Value) × (react spa info raw ≡ updates (fixed ∷ vs))
          × (on_param_changed spa info spa.param_format (some (some fixed))
              ≡ updates (build_stream_params spa info.max_buffers f'.num_planes true))
    unfolding react with_modifiers on_param_changed stream_params
    rounds_end raw m0 ms f f' m m' em ed ef efm h ef' efm' =
        let (fixed, vs, e, t) = fixate_modifier_lem raw.format m h in
        (fixed, vs, ground (arith, e), ground (arith, t, ==_refl spa.param_format))

    abbrev asked : VideoRawInfo → EnumFormatInfo
    asked raw = record { formats = raw.format ∷ []; modifiers = raw.modifiers }

    -- Where every offer names a pixel format and has 64-bit words as modifiers, and the layer fixes
    -- such words only, the code panics on a parsed parameter exactly if the peer's format has modifiers and the layer answers without one.
    pub react-aborts_iff :
        (raw : VideoRawInfo)
        → ((f : FixateFormat)
            → (m : ℕ)
            → info.fixate_format (record { formats = raw.format ∷ []; modifiers = raw.modifiers })
              ≡ some f
            → f.modifier ≡ some m
            → IsU64 m)
        → (react spa info raw ≡ aborts) ↔ (
            (raw.modifiers ≢ [])
            × (f : FixateFormat) × (info.fixate_format
                  (record { formats = raw.format ∷ []; modifiers = raw.modifiers })
                ≡ some f)
            × (f.modifier ≡ none))
    unfolding react with_modifiers stream_params
    react-aborts_iff raw words = elim (Option-cases (info.fixate_format (asked raw))) [
      | inl e ↦ (λ h. absurd (ground arith), λ r. cc (e, r.2))
      | inr (f, e) ↦ elim (Option-cases f.modifier) [
        | inl n ↦ (λ h. ((λ z. ground (arith, e)), f, e, n), λ r. ground (arith, e, r.0))
        | inr (m, em) ↦
            let (fixed, vs, u, t) = fixate_modifier_lem raw.format m (words f m e em) in
            (
              λ h. absurd (ground (arith, e, em, u)),
              λ r. let same : some r.1 ≡ some f = sym r.2 ∙ e in absurd (ground (arith, same, r.3)),
            )
      ]
    ]
