-- ===== src/Gl/Negotiation/Rounds.antt =====
-- The negotiation of an OpenGL capture's stream, run by the client.
use pw_capture.Common.{ℕ, ◌≡◌, ◌≢◌, refl, true, false, ==_refl, some, List, [], ◌∷◌, All, arith}
use pw_capture.Client.Format.{Format, format_into}
use pw_capture.Client.Pod.{SpaSys, HasKeys, Value, VideoRawInfo, ok, try_from}
use pw_capture.Client.Params.{built, build_stream_params}
use pw_capture.Client.Params.Formats.{IsU64, offered, asks_fixate, try_from-build_format}
use pw_capture.Client.Negotiation.{
  FixateFormat, updates, build_offers, connect_params, react, on_param_changed,
}
use pw_capture.Client.Negotiation.Rounds.{IsOffer, rounds_end}
use pw_capture.Gl.Negotiation.{first, fixate_format, create_stream}

fixate_format-own :
    (format : Format) (modifier num_planes : ℕ) (ms : List ℕ)
    → fixate_format format modifier num_planes
        (record { formats = format ∷ []; modifiers = modifier ∷ ms })
      ≡ some (record { modifier = some modifier; num_planes = num_planes })
unfolding fixate_format first
fixate_format-own format modifier num_planes ms =
    rw (==_refl (format_into format), ==_refl modifier) refl

cons_null : (f : Format) → (f ∷ []) ≢ []
cons_null f e = ground arith

module _ (spa : SpaSys) (keys : HasKeys spa) (format : Format)
    (modifier num_planes max_buffers width height : ℕ) where
  -- The stream of an OpenGL capture connects with one offer, which reads back as its one format and
  -- its modifier behind that as the default, to be fixed, and the negotiation ends in two rounds: a peer that leaves the offered modifier open is answered with the format fixed, and
  -- when it sends that back, the buffers' parameters follow, of the number of planes that the
  -- textures have.
  pub create_stream-rounds :
      (raw : VideoRawInfo) (ms : List ℕ)
      → IsU64 modifier
      → raw.format ≡ format
      → raw.modifiers ≡ modifier ∷ ms
      → raw.dont_fixate_modifier ≡ true
      → ((vs : List Value) × (connect_params spa
              (create_stream format modifier num_planes max_buffers width height)
            ≡ built vs)
          × ((v : Value) × (vs ≡ v ∷ [])
              × (try_from spa v
                  ≡ ok (record {
                    format = format;
                    dont_fixate_modifier = true;
                    modifiers = modifier ∷ modifier ∷ [];
                  }))))
        × ((fixed : Value) × (vs : List Value) × (react spa
                (create_stream format modifier num_planes max_buffers width height)
                raw
              ≡ updates (fixed ∷ vs))
            × (on_param_changed spa
                  (create_stream format modifier num_planes max_buffers width height)
                  spa.param_format
                  (some (some fixed))
                ≡ updates (build_stream_params spa max_buffers num_planes true)))
  unfolding create_stream connect_params build_offers
  create_stream-rounds raw ms h f m d =
      let info = create_stream format modifier num_planes max_buffers width height in
      let valid : All IsOffer info.enum_formats = ((cons_null format, (h, tt)), tt) in
      let fixed : FixateFormat = record { modifier = some modifier; num_planes = num_planes } in
      let (v, b, t) =
        try_from-build_format spa width height format [] (modifier ∷ []) false keys (h, tt) in
      (
        (
          v ∷ [],
          rw (b, connect_params, build_offers) refl,
          (v, refl, unfold offered asks_fixate in t),
        ),
        rounds_end spa info keys valid raw modifier ms fixed fixed modifier modifier m d
            (rw (f, m) (fixate_format-own format modifier num_planes ms)) refl h
            (rw f (fixate_format-own format modifier num_planes [])) refl,
      )
