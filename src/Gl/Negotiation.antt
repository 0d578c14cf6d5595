-- ===== src/Gl/Negotiation.antt =====
-- The stream of an OpenGL capture: create_stream of gl/src/interface/implementation.rs, as what the
-- stream is created with.
pub mod Rounds
use pw_capture.Common.{ℕ, Bool, not, ◌==◌, ◌||◌, if◌then◌else◌, Option, none, some, List, [], ◌∷◌}
use pw_capture.Client.Format.{Format, format_into}
use pw_capture.Client.Negotiation.{EnumFormatInfo, FixateFormat, StreamInfo}

-- The first of a list, with what follows for it.
unfoldable pub first : {A B : Type 0} → List A → (A → Option B) → Option B
first [] f = none
first (x ∷ xs) f = f x

-- The closure given to the stream.
unfoldable pub fixate_format : Format → ℕ → ℕ → EnumFormatInfo → Option FixateFormat
unfolding first
fixate_format format modifier num_planes e = first e.formats (λ f. first e.modifiers (λ m.
    if not (format_into f == format_into format) || not (m == modifier)
    then none
    else some (record { modifier = some modifier; num_planes = num_planes })))

unfoldable pub create_stream : Format → ℕ → ℕ → ℕ → ℕ → ℕ → StreamInfo
unfolding fixate_format
create_stream format modifier num_planes max_buffers width height = record {
  width = width;
  height = height;
  enum_formats = record { formats = format ∷ []; modifiers = modifier ∷ [] } ∷ [];
  max_buffers = max_buffers;
  fixate_format = fixate_format format modifier num_planes;
}
