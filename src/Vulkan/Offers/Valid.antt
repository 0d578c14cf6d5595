-- ===== src/Vulkan/Offers/Valid.antt =====
-- What the Vulkan layer's offers are for the client that negotiates them: create_stream of
-- vulkan/src/lib.rs against client/src/stream.rs.
use mathlib.Core.List.{nil≢cons}
use pw_capture.Common.{
  ℕ, ◌≢◌, sym, Bool, ◌==◌, List, [], ◌∷◌, ◌++◌, map, keep, any, All, arith, Bool-cases, inl, inr,
}
use pw_capture.Client.Format.{Format}
use pw_capture.Client.Negotiation.{EnumFormatInfo}
use pw_capture.Client.Negotiation.Rounds.{IsOffer}
use pw_capture.Client.Params.Formats.{IsU64}
use pw_capture.Vulkan.Formats.{VkFormats, VkFormatInfo}
use pw_capture.Vulkan.Offers.{
  PhysicalDevice, ModifierProps, same_modifiers, remove_zero, default_first, push_format,
  format_modifiers, push_unless_empty, stream_formats, offer_formats, enum_formats,
  get_supported_modifiers,
}

-- The driver's modifiers are 64-bit words.
abbrev pub IsWord : ModifierProps → Type 0
IsWord p = IsU64 p.drm_format_modifier

kept_words :
    (p : ModifierProps → Bool) (xs : List ModifierProps)
    → All IsWord xs
    → All IsU64 (map (λ m. m.drm_format_modifier) (keep p xs))
kept_words p [] h = tt
kept_words p (x ∷ xs) h = elim (Bool-cases (p x)) [
  | inl e ↦ rw e (h.0, kept_words p xs h.1)
  | inr e ↦ rw e (kept_words p xs h.1)
]

remove_zero_words : (ms : List ℕ) → All IsU64 ms → All IsU64 (remove_zero ms)
remove_zero_words [] h = tt
remove_zero_words (m ∷ ms) h = elim (Bool-cases (m == 0)) [
  | inl e ↦ rw e h.1
  | inr e ↦ rw e (h.0, remove_zero_words ms h.1)
]

default_first_words : (ms : List ℕ) → All IsU64 ms → All IsU64 (default_first ms)
unfolding default_first
default_first_words ms h = elim (Bool-cases (any (λ m. m == 0) ms)) [
  | inl e ↦ rw e (omega arith, remove_zero_words ms h)
  | inr e ↦ rw e h
]

snoc-IsCons : (f : Format) (fs : List Format) → (fs ++ f ∷ []) ≢ []
snoc-IsCons f [] e = nil≢cons (sym e)
snoc-IsCons f (g ∷ fs) e = nil≢cons (sym e)

push_format-IsOffer :
    (f : Format) (ms : List ℕ) (es : List EnumFormatInfo)
    → All IsU64 ms
    → All IsOffer es
    → All IsOffer (push_format f ms es)
unfolding push_format
push_format-IsOffer f ms [] w h = ((λ e. nil≢cons (sym e), w), tt)
push_format-IsOffer f ms (e ∷ es) w h = elim (Bool-cases (same_modifiers e.modifiers ms)) [
  | inl s ↦ rw s ((snoc-IsCons f e.formats, h.0.1), h.1)
  | inr s ↦ rw s (h.0, push_format-IsOffer f ms es w h.1)
]

module _ (vk : VkFormats) (phy : PhysicalDevice)
    (words : (f : ℕ) → All IsWord (phy.modifier_props f)) where
  pushed :
      (f : Format) (ms : List ℕ) (es : List EnumFormatInfo)
      → All IsU64 ms
      → All IsOffer es
      → All IsOffer (push_unless_empty vk phy f ms es)
  unfolding push_unless_empty
  pushed f [] es w h = h
  pushed f (m ∷ ms) es w h = push_format-IsOffer f (m ∷ ms) es w h

  format_words : (src : ℕ) (i : VkFormatInfo) → All IsU64 (format_modifiers vk phy src i)
  unfolding format_modifiers get_supported_modifiers
  format_words src i =
      default_first_words _ (kept_words _ (phy.modifier_props i.vk_format) (words i.vk_format))

  offered_formats :
      (src : ℕ) (is : List VkFormatInfo) (es : List EnumFormatInfo)
      → All IsOffer es
      → All IsOffer (offer_formats vk phy src is es)
  unfolding offer_formats
  offered_formats src [] es h = h
  offered_formats src (i ∷ is) es h =
      offered_formats src is _
        (pushed i.format (format_modifiers vk phy src i) es (format_words src i) h)

  -- Where the driver's modifiers are 64-bit words, every offer of the layer names a format and
  -- has words as modifiers, which is what the client's negotiation needs.
  pub enum_formats-IsOffer :
      (swapchain_format : ℕ) → All IsOffer (enum_formats vk phy swapchain_format)
  unfolding enum_formats
  enum_formats-IsOffer f = offered_formats _ (stream_formats vk phy f) [] tt
