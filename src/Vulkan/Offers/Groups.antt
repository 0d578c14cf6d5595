-- ===== src/Vulkan/Offers/Groups.antt =====
-- The grouping of formats by modifiers in create_stream of vulkan/src/lib.rs.
use mathlib.Core.List.{Perm, perm_append_comm, perm_middle, append_assoc, map-append, append-nil}
use mathlib.Core.List.Perm
use pw_capture.Common.{
  ℕ, ◌≡◌, refl, subst, Bool, true, false, ◌&&◌, ==_iff, ==_refl, if◌then◌else◌, List, [], ◌∷◌, ◌++◌,
  map, arith, Bool-cases, inl, inr,
}
use pw_capture.Client.Format.{Format}
use pw_capture.Client.Negotiation.{EnumFormatInfo}
use pw_capture.Vulkan.Formats.{VkFormats, VkFormatInfo, vk_format_get_info}
use pw_capture.Vulkan.Offers.{
  PhysicalDevice, same_modifiers, push_format, format_modifiers, push_unless_empty, stream_formats,
  offer_formats, enum_formats,
}

same_modifiers_sound : (xs ys : List ℕ) → same_modifiers xs ys ≡ true → xs ≡ ys
same_modifiers_sound [] [] e = refl
same_modifiers_sound [] (y ∷ ys) e = ground (arith, e)
same_modifiers_sound (x ∷ xs) [] e = ground (arith, e)
same_modifiers_sound (x ∷ xs) (y ∷ ys) e =
    let h : x ≡ y = (==_iff x y).0 (ground (arith, e)) in
    let t : xs ≡ ys = same_modifiers_sound xs ys (ground (arith, e)) in rw (h, t) refl

same_modifiers_refl : (xs : List ℕ) → same_modifiers xs xs ≡ true
same_modifiers_refl [] = refl
same_modifiers_refl (x ∷ xs) = rw (==_refl x) (same_modifiers_refl xs)

same_modifiers_sym : (xs ys : List ℕ) → same_modifiers xs ys ≡ false → same_modifiers ys xs ≡ false
same_modifiers_sym xs ys d = elim (Bool-cases (same_modifiers ys xs)) [
  | inr e ↦ e
  | inl e ↦
      let same =
        subst (λ zs. same_modifiers zs ys ≡ true) (same_modifiers_sound ys xs e)
          (same_modifiers_refl ys) in
      ground (arith, d, same)
]

-- The formats of an offer, each with the offer's modifiers.
pub pairs_of : EnumFormatInfo → List (Format × List ℕ)
pairs_of e = map (λ f. (f, e.modifiers)) e.formats

pub pairs : List EnumFormatInfo → List (Format × List ℕ)
unfolding pairs_of
pairs [] = []
pairs (e ∷ es) = pairs_of e ++ pairs es

-- The offers' modifiers are pairwise different.
pub absent : List ℕ → List EnumFormatInfo → Bool
absent ms [] = true
absent ms (e ∷ es) = if same_modifiers e.modifiers ms then false else absent ms es

pub distinct : List EnumFormatInfo → Bool
unfolding absent
distinct [] = true
distinct (e ∷ es) = absent e.modifiers es && distinct es

pushed :
    (f : Format) (e : EnumFormatInfo) (rest : List (Format × List ℕ))
    → Perm
        (map (λ g. (g, e.modifiers)) (e.formats ++ f ∷ []) ++ rest)
        ((f, e.modifiers) ∷ pairs_of e ++ rest)
unfolding pairs_of
pushed f e rest =
    rw (map-append {B = Format × List ℕ} (λ g. (g, e.modifiers)) e.formats (f ∷ []), append_assoc)
      (perm_middle (pairs_of e) rest)

push_format-pairs :
    (f : Format) (ms : List ℕ) (es : List EnumFormatInfo)
    → Perm (pairs (push_format f ms es)) ((f, ms) ∷ pairs es)
unfolding pairs pairs_of push_format
push_format-pairs f ms [] = Perm.refl _
push_format-pairs f ms (e ∷ es) = elim (Bool-cases (same_modifiers e.modifiers ms)) [
  | inl s ↦ rw s (
      subst
        (λ m.
          Perm (map (λ g. (g, e.modifiers)) (e.formats ++ f ∷ []) ++ pairs es)
            ((f, m) ∷ pairs_of e ++ pairs es))
        (same_modifiers_sound e.modifiers ms s) (pushed f e (pairs es)))
  | inr s ↦ rw s (
      Perm.trans (Perm.append_left (pairs_of e) (push_format-pairs f ms es))
        (perm_middle (pairs_of e) (pairs es)))
]

push_format-absent :
    (f : Format) (ms ns : List ℕ) (es : List EnumFormatInfo)
    → same_modifiers ms ns ≡ false
    → absent ns es ≡ true
    → absent ns (push_format f ms es) ≡ true
unfolding absent push_format
push_format-absent f ms ns [] d h = ground (arith, d)
push_format-absent f ms ns (e ∷ es) d h = ground (arith, d, h, push_format-absent f ms ns es d)

push_format-distinct :
    (f : Format) (ms : List ℕ) (es : List EnumFormatInfo)
    → distinct es ≡ true
    → distinct (push_format f ms es) ≡ true
unfolding distinct absent push_format
push_format-distinct f ms [] h = refl
push_format-distinct f ms (e ∷ es) h = elim (Bool-cases (same_modifiers e.modifiers ms)) [
  | inl s ↦ rw s h
  | inr s ↦
      let a =
        push_format-absent f ms e.modifiers es (same_modifiers_sym e.modifiers ms s)
          (ground (arith, h)) in
      let d = push_format-distinct f ms es (ground (arith, h)) in rw s (ground (arith, a, d))
]

-- What is asked for one format.
pub wanted : Format → List ℕ → List (Format × List ℕ)
wanted f [] = []
wanted f (m ∷ ms) = (f, m ∷ ms) ∷ []

module _ (vk : VkFormats) (phy : PhysicalDevice) where
  pub all_wanted : ℕ → List VkFormatInfo → List (Format × List ℕ)
  unfolding wanted
  all_wanted src [] = []
  all_wanted src (i ∷ is) = wanted i.format (format_modifiers vk phy src i) ++ all_wanted src is

  push-pairs :
      (f : Format) (ms : List ℕ) (es : List EnumFormatInfo)
      → Perm (pairs (push_unless_empty vk phy f ms es)) (wanted f ms ++ pairs es)
  unfolding push_unless_empty wanted
  push-pairs f [] es = Perm.refl _
  push-pairs f (m ∷ ms) es = push_format-pairs f (m ∷ ms) es

  offer_formats-pairs :
      (src : ℕ) (is : List VkFormatInfo) (es : List EnumFormatInfo)
      → Perm (pairs (offer_formats vk phy src is es)) (all_wanted src is ++ pairs es)
  unfolding offer_formats all_wanted
  offer_formats-pairs src [] es = Perm.refl _
  offer_formats-pairs src (i ∷ is) es =
      let ms = format_modifiers vk phy src i in
      let rest = all_wanted src is in
      Perm.trans (offer_formats-pairs src is (push_unless_empty vk phy i.format ms es)) (
        Perm.trans (Perm.append_left rest (push-pairs i.format ms es)) (
          rw (← append_assoc)
            (Perm.append_right (pairs es) (perm_append_comm rest (wanted i.format ms)))))

  push-distinct :
      (f : Format) (ms : List ℕ) (es : List EnumFormatInfo)
      → distinct es ≡ true
      → distinct (push_unless_empty vk phy f ms es) ≡ true
  unfolding push_unless_empty
  push-distinct f [] es h = h
  push-distinct f (m ∷ ms) es h = push_format-distinct f (m ∷ ms) es h

  offer_formats-distinct :
      (src : ℕ) (is : List VkFormatInfo) (es : List EnumFormatInfo)
      → distinct es ≡ true
      → distinct (offer_formats vk phy src is es) ≡ true
  unfolding offer_formats
  offer_formats-distinct src [] es h = h
  offer_formats-distinct src (i ∷ is) es h =
      offer_formats-distinct src is _ (push-distinct i.format (format_modifiers vk phy src i) es h)

  -- The offers of a swapchain are its formats that have modifiers, each of them once and with its
  -- own modifiers, and no two offers have the same modifiers.
  pub enum_formats-groups :
      (swapchain_format : ℕ)
      → Perm (pairs (enum_formats vk phy swapchain_format)) (
          all_wanted
            (vk_format_get_info vk swapchain_format).vk_format
            (stream_formats vk phy swapchain_format))
        × (distinct (enum_formats vk phy swapchain_format) ≡ true)
  unfolding enum_formats distinct pairs
  enum_formats-groups f =
      let src = (vk_format_get_info vk f).vk_format in
      let formats = stream_formats vk phy f in
      (
        subst (λ l. Perm (pairs (offer_formats vk phy src formats [])) l)
            (append-nil (all_wanted src formats)) (offer_formats-pairs src formats []),
        offer_formats-distinct src formats [] refl,
      )
