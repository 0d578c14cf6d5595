-- ===== src/Vulkan/Formats/Lookup.antt =====
-- The two ways to a transfer, the table and the name of the format, of
-- vulkan/src/utils/format_info.rs.
use pw_capture.Common.{
  ℕ, ◌≡◌, refl, subst, zero, suc, map, not, ◌&&◌, ==_refl, get_elem?, some, Bool, true, false,
  if◌then◌else◌, List, [], ◌∷◌, any, arith,
}
use pw_capture.Client.Format.{
  Format, format_into, Transfer, unknown_transfer, srgb, unorm, snorm, uint, sint, uscaled, sscaled,
  ufloat, sfloat,
}
use pw_capture.Vulkan.Formats.{
  VkLayout, VkFormats, Row, rows, full, same_transfer, same_format, transfer_number,
  vk_format_info_table, vk_format_get_transfer, client_info_in, client_format_get_info,
}

-- A transfer of integers or fixed-point numbers.
abbrev pub has_no_floats : Transfer → Bool
has_no_floats unknown_transfer = false
has_no_floats ufloat = false
has_no_floats sfloat = false
has_no_floats _ = true

-- The test of client_format_get_info on two rows.
unfoldable same_row : Row → Row → Bool
same_row a b = same_format a.format b.format && same_transfer a.transfer b.transfer

-- No two rows have the same client format and transfer.
unfoldable apart : List Row → Bool
unfolding same_row
apart [] = true
apart (r ∷ rs) = not (any (same_row r) rs) && apart rs

not_same :
    (p : Row → Bool) (rs : List Row) (i : ℕ) (r : Row)
    → get_elem? rs i ≡ some r
    → any p rs ≡ false
    → p r ≡ false
not_same p [] i r k h = ground (arith, k)
not_same p (x ∷ rs) zero r k h =
    let q : x ≡ r = ground (arith, k) in subst (λ y. p y ≡ false) q (ground (arith, h))
not_same p (x ∷ rs) (suc i) r k h = not_same p rs i r k (ground (arith, h))

rows-apart : apart rows ≡ true
unfolding apart format_into
rows-apart = refl

module _ (vk : VkFormats) where
  first_row :
      (r : Row) (xs : List Row)
      → client_info_in vk (map (full vk) (r ∷ xs)) r.format r.transfer ≡ full vk r
  unfolding client_info_in
  first_row r xs =
      ground (arith, ==_refl (format_into r.format), ==_refl (transfer_number r.transfer))

  found_row :
      (xs : List Row) (i : ℕ) (r : Row)
      → get_elem? xs i ≡ some r
      → apart xs ≡ true
      → client_info_in vk (map (full vk) xs) r.format r.transfer ≡ full vk r
  unfolding client_info_in apart same_row
  found_row [] i r k h = ground (arith, k)
  found_row (x ∷ xs) zero r k h =
      let q : x ≡ r = ground (arith, k) in
      subst (λ y. client_info_in vk (map (full vk) (x ∷ xs)) y.format y.transfer ≡ full vk y) q
        (first_row x xs)
  found_row (x ∷ xs) (suc i) r k h =
      let other = not_same (same_row x) xs i r k (ground (arith, h)) in
      ground (arith, other, found_row xs i r k (ground (arith, h)))

  past_rows :
      (f : Format) (t : Transfer) (xs : List Row)
      → any (λ r. same_transfer r.transfer t) xs ≡ false
      → (client_info_in vk (map (full vk) xs) f t).vk_format ≡ vk.undefined
  unfolding client_info_in
  past_rows f t [] h = refl
  past_rows f t (r ∷ xs) h = ground (arith, h, past_rows f t xs)

module _ (vk : VkFormats)
    (names : (l : VkLayout) (t t' : Transfer)
      → vk.name_contains (vk.full_fmt l t) t' ≡ same_transfer t t') where
  transfer_of_name :
      (l : VkLayout) (t : Transfer)
      → vk_format_get_transfer vk (vk.full_fmt l t)
        ≡ (if has_no_floats t then t else unknown_transfer)
  unfolding vk_format_get_transfer
  transfer_of_name l t =
      rw
        (
          names l t srgb,
          names l t unorm,
          names l t uint,
          names l t uscaled,
          names l t snorm,
          names l t sint,
          names l t sscaled,
        )
        (tests t)
    where
      tests :
          (t : Transfer)
          → (if same_transfer t srgb
              then srgb
              else if same_transfer t unorm
              then unorm
              else if same_transfer t uint
              then uint
              else if same_transfer t uscaled
              then uscaled
              else if same_transfer t snorm
              then snorm
              else if same_transfer t sint
              then sint
              else if same_transfer t sscaled
              then sscaled
              else unknown_transfer)
            ≡ (if has_no_floats t then t else unknown_transfer)
      tests unknown_transfer = refl
      tests srgb = refl
      tests unorm = refl
      tests snorm = refl
      tests uint = refl
      tests sint = refl
      tests uscaled = refl
      tests sscaled = refl
      tests ufloat = refl
      tests sfloat = refl

  -- The format of a row of the table without floats is found again from its client format and the
  -- transfer that its Vulkan name tells.
  pub client_format_get_info-transfer :
      (i : ℕ) (r : Row)
      → get_elem? rows i ≡ some r
      → has_no_floats r.transfer ≡ true
      → client_format_get_info vk r.format
          (vk_format_get_transfer vk (vk.full_fmt r.layout r.transfer))
        ≡ full vk r
  unfolding client_format_get_info vk_format_info_table
  client_format_get_info-transfer i r k h =
      rw (transfer_of_name r.layout r.transfer, h) (found_row vk rows i r k rows-apart)

  -- No client format is found from the transfer that the name of a format of floats tells.
  pub client_format_get_info-floats :
      (l : VkLayout) (f : Format)
      → (client_format_get_info vk f (vk_format_get_transfer vk (vk.full_fmt l sfloat))).vk_format
        ≡ vk.undefined
  unfolding client_format_get_info vk_format_info_table
  client_format_get_info-floats l f =
      rw (transfer_of_name l sfloat) (past_rows vk f unknown_transfer rows refl)
