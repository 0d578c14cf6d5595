-- ===== src/Client/Format/Numbers.antt =====
-- The numbers of the formats, u32::from and Format::from of client/src/format.rs.
use pw_capture.Common.{
  ℕ, ◌≤◌, ◌≡◌, refl, true, arith, ltb, ◌==◌, ==_iff, if◌then◌else◌, passes, passes-at, get_or_past,
}
use native.Mathlib.Decide.{dec_lt}
use pw_capture.Client.Format.{Format, format_default, format_into, format_from, all_formats}

-- A format's number reads back as the format.
pub format_from-format_into : (f : Format) → format_from (format_into f) ≡ f
unfolding format_from format_into
format_from-format_into Format.unknown = refl
format_from-format_into _ = refl

into_table : passes (λ n. format_into (format_from n) == n) 88 ≡ true
unfolding passes format_into format_from
into_table = refl

from_past : (n : ℕ) → 88 ≤ n → format_into (format_from n) ≡ 0
unfolding format_from format_default format_into
from_past n h = rw (get_or_past all_formats n format_default h)

-- A number below 88 is that of the format it reads as; any other number reads as the format with
-- number 0.
pub format_into-format_from : (n : ℕ) → format_into (format_from n) ≡ (if ltb n 88 then n else 0)
format_into-format_from n = elim (dec_lt n 88) [
  | yes h ↦
      let e =
        (==_iff _ _).0 (passes-at (λ n. format_into (format_from n) == n) 88 n h into_table) in
      ground (arith, e)
  | no h ↦ ground (arith, from_past n (omega arith))
]
