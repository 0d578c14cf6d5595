-- ===== src/Common/Maps.antt =====
-- A map from handles, as the program uses its concurrent maps: one key holds one value, a missing
-- key reads as `none`, an insertion overwrites.
use Prim.Native.Nat.{ℕ}
use mathlib.Core.Option.{Option, none, some}
use pw_capture.Common.Tests.{◌==◌, if◌then◌else◌}

abbrev pub DashMap {ℓ} : Type ℓ → Type ℓ
DashMap V = ℕ → Option V

module _ {ℓ} {V : Type ℓ} where
  abbrev pub new_map : DashMap V
  new_map = λ j. none

  abbrev pub insert : ℕ → V → DashMap V → DashMap V
  insert k v m = λ j. if j == k then some v else m j

  abbrev pub remove : ℕ → DashMap V → DashMap V
  remove k m = λ j. if j == k then none else m j
