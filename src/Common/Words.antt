-- ===== src/Common/Words.antt =====
-- Machine words as natural numbers below a power of two, and the signed integers that they stand
-- for. The casts are Rust's `as`.
use Prim.Native.Nat.{ℕ, suc, ◌+◌, ◌-◌, ◌*◌, ◌%◌, ◌^◌, ◌≤◌, ◌<◌}
use mathlib.Core.Path.{◌≡◌}
use mathlib.Core.Bool.{Bool}
use native.Mathlib.Omega.{arith}
use pw_capture.Common.Tests.{ltb, leb, if◌then◌else◌}

-- `negsuc n` is -(n + 1).
pub data ℤ : Type 0 where
  pos : ℕ → ℤ
  negsuc : ℕ → ℤ

abbrev pub pos_part : ℤ → ℕ
pos_part (pos n) = n
pos_part (negsuc n) = 0

abbrev pub neg_part : ℤ → ℕ
neg_part (pos n) = 0
neg_part (negsuc n) = suc n

-- a - b, as an integer.
abbrev pub sub_ℕ : ℕ → ℕ → ℤ
sub_ℕ a b = if leb b a then pos (a - b) else negsuc (b - a - 1)

infixl 65 ◌+ℤ◌ ◌-ℤ◌
abbrev pub ◌+ℤ◌ : ℤ → ℤ → ℤ
a +ℤ b = sub_ℕ (pos_part a + pos_part b) (neg_part a + neg_part b)

abbrev pub ◌-ℤ◌ : ℤ → ℤ → ℤ
a -ℤ b = sub_ℕ (pos_part a + neg_part b) (neg_part a + pos_part b)

infix 50 ◌≤ℤ◌ ◌<ℤ◌
abbrev pub ◌≤ℤ◌ : ℤ → ℤ → Type 0
a ≤ℤ b = pos_part a + neg_part b ≤ pos_part b + neg_part a

abbrev pub ◌<ℤ◌ : ℤ → ℤ → Type 0
a <ℤ b = pos_part a + neg_part b < pos_part b + neg_part a

abbrev pub leb_ℤ : ℤ → ℤ → Bool
leb_ℤ a b = leb (pos_part a + neg_part b) (pos_part b + neg_part a)

abbrev pub ltb_ℤ : ℤ → ℤ → Bool
ltb_ℤ a b = ltb (pos_part a + neg_part b) (pos_part b + neg_part a)

abbrev pub u32_mod : ℕ
u32_mod = 2 ^ 32

abbrev pub u64_mod : ℕ
u64_mod = 2 ^ 64

-- `x as u32` and `x as usize` of an `i32`: two's complement, sign-extended.
abbrev pub i32_as_u32 : ℤ → ℕ
i32_as_u32 (pos n) = n % 2 ^ 32
i32_as_u32 (negsuc n) = 2 ^ 32 - 1 - n % 2 ^ 32

abbrev pub i32_as_usize : ℤ → ℕ
i32_as_usize (pos n) = n % 2 ^ 64
i32_as_usize (negsuc n) = 2 ^ 64 - 1 - n % 2 ^ 64

-- `x as i32` of a word: its low 32 bits, signed.
abbrev pub as_i32 : ℕ → ℤ
as_i32 n = let low = n % 2 ^ 32 in if ltb low (2 ^ 31) then pos low else negsuc (2 ^ 32 - 1 - low)

-- Products and sums of `u32` and `usize` as a release build computes them.
abbrev pub mul_u32 : ℕ → ℕ → ℕ
mul_u32 a b = a * b % 2 ^ 32

abbrev pub mul_usize : ℕ → ℕ → ℕ
mul_usize a b = a * b % 2 ^ 64

abbrev pub add_usize : ℕ → ℕ → ℕ
add_usize a b = (a + b) % 2 ^ 64

-- A difference of two `i16`, wrapped to 16 bits.
abbrev pub u16_of : ℤ → ℕ
u16_of (pos n) = n % 2 ^ 16
u16_of (negsuc n) = 2 ^ 16 - 1 - n % 2 ^ 16

abbrev pub wrap_i16 : ℤ → ℤ
wrap_i16 a = if ltb (u16_of a) (2 ^ 15) then pos (u16_of a) else negsuc (2 ^ 16 - 1 - u16_of a)

unfoldable pub sub_i16 : ℤ → ℤ → ℤ
sub_i16 a b = wrap_i16 (a -ℤ b)

-- Without overflow the difference is exact.
pub sub_i16_lem : (a b : ℤ) → negsuc 32767 ≤ℤ a -ℤ b → a -ℤ b ≤ℤ pos 32767 → sub_i16 a b ≡ a -ℤ b
unfolding sub_i16
sub_i16_lem a b h k = wrap_lem (a -ℤ b) h k
  where
    wrap_lem : (d : ℤ) → negsuc 32767 ≤ℤ d → d ≤ℤ pos 32767 → wrap_i16 d ≡ d
    wrap_lem (pos n) h k = ground arith
    wrap_lem (negsuc n) h k = ground arith

-- `x as i64` of a `u64`, and back.
unfoldable pub u64_as_i64 : ℕ → ℤ
u64_as_i64 n =
    let low = n % 2 ^ 64 in if ltb low (2 ^ 63) then pos low else negsuc (2 ^ 64 - 1 - low)

unfoldable pub i64_as_u64 : ℤ → ℕ
i64_as_u64 (pos n) = n % 2 ^ 64
i64_as_u64 (negsuc n) = 2 ^ 64 - 1 - n % 2 ^ 64

pub i64_as_u64-u64_as_i64 : (n : ℕ) → n < 2 ^ 64 → i64_as_u64 (u64_as_i64 n) ≡ n
unfolding i64_as_u64 u64_as_i64
i64_as_u64-u64_as_i64 n h = ground arith
