-- ===== src/Base/Int.antt =====
-- Signed integers over the native numbers, under the library's names, and their casts to machine
-- integers.
use Prim.Native.Nat.{ℕ, suc, ◌+◌, ◌-◌, ◌%◌}
use mathlib.Core.Bool.{Bool, true, false}
use mathlib.Core.Path.{◌≡◌}
use mathlib.Core.Logic.{◌↔◌}
use mathlib.Core.List.{◌∷◌}
use native.Mathlib.Omega.{arith}
use foundrix.Base.Tests.{ltb, leb, ◌==◌, if◌then◌else◌}
use foundrix.Base.Texts.{Text}
use foundrix.Base.Decimal.{decimal}

-- `negsuc n` is -(n + 1).
pub data ℤ : Type 0 where
  pos : ℕ → ℤ
  negsuc : ℕ → ℤ

abbrev pub pos_part : ℤ → ℕ
pos_part (pos n) = n
pos_part (negsuc n) = 0

abbrev pub neg_part : ℤ → ℕ
neg_part (pos n) = 0
neg_part (negsuc n) = suc n

abbrev pub sub_ℕ : ℕ → ℕ → ℤ
sub_ℕ a b = if leb b a then pos (a - b) else negsuc (b - a - 1)

infixl 65 ◌+ℤ◌
unfoldable pub ◌+ℤ◌ : ℤ → ℤ → ℤ
a +ℤ b = sub_ℕ (pos_part a + pos_part b) (neg_part a + neg_part b)

abbrev pub ltb_ℤ : ℤ → ℤ → Bool
ltb_ℤ a b = ltb (pos_part a + neg_part b) (pos_part b + neg_part a)

abbrev pub leb_ℤ : ℤ → ℤ → Bool
leb_ℤ a b = leb (pos_part a + neg_part b) (pos_part b + neg_part a)

unfoldable pub eq_ℤ : ℤ → ℤ → Bool
eq_ℤ (pos a) (pos b) = a == b
eq_ℤ (pos a) (negsuc b) = false
eq_ℤ (negsuc a) (pos b) = false
eq_ℤ (negsuc a) (negsuc b) = a == b

pub eq_ℤ_iff : (a b : ℤ) → (eq_ℤ a b ≡ true) ↔ (a ≡ b)
unfolding eq_ℤ
eq_ℤ_iff (pos a) (pos b) = ground arith
eq_ℤ_iff (pos a) (negsuc b) = ground arith
eq_ℤ_iff (negsuc a) (pos b) = ground arith
eq_ℤ_iff (negsuc a) (negsuc b) = ground arith

-- `as u8`
unfoldable pub as_u8 : ℤ → ℕ
as_u8 (pos n) = n % 256
as_u8 (negsuc n) = 255 - n % 256

-- `as i16`, and what an i16 sum is in a release build.
abbrev pub low_16 : ℤ → ℕ
low_16 (pos n) = n % 65536
low_16 (negsuc n) = 65535 - n % 65536

unfoldable pub as_i16 : ℤ → ℤ
as_i16 z = if ltb (low_16 z) 32768 then pos (low_16 z) else negsuc (65535 - low_16 z)

-- `Display`
unfoldable pub int_text : ℤ → Text
unfolding decimal
int_text (pos n) = decimal n
int_text (negsuc n) = b'-' ∷ decimal (n + 1)
