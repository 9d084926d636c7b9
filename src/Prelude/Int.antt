-- ===== src/Prelude/Int.antt =====
-- C's signed integers: ℤ over the native numbers, and the wrap-around of a 64-bit and a 32-bit word.
use Prim.Native.Nat.{ℕ, suc, ◌+◌, ◌-◌, ◌%◌, ◌^◌, ◌≤◌}
use mathlib.Core.Bool.{Bool}
use mathlib.Core.Path.{◌≡◌}
use native.Mathlib.Omega.{arith}
use pfstrase.Prelude.Tests.{ltb, leb, if◌then◌else◌}

-- `negsuc n` is -(n + 1).
pub data ℤ : Type 0 where
  pos : ℕ → ℤ
  negsuc : ℕ → ℤ

abbrev pub pos_part : ℤ → ℕ
pos_part (pos n) = n
pos_part (negsuc n) = 0

abbrev pub neg_part : ℤ → ℕ
neg_part (pos n) = 0
neg_part (negsuc n) = suc n

-- a - b, as an integer.
abbrev pub sub_ℕ : ℕ → ℕ → ℤ
sub_ℕ a b = if leb b a then pos (a - b) else negsuc (b - a - 1)

infixl 65 ◌+ℤ◌ ◌-ℤ◌
infix 50 ◌≤ℤ◌
unfoldable pub ◌+ℤ◌ : ℤ → ℤ → ℤ
a +ℤ b = sub_ℕ (pos_part a + pos_part b) (neg_part a + neg_part b)

unfoldable pub ◌-ℤ◌ : ℤ → ℤ → ℤ
a -ℤ b = sub_ℕ (pos_part a + neg_part b) (neg_part a + pos_part b)

abbrev pub ◌≤ℤ◌ : ℤ → ℤ → Type 0
a ≤ℤ b = pos_part a + neg_part b ≤ pos_part b + neg_part a

abbrev pub ltb_ℤ : ℤ → ℤ → Bool
ltb_ℤ a b = ltb (pos_part a + neg_part b) (pos_part b + neg_part a)

-- The value of a word of `2 * half` bit patterns in two's complement.
abbrev pub from_word : ℕ → ℕ → ℤ
from_word half w = if ltb w half then pos w else negsuc (half + half - w - 1)

-- An integer brought back into the range of a word of `2 * half` bit patterns.
abbrev pub wrap : ℕ → ℤ → ℤ
wrap half (pos n) = from_word half (n % (half + half))
wrap half (negsuc n) = from_word half (half + half - n % (half + half) - 1)

-- int64_t and int, as two's complement hardware computes them.
unfoldable pub wrap64 : ℤ → ℤ
wrap64 = wrap (2 ^ 63)

unfoldable pub wrap32 : ℤ → ℤ
wrap32 = wrap (2 ^ 31)

-- Where the true result fits the word, wrapping changes nothing.
pub wrap32-fits : (a : ℤ) → negsuc (2 ^ 31 - 1) ≤ℤ a → a ≤ℤ pos (2 ^ 31 - 1) → wrap32 a ≡ a
unfolding wrap32
wrap32-fits (pos n) lo hi = ground arith
wrap32-fits (negsuc n) lo hi = ground arith

pub wrap64-fits : (a : ℤ) → negsuc (2 ^ 63 - 1) ≤ℤ a → a ≤ℤ pos (2 ^ 63 - 1) → wrap64 a ≡ a
unfolding wrap64
wrap64-fits (pos n) lo hi = ground arith
wrap64-fits (negsuc n) lo hi = ground arith
