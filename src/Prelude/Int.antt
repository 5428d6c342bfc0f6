-- ===== src/Prelude/Int.antt =====
-- Go's `int` and `int64`: integers over the native numbers, under the library's names (its ℤ stands
-- on the unary ℕ), with the wrap-around of 64-bit two's complement written out.
use Prim.Native.Nat.{ℕ, suc, ◌+◌, ◌-◌, ◌^◌, ◌%◌, ◌≤◌}
use mathlib.Core.Path.{◌≡◌, refl}
use mathlib.Core.Bool.{Bool}
use native.Mathlib.Omega.{arith}
use go_nftables_portbridge.Prelude.Tests.{ltb, leb, if◌then◌else◌}

-- `negsuc n` is -(n + 1).
pub data ℤ : Type 0 where
  pos : ℕ → ℤ
  negsuc : ℕ → ℤ

abbrev pub pos_part : ℤ → ℕ
pos_part (pos n) = n
pos_part (negsuc n) = 0

abbrev pub neg_part : ℤ → ℕ
neg_part (pos n) = 0
neg_part (negsuc n) = suc n

-- a - b, as an integer.
abbrev pub sub_ℕ : ℕ → ℕ → ℤ
sub_ℕ a b = if leb b a then pos (a - b) else negsuc (b - a - 1)

infix 50 ◌≤ℤ◌
abbrev pub ◌≤ℤ◌ : ℤ → ℤ → Type 0
a ≤ℤ b = pos_part a + neg_part b ≤ pos_part b + neg_part a

abbrev pub ltb_ℤ : ℤ → ℤ → Bool
ltb_ℤ a b = ltb (pos_part a + neg_part b) (pos_part b + neg_part a)

-- `x != 0` on an integer.
abbrev pub nonzero : ℤ → Bool
nonzero (pos n) = ltb 0 n
nonzero (negsuc n) = Bool.true

abbrev pub half_range : ℕ
half_range = 2 ^ 63

abbrev pub full_range : ℕ
full_range = 2 ^ 64

-- An integer as an int64: what is left of it after the wrap-around.
abbrev pub signed : ℕ → ℤ
signed w = if ltb w half_range then pos w else negsuc (full_range - w - 1)

-- `a + b` and `a - b` on int64, as words. Values are in the range of an int64, so
-- one modulus added keeps the word's subtraction from stopping at 0.
abbrev pub word : ℤ → ℕ
word (pos n) = n % full_range
word (negsuc n) = (full_range - 1 - n % full_range) % full_range

infixl 65 ◌+ℤ◌ ◌-ℤ◌
unfoldable pub ◌+ℤ◌ : ℤ → ℤ → ℤ
a +ℤ b = signed ((word a + word b) % full_range)

unfoldable pub ◌-ℤ◌ : ℤ → ℤ → ℤ
a -ℤ b = signed ((word a + full_range - word b) % full_range)

-- On small values the sum and the difference are the exact ones.
pub +ℤ-pos : (a b : ℕ) → a + b + 1 ≤ half_range → pos a +ℤ pos b ≡ pos (a + b)
unfolding ◌+ℤ◌
+ℤ-pos a b h = ground arith

pub -ℤ-pos : (a b : ℕ) → a + 1 ≤ half_range → b ≤ a → pos a -ℤ pos b ≡ pos (a - b)
unfolding ◌-ℤ◌
-ℤ-pos a b h k = ground arith

overflow_example : pos 9223372036854775807 +ℤ pos 1 ≡ negsuc 9223372036854775807
unfolding ◌+ℤ◌
overflow_example = refl
