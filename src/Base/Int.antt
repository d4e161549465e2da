-- ===== src/Base/Int.antt =====
-- Go's int: an integer, wrapped to 64 bits by the operations that can leave the range.
use Prim.Native.Nat.{ℕ, suc, ◌+◌, ◌-◌, ◌*◌, ◌%◌, ◌^◌, ◌≤◌, ◌<◌}
use mathlib.Core.Path.{◌≡◌}
use mathlib.Core.Bool.{Bool, false}
use native.Mathlib.Omega.{arith}
use canopy_rpc_mock.Base.Tests.{leb, ltb, if◌then◌else◌}

-- `negsuc n` is -(n + 1).
pub data ℤ : Type 0 where
  pos : ℕ → ℤ
  negsuc : ℕ → ℤ

abbrev pub pos_part : ℤ → ℕ
pos_part (pos n) = n
pos_part (negsuc n) = 0

abbrev pub neg_part : ℤ → ℕ
neg_part (pos n) = 0
neg_part (negsuc n) = suc n

-- a - b, as an integer.
abbrev pub sub_ℕ : ℕ → ℕ → ℤ
sub_ℕ a b = if leb b a then pos (a - b) else negsuc (b - a - 1)

abbrev pub ltb_ℤ : ℤ → ℤ → Bool
ltb_ℤ a b = ltb (pos_part a + neg_part b) (pos_part b + neg_part a)

-- The uint64 with the bits of an int.
abbrev pub bits_of : ℤ → ℕ
bits_of (pos n) = n % 2 ^ 64
bits_of (negsuc n) = 2 ^ 64 - 1 - n % 2 ^ 64

-- The int with these 64 bits.
abbrev pub of_bits : ℕ → ℤ
of_bits w = if ltb w (2 ^ 63) then pos w else negsuc (2 ^ 64 - w - 1)

infixl 65 ◌+ℤ◌ ◌-ℤ◌
infixl 70 ◌*ℤ◌
unfoldable pub ◌+ℤ◌ : ℤ → ℤ → ℤ
a +ℤ b = of_bits (bits_of (sub_ℕ (pos_part a + pos_part b) (neg_part a + neg_part b)))

unfoldable pub ◌-ℤ◌ : ℤ → ℤ → ℤ
a -ℤ b = of_bits (bits_of (sub_ℕ (pos_part a + neg_part b) (neg_part a + pos_part b)))

unfoldable pub ◌*ℤ◌ : ℤ → ℤ → ℤ
a *ℤ b = of_bits (
    bits_of (
      sub_ℕ (pos_part a * pos_part b + neg_part a * neg_part b)
        (pos_part a * neg_part b + neg_part a * pos_part b)))

-- Within the range the operations are those of the numbers.
pub +ℤ-pos : (a b : ℕ) → a + b < 2 ^ 63 → pos a +ℤ pos b ≡ pos (a + b)
unfolding ◌+ℤ◌
+ℤ-pos a b h = ground arith

pub -ℤ-pos : (a b : ℕ) → b ≤ a → a < 2 ^ 63 → pos a -ℤ pos b ≡ pos (a - b)
unfolding ◌-ℤ◌
-ℤ-pos a b h k = ground arith

pub *ℤ-pos : (a b : ℕ) → a * b < 2 ^ 63 → pos a *ℤ pos b ≡ pos (a * b)
unfolding ◌*ℤ◌
*ℤ-pos a b h = ground arith

pub zero-*ℤ : (b : ℤ) → pos 0 *ℤ b ≡ pos 0
unfolding ◌*ℤ◌
zero-*ℤ b = ground arith

pub zero-+ℤ-negsuc : (n : ℕ) → n < 2 ^ 63 → pos 0 +ℤ negsuc n ≡ negsuc n
unfolding ◌+ℤ◌
zero-+ℤ-negsuc n h = ground arith

-- The number of rounds of `for i := 0; i < n; i++`.
abbrev pub rounds : ℤ → ℕ
rounds = pos_part

-- n > 0
abbrev pub is_positive : ℤ → Bool
is_positive (pos n) = ltb 0 n
is_positive (negsuc n) = false
