-- ===== src/Base/Word.antt =====
-- Go's uint64 as a number below 2 ^ 64, and sums of such numbers.
use Prim.Native.Nat.{ℕ, ◌+◌, ◌-◌, ◌*◌, ◌%◌, ◌^◌, ◌<◌}
use mathlib.Core.Path.{refl, ◌≡◌}
use mathlib.Core.List.{List, [], ◌∷◌}
use native.Mathlib.Omega.{arith}

abbrev pub u64_mod : ℕ
u64_mod = 2 ^ 64

abbrev pub add64 : ℕ → ℕ → ℕ
add64 a b = (a + b) % u64_mod

abbrev pub sub64 : ℕ → ℕ → ℕ
sub64 a b = (a + (u64_mod - b)) % u64_mod

abbrev pub mul64 : ℕ → ℕ → ℕ
mul64 a b = a * b % u64_mod

-- `var sum uint64; for _, v := range xs { sum += v }`, from an accumulator.
pub sum64_from : ℕ → List ℕ → ℕ
sum64_from acc [] = acc
sum64_from acc (x ∷ xs) = sum64_from (add64 acc x) xs

-- The sum that does not wrap.
abbrev pub sum : List ℕ → ℕ
sum [] = 0
sum (x ∷ xs) = x + sum xs

pub sum64_from_lem :
    (acc : ℕ) (xs : List ℕ) → sum64_from acc xs % u64_mod ≡ (acc + sum xs) % u64_mod
unfolding sum64_from
sum64_from_lem acc [] = omega arith
sum64_from_lem acc (x ∷ xs) = omega (arith, sum64_from_lem (add64 acc x) xs)

pub sum64_from-lt : (acc : ℕ) (xs : List ℕ) → acc < u64_mod → sum64_from acc xs < u64_mod
unfolding sum64_from
sum64_from-lt acc [] h = h
sum64_from-lt acc (x ∷ xs) h = sum64_from-lt (add64 acc x) xs (omega arith)

pub sum64_from-nil : (acc : ℕ) → sum64_from acc [] ≡ acc
unfolding sum64_from
sum64_from-nil acc = refl

pub sum64_from-cons :
    (acc x : ℕ) (xs : List ℕ) → sum64_from acc (x ∷ xs) ≡ sum64_from (add64 acc x) xs
unfolding sum64_from
sum64_from-cons acc x xs = refl
