-- ===== src/Gen/Runtime.antt =====
-- What package gen takes from Go's standard library, as operations of a parameter: crypto/sha256,
-- math/rand, float64 and package math. No law is part of it: a theorem that relies on documented
-- behaviour has it as a hypothesis, by one of the names below.
use canopy_rpc_mock.Base.{ℕ, ◌<◌, ◌≡◌, Bool, List, u64_mod, ℤ, pos, ◌+◌, ◌-◌, ◌/◌, ◌^◌}

pub record Runtime : Type 1 where
  -- sha256.New, Write and Sum, over the bytes written
  pub sha256 : List ℕ → List ℕ
  -- a *rand.Rand, and rand.New(rand.NewSource(s)) at the 64 bits of s
  pub Rng : Type 0
  pub new_source : ℕ → Rng
  -- float64; `lit m k` is the constant m / 10 ^ k
  pub F : Type 0
  pub lit : ℕ → ℕ → F
  pub add : F → F → F
  pub sub : F → F → F
  pub mul : F → F → F
  pub div : F → F → F
  pub neg : F → F
  pub lt : F → F → Bool
  pub le : F → F → Bool
  pub eq : F → F → Bool
  pub log : F → F
  pub exp : F → F
  pub sqrt : F → F
  pub cos : F → F
  pub pow : F → F → F
  pub pi : F
  -- the conversions float64(n) and uint64(x)
  pub of_u64 : ℕ → F
  pub to_u64 : F → ℕ
  -- math.Ceil and the conversion int(x)
  pub ceil : F → F
  pub to_int : F → ℤ
  -- rng.Float64() and rng.Intn(n), with the generator after the draw
  pub float64 : Rng → F × Rng
  pub intn : ℕ → Rng → ℕ × Rng

-- Intn(n) lies in [0, n).
abbrev pub IntnInRange : Runtime → Type 0
IntnInRange rt = (n : ℕ) (r : rt.Rng) → 0 < n → (rt.intn n r).0 < n

-- uint64(x) is a uint64.
abbrev pub ToU64InRange : Runtime → Type 0
ToU64InRange rt = (x : rt.F) → rt.to_u64 x < u64_mod

-- Dividing two integers below 2 ^ 53 as floats and rounding up is exact.
abbrev pub CeilDivExact : Runtime → Type 0
CeilDivExact rt =
    (m n : ℕ)
    → m < 2 ^ 53
    → 0 < n
    → n < 2 ^ 53
    → rt.to_int (rt.ceil (rt.div (rt.of_u64 m) (rt.of_u64 n))) ≡ pos ((m + n - 1) / n)
