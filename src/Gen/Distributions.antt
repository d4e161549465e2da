-- ===== src/Gen/Distributions.antt =====
-- The samplers of gen/distributions.go, over the generator passed along. The loops of sampleGamma
-- and samplePoisson have no bound in the source; here each takes fuel, and gives `out_of_fuel` when
-- that many rounds do not end it.
pub mod Sampling
use canopy_rpc_mock.Base.{
  ℕ, zero, suc, ◌+◌, ◌-◌, ◌≡◌, ◌⊎◌, String, Bool, true, false, List, [], ◌∷◌, if◌then◌else◌, Result,
  ok, fault, out_of_fuel, ◌>>=◌,
}
use canopy_rpc_mock.Gen.Runtime.{Runtime}

module _ (rt : Runtime) where
  open rt use {Rng, F, lit, add, sub, mul, div, neg, lt, le, log, exp, sqrt, cos, pow, pi, float64}

  unfoldable pub standard_normal : Rng → F × Rng
  standard_normal rng =
      let (u1, rng1) = float64 rng in
      let (u2, rng2) = float64 rng1 in
      let u = if lt u1 (lit 1 12) then lit 1 12 else u1 in
      (mul (sqrt (mul (neg (lit 2 0)) (log u))) (cos (mul (mul (lit 2 0) pi) u2)), rng2)

  -- the inner loop of sampleGamma: x and v = 1 + c * x, drawn until v > 0
  unfoldable pub positive_normal : ℕ → F → Rng → Result (F × F × Rng)
  positive_normal zero c rng = fault out_of_fuel
  positive_normal (suc n) c rng =
      let (x, rng') = standard_normal rng in
      let v = add (lit 1 0) (mul c x) in
      elim (lt (lit 0 0) v) [ true ↦ ok (x, v, rng') | false ↦ positive_normal n c rng' ]

  -- one round's test: u < 1 - 0.0331 x^4, or log u < 0.5 x^2 + d (1 - v + log v)
  unfoldable pub gamma_accepts : F → F → F → F → Bool
  gamma_accepts d x v u =
      if lt u (sub (lit 1 0) (mul (mul (mul (mul (lit 331 4) x) x) x) x))
      then true
      else lt (log u) (add (mul (mul (lit 5 1) x) x) (mul d (add (sub (lit 1 0) v) (log v))))

  unfoldable pub gamma_loop : ℕ → ℕ → F → F → F → Rng → Result (F × Rng)
  gamma_loop fuel zero d c scale rng = fault out_of_fuel
  gamma_loop fuel (suc n) d c scale rng = do
    (x, w, rng1) ← positive_normal fuel c rng
    let v = mul (mul w w) w
    let (u, rng2) = float64 rng1
    elim (gamma_accepts d x v u) [
      | true ↦ ok (mul (mul d v) scale, rng2)
      | false ↦ gamma_loop fuel n d c scale rng2
    ]

  -- The first fuel bounds the calls for a shape below 1, the second the loops.
  unfoldable pub sample_gamma : ℕ → ℕ → Rng → F → F → Result (F × Rng)
  sample_gamma zero fuel rng shape scale = fault out_of_fuel
  sample_gamma (suc n) fuel rng shape scale = elim (lt shape (lit 1 0)) [
    | true ↦ do
      let (u, rng1) = float64 rng
      (g, rng2) ← sample_gamma n fuel rng1 (add shape (lit 1 0)) scale
      ok (mul g (pow u (div (lit 1 0) shape)), rng2)
    | false ↦
        let d = sub shape (div (lit 1 0) (lit 3 0)) in
        let c = div (lit 1 0) (sqrt (mul (lit 9 0) d)) in gamma_loop fuel fuel d c scale rng
  ]

  unfoldable pub poisson_loop : ℕ → F → ℕ → F → Rng → Result (ℕ × Rng)
  poisson_loop zero l k p rng = fault out_of_fuel
  poisson_loop (suc n) l k p rng =
      let (u, rng') = float64 rng in
      let k' = k + 1 in
      let p' = mul p u in
      elim (le p' l) [ true ↦ ok (k' - 1, rng') | false ↦ poisson_loop n l k' p' rng' ]

  unfoldable pub sample_poisson : ℕ → Rng → F → Result (ℕ × Rng)
  sample_poisson fuel rng lambda =
      if le lambda (lit 0 0)
      then ok (0, rng)
      else poisson_loop fuel (exp (neg lambda)) 0 (lit 1 0) rng

  unfoldable pub sample_neg_binomial : ℕ → Rng → F → F → Result (ℕ × Rng)
  sample_neg_binomial fuel rng r mean = do
    let p = div r (add r mean)
    (lambda, rng1) ← sample_gamma fuel fuel rng r (div (sub (lit 1 0) p) p)
    sample_poisson fuel rng1 lambda

  -- (mu, sigma); the divisor is the constant z75 - z25
  unfoldable pub fit_log_normal : F → F → F → F × F
  fit_log_normal p25 median p75 =
      (log median, div (sub (log p75) (log p25)) (lit 13_489_795_003_921_634 16))

  unfoldable pub sample_log_normal : Rng → F → F → F × Rng
  sample_log_normal rng mu sigma =
      let (z, rng') = standard_normal rng in (exp (add mu (mul sigma z)), rng')

  pub record WeightedOption : Type 0 where
    pub label : String
    pub weight : F

  unfoldable pub total_weight : F → List WeightedOption → F
  total_weight acc [] = acc
  total_weight acc (o ∷ os) = total_weight (add acc o.weight) os

  -- options[len(options)-1].label
  unfoldable pub last_label : String → List WeightedOption → String
  last_label s [] = s
  last_label s (o ∷ os) = last_label o.label os

  -- the second loop of sampleCategorical; `otherwise` is the last label
  unfoldable pub pick_label : F → F → String → List WeightedOption → String
  pick_label r cum otherwise [] = otherwise
  pick_label r cum otherwise (o ∷ os) =
      let rest = pick_label r (add cum o.weight) otherwise os in
      if le r (add cum o.weight) then o.label else rest

  unfoldable pub sample_categorical : Rng → List WeightedOption → String × Rng
  sample_categorical rng [] = ("", rng)
  sample_categorical rng (o ∷ os) =
      let (u, rng') = float64 rng in
      (
        pick_label (mul u (total_weight (lit 0 0) (o ∷ os))) (lit 0 0) (last_label o.label os)
            (o ∷ os),
        rng',
      )
