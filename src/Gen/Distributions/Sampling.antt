-- ===== src/Gen/Distributions/Sampling.antt =====
-- What the samplers return: a label among the options, and the first round at which the product of
-- the draws falls to the limit.
use canopy_rpc_mock.Base.{
  ℕ, zero, suc, ◌+◌, ◌<◌, ◌≡◌, refl, ◌⊎◌, inl, inr, String, true, false, List, [], ◌∷◌, arith, ok,
  ap, sym, ◌∙◌,
}
use mathlib.Core.Path.{subst}
use canopy_rpc_mock.Gen.Runtime.{Runtime}
use canopy_rpc_mock.Gen.Distributions.{
  WeightedOption, pick_label, last_label, total_weight, sample_categorical, poisson_loop,
  sample_poisson,
}

module _ (rt : Runtime) where
  open rt use {Rng, F, lit, mul, neg, exp, le, float64}

  -- s is the label of one of the options.
  abbrev pub OneOf : String → List (WeightedOption rt) → Type 0
  OneOf s [] = ⊥
  OneOf s (o ∷ os) = (s ≡ o.label) ⊎ OneOf s os

  last_label-OneOf :
      (o : WeightedOption rt) (os : List (WeightedOption rt))
      → OneOf (last_label rt o.label os) (o ∷ os)
  unfolding last_label
  last_label-OneOf o [] = inl refl
  last_label-OneOf o (p ∷ os) = inr (last_label-OneOf p os)

  pick_label-OneOf :
      (r cum : F) (s : String) (os : List (WeightedOption rt))
      → (pick_label rt r cum s os ≡ s) ⊎ OneOf (pick_label rt r cum s os) os
  unfolding pick_label
  pick_label-OneOf r cum s [] = inl refl
  pick_label-OneOf r cum s (o ∷ os) = ground (arith, pick_label-OneOf r (rt.add cum o.weight) s os)

  OneOf-of_last :
      (s t : String) (os : List (WeightedOption rt))
      → (s ≡ t) ⊎ OneOf s os
      → OneOf t os
      → OneOf s os
  OneOf-of_last s t os (inl e) h = subst (λ u. OneOf u os) (sym e) h
  OneOf-of_last s t os (inr m) h = m

  -- The generator and the product of the draws after k of them.
  abbrev pub draws : ℕ → Rng → Rng
  draws zero rng = rng
  draws (suc k) rng = draws k (float64 rng).1

  abbrev pub product : ℕ → F → Rng → F
  product zero p rng = p
  product (suc k) p rng = product k (mul p (float64 rng).0) (float64 rng).1

  -- A draw from a list of options that is not empty is the label of one of them, whatever the weights.
  pub sample_categorical-OneOf :
      (rng : Rng) (o : WeightedOption rt) (os : List (WeightedOption rt))
      → OneOf (sample_categorical rt rng (o ∷ os)).0 (o ∷ os)
  unfolding sample_categorical
  sample_categorical-OneOf rng o os =
      OneOf-of_last _ (last_label rt o.label os) (o ∷ os)
        (pick_label-OneOf (mul (float64 rng).0 (total_weight rt (lit 0 0) (o ∷ os))) (lit 0 0)
          (last_label rt o.label os) (o ∷ os))
        (last_label-OneOf o os)

  poisson_loop_lem :
      (j fuel k : ℕ) (l p : F) (rng : Rng)
      → ((i : ℕ) → i < j → le (product (suc i) p rng) l ≡ false)
      → le (product (suc j) p rng) l ≡ true
      → j < fuel
      → poisson_loop rt fuel l k p rng ≡ ok (k + j, draws (suc j) rng)
  unfolding poisson_loop
  poisson_loop_lem j zero k l p rng before here h = elim h [ ]
  poisson_loop_lem zero (suc fuel) k l p rng before here h = ground (arith, here)
  poisson_loop_lem (suc j) (suc fuel) k l p rng before here h =
      let first : le (product 1 p rng) l ≡ false = before 0 (omega arith) in
      ground (
        arith,
        first,
        poisson_loop_lem j fuel (k + 1) l (mul p (float64 rng).0) (float64 rng).1
            (λ i b. before (suc i) (omega arith)) here (omega arith),
      )

  -- For a mean above 0 the Poisson draw is the number of draws before the one at which their
  -- product first falls to exp(-lambda) or below, and the generator is left after that draw, if it
  -- comes within the fuel.
  pub sample_poisson-first :
      (fuel j : ℕ) (rng : Rng) (lambda : F)
      → le lambda (lit 0 0) ≡ false
      → ((i : ℕ) → i < j → le (product (suc i) (lit 1 0) rng) (exp (neg lambda)) ≡ false)
      → le (product (suc j) (lit 1 0) rng) (exp (neg lambda)) ≡ true
      → j < fuel
      → sample_poisson rt fuel rng lambda ≡ ok (j, draws (suc j) rng)
  unfolding sample_poisson
  sample_poisson-first fuel j rng lambda positive before here h = rw positive (
      poisson_loop_lem j fuel 0 (exp (neg lambda)) (lit 1 0) rng before here h
      ∙ ap (λ n. ok (n, draws (suc j) rng)) (omega arith))
