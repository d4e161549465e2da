-- ===== src/Gen/Ledger/Pricing.antt =====
-- The loops of SnapshotBalancesAt: the residual slot is in range and is left at zero, and the loop
-- that adds the priced balances adds all of them.
use canopy_rpc_mock.Base.{
  ℕ, zero, suc, ◌+◌, ◌%◌, ◌<◌, ◌≡◌, refl, List, [], ◌∷◌, arith, ◌==◌, if◌then◌else◌, add64, u64_mod,
  set, sum, length, get_elem?, some, ap,
}
use canopy_rpc_mock.Gen.Runtime.{Runtime}
use canopy_rpc_mock.Gen.Ledger.{
  residual_from, residual_index, raws_from, priced_from, priced_sum_from, base_value,
}

module _ (rt : Runtime) where
  open rt use {F, lt}

  residual_from-lt :
      (i best : ℕ) (v : F) (addrs : List (List ℕ))
      → best < i + length addrs
      → residual_from rt i best v addrs < i + length addrs
  unfolding residual_from
  residual_from-lt i best v [] h = h
  residual_from-lt i best v (a ∷ addrs) h = omega (
    arith,
    residual_from-lt (i + 1) (if lt v (base_value rt a) then i else best)
        (if lt v (base_value rt a) then base_value rt a else v) addrs (ground arith),
  )

  -- The residual slot is one of the addresses.
  pub residual_index-lt :
      (a : List ℕ) (addrs : List (List ℕ)) → residual_index rt (a ∷ addrs) < length (a ∷ addrs)
  unfolding residual_index
  residual_index-lt a addrs =
      omega (arith, residual_from-lt 0 0 (rt.neg (rt.lit 1 0)) (a ∷ addrs) (omega arith))

  pub length-raws_from :
      (i r : ℕ) (rate : F) (height : ℕ) (addrs : List (List ℕ))
      → length (raws_from rt i r rate height addrs) ≡ length addrs
  unfolding raws_from
  length-raws_from i r rate height [] = refl
  length-raws_from i r rate height (a ∷ addrs) =
      ap suc (length-raws_from (i + 1) r rate height addrs)

  pub length-priced_from :
      (i r : ℕ) (price : F → F) (raws : List F)
      → length (priced_from rt i r price raws) ≡ length raws
  unfolding priced_from
  length-priced_from i r price [] = refl
  length-priced_from i r price (x ∷ raws) = ap suc (length-priced_from (i + 1) r price raws)

  -- The residual slot is left at zero by the pricing loop.
  pub priced_from-residual :
      (i k r : ℕ) (price : F → F) (raws : List F)
      → i + k ≡ r
      → k < length raws
      → get_elem? (priced_from rt i r price raws) k ≡ some 0
  unfolding priced_from
  priced_from-residual i k r price [] e h = elim h [ ]
  priced_from-residual i zero r price (x ∷ raws) e h = ground arith
  priced_from-residual i (suc k) r price (x ∷ raws) e h =
      priced_from-residual (i + 1) k r price raws (omega arith) (omega arith)

  pub priced_sum_from_lem :
      (i r acc : ℕ) (price : F → F) (raws : List F)
      → priced_sum_from rt i r acc (priced_from rt i r price raws) % u64_mod
        ≡ (acc + sum (priced_from rt i r price raws)) % u64_mod
  unfolding priced_sum_from priced_from
  priced_sum_from_lem i r acc price [] = omega arith
  priced_sum_from_lem i r acc price (x ∷ raws) = ground (
    arith,
    priced_sum_from_lem (i + 1) r acc price raws,
    priced_sum_from_lem (i + 1) r (add64 acc (rt.to_u64 (price x))) price raws,
  )

  pub priced_sum_from-lt :
      (i r acc : ℕ) (out : List ℕ) → acc < u64_mod → priced_sum_from rt i r acc out < u64_mod
  unfolding priced_sum_from
  priced_sum_from-lt i r acc [] h = h
  priced_sum_from-lt i r acc (v ∷ out) h =
      priced_sum_from-lt (i + 1) r (if i == r then acc else add64 acc v) out (ground arith)

pub sum-set :
    (out : List ℕ) (k v old : ℕ)
    → get_elem? out k ≡ some old
    → sum (set out k v) + old ≡ sum out + v
sum-set [] k v old h = cc
sum-set (x ∷ out) zero v old h = ground (arith, h)
sum-set (x ∷ out) (suc k) v old h = omega (arith, sum-set out k v old h)
