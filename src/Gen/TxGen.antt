-- ===== src/Gen/TxGen.antt =====
-- gen/txgen.go: how many transactions a height has, and of which type. The fuel is that of the
-- samplers.
use canopy_rpc_mock.Base.{ℕ, ◌+◌, String, ◌==◌, if◌then◌else◌, Result, ok, ◌>>=◌}
use canopy_rpc_mock.Gen.Runtime.{Runtime}
use canopy_rpc_mock.Gen.Hash.{rng_for_height}
use canopy_rpc_mock.Gen.Distributions.{sample_poisson, sample_neg_binomial, sample_categorical}
use canopy_rpc_mock.Gen.Distributions.Sampling.{OneOf, sample_categorical-OneOf}
use canopy_rpc_mock.Gen.Profile.{Profile, busy, quiet, other, is_quiet, params_for_profile}
use canopy_rpc_mock.Gen.RateTable.{busy_mean_at}

module _ (rt : Runtime) (fuel : ℕ) where
  open rt use {lt, float64}

  -- the quiet branch of TxCountAt
  unfoldable pub quiet_tx_count : ℕ → Profile → ℕ → Result ℕ
  quiet_tx_count chain_id profile height =
      let params = params_for_profile rt profile in
      let (u, rng) = float64 (rng_for_height rt chain_id height) in
      if lt u params.zero_tx_chance
      then ok 0
      else do (k, _) ← sample_poisson rt fuel rng params.tx_count_mean; ok (1 + k)

  -- the busy branch of TxCountAt
  unfoldable pub busy_tx_count : ℕ → Profile → ℕ → Result ℕ
  busy_tx_count chain_id profile height = do
    let params = params_for_profile rt profile
    mean ← busy_mean_at rt height params.tx_count_mean
    (count, _) ←
        sample_neg_binomial rt fuel (rng_for_height rt chain_id height) params.tx_count_r mean
    ok (if count == 0 then 1 else count)

  unfoldable pub tx_count_at : ℕ → Profile → ℕ → Result ℕ
  unfolding quiet_tx_count busy_tx_count
  tx_count_at chain_id profile height =
      if is_quiet profile
      then quiet_tx_count chain_id profile height
      else busy_tx_count chain_id profile height

module _ (rt : Runtime) where
  unfoldable pub tx_type_mix_at : ℕ → Profile → ℕ → String
  tx_type_mix_at chain_id profile height =
      (sample_categorical rt (rng_for_height rt chain_id height)
        (params_for_profile rt profile).tx_type_weights).0

  -- The type of a transaction is one of the labels of its profile, at every height of every chain.
  pub tx_type_mix_at-OneOf :
      (chain_id : ℕ) (profile : Profile) (height : ℕ)
      → OneOf rt
          (tx_type_mix_at chain_id profile height)
          (params_for_profile rt profile).tx_type_weights
  unfolding tx_type_mix_at params_for_profile
  tx_type_mix_at-OneOf chain_id busy height = sample_categorical-OneOf rt _ _ _
  tx_type_mix_at-OneOf chain_id quiet height = sample_categorical-OneOf rt _ _ _
  tx_type_mix_at-OneOf chain_id other height = sample_categorical-OneOf rt _ _ _
