-- ===== src/Gen/EventGen.antt =====
-- gen/eventgen.go: how many events a height has, and of which type.
use Prim.Native.Nat.{bit_xor}
use canopy_rpc_mock.Base.{ℕ, String, List, [], ◌∷◌, if◌then◌else◌, Result, ok, ◌>>=◌}
use canopy_rpc_mock.Gen.Runtime.{Runtime}
use canopy_rpc_mock.Gen.Hash.{rng_for_height}
use canopy_rpc_mock.Gen.Distributions.{WeightedOption, sample_poisson, sample_categorical}
use canopy_rpc_mock.Gen.Profile.{Profile, is_busy, is_quiet}

-- chainID ^ 0x6576656e74
abbrev pub event_salt : ℕ → ℕ
event_salt chain_id = bit_xor chain_id 0x65_7665_6e74

module _ (rt : Runtime) where
  open rt use {lit}

  abbrev pub busy_event_weights : List (WeightedOption rt)
  busy_event_weights =
      record { label = "reward"; weight = lit 538 1 }
      ∷ record { label = "dexSwap"; weight = lit 440 1 }
      ∷ record { label = "dexLiquidityDeposit"; weight = lit 21 1 }
      ∷ record { label = "other"; weight = lit 1 1 }
      ∷ []

  abbrev pub quiet_event_weights : List (WeightedOption rt)
  quiet_event_weights =
      record { label = "dexSwap"; weight = lit 600 1 }
      ∷ record { label = "reward"; weight = lit 370 1 }
      ∷ record { label = "dexLiquidityDeposit"; weight = lit 30 1 }
      ∷ []

  unfoldable pub event_weights_for_profile : Profile → List (WeightedOption rt)
  event_weights_for_profile p = if is_busy p then busy_event_weights else quiet_event_weights

  unfoldable pub event_type_mix_at : ℕ → Profile → ℕ → String
  event_type_mix_at chain_id profile height =
      (sample_categorical rt (rng_for_height rt (event_salt chain_id) height)
        (event_weights_for_profile profile)).0

  unfoldable pub event_count_at : ℕ → ℕ → Profile → ℕ → Result ℕ
  event_count_at fuel chain_id profile height = do
    let mean = if is_quiet profile then lit 6 1 else lit 15 1
    (k, _) ← sample_poisson rt fuel (rng_for_height rt (event_salt chain_id) height) mean
    ok k
