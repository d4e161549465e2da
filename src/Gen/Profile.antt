-- ===== src/Gen/Profile.antt =====
-- gen/profile.go: the two traffic profiles and their parameters.
use canopy_rpc_mock.Base.{ℕ, Bool, true, false, List, [], ◌∷◌, ◌==◌, if◌then◌else◌}
use canopy_rpc_mock.Gen.Runtime.{Runtime}
use canopy_rpc_mock.Gen.Distributions.{WeightedOption}

-- `other` is any int but the two constants.
pub data Profile : Type 0 where
  busy quiet other : Profile

abbrev pub is_busy : Profile → Bool
is_busy busy = true
is_busy _ = false

abbrev pub is_quiet : Profile → Bool
is_quiet quiet = true
is_quiet _ = false

abbrev pub profile_for_chain : ℕ → Profile
profile_for_chain chain_id = if chain_id == 1 then busy else quiet

module _ (rt : Runtime) where
  open rt use {F, lit}

  pub record ProfileParams : Type 0 where
    pub tx_count_r : F
    pub tx_count_mean : F
    pub zero_tx_chance : F
    pub tx_type_weights : List (WeightedOption rt)

  abbrev pub busy_params : ProfileParams
  busy_params = record {
    tx_count_r = lit 8 0;
    tx_count_mean = lit 9169 2;
    zero_tx_chance = lit 0 0;
    tx_type_weights =
        record { label = "send"; weight = lit 753 1 }
        ∷ record { label = "dexLimitOrder"; weight = lit 105 1 }
        ∷ record { label = "editStake"; weight = lit 93 1 }
        ∷ record { label = "certResults"; weight = lit 33 1 }
        ∷ record { label = "dexLiqDeposit"; weight = lit 16 1 }
        ∷ record { label = "stake"; weight = lit 1 1 }
        ∷ record { label = "unstake"; weight = lit 1 1 }
        ∷ record { label = "dexLiqWithdraw"; weight = lit 1 1 }
        ∷ [];
  }

  abbrev pub quiet_params : ProfileParams
  quiet_params = record {
    tx_count_r = lit 4 0;
    tx_count_mean = lit 8 1;
    zero_tx_chance = lit 54 2;
    tx_type_weights =
        record { label = "dexLiqDeposit"; weight = lit 646 1 }
        ∷ record { label = "editStake"; weight = lit 343 1 }
        ∷ record { label = "dexLimitOrder"; weight = lit 11 1 }
        ∷ [];
  }

  unfoldable pub params_for_profile : Profile → ProfileParams
  params_for_profile p = if is_busy p then busy_params else quiet_params
