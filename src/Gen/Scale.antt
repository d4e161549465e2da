-- ===== src/Gen/Scale.antt =====
-- gen/scale.go: the named run modes.
use canopy_rpc_mock.Base.{ℕ, String, List, [], ◌∷◌, str_eq, if◌then◌else◌}

abbrev pub RunMode : Type 0
RunMode = String

abbrev pub run_mode_default : RunMode
run_mode_default = "default"

abbrev pub run_mode_sparse : RunMode
run_mode_sparse = "sparse"

abbrev pub run_mode_load : RunMode
run_mode_load = "load"

pub record RunModeParams : Type 0 where
  pub chain_ids : List ℕ
  pub num_accounts : ℕ
  pub num_validators : ℕ

unfoldable pub run_mode_config : RunMode → RunModeParams
run_mode_config mode =
    if str_eq mode run_mode_sparse
    then record { chain_ids = 1 ∷ 100 ∷ 101 ∷ []; num_accounts = 10; num_validators = 10 }
    else if str_eq mode run_mode_load
    then record { chain_ids = 1 ∷ 100 ∷ 101 ∷ []; num_accounts = 100_000; num_validators = 5_000 }
    else record { chain_ids = 1 ∷ 100 ∷ 101 ∷ []; num_accounts = 200; num_validators = 30 }
