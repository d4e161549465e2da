-- ===== src/Chain/Snapshot.antt =====
-- snapshotStateAt of chain/mock_data.go: the state of a height from closed forms.
pub mod Status
pub mod Parts
use canopy_rpc_mock.Base.{
  ℕ, ◌+◌, ◌%◌, Bool, Option, none, some, List, [], ◌∷◌, ◌==◌, ◌&&◌, ltb, if◌then◌else◌, Result, ok,
  fault, index_out_of_range, ◌>>=◌, map, sub64, sum64_from,
}
use canopy_rpc_mock.Gen.Runtime.{Runtime}
use canopy_rpc_mock.Gen.Ledger.{snapshot_balances_at, total_supply_at, stake_at}
use canopy_rpc_mock.Gen.Lifecycle.{
  ValidatorStatus, active, unstaked, validator_status_at, unstake_height_for,
}
use canopy_rpc_mock.Chain.Types.{Bytes, Account, Validator, NonSigner, DoubleSigner}
use canopy_rpc_mock.Chain.MockChain.{MockChain, GenesisState}
use canopy_rpc_mock.Chain.Blocks.{block_time_micro}

-- accounts[i] = &fsm.Account{Address: a, Amount: balances[i]}
unfoldable pub zip_accounts : List Bytes → List ℕ → Result (List Account)
zip_accounts [] balances = ok []
zip_accounts (a ∷ addrs) [] = fault index_out_of_range
zip_accounts (a ∷ addrs) (v ∷ balances) = do
  rest ← zip_accounts addrs balances
  ok (record { address = a; amount = v } ∷ rest)

-- the non-signers of two validators or more
unfoldable pub snapshot_non_signers : List Validator → ℕ → List NonSigner
snapshot_non_signers (v ∷ w ∷ vs) height =
    record { address = v.address; counter = height % 3 + 1 }
    ∷ record { address = w.address; counter = height % 2 + 1 }
    ∷ []
snapshot_non_signers _ height = []

unfoldable pub snapshot_double_signers : List Validator → ℕ → List DoubleSigner
snapshot_double_signers (v ∷ w ∷ vs) height =
    if ltb 0 height && height % 30 == 0
    then record { id = w.address; heights = sub64 height 1 ∷ height ∷ [] } ∷ []
    else []
snapshot_double_signers _ height = []

module _ (rt : Runtime) where
  -- the validator of the snapshot: its lifecycle and stake at the height, and no paused height
  unfoldable pub snapshot_validator : ℕ → ℕ → Validator → Validator
  snapshot_validator chain_id height v = record v {
    staked_amount = stake_at rt v.address chain_id height;
    max_paused_height = 0;
    unstaking_height = elim (validator_status_at rt v.address 0 height) [
      | unstaked ↦ unstake_height_for rt v.address 0
      | active ↦ 0
    ];
  }

  unfoldable pub snapshot_state_at : MockChain → List Bytes → ℕ → Result GenesisState
  snapshot_state_at mc addrs height = do
    accounts ← zip_accounts addrs (snapshot_balances_at rt addrs mc.chain_id height)
    let validators = map (snapshot_validator mc.chain_id height) mc.validators
    ok (record {
      time = block_time_micro height;
      pools = mc.pools;
      accounts = accounts;
      validators = validators;
      params = mc.params;
      supply = some (record {
        total = total_supply_at rt mc.chain_id height;
        staked = sum64_from 0 (map (λ (v : Validator). v.staked_amount) validators);
        delegated_only = 0;
        committee_staked = [];
        committee_delegated_only = [];
      });
      committees = some mc.committees;
      order_books = some mc.order_books;
      non_signers = snapshot_non_signers mc.validators height;
      double_signers = snapshot_double_signers mc.validators height;
      retired_committees = 42 ∷ [];
    })
