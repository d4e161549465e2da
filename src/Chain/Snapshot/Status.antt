-- ===== src/Chain/Snapshot/Status.antt =====
-- The lifecycle of the validators in the snapshots.
use canopy_rpc_mock.Base.{ℕ, ◌<◌, ◌≡◌, ◌↔◌, arith}
use canopy_rpc_mock.Gen.Runtime.{Runtime, IntnInRange}
use canopy_rpc_mock.Gen.Lifecycle.{
  unstake_height_for, validator_status_at, unstake_height_for_bounds,
}
use canopy_rpc_mock.Chain.Types.{Validator}
use canopy_rpc_mock.Chain.Snapshot.{snapshot_validator}

module _ (rt : Runtime) where
  -- A snapshot has 0 as the unstaking height of a validator exactly while the height at which the
  -- validator unstakes lies ahead, if Intn(n) lies below n.
  pub snapshot_validator_unstaking :
      (chain_id height : ℕ) (v : Validator)
      → IntnInRange rt
      → ((snapshot_validator rt chain_id height v).unstaking_height ≡ 0)
        ↔ (height < unstake_height_for rt v.address 0)
  unfolding snapshot_validator validator_status_at
  snapshot_validator_unstaking chain_id height v in_range =
      ground (arith, unstake_height_for_bounds rt v.address in_range)
