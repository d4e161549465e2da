-- ===== src/Gen/Lifecycle.antt =====
-- gen/lifecycle.go: when a validator unstakes, fixed at genesis.
use canopy_rpc_mock.Base.{ℕ, ◌+◌, ◌≤◌, ◌<◌, ◌≡◌, ◌⊎◌, List, arith, ltb, if◌then◌else◌, add64}
use canopy_rpc_mock.Gen.Runtime.{Runtime, IntnInRange}
use canopy_rpc_mock.Gen.Hash.{rng_for_addr_height}

pub data ValidatorStatus : Type 0 where
  active unstaked : ValidatorStatus

module _ (rt : Runtime) where
  open rt use {lit, lt, float64, intn}

  unfoldable pub unstake_height_for : List ℕ → ℕ → ℕ
  unstake_height_for addr genesis_height =
      let (u, rng) = float64 (rng_for_addr_height rt addr 0) in
      if lt u (lit 9 1)
      then add64 genesis_height 1_000_000_000
      else add64 genesis_height (100 + (intn 9900 rng).0)

  unfoldable pub validator_status_at : List ℕ → ℕ → ℕ → ValidatorStatus
  validator_status_at addr genesis_height height =
      if ltb height (unstake_height_for addr genesis_height) then active else unstaked

  -- A validator that is unstaked at a height is unstaked at every later one.
  pub validator_status_at_mono :
      (addr : List ℕ) (genesis_height h h' : ℕ)
      → validator_status_at addr genesis_height h ≡ unstaked
      → h ≤ h'
      → validator_status_at addr genesis_height h' ≡ unstaked
  unfolding validator_status_at
  validator_status_at_mono addr genesis_height h h' e le = ground arith

  -- From genesis at height 0 a validator unstakes at a height from 100 to 9,999, or at 10 ^ 9, if
  -- Intn(n) lies below n.
  pub unstake_height_for_bounds :
      (addr : List ℕ)
      → IntnInRange rt
      → ((100 ≤ unstake_height_for addr 0) × (unstake_height_for addr 0 < 10_000))
        ⊎ (unstake_height_for addr 0 ≡ 1_000_000_000)
  unfolding unstake_height_for
  unstake_height_for_bounds addr in_range =
      let b : (intn 9900 (float64 (rng_for_addr_height rt addr 0)).1).0 < 9900 =
        in_range 9900 _ (omega arith) in
      ground (arith, b)
