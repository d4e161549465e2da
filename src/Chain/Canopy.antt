-- ===== src/Chain/Canopy.antt =====
-- What package chain takes from the canopy module and from crypto/ed25519, encoding/json and anypb, as the
-- operations and constants of a parameter: their code is not part of this repository.
use canopy_rpc_mock.Base.{ℕ, String, Option}
use canopy_rpc_mock.Chain.Types.{Bytes, TxMsg, Any, BlockResult, Pool, Json}

pub record Canopy : Type 0 where
  -- lib's event types
  pub event_type_reward : String
  pub event_type_slash : String
  pub event_type_dex_swap : String
  pub event_type_dex_liquidity_deposit : String
  -- fsm's message names
  pub message_send_name : String
  pub message_dex_limit_order_name : String
  pub message_edit_stake_name : String
  pub message_certificate_results_name : String
  pub message_dex_liquidity_deposit_name : String
  pub message_dex_liquidity_withdraw_name : String
  pub message_stake_name : String
  pub message_unstake_name : String
  -- fsm.HoldingPoolAddend, fsm.LiquidityPoolAddend, crypto.AddressSize, lib.Phase_PRECOMMIT_VOTE
  pub holding_pool_addend : ℕ
  pub liquidity_pool_addend : ℕ
  pub address_size : ℕ
  pub phase_precommit_vote : ℕ
  -- the ed25519 public key of a seed, and the address of a public key
  pub public_key : Bytes → Bytes
  pub address : Bytes → Bytes
  -- anypb.New; none is its error
  pub any_new : TxMsg → Option Any
  -- lib.Marshal of a block; none is its error
  pub marshal_block : BlockResult → Option Bytes
  -- lib.SafeMulDiv(a, b, c), and the pool after pool.RemovePoints(address, points)
  pub safe_mul_div : ℕ → ℕ → ℕ → ℕ
  pub remove_points : Pool → Bytes → ℕ → Pool
  -- json.Marshal
  pub json_marshal : Json → Bytes
