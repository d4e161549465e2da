-- ===== src/Chain/Types.antt =====
-- The structs of the canopy module (its packages fsm and lib) that package chain fills, with the
-- fields that it writes a value to or reads; empty lists such as a certificate's orders are left out,
-- and a certificate's reward recipients, checkpoint and slash recipients stand in it
-- flat. They are data with no behaviour of their own.
use canopy_rpc_mock.Base.{ℕ, String, Bool, Option, List}

abbrev pub Bytes : Type 0
Bytes = List ℕ

pub record Account : Type 0 where
  pub address : Bytes
  pub amount : ℕ

pub record PoolPoints : Type 0 where
  pub address : Bytes
  pub points : ℕ

pub record Pool : Type 0 where
  pub id : ℕ
  pub amount : ℕ
  pub points : List PoolPoints
  pub total_pool_points : ℕ

pub record Validator : Type 0 where
  pub address : Bytes
  pub public_key : Bytes
  pub net_address : Bytes
  pub staked_amount : ℕ
  pub committees : List ℕ
  pub max_paused_height : ℕ
  pub unstaking_height : ℕ
  pub output : Bytes
  pub delegate : Bool
  pub compound : Bool

pub record SellOrder : Type 0 where
  pub id : Bytes
  pub committee : ℕ
  pub extra : Bytes
  pub amount_for_sale : ℕ
  pub requested_amount : ℕ
  pub seller_receive_address : Bytes
  pub buyer_send_address : Bytes
  pub buyer_receive_address : Bytes
  pub buyer_chain_deadline : ℕ
  pub sellers_send_address : Bytes

-- The pointers in these lists may be nil.
pub record OrderBook : Type 0 where
  pub chain_id : ℕ
  pub orders : List (Option SellOrder)

pub record OrderBooks : Type 0 where
  pub order_books : List (Option OrderBook)

pub record DexPrice : Type 0 where
  pub local_chain_id : ℕ
  pub remote_chain_id : ℕ
  pub local_pool : ℕ
  pub remote_pool : ℕ
  pub e6_scaled_price : ℕ

pub record DexLimitOrder : Type 0 where
  pub amount_for_sale : ℕ
  pub requested_amount : ℕ
  pub address : Bytes

pub record DexLiquidityDeposit : Type 0 where
  pub address : Bytes
  pub amount : ℕ

pub record DexLiquidityWithdraw : Type 0 where
  pub address : Bytes
  pub percent : ℕ

pub record DexBatch : Type 0 where
  pub committee : ℕ
  pub receipt_hash : Bytes
  pub orders : List DexLimitOrder
  pub deposits : List DexLiquidityDeposit
  pub withdrawals : List DexLiquidityWithdraw
  pub pool_size : ℕ
  pub counter_pool_size : ℕ
  pub pool_points : List PoolPoints
  pub total_pool_points : ℕ
  pub receipts : List ℕ
  pub locked_height : ℕ
  pub liveness_fallback : Bool

pub record PaymentPercents : Type 0 where
  pub address : Bytes
  pub percent : ℕ
  pub chain_id : ℕ

pub record CommitteeData : Type 0 where
  pub chain_id : ℕ
  pub last_root_height_updated : ℕ
  pub last_chain_height_updated : ℕ
  pub payment_percents : List PaymentPercents
  pub number_of_samples : ℕ

abbrev pub CommitteesData : Type 0
CommitteesData = List CommitteeData

pub record NonSigner : Type 0 where
  pub address : Bytes
  pub counter : ℕ

pub record DoubleSigner : Type 0 where
  pub id : Bytes
  pub heights : List ℕ

pub record Supply : Type 0 where
  pub total : ℕ
  pub staked : ℕ
  pub delegated_only : ℕ
  pub committee_staked : List Pool
  pub committee_delegated_only : List Pool

pub record View : Type 0 where
  pub network_id : ℕ
  pub chain_id : ℕ
  pub height : ℕ
  pub root_height : ℕ
  pub round : ℕ
  pub phase : ℕ

pub record CertificateResult : Type 0 where
  pub payment_percents : List PaymentPercents
  pub number_of_samples : ℕ
  pub checkpoint_height : ℕ
  pub checkpoint_hash : Bytes
  pub dex_batch : Option DexBatch
  pub double_signers : List DoubleSigner

pub record QuorumCertificate : Type 0 where
  pub header : View
  pub results : CertificateResult
  pub results_hash : Bytes
  pub block : Bytes
  pub block_hash : Bytes
  pub proposer_key : Bytes
  pub signature : Bytes
  pub bitmap : Bytes

-- The fsm messages that a transaction carries.
pub data TxMsg : Type 0 where
  send : Bytes → Bytes → ℕ → TxMsg
  dex_limit_order : ℕ → DexLimitOrder → TxMsg
  edit_stake : Bytes → ℕ → List ℕ → Bytes → Bytes → Bool → Bytes → TxMsg
  certificate_results : QuorumCertificate → TxMsg
  dex_liquidity_deposit : ℕ → DexLiquidityDeposit → TxMsg
  dex_liquidity_withdraw : ℕ → DexLiquidityWithdraw → TxMsg
  stake : Bytes → ℕ → List ℕ → Bytes → Bytes → Bool → Bool → Bytes → TxMsg
  unstake : Bytes → TxMsg

-- anypb.Any
pub record Any : Type 0 where
  pub type_url : Bytes
  pub value : Bytes

pub record Transaction : Type 0 where
  pub message_type : String
  pub msg : Option Any
  pub created_height : ℕ
  pub time : ℕ
  pub fee : ℕ
  pub network_id : ℕ
  pub chain_id : ℕ

pub record TxResult : Type 0 where
  pub sender : Bytes
  pub message_type : String
  pub height : ℕ
  pub index : ℕ
  pub transaction : Transaction
  pub tx_hash : Bytes

pub data EventMsg : Type 0 where
  reward : ℕ → EventMsg
  slash : ℕ → EventMsg
  dex_swap : ℕ → ℕ → Bool → Bool → EventMsg
  dex_liquidity_deposit : ℕ → ℕ → EventMsg

pub record Event : Type 0 where
  pub event_type : String
  pub msg : EventMsg
  pub height : ℕ
  pub reference : String
  pub chain_id : ℕ
  pub block_height : ℕ
  pub block_hash : Bytes
  pub address : Bytes

pub record BlockHeader : Type 0 where
  pub height : ℕ
  pub hash : Bytes
  pub network_id : ℕ
  pub time : ℕ
  pub num_txs : ℕ
  pub total_txs : ℕ
  pub total_vdf_iterations : ℕ
  pub last_block_hash : Bytes
  pub state_root : Bytes
  pub transaction_root : Bytes
  pub validator_root : Bytes
  pub next_validator_root : Bytes
  pub proposer_address : Bytes

pub record BlockMeta : Type 0 where
  pub size : ℕ
  pub took : ℕ

pub record BlockResult : Type 0 where
  pub block_header : BlockHeader
  pub transactions : List TxResult
  pub events : List Event
  pub meta : Option BlockMeta

-- A value that encoding/json prints: a map[string]any, a string or an int.
mutual
  pub data Json : Type 0 where
    text : String → Json
    hex : Bytes → Json
    num : ℕ → Json
    obj : Fields → Json

  pub data Fields : Type 0 where
    end : Fields
    field : String → Json → Fields → Fields
