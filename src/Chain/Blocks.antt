-- ===== src/Chain/Blocks.antt =====
-- Blocks, dex batches and certificates of chain/mock_data.go.
use canopy_rpc_mock.Base.{
  ℕ, ◌+◌, ◌%◌, Bool, none, some, List, [], ◌∷◌, ◌==◌, if◌then◌else◌, Result, ok, ◌>>=◌, index,
  add64, sub64, mul64, length, replicate, take,
}
use canopy_rpc_mock.Base.Dict.{lookup}
use canopy_rpc_mock.Gen.Runtime.{Runtime}
use canopy_rpc_mock.Gen.Hash.{Part, hash_bytes}
use canopy_rpc_mock.Chain.Types.{
  Bytes, DexLimitOrder, DexLiquidityDeposit, DexLiquidityWithdraw, DexBatch, QuorumCertificate,
  TxResult, Event, BlockHeader, BlockResult,
}
use canopy_rpc_mock.Chain.Canopy.{Canopy}
use canopy_rpc_mock.Chain.MockChain.{MockChain, pointer_at, double_signers}

abbrev pub mock_network_id : ℕ
mock_network_id = 1

-- 2024-01-01 00:00 UTC in microseconds
abbrev pub base_block_time_micro : ℕ
base_block_time_micro = 1_704_067_200_000_000

-- The bits of the int64, which every caller converts to uint64.
unfoldable pub block_time_micro : ℕ → ℕ
block_time_micro height = add64 base_block_time_micro (mul64 height 6_000_000)

module _ (rt : Runtime) where
  unfoldable pub block_hash : ℕ → Bytes
  block_hash height =
      if height == 0
      then replicate 32 0
      else hash_bytes rt (Part.text "block" ∷ Part.num height ∷ [])

  unfoldable pub generate_dex_batch :
      MockChain
      → ℕ
      → Bool
      → List DexLimitOrder
      → List DexLiquidityDeposit
      → List DexLiquidityWithdraw
      → DexBatch
  generate_dex_batch mc height next orders deposits withdrawals = record {
    committee = mc.chain_id;
    receipt_hash = hash_bytes rt (Part.text "receipt" ∷ Part.num height ∷ Part.flag next ∷ []);
    orders = orders;
    deposits = deposits;
    withdrawals = withdrawals;
    pool_size = add64 1_000_000 (mul64 height 1_000);
    counter_pool_size = add64 2_000_000 (mul64 height 500);
    pool_points = [];
    total_pool_points = add64 100 height;
    receipts = mul64 height 10 ∷ [];
    locked_height = height;
    liveness_fallback = next;
  }

module _ (rt : Runtime) (cn : Canopy) where
  -- The total of a block: its own transactions and the total of the block before, if there is one.
  unfoldable pub total_txs : MockChain → ℕ → List TxResult → ℕ
  total_txs mc height txs = elim (lookup (sub64 height 1) mc.blocks) [
    | some prev ↦ add64 (length txs) prev.block_header.total_txs
    | none ↦ length txs
  ]

  unfoldable pub make_header : MockChain → ℕ → List TxResult → Bytes → BlockHeader
  make_header mc height txs proposer = record {
    height = height;
    hash = block_hash rt height;
    network_id = mock_network_id;
    time = block_time_micro height;
    num_txs = length txs;
    total_txs = total_txs mc height txs;
    total_vdf_iterations = mul64 height 100;
    last_block_hash = block_hash rt (sub64 height 1);
    state_root = hash_bytes rt (Part.text "state" ∷ Part.num height ∷ []);
    transaction_root = hash_bytes rt (Part.text "txroot" ∷ Part.num height ∷ []);
    validator_root = hash_bytes rt (Part.text "valroot" ∷ Part.num height ∷ []);
    next_validator_root = hash_bytes rt (Part.text "nextval" ∷ Part.num height ∷ []);
    proposer_address = proposer;
  }

  -- The size is that of the block marshalled before its meta is set, or 1024 on an error.
  unfoldable pub generate_block : MockChain → ℕ → List TxResult → List Event → Result BlockResult
  generate_block mc height txs events = do
    proposer ← index mc.validators 0
    let bare : BlockResult = record {
      block_header = make_header mc height txs proposer.address;
      transactions = txs;
      events = events;
      meta = none;
    }
    let size : ℕ = elim (cn.marshal_block bare) [ some bz ↦ length bz | none ↦ 1024 ]
    ok (record bare { meta = some (record { size = size; took = 2 + height % 3 }) })

  unfoldable pub build_certificate_for_tx : MockChain → ℕ → Result QuorumCertificate
  build_certificate_for_tx mc height = do
    let bh : Bytes = elim (lookup height mc.blocks) [
      | some block ↦ block.block_header.hash
      | none ↦ block_hash rt height
    ]
    v ← index mc.validators 0
    w ← index mc.validators 1
    ok (record {
      header = record {
        network_id = mock_network_id;
        chain_id = mc.chain_id;
        height = height;
        root_height = height;
        round = 1;
        phase = cn.phase_precommit_vote;
      };
      results = record {
        payment_percents =
            record { address = v.address; percent = 60; chain_id = mc.chain_id }
            ∷ record { address = w.address; percent = 40; chain_id = mc.chain_id }
            ∷ [];
        number_of_samples = add64 10 height;
        checkpoint_height = height;
        checkpoint_hash = bh;
        dex_batch = pointer_at height mc.dex_batches;
        double_signers = double_signers mc height;
      };
      results_hash = hash_bytes rt (Part.text "result-hash" ∷ Part.num height ∷ []);
      block = bh;
      block_hash = bh;
      proposer_key = v.public_key;
      signature = take 32 (hash_bytes rt (Part.text "agg-sig" ∷ Part.num height ∷ []));
      bitmap = 0xff ∷ 0 ∷ [];
    })
