-- ===== src/Chain/New/Built.antt =====
-- The invariant of newMockChain's loop: after n rounds the maps hold exactly the heights 1 to n, and
-- what stands there fits together.
use mathlib.Core.Path.{subst, ap₂}
use native.Mathlib.Decide.{dec_lt}
use canopy_rpc_mock.Base.{
  ℕ, zero, suc, ◌+◌, ◌-◌, ◌≤◌, ◌<◌, ◌^◌, ◌≡◌, sym, ap, ◌∙◌, ◌≢◌, Option, some, none, List, arith,
  length, ok, bind-eq-ok, ok-injective, add64, sub64, Option-cases, inl, inr,
}
use canopy_rpc_mock.Base.Dict.{
  Dict, lookup, lookup-insert_self, lookup-insert_ne, length-insert_new,
}
use canopy_rpc_mock.Gen.Runtime.{Runtime}
use canopy_rpc_mock.Gen.Profile.{Profile}
use canopy_rpc_mock.Chain.Types.{DexBatch, TxResult, Event, BlockResult, QuorumCertificate}
use canopy_rpc_mock.Chain.Canopy.{Canopy}
use canopy_rpc_mock.Chain.MockChain.{MockChain, GenesisState}
use canopy_rpc_mock.Chain.Blocks.{block_hash, total_txs}
use canopy_rpc_mock.Chain.Snapshot.{snapshot_state_at}
use canopy_rpc_mock.Chain.New.{add_block, add_blocks, addresses}
use canopy_rpc_mock.Chain.New.Step.{IsBlock, IsCert, Added, grown, add_block-Added}

-- The total that a block with n transactions has after the block at height h.
abbrev pub total_after : Option BlockResult → ℕ → ℕ
total_after none n = n
total_after (some prev) n = add64 n prev.block_header.total_txs

abbrev pub running_total : Dict BlockResult → ℕ → ℕ → ℕ
running_total blocks h n = total_after (lookup h blocks) n

module _ (rt : Runtime) (cn : Canopy) where
  total_txs_lem :
      (mc : MockChain) (h : ℕ) (txs : List TxResult)
      → total_txs rt cn mc h txs ≡ running_total mc.blocks (sub64 h 1) (length txs)
  unfolding total_txs
  total_txs_lem mc h txs = elim (Option-cases (lookup (sub64 h 1) mc.blocks)) [
    | inl first ↦ rw (first, total_txs)
    | inr (prev, later) ↦ rw (later, total_txs)
  ]

  -- What stands at a height of a built chain.
  pub record At (mc : MockChain) (h : ℕ) : Type 0 where
    pub block : BlockResult
    pub cert : QuorumCertificate
    pub state : GenesisState
    pub at_block : lookup h mc.blocks ≡ some block
    pub at_cert : lookup h mc.certs ≡ some cert
    pub at_state : lookup h mc.states ≡ some state
    pub at_txs : lookup h mc.txs ≡ some block.transactions
    pub at_batch : lookup h mc.dex_batches ≡ some mc.locked_batch
    pub height : block.block_header.height ≡ h
    pub hash : block.block_header.hash ≡ block_hash rt h
    pub last_hash : block.block_header.last_block_hash ≡ block_hash rt (h - 1)
    pub num_txs : block.block_header.num_txs ≡ length block.transactions
    pub total :
        block.block_header.total_txs ≡ running_total mc.blocks (h - 1) (length block.transactions)
    pub cert_hash : cert.block_hash ≡ block.block_header.hash
    pub cert_batch : cert.results.dex_batch ≡ mc.locked_batch
    pub snapshot : snapshot_state_at rt mc (addresses mc) h ≡ ok state

  pub record IsBuilt (n : ℕ) (mc : MockChain) : Type 0 where
    pub size : length mc.blocks ≡ n
    pub no_genesis_block : lookup 0 mc.blocks ≡ none
    pub no_block_above : (h : ℕ) → n < h → lookup h mc.blocks ≡ none
    pub no_state_above : (h : ℕ) → n < h → lookup h mc.states ≡ none
    pub at : (h : ℕ) → 1 ≤ h → h ≤ n → At mc h

  module _ (mc : MockChain) (k : ℕ) (txs : List TxResult) (events : List Event)
      (block : BlockResult) (next : DexBatch) (state : GenesisState)
      (cert : QuorumCertificate) where
    abbrev after : MockChain
    after = grown rt cn mc k txs events block next state cert

    At-kept : (h : ℕ) → h ≢ k → h - 1 ≢ k → At mc h → At after h
    unfolding snapshot_state_at
    At-kept h ne ne' a = record {
      block = a.block;
      cert = a.cert;
      state = a.state;
      at_block = lookup-insert_ne h k block mc.blocks ne ∙ a.at_block;
      at_cert = lookup-insert_ne h k cert mc.certs ne ∙ a.at_cert;
      at_state = lookup-insert_ne h k state mc.states ne ∙ a.at_state;
      at_txs = lookup-insert_ne h k txs mc.txs ne ∙ a.at_txs;
      at_batch = lookup-insert_ne h k mc.locked_batch mc.dex_batches ne ∙ a.at_batch;
      height = a.height;
      hash = a.hash;
      last_hash = a.last_hash;
      num_txs = a.num_txs;
      total =
          a.total
          ∙ sym (
              ap (λ o. total_after o (length a.block.transactions))
                (lookup-insert_ne (h - 1) k block mc.blocks ne'));
      cert_hash = a.cert_hash;
      cert_batch = a.cert_batch;
      snapshot = a.snapshot;
    }

    At-added :
        1 ≤ k
        → k < 2 ^ 63
        → IsBlock rt cn mc k txs block
        → IsCert rt cn mc k block cert
        → snapshot_state_at rt mc (addresses mc) k ≡ ok state
        → At after k
    unfolding snapshot_state_at total_txs
    At-added hk bound b c s = record {
      block = block;
      cert = cert;
      state = state;
      at_block = lookup-insert_self k block mc.blocks;
      at_cert = lookup-insert_self k cert mc.certs;
      at_state = lookup-insert_self k state mc.states;
      at_txs = lookup-insert_self k txs mc.txs ∙ ap some (sym b.transactions);
      at_batch = lookup-insert_self k mc.locked_batch mc.dex_batches;
      height = b.height;
      hash = b.hash;
      last_hash = b.last_hash ∙ ap (block_hash rt) before;
      num_txs = b.num_txs;
      total =
          b.total
          ∙ total_txs_lem mc k txs
          ∙ ap₂ (λ j ts. running_total mc.blocks j (length ts)) before (sym b.transactions)
          ∙ sym (
              ap (λ o. total_after o (length block.transactions))
                (lookup-insert_ne (k - 1) k block mc.blocks (omega arith)));
      cert_hash = c.block_hash;
      cert_batch = c.dex_batch;
      snapshot = s;
    }
      where
        before : sub64 k 1 ≡ k - 1
        before = omega arith

    IsBuilt_added :
        (n : ℕ)
        → k ≡ n + 1
        → k < 2 ^ 63
        → IsBuilt n mc
        → IsBlock rt cn mc k txs block
        → IsCert rt cn mc k block cert
        → snapshot_state_at rt mc (addresses mc) k ≡ ok state
        → IsBuilt (n + 1) after
    IsBuilt_added n e bound built b c s = record {
      size =
          length-insert_new k block mc.blocks (built.no_block_above k (omega arith))
          ∙ omega (arith, built.size);
      no_genesis_block =
          lookup-insert_ne 0 k block mc.blocks (omega arith) ∙ built.no_genesis_block;
      no_block_above = λ h above.
          lookup-insert_ne h k block mc.blocks (omega arith) ∙ built.no_block_above h (omega arith);
      no_state_above = λ h above.
          lookup-insert_ne h k state mc.states (omega arith) ∙ built.no_state_above h (omega arith);
      at = λ h low high. elim (dec_lt h k) [
        | yes older ↦ At-kept h (omega arith) (omega arith) (built.at h low (omega arith))
        | no newest ↦
            let same : k ≡ h = omega arith in
            subst (At after) same (At-added (omega arith) bound b c s)
      ];
    }

  IsBuilt-step :
      (n k : ℕ) (mc mc' : MockChain)
      → k ≡ n + 1
      → k < 2 ^ 63
      → IsBuilt n mc
      → Added rt cn mc k mc'
      → IsBuilt (n + 1) mc'
  IsBuilt-step n k mc mc' e bound built a = subst (IsBuilt (n + 1)) (sym a.result) (
      IsBuilt_added mc k a.txs a.events a.block a.next a.state a.cert n e bound built a.is_block
        a.is_cert a.snapshot)

  -- The loop of newMockChain keeps the invariant.
  pub add_blocks-IsBuilt :
      (fuel : ℕ) (profile : Profile) (m n k : ℕ) (mc : MockChain) {mc' : MockChain}
      → k ≡ n + 1
      → n + m < 2 ^ 63
      → IsBuilt n mc
      → add_blocks rt cn fuel profile m k mc ≡ ok mc'
      → IsBuilt (n + m) mc'
  unfolding add_blocks
  add_blocks-IsBuilt fuel profile zero n k mc {mc'} e bound built h =
      let same : n ≡ n + 0 = omega arith in
      subst (λ j. IsBuilt j mc') same (subst (IsBuilt n) (ok-injective h) built)
  add_blocks-IsBuilt fuel profile (suc m) n k mc {mc'} e bound built h =
      let (mc1, first, rest) = bind-eq-ok (add_block rt cn fuel profile mc k) _ h in
      let same : n + 1 + m ≡ n + suc m = omega arith in
      subst (λ j. IsBuilt j mc') same
        (add_blocks-IsBuilt fuel profile m (n + 1) (k + 1) mc1 (omega arith) (omega arith)
          (IsBuilt-step n k mc mc1 e (omega arith) built
            (add_block-Added rt cn fuel profile mc k first))
          rest)
