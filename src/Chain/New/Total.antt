-- ===== src/Chain/New/Total.antt =====
-- The running total of transactions over a built chain.
use canopy_rpc_mock.Base.{
  ℕ, zero, suc, ◌+◌, ◌-◌, ◌%◌, ◌≤◌, ◌<◌, ◌^◌, ◌≡◌, sym, ap, ◌∙◌, Option, some, none, List, arith,
  ok, pos, length, u64_mod, some-injective,
}
use canopy_rpc_mock.Base.Dict.{lookup}
use canopy_rpc_mock.Gen.Runtime.{Runtime}
use canopy_rpc_mock.Chain.Types.{BlockResult}
use canopy_rpc_mock.Chain.Canopy.{Canopy}
use canopy_rpc_mock.Chain.MockChain.{MockChain, block_at, txs_at, list_at}
use canopy_rpc_mock.Chain.New.{ChainOption, new_mock_chain}
use canopy_rpc_mock.Chain.New.Built.{At, IsBuilt, total_after}
use canopy_rpc_mock.Chain.New.Served.{heights_served}
use canopy_rpc_mock.Chain.New.Heights.{new_mock_chain_parts}

-- The transactions that the chain serves at the heights 1 to h.
pub txs_up_to : MockChain → ℕ → ℕ
txs_up_to mc zero = 0
txs_up_to mc (suc h) = length (txs_at mc (suc h)) + txs_up_to mc h

module _ (rt : Runtime) (cn : Canopy) (n : ℕ) (mc : MockChain) (built : IsBuilt rt cn n mc) where
  length-txs_at : (h : ℕ) (a : At rt cn mc h) → length (txs_at mc h) ≡ length a.block.transactions
  unfolding txs_at
  length-txs_at h a = rw (a.at_txs, list_at)

  -- The total at a height, by whatever stands one below it.
  total-after :
      (h : ℕ) (a : At rt cn mc (suc h)) (o : Option BlockResult)
      → lookup h mc.blocks ≡ o
      → a.block.block_header.total_txs ≡ total_after o (length (txs_at mc (suc h)))
  total-after h a o e =
      let below : suc h - 1 ≡ h = omega arith in
      a.total
      ∙ ap (λ k. total_after (lookup k mc.blocks) (length a.block.transactions)) below
      ∙ ap (λ p. total_after p (length a.block.transactions)) e
      ∙ ap (total_after o) (sym (length-txs_at (suc h) a))

  total_lem :
      (h : ℕ) (b : BlockResult)
      → suc h ≤ n
      → lookup (suc h) mc.blocks ≡ some b
      → b.block_header.total_txs % u64_mod ≡ txs_up_to mc (suc h) % u64_mod
  unfolding txs_up_to
  total_lem zero b high e =
      let a = built.at 1 (omega arith) high in
      let same : a.block.block_header.total_txs ≡ b.block_header.total_txs =
        ap (λ (x : BlockResult). x.block_header.total_txs) (some-injective (sym a.at_block ∙ e)) in
      omega (arith, same, total-after 0 a none built.no_genesis_block)
  total_lem (suc h) b high e =
      let a = built.at (suc (suc h)) (omega arith) high in
      let prev = built.at (suc h) (omega arith) (omega arith) in
      let same : a.block.block_header.total_txs ≡ b.block_header.total_txs =
        ap (λ (x : BlockResult). x.block_header.total_txs) (some-injective (sym a.at_block ∙ e)) in
      omega (
        arith,
        same,
        total-after (suc h) a (some prev.block) prev.at_block,
        total_lem h prev.block (omega arith) prev.at_block,
      )

module _ (rt : Runtime) (cn : Canopy) (fuel n chain_id : ℕ) (opts : List ChainOption)
    {mc : MockChain} (bound : n < 2 ^ 63)
    (made : new_mock_chain rt cn fuel (pos n) chain_id opts ≡ ok mc) where
  -- In a chain that newMockChain returns for fewer than 2 ^ 63 blocks, the TotalTxs of the block
  -- at a height is, modulo 2 ^ 64, the number of transactions served at the heights from 1 to that
  -- one, and its NumTxs is the number of transactions served at its height.
  pub total_txs_counts :
      (h : ℕ) {b : BlockResult}
      → block_at mc h ≡ some b
      → (b.block_header.total_txs % u64_mod ≡ txs_up_to mc h % u64_mod)
        × (b.block_header.num_txs ≡ length (txs_at mc h))
  unfolding block_at
  total_txs_counts zero {b} e =
      cc ((new_mock_chain_parts rt cn fuel n chain_id opts bound made).0.no_genesis_block)
  total_txs_counts (suc h) {b} e =
      let built = (new_mock_chain_parts rt cn fuel n chain_id opts bound made).0 in
      let high = (((heights_served rt cn fuel n chain_id opts bound made).1 (suc h)).1 (b, e)).1 in
      let a = built.at (suc h) (omega arith) high in
      let same : a.block ≡ b = some-injective (sym a.at_block ∙ e) in
      (
        total_lem rt cn n mc built h b high e,
        ap (λ (x : BlockResult). x.block_header.num_txs) (sym same)
            ∙ a.num_txs
            ∙ sym (length-txs_at rt cn n mc built (suc h) a),
      )
