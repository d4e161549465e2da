-- ===== src/Tests/State.antt =====
-- Examples for the mock state and the order identifiers.
use canopy_rpc_mock.Base.{
  ℕ, ◌+◌, ◌-◌, ◌≡◌, refl, arith, some, List, [], ◌∷◌, length, ◌==◌, if◌then◌else◌, sum64_from, sum,
  map, ◌%◌, u64_mod,
}
use canopy_rpc_mock.Base.Dict.{lookup}
use canopy_rpc_mock.Chain.Types.{Bytes, Pool, DexLiquidityWithdraw}
use canopy_rpc_mock.Chain.Params.{build_params}
use canopy_rpc_mock.Chain.Governance.{hex_encode}
use canopy_rpc_mock.Chain.OrderId.{
  order_id_from_tx_hash, order_id_from_tx_hash_string, order_id_from_tx_hash_string-hex_encode,
}
use canopy_rpc_mock.Chain.MockState.{MockState}
use canopy_rpc_mock.Chain.MockState.Batch.{liquidity_id, apply_batch_withdrawals}
use canopy_rpc_mock.Chain.MockState.Withdrawals.{
  KeepsAmount, paid_out, apply_batch_withdrawals-pays,
}
use canopy_rpc_mock.Chain.Types.{Supply}
use canopy_rpc_mock.Chain.Snapshot.Parts.{amounts_of, stakes_of}
use canopy_rpc_mock.Chain.MockState.Snapshot.{snapshot}
use canopy_rpc_mock.Chain.MockState.Supply.{pool_amounts, IsAscending, snapshot-supply}
use canopy_rpc_mock.Tests.{toy_canopy}

abbrev tx_hash : Bytes
tx_hash = 0 ∷ 171 ∷ 255 ∷ []

order_id_from_tx_hash_string-hex_encode_example :
    order_id_from_tx_hash_string (hex_encode tx_hash) ≡ order_id_from_tx_hash tx_hash
order_id_from_tx_hash_string-hex_encode_example =
    order_id_from_tx_hash_string-hex_encode tx_hash (omega arith, (omega arith, (omega arith, tt)))

abbrev liquidity : Pool
liquidity = record {
  id = 2001;
  amount = 500;
  points = record { address = 7 ∷ []; points = 60 } ∷ record { address = 8 ∷ []; points = 40 } ∷ [];
  total_pool_points = 100;
}

abbrev holding : Pool
holding = record { id = 1001; amount = 90; points = []; total_pool_points = 0 }

abbrev two_pools : MockState
two_pools = record {
  chain_id = 1;
  height = 4;
  accounts = (b'0' ∷ b'9' ∷ [], 30) ∷ (b'0' ∷ b'7' ∷ [], 12) ∷ [];
  validators = [];
  order_books = [];
  pools = (1001, holding) ∷ (2001, liquidity) ∷ [];
  params = build_params 1;
  committee_set = [];
  non_signers = [];
  double_sign = [];
  dex_prices = [];
  events = [];
  delayed_events = [];
}

-- Half the points of one address, and all of the other's and more.
abbrev withdrawals : List DexLiquidityWithdraw
withdrawals =
    record { address = 7 ∷ []; percent = 50 } ∷ record { address = 8 ∷ []; percent = 130 } ∷ []

toy_canopy-KeepsAmount : KeepsAmount toy_canopy
toy_canopy-KeepsAmount = record { amount = λ p addr n. refl }

apply_batch_withdrawals-pays_example :
    (pool' : Pool) × (length (apply_batch_withdrawals toy_canopy two_pools withdrawals).1 ≡ 2)
    × (pool'.amount
        ≡ 500
          - sum64_from 0 (paid_out (apply_batch_withdrawals toy_canopy two_pools withdrawals).1))
    × ((id : ℕ)
        → lookup id (apply_batch_withdrawals toy_canopy two_pools withdrawals).0.pools ≡ (
            if id == liquidity_id toy_canopy two_pools
            then some pool'
            else lookup id two_pools.pools))
apply_batch_withdrawals-pays_example =
    apply_batch_withdrawals-pays toy_canopy two_pools withdrawals toy_canopy-KeepsAmount refl
      (omega arith) (omega arith) (omega arith)

snapshot-supply_example :
    let g = snapshot toy_canopy two_pools in
    (supply : Supply) × (g.supply ≡ some supply)
    × (supply.total
        ≡ (sum (amounts_of g.accounts) + sum (pool_amounts g.pools) + sum (stakes_of g.validators))
          % u64_mod)
    × (supply.staked ≡ sum (stakes_of g.validators) % u64_mod)
    × (supply.committee_staked ≡ g.pools)
    × IsAscending (map (λ (p : Pool). p.id) g.pools)
snapshot-supply_example = snapshot-supply toy_canopy two_pools
