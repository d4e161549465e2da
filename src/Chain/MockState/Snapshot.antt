-- ===== src/Chain/MockState/Snapshot.antt =====
-- snapshot and computeSupply of chain/mock_state.go.
use canopy_rpc_mock.Base.{
  ℕ, ◌/◌, Option, none, some, List, [], ◌∷◌, map, ◌==◌, ltb, if◌then◌else◌, add64, sum64_from,
  ltb_ℤ, of_bits,
}
use canopy_rpc_mock.Chain.Types.{Bytes, Account, Validator, Pool, SellOrder, OrderBook, Supply}
use canopy_rpc_mock.Chain.Canopy.{Canopy}
use canopy_rpc_mock.Chain.OrderId.{hex_decode_string}
use canopy_rpc_mock.Chain.Blocks.{block_time_micro}
use canopy_rpc_mock.Chain.MockChain.{GenesisState}
use canopy_rpc_mock.Chain.MockState.{MockState, ValidatorInfo, sort, hex_lt}

-- The bytes of a key; after an error what was decoded before it is of no use here, since every key is
-- an encoded address.
abbrev pub decoded : Option Bytes → Bytes
decoded (some bs) = bs
decoded none = []

unfoldable pub account_entries : MockState → List Account
account_entries s =
    map (λ (p : Bytes × ℕ). record { address = decoded (hex_decode_string p.0); amount = p.1 })
      s.accounts

abbrev pub validator_of : ValidatorInfo → Validator
validator_of v = record {
  address = v.addr;
  public_key = v.pub_key;
  net_address = v.net_address;
  staked_amount = v.stake;
  committees = v.committees;
  max_paused_height = 0;
  unstaking_height = v.unstaking_at;
  output = v.output_address;
  delegate = v.delegate;
  compound = v.compound;
}

unfoldable pub validator_entries : MockState → List Validator
validator_entries s = map (λ (p : Bytes × ValidatorInfo). validator_of p.1) s.validators

-- The clones of the pools: only the liquidity pool keeps its points.
unfoldable pub clone_pool : ℕ → Pool → Pool
clone_pool liquidity pool =
    if pool.id == liquidity then pool else record pool { points = []; total_pool_points = 0 }

unfoldable pub pool_entries : Canopy → MockState → List Pool
pool_entries cn s =
    map (λ (p : ℕ × Pool). clone_pool (add64 s.chain_id cn.liquidity_pool_addend) p.1) s.pools

-- The books by chain, whose identifiers are sorted as ints.
unfoldable pub book_entries : MockState → List (Option OrderBook)
book_entries s =
    map (λ (p : ℕ × List (Option SellOrder)). some (record { chain_id = p.0; orders = p.1 }))
      (sort (λ p q. ltb_ℤ (of_bits p.0) (of_bits q.0)) s.order_books)

-- The sums over the accounts, the validators and the pools.
unfoldable pub compute_supply : MockState → List Validator → List Pool → Supply
compute_supply s validators pools =
    let balances = sum64_from 0 (map (λ (p : Bytes × ℕ). p.1) s.accounts) in
    let staked = sum64_from 0 (map (λ (v : Validator). v.staked_amount) validators) in
    let total = sum64_from balances (map (λ (p : Pool). p.amount) pools) in
    record {
      total = add64 total staked;
      staked = staked;
      delegated_only = staked / 4;
      committee_staked = pools;
      committee_delegated_only = pools;
    }

-- The supply shares the slice of the pools, which is sorted after it is computed.
unfoldable pub snapshot : Canopy → MockState → GenesisState
snapshot cn s =
    let validators = validator_entries s in
    let pools = sort (λ (p q : Pool). ltb p.id q.id) (pool_entries cn s) in
    let supply = compute_supply s validators (pool_entries cn s) in
    record {
      time = block_time_micro s.height;
      pools = pools;
      accounts = sort (λ (a b : Account). hex_lt a.address b.address) (account_entries s);
      validators = sort (λ (v w : Validator). hex_lt v.address w.address) validators;
      params = s.params;
      supply = some (record supply { committee_staked = pools; committee_delegated_only = pools });
      committees = some s.committee_set;
      order_books = some (record { order_books = book_entries s });
      non_signers = s.non_signers;
      double_signers = s.double_sign;
      retired_committees = 42 ∷ [];
    }
