-- ===== src/Chain/MockChain.antt =====
-- The state of chain/mock_data.go, mockChain, and the methods that read it.
use canopy_rpc_mock.Base.{
  ℕ, ◌%◌, Option, none, some, List, [], ◌∷◌, ◌==◌, not, ◌&&◌, ◌||◌, if◌then◌else◌, add64, length,
}
use canopy_rpc_mock.Base.Dict.{Dict, lookup}
use canopy_rpc_mock.Chain.Types.{
  Bytes, Account, Pool, Validator, OrderBooks, DexPrice, DexBatch, CommitteesData, NonSigner,
  DoubleSigner, Supply, QuorumCertificate, TxResult, Event, BlockResult,
}
use canopy_rpc_mock.Chain.Canopy.{Canopy}
use canopy_rpc_mock.Chain.Params.{Params}
use canopy_rpc_mock.Chain.Governance.{PollResult, GovProposal}

-- fsm.GenesisState
pub record GenesisState : Type 0 where
  pub time : ℕ
  pub pools : List Pool
  pub accounts : List Account
  pub validators : List Validator
  pub params : Params
  pub supply : Option Supply
  pub committees : Option CommitteesData
  pub order_books : Option OrderBooks
  pub non_signers : List NonSigner
  pub double_signers : List DoubleSigner
  pub retired_committees : List ℕ

pub record MockChain : Type 0 where
  pub chain_id : ℕ
  pub blocks : Dict BlockResult
  pub certs : Dict QuorumCertificate
  pub txs : Dict (List TxResult)
  pub events : Dict (List Event)
  pub dex_batches : Dict (Option DexBatch)
  pub next_dex_batches : Dict (Option DexBatch)
  pub states : Dict GenesisState
  pub accounts : List Account
  pub pools : List Pool
  pub validators : List Validator
  pub order_books : OrderBooks
  pub dex_prices : List DexPrice
  pub params : Params
  pub committees : CommitteesData
  pub subsidized_committees : List ℕ
  pub retired_committees : List ℕ
  pub poll : List (Bytes × PollResult)
  pub proposals : List (Bytes × GovProposal)
  pub locked_batch : Option DexBatch
  pub locked_batch_height : ℕ

-- m[k] for a map to slices: nil, the empty slice, on a missing key
abbrev pub list_at {ℓ} : {A : Type ℓ} → ℕ → Dict (List A) → List A
list_at k d = elim (lookup k d) [ some xs ↦ xs | none ↦ [] ]

-- m[k] for a map to pointers: nil on a missing key
abbrev pub pointer_at {ℓ} : {A : Type ℓ} → ℕ → Dict (Option A) → Option A
pointer_at k d = elim (lookup k d) [ some p ↦ p | none ↦ none ]

unfoldable pub latest_height : MockChain → ℕ
latest_height mc = length mc.blocks

unfoldable pub state_at : MockChain → ℕ → Option GenesisState
state_at mc height = lookup height mc.states

unfoldable pub block_at : MockChain → ℕ → Option BlockResult
block_at mc height = lookup height mc.blocks

unfoldable pub cert_at : MockChain → ℕ → Option QuorumCertificate
cert_at mc height = lookup height mc.certs

unfoldable pub txs_at : MockChain → ℕ → List TxResult
txs_at mc height = list_at height mc.txs

unfoldable pub events_at : MockChain → ℕ → List Event
events_at mc height = list_at height mc.events

unfoldable pub dex_batch_at : MockChain → ℕ → Option (Option DexBatch)
dex_batch_at mc height = lookup height mc.dex_batches

unfoldable pub next_dex_batch_at : MockChain → ℕ → Option (Option DexBatch)
next_dex_batch_at mc height = lookup height mc.next_dex_batches

-- the supply of what stateAt finds
abbrev pub supply_of : Option GenesisState → Option Supply
supply_of none = none
supply_of (some s) = s.supply

unfoldable pub supply_at : MockChain → ℕ → Option Supply
unfolding state_at
supply_at mc height = supply_of (state_at mc height)

unfoldable pub accounts_at : MockChain → ℕ → List Account
unfolding state_at
accounts_at mc height = elim (state_at mc height) [ some s ↦ s.accounts | none ↦ [] ]

unfoldable pub pools_at : MockChain → ℕ → List Pool
unfolding state_at
pools_at mc height = elim (state_at mc height) [ some s ↦ s.pools | none ↦ [] ]

unfoldable pub validators_at : MockChain → ℕ → List Validator
unfolding state_at
validators_at mc height = elim (state_at mc height) [ some s ↦ s.validators | none ↦ [] ]

unfoldable pub non_signers : MockChain → ℕ → List NonSigner
unfolding state_at
non_signers mc height =
    if not (height == 0) && height % 10 == 0
    then []
    else elim (state_at mc height) [ some s ↦ s.non_signers | none ↦ [] ]

unfoldable pub double_signers : MockChain → ℕ → List DoubleSigner
unfolding state_at
double_signers mc height = elim (state_at mc height) [ some s ↦ s.double_signers | none ↦ [] ]

module _ (cn : Canopy) where
  -- the two prices of a batch
  unfoldable pub batch_prices : ℕ → DexBatch → List DexPrice
  batch_prices chain_id b =
      record {
        local_chain_id = chain_id;
        remote_chain_id = add64 chain_id 1;
        local_pool = b.pool_size;
        remote_pool = b.counter_pool_size;
        e6_scaled_price = cn.safe_mul_div b.pool_size 1_000_000 b.counter_pool_size;
      }
      ∷ record {
        local_chain_id = add64 chain_id 1;
        remote_chain_id = chain_id;
        local_pool = b.counter_pool_size;
        remote_pool = b.pool_size;
        e6_scaled_price = cn.safe_mul_div b.counter_pool_size 1_000_000 b.pool_size;
      }
      ∷ []

  -- none is the nil slice
  unfoldable pub dex_prices_at : MockChain → ℕ → Option (List DexPrice)
  unfolding latest_height batch_prices
  dex_prices_at mc height =
      let h = if height == 0 then latest_height mc else height in
      elim (pointer_at h mc.dex_batches) [
        | none ↦ none
        | some b ↦
            if b.pool_size == 0 || b.counter_pool_size == 0
            then none
            else some (batch_prices mc.chain_id b)
      ]
