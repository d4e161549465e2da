-- ===== src/Chain/IndexerBlob.antt =====
-- chain/indexer_blob.go: the blobs of a height for the indexer. lib.Marshal is a parameter, one
-- operation for each type that it is called at; none is its error.
pub mod Counts
pub mod Heights
use canopy_rpc_mock.Base.{
  ℕ, zero, suc, ◌+◌, ◌-◌, ◌%◌, ◌^◌, Bool, Option, none, some, List, [], ◌∷◌, ltb, leb,
  if◌then◌else◌, add64,
}
use canopy_rpc_mock.Base.Dict.{lookup}
use canopy_rpc_mock.Gen.Runtime.{Runtime}
use canopy_rpc_mock.Gen.Lifecycle.{ValidatorStatus, active, unstaked, validator_status_at}
use canopy_rpc_mock.Chain.Types.{
  Bytes, Account, Pool, Validator, Supply, OrderBooks, CommitteesData, BlockResult,
}
use canopy_rpc_mock.Chain.Params.{Params}
use canopy_rpc_mock.Chain.MockChain.{MockChain, GenesisState}

-- lib.Marshal at the types of this file
pub record Marshal : Type 0 where
  pub block : BlockResult → Option Bytes
  pub account : Account → Option Bytes
  pub pool : Pool → Option Bytes
  pub validator : Validator → Option Bytes
  pub params : Params → Option Bytes
  pub supply : Option Supply → Option Bytes
  pub order_books : Option OrderBooks → Option Bytes
  pub committees : CommitteesData → Option Bytes

-- An error that wraps ErrUnknownHeight with its height, or the error of lib.Marshal.
pub data BlobError : Type 0 where
  unknown_height : ℕ → BlobError
  marshal_failed : BlobError

-- A value, or an error beside a nil value.
pub data Answer {ℓ} (A : Type ℓ) : Type ℓ where
  refused : BlobError → Answer A
  given : A → Answer A

module _ {ℓ κ} {A : Type ℓ} {B : Type κ} where
  infixl 5 ◌>>=◌
  abbrev pub ◌>>=◌ : Answer A → (A → Answer B) → Answer B
  refused why >>= next = refused why
  given x >>= next = next x

-- bz, err := lib.Marshal(v), and the return on an error
abbrev pub marshalled {ℓ} : {A : Type ℓ} → Option A → Answer A
marshalled none = refused marshal_failed
marshalled (some bz) = given bz

unfoldable pub marshal_each {ℓ} : {A : Type ℓ} → (A → Option Bytes) → List A → Answer (List Bytes)
marshal_each marshal [] = given []
marshal_each marshal (item ∷ items) = do
  bz ← marshalled (marshal item)
  rest ← marshal_each marshal items
  given (bz ∷ rest)

-- fsm.IndexerBlob
pub record IndexerBlob : Type 0 where
  pub block : Bytes
  pub accounts : List Bytes
  pub pools : List Bytes
  pub validators : List Bytes
  pub params : Bytes
  pub supply : Bytes
  pub orders : Bytes
  pub committees_data : Option Bytes
  pub subsidized_committees : List ℕ
  pub retired_committees : List ℕ
  pub total_validators_active : ℕ
  pub total_validators_paused : ℕ
  pub total_validators_unstaking : ℕ

-- fsm.IndexerBlobs
pub record IndexerBlobs : Type 0 where
  pub current : IndexerBlob
  pub previous : Option IndexerBlob

module _ (rt : Runtime) where
  -- totalActive and totalUnstaking of the loop over the validators
  unfoldable pub total_active : ℕ → List Validator → ℕ
  total_active height [] = 0
  total_active height (v ∷ vs) = elim (validator_status_at rt v.address 0 height) [
    | active ↦ total_active height vs + 1
    | unstaked ↦ total_active height vs
  ]

  unfoldable pub total_unstaking : ℕ → List Validator → ℕ
  total_unstaking height [] = 0
  total_unstaking height (v ∷ vs) = elim (validator_status_at rt v.address 0 height) [
    | active ↦ total_unstaking height vs
    | unstaked ↦ total_unstaking height vs + 1
  ]

module _ (rt : Runtime) (ms : Marshal) where
  -- the nil committees give nil bytes
  unfoldable pub marshal_committees : Option CommitteesData → Answer (Option Bytes)
  marshal_committees none = given none
  marshal_committees (some data_of) = do bz ← marshalled (ms.committees data_of); given (some bz)

  -- BuildIndexerBlob once the block and the state are found
  unfoldable pub assemble_blob : MockChain → ℕ → BlockResult → GenesisState → Answer IndexerBlob
  assemble_blob mc block_height block state = do
    block_bz ← marshalled (ms.block block)
    accounts_bz ← marshal_each ms.account state.accounts
    pools_bz ← marshal_each ms.pool state.pools
    validators_bz ← marshal_each ms.validator state.validators
    params_bz ← marshalled (ms.params state.params)
    supply_bz ← marshalled (ms.supply state.supply)
    orders_bz ← marshalled (ms.order_books state.order_books)
    committees_bz ← marshal_committees state.committees
    given (record {
      block = block_bz;
      accounts = accounts_bz;
      pools = pools_bz;
      validators = validators_bz;
      params = params_bz;
      supply = supply_bz;
      orders = orders_bz;
      committees_data = committees_bz;
      subsidized_committees = mc.subsidized_committees;
      retired_committees = mc.retired_committees;
      total_validators_active = total_active rt (add64 block_height 1) state.validators % 2 ^ 32;
      total_validators_paused = 0;
      total_validators_unstaking =
          total_unstaking rt (add64 block_height 1) state.validators % 2 ^ 32;
    })

  -- The block is marshalled before the state is looked up, so its error comes first.
  unfoldable pub blob_of_block : MockChain → ℕ → BlockResult → Answer IndexerBlob
  blob_of_block mc block_height block = do
    _ ← marshalled (ms.block block)
    elim (lookup block_height mc.states) [
      | none ↦ refused (unknown_height block_height)
      | some state ↦ assemble_blob mc block_height block state
    ]

  unfoldable pub build_indexer_blob : MockChain → ℕ → Answer IndexerBlob
  build_indexer_blob mc block_height = elim (lookup block_height mc.blocks) [
    | none ↦ refused (unknown_height block_height)
    | some block ↦ blob_of_block mc block_height block
  ]

  -- the previous blob of BuildIndexerBlobs
  unfoldable pub previous_blob : MockChain → ℕ → Answer (Option IndexerBlob)
  previous_blob mc query_height =
      if ltb 2 query_height
      then build_indexer_blob mc (query_height - 2) >>= (λ previous. given (some previous))
      else given none

  unfoldable pub build_indexer_blobs : MockChain → ℕ → Answer IndexerBlobs
  build_indexer_blobs mc query_height =
      if leb query_height 1 then refused (unknown_height query_height) else do
        current ← build_indexer_blob mc (query_height - 1)
        previous ← previous_blob mc query_height
        given (record { current = current; previous = previous })
