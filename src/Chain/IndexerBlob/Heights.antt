-- ===== src/Chain/IndexerBlob/Heights.antt =====
-- Which query heights of a built chain have blobs.
use native.Mathlib.Decide.{dec_lt}
use canopy_rpc_mock.Base.{
  ℕ, ◌+◌, ◌-◌, ◌≤◌, ◌<◌, ◌^◌, ◌≡◌, ◌⊎◌, refl, ap, ◌∙◌, inl, inr, Option, none, some, List, [], ◌∷◌,
  arith, pos, ok, leb, if◌then◌else◌,
}
use canopy_rpc_mock.Base.Dict.{lookup}
use canopy_rpc_mock.Gen.Runtime.{Runtime}
use canopy_rpc_mock.Chain.Types.{
  Bytes, BlockResult, Account, Pool, Validator, Supply, OrderBooks, CommitteesData,
}
use canopy_rpc_mock.Chain.Params.{Params}
use canopy_rpc_mock.Chain.Canopy.{Canopy}
use canopy_rpc_mock.Chain.MockChain.{MockChain, GenesisState}
use canopy_rpc_mock.Chain.New.{ChainOption, new_mock_chain}
use canopy_rpc_mock.Chain.New.Built.{IsBuilt}
use canopy_rpc_mock.Chain.New.Heights.{new_mock_chain_parts}
use canopy_rpc_mock.Chain.IndexerBlob.{
  Marshal, Answer, refused, given, ◌>>=◌, unknown_height, marshalled, marshal_each,
  marshal_committees, IndexerBlob, IndexerBlobs, assemble_blob, blob_of_block, build_indexer_blob,
  previous_blob, build_indexer_blobs,
}

-- lib.Marshal has no error for any value of the chain.
pub record IsTotal (ms : Marshal) : Type 0 where
  pub block : (x : BlockResult) → (bz : Bytes) × (ms.block x ≡ some bz)
  pub account : (x : Account) → (bz : Bytes) × (ms.account x ≡ some bz)
  pub pool : (x : Pool) → (bz : Bytes) × (ms.pool x ≡ some bz)
  pub validator : (x : Validator) → (bz : Bytes) × (ms.validator x ≡ some bz)
  pub params : (x : Params) → (bz : Bytes) × (ms.params x ≡ some bz)
  pub supply : (x : Option Supply) → (bz : Bytes) × (ms.supply x ≡ some bz)
  pub order_books : (x : Option OrderBooks) → (bz : Bytes) × (ms.order_books x ≡ some bz)
  pub committees : (x : CommitteesData) → (bz : Bytes) × (ms.committees x ≡ some bz)

bind-given {ℓ κ} :
    {A : Type ℓ} {B : Type κ} (r : Answer A) (next : A → Answer B) {x : A}
    → r ≡ given x
    → ((y : B) × (next x ≡ given y))
    → (y : B) × ((r >>= next) ≡ given y)
bind-given r next {x} e (y, e') = (y, ap (λ a. a >>= next) e ∙ e')

marshal_each-given {ℓ} :
    {A : Type ℓ} (marshal : A → Option Bytes) (items : List A)
    → ((x : A) → (bz : Bytes) × (marshal x ≡ some bz))
    → (bzs : List Bytes) × (marshal_each marshal items ≡ given bzs)
unfolding marshal_each
marshal_each-given marshal [] h = ([], refl)
marshal_each-given marshal (item ∷ items) h =
    let (bz, e) = h item in
    let (rest, e') = marshal_each-given marshal items h in (bz ∷ rest, rw (e, e'))

module _ (rt : Runtime) (ms : Marshal) (total : IsTotal ms) where
  marshal_committees-given :
      (c : Option CommitteesData) → (o : Option Bytes) × (marshal_committees rt ms c ≡ given o)
  unfolding marshal_committees
  marshal_committees-given none = (none, refl)
  marshal_committees-given (some c) = let (bz, e) = total.committees c in (some bz, rw e)

  assemble_blob-given :
      (mc : MockChain) (height : ℕ) (block : BlockResult) (state : GenesisState)
      → (blob : IndexerBlob) × (assemble_blob rt ms mc height block state ≡ given blob)
  unfolding assemble_blob
  assemble_blob-given mc height block state =
      bind-given (marshalled (ms.block block)) _ (ap marshalled (total.block block).1) (
        bind-given (marshal_each ms.account state.accounts) _
          (marshal_each-given ms.account state.accounts total.account).1
          (bind-given (marshal_each ms.pool state.pools) _
            (marshal_each-given ms.pool state.pools total.pool).1
            (bind-given (marshal_each ms.validator state.validators) _
              (marshal_each-given ms.validator state.validators total.validator).1
              (bind-given (marshalled (ms.params state.params)) _
                (ap marshalled (total.params state.params).1)
                (bind-given (marshalled (ms.supply state.supply)) _
                  (ap marshalled (total.supply state.supply).1)
                  (bind-given (marshalled (ms.order_books state.order_books)) _
                    (ap marshalled (total.order_books state.order_books).1)
                    (bind-given (marshal_committees rt ms state.committees) _
                      (marshal_committees-given state.committees).1 (_, refl))))))))

  build_indexer_blob-given :
      (mc : MockChain) (height : ℕ) (block : BlockResult) (state : GenesisState)
      → lookup height mc.blocks ≡ some block
      → lookup height mc.states ≡ some state
      → (blob : IndexerBlob) × (build_indexer_blob rt ms mc height ≡ given blob)
  unfolding build_indexer_blob blob_of_block
  build_indexer_blob-given mc height block state e e' =
      let (bz, e1) = total.block block in
      let (blob, e2) = assemble_blob-given mc height block state in
      (blob, rw (e, build_indexer_blob, e1, e', e2))

module _ (rt : Runtime) (cn : Canopy) (ms : Marshal) (fuel n chain_id : ℕ) (opts : List ChainOption)
    {mc : MockChain} (bound : n < 2 ^ 63)
    (made : new_mock_chain rt cn fuel (pos n) chain_id opts ≡ ok mc) where
  built : IsBuilt rt cn n mc
  built = (new_mock_chain_parts rt cn fuel n chain_id opts bound made).0

  blob_missing :
      (height : ℕ)
      → lookup height mc.blocks ≡ none
      → build_indexer_blob rt ms mc height ≡ refused (unknown_height height)
  unfolding build_indexer_blob
  blob_missing height e = rw (e, build_indexer_blob)

  -- In a chain that newMockChain returns for n < 2 ^ 63 blocks, BuildIndexerBlobs refuses a query
  -- height of 0 or 1 with that height as unknown, and one above n + 1 with the height below it.
  pub build_indexer_blobs_unknown :
      (q : ℕ)
      → (q ≤ 1) ⊎ (n + 1 < q)
      → build_indexer_blobs rt ms mc q ≡ refused (unknown_height (if leb q 1 then q else q - 1))
  unfolding build_indexer_blobs
  build_indexer_blobs_unknown q (inl low) = ground arith
  build_indexer_blobs_unknown q (inr high) =
      ground (arith, blob_missing (q - 1) (built.no_block_above (q - 1) (omega arith)))

  blob_here :
      IsTotal ms
      → (height : ℕ) → 1 ≤ height
      → height ≤ n
      → (blob : IndexerBlob) × (build_indexer_blob rt ms mc height ≡ given blob)
  blob_here total height low high =
      let a = built.at height low high in
      build_indexer_blob-given rt ms total mc height a.block a.state a.at_block a.at_state

  -- In a chain that newMockChain returns for n < 2 ^ 63 blocks, BuildIndexerBlobs answers a query
  -- height q from 2 to n + 1 with the blob of height q - 1 and, from q = 3 on, with that of height
  -- q - 2 as the previous one, if lib.Marshal has no error.
  pub build_indexer_blobs_served :
      IsTotal ms
      → (q : ℕ) → 2 ≤ q
      → q ≤ n + 1
      → (blobs : IndexerBlobs) × (build_indexer_blobs rt ms mc q ≡ given blobs)
        × (build_indexer_blob rt ms mc (q - 1) ≡ given blobs.current)
        × (((q ≡ 2) × (blobs.previous ≡ none))
            ⊎ ((b : IndexerBlob) × (blobs.previous ≡ some b)
                × (build_indexer_blob rt ms mc (q - 2) ≡ given b)))
  unfolding build_indexer_blobs previous_blob
  build_indexer_blobs_served total q low high =
      let (current, e) = blob_here total (q - 1) (omega arith) (omega arith) in
      elim (dec_lt 2 q) [
        | yes later ↦
            let (previous, e') = blob_here total (q - 2) (omega arith) (omega arith) in
            (
              record { current = current; previous = some previous },
              ground (arith, e, e'),
              e,
              inr (previous, refl, e'),
            )
        | no first ↦ (
          record { current = current; previous = none },
          ground (arith, e),
          e,
          inl (omega arith, refl),
        )
      ]
