-- ===== src/Tests/Blobs.antt =====
-- Examples for the indexer blobs, on the chain of Tests/Chain.
use canopy_rpc_mock.Base.{ℕ, ◌≡◌, ◌⊎◌, inr, refl, arith, none, some, [], ◌∷◌}
use canopy_rpc_mock.Chain.Types.{BlockResult}
use canopy_rpc_mock.Chain.MockChain.{GenesisState, block_at, state_at}
use canopy_rpc_mock.Chain.IndexerBlob.{
  Marshal, refused, given, unknown_height, IndexerBlob, IndexerBlobs, build_indexer_blob,
  build_indexer_blobs,
}
use canopy_rpc_mock.Chain.IndexerBlob.Counts.{IsBlobOf, build_indexer_blob-IsBlobOf}
use canopy_rpc_mock.Chain.IndexerBlob.Heights.{
  IsTotal, build_indexer_blobs_unknown, build_indexer_blobs_served,
}
use canopy_rpc_mock.Tests.{toy, toy_canopy}
use canopy_rpc_mock.Tests.Chain.{two_validators, chain, made, few}

abbrev query : ℕ
query = 3

abbrev pub marshal : Marshal
marshal = record {
  block = λ b. some b.block_header.hash;
  account = λ a. some a.address;
  pool = λ p. some (p.id ∷ []);
  validator = λ v. some v.address;
  params = λ p. some (1 ∷ []);
  supply = λ s. some (2 ∷ []);
  order_books = λ o. some (3 ∷ []);
  committees = λ c. some (4 ∷ []);
}

marshal-IsTotal : IsTotal marshal
marshal-IsTotal = record {
  block = λ b. (_, refl);
  account = λ a. (_, refl);
  pool = λ p. (_, refl);
  validator = λ v. (_, refl);
  params = λ p. (_, refl);
  supply = λ s. (_, refl);
  order_books = λ o. (_, refl);
  committees = λ c. (_, refl);
}

build_indexer_blobs_unknown_example :
    build_indexer_blobs toy marshal chain 5 ≡ refused (unknown_height 4)
build_indexer_blobs_unknown_example =
    build_indexer_blobs_unknown toy toy_canopy marshal 9 3 2 two_validators few made 5
      (inr (omega arith))

build_indexer_blobs_served_example :
    (blobs : IndexerBlobs) × (build_indexer_blobs toy marshal chain 3 ≡ given blobs)
    × (build_indexer_blob toy marshal chain 2 ≡ given blobs.current)
    × (((query ≡ 2) × (blobs.previous ≡ none))
        ⊎ ((b : IndexerBlob) × (blobs.previous ≡ some b)
            × (build_indexer_blob toy marshal chain 1 ≡ given b)))
build_indexer_blobs_served_example =
    build_indexer_blobs_served toy toy_canopy marshal 9 3 2 two_validators few made marshal-IsTotal
      3 (omega arith) (omega arith)

blob_2 : (blob : IndexerBlob) × (build_indexer_blob toy marshal chain 2 ≡ given blob)
blob_2 =
    let served =
      build_indexer_blobs_served toy toy_canopy marshal 9 3 2 two_validators few made
        marshal-IsTotal 3 (omega arith) (omega arith) in
    (served.0.current, served.2)

build_indexer_blob-IsBlobOf_example :
    (block : BlockResult) × (state : GenesisState) × (block_at chain 2 ≡ some block)
    × (state_at chain 2 ≡ some state)
    × IsBlobOf toy marshal 2 block state blob_2.0
build_indexer_blob-IsBlobOf_example = build_indexer_blob-IsBlobOf toy marshal chain 2 blob_2.1
