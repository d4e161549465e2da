-- ===== src/Chain/IndexerBlob/Counts.antt =====
-- What a blob says of its height.
use mathlib.Core.Path.{subst}
use canopy_rpc_mock.Base.{
  ℕ, ◌+◌, ◌%◌, ◌^◌, ◌≡◌, refl, ap, Option, none, some, List, [], ◌∷◌, arith, length, add64,
}
use canopy_rpc_mock.Base.Dict.{lookup}
use canopy_rpc_mock.Gen.Runtime.{Runtime}
use canopy_rpc_mock.Chain.Types.{Validator, BlockResult}
use canopy_rpc_mock.Chain.MockChain.{MockChain, GenesisState, block_at, state_at}
use canopy_rpc_mock.Chain.IndexerBlob.{
  Marshal, Answer, given, ◌>>=◌, marshalled, marshal_each, marshal_committees, IndexerBlob,
  total_active, total_unstaking, assemble_blob, blob_of_block, build_indexer_blob, refused,
  unknown_height,
}

given-injective {ℓ} : {A : Type ℓ} {x y : A} → given x ≡ given y → x ≡ y
given-injective e = cc

-- An answer in the end was one at the first step.
bind-eq-given {ℓ κ} :
    {A : Type ℓ} {B : Type κ} (r : Answer A) (next : A → Answer B) {y : B}
    → (r >>= next) ≡ given y
    → (x : A) × (r ≡ given x) × (next x ≡ given y)
bind-eq-given (refused why) next e = cc
bind-eq-given (given x) next e = (x, refl, e)

marshalled-eq-given {ℓ} : {A : Type ℓ} (o : Option A) {x : A} → marshalled o ≡ given x → o ≡ some x
marshalled-eq-given none e = cc
marshalled-eq-given (some y) e = ap some (given-injective e)

module _ (rt : Runtime) where
  total_active-unstaking :
      (height : ℕ) (vs : List Validator)
      → total_active rt height vs + total_unstaking rt height vs ≡ length vs
  unfolding total_active total_unstaking
  total_active-unstaking height [] = refl
  total_active-unstaking height (v ∷ vs) =
      let rest = total_active-unstaking height vs in ground (arith, rest)

module _ (rt : Runtime) (ms : Marshal) where
  -- What a blob holds of its block and its state.
  pub record IsBlobOf (height : ℕ) (block : BlockResult) (state : GenesisState) (blob : IndexerBlob)
      : Type 0 where
    pub of_block : ms.block block ≡ some blob.block
    pub of_accounts : marshal_each ms.account state.accounts ≡ given blob.accounts
    pub of_validators : marshal_each ms.validator state.validators ≡ given blob.validators
    pub counted :
        (blob.total_validators_active + blob.total_validators_unstaking) % 2 ^ 32
        ≡ length state.validators % 2 ^ 32
    pub none_paused : blob.total_validators_paused ≡ 0

  assemble_blob-IsBlobOf :
      (mc : MockChain) (height : ℕ) (block : BlockResult) (state : GenesisState)
      {blob : IndexerBlob}
      → assemble_blob rt ms mc height block state ≡ given blob
      → IsBlobOf height block state blob
  unfolding assemble_blob
  assemble_blob-IsBlobOf mc height block state e =
      let (b, eb, e1) = bind-eq-given (marshalled (ms.block block)) _ e in
      let (accounts, ea, e2) = bind-eq-given (marshal_each ms.account state.accounts) _ e1 in
      let (ps, _, e3) = bind-eq-given (marshal_each ms.pool state.pools) _ e2 in
      let (vs, ev, e4) = bind-eq-given (marshal_each ms.validator state.validators) _ e3 in
      let (p, _, e5) = bind-eq-given (marshalled (ms.params state.params)) _ e4 in
      let (s, _, e6) = bind-eq-given (marshalled (ms.supply state.supply)) _ e5 in
      let (o, _, e7) = bind-eq-given (marshalled (ms.order_books state.order_books)) _ e6 in
      let (c, _, e8) = bind-eq-given (marshal_committees rt ms state.committees) _ e7 in
      subst (IsBlobOf height block state) (given-injective e8) (record {
        of_block = marshalled-eq-given (ms.block block) eb;
        of_accounts = ea;
        of_validators = ev;
        counted = omega (arith, total_active-unstaking rt (add64 height 1) state.validators);
        none_paused = refl;
      })

  blob_of_block-IsBlobOf :
      (mc : MockChain) (height : ℕ) (block : BlockResult) {blob : IndexerBlob}
      → blob_of_block rt ms mc height block ≡ given blob
      → (state : GenesisState) × (lookup height mc.states ≡ some state)
        × IsBlobOf height block state blob
  unfolding blob_of_block
  blob_of_block-IsBlobOf mc height block {blob} e =
      let (bz, _, rest) = bind-eq-given (marshalled (ms.block block)) _ e in
      found (lookup height mc.states) rest
    where
      found :
          (o : Option GenesisState)
          → elim o [
            | none ↦ refused (unknown_height height)
            | some state ↦ assemble_blob rt ms mc height block state
          ]
            ≡ given blob
          → (state : GenesisState) × (o ≡ some state) × IsBlobOf height block state blob
      found none e' = cc
      found (some state) e' = (state, refl, assemble_blob-IsBlobOf mc height block state e')

  -- A blob that BuildIndexerBlob returns is made of the block and the state that the chain has at its
  -- height: its block, accounts and validators are theirs, marshalled, its active and unstaking
  -- validators together are as many, modulo 2 ^ 32, as the state's, and none is paused.
  pub build_indexer_blob-IsBlobOf :
      (mc : MockChain) (height : ℕ) {blob : IndexerBlob}
      → build_indexer_blob rt ms mc height ≡ given blob
      → (block : BlockResult) × (state : GenesisState) × (block_at mc height ≡ some block)
        × (state_at mc height ≡ some state)
        × IsBlobOf height block state blob
  unfolding build_indexer_blob block_at state_at
  build_indexer_blob-IsBlobOf mc height {blob} e = found (lookup height mc.blocks) e
    where
      found :
          (o : Option BlockResult)
          → elim o [
            | none ↦ refused (unknown_height height)
            | some block ↦ blob_of_block rt ms mc height block
          ]
            ≡ given blob
          → (block : BlockResult) × (state : GenesisState) × (o ≡ some block)
            × (lookup height mc.states ≡ some state)
            × IsBlobOf height block state blob
      found none e' = cc
      found (some block) e' =
          let (state, there, is_blob) = blob_of_block-IsBlobOf mc height block e' in
          (block, state, refl, there, is_blob)
