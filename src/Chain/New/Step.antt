-- ===== src/Chain/New/Step.antt =====
-- What one round of newMockChain's loop adds.
use canopy_rpc_mock.Base.{
  ℕ, ◌≡◌, refl, sym, true, some, List, [], length, ok, bind-eq-ok, index, sub64, ok-injective,
}
use mathlib.Core.Path.{subst}
use canopy_rpc_mock.Base.Dict.{insert, lookup, lookup-insert_self}
use canopy_rpc_mock.Gen.Runtime.{Runtime}
use canopy_rpc_mock.Gen.Profile.{Profile}
use canopy_rpc_mock.Chain.Types.{DexBatch, TxResult, Event, BlockResult, QuorumCertificate}
use canopy_rpc_mock.Chain.Canopy.{Canopy}
use canopy_rpc_mock.Chain.MockChain.{MockChain, GenesisState, pointer_at}
use canopy_rpc_mock.Chain.Blocks.{
  block_hash, generate_dex_batch, generate_block, make_header, total_txs, build_certificate_for_tx,
}
use canopy_rpc_mock.Chain.Snapshot.{snapshot_state_at}
use canopy_rpc_mock.Chain.Txs.{generate_closed_form_txs, generate_closed_form_events}
use canopy_rpc_mock.Chain.New.{
  add_block, addresses, put_txs, put_block, put_next, put_state, put_cert,
}

module _ (rt : Runtime) (cn : Canopy) where
  -- What a block says of itself, made over the chain mc at height h.
  pub record IsBlock (mc : MockChain) (h : ℕ) (txs : List TxResult) (b : BlockResult) : Type 0 where
    pub height : b.block_header.height ≡ h
    pub hash : b.block_header.hash ≡ block_hash rt h
    pub last_hash : b.block_header.last_block_hash ≡ block_hash rt (sub64 h 1)
    pub num_txs : b.block_header.num_txs ≡ length b.transactions
    pub total : b.block_header.total_txs ≡ total_txs rt cn mc h txs
    pub transactions : b.transactions ≡ txs

  generate_block-IsBlock :
      (mc : MockChain) (h : ℕ) (txs : List TxResult) (events : List Event) {b : BlockResult}
      → generate_block rt cn mc h txs events ≡ ok b
      → IsBlock mc h txs b
  unfolding generate_block make_header
  generate_block-IsBlock mc h txs events {b} e =
      let (v, _, made) = bind-eq-ok (index mc.validators 0) _ e in
      subst (IsBlock mc h txs) (ok-injective made) (record {
        height = refl;
        hash = refl;
        last_hash = refl;
        num_txs = refl;
        total = refl;
        transactions = refl;
      })

  -- What a certificate says, made over the chain mc at height h.
  pub record IsCert (mc : MockChain) (h : ℕ) (b : BlockResult) (c : QuorumCertificate)
      : Type 0 where
    pub height : c.header.height ≡ h
    pub block_hash : c.block_hash ≡ b.block_header.hash
    pub checkpoint : c.results.checkpoint_hash ≡ b.block_header.hash
    pub dex_batch : c.results.dex_batch ≡ mc.locked_batch

  -- The maps of the chain after a round that made these values.
  abbrev pub grown :
      MockChain
      → ℕ
      → List TxResult
      → List Event
      → BlockResult
      → DexBatch
      → GenesisState
      → QuorumCertificate
      → MockChain
  grown mc h txs events block next state cert = record mc {
    txs = insert h txs mc.txs;
    events = insert h events mc.events;
    blocks = insert h block mc.blocks;
    dex_batches = insert h mc.locked_batch mc.dex_batches;
    next_dex_batches = insert h (some next) mc.next_dex_batches;
    states = insert h state mc.states;
    certs = insert h cert mc.certs;
  }

  -- A round that gives mc' from mc.
  pub record Added (mc : MockChain) (h : ℕ) (mc' : MockChain) : Type 0 where
    pub txs : List TxResult
    pub events : List Event
    pub block : BlockResult
    pub next : DexBatch
    pub state : GenesisState
    pub cert : QuorumCertificate
    pub result : mc' ≡ grown mc h txs events block next state cert
    pub is_block : IsBlock mc h txs block
    pub is_cert : IsCert mc h block cert
    pub snapshot : snapshot_state_at rt mc (addresses mc) h ≡ ok state

  certificate-IsCert :
      (mc : MockChain) (h : ℕ) {b : BlockResult} {c : QuorumCertificate}
      → lookup h mc.blocks ≡ some b
      → lookup h mc.dex_batches ≡ some mc.locked_batch
      → build_certificate_for_tx rt cn mc h ≡ ok c
      → IsCert mc h b c
  unfolding build_certificate_for_tx
  certificate-IsCert mc h {b} at_block at_batch e =
      let (v, _, e1) = bind-eq-ok (index mc.validators 0) _ e in
      let (w, _, e2) = bind-eq-ok (index mc.validators 1) _ e1 in
      subst (IsCert mc h b) (ok-injective e2) (record {
        height = refl;
        block_hash = rw at_block;
        checkpoint = rw at_block;
        dex_batch = rw (at_batch, pointer_at);
      })

  module _ (mc : MockChain) (h : ℕ) (txs : List TxResult) (events : List Event)
      (block : BlockResult) where
    abbrev after_batch : MockChain
    after_batch =
        let mc2 = put_block (put_txs mc h txs events) h block in
        put_next mc2 h (generate_dex_batch rt mc2 h true [] [] [])

    Added-of_values :
        (state : GenesisState) (cert : QuorumCertificate) {mc' : MockChain}
        → generate_block rt cn (put_txs mc h txs events) h txs events ≡ ok block
        → snapshot_state_at rt after_batch (addresses after_batch) h ≡ ok state
        → build_certificate_for_tx rt cn (put_state after_batch h state) h ≡ ok cert
        → ok (put_cert (put_state after_batch h state) h cert) ≡ ok mc'
        → Added mc h mc'
    unfolding put_txs put_block put_next put_state put_cert snapshot_state_at total_txs
    Added-of_values state cert made taken signed e =
        let b : IsBlock (put_txs mc h txs events) h txs block =
          generate_block-IsBlock (put_txs mc h txs events) h txs events made in
        let c : IsCert (put_state after_batch h state) h block cert =
          certificate-IsCert (put_state after_batch h state) h
            (lookup-insert_self h block mc.blocks)
            (lookup-insert_self h mc.locked_batch mc.dex_batches) signed in
        record {
          txs = txs;
          events = events;
          block = block;
          next =
              generate_dex_batch rt (put_block (put_txs mc h txs events) h block) h true [] [] [];
          state = state;
          cert = cert;
          result = sym (ok-injective e);
          is_block = record {
            height = b.height;
            hash = b.hash;
            last_hash = b.last_hash;
            num_txs = b.num_txs;
            total = b.total;
            transactions = b.transactions;
          };
          is_cert = record {
            height = c.height;
            block_hash = c.block_hash;
            checkpoint = c.checkpoint;
            dex_batch = c.dex_batch;
          };
          snapshot = taken;
        }

  module _ (fuel : ℕ) (profile : Profile) (mc : MockChain) (h : ℕ) where
    pub add_block-Added :
        {mc' : MockChain} → add_block rt cn fuel profile mc h ≡ ok mc' → Added mc h mc'
    unfolding add_block
    add_block-Added {mc'} e =
        let (txs, _, e1) = bind-eq-ok (generate_closed_form_txs rt cn fuel mc h profile) _ e in
        let (events, _, e2) =
          bind-eq-ok (generate_closed_form_events rt cn fuel mc h profile) _ e1 in
        let (block, made, e3) =
          bind-eq-ok (generate_block rt cn (put_txs mc h txs events) h txs events) _ e2 in
        let mc3 = after_batch mc h txs events block in
        let (state, taken, e4) = bind-eq-ok (snapshot_state_at rt mc3 (addresses mc3) h) _ e3 in
        let (cert, signed, e5) =
          bind-eq-ok (build_certificate_for_tx rt cn (put_state mc3 h state) h) _ e4 in
        Added-of_values mc h txs events block state cert made taken signed e5
