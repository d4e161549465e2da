-- ===== src/Chain.antt =====
-- Package chain (mockserver/internal/chain): the prebuilt chain. `Types` and `Canopy` are what it
-- takes from the canopy module; the others follow chain/mock_data.go from its leaves to newMockChain,
-- chain/indexer_blob.go, and chain/mock_state.go.
pub mod Types
pub mod Canopy
pub mod Build
pub mod Params
pub mod Governance
pub mod MockChain
pub mod Blocks
pub mod Snapshot
pub mod Txs
pub mod IndexerBlob
pub mod OrderId
pub mod MockState
pub mod New
