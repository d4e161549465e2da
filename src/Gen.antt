-- ===== src/Gen.antt =====
-- Package gen (mockserver/internal/gen): the closed-form generators. Each child is one source file;
-- `Runtime` is what they take from Go's standard library.
pub mod Runtime
pub mod Hash
pub mod Distributions
pub mod Profile
pub mod RateTable
pub mod Scale
pub mod TxGen
pub mod EventGen
pub mod Lifecycle
pub mod Ledger
