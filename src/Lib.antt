-- ===== src/Lib.antt =====
-- canopy-rpc-mock: a server that answers the RPC of a Canopy node with data made up from closed
-- forms. newMockChain builds a chain once, height by height, from hashes of the chain's identifier,
-- addresses and heights; after that nothing changes, and every request reads the maps that it filled.
--
-- The parts, and the files that model them:
-- - mockserver/internal/gen: pure functions that draw counts, types, balances and stakes from a
--   generator seeded by a hash. Gen/Hash is the hashing of distributions.go and Gen/Distributions its
--   samplers; Gen/Profile, Gen/RateTable, Gen/TxGen, Gen/EventGen, Gen/Scale, Gen/Lifecycle and
--   Gen/Ledger are the files of those names. A function keeps its name in snake_case (TxCountAt is
--   tx_count_at); a loop is a function of its own beside it (residual_from is the loop of
--   residual_index). The generator that Go mutates is passed along and returned.
-- - mockserver/internal/chain/mock_data.go: the chain. Chain/MockChain has the struct mockChain and
--   the lookups by height, with a map as an association list (Base/Dict); Chain/Build, Chain/Params and
--   Chain/Governance build what no height changes; Chain/Txs, Chain/Blocks and Chain/Snapshot build
--   what a height has; Chain/New is newMockChain, its options and its loop, with the assignments of
--   the loop's body as functions on the struct. Chain/Types has the structs of the canopy module that
--   are filled here, with the fields that the code writes a value to.
-- - mockserver/internal/chain/indexer_blob.go: Chain/IndexerBlob is both functions, with lib.Marshal as
--   a record of one operation for each type.
-- - mockserver/internal/chain/mock_state.go: Chain/MockState is the type mockState, which no other code
--   uses: its construction and endBlock; Chain/MockState/Blocks has beginBlock, Chain/MockState/Batch
--   the batch operations, and Chain/MockState/Snapshot snapshot and computeSupply. Chain/OrderId is the
--   order identifiers.
-- - mockserver/internal/rpc/server_routes.go: Rpc/Page is paginate and buildPage, and
--   Rpc/OrderBooks is normalizeOrderBooks. Rpc/Http has the requests, the responses, parseHeightReq
--   and decodeBody; Rpc/Routes has the handlers of RegisterRoutes, one function each (handle_block for
--   the path of blocks), Rpc/Replies what they share, and Rpc/Mux the paths with their handlers. A
--   handler goes from a chain and a request to a response or a panic.
-- - mockserver/server.go and main.go: Server is the options, New, and main's loop over the chains, with
--   the addresses that the process listens on as a list.
-- - Tests has concrete parameters and one example for each theorem of the list below.
-- The proofs stand below the module that they are about: Chain/New/Built is the invariant of
-- newMockChain's loop, Chain/New/Returning and Chain/New/Complete show where no access is out of
-- range, Chain/New/States is about the states that a chain serves, Gen/Ledger/Conservation and
-- Gen/Ledger/Locality are about the balances; Rpc/Mux/Answers, Rpc/Mux/Served, Rpc/Mux/Pages,
-- Rpc/Mux/Orders and Rpc/Mux/AllOrders are about the routes of a built chain, and Server/Serving
-- about the servers of the command.
--
-- Conventions. A uint64 is a natural number with its wrap-around written out (Base/Word), an int an
-- integer with its own (Base/Int); indices and lengths of slices are natural numbers. What panics gives
-- a fault (Base/Results): an index or a slice out of range, a division by zero, a nil pointer that is
-- read, a negative capacity, a listener that fails. A nil pointer and a missing key are none.
--
-- Parameters. Gen/Runtime is what the code takes from Go's standard library: sha256, math/rand,
-- float64 and package math. No law of floats is assumed but where a theorem names one (IntnInRange,
-- ToU64InRange, CeilDivExact). Chain/Canopy is what it takes from the canopy module, ed25519 keys,
-- encoding/json and anypb. Rpc/Http has what the handlers take from net/http, strconv, bytes and
-- encoding/json, and the Len methods that the types of page have or lack (a theorem that needs them
-- names HasLengths); Chain/IndexerBlob has lib.Marshal, and Server has net.Listen.
--
-- Fuel. The rejection loops of sampleGamma and the product loop of samplePoisson have no bound in the
-- source. They take fuel here and give the fault out_of_fuel where it runs out. A Poisson draw needs
-- one unit more than the count it returns. The theorem that a chain is built asks for counts that
-- return within the fuel, and for nothing else of it.
--
-- Bounds. The loop of newMockChain counts its heights in an int. The model does as many rounds as there
-- are blocks to build, which is what the source does below the largest int, 2 ^ 63 - 1 blocks; for that
-- one number the source's test never fails and its counter wraps around, so the model stands for the
-- source at every other number of blocks.
--
-- Not modelled: the bytes that writeJSON encodes, the parsing of the command's flags, httptest and its
-- ephemeral port, and the printing of the keystore in buildValidators, which are input and output. The
-- accessors of mock_data.go that return a field are the fields of MockChain.
pub mod Base
pub mod Gen
pub mod Chain
pub mod Rpc
pub mod Server
pub mod Tests
