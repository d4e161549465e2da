-- ===== src/Tests/Routes.antt =====
-- Examples for the routes, on the chain of Tests/Chain.
use canopy_rpc_mock.Base.{
  ℕ, ◌<◌, ◌^◌, ◌≡◌, ◌⊎◌, refl, arith, true, none, some, [], ◌∷◌, ok, pos, length, Returns,
  sum64_from,
}
use canopy_rpc_mock.Gen.Ledger.{overshoots}
use canopy_rpc_mock.Chain.Types.{
  Bytes, Account, Pool, Validator, BlockResult, QuorumCertificate, Supply,
}
use canopy_rpc_mock.Chain.MockChain.{GenesisState, state_at, supply_at}
use canopy_rpc_mock.Chain.Snapshot.{snapshot_state_at}
use canopy_rpc_mock.Chain.Snapshot.Parts.{amounts_of, stakes_of}
use canopy_rpc_mock.Chain.New.{addresses}
use canopy_rpc_mock.Chain.New.Heights.{new_mock_chain_parts}
use canopy_rpc_mock.Chain.New.Served.{heights_served, states_are_snapshots}
use canopy_rpc_mock.Chain.New.States.{supply_conserved}
use canopy_rpc_mock.Rpc.Page.{Page}
use canopy_rpc_mock.Rpc.Http.{
  Http, Request, Body, Payload, json, HeightPageRequest, IdHeightRequest, decode_body, decode_raw,
  query_height_of, parse_height_req,
}
use canopy_rpc_mock.Rpc.Replies.{page_request, id_request, not_found}
use canopy_rpc_mock.Rpc.Mux.{Route, path_of-injective, handle}
use canopy_rpc_mock.Rpc.Mux.Answers.{IsPageable, routes_answer}
use canopy_rpc_mock.Rpc.Mux.Served.{block_and_cert_routes, unknown_height_routes}
use canopy_rpc_mock.Rpc.Mux.Pages.{IsPageOf, HasLengths, state_pages}
use canopy_rpc_mock.Rpc.Mux.Orders.{IsBookReply, order_book_route}
use canopy_rpc_mock.Rpc.Mux.AllOrders.{BookCopies, all_orders_route}
use canopy_rpc_mock.Chain.Types.{OrderBooks}
use canopy_rpc_mock.Tests.{toy, toy_canopy, toy-CeilDivExact, toy-ToU64InRange}
use canopy_rpc_mock.Tests.Chain.{two_validators, chain, made, few}
use canopy_rpc_mock.Tests.Blobs.{marshal}

-- A body is a height, a page number and a page size, a byte each.
abbrev page_of_bytes : Bytes → HeightPageRequest → HeightPageRequest
page_of_bytes (h ∷ p ∷ q ∷ rest) target = record {
  height = h;
  page_number = pos p;
  per_page = pos q;
}
page_of_bytes bytes target = target

abbrev byte_of : Bytes → ℕ → ℕ
byte_of [] target = target
byte_of (h ∷ rest) target = h

abbrev id_of_bytes : Bytes → IdHeightRequest → IdHeightRequest
id_of_bytes (h ∷ id ∷ rest) target = record { height = h; id = id }
id_of_bytes bytes target = target

abbrev http : Http
http = record {
  parse_uint = λ s. none;
  trim_space = λ bs. bs;
  unmarshal_height = byte_of;
  unmarshal_page = page_of_bytes;
  unmarshal_id = id_of_bytes;
  unmarshal_dex = λ bs target. record target { height = byte_of bs target.height };
  unmarshal_blobs = λ bs target. record target { height = byte_of bs target.height };
  Delta = ℕ;
  delta_indexer_blobs = λ blobs. none;
  marshal_delta = λ d. none;
  tx_results_page_name = "tx-results";
  events_page_name = "events";
  accounts_page_name = "accounts";
  pool_page_name = "pools";
  validators_page_name = "validators";
  tx_results_len = none;
  events_len = none;
  account_page_len = some length;
  pool_page_len = some length;
  validator_page_len = some length;
}

-- A request with bytes as its body.
abbrev asks : Bytes → Request
asks bytes = record {
  query_height = "";
  content_length = pos (length bytes);
  body = some (Body.content bytes);
}

-- The first page of height 2, one account to a page.
abbrev first_page : Request
first_page = asks (2 ∷ 1 ∷ 1 ∷ [])

first_page-request :
    page_request http first_page ≡ record { height = 2; page_number = pos 1; per_page = pos 1 }
unfolding decode_body decode_raw
first_page-request = refl

first_page-height : parse_height_req http first_page ≡ 2
unfolding parse_height_req query_height_of decode_body decode_raw
first_page-height = refl

path_of-injective_example : Route.txs ≡ Route.txs
path_of-injective_example = path_of-injective Route.txs Route.txs refl

first_page-IsPageable : IsPageable (page_request http first_page)
unfolding decode_body decode_raw
first_page-IsPageable = record { size = 1; per_page = refl; page_number = omega arith }

routes_answer_example : Returns (handle toy toy_canopy marshal http chain Route.accounts first_page)
routes_answer_example =
    routes_answer toy toy_canopy marshal http 9 3 2 two_validators few made Route.accounts
      first_page first_page-IsPageable

block_and_cert_routes_example :
    (b : BlockResult) × (c : QuorumCertificate) × (handle toy toy_canopy marshal http chain
        Route.block first_page
      ≡ ok (json 200 (Payload.block b)))
    × (handle toy toy_canopy marshal http chain Route.cert first_page
        ≡ ok (json 200 (Payload.cert c)))
    × (b.block_header.height ≡ 2)
    × (c.block_hash ≡ b.block_header.hash)
block_and_cert_routes_example =
    block_and_cert_routes toy toy_canopy marshal http 9 3 2 two_validators few made first_page 2
      first_page-height (omega arith) (omega arith)

-- A request for height 7.
abbrev too_high : Request
too_high = asks (7 ∷ 1 ∷ 1 ∷ [])

too_high-height : 3 < parse_height_req http too_high
unfolding parse_height_req query_height_of decode_body decode_raw
too_high-height = omega arith

too_high-page : 3 < (page_request http too_high).height
unfolding decode_body decode_raw
too_high-page = omega arith

too_high-id : 3 < (id_request http too_high).height
unfolding decode_body decode_raw
too_high-id = omega arith

unknown_height_routes_example :
    (handle toy toy_canopy marshal http chain Route.block too_high ≡ ok not_found)
    × (handle toy toy_canopy marshal http chain Route.supply too_high ≡ ok not_found)
    × (handle toy toy_canopy marshal http chain Route.accounts too_high ≡ ok not_found)
    × (handle toy toy_canopy marshal http chain Route.pools too_high ≡ ok not_found)
    × (handle toy toy_canopy marshal http chain Route.validators too_high ≡ ok not_found)
    × (handle toy toy_canopy marshal http chain Route.orders too_high ≡ ok not_found)
unknown_height_routes_example =
    unknown_height_routes toy toy_canopy marshal http 9 3 2 two_validators few made too_high
      too_high-height too_high-page too_high-id

two_accounts : length chain.accounts < 2 ^ 49
two_accounts =
    let parts = new_mock_chain_parts toy toy_canopy 9 3 2 two_validators few made in
    omega (arith, parts.4, parts.5)

few_validators : length chain.validators < 2 ^ 49
few_validators =
    omega (arith, (new_mock_chain_parts toy toy_canopy 9 3 2 two_validators few made).4)

http-HasLengths : HasLengths http
http-HasLengths = record {
  accounts = (length, refl, λ xs. refl);
  pools = (length, refl, λ xs. refl);
  validators = (length, refl, λ xs. refl);
}

state_pages_example :
    (s : GenesisState) × (accounts : Page Account) × (pools : Page Pool) × (validators : Page
      Validator)
    × (state_at chain 2 ≡ some s)
    × (handle toy toy_canopy marshal http chain Route.accounts first_page
        ≡ ok (json 200 (Payload.account_page accounts)))
    × IsPageOf s.accounts 1 1 accounts
    × (handle toy toy_canopy marshal http chain Route.pools first_page
        ≡ ok (json 200 (Payload.pool_page pools)))
    × IsPageOf s.pools 1 1 pools
    × (handle toy toy_canopy marshal http chain Route.validators first_page
        ≡ ok (json 200 (Payload.validator_page validators)))
    × IsPageOf s.validators 1 1 validators
state_pages_example =
    state_pages toy toy_canopy marshal http 9 3 2 two_validators few made first_page 2 1 1
      first_page-request toy-CeilDivExact http-HasLengths (omega arith) (omega arith) (omega arith)
      (omega arith) (omega arith) (omega arith) two_accounts few_validators

state_2 : (s : GenesisState) × (state_at chain 2 ≡ some s)
state_2 = ((heights_served toy toy_canopy 9 3 2 two_validators few made).2 2).0 (omega arith)

states_are_snapshots_example : snapshot_state_at toy chain (addresses chain) 2 ≡ ok state_2.0
states_are_snapshots_example =
    states_are_snapshots toy toy_canopy 9 3 2 two_validators few made 2 state_2.1

supply_conserved_example :
    (supply : Supply) × (supply_at chain 2 ≡ some supply)
    × ((overshoots toy (addresses chain) chain.chain_id 2 ≡ true)
        ⊎ (sum64_from 0 (amounts_of state_2.0.accounts) ≡ supply.total))
    × (sum64_from 0 (stakes_of state_2.0.validators) ≡ supply.staked)
supply_conserved_example =
    supply_conserved toy toy_canopy 9 3 2 two_validators few made 2 toy-ToU64InRange state_2.1

-- The same request asks for the order book of chain 1 at height 2.
first_page-id : id_request http first_page ≡ record { height = 2; id = 1 }
unfolding decode_body decode_raw
first_page-id = refl

-- A request for all order books at height 2.
abbrev all_books : Request
all_books = asks (2 ∷ 0 ∷ [])

all_books-id : id_request http all_books ≡ record { height = 2; id = 0 }
unfolding decode_body decode_raw
all_books-id = refl

all_orders_route_example :
    (s : GenesisState) × (books : OrderBooks) × (copies : OrderBooks) × (state_at chain 2 ≡ some s)
    × (s.order_books ≡ some books)
    × (handle toy toy_canopy marshal http chain Route.orders all_books
        ≡ ok (json 200 (Payload.order_books (some copies))))
    × BookCopies books.order_books copies.order_books
all_orders_route_example =
    all_orders_route toy toy_canopy marshal http 9 3 2 two_validators few made all_books 2
      all_books-id (omega arith) (omega arith)

order_book_route_example :
    (s : GenesisState) × (books : OrderBooks) × (state_at chain 2 ≡ some s)
    × (s.order_books ≡ some books)
    × IsBookReply 1 books.order_books
        (handle toy toy_canopy marshal http chain Route.orders first_page)
order_book_route_example =
    order_book_route toy toy_canopy marshal http 9 3 2 two_validators few made first_page 2 1
      first_page-id (omega arith) (omega arith) (omega arith)
