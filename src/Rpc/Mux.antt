-- ===== src/Rpc/Mux.antt =====
-- RegisterRoutes of rpc/server_routes.go: the paths, and the handler of each.
pub mod Answers
pub mod Served
pub mod Pages
pub mod Orders
pub mod AllOrders
use canopy_rpc_mock.Base.{
  ℕ, ◌≡◌, refl, sym, ap, ◌∙◌, String, str_eq, Option, none, some, some-injective, List, [], ◌∷◌,
  if◌then◌else◌, Result,
}
use canopy_rpc_mock.Gen.Runtime.{Runtime}
use canopy_rpc_mock.Chain.Canopy.{Canopy}
use canopy_rpc_mock.Chain.MockChain.{MockChain}
use canopy_rpc_mock.Chain.IndexerBlob.{Marshal}
use canopy_rpc_mock.Rpc.Http.{Http, Request, Response}
use canopy_rpc_mock.Rpc.Routes.{
  handle_height, handle_block, handle_cert, handle_state, handle_txs, handle_events,
  handle_accounts, handle_orders, handle_pools, handle_dex_price, handle_dex_batch,
  handle_next_dex_batch, handle_params, handle_fee_params, handle_con_params, handle_val_params,
  handle_gov_params, handle_supply, handle_validators, handle_non_signers, handle_double_signers,
  handle_committees_data, handle_subsidized_committees, handle_retired_committees, handle_poll,
  handle_proposals, handle_indexer_blobs,
}

pub data Route : Type 0 where
  height block cert state txs events accounts : Route
  orders pools dex_price dex_batch next_dex_batch params fee_params : Route
  con_params val_params gov_params supply validators non_signers double_signers : Route
  committees_data subsidized_committees retired_committees poll proposals indexer_blobs : Route

-- the constants of the paths
unfoldable pub path_of : Route → String
path_of Route.height = "/v1/query/height"
path_of Route.block = "/v1/query/block-by-height"
path_of Route.cert = "/v1/query/cert-by-height"
path_of Route.state = "/v1/query/state"
path_of Route.txs = "/v1/query/txs-by-height"
path_of Route.events = "/v1/query/events-by-height"
path_of Route.accounts = "/v1/query/accounts"
path_of Route.orders = "/v1/query/orders"
path_of Route.pools = "/v1/query/pools"
path_of Route.dex_price = "/v1/query/dex-price"
path_of Route.dex_batch = "/v1/query/dex-batch"
path_of Route.next_dex_batch = "/v1/query/next-dex-batch"
path_of Route.params = "/v1/query/params"
path_of Route.fee_params = "/v1/query/fee-params"
path_of Route.con_params = "/v1/query/con-params"
path_of Route.val_params = "/v1/query/val-params"
path_of Route.gov_params = "/v1/query/gov-params"
path_of Route.supply = "/v1/query/supply"
path_of Route.validators = "/v1/query/validators"
path_of Route.non_signers = "/v1/query/non-signers"
path_of Route.double_signers = "/v1/query/double-signers"
path_of Route.committees_data = "/v1/query/committees-data"
path_of Route.subsidized_committees = "/v1/query/subsidized-committees"
path_of Route.retired_committees = "/v1/query/retired-committees"
path_of Route.poll = "/v1/gov/poll"
path_of Route.proposals = "/v1/gov/proposals"
path_of Route.indexer_blobs = "/v1/query/indexer-blobs"

module _ (rt : Runtime) (cn : Canopy) (ms : Marshal) (http : Http) (mc : MockChain) where
  -- the function that RegisterRoutes passes to mux.HandleFunc with the path
  unfoldable pub handle : Route → Request → Result Response
  handle Route.height = handle_height rt cn ms http mc
  handle Route.block = handle_block rt cn ms http mc
  handle Route.cert = handle_cert rt cn ms http mc
  handle Route.state = handle_state rt cn ms http mc
  handle Route.txs = handle_txs rt cn ms http mc
  handle Route.events = handle_events rt cn ms http mc
  handle Route.accounts = handle_accounts rt cn ms http mc
  handle Route.orders = handle_orders rt cn ms http mc
  handle Route.pools = handle_pools rt cn ms http mc
  handle Route.dex_price = handle_dex_price rt cn ms http mc
  handle Route.dex_batch = handle_dex_batch rt cn ms http mc
  handle Route.next_dex_batch = handle_next_dex_batch rt cn ms http mc
  handle Route.params = handle_params rt cn ms http mc
  handle Route.fee_params = handle_fee_params rt cn ms http mc
  handle Route.con_params = handle_con_params rt cn ms http mc
  handle Route.val_params = handle_val_params rt cn ms http mc
  handle Route.gov_params = handle_gov_params rt cn ms http mc
  handle Route.supply = handle_supply rt cn ms http mc
  handle Route.validators = handle_validators rt cn ms http mc
  handle Route.non_signers = handle_non_signers rt cn ms http mc
  handle Route.double_signers = handle_double_signers rt cn ms http mc
  handle Route.committees_data = handle_committees_data rt cn ms http mc
  handle Route.subsidized_committees = handle_subsidized_committees rt cn ms http mc
  handle Route.retired_committees = handle_retired_committees rt cn ms http mc
  handle Route.poll = handle_poll rt cn ms http mc
  handle Route.proposals = handle_proposals rt cn ms http mc
  handle Route.indexer_blobs = handle_indexer_blobs rt cn ms http mc

-- The routes in the order in which they are registered.
abbrev all_routes : List Route
all_routes =
    Route.height ∷ Route.block ∷ Route.cert ∷ Route.state ∷ Route.txs ∷ Route.events
    ∷ Route.accounts ∷ Route.orders ∷ Route.pools ∷ Route.dex_price ∷ Route.dex_batch
    ∷ Route.next_dex_batch ∷ Route.params ∷ Route.fee_params ∷ Route.con_params ∷ Route.val_params
    ∷ Route.gov_params ∷ Route.supply ∷ Route.validators ∷ Route.non_signers ∷ Route.double_signers
    ∷ Route.committees_data ∷ Route.subsidized_committees ∷ Route.retired_committees ∷ Route.poll
    ∷ Route.proposals ∷ Route.indexer_blobs ∷ []

-- The first route of a list with a path.
find_route : String → List Route → Option Route
find_route path [] = none
find_route path (r ∷ routes) =
    let rest = find_route path routes in if str_eq path (path_of r) then some r else rest

find_route-path_of : (r : Route) → find_route (path_of r) all_routes ≡ some r
unfolding find_route path_of
find_route-path_of Route.height = refl
find_route-path_of Route.block = refl
find_route-path_of Route.cert = refl
find_route-path_of Route.state = refl
find_route-path_of Route.txs = refl
find_route-path_of Route.events = refl
find_route-path_of Route.accounts = refl
find_route-path_of Route.orders = refl
find_route-path_of Route.pools = refl
find_route-path_of Route.dex_price = refl
find_route-path_of Route.dex_batch = refl
find_route-path_of Route.next_dex_batch = refl
find_route-path_of Route.params = refl
find_route-path_of Route.fee_params = refl
find_route-path_of Route.con_params = refl
find_route-path_of Route.val_params = refl
find_route-path_of Route.gov_params = refl
find_route-path_of Route.supply = refl
find_route-path_of Route.validators = refl
find_route-path_of Route.non_signers = refl
find_route-path_of Route.double_signers = refl
find_route-path_of Route.committees_data = refl
find_route-path_of Route.subsidized_committees = refl
find_route-path_of Route.retired_committees = refl
find_route-path_of Route.poll = refl
find_route-path_of Route.proposals = refl
find_route-path_of Route.indexer_blobs = refl

-- No two routes have the same path, so that no registration meets a path that is taken.
pub path_of-injective : (r s : Route) → path_of r ≡ path_of s → r ≡ s
path_of-injective r s e =
    some-injective (
      sym (find_route-path_of r) ∙ ap (λ path. find_route path all_routes) e ∙ find_route-path_of s)
