-- ===== src/Rpc/Mux/Answers.antt =====
-- Every handler answers: the only panics that a handler could meet are those of paginate and of a nil
-- pointer among the order books.
use canopy_rpc_mock.Base.{
  ℕ, ◌<◌, ◌^◌, ◌≡◌, refl, Bool, true, false, Bool-cases, inl, inr, Option, none, some, List, [],
  ◌∷◌, Result, ok, Returns, bind-Returns, pos, pos_part, if◌then◌else◌, ◌==◌, String,
}
use canopy_rpc_mock.Gen.Runtime.{Runtime}
use canopy_rpc_mock.Chain.Types.{DexBatch, OrderBook, OrderBooks}
use canopy_rpc_mock.Chain.Canopy.{Canopy}
use canopy_rpc_mock.Chain.MockChain.{MockChain, GenesisState, state_at, txs_at, events_at}
use canopy_rpc_mock.Chain.Snapshot.Parts.{HasBooks}
use canopy_rpc_mock.Chain.IndexerBlob.{Marshal, Answer, IndexerBlobs, refused, given}
use canopy_rpc_mock.Chain.New.{ChainOption, new_mock_chain}
use canopy_rpc_mock.Chain.New.States.{state_at-IsSnapshot}
use canopy_rpc_mock.Rpc.Page.{Page, paginate}
use canopy_rpc_mock.Rpc.Page.Bounds.{paginate-Returns}
use canopy_rpc_mock.Rpc.OrderBooks.{
  normalize_order_books, normalize_books, AllClean, normalize_books-AllClean,
}
use canopy_rpc_mock.Rpc.Http.{Http, Request, Response, Payload, HeightPageRequest, DexRequest}
use canopy_rpc_mock.Rpc.Replies.{
  page_request, page_reply, find_book, books_reply, batch_reply, blobs_reply, state_reply,
}
use canopy_rpc_mock.Rpc.Routes.{
  handle_height, handle_block, handle_cert, handle_state, handle_txs, handle_events,
  handle_accounts, handle_orders, handle_pools, handle_dex_price, handle_dex_batch,
  handle_next_dex_batch, handle_params, handle_fee_params, handle_con_params, handle_val_params,
  handle_gov_params, handle_supply, handle_validators, handle_non_signers, handle_double_signers,
  handle_committees_data, handle_subsidized_committees, handle_retired_committees, handle_poll,
  handle_proposals, handle_indexer_blobs,
}
use canopy_rpc_mock.Rpc.Mux.{Route, handle}

-- The page of a request is one that paginate can cut: no negative size, and no overflowing number.
pub record IsPageable (req : HeightPageRequest) : Type 0 where
  pub size : ℕ
  pub per_page : req.per_page ≡ pos size
  pub page_number : pos_part req.page_number < 2 ^ 50

state_reply-Returns :
    (o : Option GenesisState) (reply : GenesisState → Result Response)
    → ((s : GenesisState) → o ≡ some s → Returns (reply s))
    → Returns (state_reply reply o)
state_reply-Returns none reply h = (_, refl)
state_reply-Returns (some s) reply h = h s refl

if-Returns :
    (b : Bool) (r s : Result Response) → Returns r → Returns s → Returns (if b then r else s)
if-Returns true r s h k = h
if-Returns false r s h k = k

find_book-Returns :
    (id : ℕ) (books : List (Option OrderBook)) → AllClean books → Returns (find_book id books)
unfolding find_book
find_book-Returns id [] h = (none, refl)
find_book-Returns id (none ∷ books) h = absurd h
find_book-Returns id (some book ∷ books) (_, h) =
    let (found, e) = find_book-Returns id books h in
    elim (Bool-cases (book.chain_id == id)) [
      | inl same ↦ (some book, rw same)
      | inr other ↦ (found, rw (other, e))
    ]

books_reply-Returns :
    (id : ℕ) (books : OrderBooks) → Returns (books_reply id (normalize_order_books (some books)))
unfolding books_reply normalize_order_books
books_reply-Returns id books =
    if-Returns (id == 0) _ _ (_, refl)
      (bind-Returns (find_book id (normalize_books books.order_books)) _
        (find_book-Returns id _ (normalize_books-AllClean books.order_books))
        (λ found e. (_, refl)))

page_reply-Returns {ℓ} :
    {A : Type ℓ} (rt : Runtime) (payload : Page A → Payload) (len : Option (List A → ℕ))
    (type_name : String) (items : List A) (req : HeightPageRequest)
    → IsPageable req
    → Returns (page_reply rt payload len type_name items req)
unfolding page_reply
page_reply-Returns rt payload len type_name items req p =
    bind-Returns (paginate items req.page_number req.per_page) _
      (rw p.per_page (paginate-Returns items req.page_number p.size p.page_number))
      (λ page e. (_, refl))

blobs_reply-Returns : (http : Http) (a : Answer IndexerBlobs) → Returns (blobs_reply http a)
unfolding blobs_reply
blobs_reply-Returns http (refused why) = (_, refl)
blobs_reply-Returns http (given blobs) = (_, refl)

batch_reply-Returns :
    (mc : MockChain) (req : DexRequest) (o : Option (Option DexBatch))
    → Returns (batch_reply mc req o)
unfolding batch_reply
batch_reply-Returns mc req o = if-Returns _ _ _ (_, refl) (_, refl)

module _ (rt : Runtime) (cn : Canopy) (ms : Marshal) (http : Http) (mc : MockChain) (r : Request)
    (p : IsPageable (page_request http r))
    (books : (h : ℕ) (s : GenesisState) → state_at mc h ≡ some s → HasBooks s) where
  handle_txs-Returns : Returns (handle_txs rt cn ms http mc r)
  unfolding handle_txs
  handle_txs-Returns = page_reply-Returns rt _ _ _ (txs_at mc _) _ p

  handle_events-Returns : Returns (handle_events rt cn ms http mc r)
  unfolding handle_events
  handle_events-Returns = page_reply-Returns rt _ _ _ (events_at mc _) _ p

  handle_accounts-Returns : Returns (handle_accounts rt cn ms http mc r)
  unfolding handle_accounts
  handle_accounts-Returns =
      state_reply-Returns (state_at mc _) _ (λ s e. page_reply-Returns rt _ _ _ s.accounts _ p)

  handle_orders-Returns : Returns (handle_orders rt cn ms http mc r)
  unfolding handle_orders
  handle_orders-Returns =
      state_reply-Returns (state_at mc _) _
        (λ s e. let (b, e') = books _ s e in rw e' (books_reply-Returns _ b))

  handle_pools-Returns : Returns (handle_pools rt cn ms http mc r)
  unfolding handle_pools
  handle_pools-Returns =
      state_reply-Returns (state_at mc _) _ (λ s e. page_reply-Returns rt _ _ _ s.pools _ p)

  handle_dex_batch-Returns : Returns (handle_dex_batch rt cn ms http mc r)
  unfolding handle_dex_batch
  handle_dex_batch-Returns = batch_reply-Returns mc _ _

  handle_next_dex_batch-Returns : Returns (handle_next_dex_batch rt cn ms http mc r)
  unfolding handle_next_dex_batch
  handle_next_dex_batch-Returns = batch_reply-Returns mc _ _

  handle_validators-Returns : Returns (handle_validators rt cn ms http mc r)
  unfolding handle_validators
  handle_validators-Returns =
      state_reply-Returns (state_at mc _) _ (λ s e. page_reply-Returns rt _ _ _ s.validators _ p)

  handle_indexer_blobs-Returns : Returns (handle_indexer_blobs rt cn ms http mc r)
  unfolding handle_indexer_blobs
  handle_indexer_blobs-Returns = blobs_reply-Returns http _

  handle-Returns : (route : Route) → Returns (handle rt cn ms http mc route r)
  unfolding handle handle_block handle_cert handle_state handle_dex_price handle_supply
      handle_height handle_params handle_fee_params handle_con_params handle_val_params
      handle_gov_params handle_non_signers handle_double_signers handle_committees_data
      handle_subsidized_committees handle_retired_committees handle_poll handle_proposals
  handle-Returns Route.height = (_, refl)
  handle-Returns Route.block = (_, refl)
  handle-Returns Route.cert = (_, refl)
  handle-Returns Route.state = (_, refl)
  handle-Returns Route.txs = handle_txs-Returns
  handle-Returns Route.events = handle_events-Returns
  handle-Returns Route.accounts = handle_accounts-Returns
  handle-Returns Route.orders = handle_orders-Returns
  handle-Returns Route.pools = handle_pools-Returns
  handle-Returns Route.dex_price = (_, refl)
  handle-Returns Route.dex_batch = handle_dex_batch-Returns
  handle-Returns Route.next_dex_batch = handle_next_dex_batch-Returns
  handle-Returns Route.params = (_, refl)
  handle-Returns Route.fee_params = (_, refl)
  handle-Returns Route.con_params = (_, refl)
  handle-Returns Route.val_params = (_, refl)
  handle-Returns Route.gov_params = (_, refl)
  handle-Returns Route.supply = (_, refl)
  handle-Returns Route.validators = handle_validators-Returns
  handle-Returns Route.non_signers = (_, refl)
  handle-Returns Route.double_signers = (_, refl)
  handle-Returns Route.committees_data = (_, refl)
  handle-Returns Route.subsidized_committees = (_, refl)
  handle-Returns Route.retired_committees = (_, refl)
  handle-Returns Route.poll = (_, refl)
  handle-Returns Route.proposals = (_, refl)
  handle-Returns Route.indexer_blobs = handle_indexer_blobs-Returns

module _ (rt : Runtime) (cn : Canopy) (ms : Marshal) (http : Http) (fuel n chain_id : ℕ)
    (opts : List ChainOption) {mc : MockChain} (bound : n < 2 ^ 63)
    (made : new_mock_chain rt cn fuel (pos n) chain_id opts ≡ ok mc) where
  -- On a chain that newMockChain returns for fewer than 2 ^ 63 blocks, every handler gives a response
  -- to every request, and panics for none, if the page size that the request's body holds is not
  -- negative and its page number is below 2 ^ 50.
  pub routes_answer :
      (route : Route) (r : Request)
      → IsPageable (page_request http r)
      → Returns (handle rt cn ms http mc route r)
  routes_answer route r p =
      handle-Returns rt cn ms http mc r p
        (λ h s e. (state_at-IsSnapshot rt cn fuel n chain_id opts bound made h e).books) route
