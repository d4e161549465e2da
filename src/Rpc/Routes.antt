-- ===== src/Rpc/Routes.antt =====
-- The handlers of RegisterRoutes in rpc/server_routes.go, one function each, from a request to a
-- response or a panic.
use canopy_rpc_mock.Base.{List, ◌==◌, if◌then◌else◌, Result, ok}
use canopy_rpc_mock.Gen.Runtime.{Runtime}
use canopy_rpc_mock.Chain.Types.{DexPrice}
use canopy_rpc_mock.Chain.Canopy.{Canopy}
use canopy_rpc_mock.Chain.MockChain.{
  MockChain, latest_height, block_at, cert_at, state_at, txs_at, events_at, dex_batch_at,
  next_dex_batch_at, supply_at, non_signers, double_signers, dex_prices_at,
}
use canopy_rpc_mock.Chain.IndexerBlob.{Marshal, build_indexer_blobs}
use canopy_rpc_mock.Rpc.OrderBooks.{normalize_order_books}
use canopy_rpc_mock.Rpc.Http.{Http, Request, Payload, Response, json, status_ok, parse_height_req}
use canopy_rpc_mock.Chain.Types.{DexPrice}
use canopy_rpc_mock.Rpc.Replies.{
  or_latest, found_reply, state_reply, simple_page, filter_prices, books_reply, blobs_reply,
  page_request, id_request, dex_request, blobs_request, page_reply, batch_reply, committees_of,
  retired_of, state_height,
}

module _ (rt : Runtime) (cn : Canopy) (ms : Marshal) (http : Http) (mc : MockChain) where
  unfoldable pub handle_height : Request → Result Response
  handle_height r = ok (json status_ok (Payload.height (latest_height mc)))

  unfoldable pub handle_block : Request → Result Response
  handle_block r =
      ok (found_reply Payload.block (block_at mc (or_latest mc (parse_height_req http r))))

  unfoldable pub handle_cert : Request → Result Response
  handle_cert r =
      ok (found_reply Payload.cert (cert_at mc (or_latest mc (parse_height_req http r))))

  unfoldable pub handle_state : Request → Result Response
  handle_state r = ok (found_reply Payload.state (state_at mc (state_height http mc r)))

  unfoldable pub handle_txs : Request → Result Response
  handle_txs r =
      let req = page_request http r in
      page_reply rt Payload.tx_page http.tx_results_len http.tx_results_page_name
        (txs_at mc (or_latest mc req.height)) req

  unfoldable pub handle_events : Request → Result Response
  handle_events r =
      let req = page_request http r in
      page_reply rt Payload.event_page http.events_len http.events_page_name
        (events_at mc (or_latest mc req.height)) req

  unfoldable pub handle_accounts : Request → Result Response
  handle_accounts r =
      let req = page_request http r in
      state_reply
        (λ state.
          page_reply rt Payload.account_page http.account_page_len http.accounts_page_name
            state.accounts req)
        (state_at mc (or_latest mc req.height))

  unfoldable pub handle_orders : Request → Result Response
  handle_orders r =
      let req = id_request http r in
      state_reply (λ state. books_reply req.id (normalize_order_books state.order_books))
        (state_at mc (or_latest mc req.height))

  unfoldable pub handle_pools : Request → Result Response
  handle_pools r =
      let req = page_request http r in
      state_reply
        (λ state.
          page_reply rt Payload.pool_page http.pool_page_len http.pool_page_name state.pools req)
        (state_at mc (or_latest mc req.height))

  unfoldable pub handle_dex_price : Request → Result Response
  handle_dex_price r =
      let req = id_request http r in
      let answer = λ (prices : List DexPrice).
        Payload.dex_prices (if req.id == 0 then prices else filter_prices req.id prices) in
      ok (found_reply answer (dex_prices_at cn mc req.height))

  unfoldable pub handle_dex_batch : Request → Result Response
  handle_dex_batch r =
      let req = dex_request http r in batch_reply mc req (dex_batch_at mc (or_latest mc req.height))

  unfoldable pub handle_next_dex_batch : Request → Result Response
  handle_next_dex_batch r =
      let req = dex_request http r in
      batch_reply mc req (next_dex_batch_at mc (or_latest mc req.height))

  unfoldable pub handle_params : Request → Result Response
  handle_params r = ok (json status_ok (Payload.all_params mc.params))

  unfoldable pub handle_fee_params : Request → Result Response
  handle_fee_params r = ok (json status_ok (Payload.fee_params mc.params.fee))

  unfoldable pub handle_con_params : Request → Result Response
  handle_con_params r = ok (json status_ok (Payload.con_params mc.params.consensus))

  unfoldable pub handle_val_params : Request → Result Response
  handle_val_params r = ok (json status_ok (Payload.val_params mc.params.validator))

  unfoldable pub handle_gov_params : Request → Result Response
  handle_gov_params r = ok (json status_ok (Payload.gov_params mc.params.governance))

  unfoldable pub handle_supply : Request → Result Response
  handle_supply r =
      ok (found_reply Payload.supply (supply_at mc (or_latest mc (parse_height_req http r))))

  unfoldable pub handle_validators : Request → Result Response
  handle_validators r =
      let req = page_request http r in
      state_reply
        (λ state.
          page_reply rt Payload.validator_page http.validator_page_len http.validators_page_name
            state.validators req)
        (state_at mc (or_latest mc req.height))

  unfoldable pub handle_non_signers : Request → Result Response
  handle_non_signers r = ok (
      json status_ok (
        Payload.non_signer_page
          (simple_page (non_signers mc (or_latest mc (parse_height_req http r))))))

  unfoldable pub handle_double_signers : Request → Result Response
  handle_double_signers r = ok (
      json status_ok (
        Payload.double_signer_page
          (simple_page (double_signers mc (or_latest mc (parse_height_req http r))))))

  unfoldable pub handle_committees_data : Request → Result Response
  handle_committees_data r = ok (json status_ok (committees_of mc (state_at mc (latest_height mc))))

  -- Both branches of the handler answer alike.
  unfoldable pub handle_subsidized_committees : Request → Result Response
  handle_subsidized_committees r = ok (json status_ok (Payload.ids mc.subsidized_committees))

  unfoldable pub handle_retired_committees : Request → Result Response
  handle_retired_committees r =
      ok (json status_ok (Payload.ids (retired_of mc (state_at mc (latest_height mc)))))

  unfoldable pub handle_poll : Request → Result Response
  handle_poll r = ok (json status_ok (Payload.poll mc.poll))

  unfoldable pub handle_proposals : Request → Result Response
  handle_proposals r = ok (json status_ok (Payload.proposals mc.proposals))

  unfoldable pub handle_indexer_blobs : Request → Result Response
  handle_indexer_blobs r =
      blobs_reply http (build_indexer_blobs rt ms mc (or_latest mc (blobs_request http r).height))
