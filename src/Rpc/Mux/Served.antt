-- ===== src/Rpc/Mux/Served.antt =====
-- What the routes of a built chain answer at a height.
use canopy_rpc_mock.Base.{
  ℕ, ◌≤◌, ◌<◌, ◌^◌, ◌≡◌, ap, ◌∙◌, Option, none, some, List, arith, ok, pos, ◌==◌, if◌then◌else◌,
}
use canopy_rpc_mock.Gen.Runtime.{Runtime}
use canopy_rpc_mock.Chain.Types.{BlockResult, QuorumCertificate}
use canopy_rpc_mock.Chain.Canopy.{Canopy}
use canopy_rpc_mock.Chain.MockChain.{
  MockChain, GenesisState, block_at, cert_at, state_at, supply_of, supply_at,
}
use canopy_rpc_mock.Chain.IndexerBlob.{Marshal}
use canopy_rpc_mock.Chain.New.{ChainOption, new_mock_chain}
use canopy_rpc_mock.Chain.New.Built.{IsBuilt}
use canopy_rpc_mock.Chain.New.Heights.{new_mock_chain_parts}
use canopy_rpc_mock.Chain.New.Served.{heights_served}
use canopy_rpc_mock.Rpc.Http.{Http, Request, Payload, json, parse_height_req}
use canopy_rpc_mock.Rpc.Replies.{
  or_latest, page_request, id_request, page_reply, books_reply, not_found, found_reply, state_reply,
}
use canopy_rpc_mock.Rpc.OrderBooks.{normalize_order_books}
use canopy_rpc_mock.Rpc.Routes.{
  handle_block, handle_cert, handle_supply, handle_accounts, handle_pools, handle_validators,
  handle_orders,
}
use canopy_rpc_mock.Rpc.Mux.{Route, handle}

module _ (rt : Runtime) (cn : Canopy) (ms : Marshal) (http : Http) (fuel n chain_id : ℕ)
    (opts : List ChainOption) {mc : MockChain} (bound : n < 2 ^ 63)
    (made : new_mock_chain rt cn fuel (pos n) chain_id opts ≡ ok mc) where
  built : IsBuilt rt cn n mc
  built = (new_mock_chain_parts rt cn fuel n chain_id opts bound made).0

  or_latest_lem : (h : ℕ) → or_latest mc h ≡ (if h == 0 then n else h)
  unfolding or_latest
  or_latest_lem h = rw ((heights_served rt cn fuel n chain_id opts bound made).0)

  or_latest-le : (h : ℕ) → h ≤ n → or_latest mc h ≤ n
  or_latest-le h high = rw (or_latest_lem h) (ground arith)

  or_latest-pos : (h : ℕ) → 1 ≤ n → 1 ≤ or_latest mc h
  or_latest-pos h some_blocks = rw (or_latest_lem h) (ground arith)

  or_latest-gt : (h : ℕ) → n < h → n < or_latest mc h
  or_latest-gt h above = rw (or_latest_lem h) (ground arith)

  no_block : (h : ℕ) → n < h → block_at mc (or_latest mc h) ≡ none
  unfolding block_at
  no_block h above = built.no_block_above (or_latest mc h) (or_latest-gt h above)

  no_state : (h : ℕ) → n < h → state_at mc (or_latest mc h) ≡ none
  unfolding state_at
  no_state h above = built.no_state_above (or_latest mc h) (or_latest-gt h above)

  no_supply : (h : ℕ) → n < h → supply_at mc (or_latest mc h) ≡ none
  unfolding supply_at state_at
  no_supply h above = ap (λ (o : Option GenesisState). supply_of o) (no_state h above)

  block_route :
      (r : Request) {h : ℕ} {b : BlockResult}
      → parse_height_req http r ≡ h
      → block_at mc (or_latest mc h) ≡ some b
      → handle rt cn ms http mc Route.block r ≡ ok (json 200 (Payload.block b))
  unfolding handle handle_block
  block_route r asked e =
      ap (λ k. ok (found_reply Payload.block (block_at mc (or_latest mc k)))) asked
      ∙ ap (λ o. ok (found_reply Payload.block o)) e

  cert_route :
      (r : Request) {h : ℕ} {c : QuorumCertificate}
      → parse_height_req http r ≡ h
      → cert_at mc (or_latest mc h) ≡ some c
      → handle rt cn ms http mc Route.cert r ≡ ok (json 200 (Payload.cert c))
  unfolding handle handle_cert
  cert_route r asked e =
      ap (λ k. ok (found_reply Payload.cert (cert_at mc (or_latest mc k)))) asked
      ∙ ap (λ o. ok (found_reply Payload.cert o)) e

  -- On a chain that newMockChain returns for n < 2 ^ 63 blocks, n at least 1, the block and the
  -- certificate routes answer a request that asks for a height up to n with 200 and with the block
  -- and the certificate of that height, or of height n where it is 0. The block carries the height,
  -- and the certificate the block's hash.
  pub block_and_cert_routes :
      (r : Request) (h : ℕ)
      → parse_height_req http r ≡ h
      → 1 ≤ n
      → h ≤ n
      → (b : BlockResult) × (c : QuorumCertificate) × (handle rt cn ms http mc Route.block r
          ≡ ok (json 200 (Payload.block b)))
        × (handle rt cn ms http mc Route.cert r ≡ ok (json 200 (Payload.cert c)))
        × (b.block_header.height ≡ (if h == 0 then n else h))
        × (c.block_hash ≡ b.block_header.hash)
  unfolding block_at cert_at
  block_and_cert_routes r h asked some_blocks high =
      let k = or_latest mc h in
      let a = built.at k (or_latest-pos h some_blocks) (or_latest-le h high) in
      (
        a.block,
        a.cert,
        block_route r asked a.at_block,
        cert_route r asked a.at_cert,
        a.height ∙ or_latest_lem h,
        a.cert_hash,
      )

  -- On a chain that newMockChain returns for n < 2 ^ 63 blocks, a request whose height is above n, be it
  -- read as a height, as a request for a page or as one for an identifier, is answered with 404 by the
  -- block and the supply routes, the account, the pool and the validator routes, and the order route.
  pub unknown_height_routes :
      (r : Request)
      → n < parse_height_req http r
      → n < (page_request http r).height
      → n < (id_request http r).height
      → (handle rt cn ms http mc Route.block r ≡ ok not_found)
        × (handle rt cn ms http mc Route.supply r ≡ ok not_found)
        × (handle rt cn ms http mc Route.accounts r ≡ ok not_found)
        × (handle rt cn ms http mc Route.pools r ≡ ok not_found)
        × (handle rt cn ms http mc Route.validators r ≡ ok not_found)
        × (handle rt cn ms http mc Route.orders r ≡ ok not_found)
  unfolding handle handle_block handle_supply handle_accounts handle_pools handle_validators
      handle_orders
  unknown_height_routes r hh hp hi =
      let no_page = no_state (page_request http r).height hp in
      (
        ap (λ o. ok (found_reply Payload.block o)) (no_block (parse_height_req http r) hh),
        ap (λ o. ok (found_reply Payload.supply o)) (no_supply (parse_height_req http r) hh),
        ap
            (λ o.
              state_reply
                (λ s.
                  page_reply rt Payload.account_page http.account_page_len http.accounts_page_name
                    s.accounts (page_request http r))
                o)
            no_page,
        ap
            (λ o.
              state_reply
                (λ s.
                  page_reply rt Payload.pool_page http.pool_page_len http.pool_page_name s.pools
                    (page_request http r))
                o)
            no_page,
        ap
            (λ o.
              state_reply
                (λ s.
                  page_reply rt Payload.validator_page http.validator_page_len
                    http.validators_page_name s.validators (page_request http r))
                o)
            no_page,
        ap
            (λ o.
              state_reply
                (λ s. books_reply (id_request http r).id (normalize_order_books s.order_books)) o)
            (no_state (id_request http r).height hi),
      )
