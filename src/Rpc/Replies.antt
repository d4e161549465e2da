-- ===== src/Rpc/Replies.antt =====
-- What the handlers of rpc/server_routes.go share: the decoded requests, the height that a request
-- means, and the replies that several of them give.
use canopy_rpc_mock.Base.{
  ℕ, String, Bool, false, Option, none, some, List, [], ◌∷◌, ◌==◌, str_eq, not, ◌&&◌, ltb,
  if◌then◌else◌, length, Result, ok, fault, nil_dereference, ◌>>=◌, ℤ, pos, negsuc,
}
use canopy_rpc_mock.Gen.Runtime.{Runtime}
use canopy_rpc_mock.Chain.Types.{OrderBook, OrderBooks, DexPrice, DexBatch}
use canopy_rpc_mock.Chain.MockChain.{MockChain, GenesisState, latest_height}
use canopy_rpc_mock.Chain.IndexerBlob.{
  Answer, IndexerBlobs, refused, given, BlobError, unknown_height, marshal_failed,
}
use canopy_rpc_mock.Rpc.Page.{Page, paginate, build_page}
use canopy_rpc_mock.Rpc.Http.{
  Http, Request, HeightPageRequest, IdHeightRequest, DexRequest, BlobsRequest, SimplePageResp,
  Payload, Response, literal, of_blob_error, of_library, json, protobuf, error, status_ok,
  status_not_found, status_internal_server_error, decode_body, parse_height_req,
}

-- if h == 0 { h = mc.LatestHeight() }
unfoldable pub or_latest : MockChain → ℕ → ℕ
unfolding latest_height
or_latest mc h = if h == 0 then latest_height mc else h

abbrev pub not_found : Response
not_found = error status_not_found (literal "unknown height")

-- The end of the handlers that look one thing up.
abbrev pub found_reply {ℓ} : {A : Type ℓ} → (A → Payload) → Option A → Response
found_reply payload none = not_found
found_reply payload (some a) = json status_ok (payload a)

-- The end of the handlers that read a state.
abbrev pub state_reply : (GenesisState → Result Response) → Option GenesisState → Result Response
state_reply reply none = ok not_found
state_reply reply (some state) = reply state

abbrev pub is_zero : ℤ → Bool
is_zero (pos n) = n == 0
is_zero (negsuc n) = false

abbrev pub simple_page {ℓ} : {A : Type ℓ} → List A → SimplePageResp A
simple_page results = record {
  page_number = 1;
  per_page = 100;
  results = results;
  count = length results;
  total_pages = 1;
  total_count = length results;
}

-- the loop over the books for one identifier; book.ChainId panics on a nil book
unfoldable pub find_book : ℕ → List (Option OrderBook) → Result (Option OrderBook)
find_book id [] = ok none
find_book id (none ∷ books) = fault nil_dereference
find_book id (some book ∷ books) =
    let rest = find_book id books in if book.chain_id == id then ok (some book) else rest

unfoldable pub filter_prices : ℕ → List DexPrice → List DexPrice
filter_prices id [] = []
filter_prices id (p ∷ prices) =
    let rest = filter_prices id prices in if p.local_chain_id == id then p ∷ rest else rest

-- the books with the one that was found, or its absence after the loop
abbrev pub book_reply : Option OrderBook → Response
book_reply none = error status_not_found (literal "order book not found")
book_reply (some book) =
    json status_ok (Payload.order_books (some (record { order_books = some book ∷ [] })))

-- target.OrderBooks for a nil target panics
unfoldable pub books_reply : ℕ → Option OrderBooks → Result Response
books_reply id target =
    if id == 0 then ok (json status_ok (Payload.order_books target)) else elim target [
      | none ↦ fault nil_dereference
      | some books ↦ do found ← find_book id books.order_books; ok (book_reply found)
    ]

-- The status of an error of BuildIndexerBlobs: errors.Is(err, chain.ErrUnknownHeight).
abbrev pub blob_status : BlobError → ℕ
blob_status (unknown_height h) = status_not_found
blob_status marshal_failed = status_internal_server_error

module _ (http : Http) where
  abbrev pub page_request : Request → HeightPageRequest
  page_request r =
      decode_body http http.unmarshal_page r
        (record { height = 0; page_number = pos 0; per_page = pos 0 })

  abbrev pub id_request : Request → IdHeightRequest
  id_request r = decode_body http http.unmarshal_id r (record { height = 0; id = 0 })

  abbrev pub dex_request : Request → DexRequest
  dex_request r =
      decode_body http http.unmarshal_dex r (record { height = 0; id = 0; points = false })

  abbrev pub blobs_request : Request → BlobsRequest
  blobs_request r = decode_body http http.unmarshal_blobs r (record { height = 0; delta = false })

  -- the rest of the handler of the indexer's blobs once they are built
  unfoldable pub delta_reply : IndexerBlobs → Response
  delta_reply blobs = elim (http.delta_indexer_blobs blobs) [
    | none ↦ error status_internal_server_error of_library
    | some delta ↦ elim (http.marshal_delta delta) [
      | none ↦ error status_internal_server_error of_library
      | some bz ↦ protobuf status_ok bz
    ]
  ]

  unfoldable pub blobs_reply : Answer IndexerBlobs → Result Response
  blobs_reply (refused why) = ok (error (blob_status why) (of_blob_error why))
  blobs_reply (given blobs) = ok (delta_reply blobs)

module _ (mc : MockChain) where
  unfoldable pub committees_of : Option GenesisState → Payload
  committees_of none = Payload.committees mc.committees
  committees_of (some state) = elim state.committees [
    | some committees ↦ Payload.committees committees
    | none ↦ Payload.committees mc.committees
  ]

  unfoldable pub retired_of : Option GenesisState → List ℕ
  retired_of none = mc.retired_committees
  retired_of (some state) =
      if ltb 0 (length state.retired_committees)
      then state.retired_committees
      else mc.retired_committees

  -- the rest of the two handlers of dex batches
  unfoldable pub batch_reply : DexRequest → Option (Option DexBatch) → Result Response
  batch_reply req found =
      if not (req.id == 0) && not (req.id == mc.chain_id)
      then ok (error status_not_found (literal "unknown committee"))
      else ok (found_reply (λ batch. Payload.dex_batches (batch ∷ [])) found)

module _ (http : Http) (mc : MockChain) where
  -- The latest height only stands in for a height that is not in the request.
  unfoldable pub state_height : Request → ℕ
  state_height r =
      let h = parse_height_req http r in
      if h == 0 && str_eq r.query_height "" && is_zero r.content_length then latest_height mc else h

module _ (rt : Runtime) where
  -- paginate, buildPage and writeJSON, as the five handlers of pages call them
  unfoldable pub page_reply {ℓ} :
      {A : Type ℓ}
      → (Page A → Payload)
      → Option (List A → ℕ)
      → String
      → List A
      → HeightPageRequest
      → Result Response
  page_reply payload len type_name items req = do
    (page, params, total) ← paginate items req.page_number req.per_page
    ok (json status_ok (payload (build_page rt len page params type_name total)))
