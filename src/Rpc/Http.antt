-- ===== src/Rpc/Http.antt =====
-- Requests and responses of rpc/server_routes.go, and its decodeBody and parseHeightReq. What it
-- takes from net/http, strconv, encoding/json, bytes and the canopy module is a parameter.
use canopy_rpc_mock.Base.{
  ℕ, ◌^◌, String, Bool, Option, none, some, List, ◌==◌, str_eq, if◌then◌else◌, length, take, ℤ,
}
use canopy_rpc_mock.Chain.Types.{
  Bytes, Account, Pool, Validator, OrderBooks, DexPrice, DexBatch, CommitteesData, NonSigner,
  DoubleSigner, Supply, QuorumCertificate, TxResult, Event, BlockResult,
}
use canopy_rpc_mock.Chain.Params.{
  Params, ConsensusParams, ValidatorParams, FeeParams, GovernanceParams,
}
use canopy_rpc_mock.Chain.Governance.{PollResult, GovProposal}
use canopy_rpc_mock.Chain.MockChain.{GenesisState}
use canopy_rpc_mock.Chain.IndexerBlob.{IndexerBlobs, BlobError}
use canopy_rpc_mock.Rpc.Page.{Page}

-- What reading a body to its end gives.
pub data Body : Type 0 where
  unreadable : Body
  content : Bytes → Body

-- The parts of an *http.Request that the handlers read: r.URL.Query().Get("height"),
-- r.ContentLength and r.Body, where none is nil.
pub record Request : Type 0 where
  pub query_height : String
  pub content_length : ℤ
  pub body : Option Body

pub record HeightPageRequest : Type 0 where
  pub height : ℕ
  pub page_number : ℤ
  pub per_page : ℤ

pub record IdHeightRequest : Type 0 where
  pub height : ℕ
  pub id : ℕ

pub record DexRequest : Type 0 where
  pub height : ℕ
  pub id : ℕ
  pub points : Bool

pub record BlobsRequest : Type 0 where
  pub height : ℕ
  pub delta : Bool

pub record Http : Type 1 where
  -- strconv.ParseUint(s, 10, 64); none is its error
  pub parse_uint : String → Option ℕ
  -- bytes.TrimSpace
  pub trim_space : Bytes → Bytes
  -- the target after json.Unmarshal(raw, &target), at each type of target
  pub unmarshal_height : Bytes → ℕ → ℕ
  pub unmarshal_page : Bytes → HeightPageRequest → HeightPageRequest
  pub unmarshal_id : Bytes → IdHeightRequest → IdHeightRequest
  pub unmarshal_dex : Bytes → DexRequest → DexRequest
  pub unmarshal_blobs : Bytes → BlobsRequest → BlobsRequest
  -- fsm.DeltaIndexerBlobs and lib.Marshal of its result; none is an error
  pub Delta : Type 0
  pub delta_indexer_blobs : IndexerBlobs → Option Delta
  pub marshal_delta : Delta → Option Bytes
  -- the page names of lib and fsm
  pub tx_results_page_name : String
  pub events_page_name : String
  pub accounts_page_name : String
  pub pool_page_name : String
  pub validators_page_name : String
  -- the Len methods of lib.TxResults, lib.Events, fsm.AccountPage, fsm.PoolPage and
  -- fsm.ValidatorPage; none for a type that has no such method
  pub tx_results_len : Option (List TxResult → ℕ)
  pub events_len : Option (List Event → ℕ)
  pub account_page_len : Option (List Account → ℕ)
  pub pool_page_len : Option (List Pool → ℕ)
  pub validator_page_len : Option (List Validator → ℕ)

pub record SimplePageResp {ℓ} (A : Type ℓ) : Type ℓ where
  pub page_number : ℕ
  pub per_page : ℕ
  pub results : List A
  pub count : ℕ
  pub total_pages : ℕ
  pub total_count : ℕ

-- What a handler passes to writeJSON.
pub data Payload : Type 0 where
  height : ℕ → Payload
  block : BlockResult → Payload
  cert : QuorumCertificate → Payload
  state : GenesisState → Payload
  tx_page : Page TxResult → Payload
  event_page : Page Event → Payload
  account_page : Page Account → Payload
  pool_page : Page Pool → Payload
  validator_page : Page Validator → Payload
  order_books : Option OrderBooks → Payload
  dex_prices : List DexPrice → Payload
  dex_batches : List (Option DexBatch) → Payload
  all_params : Params → Payload
  fee_params : FeeParams → Payload
  con_params : ConsensusParams → Payload
  val_params : ValidatorParams → Payload
  gov_params : GovernanceParams → Payload
  supply : Supply → Payload
  non_signer_page : SimplePageResp NonSigner → Payload
  double_signer_page : SimplePageResp DoubleSigner → Payload
  committees : CommitteesData → Payload
  ids : List ℕ → Payload
  poll : List (Bytes × PollResult) → Payload
  proposals : List (Bytes × GovProposal) → Payload

-- The text that http.Error writes: a literal, or an error's own.
pub data ErrorText : Type 0 where
  literal : String → ErrorText
  of_blob_error : BlobError → ErrorText
  of_library : ErrorText

-- A status with what follows it: writeJSON's payload, the bytes of the indexer's blobs, or an error.
pub data Response : Type 0 where
  json : ℕ → Payload → Response
  protobuf : ℕ → Bytes → Response
  error : ℕ → ErrorText → Response

-- http.StatusOK, StatusNotFound and StatusInternalServerError
abbrev pub status_ok : ℕ
status_ok = 200

abbrev pub status_not_found : ℕ
status_not_found = 404

abbrev pub status_internal_server_error : ℕ
status_internal_server_error = 500

module _ (http : Http) where
  -- the rest of decodeBody once the body, cut at 1 << 20 bytes, is read
  unfoldable pub decode_raw {ℓ} : {A : Type ℓ} → (Bytes → A → A) → Bytes → A → A
  decode_raw unmarshal raw target =
      if length (http.trim_space raw) == 0 then target else unmarshal raw target

  unfoldable pub decode_body {ℓ} : {A : Type ℓ} → (Bytes → A → A) → Request → A → A
  decode_body unmarshal r target = elim r.body [
    | none ↦ target
    | some body ↦ elim body [
      | unreadable ↦ target
      | content bytes ↦ decode_raw unmarshal (take (2 ^ 20) bytes) target
    ]
  ]

  -- the height of the query, where it has one that is a number
  unfoldable pub query_height_of : Request → Option ℕ
  query_height_of r = if str_eq r.query_height "" then none else http.parse_uint r.query_height

  unfoldable pub parse_height_req : Request → ℕ
  parse_height_req r = elim (query_height_of r) [
    | some h ↦ h
    | none ↦ decode_body http.unmarshal_height r 0
  ]
