-- ===== src/Chain/MockState.antt =====
-- The type mockState of chain/mock_state.go: its construction, the end of a block, and
-- its events. A map keyed by a text is a list of its entries; the pools that the map points to are the
-- caller's in the source, and the state's own here.
pub mod Blocks
pub mod Batch
pub mod Snapshot
pub mod Supply
pub mod Withdrawals
use canopy_rpc_mock.Base.{
  ℕ, ◌+◌, ◌%◌, ◌<◌, Bool, true, false, String, Option, none, some, List, [], ◌∷◌, ◌++◌, map, ◌==◌,
  ◌&&◌, ltb, leb, if◌then◌else◌, length, Result, ok, fault, nil_dereference, index, ◌>>=◌, add64,
  sub64,
}
use canopy_rpc_mock.Base.Dict.{Dict, lookup, insert}
use canopy_rpc_mock.Gen.Runtime.{Runtime}
use canopy_rpc_mock.Gen.Ledger.{bytes_eq}
use canopy_rpc_mock.Chain.Types.{
  Bytes, Account, Validator, Pool, SellOrder, OrderBook, OrderBooks, DexPrice, CommitteesData,
  NonSigner, DoubleSigner, Event, EventMsg, QuorumCertificate,
}
use canopy_rpc_mock.Chain.Params.{Params}
use canopy_rpc_mock.Chain.Canopy.{Canopy}
use canopy_rpc_mock.Chain.Governance.{hex_encode}
use canopy_rpc_mock.Chain.Blocks.{block_hash, mock_network_id}

-- map[string]V
abbrev pub Texts {ℓ} : Type ℓ → Type ℓ
Texts V = List (Bytes × V)

module _ {ℓ} {V : Type ℓ} where
  abbrev pub lookup_text : Bytes → Texts V → Option V
  lookup_text key [] = none
  lookup_text key (p ∷ m) =
      let rest = lookup_text key m in if bytes_eq key p.0 then some p.1 else rest

  abbrev pub insert_text : Bytes → V → Texts V → Texts V
  insert_text key x [] = (key, x) ∷ []
  insert_text key x (p ∷ m) =
      let rest = insert_text key x m in if bytes_eq key p.0 then (p.0, x) ∷ m else p ∷ rest

  -- delete(m, key)
  abbrev pub remove : ℕ → Dict V → Dict V
  remove key [] = []
  remove key (p ∷ m) = let rest = remove key m in if key == p.0 then rest else p ∷ rest

  -- sort.Slice, by a test that no two elements pass both ways
  abbrev pub place : (V → V → Bool) → V → List V → List V
  place less x [] = x ∷ []
  place less x (y ∷ ys) = let rest = place less x ys in if less x y then x ∷ y ∷ ys else y ∷ rest

  abbrev pub sort : (V → V → Bool) → List V → List V
  sort less [] = []
  sort less (x ∷ xs) = place less x (sort less xs)

-- s < t for strings
abbrev pub text_lt : Bytes → Bytes → Bool
text_lt bs [] = false
text_lt [] (c ∷ cs) = true
text_lt (b ∷ bs) (c ∷ cs) =
    let rest = text_lt bs cs in if ltb b c then true else if b == c then rest else false

-- hex.EncodeToString(a) < hex.EncodeToString(b)
abbrev pub hex_lt : Bytes → Bytes → Bool
hex_lt a b = text_lt (hex_encode a) (hex_encode b)

pub record ValidatorInfo : Type 0 where
  pub addr : Bytes
  pub pub_key : Bytes
  pub stake : ℕ
  pub paused : Bool
  pub delegate : Bool
  pub compound : Bool
  pub unstaking_at : ℕ
  pub output_address : Bytes
  pub net_address : Bytes
  pub committees : List ℕ

pub record MockState : Type 0 where
  pub chain_id : ℕ
  pub height : ℕ
  pub accounts : Texts ℕ
  pub validators : Texts ValidatorInfo
  pub order_books : Dict (List (Option SellOrder))
  pub pools : Dict Pool
  pub params : Params
  pub committee_set : CommitteesData
  pub non_signers : List NonSigner
  pub double_sign : List DoubleSigner
  pub dex_prices : List DexPrice
  pub events : List Event
  pub delayed_events : Dict (List Event)

-- The four loops of newMockState.
unfoldable pub account_map : List Account → Texts ℕ → Texts ℕ
account_map [] m = m
account_map (a ∷ accounts) m = account_map accounts (insert_text (hex_encode a.address) a.amount m)

abbrev pub validator_info : Validator → ValidatorInfo
validator_info v = record {
  addr = v.address;
  pub_key = v.public_key;
  stake = v.staked_amount;
  paused = false;
  delegate = v.delegate;
  compound = v.compound;
  unstaking_at = v.unstaking_height;
  output_address = v.output;
  net_address = v.net_address;
  committees = v.committees;
}

unfoldable pub validator_map : List Validator → Texts ValidatorInfo → Texts ValidatorInfo
validator_map [] m = m
validator_map (v ∷ validators) m =
    validator_map validators (insert_text (hex_encode v.address) (validator_info v) m)

unfoldable pub pool_map : List Pool → Dict Pool → Dict Pool
pool_map [] m = m
pool_map (p ∷ pools) m = pool_map pools (insert p.id p m)

-- book.ChainId panics on a nil book
unfoldable pub book_map :
    List (Option OrderBook)
    → Dict (List (Option SellOrder))
    → Result (Dict (List (Option SellOrder)))
book_map [] m = ok m
book_map (none ∷ books) m = fault nil_dereference
book_map (some book ∷ books) m = book_map books (insert book.chain_id book.orders m)

unfoldable pub new_mock_state :
    ℕ
    → List Account
    → List Validator
    → List Pool
    → Params
    → OrderBooks
    → List DexPrice
    → CommitteesData
    → Result MockState
new_mock_state chain_id accounts validators pools params order_books dex_prices committees = do
  books ← book_map order_books.order_books []
  ok (record {
    chain_id = chain_id;
    height = 0;
    accounts = account_map accounts [];
    validators = validator_map validators [];
    order_books = books;
    pools = pool_map pools [];
    params = params;
    committee_set = committees;
    non_signers = [];
    double_sign = [];
    dex_prices = dex_prices;
    events = [];
    delayed_events = [];
  })

unfoldable pub validators_ordered : MockState → List ValidatorInfo
validators_ordered s =
    sort (λ v w. hex_lt v.addr w.addr) (map (λ (p : Bytes × ValidatorInfo). p.1) s.validators)

-- the state after addEvents, and what it returns
unfoldable pub add_events : MockState → List Event → List Event → MockState × List Event
add_events s events new_events =
    (record s { events = s.events ++ new_events }, events ++ new_events)

-- if pool, ok := s.pools[id]; ok { f(pool) }, where f changes the pool
abbrev pub update_pool : ℕ → (Pool → Pool) → Dict Pool → Dict Pool
update_pool id f pools = elim (lookup id pools) [
  | some pool ↦ insert id (f pool) pools
  | none ↦ pools
]

-- The appended events, up to the end of the block; the events that are due are taken out.
unfoldable pub end_block : MockState → Bytes → MockState × List Event
end_block s proposer = elim (lookup s.height s.delayed_events) [
  | none ↦ (s, s.events)
  | some delayed ↦
      if ltb 0 (length delayed)
      then (record s { delayed_events = remove s.height s.delayed_events }, s.events ++ delayed)
      else (s, s.events)
]
