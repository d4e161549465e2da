-- ===== src/Chain/New.antt =====
-- newMockChain of chain/mock_data.go: the options, the fixed data, and a block for each height.
pub mod Step
pub mod Built
pub mod Fixed
pub mod Heights
pub mod Served
pub mod States
pub mod Total
pub mod Returning
pub mod Complete
use canopy_rpc_mock.Base.{
  ℕ, zero, suc, ◌+◌, Bool, true, false, Option, none, some, List, [], ◌∷◌, if◌then◌else◌, Result,
  ok, ◌>>=◌, map, length, add64, ℤ, pos, bits_of, is_positive, rounds,
}
use canopy_rpc_mock.Base.Dict.{insert}
use canopy_rpc_mock.Gen.Runtime.{Runtime}
use canopy_rpc_mock.Gen.Profile.{Profile, profile_for_chain}
use canopy_rpc_mock.Chain.Types.{
  Bytes, Account, Validator, DexBatch, QuorumCertificate, TxResult, Event, BlockResult,
}
use canopy_rpc_mock.Chain.Canopy.{Canopy}
use canopy_rpc_mock.Chain.Params.{build_params}
use canopy_rpc_mock.Chain.Governance.{build_poll, build_proposals}
use canopy_rpc_mock.Chain.Build.{
  build_validators, build_accounts, build_pools, build_order_books, build_dex_prices,
  build_committees,
}
use canopy_rpc_mock.Chain.MockChain.{MockChain, GenesisState}
use canopy_rpc_mock.Chain.Blocks.{generate_dex_batch, generate_block, build_certificate_for_tx}
use canopy_rpc_mock.Chain.Snapshot.{snapshot_state_at}
use canopy_rpc_mock.Chain.Txs.{generate_closed_form_txs, generate_closed_form_events}

pub record ChainOptions : Type 0 where
  pub profile : Option Profile
  pub seed : Option ℤ
  pub validator_count : ℤ
  pub account_count : ℤ

-- type Option func(*chainOptions)
abbrev pub ChainOption : Type 0
ChainOption = ChainOptions → ChainOptions

abbrev pub with_profile : Profile → ChainOption
with_profile p o = record o { profile = some p }

abbrev pub with_seed : ℤ → ChainOption
with_seed seed o = record o { seed = some seed }

abbrev pub with_validator_count : ℤ → ChainOption
with_validator_count n o = record o { validator_count = n }

abbrev pub with_account_count : ℤ → ChainOption
with_account_count n o = record o { account_count = n }

abbrev pub no_options : ChainOptions
no_options = record { profile = none; seed = none; validator_count = pos 0; account_count = pos 0 }

abbrev pub apply_options : List ChainOption → ChainOptions → ChainOptions
apply_options [] cfg = cfg
apply_options (o ∷ opts) cfg = apply_options opts (o cfg)

-- the bits of the seed: that of the options, or the chain's identifier
abbrev pub seed_of : ℕ → ChainOptions → ℕ
seed_of chain_id cfg = elim cfg.seed [ some s ↦ bits_of s | none ↦ chain_id ]

abbrev pub validator_count_of : ChainOptions → ℕ
validator_count_of cfg = if is_positive cfg.validator_count then rounds cfg.validator_count else 10

abbrev pub account_count_of : ChainOptions → List Validator → ℕ
account_count_of cfg vs =
    if is_positive cfg.account_count then rounds cfg.account_count else length vs

abbrev pub profile_of : ℕ → ChainOptions → Profile
profile_of chain_id cfg = elim cfg.profile [ some p ↦ p | none ↦ profile_for_chain chain_id ]

abbrev pub addresses : MockChain → List Bytes
addresses mc = map (λ (a : Account). a.address) mc.accounts

-- The assignments of the loop's body; `mc.dexBatches[height] = mc.lockedBatch` follows that of the
-- block.
unfoldable pub put_txs : MockChain → ℕ → List TxResult → List Event → MockChain
put_txs mc height txs events = record mc {
  txs = insert height txs mc.txs;
  events = insert height events mc.events;
}

unfoldable pub put_block : MockChain → ℕ → BlockResult → MockChain
put_block mc height block = record mc {
  blocks = insert height block mc.blocks;
  dex_batches = insert height mc.locked_batch mc.dex_batches;
}

unfoldable pub put_next : MockChain → ℕ → DexBatch → MockChain
put_next mc height batch = record mc {
  next_dex_batches = insert height (some batch) mc.next_dex_batches;
}

unfoldable pub put_state : MockChain → ℕ → GenesisState → MockChain
put_state mc height state = record mc { states = insert height state mc.states }

unfoldable pub put_cert : MockChain → ℕ → QuorumCertificate → MockChain
put_cert mc height cert = record mc { certs = insert height cert mc.certs }

-- mc.lockedBatch = batch
unfoldable pub lock_batch : MockChain → DexBatch → MockChain
lock_batch mc batch = record mc { locked_batch = some batch }

module _ (rt : Runtime) (cn : Canopy) where
  -- newMockChain up to the poll and the proposals: the data that no height changes
  unfoldable pub fixed_data : ℕ → ChainOptions → Result MockChain
  fixed_data chain_id cfg = do
    let (validators, rng1) =
        build_validators rt cn chain_id (validator_count_of cfg) 0
          (rt.new_source (seed_of chain_id cfg))
    let (accounts, rng2) = build_accounts rt cn validators (account_count_of cfg validators) 0 rng1
    (pools, _) ← build_pools rt cn accounts chain_id rng2
    order_books ← build_order_books rt cn validators chain_id
    committees ← build_committees validators
    proposals ← build_proposals rt cn validators
    ok (record {
      chain_id = chain_id;
      blocks = [];
      certs = [];
      txs = [];
      events = [];
      dex_batches = [];
      next_dex_batches = [];
      states = [];
      accounts = accounts;
      pools = pools;
      validators = validators;
      order_books = order_books;
      dex_prices = build_dex_prices chain_id;
      params = build_params chain_id;
      committees = committees;
      subsidized_committees = chain_id ∷ add64 chain_id 1 ∷ [];
      retired_committees = 42 ∷ [];
      poll = build_poll rt;
      proposals = proposals;
      locked_batch = none;
      locked_batch_height = 0;
    })

  -- the rest of newMockChain before its loop
  unfoldable pub genesis : ℕ → ChainOptions → Result MockChain
  genesis chain_id cfg = do
    mc ← fixed_data chain_id cfg
    let locked = lock_batch mc (generate_dex_batch rt mc 0 false [] [] [])
    state ← snapshot_state_at rt locked (addresses locked) 0
    ok (put_state locked 0 state)

module _ (rt : Runtime) (cn : Canopy) (fuel : ℕ) where
  -- one round of the loop
  unfoldable pub add_block : Profile → MockChain → ℕ → Result MockChain
  add_block profile mc height = do
    txs ← generate_closed_form_txs rt cn fuel mc height profile
    events ← generate_closed_form_events rt cn fuel mc height profile
    let mc1 = put_txs mc height txs events
    block ← generate_block rt cn mc1 height txs events
    let mc2 = put_block mc1 height block
    let mc3 = put_next mc2 height (generate_dex_batch rt mc2 height true [] [] [])
    state ← snapshot_state_at rt mc3 (addresses mc3) height
    let mc4 = put_state mc3 height state
    cert ← build_certificate_for_tx rt cn mc4 height
    ok (put_cert mc4 height cert)

  -- n rounds of the loop, from height h. The loop of the source ends after these for every number of
  -- blocks but the largest int, where its counter wraps around.
  unfoldable pub add_blocks : Profile → ℕ → ℕ → MockChain → Result MockChain
  add_blocks profile zero h mc = ok mc
  add_blocks profile (suc n) h mc = do
    mc' ← add_block profile mc h
    add_blocks profile n (h + 1) mc'

  unfoldable pub new_mock_chain : ℤ → ℕ → List ChainOption → Result MockChain
  new_mock_chain num_blocks chain_id opts = do
    let cfg = apply_options opts no_options
    mc ← genesis rt cn chain_id cfg
    add_blocks (profile_of chain_id cfg) (rounds num_blocks) 1 mc
