-- ===== src/Tests/Chain.antt =====
-- Examples for package chain: a chain of three blocks with two validators.
use canopy_rpc_mock.Base.{
  ℕ, ◌+◌, ◌%◌, ◌≤◌, ◌<◌, ◌^◌, ◌≡◌, ◌↔◌, refl, arith, false, some, List, [], ◌∷◌, ok, fault,
  index_out_of_range, Returns, pos, length, u64_mod,
}
use canopy_rpc_mock.Gen.Hash.{
  rng_for_height, pick_account_index, addr_height_seed, hash_bytes, written, sprint, decimal,
  decimal_from, be_uint64,
}
use canopy_rpc_mock.Gen.Profile.{quiet, params_for_profile}
use canopy_rpc_mock.Gen.Distributions.{
  sample_poisson, poisson_loop, sample_categorical, pick_label, total_weight, last_label,
}
use canopy_rpc_mock.Gen.TxGen.{tx_count_at, quiet_tx_count, tx_type_mix_at}
use canopy_rpc_mock.Gen.EventGen.{event_count_at}
use canopy_rpc_mock.Gen.Lifecycle.{unstake_height_for}
use canopy_rpc_mock.Chain.Types.{BlockResult, QuorumCertificate, TxResult, TxMsg, Validator}
use canopy_rpc_mock.Chain.MockChain.{
  MockChain, GenesisState, latest_height, block_at, cert_at, state_at, txs_at, dex_batch_at,
}
use canopy_rpc_mock.Chain.Blocks.{generate_dex_batch}
use canopy_rpc_mock.Chain.Snapshot.{snapshot_validator}
use canopy_rpc_mock.Chain.Snapshot.Status.{snapshot_validator_unstaking}
use canopy_rpc_mock.Chain.Txs.{
  pick_address, build_tx_msg, tx_message, tx_label, message_type_for_label, make_tx,
  generate_closed_form_txs,
}
use canopy_rpc_mock.Chain.Txs.Messages.{message_type_agrees}
use canopy_rpc_mock.Chain.Txs.Slots.{AllSlots, generate_closed_form_txs-slots, tx_hash_collides}
use canopy_rpc_mock.Chain.New.{ChainOption, with_validator_count, new_mock_chain}
use canopy_rpc_mock.Chain.New.Complete.{new_mock_chain-Returns, single_validator_panics}
use canopy_rpc_mock.Chain.New.Served.{
  heights_served, blocks_linked, certs_match, dex_batch_never_rotates,
}
use canopy_rpc_mock.Chain.New.Total.{txs_up_to, total_txs_counts}
use canopy_rpc_mock.Tests.{toy, toy_canopy, shifted, shifted-IntnInRange}

abbrev pub two_validators : List ChainOption
two_validators = with_validator_count (pos 2) ∷ []

txs_counted : (h : ℕ) → Returns (tx_count_at toy 9 2 quiet h)
unfolding tx_count_at quiet_tx_count sample_poisson poisson_loop rng_for_height params_for_profile
txs_counted h = (2, refl)

events_counted : (h : ℕ) → Returns (event_count_at toy 9 2 quiet h)
unfolding event_count_at sample_poisson poisson_loop rng_for_height
events_counted h = (2, refl)

new_mock_chain-Returns_example : Returns (new_mock_chain toy toy_canopy 9 (pos 3) 2 two_validators)
new_mock_chain-Returns_example =
    new_mock_chain-Returns toy toy_canopy 9 2 (pos 3) two_validators (omega arith) txs_counted
      events_counted

single_validator_panics_example :
    new_mock_chain toy toy_canopy 9 (pos 3) 2 (with_validator_count (pos 1) ∷ [])
    ≡ fault index_out_of_range
single_validator_panics_example =
    single_validator_panics toy toy_canopy 9 2 (pos 3) (with_validator_count (pos 1) ∷ []) refl

pub toy-Returns : Returns (new_mock_chain toy toy_canopy 9 (pos 3) 2 two_validators)
toy-Returns =
    new_mock_chain-Returns toy toy_canopy 9 2 (pos 3) two_validators (omega arith) txs_counted
      events_counted

-- The chain, and the proof that newMockChain builds it.
abbrev pub chain : MockChain
chain = toy-Returns.0

pub made : new_mock_chain toy toy_canopy 9 (pos 3) 2 two_validators ≡ ok chain
made = toy-Returns.1

pub few : 3 < 2 ^ 63
few = omega arith

heights_served_example :
    (latest_height chain ≡ 3)
    × ((h : ℕ) → ((1 ≤ h) × (h ≤ 3)) ↔ ((b : BlockResult) × (block_at chain h ≡ some b)))
    × ((h : ℕ) → (h ≤ 3) ↔ ((s : GenesisState) × (state_at chain h ≡ some s)))
heights_served_example = heights_served toy toy_canopy 9 3 2 two_validators few made

block_here : (h : ℕ) → 1 ≤ h → h ≤ 3 → (b : BlockResult) × (block_at chain h ≡ some b)
block_here h low high =
    ((heights_served toy toy_canopy 9 3 2 two_validators few made).1 h).0 (low, high)

abbrev second : (b : BlockResult) × (block_at chain 2 ≡ some b)
second = block_here 2 (omega arith) (omega arith)

abbrev third : (b : BlockResult) × (block_at chain (2 + 1) ≡ some b)
third = block_here 3 (omega arith) (omega arith)

blocks_linked_example :
    (third.0.block_header.last_block_hash ≡ second.0.block_header.hash)
    × (second.0.block_header.height ≡ 2)
    × (third.0.block_header.height ≡ 3)
blocks_linked_example =
    blocks_linked toy toy_canopy 9 3 2 two_validators few made 2 second.1 third.1

certs_match_example :
    (c : QuorumCertificate) × (cert_at chain 2 ≡ some c)
    × (c.block_hash ≡ second.0.block_header.hash)
    × (dex_batch_at chain 2 ≡ some c.results.dex_batch)
certs_match_example = certs_match toy toy_canopy 9 3 2 two_validators few made 2 second.1

dex_batch_never_rotates_example :
    dex_batch_at chain 2 ≡ some (some (generate_dex_batch toy chain 0 false [] [] []))
dex_batch_never_rotates_example =
    dex_batch_never_rotates toy toy_canopy 9 3 2 two_validators few made 2 (omega arith)
      (omega arith)

total_txs_counts_example :
    (second.0.block_header.total_txs % u64_mod ≡ txs_up_to chain 2 % u64_mod)
    × (second.0.block_header.num_txs ≡ length (txs_at chain 2))
total_txs_counts_example = total_txs_counts toy toy_canopy 9 3 2 two_validators few made 2 second.1

-- A chain with two accounts and nothing else.
abbrev small : MockChain
small = record chain {
  chain_id = 2;
  accounts =
      record { address = 1 ∷ []; amount = 10 } ∷ record { address = 2 ∷ []; amount = 20 } ∷ [];
}

two_slots :
    (txs : List TxResult) × (generate_closed_form_txs toy toy_canopy 9 small 2 quiet ≡ ok txs)
unfolding generate_closed_form_txs tx_count_at quiet_tx_count sample_poisson poisson_loop
    rng_for_height params_for_profile make_tx pick_address pick_account_index addr_height_seed
    hash_bytes written sprint decimal decimal_from be_uint64 tx_type_mix_at sample_categorical
    pick_label total_weight last_label tx_label build_tx_msg tx_message
two_slots = (_, refl)

generate_closed_form_txs-slots_example :
    (tx_count_at toy 9 2 quiet 2 ≡ ok (length two_slots.0))
    × AllSlots toy toy_canopy small 2 0 two_slots.0
generate_closed_form_txs-slots_example =
    generate_closed_form_txs-slots toy toy_canopy 9 small 2 quiet two_slots.1

-- Slot 11 of height 1 and slot 1 of height 11.
slot_1_11 : (tx : TxResult) × (make_tx toy toy_canopy small quiet 1 11 ≡ ok tx)
unfolding make_tx rng_for_height params_for_profile pick_address pick_account_index addr_height_seed
    hash_bytes written sprint decimal decimal_from be_uint64 tx_type_mix_at sample_categorical
    pick_label total_weight last_label tx_label build_tx_msg tx_message
slot_1_11 = (_, refl)

slot_11_1 : (tx : TxResult) × (make_tx toy toy_canopy small quiet 11 1 ≡ ok tx)
unfolding make_tx rng_for_height params_for_profile pick_address pick_account_index addr_height_seed
    hash_bytes written sprint decimal decimal_from be_uint64 tx_type_mix_at sample_categorical
    pick_label total_weight last_label tx_label build_tx_msg tx_message
slot_11_1 = (_, refl)

tx_hash_collides_example : slot_1_11.0.tx_hash ≡ slot_11_1.0.tx_hash
tx_hash_collides_example =
    tx_hash_collides toy toy_canopy small quiet quiet 1 1 1 (omega arith) (omega arith)
      (omega arith) (omega arith) slot_1_11.1 slot_11_1.1

abbrev staker : Validator
staker = record {
  address = 4 ∷ [];
  public_key = [];
  net_address = [];
  staked_amount = 5;
  committees = 1 ∷ [];
  max_paused_height = 0;
  unstaking_height = 0;
  output = [];
  delegate = false;
  compound = false;
}

snapshot_validator_unstaking_example :
    ((snapshot_validator shifted 1 5000 staker).unstaking_height ≡ 0)
    ↔ (5000 < unstake_height_for shifted (4 ∷ []) 0)
snapshot_validator_unstaking_example =
    snapshot_validator_unstaking shifted 1 5000 staker shifted-IntnInRange

message_type_agrees_example : message_type_for_label toy_canopy "unstake" ≡ "unstake"
unfolding tx_message tx_label
message_type_agrees_example =
    message_type_agrees toy toy_canopy small (1 ∷ []) (2 ∷ []) 7 "unstake"
      {msg = TxMsg.unstake (1 ∷ [])} refl
