-- ===== src/Chain/New/Complete.antt =====
-- newMockChain as a whole: it returns a chain for two validators or more, and panics for one.
use mathlib.Core.Path.{subst}
use canopy_rpc_mock.Base.{
  ℕ, zero, suc, ◌+◌, ◌≤◌, ◌≡◌, refl, sym, ◌∙◌, List, [], ◌∷◌, arith, ok, ok-injective, fault,
  index_out_of_range, rounds, length, Returns, bind-Returns, ℤ,
}
use canopy_rpc_mock.Gen.Runtime.{Runtime}
use canopy_rpc_mock.Gen.Profile.{Profile}
use canopy_rpc_mock.Gen.TxGen.{tx_count_at}
use canopy_rpc_mock.Gen.EventGen.{event_count_at}
use canopy_rpc_mock.Chain.Types.{Validator}
use canopy_rpc_mock.Chain.Canopy.{Canopy}
use canopy_rpc_mock.Chain.Build.{
  build_validators, build_accounts, build_pools, build_order_books, build_committees,
}
use canopy_rpc_mock.Chain.Governance.{build_proposals}
use canopy_rpc_mock.Chain.MockChain.{MockChain}
use canopy_rpc_mock.Chain.New.{
  ChainOption, ChainOptions, no_options, apply_options, validator_count_of, account_count_of,
  seed_of, profile_of, fixed_data, genesis, lock_batch, put_state, add_block, add_blocks,
  new_mock_chain,
}
use canopy_rpc_mock.Chain.New.Step.{add_block-Added}
use canopy_rpc_mock.Chain.New.Heights.{Added-Keeps, first_batch, fixed_data-IsFresh}
use canopy_rpc_mock.Chain.New.Fixed.{
  length-build_validators, length-build_accounts, build_pools-Returns, build_order_books-Returns,
  build_committees-Returns, build_proposals-Returns, account_count-pos,
}
use canopy_rpc_mock.Chain.New.Returning.{IsReady, snapshot_state_at-Returns, add_block-Returns}

module _ (rt : Runtime) (cn : Canopy) where
  fixed_data-Returns :
      (chain_id : ℕ) (cfg : ChainOptions)
      → 2 ≤ validator_count_of cfg
      → Returns (fixed_data rt cn chain_id cfg)
  unfolding fixed_data
  fixed_data-Returns chain_id cfg enough =
      let n = validator_count_of cfg in
      let rng = rt.new_source (seed_of chain_id cfg) in
      let built = build_validators rt cn chain_id n 0 rng in
      let vs = built.0 in
      let m = account_count_of cfg vs in
      let funded = build_accounts rt cn vs m 0 built.1 in
      let many : 2 ≤ length vs = omega (arith, length-build_validators rt cn chain_id n 0 rng) in
      let some_accounts : 1 ≤ length funded.0 = omega (
        arith,
        length-build_accounts rt cn vs m 0 built.1,
        account_count-pos rt cn cfg vs (omega arith),
      ) in
      bind-Returns (build_pools rt cn funded.0 chain_id funded.1) _
        (build_pools-Returns rt cn funded.0 chain_id funded.1 some_accounts)
        λ pools e1.
          bind-Returns (build_order_books rt cn vs chain_id) _
            (build_order_books-Returns rt cn vs chain_id many)
            λ books e2.
              bind-Returns (build_committees vs) _ (build_committees-Returns rt cn chain_id n 0 rng)
                λ cs e3.
                  bind-Returns (build_proposals rt cn vs) _ (build_proposals-Returns rt cn vs many)
                    (λ ps e4. (_, refl))

  -- A chain that is ready for its loop.
  abbrev IsStart : ℕ → MockChain → Type 0
  IsStart chain_id mc = (mc.chain_id ≡ chain_id) × IsReady mc

  genesis-IsStart :
      (chain_id : ℕ) (cfg : ChainOptions)
      → 2 ≤ validator_count_of cfg
      → (mc : MockChain) × (genesis rt cn chain_id cfg ≡ ok mc) × IsStart chain_id mc
  unfolding genesis put_state lock_batch
  genesis-IsStart chain_id cfg enough =
      let (mc, e) = fixed_data-Returns chain_id cfg enough in
      let fresh = fixed_data-IsFresh rt cn chain_id cfg e in
      let locked = lock_batch mc (first_batch rt cn mc) in
      let (state, e') = snapshot_state_at-Returns rt cn locked 0 in
      let many : 2 ≤ length mc.validators = omega (arith, fresh.validators) in
      let some_accounts : 1 ≤ length mc.accounts =
        omega (arith, fresh.accounts, account_count-pos rt cn cfg mc.validators (omega arith)) in
      (
        put_state locked 0 state,
        rw (e, e'),
        (fresh.identifier, record { validators = many; accounts = some_accounts }),
      )

  module _ (fuel : ℕ) (profile : Profile) (chain_id : ℕ)
      (txs : (h : ℕ) → Returns (tx_count_at rt fuel chain_id profile h))
      (events : (h : ℕ) → Returns (event_count_at rt fuel chain_id profile h)) where
    add_blocks-Returns :
        (n h : ℕ) (mc : MockChain)
        → 1 ≤ h
        → IsStart chain_id mc
        → Returns (add_blocks rt cn fuel profile n h mc)
    unfolding add_blocks
    add_blocks-Returns zero h mc low start = (mc, refl)
    add_blocks-Returns (suc n) h mc low (same, ready) =
        bind-Returns (add_block rt cn fuel profile mc h) _
          (add_block-Returns rt cn fuel profile mc h ready (rw same (txs h)) (rw same (events h)))
          λ mc' e.
            let kept = Added-Keeps rt cn mc h low (add_block-Added rt cn fuel profile mc h e) in
            add_blocks-Returns n (h + 1) mc' (omega arith) (
              kept.identifier ∙ same,
              record {
                validators = rw kept.validators ready.validators;
                accounts = rw kept.accounts ready.accounts;
              },
            )

  -- For every number of blocks and all options that ask for two validators or more, newMockChain
  -- returns a chain, if the two counts of a height are drawn within the fuel at every height: no
  -- access to a slice is out of range.
  pub new_mock_chain-Returns :
      (fuel chain_id : ℕ) (num_blocks : ℤ) (opts : List ChainOption)
      → 2 ≤ validator_count_of (apply_options opts no_options)
      → ((h : ℕ)
          → Returns (
              tx_count_at rt fuel chain_id (profile_of chain_id (apply_options opts no_options)) h))
      → ((h : ℕ)
          → Returns (
              event_count_at rt fuel chain_id
                (profile_of chain_id (apply_options opts no_options))
                h))
      → Returns (new_mock_chain rt cn fuel num_blocks chain_id opts)
  unfolding new_mock_chain
  new_mock_chain-Returns fuel chain_id num_blocks opts enough txs events =
      let cfg = apply_options opts no_options in
      let (mc, e, start) = genesis-IsStart chain_id cfg enough in
      bind-Returns (genesis rt cn chain_id cfg) _ (mc, e)
        λ mc' e'.
          let same : mc ≡ mc' = ok-injective (sym e ∙ e') in
          add_blocks-Returns fuel (profile_of chain_id cfg) chain_id txs events (rounds num_blocks)
            1 mc' (omega arith) (subst (IsStart chain_id) same start)

  build_order_books-panics :
      (vs : List Validator) (chain_id : ℕ)
      → length vs ≡ 1
      → build_order_books rt cn vs chain_id ≡ fault index_out_of_range
  unfolding build_order_books
  build_order_books-panics [] chain_id h = absurd (omega (arith, h))
  build_order_books-panics (v ∷ []) chain_id h = refl
  build_order_books-panics (v ∷ w ∷ vs) chain_id h = absurd (omega (arith, h))

  fixed_data-panics :
      (chain_id : ℕ) (cfg : ChainOptions)
      → validator_count_of cfg ≡ 1
      → fixed_data rt cn chain_id cfg ≡ fault index_out_of_range
  unfolding fixed_data
  fixed_data-panics chain_id cfg single =
      let n = validator_count_of cfg in
      let rng = rt.new_source (seed_of chain_id cfg) in
      let built = build_validators rt cn chain_id n 0 rng in
      let vs = built.0 in
      let m = account_count_of cfg vs in
      let funded = build_accounts rt cn vs m 0 built.1 in
      let one : length vs ≡ 1 = length-build_validators rt cn chain_id n 0 rng ∙ single in
      let some_accounts : 1 ≤ length funded.0 = omega (
        arith,
        length-build_accounts rt cn vs m 0 built.1,
        account_count-pos rt cn cfg vs (omega arith),
      ) in
      let (pools, e) = build_pools-Returns rt cn funded.0 chain_id funded.1 some_accounts in
      rw (e, build_order_books-panics vs chain_id one)

  -- Asked for exactly one validator, newMockChain panics with an index out of range, whatever the
  -- other options: buildOrderBooks reads a second validator.
  pub single_validator_panics :
      (fuel chain_id : ℕ) (num_blocks : ℤ) (opts : List ChainOption)
      → validator_count_of (apply_options opts no_options) ≡ 1
      → new_mock_chain rt cn fuel num_blocks chain_id opts ≡ fault index_out_of_range
  unfolding new_mock_chain genesis
  single_validator_panics fuel chain_id num_blocks opts single =
      rw (fixed_data-panics chain_id (apply_options opts no_options) single)
