-- ===== src/Chain/New/Heights.antt =====
-- What a built chain serves: the heights it knows, the links between its blocks, its certificates
-- and its dex batches.
use mathlib.Core.Path.{subst}
use canopy_rpc_mock.Base.{
  ◌∷◌, ℕ, zero, suc, ◌+◌, ◌≤◌, ◌<◌, ◌^◌, ◌≡◌, refl, sym, ap, ◌∙◌, false, some, List, [], arith,
  length, ok, bind-eq-ok, ok-injective, pos,
}
use canopy_rpc_mock.Base.Dict.{lookup, lookup-insert_ne}
use canopy_rpc_mock.Gen.Runtime.{Runtime}
use canopy_rpc_mock.Chain.Types.{Account, DexBatch, Pool}
use canopy_rpc_mock.Chain.Canopy.{Canopy}
use canopy_rpc_mock.Chain.MockChain.{MockChain, GenesisState}
use canopy_rpc_mock.Chain.Blocks.{generate_dex_batch}
use canopy_rpc_mock.Chain.Build.{
  build_validators, build_accounts, build_pools, build_order_books, build_committees,
}
use canopy_rpc_mock.Chain.Governance.{build_proposals}
use canopy_rpc_mock.Chain.Snapshot.{snapshot_state_at}
use canopy_rpc_mock.Chain.New.{
  ChainOption, ChainOptions, fixed_data, lock_batch, put_state, genesis, new_mock_chain, add_block,
  add_blocks, apply_options, no_options, profile_of, addresses, seed_of, validator_count_of,
  account_count_of,
}
use canopy_rpc_mock.Gen.Profile.{Profile}
use canopy_rpc_mock.Chain.New.Step.{Added, add_block-Added}
use canopy_rpc_mock.Chain.New.Fixed.{length-build_validators, length-build_accounts}
use canopy_rpc_mock.Chain.New.Built.{IsBuilt, add_blocks-IsBuilt}

module _ (rt : Runtime) (cn : Canopy) where
  -- The chain before its first block.
  pub record IsFresh (chain_id : ℕ) (cfg : ChainOptions) (mc : MockChain) : Type 0 where
    pub identifier : mc.chain_id ≡ chain_id
    pub no_blocks : mc.blocks ≡ []
    pub no_states : mc.states ≡ []
    pub validators : length mc.validators ≡ validator_count_of cfg
    pub accounts : length mc.accounts ≡ account_count_of cfg mc.validators
    pub some_account : 1 ≤ length mc.accounts
    pub pools : length mc.pools ≡ 3

  -- buildPools reads the first account, and builds three pools.
  build_pools_lem :
      (accounts : List Account) (chain_id : ℕ) (rng : rt.Rng) {r : List Pool × rt.Rng}
      → build_pools rt cn accounts chain_id rng ≡ ok r
      → (1 ≤ length accounts) × (length r.0 ≡ 3)
  unfolding build_pools
  build_pools_lem [] chain_id rng e = cc
  build_pools_lem (a ∷ accounts) chain_id rng e =
      (omega arith, ap (λ (t : List Pool × rt.Rng). length t.0) (sym (ok-injective e)))

  pub fixed_data-IsFresh :
      (chain_id : ℕ) (cfg : ChainOptions) {mc : MockChain}
      → fixed_data rt cn chain_id cfg ≡ ok mc
      → IsFresh chain_id cfg mc
  unfolding fixed_data
  fixed_data-IsFresh chain_id cfg e =
      let (validators, rng1) =
        build_validators rt cn chain_id (validator_count_of cfg) 0
          (rt.new_source (seed_of chain_id cfg)) in
      let (accounts, rng2) =
        build_accounts rt cn validators (account_count_of cfg validators) 0 rng1 in
      let (pools, pooled, e1) = bind-eq-ok (build_pools rt cn accounts chain_id rng2) _ e in
      let (books, _, e2) = bind-eq-ok (build_order_books rt cn validators chain_id) _ e1 in
      let (committees, _, e3) = bind-eq-ok (build_committees validators) _ e2 in
      let (proposals, _, e4) = bind-eq-ok (build_proposals rt cn validators) _ e3 in
      subst (IsFresh chain_id cfg) (ok-injective e4) (record {
        identifier = refl;
        no_blocks = refl;
        no_states = refl;
        validators = length-build_validators rt cn chain_id _ 0 _;
        accounts = length-build_accounts rt cn validators _ 0 rng1;
        some_account = (build_pools_lem accounts chain_id rng2 pooled).0;
        pools = (build_pools_lem accounts chain_id rng2 pooled).1;
      })

  -- The batch that newMockChain locks before its loop.
  abbrev pub first_batch : MockChain → DexBatch
  first_batch mc = generate_dex_batch rt mc 0 false [] [] []

  pub record IsGenesis (chain_id : ℕ) (cfg : ChainOptions) (mc : MockChain) : Type 0 where
    pub identifier : mc.chain_id ≡ chain_id
    pub built : IsBuilt rt cn 0 mc
    pub locked : mc.locked_batch ≡ some (first_batch mc)
    pub state : GenesisState
    pub at_state : lookup 0 mc.states ≡ some state
    pub snapshot : snapshot_state_at rt mc (addresses mc) 0 ≡ ok state
    pub validators : length mc.validators ≡ validator_count_of cfg
    pub accounts : length mc.accounts ≡ account_count_of cfg mc.validators
    pub some_account : 1 ≤ length mc.accounts
    pub pools : length mc.pools ≡ 3

  fresh-IsGenesis :
      (chain_id : ℕ) (cfg : ChainOptions) (mc : MockChain) (s : GenesisState)
      → IsFresh chain_id cfg mc
      → snapshot_state_at rt (lock_batch mc (first_batch mc)) (addresses mc) 0 ≡ ok s
      → IsGenesis chain_id cfg (put_state (lock_batch mc (first_batch mc)) 0 s)
  unfolding snapshot_state_at put_state lock_batch generate_dex_batch
  fresh-IsGenesis chain_id cfg mc s fresh taken = record {
    identifier = fresh.identifier;
    built = record {
      size = rw fresh.no_blocks;
      no_genesis_block = rw fresh.no_blocks;
      no_block_above = λ h above. rw fresh.no_blocks;
      no_state_above = λ h above. rw fresh.no_states (ground arith);
      at = λ h low high. absurd (omega arith);
    };
    locked = refl;
    state = s;
    at_state = rw fresh.no_states;
    snapshot = taken;
    validators = fresh.validators;
    accounts = fresh.accounts;
    some_account = fresh.some_account;
    pools = fresh.pools;
  }

  genesis-IsGenesis :
      (chain_id : ℕ) (cfg : ChainOptions) {mc : MockChain}
      → genesis rt cn chain_id cfg ≡ ok mc
      → IsGenesis chain_id cfg mc
  unfolding genesis lock_batch
  genesis-IsGenesis chain_id cfg e =
      let (fixed, made, e1) = bind-eq-ok (fixed_data rt cn chain_id cfg) _ e in
      let locked = lock_batch fixed (first_batch fixed) in
      let (s, taken, e2) = bind-eq-ok (snapshot_state_at rt locked (addresses locked) 0) _ e1 in
      subst (IsGenesis chain_id cfg) (ok-injective e2)
        (fresh-IsGenesis chain_id cfg fixed s (fixed_data-IsFresh chain_id cfg made) taken)

  -- What no round of the loop changes.
  pub record Keeps (mc mc' : MockChain) : Type 0 where
    pub identifier : mc'.chain_id ≡ mc.chain_id
    pub locked : mc'.locked_batch ≡ mc.locked_batch
    pub validators : mc'.validators ≡ mc.validators
    pub accounts : mc'.accounts ≡ mc.accounts
    pub pools : mc'.pools ≡ mc.pools
    pub at_zero : lookup 0 mc'.states ≡ lookup 0 mc.states
    pub snapshot :
        snapshot_state_at rt mc' (addresses mc') 0 ≡ snapshot_state_at rt mc (addresses mc) 0

  pub Added-Keeps :
      (mc : MockChain) (h : ℕ) {mc' : MockChain} → 1 ≤ h → Added rt cn mc h mc' → Keeps mc mc'
  unfolding snapshot_state_at
  Added-Keeps mc h low a = subst (Keeps mc) (sym a.result) (record {
    identifier = refl;
    locked = refl;
    validators = refl;
    accounts = refl;
    pools = refl;
    at_zero = lookup-insert_ne 0 h a.state mc.states (omega arith);
    snapshot = refl;
  })

  add_blocks-Keeps :
      (fuel : ℕ) (profile : Profile) (m k : ℕ) (mc : MockChain) {mc' : MockChain}
      → 1 ≤ k
      → add_blocks rt cn fuel profile m k mc ≡ ok mc'
      → Keeps mc mc'
  unfolding add_blocks
  add_blocks-Keeps fuel profile zero k mc low h = subst (Keeps mc) (ok-injective h) (record {
    identifier = refl;
    locked = refl;
    validators = refl;
    accounts = refl;
    pools = refl;
    at_zero = refl;
    snapshot = refl;
  })
  add_blocks-Keeps fuel profile (suc m) k mc low h =
      let (mc1, first, rest) = bind-eq-ok (add_block rt cn fuel profile mc k) _ h in
      let a = Added-Keeps mc k low (add_block-Added rt cn fuel profile mc k first) in
      let b = add_blocks-Keeps fuel profile m (k + 1) mc1 (omega arith) rest in
      record {
        identifier = b.identifier ∙ a.identifier;
        locked = b.locked ∙ a.locked;
        validators = b.validators ∙ a.validators;
        accounts = b.accounts ∙ a.accounts;
        pools = b.pools ∙ a.pools;
        at_zero = b.at_zero ∙ a.at_zero;
        snapshot = b.snapshot ∙ a.snapshot;
      }

  first_batch_lem :
      (mc mc' : MockChain) → mc'.chain_id ≡ mc.chain_id → first_batch mc ≡ first_batch mc'
  unfolding generate_dex_batch
  first_batch_lem mc mc' e = rw e

  module _ (fuel n chain_id : ℕ) (opts : List ChainOption) {mc : MockChain} (bound : n < 2 ^ 63)
      (made : new_mock_chain rt cn fuel (pos n) chain_id opts ≡ ok mc) where
    pub new_mock_chain_parts :
        IsBuilt rt cn n mc
        × (mc.chain_id ≡ chain_id)
        × (mc.locked_batch ≡ some (first_batch mc))
        × ((s : GenesisState) × (lookup 0 mc.states ≡ some s)
            × (snapshot_state_at rt mc (addresses mc) 0 ≡ ok s))
        × (length mc.validators ≡ validator_count_of (apply_options opts no_options))
        × (length mc.accounts ≡ account_count_of (apply_options opts no_options) mc.validators)
        × (1 ≤ length mc.accounts)
        × (length mc.pools ≡ 3)
    unfolding new_mock_chain
    new_mock_chain_parts =
        let cfg = apply_options opts no_options in
        let (g, first, rest) = bind-eq-ok (genesis rt cn chain_id cfg) _ made in
        let start = genesis-IsGenesis chain_id cfg first in
        let kept = add_blocks-Keeps fuel (profile_of chain_id cfg) n 1 g (omega arith) rest in
        let zero_rounds : 0 + n ≡ n = omega arith in
        (
          subst (λ j. IsBuilt rt cn j mc) zero_rounds
              (add_blocks-IsBuilt rt cn fuel (profile_of chain_id cfg) n 0 1 g (omega arith)
                (omega arith) start.built rest),
          kept.identifier ∙ start.identifier,
          kept.locked ∙ start.locked ∙ ap some (first_batch_lem g mc kept.identifier),
          (start.state, kept.at_zero ∙ start.at_state, kept.snapshot ∙ start.snapshot),
          ap length kept.validators ∙ start.validators,
          ap length kept.accounts
              ∙ start.accounts
              ∙ sym (ap (account_count_of (apply_options opts no_options)) kept.validators),
          omega (arith, ap length kept.accounts, start.some_account),
          ap length kept.pools ∙ start.pools,
        )
