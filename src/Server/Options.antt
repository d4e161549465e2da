-- ===== src/Server/Options.antt =====
-- How the options of a server reach its chain.
use canopy_rpc_mock.Base.{
  ℕ, rounds, ◌≡◌, refl, ap, ◌∙◌, sym, Bool, true, false, Option, none, some, List, [], ◌∷◌, ◌++◌,
  Result, ◌>>=◌, ℤ, pos, is_positive, if◌then◌else◌,
}
use canopy_rpc_mock.Gen.Runtime.{Runtime}
use canopy_rpc_mock.Gen.Profile.{Profile}
use canopy_rpc_mock.Chain.Canopy.{Canopy}
use canopy_rpc_mock.Chain.MockChain.{MockChain}
use canopy_rpc_mock.Chain.New.{
  ChainOption, ChainOptions, apply_options, no_options, fixed_data, genesis, new_mock_chain,
  add_blocks, profile_of, with_profile, with_seed, with_validator_count, with_account_count,
}
use canopy_rpc_mock.Server.{ServerConfig, chain_opts, when_given, when}

-- A chain option that sets all that a server's configuration says.
abbrev pub all_of : ServerConfig → ChainOption
all_of cfg o = record {
  profile = cfg.profile;
  seed = cfg.seed;
  validator_count = cfg.validator_count;
  account_count = cfg.account_count;
}

-- The configuration that the chain gets.
abbrev passed : Option Profile → Option ℤ → Bool → ℤ → Bool → ℤ → ChainOptions
passed p s counts_v v counts_a a = record {
  profile = p;
  seed = s;
  validator_count = if counts_v then v else pos 0;
  account_count = if counts_a then a else pos 0;
}

apply_options-passed :
    (p : Option Profile) (s : Option ℤ) (counts_v : Bool) (v : ℤ) (counts_a : Bool) (a : ℤ)
    → apply_options
        (when_given with_profile p
          ++ (when_given with_seed s
              ++ (when counts_v (with_validator_count v) ++ when counts_a (with_account_count a))))
        no_options
      ≡ passed p s counts_v v counts_a a
apply_options-passed none none false v false a = refl
apply_options-passed none none false v true a = refl
apply_options-passed none none true v false a = refl
apply_options-passed none none true v true a = refl
apply_options-passed none (some s) false v false a = refl
apply_options-passed none (some s) false v true a = refl
apply_options-passed none (some s) true v false a = refl
apply_options-passed none (some s) true v true a = refl
apply_options-passed (some p) none false v false a = refl
apply_options-passed (some p) none false v true a = refl
apply_options-passed (some p) none true v false a = refl
apply_options-passed (some p) none true v true a = refl
apply_options-passed (some p) (some s) false v false a = refl
apply_options-passed (some p) (some s) false v true a = refl
apply_options-passed (some p) (some s) true v false a = refl
apply_options-passed (some p) (some s) true v true a = refl

module _ (rt : Runtime) (cn : Canopy) (fuel : ℕ) (num_blocks : ℤ) (chain_id : ℕ) where
  -- newMockChain once its options are applied
  chain_of : ChainOptions → Result MockChain
  chain_of cfg = do
    mc ← genesis rt cn chain_id cfg
    add_blocks rt cn fuel (profile_of chain_id cfg) (rounds num_blocks) 1 mc

  new_mock_chain_lem :
      (opts : List ChainOption)
      → new_mock_chain rt cn fuel num_blocks chain_id opts
        ≡ chain_of (apply_options opts no_options)
  unfolding new_mock_chain chain_of
  new_mock_chain_lem opts = refl

  -- A count that is not positive is a count of none.
  chain_of-passed :
      (p : Option Profile) (s : Option ℤ) (v a : ℤ) (counts_v counts_a : Bool)
      → is_positive v ≡ counts_v
      → is_positive a ≡ counts_a
      → chain_of (passed p s counts_v v counts_a a)
        ≡ chain_of (record { profile = p; seed = s; validator_count = v; account_count = a })
  unfolding chain_of genesis fixed_data
  chain_of-passed p s v a true true ev ea = refl
  chain_of-passed p s v a true false ev ea = rw ea
  chain_of-passed p s v a false true ev ea = rw ev
  chain_of-passed p s v a false false ev ea = rw (ev, ea)

  -- The chain options that New passes on make the chain that one option makes which sets the
  -- profile, the seed and both counts to what the server's configuration has: the guards of New drop
  -- nothing that newMockChain would read.
  pub chain_opts-all_of :
      (cfg : ServerConfig)
      → new_mock_chain rt cn fuel num_blocks chain_id (chain_opts cfg)
        ≡ new_mock_chain rt cn fuel num_blocks chain_id (all_of cfg ∷ [])
  unfolding chain_opts
  chain_opts-all_of cfg =
      new_mock_chain_lem (chain_opts cfg)
      ∙ ap chain_of (
          apply_options-passed cfg.profile cfg.seed (is_positive cfg.validator_count)
            cfg.validator_count (is_positive cfg.account_count) cfg.account_count)
      ∙ chain_of-passed cfg.profile cfg.seed cfg.validator_count cfg.account_count _ _ refl refl
      ∙ sym (new_mock_chain_lem (all_of cfg ∷ []))
