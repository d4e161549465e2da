-- ===== src/Chain/New/Fixed.antt =====
-- The fixed data of a chain: how many validators and accounts it has, and that building it panics
-- nowhere for two validators or more.
use canopy_rpc_mock.Base.{
  ℕ, zero, suc, ◌+◌, ◌≤◌, ◌≡◌, refl, ap, List, [], arith, length, Returns, index, index-Returns,
  bind-Returns,
}
use canopy_rpc_mock.Gen.Runtime.{Runtime}
use canopy_rpc_mock.Chain.Types.{Account, Validator}
use canopy_rpc_mock.Chain.Canopy.{Canopy}
use canopy_rpc_mock.Chain.Build.{
  build_validators, build_validator, build_accounts, build_pools, build_order_books,
  build_committees,
}
use canopy_rpc_mock.Chain.Governance.{build_proposals}
use canopy_rpc_mock.Chain.New.{ChainOptions, account_count_of}

module _ (rt : Runtime) (cn : Canopy) where
  open rt use {Rng}

  pub length-build_validators :
      (chain_id n i : ℕ) (rng : Rng) → length (build_validators rt cn chain_id n i rng).0 ≡ n
  unfolding build_validators
  length-build_validators chain_id zero i rng = refl
  length-build_validators chain_id (suc n) i rng =
      ap suc (length-build_validators chain_id n (i + 1) (build_validator rt cn chain_id i rng).1)

  pub length-build_accounts :
      (vs : List Validator) (n i : ℕ) (rng : Rng) → length (build_accounts rt cn vs n i rng).0 ≡ n
  unfolding build_accounts
  length-build_accounts vs zero i rng = refl
  length-build_accounts vs (suc n) i rng =
      ap suc (length-build_accounts vs n (i + 1) (rt.intn 50_000 rng).1)

  -- Every validator is built with its chain as its one committee.
  pub build_committees-Returns :
      (chain_id n i : ℕ) (rng : Rng)
      → Returns (build_committees (build_validators rt cn chain_id n i rng).0)
  unfolding build_validators build_committees build_validator
  build_committees-Returns chain_id zero i rng = ([], refl)
  build_committees-Returns chain_id (suc zero) i rng = ([], refl)
  build_committees-Returns chain_id (suc (suc n)) i rng = (_, refl)

  pub build_pools-Returns :
      (accounts : List Account) (chain_id : ℕ) (rng : Rng)
      → 1 ≤ length accounts
      → Returns (build_pools rt cn accounts chain_id rng)
  unfolding build_pools
  build_pools-Returns accounts chain_id rng h =
      bind-Returns (index accounts 0) _ (index-Returns accounts 0 h) (λ a e. (_, refl))

  pub build_order_books-Returns :
      (vs : List Validator) (chain_id : ℕ)
      → 2 ≤ length vs
      → Returns (build_order_books rt cn vs chain_id)
  unfolding build_order_books
  build_order_books-Returns vs chain_id h =
      bind-Returns (index vs 0) _ (index-Returns vs 0 (omega arith))
        λ v e. bind-Returns (index vs 1) _ (index-Returns vs 1 (omega arith)) (λ w e'. (_, refl))

  pub build_proposals-Returns :
      (vs : List Validator) → 2 ≤ length vs → Returns (build_proposals rt cn vs)
  unfolding build_proposals
  build_proposals-Returns vs h =
      bind-Returns (index vs 0) _ (index-Returns vs 0 (omega arith))
        λ v e. bind-Returns (index vs 1) _ (index-Returns vs 1 (omega arith)) (λ w e'. (_, refl))

  pub account_count-pos :
      (cfg : ChainOptions) (vs : List Validator) → 1 ≤ length vs → 1 ≤ account_count_of cfg vs
  account_count-pos cfg vs h = ground arith
