-- ===== src/Chain/New/States.antt =====
-- The states of a built chain: their accounts and validators, and their supply.
use canopy_rpc_mock.Base.{
  ℕ, ◌≤◌, ◌<◌, ◌^◌, ◌≡◌, refl, sym, ap, ◌∙◌, ◌⊎◌, inl, inr, true, Bool-cases, some, List, [], ◌∷◌,
  arith, ok, pos, length, map, sum64_from, sum64_from_lem, sum64_from-lt, u64_mod,
}
use canopy_rpc_mock.Gen.Runtime.{Runtime, ToU64InRange}
use canopy_rpc_mock.Gen.Ledger.{snapshot_balances_at, total_supply_at, overshoots}
use canopy_rpc_mock.Gen.Ledger.Conservation.{snapshot_balances_at-conserves}
use canopy_rpc_mock.Chain.Types.{Bytes, Account, Supply}
use canopy_rpc_mock.Chain.Canopy.{Canopy}
use canopy_rpc_mock.Chain.MockChain.{MockChain, GenesisState, state_at, supply_of, supply_at}
use canopy_rpc_mock.Chain.Snapshot.Parts.{
  IsSnapshot, snapshot_state_at-IsSnapshot, amounts_of, length-amounts_of, stakes_of,
}
use canopy_rpc_mock.Chain.New.{ChainOption, new_mock_chain, addresses}
use canopy_rpc_mock.Chain.New.Returning.{length-snapshot_balances_at}
use canopy_rpc_mock.Chain.New.Heights.{new_mock_chain_parts}
use canopy_rpc_mock.Chain.New.Served.{states_are_snapshots}

length-addresses :
    (accounts : List Account) → length (map (λ (a : Account). a.address) accounts) ≡ length accounts
length-addresses [] = refl
length-addresses (a ∷ accounts) = omega (arith, length-addresses accounts)

sum64_from-one : (x : ℕ) → x < u64_mod → sum64_from 0 (x ∷ []) ≡ x
sum64_from-one x h =
    omega (arith, sum64_from_lem 0 (x ∷ []), sum64_from-lt 0 (x ∷ []) (omega arith))

-- The balances of at least one address add up to the supply, unless those of the others overshoot it.
balances-supply :
    (rt : Runtime) (addrs : List Bytes) (chain_id height : ℕ)
    → ToU64InRange rt
    → 1 ≤ length addrs
    → (overshoots rt addrs chain_id height ≡ true)
      ⊎ (sum64_from 0 (snapshot_balances_at rt addrs chain_id height)
          ≡ total_supply_at rt chain_id height)
unfolding snapshot_balances_at total_supply_at
balances-supply rt [] chain_id height range some_address = absurd (omega arith)
balances-supply rt (a ∷ []) chain_id height range some_address = inr (sum64_from-one _ (range _))
balances-supply rt (a ∷ b ∷ rest) chain_id height range some_address =
    elim (Bool-cases (overshoots rt (a ∷ b ∷ rest) chain_id height)) [
      | inl over ↦ inl over
      | inr fits ↦ inr (snapshot_balances_at-conserves rt a b rest chain_id height range fits)
    ]

module _ (rt : Runtime) (cn : Canopy) (fuel n chain_id : ℕ) (opts : List ChainOption)
    {mc : MockChain} (bound : n < 2 ^ 63)
    (made : new_mock_chain rt cn fuel (pos n) chain_id opts ≡ ok mc) where
  pub state_at-IsSnapshot :
      (h : ℕ) {s : GenesisState} → state_at mc h ≡ some s → IsSnapshot rt mc (addresses mc) h s
  state_at-IsSnapshot h e =
      snapshot_state_at-IsSnapshot rt mc (addresses mc) h
        (length-snapshot_balances_at rt (addresses mc) mc.chain_id h)
        (states_are_snapshots rt cn fuel n chain_id opts bound made h e)

  -- Every state has the accounts, the validators and the pools of the chain, by their number.
  pub state_at-counts :
      (h : ℕ) {s : GenesisState}
      → state_at mc h ≡ some s
      → (length s.accounts ≡ length mc.accounts)
        × (length s.validators ≡ length mc.validators)
        × (length s.pools ≡ length mc.pools)
  state_at-counts h {s} e =
      let i = state_at-IsSnapshot h e in
      (
        sym (length-amounts_of s.accounts)
            ∙ ap length i.amounts
            ∙ length-snapshot_balances_at rt (addresses mc) mc.chain_id h
            ∙ length-addresses mc.accounts,
        i.validators,
        ap length i.pools,
      )

  -- In a chain that newMockChain returns for fewer than 2 ^ 63 blocks, every height with a state
  -- serves a supply. Its total is, in uint64 arithmetic, what the accounts of the state hold, unless
  -- the floats priced for all accounts but the residual one exceed the supply, and its stake is what
  -- the validators of the state have staked, if uint64(x) is below 2 ^ 64 for every float x.
  pub supply_conserved :
      (h : ℕ) {s : GenesisState}
      → ToU64InRange rt
      → state_at mc h ≡ some s
      → (supply : Supply) × (supply_at mc h ≡ some supply)
        × ((overshoots rt (addresses mc) mc.chain_id h ≡ true)
            ⊎ (sum64_from 0 (amounts_of s.accounts) ≡ supply.total))
        × (sum64_from 0 (stakes_of s.validators) ≡ supply.staked)
  unfolding supply_at
  supply_conserved h {s} range e =
      let i = state_at-IsSnapshot h e in
      let some_address : 1 ≤ length (addresses mc) = omega (
        arith,
        length-addresses mc.accounts,
        (new_mock_chain_parts rt cn fuel n chain_id opts bound made).6,
      ) in
      (
        i.supply,
        ap supply_of e ∙ i.has_supply,
        rw (i.amounts, i.total)
            (balances-supply rt (addresses mc) mc.chain_id h range some_address),
        sym i.staked,
      )
