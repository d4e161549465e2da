-- ===== src/Gen/Ledger/Conservation.antt =====
-- The balances of a snapshot against the total supply.
use canopy_rpc_mock.Base.{
  ℕ, ◌-◌, ◌%◌, ◌≤◌, ◌<◌, ◌≡◌, false, List, ◌∷◌, arith, sub64, u64_mod, set, sum, length, get_elem?,
  some, sum64_from, sum64_from_lem, sum64_from-lt, get_elem?-set_self,
}
use canopy_rpc_mock.Gen.Runtime.{Runtime, ToU64InRange}
use canopy_rpc_mock.Gen.Ledger.{
  residual_index, raws_from, priced_from, priced_sum_from, exchange_rate, overshoots, snapshot_many,
  snapshot_balances_at, total_supply_at,
}
use canopy_rpc_mock.Gen.Ledger.Pricing.{
  residual_index-lt, length-raws_from, length-priced_from, priced_from-residual,
  priced_sum_from_lem, priced_sum_from-lt, sum-set,
}

-- Filling a zero slot with what is left of the total makes the list add up to the total.
fill_conserves :
    (out : List ℕ) (k spent total : ℕ)
    → get_elem? out k ≡ some 0
    → spent % u64_mod ≡ sum out % u64_mod
    → spent < u64_mod
    → total < u64_mod
    → sum64_from 0 (set out k (sub64 total spent)) ≡ total
fill_conserves out k spent total slot added hs ht = omega (
  arith,
  sum64_from_lem 0 (set out k (sub64 total spent)),
  sum64_from-lt 0 (set out k (sub64 total spent)) (omega arith),
  sum-set out k (sub64 total spent) 0 slot,
)

module _ (rt : Runtime) where
  open rt use {F, lit, lt, mul, div, of_u64}

  module _ (a b : List ℕ) (rest : List (List ℕ)) (chain_id height : ℕ) where
    abbrev pub addrs : List (List ℕ)
    addrs = a ∷ b ∷ rest

    abbrev pub residual : ℕ
    residual = residual_index rt addrs

    -- raws of the source
    abbrev pub raws : List F
    raws = raws_from rt 0 residual (exchange_rate rt addrs chain_id) height addrs

    -- The balances priced at the fixed rate, with a zero for the residual.
    abbrev pub priced : List ℕ
    priced = priced_from rt 0 residual (λ r. r) raws

    residual-lt : residual < length priced
    residual-lt = omega (
      arith,
      residual_index-lt rt a (b ∷ rest),
      length-priced_from rt 0 residual (λ r. r) raws,
      length-raws_from rt 0 residual (exchange_rate rt addrs chain_id) height addrs,
    )

    priced-residual : get_elem? priced residual ≡ some 0
    priced-residual =
        priced_from-residual rt 0 residual residual (λ r. r) raws (omega arith)
          (omega (arith, residual-lt, length-priced_from rt 0 residual (λ r. r) raws))

    -- The balances that are added up before the residual gets the rest.
    abbrev pub spent : ℕ
    spent = priced_sum_from rt 0 residual 0 priced

    spent_lem : spent % u64_mod ≡ sum priced % u64_mod
    spent_lem = omega (arith, priced_sum_from_lem rt 0 residual 0 (λ r. r) raws)

    pub snapshot_fits :
        overshoots rt addrs chain_id height ≡ false
        → snapshot_balances_at rt addrs chain_id height
          ≡ set priced residual (sub64 (total_supply_at rt chain_id height) spent)
    unfolding snapshot_balances_at snapshot_many
    snapshot_fits fits = rw fits

    -- For two addresses or more, where the floats priced for the others do not exceed the supply,
    -- the balances add up to the total supply in uint64 arithmetic, if uint64(x) is below 2 ^ 64
    -- for every float x.
    pub snapshot_balances_at-conserves :
        ToU64InRange rt
        → overshoots rt addrs chain_id height ≡ false
        → sum64_from 0 (snapshot_balances_at rt addrs chain_id height)
          ≡ total_supply_at rt chain_id height
    unfolding total_supply_at
    snapshot_balances_at-conserves range fits = rw (snapshot_fits fits) (
        fill_conserves priced residual spent (total_supply_at rt chain_id height) priced-residual
          spent_lem (priced_sum_from-lt rt 0 residual 0 priced (omega arith)) (range _))

    -- For two addresses or more, where the floats priced for the others do not exceed the supply
    -- and neither do the whole numbers they are cut to, the balances add up to the total supply as
    -- natural numbers and the residual holds what the others leave, if uint64(x) is below 2 ^ 64
    -- for every float x.
    pub snapshot_balances_at-exact :
        ToU64InRange rt
        → overshoots rt addrs chain_id height ≡ false
        → sum priced ≤ total_supply_at rt chain_id height
        → (sum (snapshot_balances_at rt addrs chain_id height) ≡ total_supply_at rt chain_id height)
          × (get_elem? (snapshot_balances_at rt addrs chain_id height) residual
              ≡ some (total_supply_at rt chain_id height - sum priced))
    unfolding total_supply_at
    snapshot_balances_at-exact range fits within =
        let total = total_supply_at rt chain_id height in
        let bound : total < u64_mod = range _ in
        let lt : spent < u64_mod = priced_sum_from-lt rt 0 residual 0 priced (omega arith) in
        let same : spent ≡ sum priced = omega (arith, spent_lem) in
        let left : sub64 total spent ≡ total - sum priced = omega arith in
        rw (snapshot_fits fits, left)
          (
            omega (arith, sum-set priced residual (total - sum priced) 0 priced-residual),
            get_elem?-set_self priced residual (total - sum priced) residual-lt,
          )
