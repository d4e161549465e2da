-- ===== src/Chain/MockState/Supply.antt =====
-- The supply of a snapshot against what the snapshot lists, and the order of its pools.
use canopy_rpc_mock.Base.{
  ℕ, ◌+◌, ◌%◌, ◌≤◌, ◌≡◌, refl, ap, ◌∙◌, Bool, Bool-cases, inl, inr, some, List, [], ◌∷◌, map, sum,
  arith, ltb, sum64_from, sum64_from_lem, sum64_from-lt, u64_mod,
}
use mathlib.Core.List.{map-map}
use canopy_rpc_mock.Chain.Types.{Bytes, Account, Validator, Pool, Supply}
use canopy_rpc_mock.Chain.Canopy.{Canopy}
use canopy_rpc_mock.Chain.Snapshot.Parts.{amounts_of, stakes_of}
use canopy_rpc_mock.Chain.MockState.{MockState, place, sort, hex_lt}
use canopy_rpc_mock.Chain.MockState.Snapshot.{
  account_entries, validator_entries, pool_entries, compute_supply, snapshot,
}

-- Sorting changes no sum.
module _ {ℓ} {V : Type ℓ} (less : V → V → Bool) (f : V → ℕ) where
  sum-place : (x : V) (xs : List V) → sum (map f (place less x xs)) ≡ f x + sum (map f xs)
  sum-place x [] = refl
  sum-place x (y ∷ ys) = elim (Bool-cases (less x y)) [
    | inl before ↦ rw before
    | inr after ↦ rw after (omega (arith, sum-place x ys))
  ]

  sum-sort : (xs : List V) → sum (map f (sort less xs)) ≡ sum (map f xs)
  sum-sort [] = refl
  sum-sort (x ∷ xs) = omega (arith, sum-place x (sort less xs), sum-sort xs)

abbrev pub HeadAtLeast : ℕ → List ℕ → Type 0
HeadAtLeast a [] = Unit {0}
HeadAtLeast a (b ∷ bs) = a ≤ b

abbrev pub IsAscending : List ℕ → Type 0
IsAscending [] = Unit {0}
IsAscending (a ∷ bs) = HeadAtLeast a bs × IsAscending bs

-- Sorting by a number puts the numbers in order.
module _ {ℓ} {V : Type ℓ} (key : V → ℕ) where
  abbrev by_key : V → V → Bool
  by_key x y = ltb (key x) (key y)

  place-HeadAtLeast :
      (a : ℕ) (x : V) (xs : List V)
      → a ≤ key x
      → HeadAtLeast a (map key xs)
      → HeadAtLeast a (map key (place by_key x xs))
  place-HeadAtLeast a x [] low h = low
  place-HeadAtLeast a x (y ∷ ys) low h = elim (Bool-cases (by_key x y)) [
    | inl before ↦ rw before low
    | inr after ↦ rw after h
  ]

  place-IsAscending :
      (x : V) (xs : List V) → IsAscending (map key xs) → IsAscending (map key (place by_key x xs))
  place-IsAscending x [] h = (tt, tt)
  place-IsAscending x (y ∷ ys) h = elim (Bool-cases (by_key x y)) [
    | inl before ↦ let below : key x ≤ key y = ground (arith, before) in rw before (below, h)
    | inr after ↦
        let below : key y ≤ key x = ground (arith, after) in
        rw after (place-HeadAtLeast (key y) x ys below h.0, place-IsAscending x ys h.1)
  ]

  sort-IsAscending : (xs : List V) → IsAscending (map key (sort by_key xs))
  sort-IsAscending [] = tt
  sort-IsAscending (x ∷ xs) = place-IsAscending x (sort by_key xs) (sort-IsAscending xs)

abbrev pub pool_amounts : List Pool → List ℕ
pool_amounts pools = map (λ (p : Pool). p.amount) pools

amounts_of-account_entries :
    (s : MockState) → amounts_of (account_entries s) ≡ map (λ (p : Bytes × ℕ). p.1) s.accounts
unfolding account_entries
amounts_of-account_entries s = map-map _ _ s.accounts

module _ (cn : Canopy) (s : MockState) where
  -- What the snapshot lists, before it is sorted.
  held : ℕ
  held = sum (map (λ (p : Bytes × ℕ). p.1) s.accounts)

  pooled : ℕ
  pooled = sum (pool_amounts (pool_entries cn s))

  staked : ℕ
  staked = sum (stakes_of (validator_entries s))

  held_lem : sum (amounts_of (snapshot cn s).accounts) ≡ held
  unfolding snapshot held
  held_lem =
      sum-sort (λ (a b : Account). hex_lt a.address b.address) (λ (a : Account). a.amount)
        (account_entries s)
      ∙ ap sum (amounts_of-account_entries s)

  pooled_lem : sum (pool_amounts (snapshot cn s).pools) ≡ pooled
  unfolding snapshot pooled
  pooled_lem = sum-sort (λ (p q : Pool). ltb p.id q.id) (λ (p : Pool). p.amount) (pool_entries cn s)

  staked_lem : sum (stakes_of (snapshot cn s).validators) ≡ staked
  unfolding snapshot staked
  staked_lem =
      sum-sort (λ (v w : Validator). hex_lt v.address w.address)
        (λ (v : Validator). v.staked_amount) (validator_entries s)

  compute_supply_lem :
      let supply = compute_supply s (validator_entries s) (pool_entries cn s) in
      (supply.total ≡ (held + pooled + staked) % u64_mod) × (supply.staked ≡ staked % u64_mod)
  unfolding compute_supply held pooled staked
  compute_supply_lem =
      let balances = map (λ (p : Bytes × ℕ). p.1) s.accounts in
      let pools = pool_amounts (pool_entries cn s) in
      let stakes = stakes_of (validator_entries s) in
      let part = sum64_from 0 balances in
      (
        omega
            (arith, sum64_from_lem 0 balances, sum64_from_lem part pools, sum64_from_lem 0 stakes),
        omega (arith, sum64_from_lem 0 stakes, sum64_from-lt 0 stakes (omega arith)),
      )

  -- The supply of the snapshot: the slice of its pools is the sorted one.
  abbrev served : Supply
  served = record (compute_supply s (validator_entries s) (pool_entries cn s)) {
    committee_staked = (snapshot cn s).pools;
    committee_delegated_only = (snapshot cn s).pools;
  }

  served_lem : (snapshot cn s).supply ≡ some served
  unfolding snapshot
  served_lem = refl

  pools-IsAscending : IsAscending (map (λ (p : Pool). p.id) (snapshot cn s).pools)
  unfolding snapshot
  pools-IsAscending = sort-IsAscending (λ (p : Pool). p.id) (pool_entries cn s)

  -- The supply of a snapshot is made of what the snapshot lists, in whatever order its maps are read:
  -- modulo 2 ^ 64, the total is what the listed accounts, pools and validators have together, and the
  -- stake what the validators have. The pools stand in the order of their identifiers, and are the
  -- committees' stakes of the supply.
  pub snapshot-supply :
      let g = snapshot cn s in
      (supply : Supply) × (g.supply ≡ some supply)
      × (supply.total
          ≡ (sum (amounts_of g.accounts)
              + sum (pool_amounts g.pools)
              + sum (stakes_of g.validators))
            % u64_mod)
      × (supply.staked ≡ sum (stakes_of g.validators) % u64_mod)
      × (supply.committee_staked ≡ g.pools)
      × IsAscending (map (λ (p : Pool). p.id) g.pools)
  snapshot-supply =
      let (total, stake) = compute_supply_lem in
      rw (held_lem, pooled_lem, staked_lem)
        (served, served_lem, total, stake, refl, pools-IsAscending)
