-- ===== src/Gen/Ledger.antt =====
-- gen/ledger.go: balances and stakes as closed-form functions of the address and the height.
pub mod Pricing
pub mod Conservation
pub mod Locality
use canopy_rpc_mock.Base.{
  ℕ, zero, suc, ◌+◌, ◌%◌, Bool, true, false, List, [], ◌∷◌, ◌++◌, ◌==◌, ltb, if◌then◌else◌, ◌&&◌,
  Result, ok, fault, index_out_of_range, add64, sub64, set,
}
use canopy_rpc_mock.Gen.Runtime.{Runtime}
use canopy_rpc_mock.Gen.Hash.{rng_for_addr_height}
use canopy_rpc_mock.Gen.Distributions.{standard_normal, fit_log_normal, sample_log_normal}

-- string(a) == string(addr)
abbrev pub bytes_eq : List ℕ → List ℕ → Bool
bytes_eq [] [] = true
bytes_eq [] (c ∷ cs) = false
bytes_eq (b ∷ bs) [] = false
bytes_eq (b ∷ bs) (c ∷ cs) = b == c && bytes_eq bs cs

module _ (rt : Runtime) where
  open rt use {F, lit, add, mul, div, lt, eq, exp, float64, of_u64, to_u64}

  -- (balanceMu, balanceSigma)
  abbrev pub balance_fit : F × F
  balance_fit = fit_log_normal rt (lit 20_000_000 0) (lit 87_900_000 0) (lit 398_000_000 0)

  unfoldable pub base_value : List ℕ → F
  base_value addr =
      (sample_log_normal rt (rng_for_addr_height rt addr 0) balance_fit.0 balance_fit.1).0

  unfoldable pub addr_active_at_height : List ℕ → ℕ → Bool
  addr_active_at_height addr height = lt (float64 (rng_for_addr_height rt addr height)).0 (lit 2 2)

  unfoldable pub raw_value : List ℕ → ℕ → F
  raw_value addr height =
      if addr_active_at_height addr height
      then mul (base_value addr)
          (exp (mul (lit 15 2) (standard_normal rt (rng_for_addr_height rt addr height)).0))
      else base_value addr

  unfoldable pub total_supply_at : ℕ → ℕ → ℕ
  total_supply_at chain_id height =
      let scale = if chain_id == 1 then lit 1 0 else lit 5 2 in
      to_u64 (mul (mul (lit 1_400_000_000 0) scale) (add (lit 1 0) (mul (lit 5 7) (of_u64 height))))

  unfoldable pub base_sum : F → List (List ℕ) → F
  base_sum acc [] = acc
  base_sum acc (a ∷ addrs) = base_sum (add acc (base_value a)) addrs

  unfoldable pub exchange_rate : List (List ℕ) → ℕ → F
  exchange_rate addrs chain_id =
      let s = base_sum (lit 0 0) addrs in
      if eq s (lit 0 0) then lit 0 0 else div (of_u64 (total_supply_at chain_id 0)) s

  -- the loop of residualIndex, at index i
  unfoldable pub residual_from : ℕ → ℕ → F → List (List ℕ) → ℕ
  residual_from i best best_val [] = best
  residual_from i best best_val (a ∷ addrs) =
      let better = lt best_val (base_value a) in
      residual_from (i + 1) (if better then i else best) (if better then base_value a else best_val)
        addrs

  unfoldable pub residual_index : List (List ℕ) → ℕ
  residual_index addrs = residual_from 0 0 (rt.neg (lit 1 0)) addrs

  -- raws, from index i; the residual slot keeps its zero
  unfoldable pub raws_from : ℕ → ℕ → F → ℕ → List (List ℕ) → List F
  raws_from i residual rate height [] = []
  raws_from i residual rate height (a ∷ addrs) =
      (if i == residual then lit 0 0 else mul (raw_value a height) rate)
      ∷ raws_from (i + 1) residual rate height addrs

  -- sumOthers, from index i
  unfoldable pub sum_others_from : ℕ → ℕ → F → List F → F
  sum_others_from i residual acc [] = acc
  sum_others_from i residual acc (r ∷ raws) =
      sum_others_from (i + 1) residual (if i == residual then acc else add acc r) raws

  -- out[i] = uint64(price(raws[i])) for every i but the residual's, where out keeps its zero
  unfoldable pub priced_from : ℕ → ℕ → (F → F) → List F → List ℕ
  priced_from i residual price [] = []
  priced_from i residual price (r ∷ raws) =
      (if i == residual then 0 else to_u64 (price r)) ∷ priced_from (i + 1) residual price raws

  -- the sum of out but for the residual, from index i
  unfoldable pub priced_sum_from : ℕ → ℕ → ℕ → List ℕ → ℕ
  priced_sum_from i residual acc [] = acc
  priced_sum_from i residual acc (v ∷ out) =
      priced_sum_from (i + 1) residual (if i == residual then acc else add64 acc v) out

  -- sumOthers > total: the test for the proportional fallback
  unfoldable pub overshoots : List (List ℕ) → ℕ → ℕ → Bool
  overshoots addrs chain_id height =
      let residual = residual_index addrs in
      lt (of_u64 (total_supply_at chain_id height)) (
        sum_others_from 0 residual (lit 0 0)
          (raws_from 0 residual (exchange_rate addrs chain_id) height addrs))

  -- SnapshotBalancesAt for two addresses or more
  unfoldable pub snapshot_many : List (List ℕ) → ℕ → ℕ → List ℕ
  unfolding overshoots
  snapshot_many addrs chain_id height =
      let residual = residual_index addrs in
      let raws = raws_from 0 residual (exchange_rate addrs chain_id) height addrs in
      let total = of_u64 (total_supply_at chain_id height) in
      let scale = div total (sum_others_from 0 residual (lit 0 0) raws) in
      let out = priced_from 0 residual (λ r. r) raws in
      if overshoots addrs chain_id height
      then priced_from 0 residual (λ r. mul r scale) raws
      else set out residual
          (sub64 (total_supply_at chain_id height) (priced_sum_from 0 residual 0 out))

  unfoldable pub snapshot_balances_at : List (List ℕ) → ℕ → ℕ → List ℕ
  snapshot_balances_at [] chain_id height = []
  snapshot_balances_at (a ∷ []) chain_id height = total_supply_at chain_id height ∷ []
  snapshot_balances_at (a ∷ b ∷ addrs) chain_id height =
      snapshot_many (a ∷ b ∷ addrs) chain_id height

  -- balances[i] for the first i with addrs[i] == addr
  unfoldable pub find_balance : List ℕ → List (List ℕ) → List ℕ → Result ℕ
  find_balance addr [] balances = ok 0
  find_balance addr (a ∷ addrs) [] =
      let rest = find_balance addr addrs [] in
      if bytes_eq a addr then fault index_out_of_range else rest
  find_balance addr (a ∷ addrs) (v ∷ balances) =
      let rest = find_balance addr addrs balances in if bytes_eq a addr then ok v else rest

  unfoldable pub balance_at : List ℕ → List (List ℕ) → ℕ → ℕ → Result ℕ
  balance_at addr addrs chain_id height =
      find_balance addr addrs (snapshot_balances_at addrs chain_id height)

  -- (stakeMu, stakeSigma)
  abbrev pub stake_fit : F × F
  stake_fit = fit_log_normal rt (lit 500_000 0) (lit 931_000 0) (lit 9_310_000 0)

  unfoldable pub stake_at : List ℕ → ℕ → ℕ → ℕ
  stake_at addr chain_id height =
      let rng = rng_for_addr_height rt (addr ++ (chain_id % 256) ∷ []) height in
      let base = (sample_log_normal rt (rng_for_addr_height rt addr 0) stake_fit.0 stake_fit.1).0 in
      to_u64 (mul base (exp (mul (lit 1 1) (standard_normal rt rng).0)))
