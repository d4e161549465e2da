-- ===== src/Chain/MockState/Withdrawals.antt =====
-- What withdrawals leave in the pools.
use canopy_rpc_mock.Base.{
  ℕ, suc, ◌-◌, ◌≤◌, ◌<◌, ◌≡◌, refl, sym, ap, ◌∙◌, some, List, [], ◌∷◌, map, arith, ltb, ◌==◌,
  if◌then◌else◌, length, add64, sub64, sum64_from, sum64_from-nil, sum64_from-cons, u64_mod, Bool,
  true, false,
}
use canopy_rpc_mock.Base.Dict.{lookup, insert, lookup-insert}
use canopy_rpc_mock.Chain.Types.{Bytes, Pool, DexLiquidityWithdraw}
use canopy_rpc_mock.Chain.Canopy.{Canopy}
use canopy_rpc_mock.Chain.MockState.{MockState, Texts, lookup_text, insert_text}
use canopy_rpc_mock.Chain.MockState.Batch.{
  DexWithdrawalResult, liquidity_id, points_of, points_by_address, burn_of, withdraw_all,
  burn_points, pay_out, withdraw_from, withdraw_found, apply_batch_withdrawals,
}

-- pool.RemovePoints leaves the amount and the identifier of the pool as they are.
pub record KeepsAmount (cn : Canopy) : Type 0 where
  pub amount : (p : Pool) (addr : Bytes) (n : ℕ) → (cn.remove_points p addr n).amount ≡ p.amount

abbrev pub paid_out : List DexWithdrawalResult → List ℕ
paid_out results = map (λ (r : DexWithdrawalResult). r.local_amount) results

either-amount :
    (b : Bool) (p q : Pool) → q.amount ≡ p.amount → (if b then p else q).amount ≡ p.amount
either-amount true p q e = refl
either-amount false p q e = e

module _ (cn : Canopy) where
  withdraw_all_lem :
      (amount points : ℕ) (ws : List DexLiquidityWithdraw) (held : Texts ℕ) (total : ℕ)
      → (length (withdraw_all cn amount points ws held total).0 ≡ length ws)
        × ((withdraw_all cn amount points ws held total).1
            ≡ sum64_from total (paid_out (withdraw_all cn amount points ws held total).0))
  unfolding withdraw_all
  withdraw_all_lem amount points [] held total = (refl, sym (sum64_from-nil total))
  withdraw_all_lem amount points (w ∷ ws) held total =
      let p = points_of (lookup_text w.address held) in
      let burn = burn_of cn p w in
      let paid = cn.safe_mul_div amount burn points in
      let held' = if ltb 0 burn then insert_text w.address (sub64 p burn) held else held in
      let (len, sums) = withdraw_all_lem amount points ws held' (add64 total paid) in
      (ap suc len, sums ∙ sym (sum64_from-cons total paid _))

  burn_points-amount :
      (ws : List DexLiquidityWithdraw) (results : List DexWithdrawalResult) (pool : Pool)
      → KeepsAmount cn
      → (burn_points cn ws results pool).amount ≡ pool.amount
  unfolding burn_points
  burn_points-amount [] results pool keeps = refl
  burn_points-amount (w ∷ ws) [] pool keeps = refl
  burn_points-amount (w ∷ ws) (r ∷ results) pool keeps =
      burn_points-amount ws results _ keeps
      ∙ either-amount (r.points_burned == 0) pool _ (keeps.amount pool w.address r.points_burned)

  pay_out-amount :
      (total : ℕ) (pool : Pool)
      → pool.amount < u64_mod
      → (pay_out total pool).amount ≡ pool.amount - total
  unfolding pay_out
  pay_out-amount total pool bound = ground arith

  withdraw_from_lem :
      (pool : Pool) (ws : List DexLiquidityWithdraw)
      → KeepsAmount cn
      → pool.amount < u64_mod
      → (length (withdraw_from cn pool ws).1 ≡ length ws)
        × ((withdraw_from cn pool ws).0.amount
            ≡ pool.amount - sum64_from 0 (paid_out (withdraw_from cn pool ws).1))
  unfolding withdraw_from
  withdraw_from_lem pool ws keeps bound =
      let held = points_by_address pool.points [] in
      let all = withdraw_all cn pool.amount pool.total_pool_points ws held 0 in
      let (len, sums) = withdraw_all_lem pool.amount pool.total_pool_points ws held 0 in
      (
        len,
        burn_points-amount ws all.0 (pay_out all.1 pool) keeps
            ∙ pay_out-amount all.1 pool bound
            ∙ ap (λ t. pool.amount - t) sums,
      )

  apply_batch_withdrawals_lem :
      (s : MockState) (ws : List DexLiquidityWithdraw) {pool : Pool}
      → lookup (liquidity_id cn s) s.pools ≡ some pool
      → 1 ≤ pool.amount
      → 1 ≤ pool.total_pool_points
      → apply_batch_withdrawals cn s ws ≡ (
        record s { pools = insert (liquidity_id cn s) (withdraw_from cn pool ws).0 s.pools },
        (withdraw_from cn pool ws).1,
      )
  unfolding apply_batch_withdrawals withdraw_found
  apply_batch_withdrawals_lem s ws {pool} there some_amount some_points =
      let points : (pool.total_pool_points == 0) ≡ false = ground arith in
      let full : (pool.amount == 0) ≡ false = ground arith in
      ap (withdraw_found cn s ws) there ∙ rw (points, full)

  -- Where the liquidity pool of a state has an amount below 2 ^ 64, not 0, and points, applying
  -- withdrawals gives a result for each of them, leaves the pool with its amount less the uint64 sum
  -- of what the results pay out, or with 0 where that is more, and leaves every other pool as it is,
  -- if pool.RemovePoints changes no amount.
  pub apply_batch_withdrawals-pays :
      (s : MockState) (ws : List DexLiquidityWithdraw) {pool : Pool}
      → KeepsAmount cn
      → lookup (liquidity_id cn s) s.pools ≡ some pool
      → 1 ≤ pool.amount
      → pool.amount < u64_mod
      → 1 ≤ pool.total_pool_points
      → (pool' : Pool) × (length (apply_batch_withdrawals cn s ws).1 ≡ length ws)
        × (pool'.amount ≡ pool.amount - sum64_from 0 (paid_out (apply_batch_withdrawals cn s ws).1))
        × ((id : ℕ)
            → lookup id (apply_batch_withdrawals cn s ws).0.pools
              ≡ (if id == liquidity_id cn s then some pool' else lookup id s.pools))
  apply_batch_withdrawals-pays s ws {pool} keeps there some_amount bound some_points =
      let parts = withdraw_from cn pool ws in
      let (len, amount) = withdraw_from_lem pool ws keeps bound in
      rw (apply_batch_withdrawals_lem s ws there some_amount some_points)
        (parts.0, len, amount, λ id. lookup-insert id (liquidity_id cn s) parts.0 s.pools)
