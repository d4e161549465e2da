-- ===== src/Chain/MockState/Batch.antt =====
-- The batch operations of chain/mock_state.go: limit orders, deposits and withdrawals on the pools.
use canopy_rpc_mock.Base.{
  ℕ, ◌/◌, Option, none, some, List, [], ◌∷◌, ◌++◌, map, ◌==◌, ◌||◌, ltb, leb, if◌then◌else◌, add64,
  sub64,
}
use canopy_rpc_mock.Base.Dict.{lookup, insert}
use canopy_rpc_mock.Chain.Types.{
  Pool, PoolPoints, DexLimitOrder, DexLiquidityDeposit, DexLiquidityWithdraw,
}
use canopy_rpc_mock.Chain.Canopy.{Canopy}
use canopy_rpc_mock.Chain.MockState.{MockState, Texts, lookup_text, insert_text, update_pool}

pub record DexWithdrawalResult : Type 0 where
  pub local_amount : ℕ
  pub points_burned : ℕ

-- what a deposit does to the liquidity pool
unfoldable pub deposit_into : DexLiquidityDeposit → Pool → Pool
deposit_into d pool =
    let share = d.amount / 10 in
    record pool {
      amount = add64 pool.amount d.amount;
      total_pool_points = add64 pool.total_pool_points share;
      points = pool.points ++ record { address = d.address; points = share } ∷ [];
    }

-- what a deposit does to the holding pool
unfoldable pub release_held : DexLiquidityDeposit → Pool → Pool
release_held d pool =
    if leb d.amount pool.amount then record pool { amount = sub64 pool.amount d.amount } else pool

-- pointsByAddress; a later entry of an address replaces an earlier one
unfoldable pub points_by_address : List PoolPoints → Texts ℕ → Texts ℕ
points_by_address [] m = m
points_by_address (lp ∷ points) m = points_by_address points (insert_text lp.address lp.points m)

-- pointsByAddress[key]
abbrev pub points_of : Option ℕ → ℕ
points_of (some points) = points
points_of none = 0

-- if pool.Amount > totalWithdrawn { pool.Amount -= totalWithdrawn } else { pool.Amount = 0 }
unfoldable pub pay_out : ℕ → Pool → Pool
pay_out total pool = record pool {
  amount = if ltb total pool.amount then sub64 pool.amount total else 0;
}

-- make([]dexWithdrawalResult, len(withdrawals))
abbrev pub no_results : List DexLiquidityWithdraw → List DexWithdrawalResult
no_results withdrawals =
    map (λ (w : DexLiquidityWithdraw). record { local_amount = 0; points_burned = 0 }) withdrawals

module _ (cn : Canopy) where
  -- s.chainID + fsm.HoldingPoolAddend and s.chainID + fsm.LiquidityPoolAddend
  abbrev pub holding_id : MockState → ℕ
  holding_id s = add64 s.chain_id cn.holding_pool_addend

  abbrev pub liquidity_id : MockState → ℕ
  liquidity_id s = add64 s.chain_id cn.liquidity_pool_addend

  unfoldable pub apply_batch_orders : MockState → List DexLimitOrder → MockState
  apply_batch_orders s [] = s
  apply_batch_orders s (o ∷ orders) =
      apply_batch_orders
        (record s {
          pools =
              update_pool (holding_id s)
                (λ pool. record pool { amount = add64 pool.amount o.amount_for_sale }) s.pools;
        })
        orders

  unfoldable pub apply_batch_deposits : MockState → List DexLiquidityDeposit → MockState
  apply_batch_deposits s [] = s
  apply_batch_deposits s (d ∷ deposits) =
      apply_batch_deposits
        (record s {
          pools =
              update_pool (holding_id s) (release_held d)
                (update_pool (liquidity_id s) (deposit_into d) s.pools);
        })
        deposits

  -- The burn of a withdrawal: at most all points.
  unfoldable pub burn_of : ℕ → DexLiquidityWithdraw → ℕ
  burn_of points w =
      let percent = if ltb 100 w.percent then 100 else w.percent in
      let burn = cn.safe_mul_div points percent 100 in if ltb points burn then points else burn

  -- the first loop over the withdrawals, from the pool's initial amount and points: the results, and
  -- totalWithdrawn
  unfoldable pub withdraw_all :
      ℕ → ℕ → List DexLiquidityWithdraw → Texts ℕ → ℕ → List DexWithdrawalResult × ℕ
  withdraw_all amount total_points [] held total = ([], total)
  withdraw_all amount total_points (w ∷ withdrawals) held total =
      let points = points_of (lookup_text w.address held) in
      let burn = burn_of points w in
      let withdraw = cn.safe_mul_div amount burn total_points in
      let held' = if ltb 0 burn then insert_text w.address (sub64 points burn) held else held in
      let (results, total') =
        withdraw_all amount total_points withdrawals held' (add64 total withdraw) in
      (record { local_amount = withdraw; points_burned = burn } ∷ results, total')

  -- the second loop
  unfoldable pub burn_points : List DexLiquidityWithdraw → List DexWithdrawalResult → Pool → Pool
  burn_points [] results pool = pool
  burn_points (w ∷ withdrawals) [] pool = pool
  burn_points (w ∷ withdrawals) (r ∷ results) pool =
      burn_points withdrawals results
        (if r.points_burned == 0 then pool else cn.remove_points pool w.address r.points_burned)

  -- the rest of applyBatchWithdrawals for a pool with an amount and points
  unfoldable pub withdraw_from : Pool → List DexLiquidityWithdraw → Pool × List DexWithdrawalResult
  withdraw_from pool withdrawals =
      let (results, total) =
        withdraw_all pool.amount pool.total_pool_points withdrawals
          (points_by_address pool.points []) 0 in
      (burn_points withdrawals results (pay_out total pool), results)

  -- applyBatchWithdrawals once the liquidity pool is looked up
  unfoldable pub withdraw_found :
      MockState → List DexLiquidityWithdraw → Option Pool → MockState × List DexWithdrawalResult
  withdraw_found s withdrawals none = (s, no_results withdrawals)
  withdraw_found s withdrawals (some pool) =
      if pool.total_pool_points == 0 || pool.amount == 0
      then (s, no_results withdrawals)
      else let (pool', results) = withdraw_from pool withdrawals in
        (record s { pools = insert (liquidity_id s) pool' s.pools }, results)

  unfoldable pub apply_batch_withdrawals :
      MockState → List DexLiquidityWithdraw → MockState × List DexWithdrawalResult
  apply_batch_withdrawals s withdrawals =
      withdraw_found s withdrawals (lookup (liquidity_id s) s.pools)
