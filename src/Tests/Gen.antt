-- ===== src/Tests/Gen.antt =====
-- Examples for package gen.
use canopy_rpc_mock.Base.{
  ℕ, zero, suc, ◌-◌, ◌≤◌, ◌≡◌, ◌⊎◌, ◌<◌, refl, false, true, arith, List, [], ◌∷◌, ok, sum,
  sum64_from, get_elem?, some, Returns,
}
use canopy_rpc_mock.Gen.Hash.{
  height_seed, hash_bytes, written, sprint, decimal, decimal_from, be_uint64, addr_height_seed,
  rng_for_addr_height,
}
use canopy_rpc_mock.Gen.Hash.Collisions.{height_seed_collides}
use canopy_rpc_mock.Gen.Distributions.{
  sample_poisson, standard_normal, fit_log_normal, sample_log_normal,
}
use canopy_rpc_mock.Gen.Distributions.Sampling.{sample_poisson-first, product}
use canopy_rpc_mock.Gen.RateTable.{busy_mean_at, busy_mean_at-Returns}
use canopy_rpc_mock.Gen.Lifecycle.{
  unstaked, unstake_height_for, validator_status_at, validator_status_at_mono,
  unstake_height_for_bounds,
}
use canopy_rpc_mock.Gen.Ledger.{
  snapshot_balances_at, snapshot_many, total_supply_at, overshoots, residual_index, residual_from,
  raws_from, priced_from, exchange_rate, sum_others_from, base_sum, base_value, raw_value,
  addr_active_at_height,
}
use canopy_rpc_mock.Gen.Ledger.Conservation.{
  priced, snapshot_balances_at-conserves, snapshot_balances_at-exact,
}
use canopy_rpc_mock.Gen.Ledger.Locality.{snapshot_balances_at_unchanged}
use canopy_rpc_mock.Tests.{toy, seeded, shifted, seeded-ToU64InRange, shifted-IntnInRange}

height_seed_collides_example : height_seed seeded 1 27 ≡ height_seed seeded 12 7
height_seed_collides_example =
    height_seed_collides seeded 1 2 7 (omega arith) (omega arith) (omega arith) (omega arith)

-- The products of the draws are 0.8, 0.64 and 0.32; the limit is 0.5.
sample_poisson-first_example : sample_poisson toy 9 0 (3, 2) ≡ ok (2, 3)
sample_poisson-first_example =
    sample_poisson-first toy 9 2 0 (3, 2) refl above_limit refl (omega arith)
  where
    above_limit : (i : ℕ) → i < 2 → toy.le (product toy (suc i) (1, 1) 0) (1, 2) ≡ false
    above_limit zero h = refl
    above_limit (suc zero) h = refl
    above_limit (suc (suc i)) h = absurd (omega arith)

busy_mean_at-Returns_example : Returns (busy_mean_at toy 1000 (9169, 100))
busy_mean_at-Returns_example = busy_mean_at-Returns toy 1000 (9169, 100)

abbrev leaver : List ℕ
leaver = 4 ∷ []

validator_status_at_mono_example : validator_status_at shifted leaver 0 5000 ≡ unstaked
unfolding validator_status_at unstake_height_for rng_for_addr_height addr_height_seed hash_bytes
    written sprint decimal decimal_from be_uint64
validator_status_at_mono_example =
    validator_status_at_mono shifted leaver 0 3907 5000 refl (omega arith)

unstake_height_for_bounds_example :
    ((100 ≤ unstake_height_for shifted leaver 0) × (unstake_height_for shifted leaver 0 < 10_000))
    ⊎ (unstake_height_for shifted leaver 0 ≡ 1_000_000_000)
unstake_height_for_bounds_example = unstake_height_for_bounds shifted leaver shifted-IntnInRange

abbrev first : List ℕ
first = 1 ∷ []

abbrev second : List ℕ
second = 2 ∷ []

abbrev third : List ℕ
third = 3 ∷ []

abbrev three : List (List ℕ)
three = first ∷ second ∷ third ∷ []

-- No account is active at height 2.
fits_2 : overshoots seeded three 1 2 ≡ false
unfolding overshoots total_supply_at sum_others_from raws_from residual_index residual_from
    exchange_rate base_sum base_value raw_value addr_active_at_height rng_for_addr_height
    addr_height_seed hash_bytes written sprint decimal decimal_from be_uint64 sample_log_normal
    fit_log_normal standard_normal
fits_2 = refl

snapshot_balances_at-conserves_example :
    sum64_from 0 (snapshot_balances_at seeded three 1 2) ≡ total_supply_at seeded 1 2
snapshot_balances_at-conserves_example =
    snapshot_balances_at-conserves seeded first second (third ∷ []) 1 2 seeded-ToU64InRange fits_2

within_2 : sum (priced seeded first second (third ∷ []) 1 2) ≤ total_supply_at seeded 1 2
unfolding overshoots total_supply_at sum_others_from raws_from residual_index residual_from
    exchange_rate base_sum base_value raw_value addr_active_at_height rng_for_addr_height
    addr_height_seed hash_bytes written sprint decimal decimal_from be_uint64 sample_log_normal
    fit_log_normal standard_normal priced_from
within_2 = omega arith

snapshot_balances_at-exact_example :
    (sum (snapshot_balances_at seeded three 1 2) ≡ total_supply_at seeded 1 2)
    × (get_elem? (snapshot_balances_at seeded three 1 2) (residual_index seeded three)
        ≡ some (total_supply_at seeded 1 2 - sum (priced seeded first second (third ∷ []) 1 2)))
snapshot_balances_at-exact_example =
    snapshot_balances_at-exact seeded first second (third ∷ []) 1 2 seeded-ToU64InRange fits_2
      within_2

-- The first account is active at height 1, at three times its value.
over_1 : overshoots seeded three 1 1 ≡ true
unfolding overshoots total_supply_at sum_others_from raws_from residual_index residual_from
    exchange_rate base_sum base_value raw_value addr_active_at_height rng_for_addr_height
    addr_height_seed hash_bytes written sprint decimal decimal_from be_uint64 sample_log_normal
    fit_log_normal standard_normal
over_1 = refl

-- There the balances do not add up to the supply: each is cut to a whole number.
short_1 : sum (snapshot_balances_at seeded three 1 1) < total_supply_at seeded 1 1
unfolding snapshot_balances_at snapshot_many overshoots total_supply_at sum_others_from raws_from
    residual_index residual_from exchange_rate base_sum base_value raw_value addr_active_at_height
    rng_for_addr_height addr_height_seed hash_bytes written sprint decimal decimal_from be_uint64
    sample_log_normal fit_log_normal standard_normal priced_from
short_1 = omega arith

-- At height 5 the second account is active, and the first is not.
fits_5 : overshoots seeded three 1 5 ≡ false
unfolding overshoots total_supply_at sum_others_from raws_from residual_index residual_from
    exchange_rate base_sum base_value raw_value addr_active_at_height rng_for_addr_height
    addr_height_seed hash_bytes written sprint decimal decimal_from be_uint64 sample_log_normal
    fit_log_normal standard_normal
fits_5 = refl

third_is_residual : residual_index seeded three ≡ 2
unfolding overshoots total_supply_at sum_others_from raws_from residual_index residual_from
    exchange_rate base_sum base_value raw_value addr_active_at_height rng_for_addr_height
    addr_height_seed hash_bytes written sprint decimal decimal_from be_uint64 sample_log_normal
    fit_log_normal standard_normal
third_is_residual = refl

inactive_2 : addr_active_at_height seeded first 2 ≡ false
unfolding overshoots total_supply_at sum_others_from raws_from residual_index residual_from
    exchange_rate base_sum base_value raw_value addr_active_at_height rng_for_addr_height
    addr_height_seed hash_bytes written sprint decimal decimal_from be_uint64 sample_log_normal
    fit_log_normal standard_normal
inactive_2 = refl

inactive_5 : addr_active_at_height seeded first 5 ≡ false
unfolding overshoots total_supply_at sum_others_from raws_from residual_index residual_from
    exchange_rate base_sum base_value raw_value addr_active_at_height rng_for_addr_height
    addr_height_seed hash_bytes written sprint decimal decimal_from be_uint64 sample_log_normal
    fit_log_normal standard_normal
inactive_5 = refl

snapshot_balances_at_unchanged_example :
    get_elem? (snapshot_balances_at seeded three 1 2) 0
    ≡ get_elem? (snapshot_balances_at seeded three 1 5) 0
snapshot_balances_at_unchanged_example =
    snapshot_balances_at_unchanged seeded first second (third ∷ []) 1 2 5 0 first fits_2 fits_5
      (λ e. absurd (omega (arith, third_is_residual, e))) refl inactive_2 inactive_5
