-- ===== src/Gen/RateTable.antt =====
-- gen/ratetable.go: the hourly modulation of the transaction rate.
use canopy_rpc_mock.Base.{
  ℕ, ◌/◌, ◌%◌, ◌≡◌, refl, List, [], ◌∷◌, map, arith, Result, index, Returns, ◌>>=◌, ok,
  index-Returns, length,
}
use canopy_rpc_mock.Gen.Runtime.{Runtime}

abbrev pub blocks_per_hour : ℕ
blocks_per_hour = 180

unfoldable pub hour_of_height : ℕ → ℕ
hour_of_height height = height / blocks_per_hour % 24

module _ (rt : Runtime) where
  open rt use {F, lit, add, mul, div}

  abbrev pub busy_hourly_rate_ratio_raw : List F
  busy_hourly_rate_ratio_raw =
      lit 55 2
      ∷ lit 50 2
      ∷ lit 60 2
      ∷ lit 90 2
      ∷ lit 191 2
      ∷ lit 185 2
      ∷ lit 130 2
      ∷ lit 115 2
      ∷ lit 105 2
      ∷ lit 100 2
      ∷ lit 95 2
      ∷ lit 95 2
      ∷ lit 100 2
      ∷ lit 105 2
      ∷ lit 105 2
      ∷ lit 100 2
      ∷ lit 105 2
      ∷ lit 110 2
      ∷ lit 105 2
      ∷ lit 100 2
      ∷ lit 90 2
      ∷ lit 80 2
      ∷ lit 65 2
      ∷ lit 50 2
      ∷ []

  abbrev pub sum_f : F → List F → F
  sum_f acc [] = acc
  sum_f acc (x ∷ xs) = sum_f (add acc x) xs

  unfoldable pub normalize_rate_table : List F → List F
  normalize_rate_table raw =
      let avg = div (sum_f (lit 0 0) raw) (lit 24 0) in map (λ v. div v avg) raw

  unfoldable pub busy_hourly_rate_ratio : List F
  busy_hourly_rate_ratio = normalize_rate_table busy_hourly_rate_ratio_raw

  unfoldable pub busy_mean_at : ℕ → F → Result F
  busy_mean_at height base_mean = do
    ratio ← index busy_hourly_rate_ratio (hour_of_height height)
    ok (mul base_mean ratio)

  length-busy_hourly_rate_ratio : length busy_hourly_rate_ratio ≡ 24
  unfolding busy_hourly_rate_ratio normalize_rate_table
  length-busy_hourly_rate_ratio = refl

  -- busyMeanAt returns a mean at every height: the hour is always an index of the rate table.
  pub busy_mean_at-Returns : (height : ℕ) (base_mean : F) → Returns (busy_mean_at height base_mean)
  unfolding busy_mean_at hour_of_height
  busy_mean_at-Returns height base_mean =
      let (r, e) =
        index-Returns busy_hourly_rate_ratio (height / blocks_per_hour % 24)
          (omega (arith, length-busy_hourly_rate_ratio)) in
      (mul base_mean r, rw e)
