-- ===== src/Gen/Ledger/Locality.antt =====
-- What an address's balance depends on: the property that lets delta blobs drop unchanged accounts.
use canopy_rpc_mock.Base.{
  ℕ, zero, suc, ◌+◌, ◌≡◌, refl, sym, ◌∙◌, ap, ◌≢◌, false, List, [], ◌∷◌, arith, get_elem?, some,
  get_elem?-set_ne, sub64,
}
use mathlib.Core.Option
use canopy_rpc_mock.Gen.Runtime.{Runtime}
use canopy_rpc_mock.Gen.Ledger.{
  base_value, addr_active_at_height, raw_value, raws_from, priced_from, exchange_rate, overshoots,
  residual_index, snapshot_balances_at, total_supply_at,
}
use canopy_rpc_mock.Gen.Ledger.Conservation.{priced, spent, snapshot_fits}

module _ (rt : Runtime) where
  open rt use {F, mul, to_u64}

  -- The price of one address at the fixed rate.
  abbrev pub price_at : F → ℕ → List ℕ → ℕ
  price_at rate height addr = to_u64 (mul (raw_value rt addr height) rate)

  get_elem?-priced :
      (i r k : ℕ) (rate : F) (height : ℕ) (addrs : List (List ℕ))
      → i + k ≢ r
      → get_elem? (priced_from rt i r (λ x. x) (raws_from rt i r rate height addrs)) k
        ≡ Option.map (price_at rate height) (get_elem? addrs k)
  unfolding priced_from raws_from
  get_elem?-priced i r k rate height [] h = refl
  get_elem?-priced i r zero rate height (a ∷ addrs) h = ground arith
  get_elem?-priced i r (suc k) rate height (a ∷ addrs) h =
      get_elem?-priced (i + 1) r k rate height addrs (omega arith)

  raw_value_inactive :
      (addr : List ℕ) (height : ℕ)
      → addr_active_at_height rt addr height ≡ false
      → raw_value rt addr height ≡ base_value rt addr
  unfolding raw_value
  raw_value_inactive addr height h = rw h

  module _ (a b : List ℕ) (rest : List (List ℕ)) (chain_id : ℕ) where
    abbrev addrs : List (List ℕ)
    addrs = a ∷ b ∷ rest

    -- For two addresses or more, where the floats priced for the others do not exceed the supply,
    -- the balance at any index but the residual's is that address's raw value at the exchange
    -- rate, cut to a whole number.
    pub snapshot_balances_at-get :
        (height k : ℕ)
        → overshoots rt addrs chain_id height ≡ false
        → residual_index rt addrs ≢ k
        → get_elem? (snapshot_balances_at rt addrs chain_id height) k
          ≡ Option.map (price_at (exchange_rate rt addrs chain_id) height) (get_elem? addrs k)
    snapshot_balances_at-get height k fits other =
        rw (snapshot_fits rt a b rest chain_id height fits) (
          get_elem?-set_ne (priced rt a b rest chain_id height) (residual_index rt addrs) k
            (sub64 (total_supply_at rt chain_id height) (spent rt a b rest chain_id height)) other
          ∙ get_elem?-priced 0 (residual_index rt addrs) k (exchange_rate rt addrs chain_id) height
              addrs (λ e. other (omega arith)))

    -- For two addresses or more, an address that is not the residual and is active at neither of
    -- two heights has the same balance at both, where the floats priced for the others exceed the
    -- supply at neither.
    pub snapshot_balances_at_unchanged :
        (h h' k : ℕ) (addr : List ℕ)
        → overshoots rt addrs chain_id h ≡ false
        → overshoots rt addrs chain_id h' ≡ false
        → residual_index rt addrs ≢ k
        → get_elem? addrs k ≡ some addr
        → addr_active_at_height rt addr h ≡ false
        → addr_active_at_height rt addr h' ≡ false
        → get_elem? (snapshot_balances_at rt addrs chain_id h) k
          ≡ get_elem? (snapshot_balances_at rt addrs chain_id h') k
    snapshot_balances_at_unchanged h h' k addr fits fits' other at_k quiet quiet' =
        rw
          (snapshot_balances_at-get h k fits other, snapshot_balances_at-get h' k fits' other, at_k)
          (ap some (
            ap (λ v. to_u64 (mul v (exchange_rate rt addrs chain_id)))
              (raw_value_inactive addr h quiet ∙ sym (raw_value_inactive addr h' quiet'))))
