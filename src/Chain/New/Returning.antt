-- ===== src/Chain/New/Returning.antt =====
-- newMockChain returns a chain: with two validators or more no array access panics, and the only
-- loops that can run long are those of the count samplers.
use canopy_rpc_mock.Base.{
  ℕ, zero, suc, ◌+◌, ◌%◌, ◌≤◌, ◌<◌, ◌≡◌, refl, ◌∙◌, List, [], ◌∷◌, map, arith, ok, length, Returns,
  index, index-Returns, collect-Returns, bind-Returns, length-set, Bool-cases, inl, inr, add64,
}
use canopy_rpc_mock.Gen.Runtime.{Runtime}
use canopy_rpc_mock.Gen.Hash.{pick_account_index, addr_height_seed}
use canopy_rpc_mock.Gen.Profile.{Profile}
use canopy_rpc_mock.Gen.TxGen.{tx_count_at}
use canopy_rpc_mock.Gen.EventGen.{event_count_at}
use canopy_rpc_mock.Gen.Ledger.{
  snapshot_balances_at, snapshot_many, overshoots, residual_index, raws_from, priced_from,
  exchange_rate,
}
use canopy_rpc_mock.Gen.Ledger.Pricing.{length-priced_from, length-raws_from}
use canopy_rpc_mock.Chain.Types.{Bytes, Account, TxResult, Event}
use canopy_rpc_mock.Chain.Canopy.{Canopy}
use canopy_rpc_mock.Chain.MockChain.{MockChain}
use canopy_rpc_mock.Chain.Blocks.{generate_block, build_certificate_for_tx}
use canopy_rpc_mock.Chain.Snapshot.{zip_accounts, snapshot_state_at}
use canopy_rpc_mock.Chain.New.{add_block, put_txs, put_block, put_next, put_state}
use canopy_rpc_mock.Chain.Txs.{
  TxLabel, pick_address, tx_message, build_tx_msg, make_tx, generate_closed_form_txs, events_from,
  generate_closed_form_events,
}

pick_account_index-lt :
    (seed n : ℕ) → 0 < n → (i : ℕ) × (pick_account_index seed n ≡ ok i) × (i < n)
unfolding pick_account_index
pick_account_index-lt seed n h = (seed % n, ground arith, omega arith)

zip_accounts-Returns :
    (addrs : List Bytes) (balances : List ℕ)
    → length balances ≡ length addrs
    → Returns (zip_accounts addrs balances)
unfolding zip_accounts
zip_accounts-Returns [] balances h = ([], refl)
zip_accounts-Returns (a ∷ addrs) [] h = absurd (omega arith)
zip_accounts-Returns (a ∷ addrs) (v ∷ balances) h =
    bind-Returns (zip_accounts addrs balances) _ (zip_accounts-Returns addrs balances (omega arith))
      (λ rest e. (_, refl))

module _ (rt : Runtime) where
  pub length-snapshot_balances_at :
      (addrs : List Bytes) (chain_id height : ℕ)
      → length (snapshot_balances_at rt addrs chain_id height) ≡ length addrs
  unfolding snapshot_balances_at snapshot_many
  length-snapshot_balances_at [] chain_id height = refl
  length-snapshot_balances_at (a ∷ []) chain_id height = refl
  length-snapshot_balances_at (a ∷ b ∷ addrs) chain_id height =
      let all = a ∷ b ∷ addrs in
      let r = residual_index rt all in
      let raws = raws_from rt 0 r (exchange_rate rt all chain_id) height all in
      let lengths : length raws ≡ length all = length-raws_from rt 0 r _ height all in
      elim (Bool-cases (overshoots rt all chain_id height)) [
        | inl over ↦ rw over (length-priced_from rt 0 r _ raws ∙ lengths)
        | inr fits ↦ rw fits (
            length-set (priced_from rt 0 r (λ x. x) raws) r _
            ∙ length-priced_from rt 0 r (λ x. x) raws
            ∙ lengths)
      ]

-- Enough validators and accounts for every array access.
pub record IsReady (mc : MockChain) : Type 0 where
  pub validators : 2 ≤ length mc.validators
  pub accounts : 1 ≤ length mc.accounts

module _ (rt : Runtime) (cn : Canopy) where
  pub snapshot_state_at-Returns :
      (mc : MockChain) (height : ℕ)
      → Returns (snapshot_state_at rt mc (map (λ (a : Account). a.address) mc.accounts) height)
  unfolding snapshot_state_at
  snapshot_state_at-Returns mc height =
      bind-Returns (zip_accounts _ (snapshot_balances_at rt _ mc.chain_id height)) _
        (zip_accounts-Returns _ _ (length-snapshot_balances_at rt _ mc.chain_id height))
        (λ accounts e. (_, refl))

  pick_address-Returns :
      (mc : MockChain) (salt : ℕ) → IsReady mc → Returns (pick_address rt cn mc salt)
  unfolding pick_address
  pick_address-Returns mc salt ready =
      bind-Returns (index mc.accounts 0) _ (index-Returns mc.accounts 0 (omega arith)) λ first e.
        let (i, picked, low) =
          pick_account_index-lt (addr_height_seed rt first.address salt) (length mc.accounts)
            (omega arith) in
        let (account, there) = index-Returns mc.accounts i low in
        (account.address, rw (picked, there))

  certificate-Returns :
      (mc : MockChain) (height : ℕ)
      → IsReady mc
      → Returns (build_certificate_for_tx rt cn mc height)
  unfolding build_certificate_for_tx
  certificate-Returns mc height ready =
      bind-Returns (index mc.validators 0) _ (index-Returns mc.validators 0 (omega arith)) λ v e.
        bind-Returns (index mc.validators 1) _ (index-Returns mc.validators 1 (omega arith))
          λ w e'. (_, refl)

  tx_message-Returns :
      (mc : MockChain) (sender recipient : Bytes) (height : ℕ) (label : TxLabel)
      → IsReady mc
      → Returns (tx_message rt cn mc sender recipient height label)
  unfolding tx_message
  tx_message-Returns mc sender recipient height TxLabel.cert_results ready =
      bind-Returns (build_certificate_for_tx rt cn mc height) _
        (certificate-Returns mc height ready) (λ qc e. (_, refl))
  tx_message-Returns mc sender recipient height _ ready = (_, refl)

  make_tx-Returns :
      (mc : MockChain) (profile : Profile) (height i : ℕ)
      → IsReady mc
      → Returns (make_tx rt cn mc profile height i)
  unfolding make_tx build_tx_msg
  make_tx-Returns mc profile height i ready =
      bind-Returns (pick_address rt cn mc (add64 height i)) _ (pick_address-Returns mc _ ready)
        λ s e.
          bind-Returns (pick_address rt cn mc (add64 (add64 height i) 1)) _
            (pick_address-Returns mc _ ready)
            λ r e'.
              bind-Returns _ _
                (bind-Returns _ _ (tx_message-Returns mc s r height _ ready) (λ msg e''. (_, refl)))
                (λ any e''. (_, refl))

  txs-Returns :
      (fuel : ℕ) (mc : MockChain) (height : ℕ) (profile : Profile)
      → IsReady mc
      → Returns (tx_count_at rt fuel mc.chain_id profile height)
      → Returns (generate_closed_form_txs rt cn fuel mc height profile)
  unfolding generate_closed_form_txs
  txs-Returns fuel mc height profile ready counted =
      bind-Returns (tx_count_at rt fuel mc.chain_id profile height) _ counted λ count e.
        collect-Returns count 0 (make_tx rt cn mc profile height)
          (λ i. make_tx-Returns mc profile height i ready)

  events_from-Returns :
      (mc : MockChain) (profile : Profile) (height n i : ℕ)
      → IsReady mc
      → Returns (events_from rt cn mc profile height n i)
  unfolding events_from
  events_from-Returns mc profile height zero i ready = ([], refl)
  events_from-Returns mc profile height (suc n) i ready =
      bind-Returns (pick_address rt cn mc (add64 height i)) _ (pick_address-Returns mc _ ready)
        λ a e.
          bind-Returns (events_from rt cn mc profile height n (i + 1)) _
            (events_from-Returns mc profile height n (i + 1) ready) (λ rest e'. (_, refl))

  events-Returns :
      (fuel : ℕ) (mc : MockChain) (height : ℕ) (profile : Profile)
      → IsReady mc
      → Returns (event_count_at rt fuel mc.chain_id profile height)
      → Returns (generate_closed_form_events rt cn fuel mc height profile)
  unfolding generate_closed_form_events
  events-Returns fuel mc height profile ready counted =
      bind-Returns (event_count_at rt fuel mc.chain_id profile height) _ counted
        (λ count e. events_from-Returns mc profile height count 0 ready)

  generate_block-Returns :
      (mc : MockChain) (height : ℕ) (txs : List TxResult) (events : List Event)
      → IsReady mc
      → Returns (generate_block rt cn mc height txs events)
  unfolding generate_block
  generate_block-Returns mc height txs events ready =
      bind-Returns (index mc.validators 0) _ (index-Returns mc.validators 0 (omega arith))
        (λ v e. (_, refl))

  -- One round of the loop returns, if its two counts do.
  pub add_block-Returns :
      (fuel : ℕ) (profile : Profile) (mc : MockChain) (h : ℕ)
      → IsReady mc
      → Returns (tx_count_at rt fuel mc.chain_id profile h)
      → Returns (event_count_at rt fuel mc.chain_id profile h)
      → Returns (add_block rt cn fuel profile mc h)
  unfolding add_block put_txs put_block put_next put_state
  add_block-Returns fuel profile mc h ready txs_count events_count =
      bind-Returns (generate_closed_form_txs rt cn fuel mc h profile) _
        (txs-Returns fuel mc h profile ready txs_count)
        λ txs e.
          bind-Returns (generate_closed_form_events rt cn fuel mc h profile) _
            (events-Returns fuel mc h profile ready events_count)
            λ events e'.
              bind-Returns _ _
                (generate_block-Returns (put_txs mc h txs events) h txs events
                  (record { validators = ready.validators; accounts = ready.accounts }))
                λ block e''. bind-Returns _ _ (snapshot_state_at-Returns _ h) λ state e3.
                  bind-Returns _ _
                    (certificate-Returns _ h
                      (record { validators = ready.validators; accounts = ready.accounts }))
                    (λ cert e4. (_, refl))
