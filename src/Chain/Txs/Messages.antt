-- ===== src/Chain/Txs/Messages.antt =====
-- The message of a transaction and the message type that it declares are chosen by two switches over
-- one label; here they are compared.
use canopy_rpc_mock.Base.{ℕ, String, ◌≡◌, ap, ok, bind-eq-ok, ok-injective}
use canopy_rpc_mock.Gen.Runtime.{Runtime}
use canopy_rpc_mock.Chain.Types.{Bytes, TxMsg}
use canopy_rpc_mock.Chain.Canopy.{Canopy}
use canopy_rpc_mock.Chain.MockChain.{MockChain}
use canopy_rpc_mock.Chain.Blocks.{build_certificate_for_tx}
use canopy_rpc_mock.Chain.Txs.{TxLabel, tx_label, tx_message, message_name, message_type_for_label}

-- The name that fsm gives to the type of a message.
abbrev pub name_of : Canopy → TxMsg → String
name_of cn (TxMsg.send _ _ _) = cn.message_send_name
name_of cn (TxMsg.dex_limit_order _ _) = cn.message_dex_limit_order_name
name_of cn (TxMsg.edit_stake _ _ _ _ _ _ _) = cn.message_edit_stake_name
name_of cn (TxMsg.certificate_results _) = cn.message_certificate_results_name
name_of cn (TxMsg.dex_liquidity_deposit _ _) = cn.message_dex_liquidity_deposit_name
name_of cn (TxMsg.dex_liquidity_withdraw _ _) = cn.message_dex_liquidity_withdraw_name
name_of cn (TxMsg.stake _ _ _ _ _ _ _ _) = cn.message_stake_name
name_of cn (TxMsg.unstake _) = cn.message_unstake_name

module _ (rt : Runtime) (cn : Canopy) (mc : MockChain) (sender recipient : Bytes) (height : ℕ) where
  message_name_lem :
      (l : TxLabel) {msg : TxMsg}
      → tx_message rt cn mc sender recipient height l ≡ ok msg
      → message_name cn l ≡ name_of cn msg
  unfolding tx_message message_name
  message_name_lem TxLabel.send e = ap (name_of cn) (ok-injective e)
  message_name_lem TxLabel.dex_limit_order e = ap (name_of cn) (ok-injective e)
  message_name_lem TxLabel.edit_stake e = ap (name_of cn) (ok-injective e)
  message_name_lem TxLabel.cert_results e =
      let (qc, _, e') = bind-eq-ok (build_certificate_for_tx rt cn mc height) _ e in
      ap (name_of cn) (ok-injective e')
  message_name_lem TxLabel.dex_liq_deposit e = ap (name_of cn) (ok-injective e)
  message_name_lem TxLabel.dex_liq_withdraw e = ap (name_of cn) (ok-injective e)
  message_name_lem TxLabel.stake e = ap (name_of cn) (ok-injective e)
  message_name_lem TxLabel.unstake e = ap (name_of cn) (ok-injective e)
  message_name_lem TxLabel.other e = ap (name_of cn) (ok-injective e)

  -- For every label, unknown ones included, the message type that messageTypeForLabel gives is the
  -- name of the type of the message that buildTxMsg's switch builds, where it builds one.
  pub message_type_agrees :
      (label : String) {msg : TxMsg}
      → tx_message rt cn mc sender recipient height (tx_label label) ≡ ok msg
      → message_type_for_label cn label ≡ name_of cn msg
  unfolding message_type_for_label
  message_type_agrees label e = message_name_lem (tx_label label) e
