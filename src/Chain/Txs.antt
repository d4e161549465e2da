-- ===== src/Chain/Txs.antt =====
-- The transactions and events of a height: generateClosedFormTxs, buildTxMsg, messageTypeForLabel,
-- generateClosedFormEvents and buildClosedFormEvent of chain/mock_data.go.
pub mod Messages
pub mod Slots
use canopy_rpc_mock.Base.{
  ℕ, zero, suc, ◌+◌, ◌*◌, String, Bool, true, false, Option, List, [], ◌∷◌, str_eq, if◌then◌else◌,
  Result, ok, ◌>>=◌, index, add64, mul64, length, collect, ◌++◌,
}
use canopy_rpc_mock.Gen.Runtime.{Runtime}
use canopy_rpc_mock.Gen.Hash.{
  Part, ascii, decimal, hash_bytes, addr_height_seed, pick_account_index,
}
use canopy_rpc_mock.Gen.Profile.{Profile}
use canopy_rpc_mock.Gen.TxGen.{tx_count_at, tx_type_mix_at}
use canopy_rpc_mock.Gen.EventGen.{event_count_at, event_type_mix_at}
use canopy_rpc_mock.Chain.Types.{Bytes, TxMsg, Any, TxResult, Event, EventMsg}
use canopy_rpc_mock.Chain.Canopy.{Canopy}
use canopy_rpc_mock.Chain.Governance.{hex_encode}
use canopy_rpc_mock.Chain.MockChain.{MockChain}
use canopy_rpc_mock.Chain.Blocks.{
  mock_network_id, block_time_micro, block_hash, build_certificate_for_tx,
}

-- the height that the type of slot i is drawn at
abbrev pub slot_height : ℕ → ℕ → ℕ
slot_height height i = add64 height (mul64 (i + 1) 1_000_003)

-- The cases of the two switches over a label, messageTypeForLabel's and buildTxMsg's; `other` is
-- their default.
pub data TxLabel : Type 0 where
  send dex_limit_order edit_stake cert_results dex_liq_deposit dex_liq_withdraw : TxLabel
  stake unstake other : TxLabel

unfoldable pub tx_label : String → TxLabel
tx_label s =
    if str_eq s "send"
    then TxLabel.send
    else if str_eq s "dexLimitOrder"
    then TxLabel.dex_limit_order
    else if str_eq s "editStake"
    then TxLabel.edit_stake
    else if str_eq s "certResults"
    then TxLabel.cert_results
    else if str_eq s "dexLiqDeposit"
    then TxLabel.dex_liq_deposit
    else if str_eq s "dexLiqWithdraw"
    then TxLabel.dex_liq_withdraw
    else if str_eq s "stake"
    then TxLabel.stake
    else if str_eq s "unstake"
    then TxLabel.unstake
    else TxLabel.other

unfoldable pub message_name : Canopy → TxLabel → String
message_name cn TxLabel.send = cn.message_send_name
message_name cn TxLabel.dex_limit_order = cn.message_dex_limit_order_name
message_name cn TxLabel.edit_stake = cn.message_edit_stake_name
message_name cn TxLabel.cert_results = cn.message_certificate_results_name
message_name cn TxLabel.dex_liq_deposit = cn.message_dex_liquidity_deposit_name
message_name cn TxLabel.dex_liq_withdraw = cn.message_dex_liquidity_withdraw_name
message_name cn TxLabel.stake = cn.message_stake_name
message_name cn TxLabel.unstake = cn.message_unstake_name
message_name cn TxLabel.other = cn.message_send_name

unfoldable pub message_type_for_label : Canopy → String → String
message_type_for_label cn label = message_name cn (tx_label label)

module _ (rt : Runtime) (cn : Canopy) where
  -- accounts[PickAccountIndex(AddrHeightSeed(accounts[0].Address, salt), len(accounts))].Address
  unfoldable pub pick_address : MockChain → ℕ → Result Bytes
  pick_address mc salt = do
    first ← index mc.accounts 0
    i ← pick_account_index (addr_height_seed rt first.address salt) (length mc.accounts)
    account ← index mc.accounts i
    ok account.address

  abbrev pub stake_message : MockChain → Bytes → ℕ → TxMsg
  stake_message mc sender height =
      TxMsg.stake
        (cn.public_key
          (hash_bytes rt (Part.text "stake-pubkey" ∷ Part.bytes sender ∷ Part.num height ∷ [])))
        10_000 (mc.chain_id ∷ []) (ascii "127.0.0.1:" ++ decimal 26650) sender false false sender

  -- the switch of buildTxMsg
  unfoldable pub tx_message : MockChain → Bytes → Bytes → ℕ → TxLabel → Result TxMsg
  tx_message mc sender recipient height TxLabel.send =
      ok (TxMsg.send sender recipient (add64 1_000 height))
  tx_message mc sender recipient height TxLabel.dex_limit_order = ok (
      TxMsg.dex_limit_order mc.chain_id
        (record { amount_for_sale = 2_500; requested_amount = 200; address = sender }))
  tx_message mc sender recipient height TxLabel.edit_stake = ok (
      TxMsg.edit_stake sender (add64 10_000 height) (mc.chain_id ∷ [])
        (ascii "127.0.0.1:" ++ decimal 26650) sender false sender)
  tx_message mc sender recipient height TxLabel.cert_results = do
    qc ← build_certificate_for_tx rt cn mc height
    ok (TxMsg.certificate_results qc)
  tx_message mc sender recipient height TxLabel.dex_liq_deposit =
      ok (TxMsg.dex_liquidity_deposit mc.chain_id (record { address = sender; amount = 4_000 }))
  tx_message mc sender recipient height TxLabel.dex_liq_withdraw =
      ok (TxMsg.dex_liquidity_withdraw mc.chain_id (record { address = sender; percent = 10 }))
  tx_message mc sender recipient height TxLabel.stake = ok (stake_message mc sender height)
  tx_message mc sender recipient height TxLabel.unstake = ok (TxMsg.unstake sender)
  tx_message mc sender recipient height TxLabel.other =
      ok (TxMsg.send sender recipient (add64 1_000 height))

  -- none is the nil message of a failed anypb.New
  unfoldable pub build_tx_msg : MockChain → String → Bytes → Bytes → ℕ → Result (Option Any)
  build_tx_msg mc label sender recipient height = do
    msg ← tx_message mc sender recipient height (tx_label label)
    ok (cn.any_new msg)

  abbrev pub tx_hash : ℕ → ℕ → ℕ → Bytes
  tx_hash chain_id height i =
      hash_bytes rt (Part.text "tx" ∷ Part.num chain_id ∷ Part.num height ∷ Part.num i ∷ [])

  -- one round of the loop of generateClosedFormTxs
  unfoldable pub make_tx : MockChain → Profile → ℕ → ℕ → Result TxResult
  make_tx mc profile height i = do
    let label = tx_type_mix_at rt mc.chain_id profile (slot_height height i)
    sender ← pick_address mc (add64 height i)
    recipient ← pick_address mc (add64 (add64 height i) 1)
    let msg_type = message_type_for_label cn label
    any_msg ← build_tx_msg mc label sender recipient height
    ok (record {
      sender = sender;
      message_type = msg_type;
      height = height;
      index = i;
      transaction = record {
        message_type = msg_type;
        msg = any_msg;
        created_height = height;
        time = block_time_micro height;
        fee = 10;
        network_id = mock_network_id;
        chain_id = mc.chain_id;
      };
      tx_hash = hex_encode (tx_hash mc.chain_id height i);
    })

  unfoldable pub generate_closed_form_txs : ℕ → MockChain → ℕ → Profile → Result (List TxResult)
  generate_closed_form_txs fuel mc height profile = do
    count ← tx_count_at rt fuel mc.chain_id profile height
    collect count 0 (make_tx mc profile height)

  -- the switch of buildClosedFormEvent
  unfoldable pub event_body : String → String × EventMsg
  event_body label =
      if str_eq label "reward"
      then (cn.event_type_reward, EventMsg.reward 5)
      else if str_eq label "dexSwap"
      then (cn.event_type_dex_swap, EventMsg.dex_swap 1_000 900 true true)
      else if str_eq label "dexLiquidityDeposit"
      then (cn.event_type_dex_liquidity_deposit, EventMsg.dex_liquidity_deposit 500 50)
      else (cn.event_type_reward, EventMsg.reward 5)

  unfoldable pub build_closed_form_event : String → ℕ → ℕ → Bytes → Bytes → List Event
  unfolding event_body
  build_closed_form_event label height chain_id addr bh =
      record {
        event_type = (event_body label).0;
        msg = (event_body label).1;
        height = height;
        reference = "";
        chain_id = chain_id;
        block_height = height;
        block_hash = bh;
        address = addr;
      }
      ∷ []

  -- the rounds of the loop of generateClosedFormEvents, from slot i
  unfoldable pub events_from : MockChain → Profile → ℕ → ℕ → ℕ → Result (List Event)
  events_from mc profile height zero i = ok []
  events_from mc profile height (suc n) i = do
    let label = event_type_mix_at rt mc.chain_id profile (slot_height height i)
    addr ← pick_address mc (add64 height i)
    rest ← events_from mc profile height n (i + 1)
    ok (build_closed_form_event label height mc.chain_id addr (block_hash rt height) ++ rest)

  unfoldable pub generate_closed_form_events : ℕ → MockChain → ℕ → Profile → Result (List Event)
  generate_closed_form_events fuel mc height profile = do
    count ← event_count_at rt fuel mc.chain_id profile height
    events_from mc profile height count 0
