-- ===== src/Chain/Params.antt =====
-- buildParams of chain/mock_data.go: the governance parameters of a chain.
use canopy_rpc_mock.Base.{ℕ, String}

pub record ConsensusParams : Type 0 where
  pub block_size : ℕ
  pub protocol_version : String
  pub root_chain_id : ℕ
  pub retired : ℕ

pub record ValidatorParams : Type 0 where
  pub unstaking_blocks : ℕ
  pub max_pause_blocks : ℕ
  pub double_sign_slash_percentage : ℕ
  pub non_sign_slash_percentage : ℕ
  pub max_non_sign : ℕ
  pub non_sign_window : ℕ
  pub max_committees : ℕ
  pub max_committee_size : ℕ
  pub early_withdrawal_penalty : ℕ
  pub delegate_unstaking_blocks : ℕ
  pub minimum_order_size : ℕ
  pub stake_percent_for_subsidized_committee : ℕ
  pub max_slash_per_committee : ℕ
  pub delegate_reward_percentage : ℕ
  pub buy_deadline_blocks : ℕ
  pub lock_order_fee_multiplier : ℕ
  pub minimum_stake_for_validators : ℕ
  pub minimum_stake_for_delegates : ℕ
  pub maximum_delegates_per_committee : ℕ

pub record FeeParams : Type 0 where
  pub send_fee : ℕ
  pub stake_fee : ℕ
  pub edit_stake_fee : ℕ
  pub unstake_fee : ℕ
  pub pause_fee : ℕ
  pub unpause_fee : ℕ
  pub change_parameter_fee : ℕ
  pub dao_transfer_fee : ℕ
  pub certificate_results_fee : ℕ
  pub subsidy_fee : ℕ
  pub create_order_fee : ℕ
  pub edit_order_fee : ℕ
  pub delete_order_fee : ℕ
  pub dex_limit_order_fee : ℕ
  pub dex_liquidity_deposit_fee : ℕ
  pub dex_liquidity_withdraw_fee : ℕ

pub record GovernanceParams : Type 0 where
  pub dao_reward_percentage : ℕ

-- fsm.Params
pub record Params : Type 0 where
  pub consensus : ConsensusParams
  pub validator : ValidatorParams
  pub fee : FeeParams
  pub governance : GovernanceParams

unfoldable pub build_params : ℕ → Params
build_params chain_id = record {
  consensus = record {
    block_size = 1_000_000;
    protocol_version = "mock-v1";
    root_chain_id = chain_id;
    retired = 0;
  };
  validator = record {
    unstaking_blocks = 100;
    max_pause_blocks = 25;
    double_sign_slash_percentage = 5;
    non_sign_slash_percentage = 2;
    max_non_sign = 3;
    non_sign_window = 50;
    max_committees = 5;
    max_committee_size = 15;
    early_withdrawal_penalty = 10;
    delegate_unstaking_blocks = 50;
    minimum_order_size = 1000;
    stake_percent_for_subsidized_committee = 25;
    max_slash_per_committee = 1_000;
    delegate_reward_percentage = 10;
    buy_deadline_blocks = 15;
    lock_order_fee_multiplier = 3;
    minimum_stake_for_validators = 50_000;
    minimum_stake_for_delegates = 10_000;
    maximum_delegates_per_committee = 25;
  };
  fee = record {
    send_fee = 10;
    stake_fee = 100;
    edit_stake_fee = 5;
    unstake_fee = 50;
    pause_fee = 1;
    unpause_fee = 1;
    change_parameter_fee = 500;
    dao_transfer_fee = 250;
    certificate_results_fee = 0;
    subsidy_fee = 0;
    create_order_fee = 125;
    edit_order_fee = 75;
    delete_order_fee = 60;
    dex_limit_order_fee = 80;
    dex_liquidity_deposit_fee = 25;
    dex_liquidity_withdraw_fee = 25;
  };
  governance = record { dao_reward_percentage = 15 };
}
