-- ===== src/Tests.antt =====
-- Concrete parameters for the examples below: a small float64 of quotients of natural numbers, a
-- generator that counts its draws, a hash that adds up bytes, and constants for the canopy module.
pub mod Gen
pub mod Chain
pub mod Rpc
pub mod Blobs
pub mod Routes
pub mod Server
pub mod State
use native.Mathlib.Nat.{div-one}
use mathlib.Core.Path.{ap₂}
use canopy_rpc_mock.Base.{
  ℕ, ◌+◌, ◌-◌, ◌*◌, ◌/◌, ◌%◌, ◌^◌, ◌<◌, ◌≡◌, refl, arith, some, List, [], ◌∷◌, ap, ◌∙◌, replicate,
  sum, ltb, leb, ◌==◌, pos, u64_mod,
}
use canopy_rpc_mock.Gen.Runtime.{Runtime, IntnInRange, ToU64InRange, CeilDivExact}
use canopy_rpc_mock.Chain.Canopy.{Canopy}

-- A quotient of two natural numbers; there are no negative ones.
abbrev Quotient : Type 0
Quotient = ℕ × ℕ

-- The draws are 0.8, 0.8, 0.5, 0.5, 0.2, 0.2, ...
abbrev pub toy : Runtime
toy = record {
  sha256 = λ bs. (sum bs % 256) ∷ replicate 31 8;
  Rng = ℕ;
  new_source = λ s. 0;
  F = Quotient;
  lit = λ m k. (m, 10 ^ k);
  add = λ x y. (x.0 * y.1 + y.0 * x.1, x.1 * y.1);
  sub = λ x y. (x.0 * y.1 - y.0 * x.1, x.1 * y.1);
  mul = λ x y. (x.0 * y.0, x.1 * y.1);
  div = λ x y. (x.0 * y.1, x.1 * y.0);
  neg = λ x. (0, 1);
  lt = λ x y. ltb (x.0 * y.1) (y.0 * x.1);
  le = λ x y. leb (x.0 * y.1) (y.0 * x.1);
  eq = λ x y. x.0 * y.1 == y.0 * x.1;
  log = λ x. x;
  exp = λ x. (1, 2);
  sqrt = λ x. x;
  cos = λ x. (1, 1);
  pow = λ x y. x;
  pi = (22, 7);
  of_u64 = λ n. (n, 1);
  to_u64 = λ x. (x.0 / x.1) % u64_mod;
  ceil = λ x. ((x.0 + x.1 - 1) / x.1, 1);
  to_int = λ x. pos (x.0 / x.1);
  float64 = λ r. (((r / 2 * 7 + 8) % 10, 10), r + 1);
  intn = λ n r. (r % n, r + 1);
}

abbrev pub toy_canopy : Canopy
toy_canopy = record {
  event_type_reward = "reward";
  event_type_slash = "slash";
  event_type_dex_swap = "dex-swap";
  event_type_dex_liquidity_deposit = "dex-liquidity-deposit";
  message_send_name = "send";
  message_dex_limit_order_name = "dexLimitOrder";
  message_edit_stake_name = "editStake";
  message_certificate_results_name = "certificateResults";
  message_dex_liquidity_deposit_name = "dexLiquidityDeposit";
  message_dex_liquidity_withdraw_name = "dexLiquidityWithdraw";
  message_stake_name = "stake";
  message_unstake_name = "unstake";
  holding_pool_addend = 1000;
  liquidity_pool_addend = 2000;
  address_size = 20;
  phase_precommit_vote = 4;
  public_key = λ bs. bs;
  address = λ bs. bs;
  any_new = λ m. some (record { type_url = []; value = [] });
  marshal_block = λ b. some (1 ∷ 2 ∷ []);
  safe_mul_div = λ a b c. a * b / c;
  remove_points = λ p a n. p;
  json_marshal = λ j. [];
}

-- The same with a generator that starts at its seed, and other values for neg and exp.
abbrev pub seeded : Runtime
seeded = record toy { new_source = λ s. s; neg = λ x. x; exp = λ x. (x.0 + 3 * x.1, x.1) }

-- The same with generators that start two later.
abbrev pub shifted : Runtime
shifted = record seeded { new_source = λ s. s + 2 }

pub toy-IntnInRange : IntnInRange toy
toy-IntnInRange n r h = omega arith

pub toy-ToU64InRange : ToU64InRange toy
toy-ToU64InRange x = omega arith

pub toy-CeilDivExact : CeilDivExact toy
toy-CeilDivExact m n hm hn kn =
    let top : m * 1 ≡ m = omega arith in
    let bottom : 1 * n ≡ n = omega arith in
    let quotient : (m * 1 + 1 * n - 1) / (1 * n) ≡ (m + n - 1) / n =
      ap₂ (λ i j. (i + j - 1) / j) top bottom in
    ap pos (div-one ((m * 1 + 1 * n - 1) / (1 * n)) ∙ quotient)

pub seeded-IntnInRange : IntnInRange seeded
seeded-IntnInRange n r h = omega arith

pub seeded-ToU64InRange : ToU64InRange seeded
seeded-ToU64InRange x = omega arith

pub shifted-IntnInRange : IntnInRange shifted
shifted-IntnInRange n r h = omega arith
