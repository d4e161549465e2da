-- ===== src/Chain/Build.antt =====
-- The constructors of chain/mock_data.go for a chain's fixed data: validators, accounts, pools,
-- order books, prices and committees. rng is drawn from in the order of the source. Printing the
-- keystore is not modelled.
use canopy_rpc_mock.Base.{
  ℕ, zero, suc, ◌+◌, ◌*◌, ◌/◌, ◌-◌, String, none, some, List, [], ◌∷◌, ◌++◌, ltb, ◌==◌,
  if◌then◌else◌, Result, ok, ◌>>=◌, index, take, add64, mul64, ℤ, pos, negsuc, ◌+ℤ◌, of_bits,
  get_elem?,
}
use canopy_rpc_mock.Gen.Runtime.{Runtime}
use canopy_rpc_mock.Gen.Hash.{Part, ascii, decimal, hash_bytes}
use canopy_rpc_mock.Chain.Types.{
  Bytes, Account, Pool, Validator, SellOrder, OrderBooks, DexPrice, CommitteesData,
}
use canopy_rpc_mock.Chain.Canopy.{Canopy}

-- fmt's %d
unfoldable pub print_int : ℤ → Bytes
unfolding decimal
print_int (pos n) = decimal n
print_int (negsuc n) = 45 ∷ decimal (suc n)

-- the value of a lower-case hex digit
unfoldable pub nibble : ℕ → ℕ
nibble c = if ltb c 58 then c - 48 else c - 87

-- hex.DecodeString, of an even number of lower-case digits
unfoldable pub hex_decode : Bytes → Bytes
unfolding nibble
hex_decode [] = []
hex_decode (c ∷ []) = []
hex_decode (c ∷ d ∷ cs) = (nibble c * 16 + nibble d) ∷ hex_decode cs

abbrev pub hardcoded_validator_seeds : List String
hardcoded_validator_seeds =
    "000102030405060708090a0b0c0d0e0f101112131415161718191a1b1c1d1e1f"
    ∷ "1f1e1d1c1b1a191817161514131211100f0e0d0c0b0a09080706050403020100"
    ∷ "1111111111111111111111111111111111111111111111111111111111111111"
    ∷ "2222222222222222222222222222222222222222222222222222222222222222"
    ∷ "3333333333333333333333333333333333333333333333333333333333333333"
    ∷ "4444444444444444444444444444444444444444444444444444444444444444"
    ∷ "5555555555555555555555555555555555555555555555555555555555555555"
    ∷ "6666666666666666666666666666666666666666666666666666666666666666"
    ∷ "7777777777777777777777777777777777777777777777777777777777777777"
    ∷ "8888888888888888888888888888888888888888888888888888888888888888" ∷ []

-- scale of buildDexPrices, in uint64; remote is not 0 where it is called
unfoldable pub dex_scale : ℕ → ℕ → ℕ
dex_scale local remote = mul64 local 1_000_000 / remote

unfoldable pub build_dex_prices : ℕ → List DexPrice
unfolding dex_scale
build_dex_prices chain_id =
    record {
      local_chain_id = chain_id;
      remote_chain_id = add64 chain_id 1;
      local_pool = 1;
      remote_pool = 10;
      e6_scaled_price = dex_scale 1 10;
    }
    ∷ record {
      local_chain_id = add64 chain_id 1;
      remote_chain_id = chain_id;
      local_pool = 10;
      remote_pool = 1;
      e6_scaled_price = dex_scale 10 1;
    }
    ∷ []

-- `validators[0].Committees[0]` panics on an empty list.
unfoldable pub build_committees : List Validator → Result CommitteesData
build_committees [] = ok []
build_committees (v ∷ []) = ok []
build_committees (v ∷ w ∷ vs) = do
  chain_id ← index v.committees 0
  ok (
      record {
        chain_id = chain_id;
        last_root_height_updated = 1;
        last_chain_height_updated = 1;
        payment_percents =
            record { address = v.address; percent = 60; chain_id = chain_id }
            ∷ record { address = w.address; percent = 40; chain_id = chain_id }
            ∷ [];
        number_of_samples = 10;
      }
      ∷ [])

module _ (rt : Runtime) (cn : Canopy) where
  open rt use {Rng, intn}

  unfoldable pub validator_seed : ℕ → ℕ → Bytes
  validator_seed chain_id i = elim (get_elem? hardcoded_validator_seeds i) [
    | some s ↦ hex_decode (ascii s)
    | none ↦ hash_bytes rt (Part.text "validator-seed" ∷ Part.num chain_id ∷ Part.num i ∷ [])
  ]

  unfoldable pub build_validator : ℕ → ℕ → Rng → Validator × Rng
  build_validator chain_id i rng =
      let key = cn.public_key (validator_seed chain_id i) in
      let (stake, rng1) = intn 50_000 rng in
      let (d, rng2) = intn 2 rng1 in
      let (c, rng3) = intn 2 rng2 in
      (
        record {
          address = cn.address key;
          public_key = key;
          net_address =
              ascii "127.0.0.1:" ++ print_int (pos (26650 + i) +ℤ of_bits (mul64 chain_id 10));
          staked_amount = add64 (add64 2_000_000 (mul64 i 100_000)) stake;
          committees = chain_id ∷ [];
          max_paused_height = 0;
          unstaking_height = 0;
          output = cn.address key;
          delegate = d == 0;
          compound = c == 0;
        },
        rng3,
      )

  -- count rounds of the loop of buildValidators, from i
  unfoldable pub build_validators : ℕ → ℕ → ℕ → Rng → List Validator × Rng
  build_validators chain_id zero i rng = ([], rng)
  build_validators chain_id (suc n) i rng =
      let (v, rng1) = build_validator chain_id i rng in
      let (vs, rng2) = build_validators chain_id n (i + 1) rng1 in (v ∷ vs, rng2)

  -- count rounds of the loop of buildAccounts, from i
  unfoldable pub build_accounts : List Validator → ℕ → ℕ → Rng → List Account × Rng
  build_accounts validators zero i rng = ([], rng)
  build_accounts validators (suc n) i rng =
      let addr : Bytes = elim (get_elem? validators i) [
        | some v ↦ v.address
        | none ↦ take cn.address_size (hash_bytes rt (Part.text "account-addr" ∷ Part.num i ∷ []))
      ] in
      let (a, rng1) = intn 50_000 rng in
      let (accounts, rng2) = build_accounts validators n (i + 1) rng1 in
      (
        record { address = addr; amount = add64 (add64 1_000_000 (mul64 i 100_000)) a } ∷ accounts,
        rng2,
      )

  unfoldable pub build_pools : List Account → ℕ → Rng → Result (List Pool × Rng)
  build_pools accounts chain_id rng = do
    let (a, rng1) = intn 500_000 rng
    let (b, rng2) = intn 200_000 rng1
    let (c, rng3) = intn 300_000 rng2
    first ← index accounts 0
    ok (
      record { id = chain_id; amount = add64 5_000_000 a; points = []; total_pool_points = 0 }
          ∷ record {
            id = add64 chain_id cn.holding_pool_addend;
            amount = add64 2_000_000 b;
            points = [];
            total_pool_points = 0;
          }
          ∷ record {
            id = add64 chain_id cn.liquidity_pool_addend;
            amount = add64 3_000_000 c;
            points = record { address = first.address; points = 100 } ∷ [];
            total_pool_points = 100;
          }
          ∷ [],
      rng3,
    )

  unfoldable pub build_order_books : List Validator → ℕ → Result OrderBooks
  build_order_books validators chain_id = do
    v ← index validators 0
    w ← index validators 1
    let sell : SellOrder = record {
      id = hash_bytes rt (Part.text "order-1" ∷ []);
      committee = chain_id;
      extra = ascii "swap CNPY for sidechain asset";
      amount_for_sale = 50_000;
      requested_amount = 1_000;
      seller_receive_address = v.address;
      buyer_send_address = w.address;
      buyer_receive_address = w.address;
      buyer_chain_deadline = 500;
      sellers_send_address = v.address;
    }
    let buy : SellOrder = record {
      id = hash_bytes rt (Part.text "order-2" ∷ []);
      committee = 2;
      extra = ascii "swap sidechain for CNPY";
      amount_for_sale = 75_000;
      requested_amount = 2_500;
      seller_receive_address = w.address;
      buyer_send_address = v.address;
      buyer_receive_address = v.address;
      buyer_chain_deadline = 700;
      sellers_send_address = w.address;
    }
    ok (record {
      order_books =
          some (record { chain_id = chain_id; orders = some sell ∷ [] })
          ∷ some (record { chain_id = 2; orders = some buy ∷ [] })
          ∷ [];
    })
