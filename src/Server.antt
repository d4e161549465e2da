-- ===== src/Server.antt =====
-- The server and the command: the options and New of mockserver/server.go, and main of main.go. The
-- listeners are those of the parameter Net; what net/http does with them is not modelled.
pub mod Options
pub mod Addresses
pub mod Serving
use canopy_rpc_mock.Base.{
  ℕ, zero, suc, ◌+◌, Bool, true, false, Option, none, some, List, [], ◌∷◌, ◌++◌, if◌then◌else◌,
  ◌==◌, length, Result, ok, fault, cap_out_of_range, listen_failed, ◌>>=◌, add64, ℤ, pos, negsuc,
  ◌+ℤ◌, is_positive,
}
use canopy_rpc_mock.Gen.Runtime.{Runtime}
use canopy_rpc_mock.Gen.Profile.{Profile}
use canopy_rpc_mock.Gen.Hash.{decimal}
use canopy_rpc_mock.Chain.Canopy.{Canopy}
use canopy_rpc_mock.Chain.MockChain.{MockChain}
use canopy_rpc_mock.Chain.New as New
use canopy_rpc_mock.Chain.New.{ChainOption, new_mock_chain}

-- A text by its bytes.
abbrev pub Address : Type 0
Address = List ℕ

-- Whether net.Listen("tcp", addr) succeeds while the process listens on some addresses.
pub record Net : Type 0 where
  pub listen : List Address → Address → Bool

pub record ServerConfig : Type 0 where
  pub num_blocks : ℤ
  pub addr : Address
  pub profile : Option Profile
  pub seed : Option ℤ
  pub validator_count : ℤ
  pub account_count : ℤ

-- type Option func(*serverConfig)
abbrev pub ServerOption : Type 0
ServerOption = ServerConfig → ServerConfig

abbrev pub with_blocks : ℤ → ServerOption
with_blocks n c = record c { num_blocks = n }

abbrev pub with_addr : Address → ServerOption
with_addr addr c = record c { addr = addr }

abbrev pub with_profile : Profile → ServerOption
with_profile p c = record c { profile = some p }

abbrev pub with_seed : ℤ → ServerOption
with_seed seed c = record c { seed = some seed }

abbrev pub with_validator_count : ℤ → ServerOption
with_validator_count n c = record c { validator_count = n }

abbrev pub with_account_count : ℤ → ServerOption
with_account_count n c = record c { account_count = n }

abbrev pub default_server_config : ServerConfig
default_server_config = record {
  num_blocks = pos 50;
  addr = [];
  profile = none;
  seed = none;
  validator_count = pos 0;
  account_count = pos 0;
}

-- the loop of New over its options
abbrev pub configure : List ServerOption → ServerConfig → ServerConfig
configure [] cfg = cfg
configure (o ∷ opts) cfg = configure opts (o cfg)

-- One append of New, under its guard: a pointer that is not nil, or a count above 0.
abbrev pub when_given {ℓ} : {A : Type ℓ} → (A → ChainOption) → Option A → List ChainOption
when_given option (some x) = option x ∷ []
when_given option none = []

abbrev pub when : Bool → ChainOption → List ChainOption
when test option = if test then option ∷ [] else []

-- The four appends of New.
unfoldable pub chain_opts : ServerConfig → List ChainOption
chain_opts cfg =
    when_given New.with_profile cfg.profile
    ++ (when_given New.with_seed cfg.seed
        ++ (when (is_positive cfg.validator_count) (New.with_validator_count cfg.validator_count)
            ++ when (is_positive cfg.account_count) (New.with_account_count cfg.account_count)))

-- A started server; with no address it has the ephemeral one of httptest.
pub record Server : Type 0 where
  pub chain : MockChain
  pub address : Option Address

-- the rest of New once the routes are registered: it panics where net.Listen fails
unfoldable pub start_server : Net → List Address → Address → MockChain → Result Server
start_server net taken addr mc =
    if length addr == 0
    then ok (record { chain = mc; address = none })
    else if net.listen taken addr
    then ok (record { chain = mc; address = some addr })
    else fault listen_failed

-- The flags of the command.
pub record Flags : Type 0 where
  pub block_count : ℤ
  pub num_chains : ℤ
  pub start_port : ℤ
  pub start_chain_id : ℕ

abbrev pub default_flags : Flags
default_flags = record {
  block_count = pos 50;
  num_chains = pos 3;
  start_port = pos 60000;
  start_chain_id = 1;
}

-- fmt.Sprintf(":%d", n)
abbrev pub port_address : ℤ → Address
port_address (pos n) = b':' ∷ decimal n
port_address (negsuc n) = b':' ∷ b'-' ∷ decimal (suc n)

-- The addresses that servers listen on.
abbrev pub listen_on : Option Address → List Address → List Address
listen_on none taken = taken
listen_on (some addr) taken = addr ∷ taken

abbrev pub listening : List Server → List Address
listening [] = []
listening (srv ∷ servers) = listen_on srv.address (listening servers)

module _ (rt : Runtime) (cn : Canopy) (net : Net) (fuel : ℕ) where
  -- New, in a process that listens on some addresses already
  unfoldable pub new_server : List Address → ℕ → List ServerOption → Result Server
  new_server taken chain_id opts = do
    let cfg = configure opts default_server_config
    mc ← new_mock_chain rt cn fuel cfg.num_blocks chain_id (chain_opts cfg)
    start_server net taken cfg.addr mc

  module _ (flags : Flags) where
    -- n rounds of main's loop, from i on
    unfoldable pub serve_chains : ℕ → ℕ → List Server → Result (List Server)
    serve_chains zero i servers = ok servers
    serve_chains (suc n) i servers = do
      let addr = port_address (flags.start_port +ℤ pos i)
      srv ←
          new_server (listening servers) (add64 flags.start_chain_id i)
            (with_blocks flags.block_count ∷ with_addr addr ∷ [])
      serve_chains n (suc i) (servers ++ srv ∷ [])

    -- main after its flags are parsed, up to the wait that never ends: make panics for a negative
    -- number of chains
    unfoldable pub run_main : Result (List Server)
    run_main = elim flags.num_chains [
      | pos n ↦ serve_chains n 0 []
      | negsuc n ↦ fault cap_out_of_range
    ]
