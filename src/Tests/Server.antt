-- ===== src/Tests/Server.antt =====
-- Examples for the server and the command.
use canopy_rpc_mock.Base.{
  ℕ, zero, suc, ◌+◌, ◌<◌, ◌≡◌, refl, arith, true, some, List, [], ◌∷◌, ok, pos, negsuc, length,
  get_elem?, Returns, add64,
}
use canopy_rpc_mock.Gen.Hash.{rng_for_height}
use canopy_rpc_mock.Gen.Profile.{busy, profile_for_chain, params_for_profile}
use canopy_rpc_mock.Gen.Distributions.{sample_poisson, poisson_loop}
use canopy_rpc_mock.Gen.TxGen.{tx_count_at, quiet_tx_count}
use canopy_rpc_mock.Gen.EventGen.{event_count_at}
use canopy_rpc_mock.Chain.New.{new_mock_chain}
use canopy_rpc_mock.Server.{
  ServerConfig, Server, Flags, Net, chain_opts, port_address, run_main, default_flags,
}
use canopy_rpc_mock.Server.Options.{all_of, chain_opts-all_of}
use canopy_rpc_mock.Server.Serving.{HasPorts, run_main_serves}
use canopy_rpc_mock.Tests.{toy, toy_canopy}

-- A seed, and a count of accounts that is below 0.
abbrev seeded_config : ServerConfig
seeded_config = record {
  num_blocks = pos 3;
  addr = [];
  profile = some busy;
  seed = some (negsuc 4);
  validator_count = pos 7;
  account_count = negsuc 0;
}

chain_opts-all_of_example :
    new_mock_chain toy toy_canopy 9 (pos 3) 2 (chain_opts seeded_config)
    ≡ new_mock_chain toy toy_canopy 9 (pos 3) 2 (all_of seeded_config ∷ [])
chain_opts-all_of_example = chain_opts-all_of toy toy_canopy 9 (pos 3) 2 seeded_config

-- Two quiet chains.
abbrev flags : Flags
flags = record default_flags { num_chains = pos 2; start_chain_id = 2 }

abbrev open_net : Net
open_net = record { listen = λ taken addr. true }

open_net-HasPorts : HasPorts open_net 60000 2
open_net-HasPorts = record { grants = λ k taken low free. refl }

txs_counted :
    (j h : ℕ)
    → j < 2
    → let id = add64 2 j in Returns (tx_count_at toy 9 id (profile_for_chain id) h)
unfolding tx_count_at quiet_tx_count sample_poisson poisson_loop rng_for_height params_for_profile
txs_counted zero h low = (2, refl)
txs_counted (suc zero) h low = (2, refl)
txs_counted (suc (suc j)) h low = absurd (omega arith)

events_counted :
    (j h : ℕ)
    → j < 2
    → let id = add64 2 j in Returns (event_count_at toy 9 id (profile_for_chain id) h)
unfolding event_count_at sample_poisson poisson_loop rng_for_height
events_counted zero h low = (2, refl)
events_counted (suc zero) h low = (2, refl)
events_counted (suc (suc j)) h low = absurd (omega arith)

run_main_serves_example :
    (servers : List Server) × (srv : Server) × (run_main toy toy_canopy open_net 9 flags
      ≡ ok servers)
    × (length servers ≡ 2)
    × (get_elem? servers 1 ≡ some srv)
    × (new_mock_chain toy toy_canopy 9 (pos 50) (add64 2 1) [] ≡ ok srv.chain)
    × (srv.address ≡ some (port_address (pos (60000 + 1))))
run_main_serves_example =
    run_main_serves toy toy_canopy open_net 9 flags 2 60000 refl refl (omega arith)
      open_net-HasPorts txs_counted events_counted 1 (omega arith)
