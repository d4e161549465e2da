-- ===== src/Server/Serving.antt =====
-- The command serves every chain: no address is taken by an earlier one, and no chain panics.
use canopy_rpc_mock.Base.{
  ℕ, zero, suc, ◌+◌, ◌≤◌, ◌<◌, ◌≡◌, refl, sym, ap, ◌∙◌, some, true, List, [], ◌∷◌, ◌++◌,
  append_assoc, arith, length, get_elem?, ok, ◌>>=◌, Returns, add64, pos, +ℤ-pos, ◌+ℤ◌,
}
use native.Mathlib.Decide.{dec_lt}
use canopy_rpc_mock.Gen.Runtime.{Runtime}
use canopy_rpc_mock.Gen.Profile.{profile_for_chain}
use canopy_rpc_mock.Gen.TxGen.{tx_count_at}
use canopy_rpc_mock.Gen.EventGen.{event_count_at}
use canopy_rpc_mock.Chain.Canopy.{Canopy}
use canopy_rpc_mock.Chain.MockChain.{MockChain}
use canopy_rpc_mock.Chain.New.{new_mock_chain}
use canopy_rpc_mock.Chain.New.Complete.{new_mock_chain-Returns}
use canopy_rpc_mock.Server.{
  Address, Net, Server, Flags, port_address, listening, new_server, start_server, chain_opts,
  serve_chains, run_main,
}
use canopy_rpc_mock.Server.Addresses.{IsFree, listening-append, first_ports, first_ports-IsFree}

-- The system lets the process listen on the n ports from p on, where it does not yet.
pub record HasPorts (net : Net) (p n : ℕ) : Type 0 where
  pub grants :
      (k : ℕ) (taken : List Address)
      → k < n
      → IsFree (port_address (pos (p + k))) taken
      → net.listen taken (port_address (pos (p + k))) ≡ true

append_nil {ℓ} : {A : Type ℓ} (xs : List A) → xs ++ [] ≡ xs
append_nil [] = refl
append_nil (x ∷ xs) = ap (λ ys. x ∷ ys) (append_nil xs)

module _ (rt : Runtime) (cn : Canopy) (net : Net) (fuel : ℕ) (flags : Flags) (p total : ℕ)
    (port : flags.start_port ≡ pos p) (range : p + total ≤ 65536) (has : HasPorts net p total)
    (chain : ℕ → MockChain)
    (made : (k : ℕ)
      → k < total
      → new_mock_chain rt cn fuel flags.block_count (add64 flags.start_chain_id k) []
        ≡ ok (chain k)) where
  -- The server of the k-th chain.
  server_at : ℕ → Server
  server_at k = record { chain = chain k; address = some (port_address (pos (p + k))) }

  servers_from : ℕ → ℕ → List Server
  servers_from zero i = []
  servers_from (suc n) i = server_at i ∷ servers_from n (suc i)

  length-servers_from : (n i : ℕ) → length (servers_from n i) ≡ n
  unfolding servers_from
  length-servers_from zero i = refl
  length-servers_from (suc n) i = ap suc (length-servers_from n (suc i))

  get_elem?-servers_from :
      (n i k : ℕ) → k < n → get_elem? (servers_from n i) k ≡ some (server_at (i + k))
  unfolding servers_from
  get_elem?-servers_from zero i k h = absurd (omega arith)
  get_elem?-servers_from (suc n) i zero h = ap (λ j. some (server_at j)) (omega arith)
  get_elem?-servers_from (suc n) i (suc k) h =
      get_elem?-servers_from n (suc i) k (omega arith) ∙ ap (λ j. some (server_at j)) (omega arith)

  start_server_lem :
      (taken : List Address) (n : ℕ) (mc : MockChain)
      → net.listen taken (port_address (pos n)) ≡ true
      → start_server net taken (port_address (pos n)) mc
        ≡ ok (record { chain = mc; address = some (port_address (pos n)) })
  unfolding start_server
  start_server_lem taken n mc e = rw e (ground arith)

  new_server_lem :
      (k : ℕ) (taken : List Address) (a : Address)
      → k < total
      → new_server rt cn net fuel taken
          (add64 flags.start_chain_id k)
          ((λ c. record c { num_blocks = flags.block_count }) ∷ (λ c. record c { addr = a }) ∷ [])
        ≡ start_server net taken a (chain k)
  unfolding new_server chain_opts
  new_server_lem k taken a low = rw (made k low)

  -- One round of the loop.
  new_server_here :
      (i : ℕ) (servers : List Server)
      → listening servers ≡ first_ports p i
      → i < total
      → new_server rt cn net fuel (listening servers) (add64 flags.start_chain_id i) (
          (λ c. record c { num_blocks = flags.block_count })
          ∷ (λ c. record c { addr = port_address (flags.start_port +ℤ pos i) })
          ∷ [])
        ≡ ok (server_at i)
  unfolding server_at
  new_server_here i servers at low =
      let start = λ (taken : List Address) (a : Address). start_server net taken a (chain i) in
      let same : flags.start_port +ℤ pos i ≡ pos (p + i) =
        ap (λ z. z +ℤ pos i) port ∙ +ℤ-pos p i (omega arith) in
      new_server_lem i (listening servers) (port_address (flags.start_port +ℤ pos i)) low
      ∙ ap (λ z. start (listening servers) (port_address z)) same
      ∙ ap (λ taken. start taken (port_address (pos (p + i)))) at
      ∙ start_server_lem (first_ports p i) (p + i) (chain i)
          (has.grants i (first_ports p i) low (first_ports-IsFree p i i (omega arith)))

  serve_chains_lem :
      (n i : ℕ) (servers : List Server)
      → listening servers ≡ first_ports p i
      → i + n ≤ total
      → serve_chains rt cn net fuel flags n i servers ≡ ok (servers ++ servers_from n i)
  unfolding serve_chains servers_from server_at first_ports
  serve_chains_lem zero i servers at within = ap ok (sym (append_nil servers))
  serve_chains_lem (suc n) i servers at within =
      ap (λ m. m >>= (λ srv. serve_chains rt cn net fuel flags n (suc i) (servers ++ srv ∷ [])))
        (new_server_here i servers at (omega arith))
      ∙ serve_chains_lem n (suc i) (servers ++ server_at i ∷ [])
          (listening-append servers (chain i) (port_address (pos (p + i)))
            ∙ ap (λ l. l ++ port_address (pos (p + i)) ∷ []) at)
          (omega arith)
      ∙ ap ok (append_assoc servers (server_at i ∷ []) (servers_from n (suc i)))

  run_main_lem :
      flags.num_chains ≡ pos total → run_main rt cn net fuel flags ≡ ok (servers_from total 0)
  unfolding run_main first_ports serve_chains servers_from server_at
  run_main_lem chains = rw chains (serve_chains_lem total 0 [] refl (omega arith))

module _ (rt : Runtime) (cn : Canopy) (net : Net) (fuel : ℕ) (flags : Flags) (n p : ℕ)
    (chains : flags.num_chains ≡ pos n) (port : flags.start_port ≡ pos p) (range : p + n ≤ 65536)
    (has : HasPorts net p n)
    (txs : (j h : ℕ)
      → j < n
      → let id = add64 flags.start_chain_id j in
        Returns (tx_count_at rt fuel id (profile_for_chain id) h))
    (events : (j h : ℕ)
      → j < n
      → let id = add64 flags.start_chain_id j in
        Returns (event_count_at rt fuel id (profile_for_chain id) h)) where
  chain_made :
      (j : ℕ)
      → j < n
      → Returns (new_mock_chain rt cn fuel flags.block_count (add64 flags.start_chain_id j) [])
  chain_made j low =
      new_mock_chain-Returns rt cn fuel (add64 flags.start_chain_id j) flags.block_count []
        (omega arith) (λ h. txs j h low) (λ h. events j h low)

  -- The chain of a round, and the one of round k where there is no such round.
  chain_by : (k : ℕ) → k < n → (j : ℕ) → Dec (j < n) → MockChain
  chain_by k low j (yes h) = (chain_made j h).0
  chain_by k low j (no h) = (chain_made k low).0

  chain_by-made :
      (k : ℕ) (low : k < n) (j : ℕ) (d : Dec (j < n))
      → j < n
      → new_mock_chain rt cn fuel flags.block_count (add64 flags.start_chain_id j) []
        ≡ ok (chain_by k low j d)
  unfolding chain_by
  chain_by-made k low j (yes h) here = (chain_made j h).1
  chain_by-made k low j (no h) here = absurd (h here)

  -- Where the flags ask for n chains from port p on, with p + n ≤ 65536, and the system lets the
  -- process listen on each of these ports once, main starts n servers without a panic, if no count of
  -- transactions or events of these chains runs out of fuel. For every k < n the k-th server has the
  -- chain that newMockChain returns for the flags' blocks and the k-th chain identifier in uint64
  -- arithmetic, and listens on port p + k.
  pub run_main_serves :
      (k : ℕ)
      → k < n
      → (servers : List Server) × (srv : Server) × (run_main rt cn net fuel flags ≡ ok servers)
        × (length servers ≡ n)
        × (get_elem? servers k ≡ some srv)
        × (new_mock_chain rt cn fuel flags.block_count (add64 flags.start_chain_id k) []
            ≡ ok srv.chain)
        × (srv.address ≡ some (port_address (pos (p + k))))
  unfolding server_at
  run_main_serves k low =
      let chain = λ (j : ℕ). chain_by k low j (dec_lt j n) in
      let made = λ (j : ℕ). chain_by-made k low j (dec_lt j n) in
      (
        servers_from rt cn net fuel flags p n port range has chain made n 0,
        server_at rt cn net fuel flags p n port range has chain made k,
        run_main_lem rt cn net fuel flags p n port range has chain made chains,
        length-servers_from rt cn net fuel flags p n port range has chain made n 0,
        get_elem?-servers_from rt cn net fuel flags p n port range has chain made n 0 k low
            ∙ ap (λ j. some (server_at rt cn net fuel flags p n port range has chain made j))
                (omega arith),
        made k low,
        refl,
      )
