-- ===== src/Chain/New/Served.antt =====
-- What a chain serves once newMockChain has built it.
use canopy_rpc_mock.Chain.New.{addresses}
use canopy_rpc_mock.Chain.Snapshot.{snapshot_state_at}
use native.Mathlib.Decide.{dec_lt}
use canopy_rpc_mock.Base.{
  ℕ, ◌+◌, ◌-◌, ◌≤◌, ◌<◌, ◌^◌, ◌≡◌, sym, ap, ◌∙◌, ◌↔◌, some, List, [], false, arith, ok, pos,
  some-injective,
}
use canopy_rpc_mock.Base.Dict.{lookup}
use canopy_rpc_mock.Gen.Runtime.{Runtime}
use canopy_rpc_mock.Chain.Types.{BlockResult, QuorumCertificate}
use canopy_rpc_mock.Chain.Canopy.{Canopy}
use canopy_rpc_mock.Chain.MockChain.{
  MockChain, GenesisState, latest_height, block_at, cert_at, state_at, dex_batch_at,
}
use canopy_rpc_mock.Chain.Blocks.{block_hash, generate_dex_batch}
use canopy_rpc_mock.Chain.New.{ChainOption, new_mock_chain}
use canopy_rpc_mock.Chain.New.Built.{IsBuilt}
use canopy_rpc_mock.Chain.New.Heights.{new_mock_chain_parts}

module _ (rt : Runtime) (cn : Canopy) (fuel n chain_id : ℕ) (opts : List ChainOption)
    {mc : MockChain} (bound : n < 2 ^ 63)
    (made : new_mock_chain rt cn fuel (pos n) chain_id opts ≡ ok mc) where
  built : IsBuilt rt cn n mc
  built = (new_mock_chain_parts rt cn fuel n chain_id opts bound made).0

  -- A chain that newMockChain returns for n < 2 ^ 63 blocks has n as its latest height, a block at
  -- exactly the heights 1 to n, and a state at exactly the heights 0 to n.
  pub heights_served :
      (latest_height mc ≡ n)
      × ((h : ℕ) → ((1 ≤ h) × (h ≤ n)) ↔ ((b : BlockResult) × (block_at mc h ≡ some b)))
      × ((h : ℕ) → (h ≤ n) ↔ ((s : GenesisState) × (state_at mc h ≡ some s)))
  unfolding latest_height block_at state_at
  heights_served =
      (built.size, λ h. (block_here h, block_only h), λ h. (state_here h, state_only h))
    where
      block_here : (h : ℕ) → (1 ≤ h) × (h ≤ n) → (b : BlockResult) × (block_at mc h ≡ some b)
      block_here h r = let a = built.at h r.0 r.1 in (a.block, a.at_block)

      block_only : (h : ℕ) → (b : BlockResult) × (block_at mc h ≡ some b) → (1 ≤ h) × (h ≤ n)
      block_only h (b, e) = elim (dec_lt n h) [
        | yes above ↦ cc (built.no_block_above h above)
        | no below ↦ elim (dec_lt 0 h) [
          | yes low ↦ (low, omega arith)
          | no zero_height ↦
              let is_zero : 0 ≡ h = omega arith in
              cc (built.no_genesis_block, ap (λ k. lookup k mc.blocks) is_zero)
        ]
      ]

      state_here : (h : ℕ) → h ≤ n → (s : GenesisState) × (state_at mc h ≡ some s)
      state_here h high = elim (dec_lt 0 h) [
        | yes low ↦ let a = built.at h low high in (a.state, a.at_state)
        | no zero_height ↦
            let (s, e, _) = (new_mock_chain_parts rt cn fuel n chain_id opts bound made).3 in
            let is_zero : h ≡ 0 = omega arith in (s, ap (λ k. lookup k mc.states) is_zero ∙ e)
      ]

      state_only : (h : ℕ) → (s : GenesisState) × (state_at mc h ≡ some s) → h ≤ n
      state_only h (s, e) = elim (dec_lt n h) [
        | yes above ↦ cc (built.no_state_above h above)
        | no below ↦ omega arith
      ]

  -- In a chain that newMockChain returns for fewer than 2 ^ 63 blocks, the block at height h + 1
  -- names the hash of the block at height h as its last block hash, and both blocks carry their
  -- heights.
  pub blocks_linked :
      (h : ℕ) {b b' : BlockResult}
      → block_at mc h ≡ some b
      → block_at mc (h + 1) ≡ some b'
      → (b'.block_header.last_block_hash ≡ b.block_header.hash)
        × (b.block_header.height ≡ h)
        × (b'.block_header.height ≡ h + 1)
  unfolding block_at
  blocks_linked h {b} {b'} e e' =
      let (low, high) = ((heights_served).1 h).1 (b, e) in
      let (low', high') = ((heights_served).1 (h + 1)).1 (b', e') in
      let a = built.at h low high in
      let a' = built.at (h + 1) low' high' in
      let same : a.block ≡ b = some-injective (sym a.at_block ∙ e) in
      let same' : a'.block ≡ b' = some-injective (sym a'.at_block ∙ e') in
      let here : h + 1 - 1 ≡ h = omega arith in
      rw (← same, ← same')
        (a'.last_hash ∙ ap (block_hash rt) here ∙ sym a.hash, a.height, a'.height)

  -- In a chain that newMockChain returns for fewer than 2 ^ 63 blocks, every height with a block
  -- has a certificate, which carries that block's hash and the dex batch that is served for the
  -- height.
  pub certs_match :
      (h : ℕ) {b : BlockResult}
      → block_at mc h ≡ some b
      → (c : QuorumCertificate) × (cert_at mc h ≡ some c)
        × (c.block_hash ≡ b.block_header.hash)
        × (dex_batch_at mc h ≡ some c.results.dex_batch)
  unfolding block_at cert_at dex_batch_at
  certs_match h {b} e =
      let (low, high) = ((heights_served).1 h).1 (b, e) in
      let a = built.at h low high in
      let same : a.block ≡ b = some-injective (sym a.at_block ∙ e) in
      (
        a.cert,
        a.at_cert,
        a.cert_hash ∙ ap (λ (x : BlockResult). x.block_header.hash) same,
        a.at_batch ∙ ap some (sym a.cert_batch),
      )

  -- In a chain that newMockChain returns for n < 2 ^ 63 blocks, every height from 1 to n serves
  -- the dex batch that was generated at height 0.
  pub dex_batch_never_rotates :
      (h : ℕ)
      → 1 ≤ h
      → h ≤ n
      → dex_batch_at mc h ≡ some (some (generate_dex_batch rt mc 0 false [] [] []))
  unfolding dex_batch_at
  dex_batch_never_rotates h low high =
      (built.at h low high).at_batch
      ∙ ap some (new_mock_chain_parts rt cn fuel n chain_id opts bound made).2

  -- In a chain that newMockChain returns for n < 2 ^ 63 blocks, the state served at a height is the
  -- snapshot of the finished chain at that height, for the genesis too, so that no state depends on
  -- the round in which it was taken.
  pub states_are_snapshots :
      (h : ℕ) {s : GenesisState}
      → state_at mc h ≡ some s
      → snapshot_state_at rt mc (addresses mc) h ≡ ok s
  unfolding state_at
  states_are_snapshots h {s} e = elim (dec_lt 0 h) [
    | yes low ↦
        let a = built.at h low (((heights_served).2 h).1 (s, e)) in
        a.snapshot ∙ ap ok (some-injective (sym a.at_state ∙ e))
    | no zero_height ↦
        let (first, e', taken) = (new_mock_chain_parts rt cn fuel n chain_id opts bound made).3 in
        let is_zero : 0 ≡ h = omega arith in
        ap (snapshot_state_at rt mc (addresses mc)) (sym is_zero)
        ∙ taken
        ∙ ap ok (some-injective (sym e' ∙ ap (λ k. lookup k mc.states) is_zero ∙ e))
  ]
