-- ===== src/Chain/MockState/Blocks.antt =====
-- beginBlock and buildEvent of chain/mock_state.go.
use canopy_rpc_mock.Base.{
  ℕ, ◌+◌, ◌%◌, String, none, List, [], ◌∷◌, ◌==◌, if◌then◌else◌, Result, ok, index, ◌>>=◌, add64,
  sub64,
}
use canopy_rpc_mock.Gen.Runtime.{Runtime}
use canopy_rpc_mock.Chain.Types.{Bytes, Event, EventMsg, QuorumCertificate}
use canopy_rpc_mock.Chain.Canopy.{Canopy}
use canopy_rpc_mock.Chain.Blocks.{block_hash, mock_network_id}
use canopy_rpc_mock.Chain.MockState.{
  MockState, ValidatorInfo, validators_ordered, add_events, update_pool,
}

module _ (rt : Runtime) (cn : Canopy) where
  -- Every message that is passed is one that the switch keeps.
  unfoldable pub build_event : String → EventMsg → ℕ → ℕ → Bytes → String → List Event
  build_event typ msg height chain_id addr reference =
      record {
        event_type = typ;
        msg = msg;
        height = height;
        reference = reference;
        chain_id = chain_id;
        block_height = height;
        block_hash = block_hash rt height;
        address = addr;
      }
      ∷ []

  -- beginBlock up to the non-signers
  unfoldable pub fund_pool : MockState → ℕ → MockState
  fund_pool s height = record s {
    height = height;
    events = [];
    double_sign = [];
    pools = update_pool 1 (λ pool. record pool { amount = add64 pool.amount 1_000 }) s.pools;
  }

  unfoldable pub track_non_signers : MockState → ℕ → List ValidatorInfo → MockState
  track_non_signers s height (v ∷ w ∷ vals) = record s {
    non_signers =
        record { address = v.addr; counter = height % 3 + 1 }
        ∷ record { address = w.addr; counter = height % 2 + 1 }
        ∷ [];
  }
  track_non_signers s height _ = s

  unfoldable pub slash_first : MockState → ℕ → List ValidatorInfo → MockState
  slash_first s height [] = s
  slash_first s height (v ∷ vals) =
      if height % 25 == 0
      then (add_events s [] (
          build_event cn.event_type_slash (EventMsg.slash 100) height s.chain_id v.addr
            "BEGIN_BLOCK")).0
      else s

  unfoldable pub sign_twice : MockState → ℕ → List ValidatorInfo → MockState
  sign_twice s height (v ∷ w ∷ vals) =
      if height % 30 == 0
      then record s {
        double_sign = record { id = w.addr; heights = sub64 height 1 ∷ height ∷ [] } ∷ [];
      }
      else s
  sign_twice s height _ = s

  -- The certificate names two validators: with fewer, the index panics.
  unfoldable pub begin_block : MockState → ℕ → Result (MockState × QuorumCertificate)
  begin_block s height = do
    let s1 = fund_pool s height
    let vals = validators_ordered s1
    let s2 = sign_twice (slash_first (track_non_signers s1 height vals) height vals) height vals
    v ← index (validators_ordered s2) 0
    w ← index (validators_ordered s2) 1
    ok (
      s2,
      record {
        header = record {
          network_id = mock_network_id;
          chain_id = s2.chain_id;
          height = height;
          root_height = height;
          round = 1;
          phase = cn.phase_precommit_vote;
        };
        results = record {
          payment_percents =
              record { address = v.addr; percent = 60; chain_id = s2.chain_id }
              ∷ record { address = w.addr; percent = 40; chain_id = s2.chain_id }
              ∷ [];
          number_of_samples = height;
          checkpoint_height = height;
          checkpoint_hash = block_hash rt height;
          dex_batch = none;
          double_signers = [];
        };
        results_hash = [];
        block = [];
        block_hash = block_hash rt height;
        proposer_key = [];
        signature = [];
        bitmap = [];
      },
    )
