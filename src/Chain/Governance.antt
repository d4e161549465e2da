-- ===== src/Chain/Governance.antt =====
-- buildPoll and buildProposals of chain/mock_data.go.
use canopy_rpc_mock.Base.{
  ℕ, ◌+◌, ◌/◌, ◌%◌, String, Bool, true, List, [], ◌∷◌, ltb, if◌then◌else◌, Result, ok, ◌>>=◌, index,
}
use canopy_rpc_mock.Gen.Runtime.{Runtime}
use canopy_rpc_mock.Gen.Hash.{Part, hash_bytes}
use canopy_rpc_mock.Chain.Types.{Bytes, Validator, text, hex, num, obj, end, field}
use canopy_rpc_mock.Chain.Canopy.{Canopy}

-- fsm.VoteStats
pub record VoteStats : Type 0 where
  pub approve_tokens : ℕ
  pub reject_tokens : ℕ
  pub total_voted_tokens : ℕ
  pub total_tokens : ℕ
  pub approve_percentage : ℕ
  pub reject_percentage : ℕ
  pub voted_percentage : ℕ

-- fsm.PollResult
pub record PollResult : Type 0 where
  pub proposal_hash : Bytes
  pub proposal_url : String
  pub accounts : VoteStats
  pub validators : VoteStats

-- an entry of fsm.GovProposals
pub record GovProposal : Type 0 where
  pub proposal : Bytes
  pub approve : Bool

-- the lower-case hex digit of a nibble
unfoldable pub hex_digit : ℕ → ℕ
hex_digit n = if ltb n 10 then 48 + n else 87 + n

-- hex.EncodeToString
unfoldable pub hex_encode : Bytes → Bytes
unfolding hex_digit
hex_encode [] = []
hex_encode (b ∷ bs) = hex_digit (b / 16) ∷ hex_digit (b % 16) ∷ hex_encode bs

module _ (rt : Runtime) where
  -- The maps of a poll and of the proposals are lists of their entries, by key.
  unfoldable pub build_poll : List (Bytes × PollResult)
  build_poll =
      let key = hex_encode (hash_bytes rt (Part.text "proposal:change-fee" ∷ [])) in
      (
        key,
        record {
          proposal_hash = key;
          proposal_url = "https://example.com/proposals/change-fee";
          accounts = record {
            approve_tokens = 600;
            reject_tokens = 200;
            total_voted_tokens = 800;
            total_tokens = 1000;
            approve_percentage = 60;
            reject_percentage = 20;
            voted_percentage = 80;
          };
          validators = record {
            approve_tokens = 300;
            reject_tokens = 100;
            total_voted_tokens = 400;
            total_tokens = 500;
            approve_percentage = 60;
            reject_percentage = 20;
            voted_percentage = 80;
          };
        },
      )
      ∷ []

  unfoldable pub build_proposals : Canopy → List Validator → Result (List (Bytes × GovProposal))
  build_proposals cn validators = do
    v ← index validators 0
    w ← index validators 1
    let param_proposal = obj (
        field "type" (text "changeParameter") (
          field "msg"
            (obj (
              field "parameterSpace" (text "fee") (
                field "parameterKey" (text "send") (
                  field "parameterValue" (text "15") (
                    field "startHeight" (num 5) (
                      field "endHeight" (num 50)
                        (field "signer" (hex (hex_encode v.address)) end)))))))
            end))
    let dao_proposal = obj (
        field "type" (text "daoTransfer") (
          field "msg"
            (obj (
              field "address" (hex (hex_encode w.address)) (
                field "amount" (num 250_000)
                  (field "startHeight" (num 10) (field "endHeight" (num 100) end)))))
            end))
    ok (
        (
          hex_encode (hash_bytes rt (Part.text "proposal:change-fee" ∷ [])),
          record { proposal = cn.json_marshal param_proposal; approve = true },
        )
        ∷ (
          hex_encode (hash_bytes rt (Part.text "proposal:dao-treasury" ∷ [])),
          record { proposal = cn.json_marshal dao_proposal; approve = true },
        )
        ∷ [])
