-- ===== src/Chain/OrderId.antt =====
-- orderIDFromTxHash of chain/mock_state.go, and orderIDFromTxHashString and addressBytes of
-- chain/mock_data.go.
use canopy_rpc_mock.Base.{
  ℕ, ◌+◌, ◌-◌, ◌*◌, ◌/◌, ◌%◌, ◌<◌, ◌≡◌, refl, ap, String, Option, none, some, [], ◌∷◌, arith, ltb,
  ◌==◌, ◌&&◌, leb, if◌then◌else◌, length, take,
}
use canopy_rpc_mock.Gen.Runtime.{Runtime}
use canopy_rpc_mock.Gen.Hash.{Part, hash_bytes}
use canopy_rpc_mock.Chain.Types.{Bytes}
use canopy_rpc_mock.Chain.Governance.{hex_digit, hex_encode}

-- The value of a hex digit of either case.
unfoldable pub hex_value : ℕ → Option ℕ
hex_value c =
    if leb b'0' c && leb c b'9'
    then some (c - b'0')
    else if leb b'a' c && leb c b'f'
    then some (c - b'a' + 10)
    else if leb b'A' c && leb c b'F'
    then some (c - b'A' + 10)
    else none

abbrev pub hex_pair : Option ℕ → Option ℕ → Option Bytes → Option Bytes
hex_pair (some h) (some l) (some bs) = some ((h * 16 + l) ∷ bs)
hex_pair _ _ _ = none

-- hex.DecodeString; none is its error
unfoldable pub hex_decode_string : Bytes → Option Bytes
hex_decode_string [] = some []
hex_decode_string (c ∷ []) = none
hex_decode_string (c ∷ d ∷ cs) = hex_pair (hex_value c) (hex_value d) (hex_decode_string cs)

unfoldable pub order_id_from_tx_hash : Bytes → Bytes
order_id_from_tx_hash tx_hash = if ltb (length tx_hash) 20 then tx_hash else take 20 tx_hash

-- A nil slice is an empty one.
unfoldable pub order_id_from_tx_hash_string : Bytes → Bytes
order_id_from_tx_hash_string tx_hash =
    if length tx_hash == 0 then [] else elim (hex_decode_string tx_hash) [
      | some hash_bytes ↦ order_id_from_tx_hash hash_bytes
      | none ↦ []
    ]

module _ (rt : Runtime) where
  -- gen.HashBytes(label)[:20], where the hash has 32 bytes
  unfoldable pub address_bytes : String → Bytes
  address_bytes label = take 20 (hash_bytes rt (Part.text label ∷ []))

-- Every entry is the value of a byte.
abbrev pub AreBytes : Bytes → Type 0
AreBytes [] = Unit {0}
AreBytes (b ∷ bs) = (b < 256) × AreBytes bs

hex_value-hex_digit : (n : ℕ) → n < 16 → hex_value (hex_digit n) ≡ some n
unfolding hex_value hex_digit
hex_value-hex_digit n h = ground arith

hex_decode_string-hex_encode :
    (bs : Bytes) → AreBytes bs → hex_decode_string (hex_encode bs) ≡ some bs
unfolding hex_decode_string hex_encode
hex_decode_string-hex_encode [] h = refl
hex_decode_string-hex_encode (b ∷ bs) (low, rest) =
    rw
      (
        hex_value-hex_digit (b / 16) (omega arith),
        hex_value-hex_digit (b % 16) (omega arith),
        hex_decode_string-hex_encode bs rest,
      )
      (ap (λ n. some (n ∷ bs)) (omega arith))

-- The order identifier that is read from a transaction hash in hex is the one of the hash itself.
pub order_id_from_tx_hash_string-hex_encode :
    (tx_hash : Bytes)
    → AreBytes tx_hash
    → order_id_from_tx_hash_string (hex_encode tx_hash) ≡ order_id_from_tx_hash tx_hash
unfolding order_id_from_tx_hash_string order_id_from_tx_hash hex_encode
order_id_from_tx_hash_string-hex_encode [] h = refl
order_id_from_tx_hash_string-hex_encode (b ∷ bs) h =
    rw (hex_decode_string-hex_encode (b ∷ bs) h) (ground arith)
