-- ===== src/Gen/Hash.antt =====
-- The hash helpers of gen/distributions.go: HashBytes, HeightSeed, AddrHeightSeed and
-- PickAccountIndex. The decimal printing of fmt.Sprint is written out, since what collides in
-- HashBytes depends on it.
pub mod Collisions
use Prim.Native.Char.{code}
use mathlib.Core.List.{foldl}
use canopy_rpc_mock.Base.{
  ℕ, zero, suc, ◌+◌, ◌*◌, ◌/◌, ◌%◌, String, Bool, List, [], ◌∷◌, ◌++◌, ltb, if◌then◌else◌, ◌==◌,
  take, Result, ok, fault, divide_by_zero,
}
use canopy_rpc_mock.Gen.Runtime.{Runtime}

-- The arguments of HashBytes(parts ...any): strings, integers, byte slices and Booleans.
pub data Part : Type 0 where
  text : String → Part
  num : ℕ → Part
  bytes : List ℕ → Part
  flag : Bool → Part

abbrev pub ascii : String → List ℕ
ascii String.[] = []
ascii (String.◌∷◌ c s) = code c ∷ ascii s

-- The digits of n < fuel.
unfoldable pub decimal_from : ℕ → ℕ → List ℕ
decimal_from zero n = []
decimal_from (suc fuel) n =
    let rest = decimal_from fuel (n / 10) in
    if ltb n 10 then (48 + n) ∷ [] else rest ++ (48 + n % 10) ∷ []

unfoldable pub decimal : ℕ → List ℕ
unfolding decimal_from
decimal n = decimal_from (suc n) n

spaced : List ℕ → List ℕ
unfolding decimal
spaced [] = []
spaced (b ∷ []) = decimal b
spaced (b ∷ c ∷ bs) = decimal b ++ 32 ∷ spaced (c ∷ bs)

-- fmt.Sprint(p)
unfoldable pub sprint : Part → List ℕ
unfolding spaced
sprint (Part.text s) = ascii s
sprint (Part.num n) = decimal n
sprint (Part.bytes bs) = 91 ∷ (spaced bs ++ 93 ∷ [])
sprint (Part.flag b) = if b then ascii "true" else ascii "false"

-- h.Write of each printed part, one after the other
unfoldable pub written : List Part → List ℕ
written [] = []
written (p ∷ ps) = sprint p ++ written ps

unfoldable pub be_uint64 : List ℕ → ℕ
be_uint64 = foldl (λ acc b. acc * 256 + b) 0

-- int(seed % uint64(n)); Go panics at n = 0.
unfoldable pub pick_account_index : ℕ → ℕ → Result ℕ
pick_account_index seed n = if n == 0 then fault divide_by_zero else ok (seed % n)

module _ (rt : Runtime) where
  open rt use {sha256, Rng, new_source}

  unfoldable pub hash_bytes : List Part → List ℕ
  hash_bytes parts = sha256 (written parts)

  unfoldable pub height_seed : ℕ → ℕ → ℕ
  height_seed base_seed height =
      be_uint64 (take 8 (hash_bytes (Part.num base_seed ∷ Part.num height ∷ [])))

  unfoldable pub addr_height_seed : List ℕ → ℕ → ℕ
  addr_height_seed addr height =
      be_uint64 (take 8 (hash_bytes (Part.bytes addr ∷ Part.num height ∷ [])))

  unfoldable pub rng_for_height : ℕ → ℕ → Rng
  rng_for_height base_seed height = new_source (height_seed base_seed height)

  unfoldable pub rng_for_addr_height : List ℕ → ℕ → Rng
  rng_for_addr_height addr height = new_source (addr_height_seed addr height)
