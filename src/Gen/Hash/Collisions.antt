-- ===== src/Gen/Hash/Collisions.antt =====
-- HashBytes writes its parts with nothing between them, so two lists of numbers with the same
-- digits in a row have one hash.
use canopy_rpc_mock.Base.{
  ℕ, zero, suc, ◌+◌, ◌*◌, ◌/◌, ◌%◌, ◌≤◌, ◌<◌, ◌≡◌, sym, ap, ◌∙◌, List, [], ◌∷◌, ◌++◌, append_assoc,
  take, arith,
}
use canopy_rpc_mock.Gen.Runtime.{Runtime}
use canopy_rpc_mock.Gen.Hash.{
  Part, decimal_from, decimal, sprint, written, be_uint64, hash_bytes, height_seed,
}

decimal_from_fuel : (f g n : ℕ) → n < f → n < g → decimal_from f n ≡ decimal_from g n
unfolding decimal_from
decimal_from_fuel zero g n p q = elim p [ ]
decimal_from_fuel (suc f) zero n p q = elim q [ ]
decimal_from_fuel (suc f) (suc g) n p q = ground (arith, decimal_from_fuel f g (n / 10))

pub decimal-digit : (d : ℕ) → d < 10 → decimal d ≡ (48 + d) ∷ []
unfolding decimal
decimal-digit d h = ground arith

-- A number with one more digit prints as the number, then the digit.
pub decimal-snoc : (n d : ℕ) → 1 ≤ n → d < 10 → decimal (10 * n + d) ≡ decimal n ++ (48 + d) ∷ []
unfolding decimal
decimal-snoc n d h k =
    let q : (10 * n + d) / 10 ≡ n = omega arith in
    let r : (10 * n + d) % 10 ≡ d = omega arith in
    ground (arith, q, r, decimal_from_fuel (10 * n + d) (suc n) n (omega arith) (omega arith))

-- Moving the first of two digits over to the number before it changes nothing in print.
pub decimal-shift :
    (n a b : ℕ)
    → 1 ≤ n
    → 1 ≤ a
    → a < 10
    → b < 10
    → decimal n ++ decimal (10 * a + b) ≡ decimal (10 * n + a) ++ decimal b
decimal-shift n a b hn ha ka kb =
    rw (decimal-snoc a b ha kb, decimal-snoc n a hn ka, decimal-digit a ka, decimal-digit b kb)
      (sym (append_assoc (decimal n) ((48 + a) ∷ []) ((48 + b) ∷ [])))

-- The same for two numbers in a row, before any other parts.
pub written-shift :
    (n a b : ℕ) (ps : List Part)
    → 1 ≤ n
    → 1 ≤ a
    → a < 10
    → b < 10
    → written (Part.num n ∷ Part.num (10 * a + b) ∷ ps)
      ≡ written (Part.num (10 * n + a) ∷ Part.num b ∷ ps)
unfolding written sprint
written-shift n a b ps hn ha ka kb =
    sym (append_assoc (decimal n) (decimal (10 * a + b)) (written ps))
    ∙ ap (λ ds. ds ++ written ps) (decimal-shift n a b hn ha ka kb)
    ∙ append_assoc (decimal (10 * n + a)) (decimal b) (written ps)

-- For n and a from 1 on and digits a and b, HeightSeed of chain n at height 10a + b is HeightSeed
-- of chain 10n + a at height b.
pub height_seed_collides :
    (rt : Runtime) (n a b : ℕ)
    → 1 ≤ n
    → 1 ≤ a
    → a < 10
    → b < 10
    → height_seed rt n (10 * a + b) ≡ height_seed rt (10 * n + a) b
unfolding height_seed hash_bytes
height_seed_collides rt n a b hn ha ka kb =
    ap (λ bs. be_uint64 (take 8 (rt.sha256 bs))) (written-shift n a b [] hn ha ka kb)
