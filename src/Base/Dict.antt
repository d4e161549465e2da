-- ===== src/Base/Dict.antt =====
-- Go's `map[uint64]V` as an association list without repeated keys.
use canopy_rpc_mock.Base.{
  ℕ, suc, ◌≡◌, refl, ◌≢◌, Option, none, some, List, [], ◌∷◌, arith, ◌==◌, if◌then◌else◌, length,
  ==_self, ==_of_ne,
}

-- Each key with its value, in the order in which the keys were first assigned.
abbrev pub Dict {ℓ} : Type ℓ → Type ℓ
Dict V = List (ℕ × V)

module _ {ℓ} {V : Type ℓ} where
  -- `x, ok := m[key]`
  abbrev pub lookup : ℕ → Dict V → Option V
  lookup key [] = none
  lookup key (p ∷ m) = let rest = lookup key m in if key == p.0 then some p.1 else rest

  -- `m[key] = x`
  abbrev pub insert : ℕ → V → Dict V → Dict V
  insert key x [] = (key, x) ∷ []
  insert key x (p ∷ m) = let rest = insert key x m in if key == p.0 then (p.0, x) ∷ m else p ∷ rest

  pub lookup-insert :
      (key new : ℕ) (x : V) (m : Dict V)
      → lookup key (insert new x m) ≡ (if key == new then some x else lookup key m)
  lookup-insert key new x [] = refl
  lookup-insert key new x (p ∷ m) = ground (arith, lookup-insert key new x m)

  pub lookup-insert_self : (key : ℕ) (x : V) (m : Dict V) → lookup key (insert key x m) ≡ some x
  lookup-insert_self key x m = rw (lookup-insert key key x m, ==_self key)

  pub lookup-insert_ne :
      (key new : ℕ) (x : V) (m : Dict V) → key ≢ new → lookup key (insert new x m) ≡ lookup key m
  lookup-insert_ne key new x m h = rw (lookup-insert key new x m, ==_of_ne key new h)

  pub length-insert_new :
      (key : ℕ) (x : V) (m : Dict V)
      → lookup key m ≡ none
      → length (insert key x m) ≡ suc (length m)
  length-insert_new key x [] h = refl
  length-insert_new key x (p ∷ m) h = ground (arith, length-insert_new key x m)
