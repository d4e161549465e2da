-- ===== src/Base/Results.antt =====
-- Code that can panic: a value, or the fault that stops it. The last fault is the model's: a
-- sampling loop of the source that has no bound is given fuel here.
use Prim.Native.Nat.{ℕ, zero, suc, ◌+◌, ◌<◌}
use mathlib.Core.Path.{◌≡◌, refl, sym, subst}
use mathlib.Core.List.{List, [], ◌∷◌}
use native.Mathlib.Omega.{arith}
use canopy_rpc_mock.Base.Lists.{length}

pub data Fault : Type 0 where
  index_out_of_range slice_out_of_range divide_by_zero nil_dereference : Fault
  cap_out_of_range listen_failed out_of_fuel : Fault

pub data Result {ℓ} (A : Type ℓ) : Type ℓ where
  fault : Fault → Result A
  ok : A → Result A

-- A panic ends the code that follows it.
infixl 5 ◌>>=◌
abbrev pub ◌>>=◌ {ℓ κ} : {A : Type ℓ} {B : Type κ} → Result A → (A → Result B) → Result B
fault why >>= next = fault why
ok x >>= next = next x

-- The code gives a value.
abbrev pub Returns {ℓ} : {A : Type ℓ} → Result A → Type ℓ
Returns {A = A} r = (a : A) × (r ≡ ok a)

pub ok-injective {ℓ} : {A : Type ℓ} {a b : A} → ok a ≡ ok b → a ≡ b
ok-injective e = cc

-- A chain that gives a value gave one at its first step.
pub bind-eq-ok {ℓ κ} :
    {A : Type ℓ} {B : Type κ} (first : Result A) (next : A → Result B) {y : B}
    → (first >>= next) ≡ ok y
    → (x : A) × (first ≡ ok x) × (next x ≡ ok y)
bind-eq-ok (fault why) next e = cc
bind-eq-ok (ok x) next e = (x, refl, e)

module _ {ℓ} {A : Type ℓ} where
  -- `xs[i]`
  abbrev pub index : List A → ℕ → Result A
  index [] i = fault index_out_of_range
  index (x ∷ xs) zero = ok x
  index (x ∷ xs) (suc i) = index xs i

  -- `for i := start; i < start + n; i++ { out = append(out, f(i)) }`
  abbrev pub collect : ℕ → ℕ → (ℕ → Result A) → Result (List A)
  collect zero i f = ok []
  collect (suc n) i f = do x ← f i; xs ← collect n (i + 1) f; ok (x ∷ xs)

  pub index-Returns : (xs : List A) (i : ℕ) → i < length xs → Returns (index xs i)
  index-Returns [] i h = elim h [ ]
  index-Returns (x ∷ xs) zero h = (x, refl)
  index-Returns (x ∷ xs) (suc i) h = index-Returns xs i (omega arith)

  pub collect-Returns :
      (n i : ℕ) (f : ℕ → Result A) → ((j : ℕ) → Returns (f j)) → Returns (collect n i f)
  collect-Returns zero i f h = ([], refl)
  collect-Returns (suc n) i f h =
      let (x, e) = h i in let (xs, es) = collect-Returns n (i + 1) f h in (x ∷ xs, ground arith)

pub bind-Returns {ℓ κ} :
    {A : Type ℓ} {B : Type κ} (m : Result A) (f : A → Result B)
    → Returns m
    → ((a : A) → m ≡ ok a → Returns (f a))
    → Returns (m >>= f)
bind-Returns m f (a, e) h = subst (λ r. Returns (r >>= f)) (sym e) (h a e)
