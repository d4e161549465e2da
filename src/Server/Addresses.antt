-- ===== src/Server/Addresses.antt =====
-- Different ports have different addresses, since a number can be read back from its decimal digits;
-- so a later port is free where servers listen on the earlier ones.
use canopy_rpc_mock.Base.{
  ◌≢◌, ◌≤◌, Option, some, none, ℕ, zero, suc, ◌+◌, ◌-◌, ◌*◌, ◌/◌, ◌%◌, ◌<◌, ◌≡◌, refl, sym, ap, ◌∙◌,
  List, [], ◌∷◌, ◌++◌, arith, pos,
}
use native.Mathlib.Decide.{dec_lt}
use canopy_rpc_mock.Gen.Hash.{decimal}
use canopy_rpc_mock.Gen.Hash.Collisions.{decimal-digit, decimal-snoc}
use canopy_rpc_mock.Chain.MockChain.{MockChain}
use canopy_rpc_mock.Server.{Address, port_address, listen_on, listening, Server}

-- The number that a row of digits stands for, after what is read already.
number_from : ℕ → List ℕ → ℕ
number_from n [] = n
number_from n (d ∷ ds) = number_from (10 * n + (d - 48)) ds

number_from-append :
    (n : ℕ) (xs ys : List ℕ) → number_from n (xs ++ ys) ≡ number_from (number_from n xs) ys
unfolding number_from
number_from-append n [] ys = refl
number_from-append n (x ∷ xs) ys = number_from-append (10 * n + (x - 48)) xs ys

number_from-decimal : (k n : ℕ) → n < k → number_from 0 (decimal n) ≡ n
unfolding number_from
number_from-decimal zero n h = elim h [ ]
number_from-decimal (suc k) n h = elim (dec_lt n 10) [
  | yes digit ↦ ap (number_from 0) (decimal-digit n digit) ∙ omega arith
  | no longer ↦
      let cut : n ≡ 10 * (n / 10) + n % 10 = omega arith in
      ap (λ m. number_from 0 (decimal m)) cut
      ∙ ap (number_from 0) (decimal-snoc (n / 10) (n % 10) (omega arith) (omega arith))
      ∙ number_from-append 0 (decimal (n / 10)) ((48 + n % 10) ∷ [])
      ∙ ap (λ m. number_from m ((48 + n % 10) ∷ [])) (number_from-decimal k (n / 10) (omega arith))
      ∙ omega arith
]

-- What a port's address says, read back.
port_of : Address → ℕ
port_of [] = 0
port_of (c ∷ ds) = number_from 0 ds

port_of-port_address : (n : ℕ) → port_of (port_address (pos n)) ≡ n
unfolding port_of
port_of-port_address n = number_from-decimal (suc n) n (omega arith)

pub port_address-injective : (m n : ℕ) → port_address (pos m) ≡ port_address (pos n) → m ≡ n
port_address-injective m n e = sym (port_of-port_address m) ∙ ap port_of e ∙ port_of-port_address n

-- An address that no listener of a list has.
abbrev pub IsFree : Address → List Address → Type 0
IsFree addr [] = Unit {0}
IsFree addr (a ∷ taken) = (addr ≢ a) × IsFree addr taken

IsFree-append :
    (addr b : Address) (taken : List Address)
    → addr ≢ b
    → IsFree addr taken
    → IsFree addr (taken ++ b ∷ [])
IsFree-append addr b [] ne free = (ne, tt)
IsFree-append addr b (a ∷ taken) ne (ne', free) = (ne', IsFree-append addr b taken ne free)

listen_on-append :
    (o : Option Address) (taken : List Address) (addr : Address)
    → listen_on o (taken ++ addr ∷ []) ≡ listen_on o taken ++ addr ∷ []
listen_on-append none taken addr = refl
listen_on-append (some a) taken addr = refl

pub listening-append :
    (servers : List Server) (mc : MockChain) (addr : Address)
    → listening (servers ++ record { chain = mc; address = some addr } ∷ [])
      ≡ listening servers ++ addr ∷ []
listening-append [] mc addr = refl
listening-append (srv ∷ servers) mc addr =
    ap (listen_on srv.address) (listening-append servers mc addr)
    ∙ listen_on-append srv.address (listening servers) addr

module _ (p : ℕ) where
  -- The addresses of the first i ports.
  unfoldable pub first_ports : ℕ → List Address
  first_ports zero = []
  first_ports (suc i) = first_ports i ++ port_address (pos (p + i)) ∷ []

  pub first_ports-IsFree : (i k : ℕ) → i ≤ k → IsFree (port_address (pos (p + k))) (first_ports i)
  unfolding first_ports
  first_ports-IsFree zero k h = tt
  first_ports-IsFree (suc i) k h =
      IsFree-append _ _ (first_ports i)
        (λ e. absurd (omega (arith, port_address-injective (p + k) (p + i) e)))
        (first_ports-IsFree i k (omega arith))
