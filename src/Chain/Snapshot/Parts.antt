-- ===== src/Chain/Snapshot/Parts.antt =====
-- The parts of a snapshot: its accounts against the balances, its validators, and its supply.
use mathlib.Core.Path.{subst}
use canopy_rpc_mock.Base.{
  ℕ, suc, ◌≡◌, refl, ap, some, List, [], ◌∷◌, ok, bind-eq-ok, ok-injective, map, sum64_from, arith,
  length,
}
use canopy_rpc_mock.Gen.Runtime.{Runtime}
use canopy_rpc_mock.Gen.Ledger.{snapshot_balances_at, total_supply_at}
use canopy_rpc_mock.Chain.Types.{Bytes, OrderBooks, Account, Validator, Supply}
use canopy_rpc_mock.Chain.MockChain.{MockChain, GenesisState}
use canopy_rpc_mock.Chain.Snapshot.{zip_accounts, snapshot_state_at}

-- The pointer to the order books is not nil.
abbrev pub HasBooks : GenesisState → Type 0
HasBooks s = (books : OrderBooks) × (s.order_books ≡ some books)

abbrev pub amounts_of : List Account → List ℕ
amounts_of accounts = map (λ (a : Account). a.amount) accounts

abbrev pub stakes_of : List Validator → List ℕ
stakes_of validators = map (λ (v : Validator). v.staked_amount) validators

zip_accounts-amounts :
    (addrs : List Bytes) (balances : List ℕ) {accounts : List Account}
    → length balances ≡ length addrs
    → zip_accounts addrs balances ≡ ok accounts
    → amounts_of accounts ≡ balances
unfolding zip_accounts
zip_accounts-amounts [] [] same e = subst (λ l. amounts_of l ≡ []) (ok-injective e) refl
zip_accounts-amounts [] (v ∷ balances) same e = absurd (omega arith)
zip_accounts-amounts (a ∷ addrs) [] same e = absurd (omega arith)
zip_accounts-amounts (a ∷ addrs) (v ∷ balances) same e =
    let (rest, zipped, e') = bind-eq-ok (zip_accounts addrs balances) _ e in
    subst (λ l. amounts_of l ≡ v ∷ balances) (ok-injective e')
      (ap (λ vs. v ∷ vs) (zip_accounts-amounts addrs balances (omega arith) zipped))

-- What a snapshot of mc over some addresses holds.
pub record IsSnapshot (rt : Runtime) (mc : MockChain) (addrs : List Bytes) (height : ℕ)
    (s : GenesisState) : Type 0 where
  pub books : HasBooks s
  pub amounts : amounts_of s.accounts ≡ snapshot_balances_at rt addrs mc.chain_id height
  pub validators : length s.validators ≡ length mc.validators
  pub pools : s.pools ≡ mc.pools
  pub supply : Supply
  pub has_supply : s.supply ≡ some supply
  pub total : supply.total ≡ total_supply_at rt mc.chain_id height
  pub staked : supply.staked ≡ sum64_from 0 (stakes_of s.validators)

length-map {ℓ κ} :
    {A : Type ℓ} {B : Type κ} (f : A → B) (xs : List A) → length (map f xs) ≡ length xs
length-map f [] = refl
length-map f (x ∷ xs) = ap suc (length-map f xs)

pub length-amounts_of : (accounts : List Account) → length (amounts_of accounts) ≡ length accounts
length-amounts_of accounts = length-map _ accounts

pub snapshot_state_at-IsSnapshot :
    (rt : Runtime) (mc : MockChain) (addrs : List Bytes) (height : ℕ) {s : GenesisState}
    → length (snapshot_balances_at rt addrs mc.chain_id height) ≡ length addrs
    → snapshot_state_at rt mc addrs height ≡ ok s
    → IsSnapshot rt mc addrs height s
unfolding snapshot_state_at
snapshot_state_at-IsSnapshot rt mc addrs height same e =
    let balances = snapshot_balances_at rt addrs mc.chain_id height in
    let (accounts, zipped, e') = bind-eq-ok (zip_accounts addrs balances) _ e in
    subst (IsSnapshot rt mc addrs height) (ok-injective e') (record {
      books = (mc.order_books, refl);
      amounts = zip_accounts-amounts addrs balances same zipped;
      validators = length-map _ mc.validators;
      pools = refl;
      supply = _;
      has_supply = refl;
      total = refl;
      staked = refl;
    })
