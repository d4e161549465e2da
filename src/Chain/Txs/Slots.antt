-- ===== src/Chain/Txs/Slots.antt =====
-- The transactions of a height, slot by slot: each records its slot, and two slots can share a hash.
use canopy_rpc_mock.Base.{
  ℕ, zero, suc, ◌+◌, ◌*◌, ◌≤◌, ◌<◌, ◌≡◌, refl, sym, ap, ◌∙◌, List, [], ◌∷◌, ◌++◌, ok, bind-eq-ok,
  ok-injective, collect, length, add64,
}
use mathlib.Core.Path.{subst}
use canopy_rpc_mock.Gen.Runtime.{Runtime}
use canopy_rpc_mock.Gen.Hash.{Part, written, sprint, hash_bytes}
use canopy_rpc_mock.Gen.Hash.Collisions.{written-shift}
use canopy_rpc_mock.Gen.Profile.{Profile}
use canopy_rpc_mock.Gen.TxGen.{tx_count_at, tx_type_mix_at}
use canopy_rpc_mock.Chain.Types.{TxResult}
use canopy_rpc_mock.Chain.Canopy.{Canopy}
use canopy_rpc_mock.Chain.Governance.{hex_encode}
use canopy_rpc_mock.Chain.MockChain.{MockChain}
use canopy_rpc_mock.Chain.Txs.{
  make_tx, tx_hash, pick_address, build_tx_msg, slot_height, generate_closed_form_txs,
}

module _ (rt : Runtime) (cn : Canopy) where
  -- What a transaction records of its slot.
  pub record IsSlot (mc : MockChain) (height i : ℕ) (tx : TxResult) : Type 0 where
    pub slot : tx.index ≡ i
    pub at_height : tx.height ≡ height
    pub created : tx.transaction.created_height ≡ height
    pub on_chain : tx.transaction.chain_id ≡ mc.chain_id
    pub hash : tx.tx_hash ≡ hex_encode (tx_hash rt cn mc.chain_id height i)
    pub sent : pick_address rt cn mc (add64 height i) ≡ ok tx.sender

  make_tx-IsSlot :
      (mc : MockChain) (profile : Profile) (height i : ℕ) {tx : TxResult}
      → make_tx rt cn mc profile height i ≡ ok tx
      → IsSlot mc height i tx
  unfolding make_tx
  make_tx-IsSlot mc profile height i e =
      let label = tx_type_mix_at rt mc.chain_id profile (slot_height height i) in
      let (sender, picked, e1) = bind-eq-ok (pick_address rt cn mc (add64 height i)) _ e in
      let (recipient, _, e2) = bind-eq-ok (pick_address rt cn mc (add64 (add64 height i) 1)) _ e1 in
      let (any, _, e3) = bind-eq-ok (build_tx_msg rt cn mc label sender recipient height) _ e2 in
      subst (IsSlot mc height i) (ok-injective e3) (record {
        slot = refl;
        at_height = refl;
        created = refl;
        on_chain = refl;
        hash = refl;
        sent = picked;
      })

  -- Each transaction of a list records its slot, from slot i on.
  abbrev pub AllSlots : MockChain → ℕ → ℕ → List TxResult → Type 0
  AllSlots mc height i [] = Unit {0}
  AllSlots mc height i (tx ∷ txs) = IsSlot mc height i tx × AllSlots mc height (i + 1) txs

  collect-AllSlots :
      (mc : MockChain) (profile : Profile) (height n i : ℕ) {txs : List TxResult}
      → collect n i (make_tx rt cn mc profile height) ≡ ok txs
      → (length txs ≡ n) × AllSlots mc height i txs
  collect-AllSlots mc profile height zero i e =
      subst (λ ys. (length ys ≡ 0) × AllSlots mc height i ys) (ok-injective e) (refl, tt)
  collect-AllSlots mc profile height (suc n) i e =
      let (tx, made, e1) = bind-eq-ok (make_tx rt cn mc profile height i) _ e in
      let (txs, rest, e2) = bind-eq-ok (collect n (i + 1) (make_tx rt cn mc profile height)) _ e1 in
      let (len, slots) = collect-AllSlots mc profile height n (i + 1) rest in
      subst (λ ys. (length ys ≡ suc n) × AllSlots mc height i ys) (ok-injective e2)
        (ap suc len, (make_tx-IsSlot mc profile height i made, slots))

  -- Where the transactions of a height are generated, there are exactly as many as TxCountAt says,
  -- and each of them, from slot 0 on, records the height, its slot, the chain, the hash of these three
  -- and the account picked for the slot as its sender.
  pub generate_closed_form_txs-slots :
      (fuel : ℕ) (mc : MockChain) (height : ℕ) (profile : Profile) {txs : List TxResult}
      → generate_closed_form_txs rt cn fuel mc height profile ≡ ok txs
      → (tx_count_at rt fuel mc.chain_id profile height ≡ ok (length txs))
        × AllSlots mc height 0 txs
  unfolding generate_closed_form_txs
  generate_closed_form_txs-slots fuel mc height profile e =
      let (count, counted, e') = bind-eq-ok (tx_count_at rt fuel mc.chain_id profile height) _ e in
      let (len, slots) = collect-AllSlots mc profile height count 0 e' in
      (counted ∙ ap ok (sym len), slots)

  -- For h and a from 1 on and digits a and b, the transaction in slot 10a + b of height h has the
  -- hash of the one in slot b of height 10h + a of the same chain.
  pub tx_hash_collides :
      (mc : MockChain) (p q : Profile) (h a b : ℕ) {tx tx' : TxResult}
      → 1 ≤ h
      → 1 ≤ a
      → a < 10
      → b < 10
      → make_tx rt cn mc p h (10 * a + b) ≡ ok tx
      → make_tx rt cn mc q (10 * h + a) b ≡ ok tx'
      → tx.tx_hash ≡ tx'.tx_hash
  unfolding hash_bytes written
  tx_hash_collides mc p q h a b hh ha ka kb e e' =
      let one = make_tx-IsSlot mc p h (10 * a + b) e in
      let two = make_tx-IsSlot mc q (10 * h + a) b e' in
      one.hash
      ∙ ap
          (λ bs.
            hex_encode
              (rt.sha256 (sprint (Part.text "tx") ++ (sprint (Part.num mc.chain_id) ++ bs))))
          (written-shift h a b [] hh ha ka kb)
      ∙ sym two.hash
