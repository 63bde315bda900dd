-- ===== src/Mempool/Conflicts.antt =====
-- The test of AddTx for double spends, against the transactions of the pool.
use go_chain.Prelude.{
  ℕ, ◌≡◌, ◌≢◌, ◌↔◌, refl, sym, ap, subst, ◌∙◌, inl, inr, Bool, true, false, ◌==◌, List, [], ◌∷◌,
  some, length, arith, ok, err, Result, Result-cases, Bool-cases, ◌>>=◌, ◌>>◌, fail_if,
}
use go_chain.KeyMap.{Map, lookup, has, member, bytes_eq_iff}
use go_chain.KeyMap.Distinct.{lookup→has, has_true→lookup}
use go_chain.Types.Bytes.{Bytes}
use go_chain.Types.Transaction.{Hash, Transaction, is_coinbase}
use go_chain.Crypto.Hash.{hash_transaction}
use go_chain.Crypto.Keys.{Primitives}
use go_chain.Utxo.{Entries}
use go_chain.Params.{ChainParams}
use go_chain.Mempool.{
  Mempool, PoolError, conflicting, input_keys, conflicts, entry_size, make_room, insert_entry,
  new_entry, validate, check_relay_fee, add_tx,
}
use go_chain.Mempool.FeeOrder.{TxEntry}
use go_chain.Mempool.Valid.{IsValid, Spends}

-- A transaction of the pool that spends one of these outpoints.
abbrev pub IsRivalled : Mempool → List Bytes → Type 0
IsRivalled m ks =
    (k : Bytes) × (h : Hash) × (e : TxEntry) × (member k ks ≡ true)
    × (lookup h m.txs ≡ some e)
    × Spends e k

conflicts_of_member :
    (ks : List Bytes) (k : Bytes) (spent : Map Hash)
    → member k ks ≡ true
    → has k spent ≡ true
    → conflicts ks spent ≡ true
unfolding conflicts member
conflicts_of_member [] k spent m h = cc
conflicts_of_member (j ∷ ks) k spent m h =
    ground (arith, bytes_eq_iff j k, conflicts_of_member ks k spent)

conflicts-witness :
    (ks : List Bytes) (spent : Map Hash)
    → conflicts ks spent ≡ true
    → (k : Bytes) × (member k ks ≡ true) × (has k spent ≡ true)
unfolding conflicts member
conflicts-witness [] spent h = cc
conflicts-witness (k ∷ ks) spent h = elim (Bool-cases (has k spent)) [
  | inl here ↦ (k, ground (arith, bytes_eq_iff k k), here)
  | inr not_here ↦
      let (j, listed, there) = conflicts-witness ks spent (ground arith) in
      (j, ground (arith, listed), there)
]

-- Past the first four guards, the run of AddTx.
past_guards :
    {A : Type 0} (a b d e : Bool) (x y z w : PoolError) (r : Result PoolError A)
    → a ≡ false
    → b ≡ false
    → d ≡ false
    → e ≡ false
    → (fail_if a x >> (fail_if b y >> (fail_if d z >> (fail_if e w >> r)))) ≡ r
past_guards false false false false x y z w r p q u v = refl
past_guards true b d e x y z w r p q u v = cc
past_guards false true d e x y z w r p q u v = cc
past_guards false false true e x y z w r p q u v = cc
past_guards false false false true x y z w r p q u v = cc

module _ (sha256 : Bytes → Bytes) (p : ChainParams) (ks : List Bytes) (m : Mempool)
    (v : IsValid sha256 p m) where
  rival_of_conflict : conflicts ks m.spent_outpoints ≡ true → IsRivalled m ks
  rival_of_conflict h =
      let (k, listed, there) = conflicts-witness ks m.spent_outpoints h in
      let (j, mark) = has_true→lookup k m.spent_outpoints there in
      let (e, held, spends) = v.marked k j mark in (k, j, e, listed, held, spends)

  conflict_of_rival : IsRivalled m ks → conflicts ks m.spent_outpoints ≡ true
  conflict_of_rival (k, j, e, listed, held, spends) =
      conflicts_of_member ks k m.spent_outpoints listed
        (lookup→has k m.spent_outpoints j (v.spends k j e held spends))

module _ (c : Primitives) (p : ChainParams) (s : Entries) (tip_height now added_at : ℕ)
    (tx : Transaction) (m : Mempool) where
  -- What AddTx does past its test for double spends.
  rest_of_add : Result PoolError (Mempool × Hash)
  rest_of_add = do
    fee ← validate c p s tip_height now m tx
    check_relay_fee p fee (entry_size tx)
    ok (
      insert_entry (new_entry (hash_transaction c.sha256 tx) tx fee added_at)
          (make_room p (entry_size tx) m),
      hash_transaction c.sha256 tx,
    )

  validate-not_conflicting : validate c p s tip_height now m tx ≢ err conflicting
  unfolding validate
  validate-not_conflicting h = ground arith

  check_relay_fee-not_conflicting :
      (fee : ℕ) → check_relay_fee p fee (entry_size tx) ≢ err conflicting
  unfolding check_relay_fee
  check_relay_fee-not_conflicting fee h = ground arith

  rest-not_conflicting : rest_of_add ≢ err conflicting
  unfolding rest_of_add
  rest-not_conflicting h = elim (Result-cases (validate c p s tip_height now m tx)) [
    | inr (e, failed) ↦ validate-not_conflicting (ground (arith, failed, h))
    | inl (fee, valid) ↦ elim (Result-cases (check_relay_fee p fee (entry_size tx))) [
      | inr (e, failed) ↦ check_relay_fee-not_conflicting fee (ground (arith, valid, failed, h))
      | inl (u, paid) ↦ ground (arith, valid, paid, h)
    ]
  ]

  add_tx-past :
      is_coinbase tx ≡ false
      → length tx.inputs ≢ 0
      → length tx.outputs ≢ 0
      → has (hash_transaction c.sha256 tx) m.txs ≡ false
      → add_tx c p s tip_height now added_at tx m
        ≡ (fail_if (conflicts (input_keys tx.inputs) m.spent_outpoints) conflicting >> rest_of_add)
  unfolding add_tx rest_of_add
  add_tx-past plain ins outs fresh =
      past_guards {A = Mempool × Hash} (is_coinbase tx) (length tx.inputs == 0)
        (length tx.outputs == 0) (has (hash_transaction c.sha256 tx) m.txs) _ _ _ _ _ plain
        (ground (arith, ins)) (ground (arith, outs)) fresh

  -- A transaction that AddTx does not turn away before, as a coinbase, for an empty list or as one that
  -- it has already, is refused as a double spend exactly when a transaction of the pool spends one of
  -- its outpoints, whatever their fees.
  pub add_tx-conflicting :
      IsValid c.sha256 p m
      → is_coinbase tx ≡ false
      → length tx.inputs ≢ 0
      → length tx.outputs ≢ 0
      → has (hash_transaction c.sha256 tx) m.txs ≡ false
      → (add_tx c p s tip_height now added_at tx m ≡ err conflicting)
        ↔ IsRivalled m (input_keys tx.inputs)
  add_tx-conflicting v plain ins outs fresh =
      let ks = input_keys tx.inputs in
      let run = add_tx-past plain ins outs fresh in
      (
        (λ h. elim (Bool-cases (conflicts ks m.spent_outpoints)) [
          | inl found ↦ rival_of_conflict c.sha256 p ks m v found
          | inr clear ↦ absurd (
              rest-not_conflicting (
                subst
                  (λ b.
                    (◌>>◌ {B = Mempool × Hash} (fail_if b conflicting) rest_of_add)
                    ≡ err conflicting)
                  clear (sym run ∙ h)))
        ]),
        (λ r.
            run
            ∙ ap (λ b. ◌>>◌ {B = Mempool × Hash} (fail_if b conflicting) rest_of_add)
                (conflict_of_rival c.sha256 p ks m v r)),
      )
