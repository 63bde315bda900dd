-- ===== src/Mempool/Admission.antt =====
-- AddTx: what it adds, and what it refuses.
use go_chain.Prelude.{
  ℕ, ◌/◌, ◌≤◌, ◌≡◌, false, ltb, ◌==◌, ◌&&◌, [], length, arith, ok, after, after_test, ok-injective,
  fail_if-eq-ok, sym, ap, ltb_false→le,
}
use go_chain.KeyMap.{Map, has}
use go_chain.Types.Transaction.{Hash, Transaction, is_coinbase, tx_size}
use go_chain.Crypto.Hash.{hash_transaction}
use go_chain.Crypto.Keys.{Primitives}
use go_chain.Utxo.{UtxoEntry, Entries}
use go_chain.Params.{ChainParams, max_tx_size}
use go_chain.Consensus.Transactions.Locks.{coinbase_alone, no_inputs, no_outputs, tx_too_large}
use go_chain.Consensus.Transactions.Single.{validate_single_transaction}
use go_chain.Mempool.{
  Mempool, coinbase_refused, empty_inputs, empty_outputs, already_known, conflicting, input_keys,
  entry_size, conflicts, validate, check_relay_fee, supplemental_entries, make_room, insert_entry,
  new_entry, add_tx,
}

single_fits :
    (c : Primitives) (p : ChainParams) (s : Entries) (tip_height now : ℕ) (more : Map UtxoEntry)
    (tx : Transaction) (fee : ℕ)
    → validate_single_transaction c p s tip_height now more tx ≡ ok fee
    → tx_size tx ≤ max_tx_size
unfolding validate_single_transaction
single_fits c p s tip_height now more tx fee h =
    after_test (is_coinbase tx) coinbase_alone _ h λ e₁ h₁.
      after_test (length tx.inputs == 0) no_inputs _ h₁ λ e₂ h₂.
        after_test (length tx.outputs == 0) no_outputs _ h₂ λ e₃ h₃.
          after_test (ltb max_tx_size (tx_size tx)) tx_too_large _ h₃
            λ e₄ h₄. ltb_false→le max_tx_size (tx_size tx) e₄

validate-single :
    (c : Primitives) (p : ChainParams) (s : Entries) (tip_height now : ℕ) (m : Mempool)
    (tx : Transaction) (fee : ℕ)
    → validate c p s tip_height now m tx ≡ ok fee
    → validate_single_transaction c p s tip_height now (supplemental_entries s m tx.inputs []) tx
      ≡ ok fee
unfolding validate
validate-single c p s tip_height now m tx fee h = ground arith

-- What a successful AddTx has found, and what it leaves.
pub record Admitted (c : Primitives) (p : ChainParams) (s : Entries) (tip_height now added_at : ℕ)
    (tx : Transaction) (m m' : Mempool) (fee : ℕ) : Type 0 where
  pub plain : is_coinbase tx ≡ false
  pub unknown : has (hash_transaction c.sha256 tx) m.txs ≡ false
  pub unspent : conflicts (input_keys tx.inputs) m.spent_outpoints ≡ false
  pub valid : validate c p s tip_height now m tx ≡ ok fee
  pub small : tx_size tx ≤ max_tx_size
  pub paid : p.min_relay_tx_fee ≤ fee
  pub paid_rate : p.min_relay_tx_fee_rate ≤ fee / entry_size tx
  pub result :
      m'
      ≡ insert_entry
          (new_entry (hash_transaction c.sha256 tx) tx fee added_at)
          (make_room p (entry_size tx) m)

check_relay_fee-paid :
    (p : ChainParams) (fee size : ℕ) {u : Unit {0}}
    → check_relay_fee p fee size ≡ ok u
    → (p.min_relay_tx_fee ≤ fee) × (p.min_relay_tx_fee_rate ≤ fee / size)
unfolding check_relay_fee
check_relay_fee-paid p fee size h =
    after_test (ltb 0 p.min_relay_tx_fee && ltb fee p.min_relay_tx_fee) _ _ h λ a h₁.
      let b =
        fail_if-eq-ok (ltb 0 p.min_relay_tx_fee_rate && ltb (fee / size) p.min_relay_tx_fee_rate) _
          h₁ in
      (ground arith, ground arith)

module _ (c : Primitives) (p : ChainParams) (s : Entries) (tip_height now added_at : ℕ)
    (tx : Transaction) (m : Mempool) where
  pub add_tx-Admitted :
      {m' : Mempool} {h : Hash}
      → add_tx c p s tip_height now added_at tx m ≡ ok (m', h)
      → (fee : ℕ) × Admitted c p s tip_height now added_at tx m m' fee
        × (h ≡ hash_transaction c.sha256 tx)
  unfolding add_tx
  add_tx-Admitted {m'} {h} done =
      let key = hash_transaction c.sha256 tx in
      after_test (is_coinbase tx) coinbase_refused _ done λ e₁ h₁.
        after_test (length tx.inputs == 0) empty_inputs _ h₁ λ e₂ h₂.
          after_test (length tx.outputs == 0) empty_outputs _ h₂ λ e₃ h₃.
            after_test (has key m.txs) already_known _ h₃ λ e₄ h₄.
              after_test (conflicts (input_keys tx.inputs) m.spent_outpoints) conflicting _ h₄
                λ e₅ h₅. after (validate c p s tip_height now m tx) _ h₅ λ fee valid h₆.
                  after (check_relay_fee p fee (entry_size tx)) _ h₆ λ u relay h₇.
                    let same = ok-injective h₇ in
                    let (paid, paid_rate) = check_relay_fee-paid p fee (entry_size tx) relay in
                    (
                      fee,
                      record {
                        plain = e₁;
                        unknown = e₄;
                        unspent = e₅;
                        valid = valid;
                        small =
                            single_fits c p s tip_height now (supplemental_entries s m tx.inputs [])
                              tx fee (validate-single c p s tip_height now m tx fee valid);
                        paid = paid;
                        paid_rate = paid_rate;
                        result = sym (ap (λ r. r.0) same);
                      },
                      sym (ap (λ r. r.1) same),
                    )
