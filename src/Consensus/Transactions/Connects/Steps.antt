-- ===== src/Consensus/Transactions/Connects/Steps.antt =====
-- One transaction through both validators.
use go_chain.Prelude.{
  ℕ, ◌+◌, ◌≤◌, ◌≡◌, refl, ap, true, false, List, [], ◌∷◌, Option, some, none, ltb, ◌==◌,
  if◌then◌else◌, length, arith, ok, after, after_test, ok-injective, subst,
}
use go_chain.Types.Bytes.{Bytes}
use go_chain.Types.Transaction.{Hash, Transaction, is_coinbase, tx_size}
use go_chain.Crypto.Keys.{Primitives}
use go_chain.Utxo.{Entries, Pending, hash_at, connect_tx_inputs, connect_outputs}
use go_chain.Params.{ChainParams, max_money_value, max_tx_size}
use go_chain.Consensus.Transactions.{
  View, validate_inputs, no_zero_outputs, tx_hash_at, validate_coinbase, transaction_fee,
  validate_scripts, check_locks, validate_transaction,
}
use go_chain.Consensus.Transactions.Connects.Amounts.{sum_outputs, transaction_fee-eq_ok}
use go_chain.Consensus.Transactions.Connects.Simulation.{
  Follows, IsBalanced, connect_inputs-Follows,
}
use go_chain.Consensus.Transactions.Connects.Outputs.{connect_outputs-Follows}

hash_at-tx_hash_at :
    (sha256 : Bytes → Bytes) (hashes : Option (List Hash)) (n : ℕ) (tx : Transaction) (h : Hash)
    → tx_hash_at sha256 hashes n tx ≡ ok h
    → hash_at sha256 hashes n tx ≡ ok h
unfolding tx_hash_at hash_at
hash_at-tx_hash_at sha256 none n tx h e = ap ok (ok-injective e)
hash_at-tx_hash_at sha256 (some hs) n tx h e = ground arith

-- The value of all coinbase outputs.
unfoldable pub coinbase_values : List Transaction → ℕ
coinbase_values [] = 0
coinbase_values (tx ∷ txs) =
    (if is_coinbase tx then sum_outputs tx.outputs else 0) + coinbase_values txs

pub coinbase_values-nil : coinbase_values [] ≡ 0
unfolding coinbase_values
coinbase_values-nil = refl

pub coinbase_values-first :
    (tx : Transaction) (txs : List Transaction)
    → is_coinbase tx ≡ true
    → coinbase_values (tx ∷ txs) ≡ sum_outputs tx.outputs + coinbase_values txs
unfolding coinbase_values
coinbase_values-first tx txs h = rw h refl

pub coinbase_values-other :
    (tx : Transaction) (txs : List Transaction)
    → is_coinbase tx ≡ false
    → coinbase_values (tx ∷ txs) ≡ coinbase_values txs
unfolding coinbase_values
coinbase_values-other tx txs h = ground (arith, h)

abbrev pub ConnectsTx :
    (Bytes → Bytes)
    → Option (List Hash)
    → Entries
    → ℕ
    → ℕ
    → Transaction
    → View
    → Pending
    → ℕ
    → ℕ
    → Type 0
ConnectsTx sha256 hashes s height n tx v w paid made =
    (h : Hash) × (w' : Pending) × (hash_at sha256 hashes n tx ≡ ok h)
    × (connect_tx_inputs s tx w ≡ ok w')
    × (let w'' = connect_outputs h height (is_coinbase tx) 0 tx.outputs w' in
        Follows v w'' × IsBalanced s w'' paid made)

pub rebalance :
    (s : Entries) (w : Pending) (paid made paid' made' : ℕ)
    → made + paid' ≤ made' + paid
    → IsBalanced s w paid made
    → IsBalanced s w paid' made'
rebalance s w paid made paid' made' h g = record {
  balance = omega (arith, g.balance);
  occurs = g.occurs;
  removed = g.removed;
}

module _ (c : Primitives) (p : ChainParams) (s : Entries) (height median_time : ℕ)
    (hashes : Option (List Hash)) where
  pub coinbase-Follows :
      (n : ℕ) (tx : Transaction) (v v' : View) (w : Pending) (fees coins : ℕ)
      → Follows v w
      → IsBalanced s w fees coins
      → is_coinbase tx ≡ true
      → validate_coinbase c height hashes n tx v ≡ ok v'
      → ConnectsTx c.sha256 hashes s height n tx v' w fees (coins + sum_outputs tx.outputs)
  unfolding validate_coinbase connect_tx_inputs
  coinbase-Follows n tx v v' w fees coins f g cb h =
      after (no_zero_outputs tx.outputs) _ h λ u nonzero h₁.
        after (tx_hash_at c.sha256 hashes n tx) _ h₁ λ tx_hash hashed done.
          let next =
            connect_outputs-Follows s tx_hash height true 0 tx.outputs v w fees coins f g in
          subst
            (λ v'.
              ConnectsTx c.sha256 hashes s height n tx v' w fees (coins + sum_outputs tx.outputs))
            (ok-injective done)
            (tx_hash, w, hash_at-tx_hash_at c.sha256 hashes n tx tx_hash hashed, rw cb, rw cb next)

  pub transaction-Follows :
      (n : ℕ) (tx : Transaction) (v : View) (r : View × ℕ) (w : Pending) (fees coins : ℕ)
      → Follows v w
      → IsBalanced s w fees coins
      → is_coinbase tx ≡ false
      → validate_transaction c p s height median_time hashes n tx v ≡ ok r
      → ConnectsTx c.sha256 hashes s height n tx r.0 w (fees + r.1) coins × (r.1 ≤ max_money_value)
  unfolding validate_transaction connect_tx_inputs
  transaction-Follows n tx v r w fees coins f g other h =
      after_test (length tx.inputs == 0) _ _ h λ inputs h₁.
        after_test (length tx.outputs == 0) _ _ h₁ λ outputs h₂.
          after_test (ltb max_tx_size (tx_size tx)) _ _ h₂ λ size h₃.
            after (tx_hash_at c.sha256 hashes n tx) _ h₃ λ tx_hash hashed h₄.
              after (validate_inputs p height s tx.inputs [] v 0) _ h₄ λ r₁ ran h₅.
                after (transaction_fee r₁.1 tx.outputs) _ h₅ λ fee charged h₆.
                  after (validate_scripts c tx 0 tx.inputs r₁.2) _ h₆ λ u scripts h₇.
                    after (check_locks p s height median_time tx) _ h₇ λ u' locks done.
                      let ((w₁, ran₁, f₁, g₁), small) =
                        connect_inputs-Follows p height s tx.inputs [] v w 0 fees coins r₁ f
                          (rebalance s w fees coins (fees + 0) coins (omega arith) g) (omega arith)
                          ran in
                      let total = transaction_fee-eq_ok r₁.1 fee tx.outputs charged in
                      let (f₂, g₂) =
                        connect_outputs-Follows s tx_hash height false 0 tx.outputs r₁.0 w₁
                          (fees + r₁.1) coins f₁ g₁ in
                      subst
                        (λ (r : View × ℕ).
                          ConnectsTx c.sha256 hashes s height n tx r.0 w (fees + r.1) coins
                          × (r.1 ≤ max_money_value))
                        (ok-injective done)
                        (
                          (
                            tx_hash,
                            w₁,
                            hash_at-tx_hash_at c.sha256 hashes n tx tx_hash hashed,
                            rw other ran₁,
                            rw other (
                              f₂,
                              rebalance s (connect_outputs tx_hash height false 0 tx.outputs w₁)
                                  (fees + r₁.1) (coins + sum_outputs tx.outputs) (fees + fee) coins
                                  (omega (arith, total)) g₂,
                            ),
                          ),
                          omega (arith, total, small),
                        )
