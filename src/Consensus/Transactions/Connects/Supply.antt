-- ===== src/Consensus/Transactions/Connects/Supply.antt =====
-- The two validators over a whole block, and the money supply.
use go_chain.Prelude.{
  ℕ, ◌+◌, ◌%◌, ◌^◌, ◌≤◌, ◌<◌, ◌≡◌, refl, sym, ◌∙◌, true, false, List, [], ◌∷◌, Option, ltb, arith,
  ok, All, after, after_test, ok-injective, subst, Bool-cases, inl, inr, ltb_false→le,
}
use go_chain.KeyMap.{lookup, has}
use go_chain.Types.Bytes.{Bytes}
use go_chain.Types.Transaction.{Hash, Transaction, is_coinbase}
use go_chain.Types.Block.{Block}
use go_chain.Crypto.Keys.{Primitives}
use go_chain.Utxo.{
  SpentOutput, Entries, Pending, nothing_pending, hash_at, connect_tx_inputs, connect_outputs,
  connect_txs, connect_block, apply_pending, delete_all,
}
use go_chain.Utxo.Value.{sum_values, unspent_sum, sum_values-apply_pending}
use go_chain.Params.{ChainParams, calc_subsidy}
use go_chain.Consensus.Transactions.{
  View, empty_view, validate_coinbase, validate_transaction, validate_txs, check_reward,
  validate_transaction_inputs,
}
use go_chain.Consensus.Transactions.Connects.Amounts.{sum_outputs, HasValue64, check_reward-eq_ok}
use go_chain.Consensus.Transactions.Connects.Simulation.{Follows, IsBalanced}
use go_chain.Consensus.Transactions.Connects.Steps.{
  coinbase_values, coinbase_values-first, coinbase_values-other, rebalance, coinbase-Follows,
  transaction-Follows,
}

module _ (c : Primitives) (p : ChainParams) (s : Entries) (height median_time : ℕ)
    (hashes : Option (List Hash)) where
  abbrev ConnectsTxs : ℕ → List Transaction → Pending → ℕ → ℕ → Type 0
  ConnectsTxs n txs w paid made =
      (w' : Pending) × (connect_txs c.sha256 hashes s height n txs w ≡ ok w')
      × IsBalanced s w' paid made

  connect_txs_step :
      (n : ℕ) (tx : Transaction) (txs : List Transaction) (w w₁ : Pending) (h : Hash)
      → hash_at c.sha256 hashes n tx ≡ ok h
      → connect_tx_inputs s tx w ≡ ok w₁
      → connect_txs c.sha256 hashes s height n (tx ∷ txs) w
        ≡ connect_txs c.sha256 hashes s height
            (n + 1)
            txs
            (connect_outputs h height (is_coinbase tx) 0 tx.outputs w₁)
  unfolding connect_txs
  connect_txs_step n tx txs w w₁ h hashed ran = rw (hashed, ran)

  validate_txs-Follows :
      (n : ℕ) (txs : List Transaction) (v : View) (w : Pending) (fees total coins : ℕ)
      → Follows v w
      → IsBalanced s w fees coins
      → fees < 2 ^ 64
      → validate_txs c p s height median_time hashes n txs v fees ≡ ok total
      → ConnectsTxs n txs w total (coins + coinbase_values txs) × (total < 2 ^ 64)
  unfolding validate_txs connect_txs
  validate_txs-Follows n [] v w fees total coins f g small h =
      let same : fees ≡ total = ok-injective h in
      (
        (
          w,
          refl,
          rebalance s w fees coins total (coins + coinbase_values []) (omega (arith, same)) g,
        ),
        omega arith,
      )
  validate_txs-Follows n (tx ∷ txs) v w fees total coins f g small h =
      elim (Bool-cases (is_coinbase tx)) [
        | inl coinbase ↦
            after (validate_coinbase c height hashes n tx v) _ (rw coinbase at h) λ v₁ ran h₁.
              let (hash, w₁, hashed, ran₁, (f₁, g₁)) =
                coinbase-Follows c p s height median_time hashes n tx v v₁ w fees coins f g coinbase
                  ran in
              let w₂ = connect_outputs hash height (is_coinbase tx) 0 tx.outputs w₁ in
              let ((w₃, ran₃, g₃), small₃) =
                validate_txs-Follows (n + 1) txs v₁ w₂ fees total (coins + sum_outputs tx.outputs)
                  f₁ g₁ small h₁ in
              (
                (
                  w₃,
                  connect_txs_step n tx txs w w₁ hash hashed ran₁ ∙ ran₃,
                  rebalance s w₃ total (coins + sum_outputs tx.outputs + coinbase_values txs) total
                      (coins + coinbase_values (tx ∷ txs))
                      (omega (arith, coinbase_values-first tx txs coinbase)) g₃,
                ),
                small₃,
              )
        | inr other ↦
            after (validate_transaction c p s height median_time hashes n tx v) _ (rw other at h)
              λ r ran h₁. after_test (ltb ((fees + r.1) % 2 ^ 64) fees) _ _ h₁ λ grows h₂.
                let ((hash, w₁, hashed, ran₁, (f₁, g₁)), fee) =
                  transaction-Follows c p s height median_time hashes n tx v r w fees coins f g
                    other ran in
                let w₂ = connect_outputs hash height (is_coinbase tx) 0 tx.outputs w₁ in
                let sum : (fees + r.1) % 2 ^ 64 ≡ fees + r.1 =
                  omega (arith, fee, ltb_false→le ((fees + r.1) % 2 ^ 64) fees grows) in
                let ((w₃, ran₃, g₃), small₃) =
                  validate_txs-Follows (n + 1) txs r.0 w₂ ((fees + r.1) % 2 ^ 64) total coins f₁
                    (subst (λ m. IsBalanced s w₂ m coins) (sym sum) g₁) (omega arith) h₂ in
                (
                  (
                    w₃,
                    connect_txs_step n tx txs w w₁ hash hashed ran₁ ∙ ran₃,
                    rebalance s w₃ total (coins + coinbase_values txs) total
                        (coins + coinbase_values (tx ∷ txs))
                        (omega (arith, coinbase_values-other tx txs other)) g₃,
                  ),
                  small₃,
                )
      ]

coinbase_values-zero :
    (txs : List Transaction)
    → All (λ (tx : Transaction). is_coinbase tx ≡ false) txs
    → coinbase_values txs ≡ 0
unfolding coinbase_values
coinbase_values-zero [] a = refl
coinbase_values-zero (tx ∷ txs) a = coinbase_values-other tx txs a.0 ∙ coinbase_values-zero txs a.1

start-Follows : Follows empty_view nothing_pending
start-Follows = record { spent = refl; created = refl }

start-IsBalanced : (s : Entries) → IsBalanced s nothing_pending 0 0
unfolding has lookup delete_all unspent_sum
start-IsBalanced s = record {
  balance = omega arith;
  occurs = λ k e h. ground (arith, h);
  removed = λ k h. refl;
}

-- A block starts with its coinbase, and has no other.
pub record HasOneCoinbase (b : Block) (first : Transaction) (rest : List Transaction) : Type 0 where
  pub transactions : b.transactions ≡ first ∷ rest
  pub first_is_coinbase : is_coinbase first ≡ true
  pub no_other : All (λ (tx : Transaction). is_coinbase tx ≡ false) rest
  pub values : All HasValue64 first.outputs

-- The set after a block, and the undo data.
abbrev pub ConnectsBlock :
    (Bytes → Bytes) → ChainParams → Block → Entries → ℕ → Option (List Hash) → Type 0
ConnectsBlock sha256 p b s height hashes =
    (s' : Entries) × (undo : List SpentOutput) × (connect_block sha256 s b height hashes
      ≡ ok (s', undo))
    × (sum_values s' ≤ sum_values s + calc_subsidy p height)

-- A block that starts with its only coinbase, whose values are 64-bit, and that
-- ValidateTransactionInputs accepts over a set, is connected to that set by ConnectBlock without an
-- error, and the value of the set grows by at most the block subsidy of its height.
pub connect_block-validate_transaction_inputs :
    (c : Primitives) (p : ChainParams) (b : Block) (s : Entries) (height median_time : ℕ)
    (hashes : Option (List Hash)) (first : Transaction) (rest : List Transaction) (fees : ℕ)
    → HasOneCoinbase b first rest
    → validate_transaction_inputs c p b s height median_time hashes ≡ ok fees
    → ConnectsBlock c.sha256 p b s height hashes
unfolding validate_transaction_inputs connect_block
connect_block-validate_transaction_inputs c p b s height median_time hashes first rest fees one h =
    let h' = rw one.transactions at h in
    after (validate_txs c p s height median_time hashes 0 (first ∷ rest) empty_view 0) _ h'
      λ total ran h₁. after (check_reward p height (first ∷ rest) total) _ h₁ λ u reward done.
        let ((w, connected, g), small) =
          validate_txs-Follows c p s height median_time hashes 0 (first ∷ rest) empty_view
            nothing_pending 0 total 0 start-Follows (start-IsBalanced s) (omega arith) ran in
        let made = check_reward-eq_ok p height total first rest one.values reward in
        let none_other = coinbase_values-zero rest one.no_other in
        (
          apply_pending w s,
          w.undo,
          rw (one.transactions, connected) refl,
          omega (
            arith,
            g.balance,
            made,
            none_other,
            coinbase_values-first first rest one.first_is_coinbase,
            sum_values-apply_pending w s,
          ),
        )
