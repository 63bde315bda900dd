-- ===== src/Consensus/Transactions/Connects/Amounts.antt =====
-- The sums of ValidateTransactionInputs do not wrap.
use go_chain.Prelude.{
  ℕ, ◌+◌, ◌%◌, ◌^◌, ◌≤◌, ◌<◌, ◌≡◌, List, [], ◌∷◌, ltb, ◌==◌, arith, All, ok, after, after_test,
  ok-injective, ltb_false→le, fail_if-eq-ok, fail_if-eq-ok,
}
use go_chain.Types.Transaction.{TxOutput, Transaction}
use go_chain.Utxo.{UtxoEntry}
use go_chain.Params.{ChainParams, max_money_value, calc_subsidy}
use go_chain.Consensus.Transactions.{
  add_input_value, add_output_values, transaction_fee, add_coinbase_values, check_reward,
}

unfoldable pub sum_outputs : List TxOutput → ℕ
sum_outputs [] = 0
sum_outputs (o ∷ os) = o.value + sum_outputs os

pub add_input_value-eq_ok :
    (t t' : ℕ) (e : UtxoEntry)
    → add_input_value t e ≡ ok t'
    → (t' ≡ t + e.value) × (t' ≤ max_money_value)
unfolding add_input_value
add_input_value-eq_ok t t' e h =
    let total = (t + e.value) % 2 ^ 64 in
    after_test (ltb total t) _ _ h λ grows h₁.
      after_test (ltb max_money_value e.value) _ _ h₁ λ small h₂.
        after_test (ltb max_money_value total) _ _ h₂ λ fits h₃.
          let same = ok-injective h₃ in
          (
            omega (
              arith,
              same,
              ltb_false→le total t grows,
              ltb_false→le max_money_value e.value small,
            ),
            omega (arith, same, ltb_false→le max_money_value total fits),
          )

add_output_values-eq_ok :
    (t t' : ℕ) (os : List TxOutput) → add_output_values t os ≡ ok t' → t' ≡ t + sum_outputs os
unfolding add_output_values sum_outputs
add_output_values-eq_ok t t' [] h = omega (arith, ok-injective h)
add_output_values-eq_ok t t' (o ∷ os) h =
    let total = (t + o.value) % 2 ^ 64 in
    after_test (o.value == 0) _ _ h λ some_value h₁.
      after_test (ltb max_money_value o.value) _ _ h₁ λ small h₂.
        after_test (ltb total t) _ _ h₂ λ grows h₃. omega (
          arith,
          add_output_values-eq_ok total t' os h₃,
          ltb_false→le total t grows,
          ltb_false→le max_money_value o.value small,
        )

-- The fee is what the inputs hold above the outputs.
pub transaction_fee-eq_ok :
    (t fee : ℕ) (os : List TxOutput) → transaction_fee t os ≡ ok fee → t ≡ fee + sum_outputs os
unfolding transaction_fee
transaction_fee-eq_ok t fee os h = after (add_output_values 0 os) _ h λ out ran h₁.
    after_test (ltb max_money_value out) _ _ h₁ λ small h₂.
      after_test (ltb t out) _ _ h₂ λ covered h₃.
        omega
          (arith, ok-injective h₃, add_output_values-eq_ok 0 out os ran, ltb_false→le t out covered)

abbrev pub HasValue64 : TxOutput → Type 0
HasValue64 o = o.value < 2 ^ 64

add_coinbase_values-eq_ok :
    (t t' : ℕ) (os : List TxOutput)
    → All HasValue64 os
    → add_coinbase_values t os ≡ ok t'
    → t' ≡ t + sum_outputs os
unfolding add_coinbase_values sum_outputs
add_coinbase_values-eq_ok t t' [] a h = omega (arith, ok-injective h)
add_coinbase_values-eq_ok t t' (o ∷ os) a h =
    let next = (t + o.value) % 2 ^ 64 in
    after_test (ltb next t) _ _ h λ grows h₁.
      omega (arith, add_coinbase_values-eq_ok next t' os a.1 h₁, ltb_false→le next t grows, a.0)

-- The reward check bounds the coinbase's outputs by the subsidy and the fees.
pub check_reward-eq_ok :
    (p : ChainParams) (height fees : ℕ) (tx : Transaction) (txs : List Transaction) {u : Unit {0}}
    → All HasValue64 tx.outputs
    → check_reward p height (tx ∷ txs) fees ≡ ok u
    → sum_outputs tx.outputs ≤ calc_subsidy p height + fees
unfolding check_reward
check_reward-eq_ok p height fees tx txs a h =
    let subsidy = calc_subsidy p height in
    let most = (subsidy + fees) % 2 ^ 64 in
    after_test (ltb most subsidy) _ _ h λ grows h₁.
      after (add_coinbase_values 0 tx.outputs) _ h₁ λ value ran h₂. omega (
        arith,
        add_coinbase_values-eq_ok 0 value tx.outputs a ran,
        ltb_false→le most value (fail_if-eq-ok (ltb most value) _ h₂),
      )
