-- ===== src/Consensus/Transactions/Single/Admission.antt =====
-- Mempool admission against block validation: the two walk over a transaction in the same way.
use go_chain.Prelude.{
  ℕ, ◌+◌, ◌%◌, ◌^◌, ◌≤◌, ◌≡◌, refl, sym, ap, ◌∙◌, Bool, true, false, List, [], ◌∷◌, Option, some,
  none, ltb, ◌==◌, length, arith, ok, err, Result, ◌>>=◌, ◌>>◌, fail_if, after, after_test,
  ok-injective, Option-cases, inl, inr,
}
use go_chain.KeyMap.{Map, lookup, has, insert, delete}
use go_chain.Types.Transaction.{TxInput, TxOutput, Transaction, is_coinbase, tx_size}
use go_chain.Crypto.Keys.{Primitives}
use go_chain.Utxo.{UtxoEntry, Entries, key_of, get}
use go_chain.Params.{ChainParams, max_tx_size, max_money_value}
use go_chain.Consensus.Transactions.{
  View, Inputs, empty_view, check_maturity, add_input_value, resolve, add_output_values,
  transaction_fee, validate_inputs, validate_scripts, check_locks, tx_hash_at, validate_transaction,
}
use go_chain.Consensus.Transactions.Locks.{
  TxError, coinbase_alone, no_inputs, no_outputs, tx_too_large, duplicate_input, double_spend,
}
use go_chain.Consensus.Transactions.Single.{
  find_entry, single_inputs, validate_single_transaction, sum_input_values, sum_output_values,
  fee_of_sum, calc_tx_fee,
}
use go_chain.Consensus.Transactions.Connects.Amounts.{add_input_value-eq_ok}

-- What block validation knows after the inputs `seen`, in a block that has created nothing.
abbrev seen_view : Map (Unit {0}) → View
seen_view seen = record { spent_in_block = seen; created_in_block = [] }

abbrev amounts : Inputs → Result TxError (ℕ × List UtxoEntry)
amounts r = ok (r.1, r.2)

find_entry-alone :
    (s : Entries) (i : TxInput) → find_entry s [] i ≡ lookup (key_of i.previous_out_point) s
unfolding find_entry get lookup
find_entry-alone s i = elim (Option-cases (lookup (key_of i.previous_out_point) s)) [
  | inl h ↦ ground (arith, h)
  | inr (e, h) ↦ ground (arith, h)
]

-- Two runs that bind the same result agree when what follows it agrees.
bind_cong :
    {A B C : Type 0} (r : Result TxError A) (f : A → Result TxError B) (h : B → Result TxError C)
    (g : A → Result TxError C)
    → ((a : A) → (f a >>= h) ≡ g a)
    → ((r >>= f) >>= h) ≡ (r >>= g)
bind_cong (ok a) f h g p = p a
bind_cong (err e) f h g p = refl

-- A test that repeats the one before it changes nothing.
guard_twice :
    {B C : Type 0} (b : Bool) (e e' : TxError) (r : Result TxError B) (h : B → Result TxError C)
    (r' : Result TxError C)
    → (r >>= h) ≡ r'
    → ((fail_if b e >> (fail_if b e' >> r)) >>= h) ≡ (fail_if b e >> r')
guard_twice true e e' r h r' p = refl
guard_twice false e e' r h r' p = p

with_entry :
    (e : UtxoEntry) (r : Result TxError Inputs) (r' : Result TxError (ℕ × List UtxoEntry))
    → (r >>= amounts) ≡ r'
    → ((r >>= λ x. ok (x.0, x.1, e ∷ x.2)) >>= amounts) ≡ (r' >>= λ x. ok (x.0, e ∷ x.1))
with_entry e (ok x) r' p = ap (λ r. r >>= λ x. ok (x.0, e ∷ x.1)) p
with_entry e (err x) r' p = ap (λ r. r >>= λ x. ok (x.0, e ∷ x.1)) p

same_inputs :
    (p : ChainParams) (height : ℕ) (s : Entries) (is : List TxInput) (seen : Map (Unit {0})) (t : ℕ)
    → (validate_inputs p height s is seen (seen_view seen) t >>= amounts)
      ≡ single_inputs p height s [] is seen t
unfolding validate_inputs single_inputs lookup delete
same_inputs p height s [] seen t = refl
same_inputs p height s (i ∷ is) seen t =
    let key = key_of i.previous_out_point in
    guard_twice (has key seen) duplicate_input double_spend _ amounts _ (
      rw find_entry-alone (
        bind_cong (resolve none (lookup key s)) _ amounts _ λ e.
          bind_cong (check_maturity p height e) _ amounts _ λ u.
            bind_cong (add_input_value t e) _ amounts _
              λ t₁. with_entry e _ _ (same_inputs p height s is (insert key tt seen) t₁)))

bind_through :
    {B C : Type 0} (r : Result TxError Inputs) (r' : Result TxError (ℕ × List UtxoEntry))
    (f : Inputs → Result TxError B) (h : B → Result TxError C)
    (g : ℕ × List UtxoEntry → Result TxError C)
    → (r >>= amounts) ≡ r'
    → ((x : Inputs) → (f x >>= h) ≡ g (x.1, x.2))
    → ((r >>= f) >>= h) ≡ (r' >>= g)
bind_through (ok x) r' f h g p q = q x ∙ ap (λ r. r >>= g) p
bind_through (err x) r' f h g p q = ap (λ r. r >>= g) p

abbrev fee_of : View × ℕ → Result TxError ℕ
fee_of x = ok x.1

-- Only the fee.
abbrev pub fee_only : Result TxError (View × ℕ) → Result TxError ℕ
fee_only r = r >>= fee_of

-- Without supplemental entries, ValidateSingleTransaction at a tip gives the fee or the error that
-- ValidateTransactionInputs gives for the same transaction as the first of a block at the next
-- height, if the clock shows the median time past; and it refuses every coinbase.
pub validate_single_transaction-eq :
    (c : Primitives) (p : ChainParams) (s : Entries) (tip_height now : ℕ) (tx : Transaction)
    → validate_single_transaction c p s tip_height now [] tx ≡ (
        fail_if (is_coinbase tx) coinbase_alone
        >> fee_only
            (validate_transaction c p s ((tip_height + 1) % 2 ^ 32) now none 0 tx empty_view))
unfolding validate_single_transaction validate_transaction tx_hash_at
validate_single_transaction-eq c p s tip_height now tx =
    let height = (tip_height + 1) % 2 ^ 32 in
    let h = fee_of in
    ap (λ r. fail_if (is_coinbase tx) coinbase_alone >> r)
      (sym (
        bind_cong (fail_if (length tx.inputs == 0) no_inputs) _ h _ λ _.
          bind_cong (fail_if (length tx.outputs == 0) no_outputs) _ h _ λ _.
            bind_cong (fail_if (ltb max_tx_size (tx_size tx)) tx_too_large) _ h _ λ _.
              bind_through (validate_inputs p height s tx.inputs [] empty_view 0) _ _ h _
                (same_inputs p height s tx.inputs [] 0)
                λ x. bind_cong (transaction_fee x.1 tx.outputs) _ h _ λ fee.
                  bind_cong (validate_scripts c tx 0 tx.inputs x.2) _ h _
                    λ _. bind_cong (check_locks p s height now tx) _ h _ λ _. refl))

sum_input_values-step :
    (s : Entries) (i : TxInput) (is : List TxInput) (t t₁ : ℕ) (e : UtxoEntry)
    → find_entry s [] i ≡ some e
    → t₁ ≡ t + e.value
    → t₁ ≤ max_money_value
    → sum_input_values s t (i ∷ is) ≡ sum_input_values s t₁ is
unfolding sum_input_values get resolve
sum_input_values-step s i is t t₁ e found sum small =
    let wrapped : (t + e.value) % 2 ^ 64 ≡ t₁ = omega (arith, sum) in
    let grows : ltb t₁ t ≡ false = ground arith in
    rw (sym (find_entry-alone s i) ∙ found, wrapped, grows)

resolve-eq_ok : (m : Option UtxoEntry) (e : UtxoEntry) → resolve none m ≡ ok e → m ≡ some e
unfolding resolve
resolve-eq_ok (some d) e h = ap some (ok-injective h)
resolve-eq_ok none e h = cc

sum_input_values-single_inputs :
    (p : ChainParams) (height : ℕ) (s : Entries) (is : List TxInput) (seen : Map (Unit {0})) (t : ℕ)
    (r : ℕ × List UtxoEntry)
    → single_inputs p height s [] is seen t ≡ ok r
    → sum_input_values s t is ≡ ok r.0
unfolding single_inputs sum_input_values
sum_input_values-single_inputs p height s [] seen t r h = ap ok (ap (λ x. x.0) (ok-injective h))
sum_input_values-single_inputs p height s (i ∷ is) seen t r h =
    let key = key_of i.previous_out_point in
    after_test (has key seen) _ _ h λ new h₁.
      after (resolve none (find_entry s [] i)) _ h₁ λ e found h₂.
        after (check_maturity p height e) _ h₂ λ u mature h₃.
          after (add_input_value t e) _ h₃ λ t₁ added h₄.
            after (single_inputs p height s [] is (insert key tt seen) t₁) _ h₄ λ r₁ ran done.
              let (sum, small) = add_input_value-eq_ok t t₁ e added in
              let rest =
                sum_input_values-single_inputs p height s is (insert key tt seen) t₁ r₁ ran in
              sum_input_values-step s i is t t₁ e (resolve-eq_ok _ e found) sum small
              ∙ rest
              ∙ ap ok (ap (λ x. x.0) (ok-injective done))

sum_output_values-add_output_values :
    (t t' : ℕ) (os : List TxOutput)
    → add_output_values t os ≡ ok t'
    → sum_output_values t os ≡ ok t'
unfolding add_output_values sum_output_values
sum_output_values-add_output_values t t' [] h = h
sum_output_values-add_output_values t t' (o ∷ os) h =
    after_test (o.value == 0) _ _ h λ some_value h₁.
      after_test (ltb max_money_value o.value) _ _ h₁ λ small h₂.
        after_test (ltb ((t + o.value) % 2 ^ 64) t) _ _ h₂ λ grows h₃.
          rw grows (sum_output_values-add_output_values ((t + o.value) % 2 ^ 64) t' os h₃)

fee_of_sum-transaction_fee :
    (t fee : ℕ) (os : List TxOutput) → transaction_fee t os ≡ ok fee → fee_of_sum t os ≡ ok fee
unfolding transaction_fee fee_of_sum
fee_of_sum-transaction_fee t fee os h = after (add_output_values 0 os) _ h λ out ran h₁.
    after_test (ltb max_money_value out) _ _ h₁ λ small h₂.
      after_test (ltb t out) _ _ h₂
        λ covered done. rw (sum_output_values-add_output_values 0 out os ran, covered) done

-- When ValidateSingleTransaction accepts a transaction without supplemental entries, CalcTxFee over
-- the same set gives the fee that it returned.
pub calc_tx_fee-validate_single_transaction :
    (c : Primitives) (p : ChainParams) (s : Entries) (tip_height now : ℕ) (tx : Transaction)
    (fee : ℕ)
    → validate_single_transaction c p s tip_height now [] tx ≡ ok fee
    → calc_tx_fee tx s ≡ ok fee
unfolding validate_single_transaction calc_tx_fee
calc_tx_fee-validate_single_transaction c p s tip_height now tx fee h =
    let height = (tip_height + 1) % 2 ^ 32 in
    after_test (is_coinbase tx) _ _ h λ other h₁.
      after_test (length tx.inputs == 0) _ _ h₁ λ inputs h₂.
        after_test (length tx.outputs == 0) _ _ h₂ λ outputs h₃.
          after_test (ltb max_tx_size (tx_size tx)) _ _ h₃ λ size h₄.
            after (single_inputs p height s [] tx.inputs [] 0) _ h₄ λ r ran h₅.
              after (transaction_fee r.0 tx.outputs) _ h₅ λ paid charged h₆.
                after (validate_scripts c tx 0 tx.inputs r.1) _ h₆ λ u scripts h₇.
                  after (check_locks p s height now tx) _ h₇ λ u' locks done.
                    rw (other, sum_input_values-single_inputs p height s tx.inputs [] 0 r ran)
                      (fee_of_sum-transaction_fee r.0 paid tx.outputs charged ∙ done)
