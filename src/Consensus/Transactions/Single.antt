-- ===== src/Consensus/Transactions/Single.antt =====
-- ValidateSingleTransaction and CalcTxFee. The nil map of supplemental entries is the empty map, which
-- answers the same, and the clock (`time.Now().Unix()`) is the argument `now`.
pub mod Admission
use go_chain.Prelude.{
  ℕ, ◌+◌, ◌-◌, ◌%◌, ◌^◌, Bool, List, [], ◌∷◌, Option, some, none, ltb, ◌==◌, if◌then◌else◌, length,
  Result, ok, err, ◌>>=◌, ◌>>◌, fail_if,
}
use go_chain.KeyMap.{Map, lookup, has, insert}
use go_chain.Types.Transaction.{TxInput, TxOutput, Transaction, is_coinbase, tx_size}
use go_chain.Crypto.Keys.{Primitives}
use go_chain.Utxo.{UtxoEntry, Entries, key_of, get}
use go_chain.Params.{ChainParams, max_tx_size}
use go_chain.Consensus.Transactions.{
  check_maturity, add_input_value, resolve, transaction_fee, validate_scripts, check_locks,
}
use go_chain.Consensus.Transactions.Locks.{
  TxError, coinbase_alone, no_inputs, no_outputs, tx_too_large, duplicate_input, missing_utxo,
  input_overflow, output_overflow, inputs_below_outputs,
}

-- The set is looked at first, then the supplemental entries.
unfoldable pub find_entry : Entries → Map UtxoEntry → TxInput → Option UtxoEntry
find_entry s supplemental i = elim (get s i.previous_out_point.hash i.previous_out_point.index) [
  | some e ↦ some e
  | none ↦ lookup (key_of i.previous_out_point) supplemental
]

-- `for inIdx, in := range tx.Inputs` at the height of the spend: the sum and the entries.
unfoldable pub single_inputs :
    ChainParams
    → ℕ
    → Entries
    → Map UtxoEntry
    → List TxInput
    → Map (Unit {0})
    → ℕ
    → Result TxError (ℕ × List UtxoEntry)
unfolding find_entry
single_inputs p height s supplemental [] seen total_in = ok (total_in, [])
single_inputs p height s supplemental (i ∷ is) seen total_in = do
  let key = key_of i.previous_out_point
  fail_if (has key seen) duplicate_input
  e ← resolve none (find_entry s supplemental i)
  check_maturity p height e
  total ← add_input_value total_in e
  (total', es) ← single_inputs p height s supplemental is (insert key tt seen) total
  ok (total', e ∷ es)

-- ValidateSingleTransaction: the fee.
unfoldable pub validate_single_transaction :
    Primitives → ChainParams → Entries → ℕ → ℕ → Map UtxoEntry → Transaction → Result TxError ℕ
unfolding single_inputs
validate_single_transaction c p s tip_height now supplemental tx = do
  fail_if (is_coinbase tx) coinbase_alone
  fail_if (length tx.inputs == 0) no_inputs
  fail_if (length tx.outputs == 0) no_outputs
  fail_if (ltb max_tx_size (tx_size tx)) tx_too_large
  let spend_height = (tip_height + 1) % 2 ^ 32
  (total_in, es) ← single_inputs p spend_height s supplemental tx.inputs [] 0
  fee ← transaction_fee total_in tx.outputs
  validate_scripts c tx 0 tx.inputs es
  check_locks p s spend_height now tx
  ok fee

unfoldable pub sum_input_values : Entries → ℕ → List TxInput → Result TxError ℕ
sum_input_values s total_in [] = ok total_in
sum_input_values s total_in (i ∷ is) = do
  e ← resolve none (get s i.previous_out_point.hash i.previous_out_point.index)
  let total = (total_in + e.value) % 2 ^ 64
  fail_if (ltb total total_in) input_overflow
  sum_input_values s total is

unfoldable pub sum_output_values : ℕ → List TxOutput → Result TxError ℕ
sum_output_values total_out [] = ok total_out
sum_output_values total_out (o ∷ os) = do
  let total = (total_out + o.value) % 2 ^ 64
  fail_if (ltb total total_out) output_overflow
  sum_output_values total os

-- The end of CalcTxFee, from the sum of the inputs.
unfoldable pub fee_of_sum : ℕ → List TxOutput → Result TxError ℕ
unfolding sum_output_values
fee_of_sum total_in outputs = do
  total_out ← sum_output_values 0 outputs
  fail_if (ltb total_in total_out) inputs_below_outputs
  ok (total_in - total_out)

-- CalcTxFee
unfoldable pub calc_tx_fee : Transaction → Entries → Result TxError ℕ
unfolding sum_input_values fee_of_sum
calc_tx_fee tx s =
    if is_coinbase tx
    then ok 0
    else (do total_in ← sum_input_values s 0 tx.inputs; fee_of_sum total_in tx.outputs)
