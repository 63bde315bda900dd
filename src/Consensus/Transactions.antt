-- ===== src/Consensus/Transactions.antt =====
-- internal/consensus/txvalidation.go. A uint64 sum is taken modulo 2 ^ 64. The entries that the
-- source collects in a slice for the script checks are handed on as a list.
pub mod Locks
pub mod Connects
pub mod Single
use go_chain.Prelude.{
  ℕ, suc, ◌+◌, ◌-◌, ◌%◌, ◌^◌, Bool, true, false, ◌&&◌, not, List, [], ◌∷◌, Option, some, none, leb,
  ltb, ◌==◌, if◌then◌else◌, length, get_elem?, Result, ok, err, ◌>>=◌, ◌>>◌, fail_if,
}
use go_chain.KeyMap.{Map, lookup, has, insert, delete}
use go_chain.Types.Bytes.{Bytes}
use go_chain.Types.Transaction.{Hash, TxInput, TxOutput, Transaction, is_coinbase, tx_size}
use go_chain.Types.Block.{Block}
use go_chain.Crypto.Hash.{hash_transaction}
use go_chain.Crypto.Keys.{Primitives}
use go_chain.Script.{verify_script, is_legacy_unvalidated_script}
use go_chain.Utxo.{UtxoEntry, Entries, outpoint_key, key_of, entry_of}
use go_chain.Params.{ChainParams, max_money_value, max_tx_size, calc_subsidy, activation_height}
use Locks.{
  TxError, coinbase_zero_output, no_inputs, no_outputs, tx_too_large, index_out_of_range,
  duplicate_input, double_spend, missing_utxo, spent_before_created, immature, input_overflow,
  input_too_large, total_in_too_large, zero_output, output_too_large, output_overflow,
  total_out_too_large, inputs_below_outputs, script_failed, fees_overflow, subsidy_overflow,
  coinbase_overflow, coinbase_too_large, check_transaction_finality, check_sequence_locks,
}

-- The maps that ValidateTransactionInputs keeps over a block.
pub record View : Type 0 where
  pub spent_in_block : Map (Unit {0})
  pub created_in_block : Map UtxoEntry

abbrev pub empty_view : View
empty_view = record { spent_in_block = []; created_in_block = [] }

-- The coinbase rule for an entry that is spent at `height`.
unfoldable pub check_maturity : ChainParams → ℕ → UtxoEntry → Result TxError (Unit {0})
check_maturity p height e =
    if e.is_coinbase
    then (do
      fail_if (ltb height e.height) spent_before_created
      fail_if (ltb (height - e.height) p.coinbase_maturity) immature)
    else ok tt

-- Adding an input's value to the sum so far.
unfoldable pub add_input_value : ℕ → UtxoEntry → Result TxError ℕ
add_input_value total_in e = do
  let total = (total_in + e.value) % 2 ^ 64
  fail_if (ltb total total_in) input_overflow
  fail_if (ltb max_money_value e.value) input_too_large
  fail_if (ltb max_money_value total) total_in_too_large
  ok total

-- In-block outputs are looked for first, then the set.
unfoldable pub resolve : Option UtxoEntry → Option UtxoEntry → Result TxError UtxoEntry
resolve (some e) in_set = ok e
resolve none (some e) = ok e
resolve none none = err missing_utxo

-- What the loop over a transaction's inputs leaves: the maps, the sum of the values, the entries.
abbrev pub Inputs : Type 0
Inputs = View × ℕ × List UtxoEntry

-- `for inIdx, in := range tx.Inputs`
unfoldable pub validate_inputs :
    ChainParams → ℕ → Entries → List TxInput → Map (Unit {0}) → View → ℕ → Result TxError Inputs
unfolding check_maturity add_input_value resolve
validate_inputs p height s [] seen v total_in = ok (v, total_in, [])
validate_inputs p height s (i ∷ is) seen v total_in = do
  let key = key_of i.previous_out_point
  fail_if (has key seen) duplicate_input
  fail_if (has key v.spent_in_block) double_spend
  e ← resolve (lookup key v.created_in_block) (lookup key s)
  check_maturity p height e
  total ← add_input_value total_in e
  (v', total', es) ←
      validate_inputs p height s is (insert key tt seen)
        (record {
          spent_in_block = insert key tt v.spent_in_block;
          created_in_block = delete key v.created_in_block;
        })
        total
  ok (v', total', e ∷ es)

-- `for outIdx, out := range tx.Outputs`, from the sum so far.
unfoldable pub add_output_values : ℕ → List TxOutput → Result TxError ℕ
add_output_values total_out [] = ok total_out
add_output_values total_out (o ∷ os) = do
  fail_if (o.value == 0) zero_output
  fail_if (ltb max_money_value o.value) output_too_large
  let total = (total_out + o.value) % 2 ^ 64
  fail_if (ltb total total_out) output_overflow
  add_output_values total os

-- Outputs that later transactions of the block may spend, from index `n` on.
unfoldable pub register_outputs :
    Hash → ℕ → Bool → ℕ → List TxOutput → Map UtxoEntry → Map UtxoEntry
register_outputs tx_hash height coinbase n [] created = created
register_outputs tx_hash height coinbase n (o ∷ os) created =
    register_outputs tx_hash height coinbase (n + 1) os
      (insert (outpoint_key tx_hash (n % 2 ^ 32)) (entry_of o height coinbase) created)

-- Script validation of the inputs from index `n` on, against their entries.
unfoldable pub validate_scripts :
    Primitives → Transaction → ℕ → List TxInput → List UtxoEntry → Result TxError (Unit {0})
validate_scripts c tx n [] es = ok tt
validate_scripts c tx n (i ∷ is) [] = ok tt
validate_scripts c tx n (i ∷ is) (e ∷ es) = do
  if is_legacy_unvalidated_script e.pk_script
      then ok tt
      else elim (verify_script c i.signature_script e.pk_script tx n) [
        | ok u ↦ ok tt
        | err x ↦ err script_failed
      ]
  validate_scripts c tx (n + 1) is es

-- The lock times, from the activation height on.
unfoldable pub check_locks : ChainParams → Entries → ℕ → ℕ → Transaction → Result TxError (Unit {0})
check_locks p s height median_time tx = elim (activation_height "locktime" p.activation_heights) [
  | none ↦ ok tt
  | some h ↦
      if leb h height
      then (do
        check_transaction_finality tx height median_time
        check_sequence_locks s height tx.inputs)
      else ok tt
]

unfoldable pub tx_hash_at :
    (Bytes → Bytes) → Option (List Hash) → ℕ → Transaction → Result TxError Hash
tx_hash_at sha256 none n tx = ok (hash_transaction sha256 tx)
tx_hash_at sha256 (some hs) n tx = elim (get_elem? hs n) [
  | some h ↦ ok h
  | none ↦ err index_out_of_range
]

unfoldable pub no_zero_outputs : List TxOutput → Result TxError (Unit {0})
no_zero_outputs [] = ok tt
no_zero_outputs (o ∷ os) = do fail_if (o.value == 0) coinbase_zero_output; no_zero_outputs os

-- The rounds over a coinbase.
unfoldable pub validate_coinbase :
    Primitives → ℕ → Option (List Hash) → ℕ → Transaction → View → Result TxError View
unfolding no_zero_outputs register_outputs
validate_coinbase c height hashes n tx v = do
  no_zero_outputs tx.outputs
  h ← tx_hash_at c.sha256 hashes n tx
  ok (record v {
    created_in_block = register_outputs h height true 0 tx.outputs v.created_in_block;
  })

-- The sums of a transaction, and its fee: inputs, outputs, and what stands between.
unfoldable pub transaction_fee : ℕ → List TxOutput → Result TxError ℕ
unfolding add_output_values
transaction_fee total_in outputs = do
  total_out ← add_output_values 0 outputs
  fail_if (ltb max_money_value total_out) total_out_too_large
  fail_if (ltb total_in total_out) inputs_below_outputs
  ok (total_in - total_out)

-- The rounds over another transaction: the maps, and its fee.
unfoldable pub validate_transaction :
    Primitives
    → ChainParams
    → Entries
    → ℕ
    → ℕ
    → Option (List Hash)
    → ℕ
    → Transaction
    → View
    → Result TxError (View × ℕ)
unfolding validate_inputs transaction_fee register_outputs validate_scripts check_locks
validate_transaction c p s height median_time hashes n tx v = do
  fail_if (length tx.inputs == 0) no_inputs
  fail_if (length tx.outputs == 0) no_outputs
  fail_if (ltb max_tx_size (tx_size tx)) tx_too_large
  h ← tx_hash_at c.sha256 hashes n tx
  (v', total_in, es) ← validate_inputs p height s tx.inputs [] v 0
  fee ← transaction_fee total_in tx.outputs
  validate_scripts c tx 0 tx.inputs es
  check_locks p s height median_time tx
  ok (
    record v' {
      created_in_block = register_outputs h height false 0 tx.outputs v'.created_in_block;
    },
    fee,
  )

-- `for txIdx := range block.Transactions`, from index `n` on, with the fees so far.
unfoldable pub validate_txs :
    Primitives
    → ChainParams
    → Entries
    → ℕ
    → ℕ
    → Option (List Hash)
    → ℕ
    → List Transaction
    → View
    → ℕ
    → Result TxError ℕ
validate_txs c p s height median_time hashes n [] v total_fees = ok total_fees
validate_txs c p s height median_time hashes n (tx ∷ txs) v total_fees =
    if is_coinbase tx
    then (do
      v' ← validate_coinbase c height hashes n tx v
      validate_txs c p s height median_time hashes (n + 1) txs v' total_fees)
    else (do
      (v', fee) ← validate_transaction c p s height median_time hashes n tx v
      let total = (total_fees + fee) % 2 ^ 64
      fail_if (ltb total total_fees) fees_overflow
      validate_txs c p s height median_time hashes (n + 1) txs v' total)

-- The sum of the coinbase's outputs.
unfoldable pub add_coinbase_values : ℕ → List TxOutput → Result TxError ℕ
add_coinbase_values total [] = ok total
add_coinbase_values total (o ∷ os) = do
  let next = (total + o.value) % 2 ^ 64
  fail_if (ltb next total) coinbase_overflow
  add_coinbase_values next os

-- The reward: at most the subsidy and the fees. `block.Transactions[0]` panics on an empty block.
unfoldable pub check_reward : ChainParams → ℕ → List Transaction → ℕ → Result TxError (Unit {0})
unfolding add_coinbase_values
check_reward p height [] total_fees = err index_out_of_range
check_reward p height (tx ∷ txs) total_fees = do
  let subsidy = calc_subsidy p height
  let max_coinbase = (subsidy + total_fees) % 2 ^ 64
  fail_if (ltb max_coinbase subsidy) subsidy_overflow
  coinbase_value ← add_coinbase_values 0 tx.outputs
  fail_if (ltb max_coinbase coinbase_value) coinbase_too_large

-- ValidateTransactionInputs: the fees of the block.
unfoldable pub validate_transaction_inputs :
    Primitives → ChainParams → Block → Entries → ℕ → ℕ → Option (List Hash) → Result TxError ℕ
unfolding check_reward
validate_transaction_inputs c p b s height median_time_past hashes = do
  total_fees ← validate_txs c p s height median_time_past hashes 0 b.transactions empty_view 0
  check_reward p height b.transactions total_fees
  ok total_fees
