-- ===== src/Consensus/Transactions/Locks.antt =====
-- CheckTransactionFinality and CheckSequenceLocks: absolute and relative lock times. A flag of the
-- 32-bit sequence is read as a digit, and the mask as a remainder.
pub mod Monotone
use go_chain.Prelude.{
  ℕ, ◌-◌, ◌/◌, ◌%◌, ◌^◌, Bool, true, ◌&&◌, List, [], ◌∷◌, some, none, leb, ltb, ◌==◌, if◌then◌else◌,
  Result, ok, err, ◌>>◌, fail_if,
}
use go_chain.Types.Transaction.{TxInput, Transaction, input_is_coinbase}
use go_chain.Utxo.{UtxoEntry, Entries, get}

-- The errors of txvalidation.go. `index_out_of_range` is a panic.
pub data TxError : Type 0 where
  coinbase_zero_output coinbase_alone no_inputs no_outputs tx_too_large index_out_of_range : TxError
  duplicate_input double_spend missing_utxo spent_before_created immature : TxError
  input_overflow input_too_large total_in_too_large : TxError
  zero_output output_too_large output_overflow total_out_too_large : TxError
  inputs_below_outputs script_failed : TxError
  height_lock_unsatisfied time_lock_unsatisfied : TxError
  sequence_utxo_missing sequence_time_unsupported sequence_below_height sequence_unsatisfied :
      TxError
  fees_overflow subsidy_overflow coinbase_overflow coinbase_too_large : TxError

unfoldable pub all_final : List TxInput → Bool
all_final [] = true
all_final (i ∷ is) = i.sequence == 0xFFFFFFFF && all_final is

abbrev pub lock_time_threshold : ℕ
lock_time_threshold = 500_000_000

-- CheckTransactionFinality
unfoldable pub check_transaction_finality : Transaction → ℕ → ℕ → Result TxError (Unit {0})
unfolding all_final
check_transaction_finality tx block_height block_median_time =
    if tx.lock_time == 0
    then ok tt
    else if all_final tx.inputs
    then ok tt
    else if ltb tx.lock_time lock_time_threshold
    then fail_if (leb block_height tx.lock_time) height_lock_unsatisfied
    else fail_if (leb block_median_time tx.lock_time) time_lock_unsatisfied

-- SequenceLockTimeDisableFlag and SequenceLockTimeTypeFlag, bits 31 and 22.
abbrev pub has_bit : ℕ → ℕ → Bool
has_bit sequence bit = sequence / 2 ^ bit % 2 == 1

-- The test of one input whose relative lock is on.
unfoldable pub check_relative_lock : TxInput → ℕ → UtxoEntry → Result TxError (Unit {0})
check_relative_lock i block_height entry = do
  fail_if (has_bit i.sequence 22) sequence_time_unsupported
  fail_if (ltb block_height entry.height) sequence_below_height
  fail_if (ltb (block_height - entry.height) (i.sequence % 2 ^ 16)) sequence_unsatisfied

unfoldable pub check_input_lock : Entries → ℕ → TxInput → Result TxError (Unit {0})
unfolding check_relative_lock
check_input_lock s block_height i =
    if has_bit i.sequence 31
    then ok tt
    else if input_is_coinbase i
    then ok tt
    else elim (get s i.previous_out_point.hash i.previous_out_point.index) [
      | none ↦ err sequence_utxo_missing
      | some entry ↦ check_relative_lock i block_height entry
    ]

-- CheckSequenceLocks over the transaction's inputs; its median time is not read.
unfoldable pub check_sequence_locks : Entries → ℕ → List TxInput → Result TxError (Unit {0})
unfolding check_input_lock
check_sequence_locks s block_height [] = ok tt
check_sequence_locks s block_height (i ∷ is) = do
  check_input_lock s block_height i
  check_sequence_locks s block_height is
