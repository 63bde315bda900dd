-- ===== src/Tests/Locked.antt =====
-- Lock times: a transaction locked to height 100, whose input wants three confirmations.
use go_chain.Prelude.{◌≡◌, refl, [], ◌∷◌, arith, ok, err}
use go_chain.KeyMap.{lookup, bytes_eq}
use go_chain.Types.Bytes.{put_le}
use go_chain.Types.Transaction.{Transaction, input_is_coinbase, is_zero}
use go_chain.Utxo.{outpoint_key, get}
use go_chain.Consensus.Transactions.Locks.{
  check_transaction_finality, check_sequence_locks, check_input_lock, check_relative_lock,
  all_final, height_lock_unsatisfied, sequence_unsatisfied,
}
use go_chain.Consensus.Transactions.Locks.Monotone.{locks_mono}
use go_chain.Tests.Coins.{output, before}

abbrev locked_tx : Transaction
locked_tx = record {
  version = 2;
  inputs =
      record {
        previous_out_point = record { hash = put_le 32 9; index = 3 };
        signature_script = [];
        sequence = 3;
      }
      ∷ [];
  outputs = output 30 ∷ [];
  lock_time = 100;
}

too_early : check_transaction_finality locked_tx 100 0 ≡ err height_lock_unsatisfied
unfolding check_transaction_finality all_final
too_early = refl

opens : check_transaction_finality locked_tx 101 0 ≡ ok tt
unfolding check_transaction_finality all_final
opens = refl

-- The input was created at height 2.
two_confirmations : check_sequence_locks before 4 locked_tx.inputs ≡ err sequence_unsatisfied
unfolding check_sequence_locks check_input_lock check_relative_lock input_is_coinbase is_zero get
    lookup bytes_eq outpoint_key put_le
two_confirmations = refl

confirmed : check_sequence_locks before 101 locked_tx.inputs ≡ ok tt
unfolding check_sequence_locks check_input_lock check_relative_lock input_is_coinbase is_zero get
    lookup bytes_eq outpoint_key put_le
confirmed = refl

locks_mono_example :
    (check_transaction_finality locked_tx 500 7 ≡ ok tt)
    × (check_sequence_locks before 500 locked_tx.inputs ≡ ok tt)
locks_mono_example =
    locks_mono locked_tx before 101 500 0 7 (omega arith) (omega arith) opens confirmed
