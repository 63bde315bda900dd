-- ===== src/Tests/Pool.antt =====
-- internal/mempool with two transactions, the second of which spends an output of the first, and the
-- miner on top of it.
use go_chain.Prelude.{
  ℕ, ◌*◌, ◌^◌, ◌≤◌, ◌<◌, ◌≡◌, ◌↔◌, refl, false, List, [], ◌∷◌, ◌++◌, arith, err, length, map, All,
}
use mathlib.Core.List.{Perm}
use go_chain.KeyMap.{lookup, has, insert, delete, bytes_eq}
use go_chain.KeyMap.Distinct.{values}
use go_chain.Types.Bytes.{put_le, get_le}
use go_chain.Types.VarInt.{put_var_int, var_int_size}
use go_chain.Types.Transaction.{
  Hash, IsHash, Transaction, is_coinbase, input_is_coinbase, is_zero, tx_size, input_size,
  output_size, serialize_tx, serialize_input, serialize_output, serialize_all,
}
use go_chain.Types.Transaction.Size.{HasHash}
use go_chain.Types.Block.{BlockHeader, serialize_block}
use go_chain.Crypto.Hash.{hash_transaction}
use go_chain.Params.{activation_height}
use go_chain.Consensus.Transactions.Single.{validate_single_transaction, single_inputs, find_entry}
use go_chain.Consensus.Transactions.{
  check_maturity, add_input_value, resolve, transaction_fee, add_output_values, validate_scripts,
  check_locks,
}
use go_chain.Consensus.Transactions.Locks.{check_transaction_finality, check_sequence_locks}
use go_chain.Script.{is_legacy_unvalidated_script, verify_script, execute, run, step}
use go_chain.Utxo.{get, outpoint_key}
use go_chain.Mempool.{
  Mempool, new, remove_txs, conflicting, input_keys, conflicts, mark_spent, unmark, add_tx,
  entry_size, validate, supplemental_entries, check_relay_fee, make_room, evict_to_count,
  evict_to_bytes, evict_lowest, evict_loop, insert_entry, remove_tx, remove_entry,
}
use go_chain.Mempool.FeeOrder.{TxEntry, drop_entry, hash_less}
use go_chain.Crypto.Target.{less_below}
use go_chain.Mempool.Valid.{IsValid}
use go_chain.Mempool.Runs.{IsBounded, Call, adds, removes, call, run_calls, run_calls-IsBounded}
use go_chain.Mempool.Conflicts.{IsRivalled, add_tx-conflicting}
use go_chain.Mempool.Template.{
  block_template, template_tx, sort_entries, insert_sorted, rate_before, add_fees,
}
use go_chain.Mempool.Template.Order.{IsRanked, sum_fees, block_template_lem}
use go_chain.Miner.Selection.{block_txs}
use go_chain.Miner.Selection.Fits.{block_txs-fits}
use go_chain.Tests.Coins.{toy_sha256, second_tx, third_tx, before, tx_of, input, output}
use go_chain.Tests.Scripts.{toy_primitives, params}

-- It spends what `second_tx` spends.
abbrev rival_tx : Transaction
rival_tx = tx_of 5 (input (put_le 32 9) 3 ∷ []) (output 20 ∷ [])

abbrev id_of : Transaction → Hash
id_of tx = hash_transaction toy_sha256 tx

abbrev calls : List Call
calls =
    adds before 6 0 100 second_tx
    ∷ adds before 6 0 101 third_tx
    ∷ adds before 6 0 102 rival_tx
    ∷ removes (id_of third_tx ∷ [])
    ∷ []

filled :
    map (λ (e : TxEntry). e.fee) (values (run_calls toy_primitives params new calls).txs) ≡ 1 ∷ []
unfolding call run_calls remove_txs add_tx entry_size conflicts input_keys validate
    supplemental_entries check_relay_fee make_room evict_to_count evict_to_bytes evict_lowest
    evict_loop insert_entry mark_spent unmark remove_tx remove_entry drop_entry
    validate_single_transaction single_inputs find_entry get resolve check_maturity add_input_value
    transaction_fee add_output_values validate_scripts check_locks check_transaction_finality
    check_sequence_locks activation_height is_legacy_unvalidated_script verify_script execute run
    step is_coinbase input_is_coinbase is_zero tx_size input_size output_size var_int_size lookup
    has insert delete bytes_eq outpoint_key put_le hash_transaction serialize_tx serialize_input
    serialize_output serialize_all put_var_int get_le
filled = refl

run_calls-IsBounded_example :
    IsBounded toy_sha256 params (run_calls toy_primitives params new calls)
run_calls-IsBounded_example = run_calls-IsBounded toy_primitives params (omega arith) calls

-- The pool after the first call.
abbrev pool : Mempool
pool = run_calls toy_primitives params new (adds before 6 0 100 second_tx ∷ [])

pool-IsValid : IsValid toy_sha256 params pool
pool-IsValid =
    (run_calls-IsBounded toy_primitives params (omega arith)
      (adds before 6 0 100 second_tx ∷ [])).valid

unknown : has (id_of rival_tx) pool.txs ≡ false
unfolding call run_calls remove_txs add_tx entry_size conflicts input_keys validate
    supplemental_entries check_relay_fee make_room evict_to_count evict_to_bytes evict_lowest
    evict_loop insert_entry mark_spent unmark remove_tx remove_entry drop_entry
    validate_single_transaction single_inputs find_entry get resolve check_maturity add_input_value
    transaction_fee add_output_values validate_scripts check_locks check_transaction_finality
    check_sequence_locks activation_height is_legacy_unvalidated_script verify_script execute run
    step is_coinbase input_is_coinbase is_zero tx_size input_size output_size var_int_size lookup
    has insert delete bytes_eq outpoint_key put_le hash_transaction serialize_tx serialize_input
    serialize_output serialize_all put_var_int get_le
unknown = refl

abbrev taken : Hash
taken = outpoint_key (put_le 32 9) 3

add_tx-conflicting_example :
    (add_tx toy_primitives params before 6 0 102 rival_tx pool ≡ err conflicting)
    ↔ IsRivalled pool (input_keys rival_tx.inputs)
unfolding is_coinbase input_is_coinbase is_zero put_le
add_tx-conflicting_example =
    add_tx-conflicting toy_primitives params before 6 0 102 rival_tx pool pool-IsValid refl
      (omega arith) (omega arith) unknown

hashes : All (λ (e : TxEntry). All HasHash e.tx.inputs) (values pool.txs)
unfolding call run_calls remove_txs add_tx entry_size conflicts input_keys validate
    supplemental_entries check_relay_fee make_room evict_to_count evict_to_bytes evict_lowest
    evict_loop insert_entry mark_spent unmark remove_tx remove_entry drop_entry
    validate_single_transaction single_inputs find_entry get resolve check_maturity add_input_value
    transaction_fee add_output_values validate_scripts check_locks check_transaction_finality
    check_sequence_locks activation_height is_legacy_unvalidated_script verify_script execute run
    step is_coinbase input_is_coinbase is_zero tx_size input_size output_size var_int_size lookup
    has insert delete bytes_eq outpoint_key put_le hash_transaction serialize_tx serialize_input
    serialize_output serialize_all put_var_int get_le
hashes = ((refl, tt), tt)

-- Three entries, of which two pay the same rate.
abbrev entry_of_rate : Transaction → ℕ → ℕ → TxEntry
entry_of_rate tx rate n = record {
  tx = tx;
  hash = put_le 32 n;
  fee = 100 * rate;
  fee_rate = rate;
  size = 100;
  added_at = 0;
}

abbrev crowded : Mempool
crowded = record new {
  txs =
      (put_le 32 7, entry_of_rate second_tx 3 7)
      ∷ (put_le 32 8, entry_of_rate third_tx 5 8)
      ∷ (put_le 32 6, entry_of_rate rival_tx 3 6)
      ∷ [];
}

fees : All (λ (e : TxEntry). e.fee < 2 ^ 64) (values crowded.txs)
fees = (omega arith, (omega arith, (omega arith, tt)))

entry_hashes : All (λ (e : TxEntry). IsHash e.hash) (values crowded.txs)
unfolding put_le
entry_hashes = (omega arith, (omega arith, (omega arith, tt)))

-- The best rate first, and then the smaller hash.
ranked : (block_template crowded).transactions ≡ third_tx ∷ rival_tx ∷ second_tx ∷ []
unfolding block_template sort_entries insert_sorted rate_before add_fees hash_less less_below put_le
ranked = refl

block_template_lem_example :
    let t = block_template crowded in
    (picked : List TxEntry) × (rest : List TxEntry) × IsRanked (picked ++ rest)
    × Perm (picked ++ rest) (values crowded.txs)
    × (t.transactions ≡ map (λ (e : TxEntry). e.tx) picked)
    × (t.entries ≡ map template_tx picked)
    × (t.total_fees ≡ sum_fees picked)
    × (t.total_fees < 2 ^ 64)
    × (sum_fees (values crowded.txs) < 2 ^ 64 → rest ≡ [])
block_template_lem_example = block_template_lem crowded fees entry_hashes

abbrev header : BlockHeader
header = record {
  version = 1;
  prev_block = put_le 32 0;
  merkle_root = put_le 32 1;
  timestamp = 1000;
  bits = 0x2000007f;
  nonce = 0;
}

block_txs-fits_example :
    let txs = block_txs params pool (0x51 ∷ []) 7 0 in
    (length txs ≤ params.max_block_tx_count)
    × (length (serialize_block (record { header = header; transactions = txs }))
        ≤ params.max_block_size)
unfolding put_le
block_txs-fits_example =
    block_txs-fits toy_sha256 params pool (0x51 ∷ []) 7 0 header pool-IsValid hashes (omega arith)
      (omega arith) (omega arith) (omega arith) refl refl
