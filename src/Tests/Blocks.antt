-- ===== src/Tests/Blocks.antt =====
-- internal/consensus and internal/miner: admission of one transaction, and a block with its header.
use go_chain.Prelude.{
  ◌+◌, ◌%◌, ◌^◌, ◌≤◌, ◌≡◌, ◌⊎◌, refl, true, List, [], ◌∷◌, ◌++◌, none, arith, ok, ◌>>◌, fail_if,
}
use go_chain.KeyMap.{bytes_eq, lookup, has, insert, delete, member}
use go_chain.Types.Bytes.{Bytes, put_le, get_le, length-put_le}
use go_chain.Types.VarInt.{put_var_int, var_int_size}
use go_chain.Types.Transaction.{
  Transaction, is_coinbase, is_zero, input_is_coinbase, serialize_tx, serialize_input,
  serialize_output, serialize_all, tx_size, input_size, output_size,
}
use go_chain.Types.Transaction.RoundTrip.{IsTx}
use go_chain.Types.Block.{Block, serialize_block, serialize_header}
use go_chain.Crypto.Hash.{hash_transaction, double_sha256}
use go_chain.Crypto.Merkle.{merkle_root, pad, pair_up, climb, last}
use go_chain.Crypto.Merkle.Binding.{Collision, merkle_root-binding}
use go_chain.Utxo.{outpoint_key, Entries, SpentOutput, connect_block, get}
use go_chain.Utxo.Value.{sum_values}
use go_chain.Params.{calc_subsidy, activation_height}
use go_chain.Script.{verify_script, execute, run, step, is_legacy_unvalidated_script}
use go_chain.Consensus.Transactions.{
  validate_transaction_inputs, validate_txs, validate_coinbase, validate_transaction,
  transaction_fee, validate_inputs, resolve, check_maturity, add_input_value, register_outputs,
  validate_scripts, check_locks, check_reward, add_coinbase_values, no_zero_outputs, tx_hash_at,
  add_output_values, empty_view,
}
use go_chain.Consensus.Transactions.Locks.{
  check_transaction_finality, check_sequence_locks, coinbase_alone,
}
use go_chain.Consensus.Transactions.Single.{
  validate_single_transaction, single_inputs, find_entry, calc_tx_fee,
}
use go_chain.Consensus.Transactions.Single.Admission.{
  fee_only, validate_single_transaction-eq, calc_tx_fee-validate_single_transaction,
}
use go_chain.Consensus.Structure.{
  validate_block_structure, validate_transaction_list, check_coinbase_height,
  validate_coinbase_script_sig, minimal_push_len, no_coinbase, no_duplicates, check_merkle_root,
  check_coinbase_sum,
}
use go_chain.Consensus.Structure.Accepts.{
  connect_block-validate_block_structure, validate_block_structure-binding,
}
use go_chain.Consensus.Structure.CoinbaseHeight.{
  height_push, validate_coinbase_script_sig-eq_ok, validate_coinbase_script_sig-height_push,
}
use go_chain.Miner.{build_coinbase, coinbase_message, minimal_height_push_len}
use go_chain.Miner.Coinbase.{check_coinbase_height-build_coinbase}
use go_chain.Tests.Coins.{toy_sha256, second_tx, third_tx, before}
use go_chain.Tests.Scripts.{toy_primitives, params}

admitted : validate_single_transaction toy_primitives params before 6 0 [] second_tx ≡ ok 1
unfolding validate_single_transaction single_inputs find_entry get resolve check_maturity
    add_input_value transaction_fee add_output_values validate_scripts check_locks
    check_transaction_finality check_sequence_locks activation_height is_legacy_unvalidated_script
    verify_script execute run step is_coinbase input_is_coinbase is_zero tx_size input_size
    output_size var_int_size lookup has insert bytes_eq outpoint_key put_le
admitted = refl

validate_single_transaction-eq_example :
    validate_single_transaction toy_primitives params before 6 0 [] second_tx ≡ (
      fail_if (is_coinbase second_tx) coinbase_alone
      >> fee_only (
          validate_transaction toy_primitives params before
            ((6 + 1) % 2 ^ 32)
            0
            none
            0
            second_tx
            empty_view))
validate_single_transaction-eq_example =
    validate_single_transaction-eq toy_primitives params before 6 0 second_tx

calc_tx_fee-validate_single_transaction_example : calc_tx_fee second_tx before ≡ ok 1
calc_tx_fee-validate_single_transaction_example =
    calc_tx_fee-validate_single_transaction toy_primitives params before 6 0 second_tx 1 admitted

-- The miner's coinbase at height 7 opens a block with the two transactions of Tests/Coins.
abbrev mined : Transaction
mined = build_coinbase (0x51 ∷ []) 7 50 0

abbrev mined_block : Block
mined_block = record {
  header = record {
    version = 1;
    prev_block = put_le 32 0;
    merkle_root = hash_transaction toy_sha256 mined;
    timestamp = 0;
    bits = 0;
    nonce = 0;
  };
  transactions = mined ∷ second_tx ∷ third_tx ∷ [];
}

well_formed : validate_block_structure toy_sha256 params mined_block 7 none none ≡ ok tt
unfolding validate_block_structure validate_transaction_list check_coinbase_height
    validate_coinbase_script_sig minimal_push_len no_coinbase no_duplicates check_merkle_root
    check_coinbase_sum merkle_root climb pad pair_up last double_sha256 hash_transaction
    serialize_block serialize_header serialize_tx serialize_input serialize_output serialize_all
    put_var_int put_le get_le is_coinbase input_is_coinbase is_zero member bytes_eq build_coinbase
    coinbase_message minimal_height_push_len
well_formed = refl

pays : validate_transaction_inputs toy_primitives params mined_block before 7 0 none ≡ ok 2
unfolding validate_transaction_inputs validate_txs validate_coinbase validate_transaction
    transaction_fee validate_inputs resolve check_maturity add_input_value register_outputs
    validate_scripts check_locks check_reward add_coinbase_values no_zero_outputs tx_hash_at
    add_output_values check_transaction_finality check_sequence_locks activation_height calc_subsidy
    is_legacy_unvalidated_script verify_script execute run step hash_transaction is_coinbase
    input_is_coinbase is_zero tx_size input_size output_size var_int_size lookup has insert delete
    bytes_eq outpoint_key serialize_tx serialize_input serialize_output serialize_all put_var_int
    put_le get_le build_coinbase coinbase_message minimal_height_push_len
pays = refl

connect_block-validate_block_structure_example :
    (s' : Entries) × (undo : List SpentOutput) × (connect_block toy_sha256 before mined_block 7 none
      ≡ ok (s', undo))
    × (sum_values s' ≤ sum_values before + calc_subsidy params 7)
unfolding build_coinbase
connect_block-validate_block_structure_example =
    connect_block-validate_block_structure toy_primitives params mined_block before 7 0 none none 2
      (omega arith, tt) well_formed pays

mined_txs-IsTx : (IsTx mined × IsTx second_tx) × IsTx third_tx
unfolding build_coinbase coinbase_message minimal_height_push_len put_le hash_transaction get_le
    serialize_tx put_var_int serialize_all serialize_input serialize_output
mined_txs-IsTx = ((omega arith, omega arith), omega arith)

validate_block_structure-binding_example :
    (mined_block.transactions ≡ mined_block.transactions) ⊎ Collision toy_sha256
validate_block_structure-binding_example =
    validate_block_structure-binding toy_sha256 params mined_block mined_block 7 7 none none
      (λ xs. length-put_le 32 (get_le xs))
      (mined_txs-IsTx.0.0, (mined_txs-IsTx.0.1, (mined_txs-IsTx.1, tt)))
      (mined_txs-IsTx.0.0, (mined_txs-IsTx.0.1, (mined_txs-IsTx.1, tt))) well_formed well_formed
      refl refl

merkle_root-binding_example :
    ((put_le 32 5 ∷ put_le 32 6 ∷ put_le 32 7 ∷ [])
      ≡ (put_le 32 5 ∷ put_le 32 6 ∷ put_le 32 8 ∷ []))
    ⊎ Collision toy_sha256
unfolding merkle_root climb pad pair_up last double_sha256 put_le get_le
merkle_root-binding_example =
    merkle_root-binding toy_sha256 (λ xs. length-put_le 32 (get_le xs))
      (put_le 32 5 ∷ put_le 32 6 ∷ put_le 32 7 ∷ []) (put_le 32 5 ∷ put_le 32 6 ∷ put_le 32 8 ∷ [])
      (refl, (refl, (refl, tt))) (refl, (refl, (refl, tt))) refl refl

accepts_height : validate_coinbase_script_sig (2 ∷ 0x2C ∷ 1 ∷ 99 ∷ []) 300 ≡ ok tt
unfolding validate_coinbase_script_sig minimal_push_len get_le
accepts_height = refl

validate_coinbase_script_sig-eq_ok_example :
    (rest : Bytes) × ((2 ∷ 0x2C ∷ 1 ∷ 99 ∷ []) ≡ height_push 300 ++ rest) × (2 ≤ 4) × (4 ≤ 100)
validate_coinbase_script_sig-eq_ok_example =
    validate_coinbase_script_sig-eq_ok (2 ∷ 0x2C ∷ 1 ∷ 99 ∷ []) 300 (omega arith) accepts_height

validate_coinbase_script_sig-height_push_example :
    validate_coinbase_script_sig (height_push 70000 ++ (99 ∷ [])) 70000 ≡ ok tt
validate_coinbase_script_sig-height_push_example =
    validate_coinbase_script_sig-height_push 70000 (99 ∷ []) (omega arith) (omega arith)

check_coinbase_height-build_coinbase_example :
    (is_coinbase (build_coinbase (0x51 ∷ []) 70000 50 3) ≡ true)
    × (check_coinbase_height 70000 (build_coinbase (0x51 ∷ []) 70000 50 3).inputs ≡ ok tt)
check_coinbase_height-build_coinbase_example =
    check_coinbase_height-build_coinbase (0x51 ∷ []) 70000 50 3 (omega arith)
