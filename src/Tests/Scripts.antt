-- ===== src/Tests/Scripts.antt =====
-- internal/script and internal/consensus with functions in the place of the cryptography: a
-- signature is valid for a key of the same bytes.
use go_chain.Prelude.{
  ◌+◌, ◌*◌, ◌≤◌, ◌≡◌, refl, false, List, [], ◌∷◌, some, none, take, arith, ok, ◌>>◌, fail_if, not,
}
use go_chain.KeyMap.{bytes_eq, lookup, has, insert, delete}
use go_chain.Types.Bytes.{Bytes, put_le, get_le}
use go_chain.Types.VarInt.{put_var_int, var_int_size}
use go_chain.Types.Transaction.{
  is_coinbase, is_zero, input_is_coinbase, serialize_tx, serialize_input, serialize_output,
  serialize_all, tx_size, input_size, output_size,
}
use go_chain.Utxo.{outpoint_key, Entries, SpentOutput, connect_block}
use go_chain.Utxo.Value.{sum_values}
use go_chain.Consensus.Transactions.Connects.Supply.{connect_block-validate_transaction_inputs}
use go_chain.Params.{ChainParams, calc_subsidy, activation_height, second}
use go_chain.Consensus.Transactions.{
  validate_transaction_inputs, validate_txs, validate_coinbase, validate_transaction,
  transaction_fee, validate_inputs, resolve, check_maturity, add_input_value, register_outputs,
  validate_scripts, check_locks, check_reward, add_coinbase_values, no_zero_outputs, tx_hash_at,
  add_output_values,
}
use go_chain.Consensus.Transactions.Locks.{check_transaction_finality, check_sequence_locks}
use go_chain.Crypto.Hash.{hash_transaction}
use go_chain.Crypto.Keys.{
  Primitives, hash160, make_p2pkh_script, make_p2pkh_signature_script, compute_sig_hash,
  sighash_inputs,
}
use go_chain.Script.{
  is_legacy_unvalidated_script, check_signature, execute, verify_script, not_equal, run, step,
}
use go_chain.Script.Limits.{Ends, execute-Ends}
use go_chain.Script.PayToHash.{verify_script_p2pkh}
use go_chain.Tests.Coins.{toy_sha256, coinbase_tx, second_tx, third_tx, coins_block, before}

abbrev pub toy_primitives : Primitives
toy_primitives = record {
  sha256 = toy_sha256;
  ripemd160 = take 20;
  Signature = Bytes;
  PublicKey = Bytes;
  parse_der_signature = some;
  parse_pub_key = some;
  verify = λ s h p. bytes_eq s p;
}

abbrev key : Bytes
key = 5 ∷ 6 ∷ 7 ∷ []

abbrev key_hash : Bytes
key_hash = 5 ∷ 6 ∷ 7 ∷ put_le 17 0

abbrev signature : Bytes
signature = 5 ∷ 6 ∷ 7 ∷ 1 ∷ []

-- The signature unlocks the output, and another one does not.
unlocks :
    verify_script toy_primitives
      (make_p2pkh_signature_script signature key)
      (make_p2pkh_script key_hash)
      second_tx
      0
    ≡ ok tt
unfolding verify_script execute run step check_signature hash160 make_p2pkh_script
    make_p2pkh_signature_script bytes_eq put_le get_le compute_sig_hash sighash_inputs
unlocks = refl

verify_script_p2pkh_example :
    verify_script toy_primitives
      (make_p2pkh_signature_script signature key)
      (make_p2pkh_script key_hash)
      second_tx
      0
    ≡ (fail_if (not (bytes_eq (hash160 toy_primitives key) key_hash)) not_equal
        >> check_signature toy_primitives second_tx 0 (make_p2pkh_script key_hash) signature key)
unfolding put_le
verify_script_p2pkh_example =
    verify_script_p2pkh toy_primitives second_tx 0 signature key key_hash (omega arith)
      (omega arith) (omega arith) (omega arith) (omega arith)

execute-Ends_example :
    Ends (execute toy_primitives second_tx 0 [] (0x51 ∷ 0x76 ∷ 0x87 ∷ []) (key ∷ []))
execute-Ends_example =
    execute-Ends toy_primitives second_tx 0 [] (0x51 ∷ 0x76 ∷ 0x87 ∷ []) (key ∷ []) (omega arith)

abbrev pub params : ChainParams
params = record {
  retarget_interval = 2016;
  target_timespan = 1209600 * second;
  max_time_future_drift = 7200 * second;
  min_timestamp_rule = "median-11";
  initial_bits = 0x1d00ffff;
  min_bits = 0x1d00ffff;
  no_retarget = false;
  target_block_spacing = 600 * second;
  allow_min_difficulty_blocks = false;
  max_block_size = 1000000;
  max_block_tx_count = 10000;
  initial_subsidy = 48;
  subsidy_halving_interval = 210000;
  coinbase_maturity = 100;
  activation_heights = ("locktime", 0) ∷ [];
  max_mempool_size = 2;
  min_relay_tx_fee = 1;
  min_relay_tx_fee_rate = 0;
  mempool_expiry = 3600 * second;
  max_reorg_depth = 288;
}

-- The block of Tests/Coins pays two in fees.
accepts_block : validate_transaction_inputs toy_primitives params coins_block before 7 0 none ≡ ok 2
unfolding validate_transaction_inputs validate_txs validate_coinbase validate_transaction
    transaction_fee validate_inputs resolve check_maturity add_input_value register_outputs
    validate_scripts check_locks check_reward add_coinbase_values no_zero_outputs tx_hash_at
    add_output_values check_transaction_finality check_sequence_locks activation_height calc_subsidy
    is_legacy_unvalidated_script verify_script execute run step hash_transaction is_coinbase
    input_is_coinbase is_zero tx_size input_size output_size var_int_size lookup has insert delete
    bytes_eq outpoint_key serialize_tx serialize_input serialize_output serialize_all put_var_int
    put_le get_le
accepts_block = refl

connect_block-validate_transaction_inputs_example :
    (s' : Entries) × (undo : List SpentOutput) × (connect_block toy_sha256 before coins_block 7 none
      ≡ ok (s', undo))
    × (sum_values s' ≤ sum_values before + calc_subsidy params 7)
unfolding is_coinbase input_is_coinbase is_zero put_le hash_transaction get_le serialize_tx
    put_var_int serialize_all serialize_input serialize_output
connect_block-validate_transaction_inputs_example =
    connect_block-validate_transaction_inputs toy_primitives params coins_block before 7 0 none
      coinbase_tx (second_tx ∷ third_tx ∷ []) 2
      (record {
        transactions = refl;
        first_is_coinbase = refl;
        no_other = (refl, (refl, tt));
        values = (omega arith, tt);
      })
      accepts_block
