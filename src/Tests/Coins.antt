-- ===== src/Tests/Coins.antt =====
-- internal/utxo on a block of three transactions, the third of which spends an output of the second.
use go_chain.Prelude.{ℕ, ◌≡◌, refl, true, false, List, [], ◌∷◌, none, ok, err, inl, inr, Bool-cases}
use go_chain.KeyMap.{bytes_eq, bytes_eq→eq, lookup, has, insert, delete, member}
use go_chain.Types.Bytes.{Bytes, put_le, get_le}
use go_chain.Types.VarInt.{put_var_int}
use go_chain.Types.Transaction.{
  Hash, TxInput, TxOutput, Transaction, is_coinbase, serialize_tx, serialize_input,
  serialize_output, serialize_all,
}
use go_chain.Types.Block.{Block}
use go_chain.Crypto.Hash.{hash_transaction}
use go_chain.Utxo.{
  UtxoEntry, SpentOutput, Entries, outpoint_key, entry_of, connect_txs, connect_block,
  disconnect_block, created_keys, hash_at, connect_tx_inputs, connect_outputs, missing_utxo,
}
use go_chain.Utxo.Connect.Inverse.{disconnect_block-connect_block}

-- A function with 32-byte values in the place of SHA-256.
abbrev pub toy_sha256 : Bytes → Bytes
toy_sha256 xs = put_le 32 (get_le xs)

abbrev pub output : ℕ → TxOutput
output v = record { value = v; pk_script = 0x51 ∷ [] }

abbrev pub input : Hash → ℕ → TxInput
input h n = record {
  previous_out_point = record { hash = h; index = n };
  signature_script = [];
  sequence = 0xFFFFFFFF;
}

abbrev pub tx_of : ℕ → List TxInput → List TxOutput → Transaction
tx_of v is os = record { version = v; inputs = is; outputs = os; lock_time = 0 }

abbrev pub coinbase_tx : Transaction
coinbase_tx = tx_of 1 (input (put_le 32 0) 0xFFFFFFFF ∷ []) (output 50 ∷ [])

abbrev pub second_tx : Transaction
second_tx = tx_of 2 (input (put_le 32 9) 3 ∷ []) (output 30 ∷ output 10 ∷ [])

abbrev pub third_tx : Transaction
third_tx = tx_of 3 (input (hash_transaction toy_sha256 second_tx) 0 ∷ []) (output 29 ∷ [])

abbrev pub coins_block : Block
coins_block = record {
  header = record {
    version = 1;
    prev_block = [];
    merkle_root = [];
    timestamp = 0;
    bits = 0;
    nonce = 0;
  };
  transactions = coinbase_tx ∷ second_tx ∷ third_tx ∷ [];
}

abbrev pub old_entry : UtxoEntry
old_entry = record { value = 41; pk_script = 0x51 ∷ []; height = 2; is_coinbase = false }

abbrev pub old_key : Bytes
old_key = outpoint_key (put_le 32 9) 3

abbrev pub before : Entries
before = (old_key, old_entry) ∷ []

abbrev key_at : Transaction → ℕ → Bytes
key_at tx n = outpoint_key (hash_transaction toy_sha256 tx) n

abbrev pub connected : Entries
connected =
    (key_at coinbase_tx 0, entry_of (output 50) 7 true)
    ∷ (key_at second_tx 1, entry_of (output 10) 7 false)
    ∷ (key_at third_tx 0, entry_of (output 29) 7 false)
    ∷ []

abbrev pub spent : List SpentOutput
spent = record { out_point = record { hash = put_le 32 9; index = 3 }; entry = old_entry } ∷ []

pub connects : connect_block toy_sha256 before coins_block 7 none ≡ ok (connected, spent)
unfolding connect_block connect_txs connect_tx_inputs connect_outputs hash_at hash_transaction
    is_coinbase lookup has insert delete bytes_eq outpoint_key serialize_tx serialize_input
    serialize_output serialize_all put_var_int put_le get_le
connects = refl

-- The same block again finds its input gone.
connects_once : connect_block toy_sha256 connected coins_block 7 none ≡ err missing_utxo
unfolding connect_block connect_txs connect_tx_inputs connect_outputs hash_at hash_transaction
    is_coinbase lookup has insert delete bytes_eq outpoint_key serialize_tx serialize_input
    serialize_output serialize_all put_var_int put_le get_le
connects_once = refl

pub fresh :
    (k : Bytes)
    → member k (created_keys toy_sha256 coins_block.transactions) ≡ true
    → lookup k before ≡ none
unfolding lookup
fresh k m = elim (Bool-cases (bytes_eq old_key k)) [
  | inr other ↦ rw other
  | inl same ↦ cc (absent, rw (← bytes_eq→eq old_key k same) at m)
]
  where
    absent : member old_key (created_keys toy_sha256 coins_block.transactions) ≡ false
    absent =
        unfold member created_keys hash_transaction bytes_eq outpoint_key serialize_tx
          serialize_input serialize_output serialize_all put_var_int put_le get_le in
        refl

disconnect_block-connect_block_example :
    lookup old_key (disconnect_block toy_sha256 connected coins_block spent) ≡ lookup old_key before
unfolding hash_at
disconnect_block-connect_block_example =
    disconnect_block-connect_block toy_sha256 before connected coins_block 7 none spent
      (refl, (refl, (refl, tt))) fresh connects old_key
