-- ===== src/Tests/Wire.antt =====
-- internal/types on concrete bytes.
use go_chain.Prelude.{◌<◌, ◌^◌, ◌≡◌, refl, [], ◌∷◌, ◌++◌, arith, ok, err}
use go_chain.Types.Bytes.{AreBytes, put_le, get_le}
use go_chain.Types.Reader.{read_full, non_canonical, unexpected_eof}
use go_chain.Types.VarInt.{put_var_int, read_var_int}
use go_chain.Types.VarInt.Canonical.{read_var_int-eq_ok}
use go_chain.Types.VarInt.Agreement.{value_of, value_read, read_var_int_from_bytes_agrees}
use go_chain.Types.VarInt.{read_var_int_from_bytes}
use go_chain.Types.Transaction.{
  Hash, Transaction, serialize_tx, serialize_input, serialize_output, serialize_all,
}
use go_chain.Types.Transaction.RoundTrip.{IsTx, deserialize_tx-serialize_tx, deserialize_tx-eq_ok}
use go_chain.Types.Block.{Block, serialize_header, serialize_block, deserialize_block}
use go_chain.Types.Block.RoundTrip.{
  IsBlock, deserialize_block-serialize_block, deserialize_block-eq_ok,
}

read_300 : read_var_int (0xFD ∷ 0x2C ∷ 0x01 ∷ 7 ∷ []) ≡ ok (300, 7 ∷ [])
unfolding read_var_int read_full get_le
read_300 = refl

-- 12 in three bytes.
read_padded : read_var_int (0xFD ∷ 0x0C ∷ 0x00 ∷ []) ≡ err non_canonical
unfolding read_var_int read_full get_le
read_padded = refl

read_cut : read_var_int (0xFE ∷ 0x0C ∷ []) ≡ err unexpected_eof
unfolding read_var_int read_full get_le
read_cut = refl

read_var_int-eq_ok_example :
    (0xFD ∷ 0x2C ∷ 0x01 ∷ 7 ∷ [] ≡ put_var_int 300 ++ (7 ∷ [])) × (300 < 2 ^ 64) × AreBytes (7 ∷ [])
read_var_int-eq_ok_example =
    read_var_int-eq_ok 300 (0xFD ∷ 0x2C ∷ 0x01 ∷ 7 ∷ []) (7 ∷ []) (omega arith) read_300

read_var_int_from_bytes_agrees_example :
    value_of (read_var_int_from_bytes (0xFD ∷ 0x2C ∷ []))
    ≡ value_read (read_var_int (0xFD ∷ 0x2C ∷ []))
read_var_int_from_bytes_agrees_example = read_var_int_from_bytes_agrees (0xFD ∷ 0x2C ∷ [])

abbrev zeros : Hash
zeros = put_le 32 0

abbrev small_tx : Transaction
small_tx = record {
  version = 2;
  inputs =
      record {
        previous_out_point = record { hash = put_le 32 5; index = 1 };
        signature_script = 0x51 ∷ [];
        sequence = 0xFFFFFFFF;
      }
      ∷ [];
  outputs = record { value = 900; pk_script = 0x6A ∷ 0x01 ∷ [] } ∷ [];
  lock_time = 0;
}

small_tx-IsTx : IsTx small_tx
unfolding put_le
small_tx-IsTx = omega arith

small_bytes-AreBytes : AreBytes (serialize_tx small_tx ++ (9 ∷ []))
unfolding serialize_tx serialize_all serialize_input serialize_output put_le put_var_int
small_bytes-AreBytes = omega arith

deserialize_tx-eq_ok_example :
    (serialize_tx small_tx ++ (9 ∷ []) ≡ serialize_tx small_tx ++ (9 ∷ []))
    × IsTx small_tx
    × AreBytes (9 ∷ [])
deserialize_tx-eq_ok_example =
    deserialize_tx-eq_ok small_tx (serialize_tx small_tx ++ (9 ∷ [])) (9 ∷ []) small_bytes-AreBytes
      (deserialize_tx-serialize_tx small_tx (9 ∷ []) small_tx-IsTx)

abbrev small_block : Block
small_block = record {
  header = record {
    version = 1;
    prev_block = zeros;
    merkle_root = put_le 32 77;
    timestamp = 1774175035;
    bits = 0x207FFFFF;
    nonce = 3;
  };
  transactions = small_tx ∷ [];
}

small_block-IsBlock : IsBlock small_block
unfolding put_le
small_block-IsBlock = omega arith

deserialize_block-serialize_block_example :
    deserialize_block (serialize_block small_block ++ []) ≡ ok (small_block, [])
deserialize_block-serialize_block_example =
    deserialize_block-serialize_block small_block [] small_block-IsBlock

block_bytes-AreBytes : AreBytes (serialize_block small_block ++ [])
unfolding serialize_block serialize_header serialize_tx serialize_all serialize_input
    serialize_output put_le put_var_int
block_bytes-AreBytes = omega arith

deserialize_block-eq_ok_example :
    (serialize_block small_block ++ [] ≡ serialize_block small_block ++ [])
    × IsBlock small_block
    × AreBytes []
deserialize_block-eq_ok_example =
    deserialize_block-eq_ok small_block (serialize_block small_block ++ []) [] block_bytes-AreBytes
      deserialize_block-serialize_block_example
