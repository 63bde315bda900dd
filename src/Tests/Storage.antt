-- ===== src/Tests/Storage.antt =====
-- internal/utxo: entries and undo data in storage.
use go_chain.Prelude.{◌≡◌, refl, [], ◌∷◌, ◌++◌, arith, ok, err}
use go_chain.Types.Bytes.{put_le, get_le}
use go_chain.Types.VarInt.{put_var_int, var_int_size, read_var_int_from_bytes}
use go_chain.Utxo.Codec.{
  serialize_entry, read_length, script_of, deserialize_entry, serialize_spent, serialize_all_spent,
  serialize_undo_data, deserialize_undo_data, too_long_panics,
}
use go_chain.Utxo.Codec.RoundTrip.{deserialize_entry-serialize_entry}
use go_chain.Utxo.Codec.Undo.{deserialize_undo_data-serialize_undo_data}
use go_chain.Tests.Coins.{old_entry, spent}

deserialize_entry-serialize_entry_example :
    deserialize_entry (serialize_entry old_entry ++ (9 ∷ [])) ≡ ok old_entry
unfolding serialize_entry put_le put_var_int
deserialize_entry-serialize_entry_example =
    deserialize_entry-serialize_entry old_entry (9 ∷ []) (omega arith) (omega arith)

deserialize_undo_data-serialize_undo_data_example :
    deserialize_undo_data 1000 (serialize_undo_data spent) ≡ ok spent
unfolding serialize_undo_data serialize_all_spent serialize_spent serialize_entry put_le put_var_int
deserialize_undo_data-serialize_undo_data_example =
    deserialize_undo_data-serialize_undo_data 1000 spent (omega arith) (omega arith) (omega arith)

-- A script length of all ones is no error of the decoder: it panics.
all_ones :
    deserialize_entry (put_le 13 0 ++ (0xFF ∷ put_le 8 0xFFFFFFFFFFFFFFFF)) ≡ err too_long_panics
unfolding deserialize_entry script_of read_length read_var_int_from_bytes var_int_size put_le get_le
all_ones = refl
