-- ===== src/Utxo/Codec.antt =====
-- internal/utxo/utxo.go: the encodings of entries and of undo data. A length that does not fit an int
-- makes a negative bound, which the comparisons let pass and on which `make` or a slice then panics:
-- that is `too_long_panics`. `capacity` is the greatest number of elements for which `make` finds room.
pub mod RoundTrip
pub mod Undo
use go_chain.Prelude.{
  ℕ, zero, suc, ◌+◌, ◌/◌, ◌%◌, ◌^◌, Bool, true, false, List, [], ◌∷◌, ◌++◌, leb, ltb, ◌==◌,
  if◌then◌else◌, length, take, drop, get_or, Result, ok, err, ◌>>=◌, ◌>>◌, fail_if,
}
use go_chain.Types.Bytes.{Bytes, put_le, get_le}
use go_chain.Types.Reader.{ReadError}
use go_chain.Types.VarInt.{put_var_int, var_int_size, read_var_int_from_bytes}
use go_chain.Utxo.{UtxoEntry, SpentOutput}

pub data CodecError : Type 0 where
  entry_too_short bad_length entry_truncated undo_truncated too_long_panics : CodecError

-- UtxoEntry.Serialize
unfoldable pub serialize_entry : UtxoEntry → Bytes
serialize_entry e =
    put_le 8 e.value
    ++ (put_le 4 e.height
        ++ ((if e.is_coinbase then 1 else 0) ∷ (put_var_int (length e.pk_script) ++ e.pk_script)))

-- ReadVarIntFromBytes, with its error wrapped.
unfoldable pub read_length : Bytes → Result CodecError ℕ
read_length xs = elim (read_var_int_from_bytes xs) [ ok n ↦ ok n | err e ↦ err bad_length ]

-- The script after the 13 bytes of fixed fields.
unfoldable pub script_of : Bytes → Result CodecError Bytes
unfolding read_length
script_of rest = do
  script_len ← read_length rest
  let vi_size = var_int_size script_len
  fail_if (leb (2 ^ 63) (vi_size + script_len)) too_long_panics
  fail_if (ltb (length rest) (vi_size + script_len)) entry_truncated
  ok (take script_len (drop vi_size rest))

-- DeserializeUtxoEntry
unfoldable pub deserialize_entry : Bytes → Result CodecError UtxoEntry
unfolding script_of
deserialize_entry xs = do
  fail_if (ltb (length xs) 13) entry_too_short
  script ← script_of (drop 13 xs)
  ok (record {
    value = get_le (take 8 xs);
    pk_script = script;
    height = get_le (take 4 (drop 8 xs));
    is_coinbase = get_or xs 12 0 % 2 == 1;
  })

unfoldable pub serialize_spent : SpentOutput → Bytes
unfolding serialize_entry
serialize_spent x =
    let entry_bytes = serialize_entry x.entry in
    x.out_point.hash
    ++ (put_le 4 x.out_point.index ++ (put_var_int (length entry_bytes) ++ entry_bytes))

unfoldable pub serialize_all_spent : List SpentOutput → Bytes
serialize_all_spent [] = []
serialize_all_spent (x ∷ xs) = serialize_spent x ++ serialize_all_spent xs

-- SerializeUndoData
unfoldable pub serialize_undo_data : List SpentOutput → Bytes
unfolding serialize_all_spent
serialize_undo_data undo = put_var_int (length undo) ++ serialize_all_spent undo

-- The entry after a length, both from `offset` on: the entry, and the offset behind it.
unfoldable pub entry_at : Bytes → ℕ → Result CodecError (UtxoEntry × ℕ)
entry_at xs offset = do
  entry_len ← read_length (drop offset xs)
  let start = offset + var_int_size entry_len
  fail_if (leb (2 ^ 63) (start + entry_len)) too_long_panics
  fail_if (ltb (length xs) (start + entry_len)) undo_truncated
  entry ← deserialize_entry (take entry_len (drop start xs))
  ok (entry, start + entry_len)

-- `for i := uint64(0); i < count; i++`
unfoldable pub deserialize_spent : Bytes → ℕ → ℕ → Result CodecError (List SpentOutput)
unfolding entry_at
deserialize_spent xs zero offset = ok []
deserialize_spent xs (suc count) offset = do
  fail_if (ltb (length xs) (offset + 36)) undo_truncated
  (entry, offset') ← entry_at xs (offset + 36)
  rest ← deserialize_spent xs count offset'
  ok (
      record {
        out_point = record {
          hash = take 32 (drop offset xs);
          index = get_le (take 4 (drop (offset + 32) xs));
        };
        entry = entry;
      }
      ∷ rest)

-- DeserializeUndoData
unfoldable pub deserialize_undo_data : ℕ → Bytes → Result CodecError (List SpentOutput)
unfolding deserialize_spent
deserialize_undo_data capacity [] = ok []
deserialize_undo_data capacity (x ∷ xs) = do
  count ← read_length (x ∷ xs)
  fail_if (ltb capacity count) too_long_panics
  deserialize_spent (x ∷ xs) count (var_int_size count)
