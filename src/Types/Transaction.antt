-- ===== src/Types/Transaction.antt =====
-- internal/types/transaction.go: transactions and their canonical serialization. A writer is the
-- `sliceWriter` of that file, whose Write never fails, so a Serialize method is the bytes it appends.
-- Counts and lengths are Go's non-negative `int`, converted to uint64.
pub mod Codec
pub mod RoundTrip
pub mod Size
use go_chain.Prelude.{
  ℕ, zero, suc, ◌+◌, ◌≤◌, ◌<◌, ◌^◌, ◌≡◌, Bool, true, false, ◌&&◌, List, [], ◌∷◌, ◌++◌, ltb, ◌==◌,
  length, All,
}
use go_chain.Types.Bytes.{Bytes, AreBytes, put_le, get_le}
use go_chain.Types.Reader.{
  Reader, pure, ◌>>=◌, ◌>>◌, fail_if, read_full, too_many_inputs, too_many_outputs,
  script_too_large,
}
use go_chain.Types.VarInt.{put_var_int, var_int_size, read_var_int}

abbrev pub hash_size : ℕ
hash_size = 32

-- A [32]byte.
abbrev pub Hash : Type 0
Hash = Bytes

abbrev pub IsHash : Hash → Type 0
IsHash h = (length h ≡ hash_size) × AreBytes h

abbrev pub max_tx_inputs : ℕ
max_tx_inputs = 10000

abbrev pub max_tx_outputs : ℕ
max_tx_outputs = 10000

abbrev pub max_script_size : ℕ
max_script_size = 10000

pub record OutPoint : Type 0 where
  pub hash : Hash
  pub index : ℕ

pub record TxInput : Type 0 where
  pub previous_out_point : OutPoint
  pub signature_script : Bytes
  pub sequence : ℕ

pub record TxOutput : Type 0 where
  pub value : ℕ
  pub pk_script : Bytes

pub record Transaction : Type 0 where
  pub version : ℕ
  pub inputs : List TxInput
  pub outputs : List TxOutput
  pub lock_time : ℕ

-- Hash.IsZero
unfoldable pub is_zero : Hash → Bool
is_zero [] = true
is_zero (b ∷ h) = b == 0 && is_zero h

unfoldable pub input_is_coinbase : TxInput → Bool
unfolding is_zero
input_is_coinbase i = is_zero i.previous_out_point.hash && i.previous_out_point.index == 0xFFFFFFFF

-- `len(tx.Inputs) == 1 && tx.Inputs[0].IsCoinbase()`
inputs_are_coinbase : List TxInput → Bool
inputs_are_coinbase [] = false
inputs_are_coinbase (i ∷ []) = input_is_coinbase i
inputs_are_coinbase (i ∷ j ∷ is) = false

unfoldable pub is_coinbase : Transaction → Bool
unfolding inputs_are_coinbase input_is_coinbase
is_coinbase tx = inputs_are_coinbase tx.inputs

-- Serialization.

-- TxInput.Serialize
unfoldable pub serialize_input : TxInput → Bytes
serialize_input i =
    i.previous_out_point.hash
    ++ (put_le 4 i.previous_out_point.index
        ++ (put_var_int (length i.signature_script) ++ (i.signature_script ++ put_le 4 i.sequence)))

-- TxOutput.Serialize
unfoldable pub serialize_output : TxOutput → Bytes
serialize_output o = put_le 8 o.value ++ (put_var_int (length o.pk_script) ++ o.pk_script)

-- `for i := range xs { xs[i].Serialize(w) }`
unfoldable pub serialize_all : {A : Type 0} → (A → Bytes) → List A → Bytes
serialize_all f [] = []
serialize_all f (x ∷ xs) = f x ++ serialize_all f xs

-- Transaction.Serialize
unfoldable pub serialize_tx : Transaction → Bytes
serialize_tx tx =
    put_le 4 tx.version
    ++ (put_var_int (length tx.inputs)
        ++ (serialize_all serialize_input tx.inputs
            ++ (put_var_int (length tx.outputs)
                ++ (serialize_all serialize_output tx.outputs ++ put_le 4 tx.lock_time))))

-- TxInput.SerializeSize
unfoldable pub input_size : TxInput → ℕ
input_size i = 36 + var_int_size (length i.signature_script) + length i.signature_script + 4

-- TxOutput.SerializeSize
unfoldable pub output_size : TxOutput → ℕ
output_size o = 8 + var_int_size (length o.pk_script) + length o.pk_script

-- `for i := range xs { n += xs[i].SerializeSize() }`
unfoldable pub add_sizes : {A : Type 0} → (A → ℕ) → ℕ → List A → ℕ
add_sizes f n [] = n
add_sizes f n (x ∷ xs) = add_sizes f (n + f x) xs

-- Transaction.SerializeSize
unfoldable pub tx_size : Transaction → ℕ
unfolding add_sizes input_size output_size
tx_size tx =
    let n = add_sizes input_size (4 + var_int_size (length tx.inputs)) tx.inputs in
    add_sizes output_size (n + var_int_size (length tx.outputs)) tx.outputs + 4

-- Deserialization.

-- A length-prefixed script, of at most MaxScriptSize bytes.
unfoldable pub read_script : Reader Bytes
read_script = do
  script_len ← read_var_int
  fail_if (ltb max_script_size script_len) script_too_large
  read_full script_len

-- TxInput.Deserialize
unfoldable pub deserialize_input : Reader TxInput
unfolding read_script
deserialize_input = do
  hash ← read_full hash_size
  index ← read_full 4
  script ← read_script
  sequence ← read_full 4
  pure (record {
    previous_out_point = record { hash = hash; index = get_le index };
    signature_script = script;
    sequence = get_le sequence;
  })

-- TxOutput.Deserialize
unfoldable pub deserialize_output : Reader TxOutput
unfolding read_script
deserialize_output = do
  value ← read_full 8
  script ← read_script
  pure (record { value = get_le value; pk_script = script })

-- `for i := uint64(0); i < count; i++ { xs[i].Deserialize(r) }`
unfoldable pub read_times : {A : Type 0} → ℕ → Reader A → Reader (List A)
read_times zero m = pure []
read_times (suc n) m = do x ← m; xs ← read_times n m; pure (x ∷ xs)

-- Transaction.Deserialize
unfoldable pub deserialize_tx : Reader Transaction
unfolding deserialize_input deserialize_output read_times
deserialize_tx = do
  version ← read_full 4
  in_count ← read_var_int
  fail_if (ltb max_tx_inputs in_count) too_many_inputs
  inputs ← read_times in_count deserialize_input
  out_count ← read_var_int
  fail_if (ltb max_tx_outputs out_count) too_many_outputs
  outputs ← read_times out_count deserialize_output
  lock_time ← read_full 4
  pure (record {
    version = get_le version;
    inputs = inputs;
    outputs = outputs;
    lock_time = get_le lock_time;
  })
