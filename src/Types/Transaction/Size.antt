-- ===== src/Types/Transaction/Size.antt =====
-- SerializeSize against Serialize.
use go_chain.Prelude.{ℕ, ◌+◌, ◌≡◌, List, [], ◌∷◌, arith, length, length-append, All}
use go_chain.Types.Bytes.{Bytes, length-put_le}
use go_chain.Types.VarInt.{var_int_size}
use go_chain.Types.VarInt.Canonical.{length-put_var_int}
use go_chain.Types.Transaction.{
  hash_size, TxInput, TxOutput, Transaction, serialize_input, serialize_output, serialize_all,
  serialize_tx, input_size, output_size, add_sizes, tx_size,
}

-- The hash field is a [32]byte.
abbrev pub HasHash : TxInput → Type 0
HasHash i = length i.previous_out_point.hash ≡ hash_size

pub length-serialize_input : (i : TxInput) → HasHash i → length (serialize_input i) ≡ input_size i
unfolding serialize_input input_size
length-serialize_input i h = omega (
  arith,
  length-append {0},
  length-put_le 4 i.previous_out_point.index,
  length-put_le 4 i.sequence,
  length-put_var_int (length i.signature_script),
)

pub length-serialize_output : (o : TxOutput) → length (serialize_output o) ≡ output_size o
unfolding serialize_output output_size
length-serialize_output o =
    omega
      (arith, length-append {0}, length-put_le 8 o.value, length-put_var_int (length o.pk_script))

add_sizes-serialize_all :
    {A : Type 0} (w : A → Bytes) (size : A → ℕ) (P : A → Type 0) (n : ℕ) (xs : List A)
    → ((x : A) → P x → length (w x) ≡ size x)
    → All P xs
    → add_sizes size n xs ≡ n + length (serialize_all w xs)
unfolding add_sizes serialize_all
add_sizes-serialize_all w size P n [] h p = omega arith
add_sizes-serialize_all w size P n (x ∷ xs) h p = omega (
  arith,
  length-append (w x) (serialize_all w xs),
  h x p.0,
  add_sizes-serialize_all w size P (n + size x) xs h p.1,
)

All-any : {A : Type 0} (xs : List A) → All (λ x. Unit {0}) xs
All-any [] = tt
All-any (x ∷ xs) = (tt, All-any xs)

-- SerializeSize is the number of bytes that Serialize writes, for every transaction.
pub length-serialize_tx :
    (tx : Transaction) → All HasHash tx.inputs → length (serialize_tx tx) ≡ tx_size tx
unfolding serialize_tx tx_size
length-serialize_tx tx h =
    let n = 4 + var_int_size (length tx.inputs) in
    let sizes =
      add_sizes-serialize_all serialize_input input_size HasHash n tx.inputs length-serialize_input
        h in
    omega (
      arith,
      length-append {0},
      length-put_le 4 tx.version,
      length-put_le 4 tx.lock_time,
      length-put_var_int (length tx.inputs),
      length-put_var_int (length tx.outputs),
      sizes,
      add_sizes-serialize_all serialize_output output_size (λ x. Unit {0})
          (add_sizes input_size n tx.inputs + var_int_size (length tx.outputs)) tx.outputs
          (λ o u. length-serialize_output o) (All-any tx.outputs),
    )
