-- ===== src/Utxo/Codec/RoundTrip.antt =====
-- What is written to storage is read back.
use go_chain.Prelude.{
  ℕ, ◌+◌, ◌%◌, ◌^◌, ◌≤◌, ◌<◌, ◌≡◌, refl, subst, Bool, true, false, ◌∷◌, ◌++◌, leb, ltb, ◌==◌,
  if◌then◌else◌, length, take, drop, get_or, arith, ok, append_assoc, length-append,
  take-append_self, drop-append_self,
}
use go_chain.Types.Bytes.{Bytes, put_le, get_le, get_le-put_le}
use go_chain.Types.VarInt.{put_var_int, var_int_size}
use go_chain.Types.VarInt.Canonical.{read_var_int-put_var_int, length-put_var_int}
use go_chain.Types.VarInt.Agreement.{read_var_int_from_bytes_agrees}
use go_chain.Utxo.{UtxoEntry}
use go_chain.Utxo.Codec.{serialize_entry, read_length, script_of, deserialize_entry}

-- An entry as the set holds it: a uint64 and a uint32.
pub record IsEntry (e : UtxoEntry) : Type 0 where
  pub value : e.value < 2 ^ 64
  pub height : e.height < 2 ^ 32

pub read_length-put_var_int :
    (n : ℕ) (rest : Bytes) → n < 2 ^ 64 → read_length (put_var_int n ++ rest) ≡ ok n
unfolding read_length
read_length-put_var_int n rest h = ground (
  arith,
  read_var_int_from_bytes_agrees (put_var_int n ++ rest),
  read_var_int-put_var_int n rest h,
)

pub drop-front : (n : ℕ) (xs ys : Bytes) → length xs ≡ n → drop n (xs ++ ys) ≡ ys
drop-front n xs ys e = subst (λ m. drop m (xs ++ ys) ≡ ys) e (drop-append_self xs ys)

pub take-front : (n : ℕ) (xs ys : Bytes) → length xs ≡ n → take n (xs ++ ys) ≡ xs
take-front n xs ys e = subst (λ m. take m (xs ++ ys) ≡ xs) e (take-append_self xs ys)

script_of-script :
    (s rest : Bytes)
    → length (put_var_int (length s) ++ (s ++ rest)) < 2 ^ 63
    → script_of (put_var_int (length s) ++ (s ++ rest)) ≡ ok s
unfolding script_of
script_of-script s rest h =
    let n = length s in
    let vi = put_var_int n in
    let size = length-put_var_int n in
    let total : length (vi ++ (s ++ rest)) ≡ var_int_size n + (n + length rest) =
      omega (arith, length-append vi (s ++ rest), length-append s rest, size) in
    let no_panic : leb (2 ^ 63) (var_int_size n + n) ≡ false = ground (arith, total, h) in
    let whole : ltb (length (vi ++ (s ++ rest))) (var_int_size n + n) ≡ false =
      ground (arith, total) in
    rw (
      read_length-put_var_int n (s ++ rest) (omega (arith, total, h)),
      no_panic,
      whole,
      drop-front (var_int_size n) vi (s ++ rest) size,
      take-append_self s rest,
    )

flag_back : (b : Bool) → ((if b then 1 else 0) % 2 == 1) ≡ b
flag_back true = refl
flag_back false = refl

-- The encoding with what follows it, from left to right.
abbrev entry_bytes : UtxoEntry → Bytes → Bytes
entry_bytes e rest =
    put_le 8 e.value
    ++ (put_le 4 e.height
        ++ ((if e.is_coinbase then 1 else 0)
            ∷ (put_var_int (length e.pk_script) ++ (e.pk_script ++ rest))))

deserialize_entry-fields :
    (xs s : Bytes) (e : UtxoEntry)
    → 13 ≤ length xs
    → script_of (drop 13 xs) ≡ ok s
    → get_le (take 8 xs) ≡ e.value
    → s ≡ e.pk_script
    → get_le (take 4 (drop 8 xs)) ≡ e.height
    → (get_or xs 12 0 % 2 == 1) ≡ e.is_coinbase
    → deserialize_entry xs ≡ ok e
unfolding deserialize_entry
deserialize_entry-fields xs s e long script v p h b =
    let enough : ltb (length xs) 13 ≡ false = ground (arith, long) in
    rw (enough, script, v, p, h, b) refl

deserialize_entry-entry_bytes :
    (e : UtxoEntry) (rest : Bytes)
    → IsEntry e
    → length (entry_bytes e rest) < 2 ^ 63
    → deserialize_entry (entry_bytes e rest) ≡ ok e
unfolding put_le
deserialize_entry-entry_bytes e rest v h =
    let script = script_of-script e.pk_script rest (omega (arith, h)) in
    let value : get_le (put_le 8 e.value) ≡ e.value =
      get_le-put_le 8 e.value (omega (arith, v.value)) in
    let height : get_le (put_le 4 e.height) ≡ e.height =
      get_le-put_le 4 e.height (omega (arith, v.height)) in
    deserialize_entry-fields (entry_bytes e rest) e.pk_script e (omega arith) script value refl
      height (flag_back e.is_coinbase)

append-entry_bytes : (e : UtxoEntry) (rest : Bytes) → serialize_entry e ++ rest ≡ entry_bytes e rest
unfolding serialize_entry
append-entry_bytes e rest = simp append_assoc refl

-- DeserializeUtxoEntry reads back the entry that Serialize wrote, whatever follows it, in any slice
-- shorter than 2 ^ 63 bytes.
pub deserialize_entry-serialize_entry :
    (e : UtxoEntry) (rest : Bytes)
    → IsEntry e
    → length (serialize_entry e ++ rest) < 2 ^ 63
    → deserialize_entry (serialize_entry e ++ rest) ≡ ok e
deserialize_entry-serialize_entry e rest v h = rw (append-entry_bytes e rest) (
    deserialize_entry-entry_bytes e rest v
      (subst (λ xs. length xs < 2 ^ 63) (append-entry_bytes e rest) h))
