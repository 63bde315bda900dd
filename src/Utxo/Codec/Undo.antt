-- ===== src/Utxo/Codec/Undo.antt =====
-- Undo data is read back.
use go_chain.Prelude.{
  ℕ, suc, ◌+◌, ◌^◌, ◌≤◌, ◌<◌, ◌≡◌, refl, sym, ap, ◌∙◌, subst, false, List, [], ◌∷◌, ◌++◌, leb, ltb,
  length, take, drop, arith, All, ok, append_assoc, append-nil, length-append, take-append_self,
  drop-append_self,
}
use go_chain.Types.Bytes.{Bytes, put_le, get_le, length-put_le, get_le-put_le}
use go_chain.Types.VarInt.{put_var_int, var_int_size}
use go_chain.Types.VarInt.Canonical.{length-put_var_int}
use go_chain.Utxo.{UtxoEntry, SpentOutput}
use go_chain.Utxo.Codec.{
  serialize_entry, read_length, deserialize_entry, serialize_spent, serialize_all_spent,
  serialize_undo_data, entry_at, deserialize_spent, deserialize_undo_data,
}
use go_chain.Utxo.Codec.RoundTrip.{
  IsEntry, deserialize_entry-serialize_entry, read_length-put_var_int, drop-front, take-front,
}

pub record IsSpent (x : SpentOutput) : Type 0 where
  pub hash : length x.out_point.hash ≡ 32
  pub index : x.out_point.index < 2 ^ 32
  pub entry : IsEntry x.entry

-- An entry behind its length.
abbrev framed : UtxoEntry → Bytes → Bytes
framed e rest = put_var_int (length (serialize_entry e)) ++ (serialize_entry e ++ rest)

abbrev framed_size : UtxoEntry → ℕ
framed_size e = var_int_size (length (serialize_entry e)) + length (serialize_entry e)

length-framed :
    (e : UtxoEntry) (rest : Bytes) → length (framed e rest) ≡ framed_size e + length rest
length-framed e rest =
    let n = length (serialize_entry e) in
    omega (
      arith,
      length-append (put_var_int n) (serialize_entry e ++ rest),
      length-append (serialize_entry e) rest,
      length-put_var_int n,
    )

entry_at-framed :
    (front rest : Bytes) (e : UtxoEntry)
    → IsEntry e
    → length (front ++ framed e rest) < 2 ^ 63
    → entry_at (front ++ framed e rest) (length front) ≡ ok (e, length front + framed_size e)
unfolding entry_at
entry_at-framed front rest e v h =
    let eb = serialize_entry e in
    let n = length eb in
    let vi = put_var_int n in
    let start = length front + var_int_size n in
    let xs = front ++ framed e rest in
    let total : length xs ≡ length front + (framed_size e + length rest) =
      length-append front (framed e rest) ∙ ap (λ k. length front + k) (length-framed e rest) in
    let no_panic : leb (2 ^ 63) (start + n) ≡ false = ground (arith, total, h) in
    let whole : ltb (length xs) (start + n) ≡ false = ground (arith, total) in
    let behind : drop start xs ≡ eb ++ rest =
      ap (drop start) (sym (append_assoc front vi (eb ++ rest)))
      ∙ drop-front start (front ++ vi) (eb ++ rest)
          (omega (arith, length-append front vi, length-put_var_int n)) in
    let alone : deserialize_entry eb ≡ ok e =
      subst (λ bs. deserialize_entry bs ≡ ok e) (append-nil eb)
        (deserialize_entry-serialize_entry e [] v (omega (arith, length-append eb [], total, h))) in
    rw
      (
        drop-append_self front (framed e rest),
        read_length-put_var_int n (eb ++ rest) (omega (arith, total, h)),
        no_panic,
        whole,
        behind,
        take-append_self eb rest,
        alone,
      )
      (ap (λ k. ok (e, k)) (omega arith))

-- The bytes of one spent output, with what follows them.
abbrev spent_bytes : SpentOutput → Bytes → Bytes
spent_bytes x rest = x.out_point.hash ++ (put_le 4 x.out_point.index ++ framed x.entry rest)

abbrev spent_size : SpentOutput → ℕ
spent_size x = 36 + framed_size x.entry

append-spent_bytes :
    (x : SpentOutput) (xs : List SpentOutput) (rest : Bytes)
    → serialize_all_spent (x ∷ xs) ++ rest ≡ spent_bytes x (serialize_all_spent xs ++ rest)
unfolding serialize_all_spent serialize_spent
append-spent_bytes x xs rest = simp append_assoc refl

deserialize_spent-step :
    (front rest : Bytes) (x : SpentOutput) (xs : List SpentOutput) (count : ℕ)
    → IsSpent x
    → length (front ++ spent_bytes x rest) < 2 ^ 63
    → deserialize_spent (front ++ spent_bytes x rest) count (length front + spent_size x) ≡ ok xs
    → deserialize_spent (front ++ spent_bytes x rest) (suc count) (length front) ≡ ok (x ∷ xs)
unfolding deserialize_spent
deserialize_spent-step front rest x xs count v h next =
    let hash = x.out_point.hash in
    let idx = put_le 4 x.out_point.index in
    let body = framed x.entry rest in
    let data' = front ++ spent_bytes x rest in
    let size : length ((front ++ hash) ++ idx) ≡ length front + 36 = omega (
      arith,
      length-append (front ++ hash) idx,
      length-append front hash,
      v.hash,
      length-put_le 4 x.out_point.index,
    ) in
    let split : data' ≡ ((front ++ hash) ++ idx) ++ body = simp append_assoc refl in
    let total : length data' ≡ length front + 36 + length body =
      ap length split ∙ omega (arith, length-append ((front ++ hash) ++ idx) body, size) in
    let there : ltb (length data') (length front + 36) ≡ false = ground (arith, total) in
    let entry : entry_at data' (length front + 36) ≡ ok (x.entry, length front + spent_size x) =
      subst (λ bs. entry_at bs (length front + 36) ≡ ok (x.entry, length front + spent_size x))
        (sym split)
        (subst
          (λ k.
            entry_at (((front ++ hash) ++ idx) ++ body) k
            ≡ ok (x.entry, length front + spent_size x))
          size
          (entry_at-framed ((front ++ hash) ++ idx) rest x.entry v.entry
              (subst (λ bs. length bs < 2 ^ 63) split h)
            ∙ ap (λ k. ok (x.entry, k)) (omega (arith, size)))) in
    let hash_back : take 32 (drop (length front) data') ≡ hash =
      ap (take 32) (drop-append_self front (spent_bytes x rest))
      ∙ take-front 32 hash (idx ++ body) v.hash in
    let behind_hash : drop (length front + 32) data' ≡ idx ++ body =
      ap (drop (length front + 32)) (sym (append_assoc front hash (idx ++ body)))
      ∙ drop-front (length front + 32) (front ++ hash) (idx ++ body)
          (omega (arith, length-append front hash, v.hash)) in
    let index_back : get_le (take 4 (drop (length front + 32) data')) ≡ x.out_point.index =
      ap (λ bs. get_le (take 4 bs)) behind_hash
      ∙ ap get_le (take-front 4 idx body (length-put_le 4 x.out_point.index))
      ∙ get_le-put_le 4 x.out_point.index (omega (arith, v.index)) in
    rw (there, entry, next, hash_back, index_back) refl

deserialize_spent-serialize_all_spent :
    (front rest : Bytes) (xs : List SpentOutput)
    → All IsSpent xs
    → length (front ++ (serialize_all_spent xs ++ rest)) < 2 ^ 63
    → deserialize_spent (front ++ (serialize_all_spent xs ++ rest)) (length xs) (length front)
      ≡ ok xs
deserialize_spent-serialize_all_spent front rest [] a h = unfold deserialize_spent in refl
deserialize_spent-serialize_all_spent front rest (x ∷ xs) a h =
    let tail = serialize_all_spent xs ++ rest in
    let same = ap (λ bs. front ++ bs) (append-spent_bytes x xs rest) in
    let hash = x.out_point.hash in
    let idx = put_le 4 x.out_point.index in
    let n = length (serialize_entry x.entry) in
    let front' = front ++ (hash ++ (idx ++ (put_var_int n ++ serialize_entry x.entry))) in
    let moved : front ++ spent_bytes x tail ≡ front' ++ tail = simp append_assoc refl in
    let size : length front' ≡ length front + spent_size x = omega (
      arith,
      length-append front (hash ++ (idx ++ (put_var_int n ++ serialize_entry x.entry))),
      length-append hash (idx ++ (put_var_int n ++ serialize_entry x.entry)),
      length-append idx (put_var_int n ++ serialize_entry x.entry),
      length-append (put_var_int n) (serialize_entry x.entry),
      length-put_var_int n,
      length-put_le 4 x.out_point.index,
      a.0.hash,
    ) in
    let small = subst (λ bs. length bs < 2 ^ 63) same h in
    let rest_back =
      deserialize_spent-serialize_all_spent front' rest xs a.1
        (subst (λ bs. length bs < 2 ^ 63) moved small) in
    subst (λ bs. deserialize_spent bs (suc (length xs)) (length front) ≡ ok (x ∷ xs)) (sym same)
      (deserialize_spent-step front tail x xs (length xs) a.0 small (
        subst (λ bs. deserialize_spent bs (length xs) (length front + spent_size x) ≡ ok xs)
          (sym moved)
          (subst (λ k. deserialize_spent (front' ++ tail) (length xs) k ≡ ok xs) size rest_back)))

length-serialize_all_spent :
    (xs : List SpentOutput) → All IsSpent xs → length xs ≤ length (serialize_all_spent xs)
unfolding serialize_all_spent serialize_spent
length-serialize_all_spent [] a = omega arith
length-serialize_all_spent (x ∷ xs) a =
    let eb = serialize_entry x.entry in
    let tail = put_le 4 x.out_point.index ++ (put_var_int (length eb) ++ eb) in
    omega (
      arith,
      length-serialize_all_spent xs a.1,
      length-append (x.out_point.hash ++ tail) (serialize_all_spent xs),
      length-append x.out_point.hash tail,
      a.0.hash,
    )

deserialize_undo_data-step :
    (capacity count : ℕ) (xs : Bytes)
    → 1 ≤ length xs
    → read_length xs ≡ ok count
    → count ≤ capacity
    → deserialize_undo_data capacity xs ≡ deserialize_spent xs count (var_int_size count)
unfolding deserialize_undo_data
deserialize_undo_data-step capacity count [] h e fits = absurd (omega arith)
deserialize_undo_data-step capacity count (x ∷ xs) h e fits =
    let room : ltb capacity count ≡ false = ground (arith, fits) in rw (e, room) refl

var_int_size_pos : (n : ℕ) → 1 ≤ var_int_size n
unfolding var_int_size
var_int_size_pos n = ground arith

-- DeserializeUndoData reads back the undo data that SerializeUndoData wrote, if it is shorter than
-- 2 ^ 63 bytes and the runtime has room for as many elements.
pub deserialize_undo_data-serialize_undo_data :
    (capacity : ℕ) (undo : List SpentOutput)
    → All IsSpent undo
    → length undo ≤ capacity
    → length (serialize_undo_data undo) < 2 ^ 63
    → deserialize_undo_data capacity (serialize_undo_data undo) ≡ ok undo
unfolding serialize_undo_data
deserialize_undo_data-serialize_undo_data capacity undo a fits h =
    let n = length undo in
    let vi = put_var_int n in
    let body = serialize_all_spent undo in
    let size = length-put_var_int n in
    let total = length-append vi body in
    let some_there : 1 ≤ length (vi ++ body) = omega (arith, total, size, var_int_size_pos n) in
    let small : n < 2 ^ 64 = omega (arith, total, h, length-serialize_all_spent undo a) in
    let exact = append-nil body in
    let rest_back = deserialize_spent-serialize_all_spent vi [] undo a (rw exact h) in
    deserialize_undo_data-step capacity n (vi ++ body) some_there
      (read_length-put_var_int n body small) fits
    ∙ subst (λ k. deserialize_spent (vi ++ body) n k ≡ ok undo) size
        (subst (λ bs. deserialize_spent (vi ++ bs) n (length vi) ≡ ok undo) exact rest_back)
