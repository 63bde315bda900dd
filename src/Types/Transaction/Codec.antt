-- ===== src/Types/Transaction/Codec.antt =====
-- A reader and a writer of the same format, and the parts of a transaction as such pairs.
use go_chain.Prelude.{
  ℕ, zero, suc, ◌≤◌, ◌<◌, ◌^◌, ◌≡◌, refl, sym, ap, ◌∙◌, List, [], ◌∷◌, ◌++◌, arith, ltb, length,
  All, append_assoc, ok,
}
use go_chain.Types.Bytes.{
  Bytes, AreBytes, put_le, get_le, length-put_le, get_le-put_le, put_le-get_le, get_le-lt,
}
use go_chain.Types.Reader.{
  Reader, read_full, read_full-eq_ok, read_full-append, after, after_test, returned,
}
use go_chain.Types.VarInt.{put_var_int, read_var_int}
use go_chain.Types.VarInt.Canonical.{read_var_int-put_var_int, read_var_int-eq_ok}
use go_chain.Types.Transaction.{
  max_script_size, IsHash, hash_size, TxInput, TxOutput, serialize_input, serialize_output,
  serialize_all, read_script, deserialize_input, deserialize_output, read_times,
}

-- The reader reads back what the writer wrote of a value that `P` admits, and whatever it accepts
-- is what the writer writes of such a value.
pub record IsCodec {A : Type 0} (m : Reader A) (w : A → Bytes) (P : A → Type 0) : Type 0 where
  pub reads_back : (a : A) (rest : Bytes) → P a → m (w a ++ rest) ≡ ok (a, rest)
  pub canonical :
      (a : A) (r rest : Bytes)
      → AreBytes r
      → m r ≡ ok (a, rest)
      → (r ≡ w a ++ rest) × P a × AreBytes rest

abbrev pub IsScript : Bytes → Type 0
IsScript s = (length s ≤ max_script_size) × AreBytes s

abbrev pub IsU32 : ℕ → Type 0
IsU32 v = v < 2 ^ 32

pub record IsInput (i : TxInput) : Type 0 where
  pub hash : IsHash i.previous_out_point.hash
  pub index : IsU32 i.previous_out_point.index
  pub script : IsScript i.signature_script
  pub sequence : IsU32 i.sequence

pub record IsOutput (o : TxOutput) : Type 0 where
  pub value : o.value < 2 ^ 64
  pub script : IsScript o.pk_script

-- A fixed-width word: the reader's bytes are those of the number that they stand for.
pub word_reads_back :
    (n v : ℕ) (rest : Bytes) → read_full n (put_le n v ++ rest) ≡ ok (put_le n v, rest)
word_reads_back n v rest = read_full-append n (put_le n v) rest (length-put_le n v)

pub word_canonical :
    (n : ℕ) (r : Bytes) {buf rest : Bytes}
    → AreBytes r
    → read_full n r ≡ ok (buf, rest)
    → (r ≡ put_le n (get_le buf) ++ rest) × (get_le buf < 256 ^ n) × AreBytes rest
word_canonical n r {buf} {rest} h e =
    let (parts, len, bytes, bytes') = read_full-eq_ok n r h e in
    rw (← len)
      (parts ∙ ap (λ t. t ++ rest) (sym (put_le-get_le buf bytes)), get_le-lt buf bytes, bytes')

abbrev pub write_script : Bytes → Bytes
write_script s = put_var_int (length s) ++ s

pub read_script-write_script :
    (s rest : Bytes) → IsScript s → read_script (write_script s ++ rest) ≡ ok (s, rest)
unfolding read_script
read_script-write_script s rest h = simp append_assoc (
    ground
      (arith, read_var_int-put_var_int (length s) (s ++ rest), read_full-append (length s) s rest))

pub read_script-eq_ok :
    (s r rest : Bytes)
    → AreBytes r
    → read_script r ≡ ok (s, rest)
    → (r ≡ write_script s ++ rest) × IsScript s × AreBytes rest
unfolding read_script
read_script-eq_ok s r rest h e = after read_var_int _ r e λ n r₁ e₁ f₁.
    after_test (ltb max_script_size n) _ _ r₁ f₁ λ fits f₂.
      let (p₁, _, h₁) = read_var_int-eq_ok n r r₁ h e₁ in
      let (p₂, len, bytes, h₂) = read_full-eq_ok n r₁ h₁ f₂ in
      ground (arith, append_assoc (put_var_int n) s rest)

pub input_reads_back :
    (i : TxInput) (rest : Bytes)
    → IsInput i
    → deserialize_input (serialize_input i ++ rest) ≡ ok (i, rest)
unfolding deserialize_input serialize_input
input_reads_back i rest h =
    let p = i.previous_out_point in
    let r₃ = put_le 4 i.sequence ++ rest in
    let r₂ = write_script i.signature_script ++ r₃ in
    let r₁ = put_le 4 p.index ++ r₂ in
    simp append_assoc (
      ground (
        arith,
        read_full-append hash_size p.hash r₁ h.hash.0,
        word_reads_back 4 p.index r₂,
        get_le-put_le 4 p.index h.index,
        read_script-write_script i.signature_script r₃ h.script,
        append_assoc (put_var_int (length i.signature_script)) i.signature_script r₃,
        word_reads_back 4 i.sequence rest,
        get_le-put_le 4 i.sequence h.sequence,
      ))

pub deserialize_input-IsInput :
    (i : TxInput) (r rest : Bytes)
    → AreBytes r
    → deserialize_input r ≡ ok (i, rest)
    → (r ≡ serialize_input i ++ rest) × IsInput i × AreBytes rest
unfolding deserialize_input serialize_input
deserialize_input-IsInput i r rest h e = after (read_full hash_size) _ r e λ hash r₁ e₁ f₁.
    let (p₁, len, bytes, h₁) = read_full-eq_ok hash_size r h e₁ in
    after (read_full 4) _ r₁ f₁ λ index r₂ e₂ f₂.
      let (p₂, lt₂, h₂) = word_canonical 4 r₁ h₁ e₂ in
      after read_script _ r₂ f₂ λ script r₃ e₃ f₃.
        let (p₃, s, h₃) = read_script-eq_ok script r₂ r₃ h₂ e₃ in
        after (read_full 4) _ r₃ f₃ λ sequence r₄ e₄ f₄.
          let (p₄, lt₄, h₄) = word_canonical 4 r₃ h₃ e₄ in
          returned (λ i rest. (r ≡ serialize_input i ++ rest) × IsInput i × AreBytes rest) f₄
            (
              rw (p₁, p₂, p₃, p₄) (simp append_assoc),
              record { hash = (len, bytes); index = lt₂; script = s; sequence = lt₄ },
              h₄,
            )

pub output_reads_back :
    (o : TxOutput) (rest : Bytes)
    → IsOutput o
    → deserialize_output (serialize_output o ++ rest) ≡ ok (o, rest)
unfolding deserialize_output serialize_output
output_reads_back o rest h =
    let r₁ = write_script o.pk_script ++ rest in
    simp append_assoc (
      ground (
        arith,
        word_reads_back 8 o.value r₁,
        get_le-put_le 8 o.value h.value,
        read_script-write_script o.pk_script rest h.script,
        append_assoc (put_var_int (length o.pk_script)) o.pk_script rest,
      ))

pub deserialize_output-IsOutput :
    (o : TxOutput) (r rest : Bytes)
    → AreBytes r
    → deserialize_output r ≡ ok (o, rest)
    → (r ≡ serialize_output o ++ rest) × IsOutput o × AreBytes rest
unfolding deserialize_output serialize_output
deserialize_output-IsOutput o r rest h e = after (read_full 8) _ r e λ value r₁ e₁ f₁.
    let (p₁, lt₁, h₁) = word_canonical 8 r h e₁ in
    after read_script _ r₁ f₁ λ script r₂ e₂ f₂.
      let (p₂, s, h₂) = read_script-eq_ok script r₁ r₂ h₁ e₂ in
      returned (λ o rest. (r ≡ serialize_output o ++ rest) × IsOutput o × AreBytes rest) f₂
        (rw (p₁, p₂) (simp append_assoc), record { value = lt₁; script = s }, h₂)

module _ {A : Type 0} {m : Reader A} {w : A → Bytes} {P : A → Type 0} (c : IsCodec m w P) where
  pub read_times_reads_back :
      (xs : List A) (rest : Bytes)
      → All P xs
      → read_times (length xs) m (serialize_all w xs ++ rest) ≡ ok (xs, rest)
  unfolding read_times serialize_all
  read_times_reads_back [] rest h = refl
  read_times_reads_back (x ∷ xs) rest h = simp append_assoc (
      ground
        (arith, c.reads_back x (serialize_all w xs ++ rest) h.0, read_times_reads_back xs rest h.1))

  pub read_times_canonical :
      (n : ℕ) (xs : List A) (r rest : Bytes)
      → AreBytes r
      → read_times n m r ≡ ok (xs, rest)
      → (r ≡ serialize_all w xs ++ rest) × (length xs ≡ n) × All P xs × AreBytes rest
  unfolding read_times serialize_all
  read_times_canonical zero xs r rest h e =
      returned
        (λ xs rest. (r ≡ serialize_all w xs ++ rest) × (length xs ≡ 0) × All P xs × AreBytes rest) e
        (refl, refl, tt, h)
  read_times_canonical (suc n) xs r rest h e = after m _ r e λ x r₁ e₁ f₁.
      let (p₁, px, h₁) = c.canonical x r r₁ h e₁ in
      after (read_times n m) _ r₁ f₁ λ ys r₂ e₂ f₂.
        let (p₂, len, pys, h₂) = read_times_canonical n ys r₁ r₂ h₁ e₂ in
        returned
          (λ xs rest.
            (r ≡ serialize_all w xs ++ rest) × (length xs ≡ suc n) × All P xs × AreBytes rest)
          f₂ (rw (p₁, p₂) (simp append_assoc), ap suc len, (px, pys), h₂)

pub deserialize_input-IsCodec : IsCodec deserialize_input serialize_input IsInput
deserialize_input-IsCodec = record {
  reads_back = input_reads_back;
  canonical = deserialize_input-IsInput;
}

pub deserialize_output-IsCodec : IsCodec deserialize_output serialize_output IsOutput
deserialize_output-IsCodec = record {
  reads_back = output_reads_back;
  canonical = deserialize_output-IsOutput;
}
