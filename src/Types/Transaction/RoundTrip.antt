-- ===== src/Types/Transaction/RoundTrip.antt =====
-- Transaction.Deserialize inverts Transaction.Serialize, and accepts nothing else.
use go_chain.Prelude.{
  ◌≤◌, ◌≡◌, ◌∙◌, sym, ap, ◌++◌, arith, ltb, length, All, append_assoc, ok, ok-injective,
}
use go_chain.Types.Bytes.{Bytes, AreBytes, put_le, get_le-put_le}
use go_chain.Types.Reader.{read_full, after, after_test, returned}
use go_chain.Types.VarInt.{put_var_int, read_var_int}
use go_chain.Types.VarInt.Canonical.{read_var_int-put_var_int, read_var_int-eq_ok}
use go_chain.Types.Transaction.{
  max_tx_inputs, max_tx_outputs, Transaction, serialize_input, serialize_output, serialize_all,
  serialize_tx, deserialize_input, deserialize_output, read_times, deserialize_tx,
}
use go_chain.Types.Transaction.Codec.{
  IsCodec, IsU32, IsInput, IsOutput, word_reads_back, word_canonical, deserialize_input-IsCodec,
  deserialize_output-IsCodec, read_times_reads_back, read_times_canonical,
}

-- The transactions that fit the format's limits.
pub record IsTx (tx : Transaction) : Type 0 where
  pub version : IsU32 tx.version
  pub inputs : All IsInput tx.inputs
  pub input_count : length tx.inputs ≤ max_tx_inputs
  pub outputs : All IsOutput tx.outputs
  pub output_count : length tx.outputs ≤ max_tx_outputs
  pub lock_time : IsU32 tx.lock_time

-- Deserialize reads back the transaction that Serialize wrote, and leaves what follows it.
pub deserialize_tx-serialize_tx :
    (tx : Transaction) (rest : Bytes)
    → IsTx tx
    → deserialize_tx (serialize_tx tx ++ rest) ≡ ok (tx, rest)
unfolding deserialize_tx serialize_tx
deserialize_tx-serialize_tx tx rest h =
    let r₅ = put_le 4 tx.lock_time ++ rest in
    let r₄ = serialize_all serialize_output tx.outputs ++ r₅ in
    let r₃ = put_var_int (length tx.outputs) ++ r₄ in
    let r₂ = serialize_all serialize_input tx.inputs ++ r₃ in
    let r₁ = put_var_int (length tx.inputs) ++ r₂ in
    simp append_assoc (
      ground (
        arith,
        word_reads_back 4 tx.version r₁,
        get_le-put_le 4 tx.version h.version,
        read_var_int-put_var_int (length tx.inputs) r₂,
        read_times_reads_back deserialize_input-IsCodec tx.inputs r₃ h.inputs,
        read_var_int-put_var_int (length tx.outputs) r₄,
        read_times_reads_back deserialize_output-IsCodec tx.outputs r₅ h.outputs,
        word_reads_back 4 tx.lock_time rest,
        get_le-put_le 4 tx.lock_time h.lock_time,
      ))

-- Whatever bytes Deserialize accepts are the bytes that Serialize writes of the transaction it
-- returns, followed by the rest: no transaction has a second encoding.
pub deserialize_tx-eq_ok :
    (tx : Transaction) (r rest : Bytes)
    → AreBytes r
    → deserialize_tx r ≡ ok (tx, rest)
    → (r ≡ serialize_tx tx ++ rest) × IsTx tx × AreBytes rest
unfolding deserialize_tx serialize_tx
deserialize_tx-eq_ok tx r rest h e = after (read_full 4) _ r e λ version r₁ e₁ f₁.
    let (p₁, lt₁, h₁) = word_canonical 4 r h e₁ in
    after read_var_int _ r₁ f₁ λ n r₂ e₂ f₂.
      let (p₂, _, h₂) = read_var_int-eq_ok n r₁ r₂ h₁ e₂ in
      after_test (ltb max_tx_inputs n) _ _ r₂ f₂ λ few f₃.
        after (read_times n deserialize_input) _ r₂ f₃ λ inputs r₃ e₃ f₄.
          let (p₃, len₃, ins, h₃) =
            read_times_canonical deserialize_input-IsCodec n inputs r₂ r₃ h₂ e₃ in
          after read_var_int _ r₃ f₄ λ k r₄ e₄ f₅.
            let (p₄, _, h₄) = read_var_int-eq_ok k r₃ r₄ h₃ e₄ in
            after_test (ltb max_tx_outputs k) _ _ r₄ f₅ λ few' f₆.
              after (read_times k deserialize_output) _ r₄ f₆ λ outputs r₅ e₅ f₇.
                let (p₅, len₅, outs, h₅) =
                  read_times_canonical deserialize_output-IsCodec k outputs r₄ r₅ h₄ e₅ in
                after (read_full 4) _ r₅ f₇ λ lock_time r₆ e₆ f₈.
                  let (p₆, lt₆, h₆) = word_canonical 4 r₅ h₅ e₆ in
                  returned (λ tx rest. (r ≡ serialize_tx tx ++ rest) × IsTx tx × AreBytes rest) f₈
                    (
                      rw (p₁, p₂, p₃, p₄, p₅, p₆, ← len₃, ← len₅) (simp append_assoc),
                      record {
                        version = lt₁;
                        inputs = ins;
                        input_count = ground (arith, len₃);
                        outputs = outs;
                        output_count = ground (arith, len₅);
                        lock_time = lt₆;
                      },
                      h₆,
                    )

pub deserialize_tx-IsCodec : IsCodec deserialize_tx serialize_tx IsTx
deserialize_tx-IsCodec = record {
  reads_back = deserialize_tx-serialize_tx;
  canonical = deserialize_tx-eq_ok;
}

-- A transaction is read off the front of its bytes.
pub serialize_tx-injective :
    (a b : Transaction) (rest rest' : Bytes)
    → IsTx a
    → IsTx b
    → serialize_tx a ++ rest ≡ serialize_tx b ++ rest'
    → a ≡ b
serialize_tx-injective a b rest rest' v w e =
    let back_b : deserialize_tx (serialize_tx a ++ rest) ≡ ok (b, rest') =
      rw e (deserialize_tx-serialize_tx b rest' w) in
    ap (λ (r : Transaction × Bytes). r.0)
      (ok-injective (sym (deserialize_tx-serialize_tx a rest v) ∙ back_b))
