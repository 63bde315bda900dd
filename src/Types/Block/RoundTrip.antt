-- ===== src/Types/Block/RoundTrip.antt =====
-- Headers and blocks: Deserialize inverts Serialize, and accepts nothing else.
use go_chain.Prelude.{
  ◌≤◌, ◌≡◌, refl, sym, ap, ◌∙◌, [], ◌++◌, arith, ltb, length, All, ltb_false→le, append_assoc,
  append-nil, subst, ok, drop, length-append,
}
use go_chain.Types.Bytes.{Bytes, AreBytes, put_le, get_le-put_le, length-put_le}
use go_chain.Types.Reader.{
  read_full, read_full-append, read_full-eq_ok, after, after_test, returned,
}
use go_chain.Types.VarInt.{put_var_int, read_var_int}
use go_chain.Types.VarInt.Canonical.{read_var_int-put_var_int, read_var_int-eq_ok}
use go_chain.Types.Transaction.{IsHash, serialize_tx, serialize_all, deserialize_tx, read_times}
use go_chain.Types.Transaction.Codec.{IsU32, read_times_reads_back, read_times_canonical, IsCodec}
use go_chain.Types.Transaction.RoundTrip.{IsTx, deserialize_tx-IsCodec}
use go_chain.Types.Block.Slices.{
  slice-append-drop, drop_all, slice-IsHash, slice_word, drop_next, slice_at,
}
use go_chain.Types.Block.{
  BlockHeader, Block, block_header_size, max_block_tx_count, serialize_header, slice, header_of,
  deserialize_header, serialize_block, deserialize_block,
}

pub record IsHeader (h : BlockHeader) : Type 0 where
  pub version : IsU32 h.version
  pub prev_block : IsHash h.prev_block
  pub merkle_root : IsHash h.merkle_root
  pub timestamp : IsU32 h.timestamp
  pub bits : IsU32 h.bits
  pub nonce : IsU32 h.nonce

pub record IsBlock (b : Block) : Type 0 where
  pub header : IsHeader b.header
  pub transactions : All IsTx b.transactions
  pub tx_count : length b.transactions ≤ max_block_tx_count

pub length-serialize_header :
    (h : BlockHeader) → IsHeader h → length (serialize_header h) ≡ block_header_size
unfolding serialize_header
length-serialize_header h v = omega (
  arith,
  length-append {0},
  length-put_le 4 h.version,
  length-put_le 4 h.timestamp,
  length-put_le 4 h.bits,
  length-put_le 4 h.nonce,
  v.prev_block.0,
  v.merkle_root.0,
)

-- The header's fields, each at its offset.
header_of-serialize_header : (h : BlockHeader) → IsHeader h → header_of (serialize_header h) ≡ h
unfolding header_of
header_of-serialize_header h v =
    let buf = serialize_header h in
    let w₀ = put_le 4 h.version in
    let w₃ = put_le 4 h.timestamp in
    let w₄ = put_le 4 h.bits in
    let w₅ = put_le 4 h.nonce in
    let r₄ = w₄ ++ w₅ in
    let r₃ = w₃ ++ r₄ in
    let r₂ = h.merkle_root ++ r₃ in
    let r₁ = h.prev_block ++ r₂ in
    let d₀ : drop 0 buf ≡ w₀ ++ r₁ = unfold serialize_header in refl in
    let d₁ = drop_next buf w₀ r₁ 0 4 4 d₀ (length-put_le 4 h.version) refl in
    let d₂ = drop_next buf h.prev_block r₂ 4 32 36 d₁ v.prev_block.0 refl in
    let d₃ = drop_next buf h.merkle_root r₃ 36 32 68 d₂ v.merkle_root.0 refl in
    let d₄ = drop_next buf w₃ r₄ 68 4 72 d₃ (length-put_le 4 h.timestamp) refl in
    let d₅ = drop_next buf w₄ w₅ 72 4 76 d₄ (length-put_le 4 h.bits) refl ∙ sym (append-nil w₅) in
    cc (
      slice_at buf w₀ r₁ 0 4 d₀ (length-put_le 4 h.version),
      slice_at buf h.prev_block r₂ 4 36 d₁ v.prev_block.0,
      slice_at buf h.merkle_root r₃ 36 68 d₂ v.merkle_root.0,
      slice_at buf w₃ r₄ 68 72 d₃ (length-put_le 4 h.timestamp),
      slice_at buf w₄ w₅ 72 76 d₄ (length-put_le 4 h.bits),
      slice_at buf w₅ [] 76 80 d₅ (length-put_le 4 h.nonce),
      get_le-put_le 4 h.version v.version,
      get_le-put_le 4 h.timestamp v.timestamp,
      get_le-put_le 4 h.bits v.bits,
      get_le-put_le 4 h.nonce v.nonce,
    )

-- The slices of 80 bytes put together again are the 80 bytes.
serialize_header-header_of :
    (buf : Bytes)
    → length buf ≡ block_header_size
    → AreBytes buf
    → (serialize_header (header_of buf) ≡ buf) × IsHeader (header_of buf)
unfolding serialize_header header_of
serialize_header-header_of buf len b =
    let w₀ = slice_word 0 4 buf (omega arith) (omega arith) b in
    let w₃ = slice_word 68 72 buf (omega arith) (omega arith) b in
    let w₄ = slice_word 72 76 buf (omega arith) (omega arith) b in
    let w₅ = slice_word 76 80 buf (omega arith) (omega arith) b in
    let d₅ : drop 76 buf ≡ slice 76 80 buf =
      slice-append-drop 76 80 buf (omega arith)
      ∙ ap (λ t. slice 76 80 buf ++ t) (subst (λ n. drop n buf ≡ []) len (drop_all buf))
      ∙ append-nil (slice 76 80 buf) in
    (
      rw (w₀.0, w₃.0, w₄.0, w₅.0, ← d₅)
          (sym (
            slice-append-drop 0 4 buf (omega arith)
            ∙ ap (λ t. slice 0 4 buf ++ t)
                (slice-append-drop 4 36 buf (omega arith)
                  ∙ ap (λ t. slice 4 36 buf ++ t)
                      (slice-append-drop 36 68 buf (omega arith)
                        ∙ ap (λ t. slice 36 68 buf ++ t)
                            (slice-append-drop 68 72 buf (omega arith)
                              ∙ ap (λ t. slice 68 72 buf ++ t)
                                  (slice-append-drop 72 76 buf (omega arith))))))),
      record {
        version = w₀.1;
        prev_block = slice-IsHash 4 buf (omega arith) b;
        merkle_root = slice-IsHash 36 buf (omega arith) b;
        timestamp = w₃.1;
        bits = w₄.1;
        nonce = w₅.1;
      },
    )

pub deserialize_header-IsCodec : IsCodec deserialize_header serialize_header IsHeader
unfolding deserialize_header
deserialize_header-IsCodec = record {
  reads_back = λ h rest v. ground (
    arith,
    read_full-append block_header_size (serialize_header h) rest (length-serialize_header h v),
    header_of-serialize_header h v,
  );
  canonical = λ h r rest b e. after (read_full block_header_size) _ r e λ buf r₁ e₁ f₁.
      let (p, len, bytes, b₁) = read_full-eq_ok block_header_size r b e₁ in
      let (same, v) = serialize_header-header_of buf len bytes in
      returned (λ h rest. (r ≡ serialize_header h ++ rest) × IsHeader h × AreBytes rest) f₁
        (rw same p, v, b₁);
}

-- For a block of at most 50000 transactions, each of at most 10000 inputs and 10000 outputs and with no
-- script of more than 10000 bytes, whose fields have the widths of their Go types, Block.Deserialize
-- reads back the block that Serialize wrote, and leaves what follows it.
pub deserialize_block-serialize_block :
    (b : Block) (rest : Bytes)
    → IsBlock b
    → deserialize_block (serialize_block b ++ rest) ≡ ok (b, rest)
unfolding deserialize_block serialize_block
deserialize_block-serialize_block b rest v =
    let r₂ = serialize_all serialize_tx b.transactions ++ rest in
    let r₁ = put_var_int (length b.transactions) ++ r₂ in
    simp append_assoc (
      ground (
        arith,
        deserialize_header-IsCodec.reads_back b.header r₁ v.header,
        read_var_int-put_var_int (length b.transactions) r₂,
        read_times_reads_back deserialize_tx-IsCodec b.transactions rest v.transactions,
      ))

-- Whatever bytes Block.Deserialize accepts are the bytes that Serialize writes of the block it
-- returns, followed by the rest: no block has a second encoding.
pub deserialize_block-eq_ok :
    (b : Block) (r rest : Bytes)
    → AreBytes r
    → deserialize_block r ≡ ok (b, rest)
    → (r ≡ serialize_block b ++ rest) × IsBlock b × AreBytes rest
unfolding deserialize_block serialize_block
deserialize_block-eq_ok b r rest h e = after deserialize_header _ r e λ header r₁ e₁ f₁.
    let (p₁, v, h₁) = deserialize_header-IsCodec.canonical header r r₁ h e₁ in
    after read_var_int _ r₁ f₁ λ n r₂ e₂ f₂.
      let (p₂, _, h₂) = read_var_int-eq_ok n r₁ r₂ h₁ e₂ in
      after_test (ltb max_block_tx_count n) _ _ r₂ f₂ λ few f₃.
        after (read_times n deserialize_tx) _ r₂ f₃ λ txs r₃ e₃ f₄.
          let (p₃, len, all, h₃) = read_times_canonical deserialize_tx-IsCodec n txs r₂ r₃ h₂ e₃ in
          returned (λ b rest. (r ≡ serialize_block b ++ rest) × IsBlock b × AreBytes rest) f₄
            (
              rw (p₁, p₂, p₃, ← len) (simp append_assoc),
              record {
                header = v;
                transactions = all;
                tx_count = omega (arith, len, ltb_false→le max_block_tx_count n few);
              },
              h₃,
            )
