-- ===== src/Types/Block.antt =====
-- internal/types/block.go: block headers of 80 bytes, and blocks.
mod Slices
pub mod RoundTrip
use go_chain.Prelude.{
  ℕ, ◌-◌, ◌≤◌, ◌≡◌, List, ◌++◌, ltb, length, take, drop, if◌then◌else◌, Option, some, none,
}
use go_chain.Types.Bytes.{Bytes, put_le, get_le}
use go_chain.Types.Reader.{Reader, pure, ◌>>=◌, ◌>>◌, fail_if, read_full, too_many_txs}
use go_chain.Types.VarInt.{put_var_int, read_var_int}
use go_chain.Types.Transaction.{
  Hash, Transaction, serialize_tx, serialize_all, deserialize_tx, read_times,
}

abbrev pub block_header_size : ℕ
block_header_size = 80

abbrev pub max_block_tx_count : ℕ
max_block_tx_count = 50000

pub record BlockHeader : Type 0 where
  pub version : ℕ
  pub prev_block : Hash
  pub merkle_root : Hash
  pub timestamp : ℕ
  pub bits : ℕ
  pub nonce : ℕ

pub record Block : Type 0 where
  pub header : BlockHeader
  pub transactions : List Transaction

-- BlockHeader.serializeInto: the 80 bytes that it stores at the front of its buffer.
unfoldable pub serialize_header : BlockHeader → Bytes
serialize_header h =
    put_le 4 h.version
    ++ (h.prev_block
        ++ (h.merkle_root ++ (put_le 4 h.timestamp ++ (put_le 4 h.bits ++ put_le 4 h.nonce))))

-- BlockHeader.SerializeInto on the caller's buffer; `none` is the panic on a short one.
unfoldable pub serialize_into : BlockHeader → Bytes → Option Bytes
unfolding serialize_header
serialize_into h buf =
    if ltb (length buf) block_header_size
    then none
    else some (serialize_header h ++ drop block_header_size buf)

-- The slice `buf[i:j]`.
abbrev pub slice : ℕ → ℕ → Bytes → Bytes
slice i j buf = take (j - i) (drop i buf)

-- The fields of BlockHeader.Deserialize, out of its 80 bytes.
unfoldable pub header_of : Bytes → BlockHeader
header_of buf = record {
  version = get_le (slice 0 4 buf);
  prev_block = slice 4 36 buf;
  merkle_root = slice 36 68 buf;
  timestamp = get_le (slice 68 72 buf);
  bits = get_le (slice 72 76 buf);
  nonce = get_le (slice 76 80 buf);
}

-- BlockHeader.Deserialize
unfoldable pub deserialize_header : Reader BlockHeader
unfolding header_of
deserialize_header = do buf ← read_full block_header_size; pure (header_of buf)

-- Block.Serialize
unfoldable pub serialize_block : Block → Bytes
serialize_block b =
    serialize_header b.header
    ++ (put_var_int (length b.transactions) ++ serialize_all serialize_tx b.transactions)

-- Block.Deserialize
unfoldable pub deserialize_block : Reader Block
deserialize_block = do
  header ← deserialize_header
  tx_count ← read_var_int
  fail_if (ltb max_block_tx_count tx_count) too_many_txs
  transactions ← read_times tx_count deserialize_tx
  pure (record { header = header; transactions = transactions })
