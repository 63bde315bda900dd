-- ===== src/Crypto/Hash.antt =====
-- internal/crypto/hash.go, over any SHA-256.
use go_chain.Types.Bytes.{Bytes}
use go_chain.Types.Transaction.{Hash, Transaction, serialize_tx}
use go_chain.Types.Block.{BlockHeader, serialize_header}

module _ (sha256 : Bytes → Bytes) where
  unfoldable pub double_sha256 : Bytes → Hash
  double_sha256 xs = sha256 (sha256 xs)

  -- HashTransaction: its error is that of a writer, and the `sliceWriter` has none.
  unfoldable pub hash_transaction : Transaction → Hash
  unfolding double_sha256
  hash_transaction tx = double_sha256 (serialize_tx tx)

  unfoldable pub hash_block_header : BlockHeader → Hash
  unfolding double_sha256
  hash_block_header h = double_sha256 (serialize_header h)
