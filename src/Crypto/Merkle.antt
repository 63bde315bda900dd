-- ===== src/Crypto/Merkle.antt =====
-- internal/crypto/merkle.go, over any SHA-256.
pub mod Binding
use go_chain.Prelude.{
  ℕ, zero, suc, ◌%◌, Bool, List, [], ◌∷◌, ◌++◌, map, Option, some, none, ◌==◌, if◌then◌else◌,
  length,
}
use go_chain.Types.Bytes.{Bytes, put_le}
use go_chain.Types.Transaction.{Hash, Transaction}
use go_chain.Crypto.Hash.{double_sha256, hash_transaction}

-- ZeroHash
abbrev pub zero_hash : Hash
zero_hash = put_le 32 0

-- `level[len(level)-1]`
unfoldable pub last : List Hash → Hash
last [] = zero_hash
last (a ∷ []) = a
last (a ∷ b ∷ level) = last (b ∷ level)

-- `if len(level)%2 != 0`: the last hash once more.
unfoldable pub pad : List Hash → List Hash
unfolding last
pad level = if length level % 2 == 0 then level else level ++ (last level ∷ [])

-- The hashes of the pairs of a level of even length.
unfoldable pub pair_up : (Bytes → Bytes) → List Hash → List Hash
pair_up sha256 [] = []
pair_up sha256 (a ∷ []) = []
pair_up sha256 (a ∷ b ∷ level) = double_sha256 sha256 (a ++ b) ∷ pair_up sha256 level

-- `for len(level) > 1`; `none` when the fuel ends first.
unfoldable pub climb : (Bytes → Bytes) → ℕ → List Hash → Option Hash
climb sha256 fuel [] = some zero_hash
climb sha256 fuel (a ∷ []) = some a
climb sha256 zero (a ∷ b ∷ level) = none
climb sha256 (suc fuel) (a ∷ b ∷ level) = climb sha256 fuel (pair_up sha256 (pad (a ∷ b ∷ level)))

-- MerkleRoot: every round leaves fewer hashes.
unfoldable pub merkle_root : (Bytes → Bytes) → List Hash → Option Hash
unfolding climb
merkle_root sha256 hashes = climb sha256 (length hashes) hashes

-- ComputeMerkleRoot
unfoldable pub compute_merkle_root : (Bytes → Bytes) → List Transaction → Option Hash
unfolding merkle_root
compute_merkle_root sha256 txs = merkle_root sha256 (map (hash_transaction sha256) txs)
