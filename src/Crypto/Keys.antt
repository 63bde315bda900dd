-- ===== src/Crypto/Keys.antt =====
-- internal/crypto/keys.go: the hash of a public key, the standard scripts and the signature hash.
pub mod Commitment
use go_chain.Prelude.{
  ℕ, ◌+◌, ◌%◌, Bool, true, ◌&&◌, List, [], ◌∷◌, ◌++◌, Option, some, none, leb, ◌==◌, if◌then◌else◌,
  length, take, drop, get_or,
}
use go_chain.Types.Bytes.{Bytes}
use go_chain.Types.Transaction.{Hash, TxInput, Transaction, serialize_tx}
use go_chain.Crypto.Hash.{double_sha256}

-- What this package calls: crypto/sha256, RIPEMD-160 and secp256k1 signatures. A key or a signature
-- that does not parse is `none`.
pub record Primitives : Type 1 where
  pub sha256 : Bytes → Bytes
  pub ripemd160 : Bytes → Bytes
  pub Signature : Type 0
  pub PublicKey : Type 0
  pub parse_der_signature : Bytes → Option Signature
  pub parse_pub_key : Bytes → Option PublicKey
  pub verify : Signature → Hash → PublicKey → Bool

-- Hash160
unfoldable pub hash160 : Primitives → Bytes → Bytes
hash160 c data' = c.ripemd160 (c.sha256 data')

-- MakeP2PKHScript
unfoldable pub make_p2pkh_script : Bytes → Bytes
make_p2pkh_script pub_key_hash = 0x76 ∷ 0xa9 ∷ 0x14 ∷ (pub_key_hash ++ (0x88 ∷ 0xac ∷ []))

-- MakeP2PKHSignatureScript
unfoldable pub make_p2pkh_signature_script : Bytes → Bytes → Bytes
make_p2pkh_signature_script sig pub_key =
    (length sig % 256) ∷ (sig ++ ((length pub_key % 256) ∷ pub_key))

-- IsP2PKHScript
unfoldable pub is_p2pkh_script : Bytes → Bool
is_p2pkh_script script =
    length script == 25
    && get_or script 0 0 == 0x76
    && get_or script 1 0 == 0xa9
    && get_or script 2 0 == 0x14
    && get_or script 23 0 == 0x88
    && get_or script 24 0 == 0xac

-- ExtractP2PKHHash: the slice `script[3:23]`, or nil.
unfoldable pub extract_p2pkh_hash : Bytes → Option Bytes
unfolding is_p2pkh_script
extract_p2pkh_hash script = if is_p2pkh_script script then some (take 20 (drop 3 script)) else none

-- IsUnspendableScript
unfoldable pub is_unspendable_script : Bytes → Bool
is_unspendable_script [] = true
is_unspendable_script (op ∷ script) = op == 0x6a

abbrev pub sig_hash_all : ℕ
sig_hash_all = 0x01

-- The inputs of the copy that is signed: every signature script is empty, but that of input
-- `input_idx`, which is the subscript. `n` counts the inputs from the front.
unfoldable pub sighash_inputs : ℕ → Bytes → ℕ → List TxInput → List TxInput
sighash_inputs input_idx subscript n [] = []
sighash_inputs input_idx subscript n (i ∷ is) =
    record i { signature_script = if n == input_idx then subscript else [] }
    ∷ sighash_inputs input_idx subscript (n + 1) is

unfoldable pub sighash_copy : Transaction → ℕ → Bytes → Transaction
unfolding sighash_inputs
sighash_copy tx input_idx subscript = record tx {
  inputs = sighash_inputs input_idx subscript 0 tx.inputs;
}

-- The bytes that are hashed: the copy, and the signature type in four bytes.
unfoldable pub sighash_data : Transaction → ℕ → Bytes → Bytes
sighash_data tx input_idx subscript =
    serialize_tx (sighash_copy tx input_idx subscript) ++ (sig_hash_all ∷ 0 ∷ 0 ∷ 0 ∷ [])

-- ComputeSigHash; `none` is its error for an index past the inputs.
unfoldable pub compute_sig_hash : Primitives → Transaction → ℕ → Bytes → Option Hash
unfolding sighash_data sighash_copy double_sha256
compute_sig_hash c tx input_idx subscript =
    if leb (length tx.inputs) input_idx
    then none
    else some (double_sha256 c.sha256 (sighash_data tx input_idx subscript))
