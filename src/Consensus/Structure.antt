-- ===== src/Consensus/Structure.antt =====
-- internal/consensus/validation.go: ValidateBlockStructure and the height in the coinbase (BIP34). A
-- nil slice of hashes or of serialized bytes is `none`. Bytes that are shifted apart and joined by `|`
-- are the digits of a number.
pub mod Accepts
pub mod CoinbaseHeight
use go_chain.Prelude.{
  ℕ, ◌+◌, ◌%◌, ◌^◌, Bool, true, false, ◌||◌, not, List, [], ◌∷◌, map, Option, some, none, leb, ltb,
  ◌==◌, if◌then◌else◌, length, take, drop, get_or, Result, ok, err, ◌>>=◌, ◌>>◌, fail_if,
}
use go_chain.KeyMap.{bytes_eq, member}
use go_chain.Types.Bytes.{Bytes, get_le}
use go_chain.Types.Transaction.{Hash, TxInput, TxOutput, Transaction, is_coinbase}
use go_chain.Types.Block.{Block, serialize_block}
use go_chain.Crypto.Hash.{hash_transaction}
use go_chain.Crypto.Merkle.{merkle_root}
use go_chain.Params.{ChainParams}

-- `index_out_of_range` is a panic; `no_root` is no error of the source, and does not occur.
pub data StructureError : Type 0 where
  bad_version no_transactions first_not_coinbase index_out_of_range unexpected_coinbase :
      StructureError
  script_too_short script_too_long bad_push_length height_cut_off wrong_height height_not_minimal :
      StructureError
  too_many_transactions duplicate_transaction merkle_mismatch no_root block_too_large
        coinbase_overflow :
      StructureError

-- minimalPushLen
unfoldable pub minimal_push_len : ℕ → ℕ
minimal_push_len height =
    if leb height 0xFF
    then 1
    else if leb height 0xFFFF
    then 2
    else if leb height 0xFFFFFF
    then 3
    else 4

-- validateCoinbaseScriptSig
unfoldable pub validate_coinbase_script_sig : Bytes → ℕ → Result StructureError (Unit {0})
validate_coinbase_script_sig script_sig height = do
  fail_if (ltb (length script_sig) 2) script_too_short
  fail_if (ltb 100 (length script_sig)) script_too_long
  let push_len = get_or script_sig 0 0
  fail_if (ltb push_len 1 || ltb 4 push_len) bad_push_length
  fail_if (ltb (length script_sig) (1 + push_len)) height_cut_off
  let encoded_height = get_le (take push_len (drop 1 script_sig))
  fail_if (not (encoded_height == height)) wrong_height
  fail_if (not (push_len == minimal_push_len height)) height_not_minimal

-- `block.Transactions[0].Inputs[0].SignatureScript`, from height 1 on.
unfoldable pub check_coinbase_height : ℕ → List TxInput → Result StructureError (Unit {0})
check_coinbase_height height [] = if height == 0 then ok tt else err index_out_of_range
check_coinbase_height height (i ∷ is) =
    if height == 0 then ok tt else validate_coinbase_script_sig i.signature_script height

-- `for i := 1; i < len(block.Transactions); i++`
unfoldable pub no_coinbase : List Transaction → Result StructureError (Unit {0})
no_coinbase [] = ok tt
no_coinbase (tx ∷ txs) = do fail_if (is_coinbase tx) unexpected_coinbase; no_coinbase txs

-- `for i, txID := range txHashes`, with the IDs seen so far.
unfoldable pub no_duplicates : List Hash → List Hash → Result StructureError (Unit {0})
no_duplicates [] seen = ok tt
no_duplicates (h ∷ hs) seen = do
  fail_if (member h seen) duplicate_transaction
  no_duplicates hs (h ∷ seen)

unfoldable pub check_merkle_root : Option Hash → Hash → Result StructureError (Unit {0})
check_merkle_root none expected = err no_root
check_merkle_root (some merkle) expected = fail_if (not (bytes_eq merkle expected)) merkle_mismatch

-- The sum of the coinbase's outputs does not wrap.
unfoldable pub check_coinbase_sum : ℕ → List TxOutput → Result StructureError (Unit {0})
check_coinbase_sum total [] = ok tt
check_coinbase_sum total (o ∷ os) = do
  let next = (total + o.value) % 2 ^ 64
  fail_if (ltb next total) coinbase_overflow
  check_coinbase_sum next os

abbrev given_or {ℓ} : {A : Type ℓ} → Option A → A → A
given_or none a = a
given_or (some b) a = b

-- What ValidateBlockStructure does once it has the first transaction.
unfoldable pub validate_transaction_list :
    (Bytes → Bytes)
    → ChainParams
    → Block
    → ℕ
    → Option (List Hash)
    → Option Bytes
    → Transaction
    → List Transaction
    → Result StructureError (Unit {0})
unfolding check_coinbase_height no_coinbase no_duplicates check_merkle_root check_coinbase_sum
validate_transaction_list sha256 p b height tx_hashes serialized first rest = do
  fail_if (not (is_coinbase first)) first_not_coinbase
  check_coinbase_height height first.inputs
  no_coinbase rest
  fail_if (ltb p.max_block_tx_count (length b.transactions % 2 ^ 32)) too_many_transactions
  let hashes = given_or tx_hashes (map (hash_transaction sha256) b.transactions)
  no_duplicates hashes []
  check_merkle_root (merkle_root sha256 hashes) b.header.merkle_root
  let bytes = given_or serialized (serialize_block b)
  fail_if (ltb p.max_block_size (length bytes % 2 ^ 32)) block_too_large
  check_coinbase_sum 0 first.outputs

abbrev with_first :
    List Transaction
    → (Transaction → List Transaction → Result StructureError (Unit {0}))
    → Result StructureError (Unit {0})
with_first [] k = err no_transactions
with_first (tx ∷ txs) k = k tx txs

-- ValidateBlockStructure
unfoldable pub validate_block_structure :
    (Bytes → Bytes)
    → ChainParams
    → Block
    → ℕ
    → Option (List Hash)
    → Option Bytes
    → Result StructureError (Unit {0})
unfolding validate_transaction_list
validate_block_structure sha256 p b height tx_hashes serialized = do
  fail_if (ltb b.header.version 1) bad_version
  with_first b.transactions (validate_transaction_list sha256 p b height tx_hashes serialized)
