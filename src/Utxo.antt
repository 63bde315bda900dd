-- ===== src/Utxo.antt =====
-- internal/utxo/utxo.go: the set of unspent outputs, in memory. A `Set` is its map of entries; the
-- mutex is left out: every method is one atomic step. No entry is a nil pointer, since every call of
-- Add passes one that was just made.
pub mod Connect
pub mod Value
pub mod Codec
use go_chain.Prelude.{
  ℕ, ◌+◌, ◌%◌, ◌^◌, Bool, true, false, List, [], ◌∷◌, ◌++◌, Option, some, none, ltb, ◌==◌,
  if◌then◌else◌, length, get_elem?, Result, ok, err, ◌>>=◌, ◌>>◌, fail_if, map, not,
}
use go_chain.KeyMap.{Map, lookup, has, insert, delete}
use go_chain.Types.Bytes.{Bytes, put_le}
use go_chain.Types.Transaction.{Hash, OutPoint, TxInput, TxOutput, Transaction, is_coinbase}
use go_chain.Types.Block.{Block}
use go_chain.Crypto.Hash.{hash_transaction}

pub record UtxoEntry : Type 0 where
  pub value : ℕ
  pub pk_script : Bytes
  pub height : ℕ
  pub is_coinbase : Bool

pub record SpentOutput : Type 0 where
  pub out_point : OutPoint
  pub entry : UtxoEntry

abbrev pub Entries : Type 0
Entries = Map UtxoEntry

-- OutpointKey
unfoldable pub outpoint_key : Hash → ℕ → Bytes
outpoint_key tx_hash index = tx_hash ++ put_le 4 index

abbrev pub key_of : OutPoint → Bytes
key_of p = outpoint_key p.hash p.index

unfoldable pub get : Entries → Hash → ℕ → Option UtxoEntry
get s tx_hash index = lookup (outpoint_key tx_hash index) s

unfoldable pub add : Entries → Hash → ℕ → UtxoEntry → Entries
add s tx_hash index entry = insert (outpoint_key tx_hash index) entry s

-- Remove returns the entry that was there.
unfoldable pub remove : Entries → Hash → ℕ → Entries × Option UtxoEntry
remove s tx_hash index = let key = outpoint_key tx_hash index in (delete key s, lookup key s)

pub data ConnectError : Type 0 where
  duplicate_input already_spent missing_utxo index_out_of_range : ConnectError

-- The variables of ConnectBlock: what it will do to the set, and what it has seen of the block.
pub record Pending : Type 0 where
  pub undo : List SpentOutput
  pub to_remove : List Bytes
  pub to_add : List (Bytes × UtxoEntry)
  pub spent_in_block : Map (Unit {0})
  pub created_in_block : Map UtxoEntry

abbrev pub nothing_pending : Pending
nothing_pending = record {
  undo = [];
  to_remove = [];
  to_add = [];
  spent_in_block = [];
  created_in_block = [];
}

-- The end of the loop body over inputs, once the entry is known.
unfoldable pub spend : Bytes → List SpentOutput → Pending → Pending
spend key restored w = record w {
  undo = w.undo ++ restored;
  to_remove = w.to_remove ++ (key ∷ []);
  spent_in_block = insert key tt w.spent_in_block;
  created_in_block = delete key w.created_in_block;
}

-- An output created in this block is looked for first; only an older one is recorded for undo.
unfoldable pub find_and_spend :
    Option UtxoEntry → Option UtxoEntry → OutPoint → Pending → Result ConnectError Pending
unfolding spend
find_and_spend (some e) in_set p w = ok (spend (key_of p) [] w)
find_and_spend none (some e) p w =
    ok (spend (key_of p) (record { out_point = p; entry = e } ∷ []) w)
find_and_spend none none p w = err missing_utxo

-- `for _, in := range tx.Inputs`
unfoldable pub connect_inputs :
    Entries → List TxInput → Map (Unit {0}) → Pending → Result ConnectError Pending
unfolding find_and_spend
connect_inputs s [] seen w = ok w
connect_inputs s (i ∷ is) seen w = do
  let p = i.previous_out_point
  let key = key_of p
  fail_if (has key seen) duplicate_input
  fail_if (has key w.spent_in_block) already_spent
  w' ← find_and_spend (lookup key w.created_in_block) (lookup key s) p w
  connect_inputs s is (insert key tt seen) w'

abbrev pub entry_of : TxOutput → ℕ → Bool → UtxoEntry
entry_of o height coinbase = record {
  value = o.value;
  pk_script = o.pk_script;
  height = height;
  is_coinbase = coinbase;
}

-- `for outIdx, out := range tx.Outputs`, from index `n` on.
unfoldable pub connect_outputs : Hash → ℕ → Bool → ℕ → List TxOutput → Pending → Pending
connect_outputs tx_hash height coinbase n [] w = w
connect_outputs tx_hash height coinbase n (o ∷ os) w =
    let key = outpoint_key tx_hash (n % 2 ^ 32) in
    let e = entry_of o height coinbase in
    connect_outputs tx_hash height coinbase (n + 1) os (record w {
      created_in_block = insert key e w.created_in_block;
      to_add = w.to_add ++ ((key, e) ∷ []);
    })

-- The optional slice of hashes: nil is `none`, and an index past its end panics.
unfoldable pub hash_at :
    (Bytes → Bytes) → Option (List Hash) → ℕ → Transaction → Result ConnectError Hash
hash_at sha256 none n tx = ok (hash_transaction sha256 tx)
hash_at sha256 (some hs) n tx = elim (get_elem? hs n) [
  | some h ↦ ok h
  | none ↦ err index_out_of_range
]

-- The loop body over inputs runs unless the transaction is the coinbase.
unfoldable pub connect_tx_inputs : Entries → Transaction → Pending → Result ConnectError Pending
unfolding connect_inputs
connect_tx_inputs s tx w = if is_coinbase tx then ok w else connect_inputs s tx.inputs [] w

-- `for txIdx := range block.Transactions`, from index `n` on.
unfoldable pub connect_txs :
    (Bytes → Bytes)
    → Option (List Hash)
    → Entries
    → ℕ
    → ℕ
    → List Transaction
    → Pending
    → Result ConnectError Pending
connect_txs sha256 hashes s height n [] w = ok w
connect_txs sha256 hashes s height n (tx ∷ txs) w = do
  tx_hash ← hash_at sha256 hashes n tx
  w' ← connect_tx_inputs s tx w
  connect_txs sha256 hashes s height (n + 1) txs
      (connect_outputs tx_hash height (is_coinbase tx) 0 tx.outputs w')

unfoldable pub delete_all : List Bytes → Entries → Entries
delete_all [] s = s
delete_all (k ∷ ks) s = delete_all ks (delete k s)

-- `if _, spent := spentInBlock[a.key]; !spent { s.entries[a.key] = a.entry }`
unfoldable pub add_unspent : Map (Unit {0}) → List (Bytes × UtxoEntry) → Entries → Entries
add_unspent spent [] s = s
add_unspent spent ((k, e) ∷ xs) s = add_unspent spent xs (if has k spent then s else insert k e s)

-- The mutations that ConnectBlock applies at its end.
unfoldable pub apply_pending : Pending → Entries → Entries
unfolding delete_all add_unspent
apply_pending w s = add_unspent w.spent_in_block w.to_add (delete_all w.to_remove s)

-- ConnectBlock: the new set and the undo data. On an error the set is left alone.
unfoldable pub connect_block :
    (Bytes → Bytes)
    → Entries
    → Block
    → ℕ
    → Option (List Hash)
    → Result ConnectError (Entries × List SpentOutput)
unfolding apply_pending
connect_block sha256 s b height hashes = do
  w ← connect_txs sha256 hashes s height 0 b.transactions nothing_pending
  ok (apply_pending w s, w.undo)

-- The keys of a transaction's outputs, from index `n` on.
unfoldable pub output_keys : Hash → ℕ → List TxOutput → List Bytes
output_keys tx_hash n [] = []
output_keys tx_hash n (o ∷ os) = outpoint_key tx_hash (n % 2 ^ 32) ∷ output_keys tx_hash (n + 1) os

-- DisconnectBlock collects the keys to remove from the last transaction to the first.
unfoldable pub created_keys : (Bytes → Bytes) → List Transaction → List Bytes
unfolding output_keys
created_keys sha256 [] = []
created_keys sha256 (tx ∷ txs) =
    created_keys sha256 txs ++ output_keys (hash_transaction sha256 tx) 0 tx.outputs

unfoldable pub restore_all : List SpentOutput → Entries → Entries
restore_all [] s = s
restore_all (x ∷ xs) s = restore_all xs (insert (key_of x.out_point) x.entry s)

-- DisconnectBlock
unfoldable pub disconnect_block : (Bytes → Bytes) → Entries → Block → List SpentOutput → Entries
unfolding created_keys delete_all restore_all
disconnect_block sha256 s b undo =
    restore_all undo (delete_all (created_keys sha256 b.transactions) s)

-- isLegacyPlaceholder
unfoldable pub is_legacy_placeholder : Bytes → Bool
is_legacy_placeholder [] = true
is_legacy_placeholder (b ∷ []) = b == 0x00
is_legacy_placeholder (b ∷ c ∷ bs) = false

unfoldable pub genesis_outputs : Hash → Bool → ℕ → List TxOutput → Entries → Entries
unfolding is_legacy_placeholder
genesis_outputs tx_hash coinbase n [] s = s
genesis_outputs tx_hash coinbase n (o ∷ os) s = genesis_outputs tx_hash coinbase (n + 1) os (
    if is_legacy_placeholder o.pk_script
    then s
    else add s tx_hash (n % 2 ^ 32) (entry_of o 0 coinbase))

-- ConnectGenesis
unfoldable pub connect_genesis : (Bytes → Bytes) → List Transaction → Entries → Entries
unfolding genesis_outputs
connect_genesis sha256 [] s = s
connect_genesis sha256 (tx ∷ txs) s =
    connect_genesis sha256 txs
      (genesis_outputs (hash_transaction sha256 tx) (is_coinbase tx) 0 tx.outputs s)
