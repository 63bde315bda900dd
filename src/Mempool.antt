-- ===== src/Mempool.antt =====
-- internal/mempool/mempool.go: the unconfirmed transactions. The mutex is left out: every method is one
-- atomic step. The UTXO set, the height of the tip and the clock are arguments. The `int` that counts
-- bytes does not overflow: it is at most 300 MB and one transaction.
pub mod FeeOrder
pub mod Valid
pub mod Eviction
pub mod Admission
pub mod Runs
pub mod Conflicts
pub mod Template
use go_chain.Prelude.{
  ℕ, zero, suc, ◌+◌, ◌-◌, ◌*◌, ◌/◌, ◌%◌, ◌^◌, Bool, true, false, ◌&&◌, ◌||◌, not, List, [], ◌∷◌,
  ◌++◌, Option, some, none, leb, ltb, ◌==◌, if◌then◌else◌, length, get_elem?, Result, ok, err,
  ◌>>=◌, ◌>>◌, fail_if,
}
use go_chain.KeyMap.{Map, lookup, has, insert, delete}
use go_chain.Types.Bytes.{Bytes}
use go_chain.Types.Transaction.{Hash, TxInput, Transaction, is_coinbase, tx_size}
use go_chain.Crypto.Hash.{hash_transaction}
use go_chain.Crypto.Keys.{Primitives}
use go_chain.Utxo.{UtxoEntry, Entries, key_of, get}
use go_chain.Params.{ChainParams}
use go_chain.Consensus.Transactions.Locks.{TxError}
use go_chain.Consensus.Transactions.Single.{validate_single_transaction}
use FeeOrder.{TxEntry, heap_pop, drop_entry}

pub record Mempool : Type 0 where
  pub txs : Map TxEntry
  pub spent_outpoints : Map Hash
  pub total_bytes : ℕ
  pub fee_order : List TxEntry

abbrev pub max_mempool_bytes : ℕ
max_mempool_bytes = 300 * 1024 * 1024

-- New
abbrev pub new : Mempool
new = record { txs = []; spent_outpoints = []; total_bytes = 0; fee_order = [] }

pub data PoolError : Type 0 where
  coinbase_refused empty_inputs empty_outputs already_known conflicting fee_too_low
        fee_rate_too_low :
      PoolError
  refused : TxError → PoolError

-- OutpointKey of every input.
unfoldable pub input_keys : List TxInput → List Bytes
input_keys [] = []
input_keys (i ∷ is) = key_of i.previous_out_point ∷ input_keys is

unfoldable pub mark_spent : Hash → List Bytes → Map Hash → Map Hash
mark_spent h [] spent = spent
mark_spent h (k ∷ ks) spent = mark_spent h ks (insert k h spent)

unfoldable pub unmark : List Bytes → Map Hash → Map Hash
unmark [] spent = spent
unmark (k ∷ ks) spent = unmark ks (delete k spent)

-- removeTxUnsafe of the entry that is there.
unfoldable pub remove_entry : Hash → TxEntry → Mempool → Mempool
unfolding unmark input_keys
remove_entry h e m = record {
  txs = delete h m.txs;
  spent_outpoints = unmark (input_keys e.tx.inputs) m.spent_outpoints;
  total_bytes = m.total_bytes - e.size;
  fee_order = drop_entry h m.fee_order;
}

-- removeTxUnsafe and RemoveTx
unfoldable pub remove_tx : Hash → Mempool → Mempool
unfolding remove_entry
remove_tx h m = elim (lookup h m.txs) [ none ↦ m | some e ↦ remove_entry h e m ]

-- RemoveTxs
unfoldable pub remove_txs : List Hash → Mempool → Mempool
unfolding remove_tx
remove_txs [] m = m
remove_txs (h ∷ hs) m = remove_txs hs (remove_tx h m)

-- evictLowestFeeRateUnsafe: `for m.feeOrder.Len() > 0`, on fuel.
unfoldable pub evict_loop : ℕ → Mempool → Mempool
unfolding remove_tx
evict_loop zero m = m
evict_loop (suc n) m = elim (heap_pop m.fee_order) [
  | none ↦ m
  | some (e, rest) ↦
      let popped = record m { fee_order = rest } in
      elim (has e.hash m.txs) [ true ↦ remove_tx e.hash popped | false ↦ evict_loop n popped ]
]

unfoldable pub evict_lowest : Mempool → Mempool
unfolding evict_loop
evict_lowest m = evict_loop (length m.fee_order) m

-- `for uint32(len(m.txs)) >= m.p.MaxMempoolSize && len(m.txs) > 0`, on fuel.
unfoldable pub evict_to_count : ℕ → ℕ → Mempool → Mempool
unfolding evict_lowest
evict_to_count zero max m = m
evict_to_count (suc n) max m = elim (leb max (length m.txs % 2 ^ 32) && ltb 0 (length m.txs)) [
  | true ↦ evict_to_count n max (evict_lowest m)
  | false ↦ m
]

-- `for m.totalBytes+txSize > maxMempoolBytes && len(m.txs) > 0`, on fuel.
unfoldable pub evict_to_bytes : ℕ → ℕ → Mempool → Mempool
unfolding evict_lowest
evict_to_bytes zero size m = m
evict_to_bytes (suc n) size m =
    elim (ltb max_mempool_bytes (m.total_bytes + size) && ltb 0 (length m.txs)) [
      | true ↦ evict_to_bytes n size (evict_lowest m)
      | false ↦ m
    ]

-- Both loops: as many rounds as there are transactions are enough.
unfoldable pub make_room : ChainParams → ℕ → Mempool → Mempool
unfolding evict_to_count evict_to_bytes
make_room p size m =
    let m' = evict_to_count (length m.txs) p.max_mempool_size m in
    evict_to_bytes (length m'.txs) size m'

-- `txSize := tx.SerializeSize()`, at least one.
unfoldable pub entry_size : Transaction → ℕ
entry_size tx = let size = tx_size tx in if size == 0 then 1 else size

unfoldable pub conflicts : List Bytes → Map Hash → Bool
conflicts [] spent = false
conflicts (k ∷ ks) spent = has k spent || conflicts ks spent

-- What an input that the set does not have adds to the supplemental entries.
unfoldable pub add_parent_output : Mempool → TxInput → Map UtxoEntry → Map UtxoEntry
add_parent_output m i supplemental = elim (lookup i.previous_out_point.hash m.txs) [
  | none ↦ supplemental
  | some parent ↦ elim (get_elem? parent.tx.outputs i.previous_out_point.index) [
    | none ↦ supplemental
    | some out ↦
        if has (key_of i.previous_out_point) m.spent_outpoints
        then supplemental
        else insert (key_of i.previous_out_point)
            (record {
              value = out.value;
              pk_script = out.pk_script;
              height = 0;
              is_coinbase = false;
            })
            supplemental
  ]
]

-- The second `for _, in := range tx.Inputs`; a nil map is the empty one.
unfoldable pub supplemental_entries :
    Entries → Mempool → List TxInput → Map UtxoEntry → Map UtxoEntry
unfolding add_parent_output
supplemental_entries s m [] supplemental = supplemental
supplemental_entries s m (i ∷ is) supplemental = supplemental_entries s m is (
    if has (key_of i.previous_out_point) s
    then supplemental
    else add_parent_output m i supplemental)

-- ValidateSingleTransaction, its error wrapped.
unfoldable pub validate :
    Primitives → ChainParams → Entries → ℕ → ℕ → Mempool → Transaction → Result PoolError ℕ
unfolding supplemental_entries
validate c p s tip_height now m tx =
    elim (validate_single_transaction c p s tip_height now (supplemental_entries s m tx.inputs [])
      tx) [ ok fee ↦ ok fee | err e ↦ err (refused e) ]

-- The minimum relay fee and the minimum rate.
unfoldable pub check_relay_fee : ChainParams → ℕ → ℕ → Result PoolError (Unit {0})
check_relay_fee p fee size = do
  fail_if (ltb 0 p.min_relay_tx_fee && ltb fee p.min_relay_tx_fee) fee_too_low
  fail_if (ltb 0 p.min_relay_tx_fee_rate && ltb (fee / size) p.min_relay_tx_fee_rate)
      fee_rate_too_low

-- The end of AddTx: the entry enters both indices, and its outpoints are marked.
unfoldable pub insert_entry : TxEntry → Mempool → Mempool
unfolding mark_spent input_keys
insert_entry e m = record {
  txs = insert e.hash e m.txs;
  spent_outpoints = mark_spent e.hash (input_keys e.tx.inputs) m.spent_outpoints;
  total_bytes = m.total_bytes + e.size;
  fee_order = m.fee_order ++ (e ∷ []);
}

abbrev pub new_entry : Hash → Transaction → ℕ → ℕ → TxEntry
new_entry h tx fee added_at = record {
  tx = tx;
  hash = h;
  fee = fee;
  fee_rate = fee / entry_size tx;
  size = entry_size tx;
  added_at = added_at;
}

-- AddTx: the pool and the hash. On an error the pool is left alone. `now` is the clock of the
-- validation, in seconds, and `added_at` that of the entry.
unfoldable pub add_tx :
    Primitives
    → ChainParams
    → Entries
    → ℕ
    → ℕ
    → ℕ
    → Transaction
    → Mempool
    → Result PoolError (Mempool × Hash)
unfolding entry_size conflicts input_keys validate check_relay_fee make_room insert_entry
add_tx c p s tip_height now added_at tx m = do
  fail_if (is_coinbase tx) coinbase_refused
  fail_if (length tx.inputs == 0) empty_inputs
  fail_if (length tx.outputs == 0) empty_outputs
  let h = hash_transaction c.sha256 tx
  fail_if (has h m.txs) already_known
  fail_if (conflicts (input_keys tx.inputs) m.spent_outpoints) conflicting
  fee ← validate c p s tip_height now m tx
  check_relay_fee p fee (entry_size tx)
  ok (insert_entry (new_entry h tx fee added_at) (make_room p (entry_size tx) m), h)

-- The hashes that ExpireOldTxs collects: `entry.AddedAt.Before(cutoff)`, where the cutoff is the
-- present less the expiry.
unfoldable pub expired_hashes : ℕ → ℕ → Map TxEntry → List Hash
expired_hashes expiry now [] = []
expired_hashes expiry now ((h, e) ∷ m) =
    let rest = expired_hashes expiry now m in
    if ltb (e.added_at + expiry) now then h ∷ rest else rest

-- ExpireOldTxs: the pool and the number of transactions removed.
unfoldable pub expire_old_txs : ChainParams → ℕ → Mempool → Mempool × ℕ
unfolding expired_hashes remove_txs
expire_old_txs p now m =
    let expired = expired_hashes p.mempool_expiry now m.txs in
    if p.mempool_expiry == 0 then (m, 0) else (remove_txs expired m, length expired)

-- EvictLowestFeeRate
unfoldable pub evict_lowest_fee_rate : Mempool → Mempool × Bool
unfolding evict_lowest
evict_lowest_fee_rate m =
    let evicted = evict_lowest m in if length m.txs == 0 then (m, false) else (evicted, true)

-- IsOutpointSpent
unfoldable pub is_outpoint_spent : Hash → ℕ → Mempool → Bool
is_outpoint_spent h index m = has (key_of (record { hash = h; index = index })) m.spent_outpoints
