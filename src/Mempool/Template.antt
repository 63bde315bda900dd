-- ===== src/Mempool/Template.antt =====
-- BlockTemplate and the other methods of internal/mempool/mempool.go that read the pool. The order in
-- which Go walks a map is left open by Go, and nothing here depends on it: a list is sorted, or summed.
pub mod Order
use go_chain.Prelude.{
  ℕ, ◌+◌, ◌%◌, ◌^◌, Bool, true, false, not, List, [], ◌∷◌, Option, some, none, ltb, ◌==◌,
  if◌then◌else◌, map, length,
}
use go_chain.KeyMap.{Map, lookup, has}
use go_chain.KeyMap.Distinct.{values}
use go_chain.Types.Transaction.{Hash, Transaction}
use go_chain.Mempool.{Mempool}
use go_chain.Mempool.FeeOrder.{TxEntry, hash_less}

-- GetTxEntry
unfoldable pub get_tx_entry : Hash → Mempool → Option TxEntry
get_tx_entry h m = lookup h m.txs

-- GetTx
unfoldable pub get_tx : Hash → Mempool → Option Transaction
unfolding get_tx_entry
get_tx h m = elim (get_tx_entry h m) [ none ↦ none | some e ↦ some e.tx ]

-- HasTx
unfoldable pub has_tx : Hash → Mempool → Bool
has_tx h m = has h m.txs

-- The `less` that BlockTemplate and GetAllEntries hand to sort.Slice.
unfoldable pub rate_before : TxEntry → TxEntry → Bool
rate_before a b =
    if not (a.fee_rate == b.fee_rate) then ltb b.fee_rate a.fee_rate else hash_less a.hash b.hash

-- sort.Slice by that test: its result is the same however it sorts, as no two hashes of a pool agree.
unfoldable pub insert_sorted : TxEntry → List TxEntry → List TxEntry
unfolding rate_before
insert_sorted e [] = e ∷ []
insert_sorted e (x ∷ xs) =
    let rest = insert_sorted e xs in if rate_before e x then e ∷ x ∷ xs else x ∷ rest

unfoldable pub sort_entries : List TxEntry → List TxEntry
unfolding insert_sorted
sort_entries [] = []
sort_entries (e ∷ es) = insert_sorted e (sort_entries es)

pub record BlockTemplateTx : Type 0 where
  pub tx : Transaction
  pub tx_id : Hash
  pub fee : ℕ
  pub size : ℕ

pub record BlockTemplateResult : Type 0 where
  pub transactions : List Transaction
  pub entries : List BlockTemplateTx
  pub total_fees : ℕ

abbrev pub template_tx : TxEntry → BlockTemplateTx
template_tx e = record { tx = e.tx; tx_id = e.hash; fee = e.fee; size = e.size }

-- `for i, e := range entries`: the entries before the sum of the fees would wrap, and the sum.
unfoldable pub add_fees : ℕ → List TxEntry → List TxEntry × ℕ
add_fees total [] = ([], total)
add_fees total (e ∷ es) =
    let next = (total + e.fee) % 2 ^ 64 in
    let rest = add_fees next es in if ltb next total then ([], total) else (e ∷ rest.0, rest.1)

-- BlockTemplate
unfoldable pub block_template : Mempool → BlockTemplateResult
unfolding sort_entries add_fees
block_template m =
    let picked = add_fees 0 (sort_entries (values m.txs)) in
    record {
      transactions = map (λ (e : TxEntry). e.tx) picked.0;
      entries = map template_tx picked.0;
      total_fees = picked.1;
    }

-- GetAll
unfoldable pub get_all : Mempool → List Transaction
unfolding block_template
get_all m = (block_template m).transactions

-- GetAllEntries
unfoldable pub get_all_entries : Mempool → List TxEntry
unfolding sort_entries
get_all_entries m = sort_entries (values m.txs)

-- GetTxHashes, which sorts by hashLess alone.
unfoldable pub insert_hash : Hash → List Hash → List Hash
insert_hash h [] = h ∷ []
insert_hash h (x ∷ xs) =
    let rest = insert_hash h xs in if hash_less h x then h ∷ x ∷ xs else x ∷ rest

unfoldable pub sort_keys : Map TxEntry → List Hash
unfolding insert_hash
sort_keys [] = []
sort_keys ((h, e) ∷ m) = insert_hash h (sort_keys m)

unfoldable pub get_tx_hashes : Mempool → List Hash
unfolding sort_keys
get_tx_hashes m = sort_keys m.txs

-- TotalFees, a uint64 that wraps.
unfoldable pub sum_fees_from : ℕ → Map TxEntry → ℕ
sum_fees_from total [] = total
sum_fees_from total ((h, e) ∷ m) = sum_fees_from ((total + e.fee) % 2 ^ 64) m

unfoldable pub total_fees : Mempool → ℕ
unfolding sum_fees_from
total_fees m = sum_fees_from 0 m.txs

-- TotalSize
unfoldable pub sum_sizes_from : ℕ → Map TxEntry → ℕ
sum_sizes_from total [] = total
sum_sizes_from total ((h, e) ∷ m) = sum_sizes_from (total + e.size) m

unfoldable pub total_size : Mempool → ℕ
unfolding sum_sizes_from
total_size m = sum_sizes_from 0 m.txs

-- Count
unfoldable pub count : Mempool → ℕ
count m = length m.txs
