-- ===== src/Mempool/FeeOrder.antt =====
-- The order of internal/mempool: hashLess, feeHeap.Less, and container/heap over it. A heap is the
-- list of its entries, of which Pop takes the least: that is container/heap's contract, and the
-- place of an entry in the array (heapIdx) is seen nowhere else. Remove finds an entry by its hash.
pub mod Least
use go_chain.Prelude.{
  ℕ, ◌≡◌, Bool, true, false, List, [], ◌∷◌, ◌++◌, Option, some, none, ltb, ◌==◌, if◌then◌else◌, not,
}
use go_chain.KeyMap.{bytes_eq}
use go_chain.Types.Transaction.{hash_size, Hash, Transaction}
use go_chain.Crypto.Target.{less_below}

-- AddedAt is in nanoseconds.
pub record TxEntry : Type 0 where
  pub tx : Transaction
  pub hash : Hash
  pub fee : ℕ
  pub fee_rate : ℕ
  pub size : ℕ
  pub added_at : ℕ

-- The loop is that of Hash.Less.
unfoldable pub hash_less : Hash → Hash → Bool
hash_less a b = less_below a b hash_size

-- feeHeap.Less
unfoldable pub fee_less : TxEntry → TxEntry → Bool
unfolding hash_less
fee_less a b =
    if not (a.fee_rate == b.fee_rate) then ltb a.fee_rate b.fee_rate else hash_less a.hash b.hash

-- The least of an entry and a list.
unfoldable pub lowest : TxEntry → List TxEntry → TxEntry
unfolding fee_less
lowest e [] = e
lowest e (x ∷ xs) = lowest (if fee_less x e then x else e) xs

-- heap.Remove
unfoldable pub drop_entry : Hash → List TxEntry → List TxEntry
drop_entry h [] = []
drop_entry h (x ∷ xs) = if bytes_eq x.hash h then drop_entry h xs else x ∷ drop_entry h xs

-- heap.Pop
unfoldable pub heap_pop : List TxEntry → Option (TxEntry × List TxEntry)
unfolding lowest drop_entry
heap_pop [] = none
heap_pop (x ∷ xs) = let e = lowest x xs in some (e, drop_entry e.hash (x ∷ xs))
