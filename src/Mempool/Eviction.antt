-- ===== src/Mempool/Eviction.antt =====
-- evictLowestFeeRateUnsafe, and the two loops of AddTx that call it.
pub mod Rounds
use go_chain.Prelude.{
  ℕ, zero, suc, ◌+◌, ◌-◌, ◌%◌, ◌^◌, ◌≤◌, ◌<◌, ◌≡◌, ◌≢◌, refl, sym, subst, ◌∙◌, inl, inr, ◌⊎◌, Bool,
  true, false, ◌&&◌, not, List, [], ◌∷◌, ltb, leb, if◌then◌else◌, All, arith, Bool-cases, some,
  none, length,
}
use go_chain.KeyMap.{Map, lookup, has, delete}
use go_chain.KeyMap.Distinct.{
  IsDistinct, AllPairs, values, lookup→has, has-delete, total, total-delete, length-total,
}
use go_chain.Types.Bytes.{Bytes}
use go_chain.Types.Transaction.{Hash}
use go_chain.Params.{ChainParams}
use go_chain.Mempool.{
  Mempool, max_mempool_bytes, input_keys, remove_entry, remove_tx, evict_loop, evict_lowest,
  evict_to_count, evict_to_bytes, make_room,
}
use go_chain.Mempool.FeeOrder.{TxEntry, fee_less, lowest, drop_entry, heap_pop}
use go_chain.Mempool.FeeOrder.Least.{
  IsHeld, values-IsHeld, lowest-All, lowest_below_all, drop_entry_twice,
}
use go_chain.Mempool.Valid.{IsEntry, IsValid}
use go_chain.Mempool.Valid.Remove.{remove_entry-IsValid}

-- The entry that an eviction takes: one of the pool, below no other.
pub record Evicts (m : Mempool) (e : TxEntry) : Type 0 where
  pub held : lookup e.hash m.txs ≡ some e
  pub least : All (λ x. fee_less x e ≡ false) (values m.txs)
  pub removed : evict_lowest m ≡ remove_entry e.hash e m

values_cases :
    (m : Map TxEntry) → (length m ≡ 0) ⊎ ((x : TxEntry) × (xs : List TxEntry) × (values m ≡ x ∷ xs))
values_cases [] = inl refl
values_cases ((k, x) ∷ m) = inr (x, values m, refl)

removal_after_pop :
    (m : Mempool) (e : TxEntry) (order : List TxEntry)
    → IsHeld m.txs e
    → remove_tx e.hash (record m { fee_order = drop_entry e.hash order })
      ≡ remove_entry e.hash e (record m { fee_order = order })
unfolding remove_entry remove_tx
removal_after_pop m e order held = rw (remove_tx, held, drop_entry_twice e.hash order) refl

popped_removal :
    (m : Mempool) (x : TxEntry) (xs : List TxEntry) (n : ℕ)
    → IsHeld m.txs (lowest x xs)
    → evict_loop (suc n) (record m { fee_order = x ∷ xs })
      ≡ remove_entry (lowest x xs).hash (lowest x xs) (record m { fee_order = x ∷ xs })
unfolding evict_loop heap_pop
popped_removal m x xs n held =
    let e = lowest x xs in
    rw (evict_loop, lookup→has e.hash m.txs e held) (removal_after_pop m e (x ∷ xs) held)

module _ (sha256 : Bytes → Bytes) (p : ChainParams) where
  evict_entry :
      (m : Mempool) (x : TxEntry) (xs : List TxEntry)
      → values m.txs ≡ x ∷ xs
      → IsValid sha256 p m
      → Evicts m (lowest x xs)
  unfolding evict_lowest
  evict_entry m x xs e v =
      let e' = lowest x xs in
      let all : All (IsHeld m.txs) (x ∷ xs) =
        subst (λ l. All (IsHeld m.txs) l) e
          (values-IsHeld (IsEntry sha256 p) (λ k w i. i.keyed) m.txs v.entries v.distinct) in
      let held = lowest-All (IsHeld m.txs) x xs all.0 all.1 in
      record {
        held = held;
        least = subst (λ l. All (λ y. fee_less y e' ≡ false) l) (sym e) (lowest_below_all x xs);
        removed =
            subst
              (λ l.
                evict_loop (length l) (record m { fee_order = l })
                ≡ remove_entry e'.hash e' (record m { fee_order = l }))
              (sym (v.ordered ∙ e)) (popped_removal m x xs (length xs) held);
      }

  -- An eviction from a pool that is not empty takes an entry whose fee rate is the least.
  pub evict_lowest_lem :
      (m : Mempool) → IsValid sha256 p m → length m.txs ≢ 0 → (e : TxEntry) × Evicts m e
  evict_lowest_lem m v some_txs = elim (values_cases m.txs) [
    | inl e ↦ absurd (some_txs e)
    | inr (x, xs, e) ↦ (lowest x xs, evict_entry m x xs e v)
  ]
