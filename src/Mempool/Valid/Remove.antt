-- ===== src/Mempool/Valid/Remove.antt =====
-- removeTxUnsafe keeps the pool consistent.
use go_chain.Prelude.{
  ◌≡◌, refl, ap, ◌∙◌, inl, inr, List, [], ◌∷◌, some, none, if◌then◌else◌, arith, Bool-cases,
}
use go_chain.KeyMap.{Map, lookup, delete, member, bytes_eq, bytes_eq_iff, lookup-delete}
use go_chain.KeyMap.Distinct.{AllPairs, values, IsDistinct-delete, AllPairs-delete, total-delete}
use go_chain.Types.Bytes.{Bytes}
use go_chain.Types.Transaction.{Hash}
use go_chain.Params.{ChainParams}
use go_chain.Mempool.{Mempool, input_keys, unmark, remove_entry, remove_tx}
use go_chain.Mempool.FeeOrder.{TxEntry, drop_entry}
use go_chain.Mempool.Valid.{IsEntry, IsValid, Spends}

pub lookup-unmark :
    (ks : List Bytes) (j : Bytes) (spent : Map Hash)
    → lookup j (unmark ks spent) ≡ (if member j ks then none else lookup j spent)
unfolding unmark member
lookup-unmark [] j spent = refl
lookup-unmark (k ∷ ks) j spent =
    ground (arith, lookup-unmark ks j (delete k spent), lookup-delete k j spent)

-- The heap loses what the map loses.
drop_entry-values :
    (P : Bytes → TxEntry → Type 0) (keyed : (k : Bytes) (e : TxEntry) → P k e → e.hash ≡ k)
    (h : Hash) (m : Map TxEntry)
    → AllPairs P m
    → drop_entry h (values m) ≡ values (delete h m)
unfolding drop_entry delete
drop_entry-values P keyed h [] a = refl
drop_entry-values P keyed h ((k, e) ∷ m) a =
    ground (arith, keyed k e a.0, drop_entry-values P keyed h m a.1)

pub remove_tx-missing : (h : Hash) (m : Mempool) → lookup h m.txs ≡ none → remove_tx h m ≡ m
unfolding remove_tx
remove_tx-missing h m e = rw (remove_tx, e) refl

pub remove_tx-found :
    (h : Hash) (e : TxEntry) (m : Mempool)
    → lookup h m.txs ≡ some e
    → remove_tx h m ≡ remove_entry h e m
unfolding remove_tx
remove_tx-found h e m found = rw (remove_tx, found) refl

module _ (sha256 : Bytes → Bytes) (p : ChainParams) where
  marked_after_removal :
      (h : Hash) (e : TxEntry) (m : Mempool)
      → lookup h m.txs ≡ some e
      → IsValid sha256 p m
      → (k j : Bytes) → lookup k (unmark (input_keys e.tx.inputs) m.spent_outpoints) ≡ some j
      → (x : TxEntry) × (lookup j (delete h m.txs) ≡ some x) × Spends x k
  marked_after_removal h e m found v k j mark =
      elim (Bool-cases (member k (input_keys e.tx.inputs))) [
        | inl own ↦ cc (mark, lookup-unmark (input_keys e.tx.inputs) k m.spent_outpoints, own)
        | inr other ↦
            let (x, there, spends) =
              v.marked k j
                (ground (arith, lookup-unmark (input_keys e.tx.inputs) k m.spent_outpoints)) in
            elim (Bool-cases (bytes_eq h j)) [
              | inl same ↦ absurd (cc (other, spends, there, found, (bytes_eq_iff h j).0 same))
              | inr differs ↦ (x, rw (lookup-delete h j m.txs, differs) there, spends)
            ]
      ]

  removal_keeps_marks :
      (h : Hash) (e : TxEntry) (m : Mempool)
      → lookup h m.txs ≡ some e
      → IsValid sha256 p m
      → (k j : Bytes) (x : TxEntry) → lookup j (delete h m.txs) ≡ some x
      → Spends x k
      → lookup k (unmark (input_keys e.tx.inputs) m.spent_outpoints) ≡ some j
  removal_keeps_marks h e m found v k j x there spends = elim (Bool-cases (bytes_eq h j)) [
    | inl same ↦ cc (lookup-delete h j m.txs, same)
    | inr differs ↦
        let kept : lookup j m.txs ≡ some x = ground (arith, lookup-delete h j m.txs) in
        let mark = v.spends k j x kept spends in
        elim (Bool-cases (member k (input_keys e.tx.inputs))) [
          | inl own ↦
              let h_marked = v.spends k h e found own in
              let same : h ≡ j = cc (h_marked, mark) in cc (differs, (bytes_eq_iff h j).1 same)
          | inr other ↦ rw (lookup-unmark (input_keys e.tx.inputs) k m.spent_outpoints, other) mark
        ]
  ]

  pub remove_entry-IsValid :
      (h : Hash) (e : TxEntry) (m : Mempool)
      → lookup h m.txs ≡ some e
      → IsValid sha256 p m
      → IsValid sha256 p (remove_entry h e m)
  unfolding remove_entry
  remove_entry-IsValid h e m found v = record {
    entries = AllPairs-delete (IsEntry sha256 p) h m.txs v.entries;
    distinct = IsDistinct-delete h m.txs v.distinct;
    marked = marked_after_removal h e m found v;
    spends = removal_keeps_marks h e m found v;
    counted =
        omega (arith, v.counted, total-delete (λ (e : TxEntry). e.size) h e m.txs v.distinct found);
    ordered =
        ap (drop_entry h) v.ordered
        ∙ drop_entry-values (IsEntry sha256 p) (λ k e i. i.keyed) h m.txs v.entries;
  }
