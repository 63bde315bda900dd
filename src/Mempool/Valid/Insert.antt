-- ===== src/Mempool/Valid/Insert.antt =====
-- The end of AddTx keeps the pool consistent.
use go_chain.Prelude.{
  ◌≡◌, refl, sym, subst, inl, inr, true, false, List, [], ◌∷◌, some, if◌then◌else◌, arith,
  Bool-cases,
}
use go_chain.KeyMap.{Map, lookup, has, insert, member, bytes_eq, bytes_eq_iff, lookup-insert}
use go_chain.KeyMap.Distinct.{
  IsDistinct-insert, AllPairs-insert, total-insert, insert-fresh, values-append, has_false→lookup,
  lookup→has,
}
use go_chain.Types.Bytes.{Bytes}
use go_chain.Types.Transaction.{Hash}
use go_chain.Params.{ChainParams}
use go_chain.Mempool.{Mempool, input_keys, mark_spent, conflicts, insert_entry}
use go_chain.Mempool.FeeOrder.{TxEntry}
use go_chain.Mempool.Valid.{IsEntry, IsValid, Spends}

pub lookup-mark_spent :
    (h : Hash) (ks : List Bytes) (j : Bytes) (spent : Map Hash)
    → lookup j (mark_spent h ks spent) ≡ (if member j ks then some h else lookup j spent)
unfolding mark_spent member
lookup-mark_spent h [] j spent = refl
lookup-mark_spent h (k ∷ ks) j spent =
    ground (arith, lookup-mark_spent h ks j (insert k h spent), lookup-insert k j h spent)

pub conflicts-member :
    (ks : List Bytes) (k : Bytes) (spent : Map Hash)
    → conflicts ks spent ≡ false
    → member k ks ≡ true
    → has k spent ≡ false
unfolding conflicts member
conflicts-member [] k spent none_spent m = cc
conflicts-member (j ∷ ks) k spent none_spent m =
    ground (arith, conflicts-member ks k spent, bytes_eq_iff j k)

module _ (sha256 : Bytes → Bytes) (p : ChainParams) (e : TxEntry) (m : Mempool)
    (new_key : has e.hash m.txs ≡ false)
    (unspent : conflicts (input_keys e.tx.inputs) m.spent_outpoints ≡ false)
    (v : IsValid sha256 p m) where
  marked_after_insertion :
      (k j : Bytes)
      → lookup k (mark_spent e.hash (input_keys e.tx.inputs) m.spent_outpoints) ≡ some j
      → (x : TxEntry) × (lookup j (insert e.hash e m.txs) ≡ some x) × Spends x k
  marked_after_insertion k j mark = elim (Bool-cases (member k (input_keys e.tx.inputs))) [
    | inl own ↦
        let same : e.hash ≡ j =
          cc (lookup-mark_spent e.hash (input_keys e.tx.inputs) k m.spent_outpoints, mark, own) in
        (e, rw (lookup-insert e.hash j e m.txs, (bytes_eq_iff e.hash j).1 same) refl, own)
    | inr other ↦
        let (x, there, spends) = v.marked k j (
          cc
            (lookup-mark_spent e.hash (input_keys e.tx.inputs) k m.spent_outpoints, mark, other)) in
        elim (Bool-cases (bytes_eq e.hash j)) [
          | inl same ↦
              absurd
                (cc (has_false→lookup e.hash m.txs new_key, there, (bytes_eq_iff e.hash j).0 same))
          | inr differs ↦ (x, rw (lookup-insert e.hash j e m.txs, differs) there, spends)
        ]
  ]

  insertion_keeps_marks :
      (k j : Bytes) (x : TxEntry)
      → lookup j (insert e.hash e m.txs) ≡ some x
      → Spends x k
      → lookup k (mark_spent e.hash (input_keys e.tx.inputs) m.spent_outpoints) ≡ some j
  insertion_keeps_marks k j x there spends = elim (Bool-cases (bytes_eq e.hash j)) [
    | inl same ↦
        let is_new : e ≡ x = cc (lookup-insert e.hash j e m.txs, same, there) in
        let own : Spends e k = subst (λ y. Spends y k) (sym is_new) spends in
        rw
          (
            lookup-mark_spent e.hash (input_keys e.tx.inputs) k m.spent_outpoints,
            own,
            (bytes_eq_iff e.hash j).0 same,
          )
          refl
    | inr differs ↦
        let kept : lookup j m.txs ≡ some x = cc (lookup-insert e.hash j e m.txs, differs, there) in
        let mark = v.spends k j x kept spends in
        elim (Bool-cases (member k (input_keys e.tx.inputs))) [
          | inl own ↦
              let free =
                conflicts-member (input_keys e.tx.inputs) k m.spent_outpoints unspent own in
              cc (free, lookup→has k m.spent_outpoints j mark)
          | inr other ↦
              rw (lookup-mark_spent e.hash (input_keys e.tx.inputs) k m.spent_outpoints, other) mark
        ]
  ]

  pub insert_entry-IsValid : IsEntry sha256 p e.hash e → IsValid sha256 p (insert_entry e m)
  unfolding insert_entry
  insert_entry-IsValid i = record {
    entries = AllPairs-insert (IsEntry sha256 p) e.hash e m.txs i v.entries;
    distinct = IsDistinct-insert e.hash e m.txs new_key v.distinct;
    marked = marked_after_insertion;
    spends = insertion_keeps_marks;
    counted =
        omega (arith, v.counted, total-insert (λ (e : TxEntry). e.size) e.hash e m.txs new_key);
    ordered =
        rw (v.ordered, insert-fresh e.hash e m.txs new_key, values-append m.txs e.hash e) refl;
  }
