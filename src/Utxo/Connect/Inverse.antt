-- ===== src/Utxo/Connect/Inverse.antt =====
-- DisconnectBlock after ConnectBlock.
use go_chain.Prelude.{
  ℕ, ◌≡◌, refl, ◌∙◌, true, false, List, [], ◌∷◌, Option, none, if◌then◌else◌, arith, ok, map, All,
  after, ok-injective, subst,
}
use go_chain.KeyMap.{
  Map, bytes_eq_iff, lookup, has, insert, delete, member, lookup-insert, lookup-delete,
}
use go_chain.Types.Bytes.{Bytes}
use go_chain.Types.Transaction.{Hash}
use go_chain.Types.Block.{Block}
use go_chain.Utxo.{
  UtxoEntry, SpentOutput, Entries, Pending, nothing_pending, delete_all, add_unspent, restore_all,
  apply_pending, connect_txs, connect_block, created_keys, disconnect_block,
}
use go_chain.Utxo.Connect.Invariant.{
  IsPending, HashesFrom, Restores, spent_key, added_key, nothing_pending-IsPending,
  connect_txs-IsPending,
}

pub lookup-delete_all :
    (k : Bytes) (ks : List Bytes) (s : Entries)
    → lookup k (delete_all ks s) ≡ (if member k ks then none else lookup k s)
unfolding delete_all member
lookup-delete_all k [] s = refl
lookup-delete_all k (j ∷ ks) s =
    ground (arith, lookup-delete_all k ks (delete j s), lookup-delete j k s)

pub lookup-add_unspent_other :
    (k : Bytes) (spent : Map (Unit {0})) (xs : List (Bytes × UtxoEntry)) (s : Entries)
    → member k (map added_key xs) ≡ false
    → lookup k (add_unspent spent xs s) ≡ lookup k s
unfolding add_unspent member
lookup-add_unspent_other k spent [] s h = refl
lookup-add_unspent_other k spent ((j, e) ∷ xs) s h = ground (
  arith,
  lookup-add_unspent_other k spent xs (if has j spent then s else insert j e s),
  lookup-insert j k e s,
)

pub lookup-restore_all :
    (k : Bytes) (before : Entries) (xs : List SpentOutput) (s : Entries)
    → All (Restores before) xs
    → lookup k (restore_all xs s)
      ≡ (if member k (map spent_key xs) then lookup k before else lookup k s)
unfolding restore_all member
lookup-restore_all k before [] s h = refl
lookup-restore_all k before (x ∷ xs) s h = ground (
  arith,
  lookup-restore_all k before xs (insert (spent_key x) x.entry s) h.1,
  lookup-insert (spent_key x) k x.entry s,
  bytes_eq_iff (spent_key x) k,
)

-- The pieces of the round trip, at one key.
restored :
    (sha256 : Bytes → Bytes) (s : Entries) (b : Block) (w : Pending) (k : Bytes)
    → IsPending s w
    → member k (map added_key w.to_add) ≡ member k (created_keys sha256 b.transactions)
    → (member k (created_keys sha256 b.transactions) ≡ true → lookup k s ≡ none)
    → lookup k (disconnect_block sha256 (apply_pending w s) b w.undo) ≡ lookup k s
unfolding disconnect_block apply_pending
restored sha256 s b w k v same fresh = ground (
  arith,
  lookup-restore_all k s w.undo
      (delete_all (created_keys sha256 b.transactions)
        (add_unspent w.spent_in_block w.to_add (delete_all w.to_remove s)))
      v.undone,
  lookup-delete_all k (created_keys sha256 b.transactions)
      (add_unspent w.spent_in_block w.to_add (delete_all w.to_remove s)),
  lookup-add_unspent_other k w.spent_in_block w.to_add (delete_all w.to_remove s),
  lookup-delete_all k w.to_remove s,
  v.removed k,
  v.accounted k,
)

-- When ConnectBlock succeeds, with the block's own hashes, on a set that has none of the outputs
-- that the block creates, DisconnectBlock with its undo data brings back the set as it was: every
-- outpoint has its old entry, or none.
pub disconnect_block-connect_block :
    (sha256 : Bytes → Bytes) (s s' : Entries) (b : Block) (height : ℕ) (hashes : Option (List Hash))
    (undo : List SpentOutput)
    → HashesFrom sha256 hashes 0 b.transactions
    → ((k : Bytes) → member k (created_keys sha256 b.transactions) ≡ true → lookup k s ≡ none)
    → connect_block sha256 s b height hashes ≡ ok (s', undo)
    → (k : Bytes) → lookup k (disconnect_block sha256 s' b undo) ≡ lookup k s
unfolding connect_block
disconnect_block-connect_block sha256 s s' b height hashes undo hs fresh h k =
    after (connect_txs sha256 hashes s height 0 b.transactions nothing_pending) _ h λ w ran done.
      let (v, keys) =
        connect_txs-IsPending sha256 hashes s height 0 b.transactions nothing_pending w
          (nothing_pending-IsPending s) hs ran in
      subst (λ r. lookup k (disconnect_block sha256 r.0 b r.1) ≡ lookup k s) (ok-injective done)
        (restored sha256 s b w k v (keys k ∙ unfold member in ground arith) (fresh k))
