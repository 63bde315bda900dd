-- ===== src/Utxo/Connect/Same.antt =====
-- ConnectBlock and DisconnectBlock look at the set only through its entries.
use go_chain.Prelude.{
  ℕ, ◌+◌, ◌≡◌, refl, sym, ap, ◌∙◌, subst, true, false, Bool, List, [], ◌∷◌, Option, none,
  if◌then◌else◌, arith, ok, err, Result, ◌>>=◌, ◌>>◌, fail_if, after, ok-injective,
}
use go_chain.KeyMap.{Map, lookup, has, insert, delete, member, lookup-insert, lookup-delete}
use go_chain.Types.Bytes.{Bytes}
use go_chain.Types.Transaction.{Hash, TxInput, Transaction, is_coinbase}
use go_chain.Types.Block.{Block}
use go_chain.Utxo.Connect.Invariant.{HashesFrom}
use go_chain.Utxo.Connect.Inverse.{disconnect_block-connect_block}
use go_chain.Utxo.{
  UtxoEntry, SpentOutput, Entries, Pending, ConnectError, duplicate_input, already_spent, key_of,
  nothing_pending, find_and_spend, connect_inputs, connect_tx_inputs, connect_outputs, hash_at,
  connect_txs, connect_block, delete_all, add_unspent, restore_all, apply_pending, created_keys,
  disconnect_block,
}

-- The same entry, or none, at every outpoint.
abbrev pub Same : Entries → Entries → Type 0
Same s t = (k : Bytes) → lookup k s ≡ lookup k t

pub Same-delete : (j : Bytes) (s t : Entries) → Same s t → Same (delete j s) (delete j t)
Same-delete j s t same k = ground (arith, lookup-delete j k s, lookup-delete j k t, same k)

pub Same-insert :
    (j : Bytes) (e : UtxoEntry) (s t : Entries) → Same s t → Same (insert j e s) (insert j e t)
Same-insert j e s t same k = ground (arith, lookup-insert j k e s, lookup-insert j k e t, same k)

Same-delete_all :
    (ks : List Bytes) (s t : Entries) → Same s t → Same (delete_all ks s) (delete_all ks t)
unfolding delete_all
Same-delete_all [] s t same = same
Same-delete_all (j ∷ ks) s t same =
    Same-delete_all ks (delete j s) (delete j t) (Same-delete j s t same)

Same-restore_all :
    (xs : List SpentOutput) (s t : Entries) → Same s t → Same (restore_all xs s) (restore_all xs t)
unfolding restore_all
Same-restore_all [] s t same = same
Same-restore_all (x ∷ xs) s t same =
    Same-restore_all xs (insert (key_of x.out_point) x.entry s)
      (insert (key_of x.out_point) x.entry t) (Same-insert (key_of x.out_point) x.entry s t same)

Same-if :
    (b : Bool) (j : Bytes) (e : UtxoEntry) (s t : Entries)
    → Same s t
    → Same (if b then s else insert j e s) (if b then t else insert j e t)
Same-if true j e s t same = same
Same-if false j e s t same = Same-insert j e s t same

Same-add_unspent :
    (spent : Map (Unit {0})) (xs : List (Bytes × UtxoEntry)) (s t : Entries)
    → Same s t
    → Same (add_unspent spent xs s) (add_unspent spent xs t)
unfolding add_unspent
Same-add_unspent spent [] s t same = same
Same-add_unspent spent ((j, e) ∷ xs) s t same =
    Same-add_unspent spent xs (if has j spent then s else insert j e s)
      (if has j spent then t else insert j e t) (Same-if (has j spent) j e s t same)

pub Same-disconnect_block :
    (sha256 : Bytes → Bytes) (b : Block) (undo : List SpentOutput) (s t : Entries)
    → Same s t
    → Same (disconnect_block sha256 s b undo) (disconnect_block sha256 t b undo)
unfolding disconnect_block
Same-disconnect_block sha256 b undo s t same =
    let ks = created_keys sha256 b.transactions in
    Same-restore_all undo (delete_all ks s) (delete_all ks t) (Same-delete_all ks s t same)

Same-apply_pending :
    (w : Pending) (s t : Entries) → Same s t → Same (apply_pending w s) (apply_pending w t)
unfolding apply_pending
Same-apply_pending w s t same =
    Same-add_unspent w.spent_in_block w.to_add (delete_all w.to_remove s) (delete_all w.to_remove t)
      (Same-delete_all w.to_remove s t same)

-- The run over a block is the same run.
same_bind :
    {A B : Type 0} (r : Result ConnectError A) (f g : A → Result ConnectError B)
    → ((a : A) → f a ≡ g a)
    → (r >>= f) ≡ (r >>= g)
same_bind (ok a) f g h = h a
same_bind (err e) f g h = refl

same_guard :
    {B : Type 0} (b : Bool) (e : ConnectError) (r r' : Result ConnectError B)
    → r ≡ r'
    → (fail_if b e >> r) ≡ (fail_if b e >> r')
same_guard true e r r' h = refl
same_guard false e r r' h = h

connect_inputs_cong :
    (s t : Entries) (is : List TxInput) (seen : Map (Unit {0})) (w : Pending)
    → Same s t
    → connect_inputs s is seen w ≡ connect_inputs t is seen w
unfolding connect_inputs
connect_inputs_cong s t [] seen w same = refl
connect_inputs_cong s t (i ∷ is) seen w same =
    let key = key_of i.previous_out_point in
    same_guard {B = Pending} (has key seen) duplicate_input _ _ (
      same_guard {B = Pending} (has key w.spent_in_block) already_spent _ _ (
        rw (same key) (
          same_bind
            (find_and_spend (lookup key w.created_in_block) (lookup key t) i.previous_out_point w) _
            _ λ w'. connect_inputs_cong s t is (insert key tt seen) w' same)))

connect_tx_inputs_cong :
    (s t : Entries) (tx : Transaction) (w : Pending)
    → Same s t
    → connect_tx_inputs s tx w ≡ connect_tx_inputs t tx w
unfolding connect_tx_inputs
connect_tx_inputs_cong s t tx w same =
    ap (λ r. if is_coinbase tx then ok w else r) (connect_inputs_cong s t tx.inputs [] w same)

connect_txs_cong :
    (sha256 : Bytes → Bytes) (hashes : Option (List Hash)) (s t : Entries) (height n : ℕ)
    (txs : List Transaction) (w : Pending)
    → Same s t
    → connect_txs sha256 hashes s height n txs w ≡ connect_txs sha256 hashes t height n txs w
unfolding connect_txs
connect_txs_cong sha256 hashes s t height n [] w same = refl
connect_txs_cong sha256 hashes s t height n (tx ∷ txs) w same =
    same_bind (hash_at sha256 hashes n tx) _ _ λ h. rw (connect_tx_inputs_cong s t tx w same) (
      same_bind (connect_tx_inputs t tx w) _ _ λ w'.
        connect_txs_cong sha256 hashes s t height (n + 1) txs
          (connect_outputs h height (is_coinbase tx) 0 tx.outputs w') same)

-- What connects to a set connects to one with the same entries, with the same undo data, and leaves the
-- same entries.
pub Same-connect_block :
    (sha256 : Bytes → Bytes) (s t s' : Entries) (b : Block) (height : ℕ)
    (hashes : Option (List Hash)) (undo : List SpentOutput)
    → Same s t
    → connect_block sha256 s b height hashes ≡ ok (s', undo)
    → (t' : Entries) × (connect_block sha256 t b height hashes ≡ ok (t', undo)) × Same s' t'
unfolding connect_block
Same-connect_block sha256 s t s' b height hashes undo same h =
    after (connect_txs sha256 hashes s height 0 b.transactions nothing_pending) _ h λ w ran done.
      let ran' =
        sym (connect_txs_cong sha256 hashes s t height 0 b.transactions nothing_pending same)
        ∙ ran in
      let result = ok-injective done in
      let same_set : apply_pending w s ≡ s' = ap (λ (r : Entries × List SpentOutput). r.0) result in
      let same_undo : w.undo ≡ undo = ap (λ (r : Entries × List SpentOutput). r.1) result in
      (
        apply_pending w t,
        rw ran' (ap (λ u. ok (apply_pending w t, u)) same_undo),
        subst (λ r. Same r (apply_pending w t)) same_set (Same-apply_pending w s t same),
      )

HashesFrom-none :
    (sha256 : Bytes → Bytes) (n : ℕ) (txs : List Transaction) → HashesFrom sha256 none n txs
unfolding hash_at
HashesFrom-none sha256 n [] = tt
HashesFrom-none sha256 n (tx ∷ txs) = (refl, HashesFrom-none sha256 (n + 1) txs)

-- What is as a block left the set becomes, without the block, as the set was before it.
pub disconnect_block-Same :
    (sha256 : Bytes → Bytes) (before s t : Entries) (b : Block) (height : ℕ)
    (undo : List SpentOutput)
    → ((k : Bytes) → member k (created_keys sha256 b.transactions) ≡ true → lookup k before ≡ none)
    → connect_block sha256 before b height none ≡ ok (s, undo)
    → Same t s
    → Same (disconnect_block sha256 t b undo) before
disconnect_block-Same sha256 before s t b height undo fresh connects same k =
    Same-disconnect_block sha256 b undo t s same k
    ∙ disconnect_block-connect_block sha256 before s b height none undo
        (HashesFrom-none sha256 0 b.transactions) fresh connects k
