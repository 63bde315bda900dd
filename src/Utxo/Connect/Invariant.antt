-- ===== src/Utxo/Connect/Invariant.antt =====
-- The invariant of ConnectBlock's variables, over the set `s` that it has not yet changed.
use go_chain.Prelude.{
  ℕ, ◌+◌, ◌%◌, ◌^◌, ◌≡◌, refl, sym, ap, ◌∙◌, Bool, true, ◌||◌, List, [], ◌∷◌, ◌++◌, Option, some,
  arith, Result, ok, map, All, All-append, append-nil, ok-injective, after, after_test, subst,
  append_assoc, Bool-cases, Option-cases, inl, inr,
}
use go_chain.KeyMap.{
  Map, bytes_eq, bytes_eq_iff, lookup, has, insert, delete, member, member-append, lookup-insert,
  lookup-delete, has-insert,
}
use go_chain.Types.Bytes.{Bytes}
use go_chain.Types.Transaction.{Hash, OutPoint, TxInput, TxOutput, Transaction, is_coinbase}
use go_chain.Crypto.Hash.{hash_transaction}
use go_chain.Utxo.{
  created_keys, UtxoEntry, SpentOutput, Entries, Pending, ConnectError, key_of, entry_of,
  outpoint_key, nothing_pending, spend, find_and_spend, connect_inputs, output_keys,
  connect_outputs, connect_tx_inputs, connect_txs, hash_at,
}
use mathlib.Core.List.{map-append}

abbrev pub spent_key : SpentOutput → Bytes
spent_key x = key_of x.out_point

abbrev pub added_key : Bytes × UtxoEntry → Bytes
added_key x = x.0

abbrev pub Restores : Entries → SpentOutput → Type 0
Restores s x = lookup (spent_key x) s ≡ some x.entry

pub record IsPending (s : Entries) (w : Pending) : Type 0 where
  -- What is to be removed is what was spent.
  pub removed : (k : Bytes) → member k w.to_remove ≡ has k w.spent_in_block
  -- The undo data repeats entries of the set.
  pub undone : All (Restores s) w.undo
  -- What was spent is in the undo data, or was created in this block.
  pub accounted :
      (k : Bytes)
      → has k w.spent_in_block ≡ true
      → (member k (map spent_key w.undo) || member k (map added_key w.to_add)) ≡ true
  pub created :
      (k : Bytes) (e : UtxoEntry)
      → lookup k w.created_in_block ≡ some e
      → member k (map added_key w.to_add) ≡ true

pub nothing_pending-IsPending : (s : Entries) → IsPending s nothing_pending
unfolding member has lookup
nothing_pending-IsPending s = record {
  removed = λ k. refl;
  undone = tt;
  accounted = λ k h. cc;
  created = λ k e h. cc;
}

member_last : (k j : Bytes) → member k (j ∷ []) ≡ bytes_eq j k
unfolding member
member_last k j = ground arith

module _ (s : Entries) (w : Pending) (p : OutPoint) (v : IsPending s w) where
  spend_removed :
      (k : Bytes)
      → member k (w.to_remove ++ (key_of p ∷ [])) ≡ has k (insert (key_of p) tt w.spent_in_block)
  spend_removed k = ground (
    arith,
    member-append k w.to_remove (key_of p ∷ []),
    member_last k (key_of p),
    has-insert (key_of p) k tt w.spent_in_block,
    v.removed k,
  )

  spend_created :
      (k : Bytes) (e : UtxoEntry)
      → lookup k (delete (key_of p) w.created_in_block) ≡ some e
      → member k (map added_key w.to_add) ≡ true
  spend_created k e h = ground (arith, lookup-delete (key_of p) k w.created_in_block, v.created k e)

  -- Spending an output of this block leaves the undo data alone.
  spend_new-IsPending :
      (e : UtxoEntry)
      → lookup (key_of p) w.created_in_block ≡ some e
      → IsPending s (spend (key_of p) [] w)
  unfolding spend
  spend_new-IsPending e h = record {
    removed = spend_removed;
    undone = All-append (Restores s) w.undo [] v.undone tt;
    accounted = λ k t. rw append-nil (
        ground (
          arith,
          has-insert (key_of p) k tt w.spent_in_block,
          bytes_eq_iff (key_of p) k,
          v.created (key_of p) e h,
          v.accounted k,
        ));
    created = spend_created;
  }

  spend_old-IsPending :
      (e : UtxoEntry)
      → lookup (key_of p) s ≡ some e
      → IsPending s (spend (key_of p) (record { out_point = p; entry = e } ∷ []) w)
  unfolding spend
  spend_old-IsPending e h = record {
    removed = spend_removed;
    undone = All-append (Restores s) w.undo _ v.undone (h, tt);
    accounted = λ k t. rw map-append (
        ground (
          arith,
          has-insert (key_of p) k tt w.spent_in_block,
          member-append k (map spent_key w.undo) (key_of p ∷ []),
          member_last k (key_of p),
          v.accounted k,
        ));
    created = spend_created;
  }

  find_and_spend-IsPending :
      (w' : Pending)
      → find_and_spend (lookup (key_of p) w.created_in_block) (lookup (key_of p) s) p w ≡ ok w'
      → IsPending s w' × (w'.to_add ≡ w.to_add)
  unfolding find_and_spend
  find_and_spend-IsPending w' h = elim (Option-cases (lookup (key_of p) w.created_in_block)) [
    | inr (e, new) ↦ done (spend_new-IsPending e new) refl (rw new at h)
    | inl old ↦ elim (Option-cases (lookup (key_of p) s)) [
      | inr (e, found) ↦ done (spend_old-IsPending e found) refl (rw (old, found) at h)
      | inl missing ↦ cc (old, missing, h)
    ]
  ]
    where
      done :
          {u : Pending}
          → IsPending s u
          → u.to_add ≡ w.to_add
          → ◌≡◌ {A = Result ConnectError Pending} (ok u) (ok w')
          → IsPending s w' × (w'.to_add ≡ w.to_add)
      done i same e = subst (λ u. IsPending s u × (u.to_add ≡ w.to_add)) (ok-injective e) (i, same)

pub connect_inputs-IsPending :
    (s : Entries) (is : List TxInput) (seen : Map (Unit {0})) (w w' : Pending)
    → IsPending s w
    → connect_inputs s is seen w ≡ ok w'
    → IsPending s w' × (w'.to_add ≡ w.to_add)
unfolding connect_inputs
connect_inputs-IsPending s [] seen w w' v h =
    subst (λ u. IsPending s u × (u.to_add ≡ w.to_add)) (ok-injective h) (v, refl)
connect_inputs-IsPending s (i ∷ is) seen w w' v h =
    let p = i.previous_out_point in
    after_test (has (key_of p) seen) _ _ h λ new h₁.
      after_test (has (key_of p) w.spent_in_block) _ _ h₁ λ unspent h₂. after _ _ h₂ λ w₁ found h₃.
        let (v₁, same₁) = find_and_spend-IsPending s w p v w₁ found in
        let (v₂, same₂) = connect_inputs-IsPending s is (insert (key_of p) tt seen) w₁ w' v₁ h₃ in
        (v₂, same₂ ∙ same₁)

connect_tx_inputs-IsPending :
    (s : Entries) (tx : Transaction) (w w' : Pending)
    → IsPending s w
    → connect_tx_inputs s tx w ≡ ok w'
    → IsPending s w' × (w'.to_add ≡ w.to_add)
unfolding connect_tx_inputs
connect_tx_inputs-IsPending s tx w w' v h = elim (Bool-cases (is_coinbase tx)) [
  | inl coinbase ↦
      subst (λ u. IsPending s u × (u.to_add ≡ w.to_add)) (ok-injective (rw coinbase at h)) (v, refl)
  | inr other ↦ connect_inputs-IsPending s tx.inputs [] w w' v (rw other at h)
]

-- Creating one output.
create : Bytes → UtxoEntry → Pending → Pending
create key e w = record w {
  created_in_block = insert key e w.created_in_block;
  to_add = w.to_add ++ ((key, e) ∷ []);
}

create-IsPending :
    (s : Entries) (key : Bytes) (e : UtxoEntry) (w : Pending)
    → IsPending s w
    → IsPending s (create key e w)
unfolding create
create-IsPending s key e w v = record {
  removed = v.removed;
  undone = v.undone;
  accounted = λ k t.
      rw map-append
        (ground (arith, member-append k (map added_key w.to_add) (key ∷ []), v.accounted k t));
  created = λ k d t. rw map-append (
      ground (
        arith,
        member-append k (map added_key w.to_add) (key ∷ []),
        member_last k key,
        lookup-insert key k e w.created_in_block,
        v.created k d,
      ));
}

connect_outputs-IsPending :
    (s : Entries) (tx_hash : Hash) (height : ℕ) (coinbase : Bool) (n : ℕ) (os : List TxOutput)
    (w : Pending)
    → IsPending s w
    → let w' = connect_outputs tx_hash height coinbase n os w in
      IsPending s w'
      × (map added_key w'.to_add ≡ map added_key w.to_add ++ output_keys tx_hash n os)
unfolding connect_outputs output_keys create
connect_outputs-IsPending s tx_hash height coinbase n [] w v = (v, sym (append-nil _))
connect_outputs-IsPending s tx_hash height coinbase n (o ∷ os) w v =
    let key = outpoint_key tx_hash (n % 2 ^ 32) in
    let e = entry_of o height coinbase in
    let (v', keys) =
      connect_outputs-IsPending s tx_hash height coinbase (n + 1) os (create key e w)
        (create-IsPending s key e w v) in
    (v', keys ∙ rw map-append (append_assoc (map added_key w.to_add) (key ∷ []) _))

regroup : (a b c : Bool) → ((a || b) || c) ≡ (a || (c || b))
regroup a b c = ground arith

-- The hashes that a block is connected with are those of its transactions, from index `n` on.
abbrev pub HashesFrom : (Bytes → Bytes) → Option (List Hash) → ℕ → List Transaction → Type 0
HashesFrom sha256 hashes n [] = Unit {0}
HashesFrom sha256 hashes n (tx ∷ txs) =
    (hash_at sha256 hashes n tx ≡ ok (hash_transaction sha256 tx))
    × HashesFrom sha256 hashes (n + 1) txs

module _ (sha256 : Bytes → Bytes) (hashes : Option (List Hash)) (s : Entries) (height : ℕ) where
  -- What is to be added is what the transactions create.
  pub connect_txs-IsPending :
      (n : ℕ) (txs : List Transaction) (w w' : Pending)
      → IsPending s w
      → HashesFrom sha256 hashes n txs
      → connect_txs sha256 hashes s height n txs w ≡ ok w'
      → IsPending s w'
        × ((k : Bytes)
            → member k (map added_key w'.to_add)
              ≡ (member k (map added_key w.to_add) || member k (created_keys sha256 txs)))
  unfolding connect_txs created_keys
  connect_txs-IsPending n [] w w' v hs h =
      subst
        (λ u.
          IsPending s u
          × ((k : Bytes)
              → member k (map added_key u.to_add)
                ≡ (member k (map added_key w.to_add) || member k [])))
        (ok-injective h) (v, λ k. unfold member in ground arith)
  connect_txs-IsPending n (tx ∷ txs) w w' v hs h =
      let tx_hash = hash_transaction sha256 tx in
      after _ _ (rw hs.0 at h) λ w₁ ran rest.
        let (v₁, same) = connect_tx_inputs-IsPending s tx w w₁ v ran in
        let w₂ = connect_outputs tx_hash height (is_coinbase tx) 0 tx.outputs w₁ in
        let (v₂, keys) =
          connect_outputs-IsPending s tx_hash height (is_coinbase tx) 0 tx.outputs w₁ v₁ in
        let (v₃, added) = connect_txs-IsPending (n + 1) txs w₂ w' v₂ hs.1 rest in
        let made = output_keys tx_hash 0 tx.outputs in
        let later = created_keys sha256 txs in
        (
          v₃,
          λ k.
              added k
              ∙ ap (λ (b : Bool). b || member k later)
                  (ap (member k) (keys ∙ ap (λ t. map added_key t ++ made) same)
                    ∙ member-append k (map added_key w.to_add) made)
              ∙ regroup (member k (map added_key w.to_add)) (member k made) (member k later)
              ∙ ap (λ (b : Bool). member k (map added_key w.to_add) || b)
                  (sym (member-append k later made)),
        )
