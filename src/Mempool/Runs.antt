-- ===== src/Mempool/Runs.antt =====
-- Any sequence of calls of the pool's methods, from New on.
use go_chain.Prelude.{
  ℕ, suc, ◌≤◌, ◌<◌, ◌^◌, ◌≡◌, ◌≢◌, refl, sym, subst, inl, inr, false, ◌==◌, if◌then◌else◌, List, [],
  ◌∷◌, none, length, arith, ok, err, Result, Result-cases, Bool-cases,
}
use go_chain.KeyMap.{Map, lookup, has, insert}
use go_chain.KeyMap.Distinct.{has_false→lookup, lookup_none→has, length-total, total-insert}
use go_chain.Types.Bytes.{Bytes}
use go_chain.Types.Transaction.{Hash, Transaction, tx_size}
use go_chain.Crypto.Hash.{hash_transaction}
use go_chain.Crypto.Keys.{Primitives}
use go_chain.Utxo.{Entries}
use go_chain.Params.{ChainParams, max_tx_size}
use go_chain.Mempool.{
  Mempool, PoolError, max_mempool_bytes, new, input_keys, conflicts, entry_size, make_room,
  insert_entry, new_entry, add_tx, remove_tx, remove_txs, expired_hashes, expire_old_txs,
  evict_lowest_fee_rate, evict_lowest,
}
use go_chain.Mempool.FeeOrder.{TxEntry}
use go_chain.Mempool.Valid.{IsValid, new-IsValid}
use go_chain.Mempool.Valid.Insert.{insert_entry-IsValid}
use go_chain.Mempool.Eviction.Rounds.{
  IsWithin, IsWithin-self, IsWithin-trans, remove_tx-IsWithin, evict_lowest-IsWithin,
  make_room-HasRoom,
}
use go_chain.Mempool.Admission.{add_tx-Admitted}

-- MaxMempoolSize, and room for one transaction where it is zero.
abbrev pub pool_limit : ChainParams → ℕ
pool_limit p = if p.max_mempool_size == 0 then 1 else p.max_mempool_size

-- A consistent pool that is no larger than the network allows.
pub record IsBounded (sha256 : Bytes → Bytes) (p : ChainParams) (m : Mempool) : Type 0 where
  pub valid : IsValid sha256 p m
  pub count : length m.txs ≤ pool_limit p
  pub bytes : m.total_bytes ≤ max_mempool_bytes

-- A call, with what the node and the clock give it.
pub data Call : Type 0 where
  adds : Entries → ℕ → ℕ → ℕ → Transaction → Call
  removes : List Hash → Call
  expires : ℕ → Call
  evicts : Call

abbrev after_add : Mempool → Result PoolError (Mempool × Hash) → Mempool
after_add m (ok r) = r.0
after_add m (err e) = m

unfoldable pub call : Primitives → ChainParams → Mempool → Call → Mempool
call c p m (adds s tip_height now added_at tx) =
    after_add m (add_tx c p s tip_height now added_at tx m)
call c p m (removes hs) = remove_txs hs m
call c p m (expires now) = (expire_old_txs p now m).0
call c p m evicts = (evict_lowest_fee_rate m).0

unfoldable pub run_calls : Primitives → ChainParams → Mempool → List Call → Mempool
run_calls c p m [] = m
run_calls c p m (x ∷ xs) = run_calls c p (call c p m x) xs

unspent-conflicts :
    (ks : List Bytes) (a b : Map Hash)
    → ((k : Bytes) → lookup k a ≡ none → lookup k b ≡ none)
    → conflicts ks a ≡ false
    → conflicts ks b ≡ false
unfolding conflicts
unspent-conflicts [] a b keep h = refl
unspent-conflicts (k ∷ ks) a b keep h = ground (
  arith,
  lookup_none→has k b (keep k (has_false→lookup k a (ground arith))),
  unspent-conflicts ks a b keep,
)

entry_size-lt : (tx : Transaction) → tx_size tx ≤ max_tx_size → entry_size tx ≤ max_mempool_bytes
unfolding entry_size
entry_size-lt tx h = ground arith

module _ (c : Primitives) (p : ChainParams) (fits : p.max_mempool_size < 2 ^ 32) where
  one_more :
      (txs : Map TxEntry) (e : TxEntry)
      → has e.hash txs ≡ false
      → (length txs ≢ 0 → length txs < p.max_mempool_size)
      → length (insert e.hash e txs) ≤ pool_limit p
  one_more [] e absent room =
      let one : length (insert e.hash e []) ≡ 1 = omega (
        arith,
        length-total (insert e.hash e []),
        total-insert (λ (y : TxEntry). 1) e.hash e [] absent,
      ) in
      ground (arith, one)
  one_more (x ∷ txs) e absent room =
      let grown : length (insert e.hash e (x ∷ txs)) ≡ suc (length (x ∷ txs)) = omega (
        arith,
        length-total (insert e.hash e (x ∷ txs)),
        total-insert (λ (y : TxEntry). 1) e.hash e (x ∷ txs) absent,
        length-total (x ∷ txs),
      ) in
      let lt : length (x ∷ txs) < p.max_mempool_size = room (λ z. absurd (omega (arith, z))) in
      ground (arith, grown, lt)

  add_tx-IsBounded :
      (s : Entries) (tip_height now added_at : ℕ) (tx : Transaction) (m m' : Mempool) (h : Hash)
      → add_tx c p s tip_height now added_at tx m ≡ ok (m', h)
      → IsBounded c.sha256 p m
      → IsBounded c.sha256 p m'
  unfolding insert_entry
  add_tx-IsBounded s tip_height now added_at tx m m' h done b =
      let (fee, a, hash) = add_tx-Admitted c p s tip_height now added_at tx m done in
      let size = entry_size tx in
      let small = entry_size-lt tx a.small in
      let n = make_room p size m in
      let made = make_room-HasRoom c.sha256 p size m small (ground (arith, b.count)) b.valid in
      let within = made.0 in
      let room = made.1 in
      let e = new_entry (hash_transaction c.sha256 tx) tx fee added_at in
      let free =
        unspent-conflicts (input_keys tx.inputs) m.spent_outpoints n.spent_outpoints
          within.outpoints a.unspent in
      let absent = within.keys e.hash a.unknown in
      subst (IsBounded c.sha256 p) (sym a.result) (record {
        valid = insert_entry-IsValid c.sha256 p e n absent free within.valid (record {
          keyed = refl;
          hashed = refl;
          sized = refl;
          rated = refl;
          paid = a.paid;
          paid_rate = a.paid_rate;
        });
        count = one_more n.txs e absent room.count;
        bytes = omega (arith, room.bytes);
      })

  -- A pool that only lost transactions.
  IsWithin-IsBounded :
      (m n : Mempool) → IsWithin c.sha256 p m n → IsBounded c.sha256 p m → IsBounded c.sha256 p n
  IsWithin-IsBounded m n w b = record {
    valid = w.valid;
    count = omega (arith, w.fewer, b.count);
    bytes = omega (arith, w.lighter, b.bytes);
  }

  remove_txs-IsWithin :
      (hs : List Hash) (m : Mempool)
      → IsValid c.sha256 p m
      → IsWithin c.sha256 p m (remove_txs hs m)
  unfolding remove_txs
  remove_txs-IsWithin [] m v = IsWithin-self c.sha256 p m v
  remove_txs-IsWithin (h ∷ hs) m v =
      let first = remove_tx-IsWithin c.sha256 p h m v in
      IsWithin-trans c.sha256 p m (remove_tx h m) (remove_txs hs (remove_tx h m)) first
        (remove_txs-IsWithin hs (remove_tx h m) first.valid)

  evicted-IsBounded :
      (m : Mempool) → IsBounded c.sha256 p m → IsBounded c.sha256 p (evict_lowest_fee_rate m).0
  unfolding evict_lowest_fee_rate
  evicted-IsBounded m b = elim (Bool-cases (length m.txs == 0)) [
    | inl none_left ↦ rw none_left b
    | inr some_left ↦
        let round = evict_lowest-IsWithin c.sha256 p m b.valid (λ e. ground arith) in
        rw some_left (IsWithin-IsBounded m (evict_lowest m) round.0 b)
  ]

  expired-IsBounded :
      (now : ℕ) (m : Mempool)
      → IsBounded c.sha256 p m
      → IsBounded c.sha256 p (expire_old_txs p now m).0
  unfolding expire_old_txs
  expired-IsBounded now m b =
      let gone = expired_hashes p.mempool_expiry now m.txs in
      elim (Bool-cases (p.mempool_expiry == 0)) [
        | inl never ↦ rw never b
        | inr some_time ↦
            rw some_time
              (IsWithin-IsBounded m (remove_txs gone m) (remove_txs-IsWithin gone m b.valid) b)
      ]

  call-IsBounded :
      (m : Mempool) (x : Call) → IsBounded c.sha256 p m → IsBounded c.sha256 p (call c p m x)
  unfolding call
  call-IsBounded m (adds s tip_height now added_at tx) b =
      elim (Result-cases (add_tx c p s tip_height now added_at tx m)) [
        | inl ((m', h), done) ↦
            rw done (add_tx-IsBounded s tip_height now added_at tx m m' h done b)
        | inr (e, refused) ↦ rw refused b
      ]
  call-IsBounded m (removes hs) b =
      IsWithin-IsBounded m (remove_txs hs m) (remove_txs-IsWithin hs m b.valid) b
  call-IsBounded m (expires now) b = expired-IsBounded now m b
  call-IsBounded m evicts b = evicted-IsBounded m b

  run_keeps :
      (xs : List Call) (m : Mempool)
      → IsBounded c.sha256 p m
      → IsBounded c.sha256 p (run_calls c p m xs)
  unfolding run_calls
  run_keeps [] m b = b
  run_keeps (x ∷ xs) m b = run_keeps xs (call c p m x) (call-IsBounded m x b)

  -- However AddTx, RemoveTxs, ExpireOldTxs and EvictLowestFeeRate are called from New on, in a network
  -- whose MaxMempoolSize is a uint32, the pool stays consistent and bounded: an outpoint is marked as
  -- spent by a hash exactly when the transaction of that hash is in the pool and spends it, every entry
  -- stands under the hash of its transaction with its size and rate and pays the relay fees, the byte
  -- count is the sum of the sizes and at most 300 MB, the heap holds the entries, and their number is
  -- at most MaxMempoolSize, or one where that is zero.
  pub run_calls-IsBounded : (xs : List Call) → IsBounded c.sha256 p (run_calls c p new xs)
  run_calls-IsBounded xs =
      run_keeps xs new
        (record { valid = new-IsValid c.sha256 p; count = ground arith; bytes = omega arith })
