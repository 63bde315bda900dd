-- ===== src/Mempool/Eviction/Rounds.antt =====
-- The loops of AddTx that make room: they keep the pool consistent, and they end.
use go_chain.Prelude.{
  ℕ, zero, suc, ◌+◌, ◌%◌, ◌^◌, ◌≤◌, ◌<◌, ◌≡◌, ◌≢◌, refl, sym, subst, ◌∙◌, ◌⊎◌, inl, inr, Bool, true,
  false, ◌&&◌, ltb, leb, arith, Bool-cases, Option-cases, some, none, length, [], ◌∷◌,
}
use go_chain.KeyMap.{Map, lookup, has, delete}
use go_chain.KeyMap.Distinct.{IsDistinct, has-delete, total, total-delete, length-total}
use go_chain.Types.Bytes.{Bytes}
use go_chain.Types.Transaction.{Hash}
use go_chain.Params.{ChainParams}
use go_chain.Mempool.{
  Mempool, max_mempool_bytes, input_keys, remove_entry, remove_tx, evict_lowest, evict_to_count,
  evict_to_bytes, make_room,
}
use go_chain.Mempool.FeeOrder.{TxEntry}
use go_chain.Mempool.Valid.{IsValid}
use go_chain.Mempool.Valid.Remove.{
  remove_entry-IsValid, remove_tx-missing, remove_tx-found, lookup-unmark,
}
use go_chain.Mempool.Eviction.{evict_lowest_lem}

-- What the rest of AddTx needs of a pool that lost entries: it is consistent, no larger, and holds and
-- spends nothing that the former did not.
pub record IsWithin (sha256 : Bytes → Bytes) (p : ChainParams) (m n : Mempool) : Type 0 where
  pub valid : IsValid sha256 p n
  pub fewer : length n.txs ≤ length m.txs
  pub lighter : n.total_bytes ≤ m.total_bytes
  pub keys : (h : Bytes) → has h m.txs ≡ false → has h n.txs ≡ false
  pub outpoints :
      (k : Bytes) → lookup k m.spent_outpoints ≡ none → lookup k n.spent_outpoints ≡ none

length-delete :
    (h : Hash) (e : TxEntry) (m : Mempool)
    → IsDistinct m.txs
    → lookup h m.txs ≡ some e
    → suc (length (delete h m.txs)) ≡ length m.txs
length-delete h e m d found = omega (
  arith,
  total-delete (λ (x : TxEntry). 1) h e m.txs d found,
  length-total m.txs,
  length-total (delete h m.txs),
)

zero_or_more : (n : ℕ) → (n ≡ 0) ⊎ (0 < n)
zero_or_more zero = inl refl
zero_or_more (suc n) = inr (omega arith)

below_of_tests :
    (n k max : ℕ) → n ≢ 0 → n ≤ k → k < 2 ^ 32 → (leb max (k % 2 ^ 32) && ltb 0 k) ≡ false → n < max
below_of_tests n k max ne le small test =
    let same : k % 2 ^ 32 ≡ k = omega arith in
    let off : (leb max k && ltb 0 k) ≡ false =
      subst (λ r. (leb max r && ltb 0 k) ≡ false) same test in
    let pos : (n ≡ 0) ⊎ (0 < n) = zero_or_more n in
    elim pos [ inl e ↦ absurd (ne e) | inr lt ↦ ground (arith) ]

fits_of_test :
    (n : Mempool) (size : ℕ)
    → size ≤ max_mempool_bytes
    → (length n.txs ≡ 0 → n.total_bytes ≡ 0)
    → (ltb max_mempool_bytes (n.total_bytes + size) && ltb 0 (length n.txs)) ≡ false
    → n.total_bytes + size ≤ max_mempool_bytes
fits_of_test n size small empty test = elim (zero_or_more (length n.txs)) [
  | inl e ↦ omega (arith, empty e)
  | inr lt ↦ ground arith
]

module _ (sha256 : Bytes → Bytes) (p : ChainParams) where
  pub IsWithin-self : (m : Mempool) → IsValid sha256 p m → IsWithin sha256 p m m
  IsWithin-self m v = record {
    valid = v;
    fewer = omega arith;
    lighter = omega arith;
    keys = λ h e. e;
    outpoints = λ k e. e;
  }

  pub IsWithin-trans :
      (m n o : Mempool) → IsWithin sha256 p m n → IsWithin sha256 p n o → IsWithin sha256 p m o
  IsWithin-trans m n o a b = record {
    valid = b.valid;
    fewer = omega (arith, a.fewer, b.fewer);
    lighter = omega (arith, a.lighter, b.lighter);
    keys = λ h e. b.keys h (a.keys h e);
    outpoints = λ k e. b.outpoints k (a.outpoints k e);
  }

  pub remove_entry-IsWithin :
      (h : Hash) (e : TxEntry) (m : Mempool)
      → lookup h m.txs ≡ some e
      → IsValid sha256 p m
      → IsWithin sha256 p m (remove_entry h e m)
  unfolding remove_entry
  remove_entry-IsWithin h e m found v = record {
    valid = remove_entry-IsValid sha256 p h e m found v;
    fewer = omega (arith, length-delete h e m v.distinct found);
    lighter = omega arith;
    keys = λ k absent. ground (arith, has-delete h k m.txs);
    outpoints =
        λ k free. ground (arith, lookup-unmark (input_keys e.tx.inputs) k m.spent_outpoints);
  }

  pub remove_tx-IsWithin :
      (h : Hash) (m : Mempool) → IsValid sha256 p m → IsWithin sha256 p m (remove_tx h m)
  remove_tx-IsWithin h m v = elim (Option-cases (lookup h m.txs)) [
    | inl e ↦ subst (λ n. IsWithin sha256 p m n) (sym (remove_tx-missing h m e)) (IsWithin-self m v)
    | inr (e, found) ↦
        subst (λ n. IsWithin sha256 p m n) (sym (remove_tx-found h e m found))
          (remove_entry-IsWithin h e m found v)
  ]

  -- One round.
  pub evict_lowest-IsWithin :
      (m : Mempool)
      → IsValid sha256 p m
      → length m.txs ≢ 0
      → IsWithin sha256 p m (evict_lowest m) × (suc (length (evict_lowest m).txs) ≡ length m.txs)
  unfolding remove_entry
  evict_lowest-IsWithin m v some_txs =
      let (e, step) = evict_lowest_lem sha256 p m v some_txs in
      (
        subst (λ n. IsWithin sha256 p m n) (sym step.removed)
            (remove_entry-IsWithin e.hash e m step.held v),
        subst (λ n. suc (length n.txs) ≡ length m.txs) (sym step.removed)
            (length-delete e.hash e m v.distinct step.held),
      )

  -- The test of a round that removes: the pool is not empty.
  full-ne : (b : Bool) (n : ℕ) → (b && ltb 0 n) ≡ true → n ≢ 0
  full-ne b n h e = ground arith

  evict_to_count-IsWithin :
      (k max : ℕ) (m : Mempool)
      → length m.txs ≤ k
      → IsValid sha256 p m
      → IsWithin sha256 p m (evict_to_count k max m)
        × ((leb max (length (evict_to_count k max m).txs % 2 ^ 32)
              && ltb 0 (length (evict_to_count k max m).txs))
            ≡ false)
  unfolding evict_to_count
  evict_to_count-IsWithin zero max m enough v = (IsWithin-self m v, ground arith)
  evict_to_count-IsWithin (suc k) max m enough v =
      elim (Bool-cases (leb max (length m.txs % 2 ^ 32) && ltb 0 (length m.txs))) [
        | inr stop ↦ rw (evict_to_count, stop) (IsWithin-self m v, stop)
        | inl more ↦
            let round =
              evict_lowest-IsWithin m v
                (full-ne (leb max (length m.txs % 2 ^ 32)) (length m.txs) more) in
            let one_less : suc (length (evict_lowest m).txs) ≡ length m.txs = round.1 in
            let (rest, done) =
              evict_to_count-IsWithin k max (evict_lowest m) (omega (arith, one_less))
                round.0.valid in
            rw (evict_to_count, more) (IsWithin-trans m (evict_lowest m) _ round.0 rest, done)
      ]

  evict_to_bytes-IsWithin :
      (k size : ℕ) (m : Mempool)
      → length m.txs ≤ k
      → IsValid sha256 p m
      → IsWithin sha256 p m (evict_to_bytes k size m)
        × ((ltb max_mempool_bytes ((evict_to_bytes k size m).total_bytes + size)
              && ltb 0 (length (evict_to_bytes k size m).txs))
            ≡ false)
  unfolding evict_to_bytes
  evict_to_bytes-IsWithin zero size m enough v = (IsWithin-self m v, ground arith)
  evict_to_bytes-IsWithin (suc k) size m enough v =
      elim (Bool-cases (ltb max_mempool_bytes (m.total_bytes + size) && ltb 0 (length m.txs))) [
        | inr stop ↦ rw (evict_to_bytes, stop) (IsWithin-self m v, stop)
        | inl more ↦
            let round =
              evict_lowest-IsWithin m v
                (full-ne (ltb max_mempool_bytes (m.total_bytes + size)) (length m.txs) more) in
            let one_less : suc (length (evict_lowest m).txs) ≡ length m.txs = round.1 in
            let (rest, done) =
              evict_to_bytes-IsWithin k size (evict_lowest m) (omega (arith, one_less))
                round.0.valid in
            rw (evict_to_bytes, more) (IsWithin-trans m (evict_lowest m) _ round.0 rest, done)
      ]

  -- After both loops there is room for one more, of `size` bytes.
  pub record HasRoom (size : ℕ) (n : Mempool) : Type 0 where
    pub count : (length n.txs ≢ 0) → length n.txs < p.max_mempool_size
    pub bytes : n.total_bytes + size ≤ max_mempool_bytes

  room-of_empty : (n : Mempool) → IsValid sha256 p n → length n.txs ≡ 0 → n.total_bytes ≡ 0
  room-of_empty n v e = v.counted ∙ total-empty n.txs e
    where
      total-empty : (l : Map TxEntry) → length l ≡ 0 → total (λ (x : TxEntry). x.size) l ≡ 0
      total-empty [] h = refl
      total-empty (x ∷ l) h = absurd (omega arith)

  -- From a pool of fewer than 2 ^ 32 transactions the loops reach a pool with room, whatever they meet.
  pub make_room-HasRoom :
      (size : ℕ) (m : Mempool)
      → size ≤ max_mempool_bytes
      → length m.txs < 2 ^ 32
      → IsValid sha256 p m
      → IsWithin sha256 p m (make_room p size m) × HasRoom size (make_room p size m)
  unfolding make_room
  make_room-HasRoom size m small bounded v =
      let m' = evict_to_count (length m.txs) p.max_mempool_size m in
      let n = evict_to_bytes (length m'.txs) size m' in
      let (first, counted) =
        evict_to_count-IsWithin (length m.txs) p.max_mempool_size m (omega arith) v in
      let (second, weighed) =
        evict_to_bytes-IsWithin (length m'.txs) size m' (omega arith) first.valid in
      let whole = IsWithin-trans m m' n first second in
      (
        whole,
        record {
          count = λ ne.
              below_of_tests (length n.txs) (length m'.txs) p.max_mempool_size ne second.fewer
                (omega (arith, first.fewer)) counted;
          bytes = fits_of_test n size small (λ e. room-of_empty n whole.valid e) weighed;
        },
      )
