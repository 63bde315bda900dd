-- ===== src/Chain/Headers/Valid/Keeps.antt =====
-- Insertion, pruning and the cache of rejected headers keep the index valid.
use go_chain.Prelude.{
  ℕ, ◌+◌, ◌-◌, ◌%◌, ◌^◌, ◌≤◌, ◌<◌, ◌≡◌, refl, sym, ◌∙◌, inl, inr, true, false, ◌&&◌, List, [], ◌∷◌,
  some, ltb, ltb→lt, ltb_false→le, ◌==◌, arith, Bool-cases, Option-cases, Result-cases,
}
use go_chain.KeyMap.{Map, lookup, has, member, bytes_eq, bytes_eq_iff, bytes_eq_self, lookup-insert}
use go_chain.KeyMap.Distinct.{AllPairs, AllPairs-lookup, AllPairs-insert, lookup→has}
use go_chain.Types.Bytes.{Bytes}
use go_chain.Types.Transaction.{Hash}
use go_chain.Types.Block.{BlockHeader}
use go_chain.Crypto.Hash.{hash_block_header}
use go_chain.Params.{ChainParams}
use go_chain.Consensus.Pow.{Engine, full_validate_header}
use go_chain.Chain.Headers.{
  HeaderNode, root, child, node_hash, node_height, node_header, node_work, HeaderIndex,
  rebuild_height_index, chain_hashes, drop_stale, prune_stale_forks, child_of, insert_node,
  insert_and_prune, add_rejected, insert_trusted_header, over_capacity, build_ancestor_lookup,
  add_below, add_header, max_fork_depth,
}
use go_chain.Chain.Headers.Valid.{IsIndexed, IsValid, AllPairs-weaken, rebuilt-path}

other_key :
    (n : HeaderNode) (idx : HeaderIndex)
    → has (node_hash n) idx.by_hash ≡ false
    → lookup (node_hash idx.best_header) idx.by_hash ≡ some idx.best_header
    → bytes_eq (node_hash n) (node_hash idx.best_header) ≡ false
other_key n idx fresh there =
    elim (Bool-cases (bytes_eq (node_hash n) (node_hash idx.best_header))) [
      | inr differs ↦ differs
      | inl same ↦ cc (
        fresh,
        (bytes_eq_iff (node_hash n) (node_hash idx.best_header)).0 same,
        lookup→has (node_hash idx.best_header) idx.by_hash idx.best_header there,
      )
    ]

-- A node that is kept is still found; nothing is added.
lookup-drop_stale :
    (b : ℕ) (keep : List Hash) (h : Hash) (m : Map HeaderNode)
    → member h keep ≡ true
    → lookup h (drop_stale b keep m) ≡ lookup h m
unfolding drop_stale lookup
lookup-drop_stale b keep h [] kept = refl
lookup-drop_stale b keep h ((j, n) ∷ m) kept =
    ground (arith, lookup-drop_stale b keep h m, bytes_eq_iff j h)

AllPairs-drop_stale :
    (P : Hash → HeaderNode → Type 0) (b : ℕ) (keep : List Hash) (m : Map HeaderNode)
    → AllPairs P m
    → AllPairs P (drop_stale b keep m)
unfolding drop_stale
AllPairs-drop_stale P b keep [] a = tt
AllPairs-drop_stale P b keep ((h, n) ∷ m) a =
    let rest = AllPairs-drop_stale P b keep m a.1 in
    elim (Bool-cases (ltb b (node_height n))) [
      | inl high ↦ rw (drop_stale, high) (a.0, rest)
      | inr low ↦ elim (Bool-cases (member h keep)) [
        | inl kept ↦ rw (drop_stale, low, kept) (a.0, rest)
        | inr stale ↦ rw (drop_stale, low, stale) rest
      ]
    ]

own_hash : (n : HeaderNode) → member (node_hash n) (chain_hashes n) ≡ true
unfolding chain_hashes member
own_hash (root h n x w) = rw (bytes_eq_self h) refl
own_hash (child h n x w p) = rw (bytes_eq_self h) refl

module _ (sha256 : Bytes → Bytes) (k : ℕ) where
  -- A header below a node of the index.
  child_of-IsIndexed :
      (header : BlockHeader) (parent : HeaderNode)
      → k + 1 < 2 ^ 32
      → IsIndexed sha256 k header.prev_block parent
      → IsIndexed sha256
          (k + 1)
          (hash_block_header sha256 header)
          (child_of (hash_block_header sha256 header) header parent)
  child_of-IsIndexed header parent fits i =
      (refl, (refl, omega (arith, i.2), refl, sym i.0, i.1), omega (arith, i.2))

  grown :
      (m : Map HeaderNode) → AllPairs (IsIndexed sha256 k) m → AllPairs (IsIndexed sha256 (k + 1)) m
  grown m a =
      AllPairs-weaken (IsIndexed sha256 k) (IsIndexed sha256 (k + 1)) m
        (λ h n i. (i.0, i.1, omega (arith, i.2))) a

  insert_node-IsValid :
      (n : HeaderNode) (idx : HeaderIndex)
      → IsIndexed sha256 (k + 1) (node_hash n) n
      → has (node_hash n) idx.by_hash ≡ false
      → IsValid sha256 k idx
      → IsValid sha256 (k + 1) (insert_node n idx)
  unfolding insert_node rebuild_height_index
  insert_node-IsValid n idx i fresh v =
      let nodes =
        AllPairs-insert (IsIndexed sha256 (k + 1)) (node_hash n) n idx.by_hash i
          (grown idx.by_hash v.nodes) in
      elim (Bool-cases (ltb (node_work idx.best_header) (node_work n))) [
        | inl more ↦
            let lt = ltb→lt (node_work idx.best_header) (node_work n) more in
            rw more (record {
              nodes = nodes;
              best_in =
                  rw
                    (
                      lookup-insert (node_hash n) (node_hash n) n idx.by_hash,
                      bytes_eq_self (node_hash n),
                    )
                    refl;
              most_work =
                  AllPairs-insert (λ h q. node_work q ≤ node_work n) (node_hash n) n idx.by_hash
                    (omega arith)
                    (AllPairs-weaken (λ h q. node_work q ≤ node_work idx.best_header)
                      (λ h q. node_work q ≤ node_work n) idx.by_hash
                      (λ h q le. omega (arith, le, lt)) v.most_work);
              indexed = rw v.indexed (
                  rebuilt-path sha256 idx.best_header n
                    (AllPairs-lookup (IsIndexed sha256 k) (node_hash idx.best_header)
                      idx.best_header idx.by_hash v.nodes v.best_in).1
                    i.1);
            })
        | inr no_more ↦
            let le = ltb_false→le (node_work idx.best_header) (node_work n) no_more in
            rw no_more (record {
              nodes = nodes;
              best_in =
                  rw
                    (
                      lookup-insert (node_hash n) (node_hash idx.best_header) n idx.by_hash,
                      other_key n idx fresh v.best_in,
                    )
                    v.best_in;
              most_work =
                  AllPairs-insert (λ h q. node_work q ≤ node_work idx.best_header) (node_hash n) n
                    idx.by_hash le v.most_work;
              indexed = v.indexed;
            })
      ]

  prune_stale_forks-IsValid :
      (idx : HeaderIndex) → IsValid sha256 k idx → IsValid sha256 k (prune_stale_forks idx)
  unfolding prune_stale_forks
  prune_stale_forks-IsValid idx v =
      let b = node_height idx.best_header - max_fork_depth in
      let keep = chain_hashes idx.best_header in
      elim (Bool-cases (ltb (node_height idx.best_header) max_fork_depth)) [
        | inl short ↦ rw short v
        | inr long ↦ rw long (record {
          nodes = AllPairs-drop_stale (IsIndexed sha256 k) b keep idx.by_hash v.nodes;
          best_in =
              lookup-drop_stale b keep (node_hash idx.best_header) idx.by_hash
                (own_hash idx.best_header)
              ∙ v.best_in;
          most_work =
              AllPairs-drop_stale (λ h n. node_work n ≤ node_work idx.best_header) b keep
                idx.by_hash v.most_work;
          indexed = v.indexed;
        })
      ]

  add_rejected-IsValid :
      (h : Hash) (idx : HeaderIndex) → IsValid sha256 k idx → IsValid sha256 k (add_rejected h idx)
  unfolding add_rejected
  add_rejected-IsValid h idx v = elim (Bool-cases (has h idx.rejected)) [
    | inl known ↦ rw known v
    | inr unknown ↦ rw unknown (record {
      nodes = v.nodes;
      best_in = v.best_in;
      most_work = v.most_work;
      indexed = v.indexed;
    })
  ]

  IsValid-grow : (idx : HeaderIndex) → IsValid sha256 k idx → IsValid sha256 (k + 1) idx
  IsValid-grow idx v = record {
    nodes = grown idx.by_hash v.nodes;
    best_in = v.best_in;
    most_work = v.most_work;
    indexed = v.indexed;
  }

module _ (sha256 : Bytes → Bytes) (e : Engine) (p : ChainParams) (k : ℕ)
    (fits : k + 1 < 2 ^ 32) where
  insert_and_prune-IsValid :
      (n : HeaderNode) (idx : HeaderIndex)
      → IsIndexed sha256 (k + 1) (node_hash n) n
      → has (node_hash n) idx.by_hash ≡ false
      → IsValid sha256 k idx
      → IsValid sha256 (k + 1) (insert_and_prune n idx)
  unfolding insert_and_prune
  insert_and_prune-IsValid n idx i fresh v =
      let added = insert_node-IsValid sha256 k n idx i fresh v in
      elim (Bool-cases
        (ltb (node_work idx.best_header) (node_work n) && node_height n % 100 == 0)) [
          | inl prunes ↦
              rw prunes (prune_stale_forks-IsValid sha256 (k + 1) (insert_node n idx) added)
          | inr stays ↦ rw stays added
        ]

  module _ (header : BlockHeader) (idx : HeaderIndex) (v : IsValid sha256 k idx) where
    found_parent :
        (parent : HeaderNode)
        → lookup header.prev_block idx.by_hash ≡ some parent
        → IsIndexed sha256
            (k + 1)
            (hash_block_header sha256 header)
            (child_of (hash_block_header sha256 header) header parent)
    found_parent parent found =
        child_of-IsIndexed sha256 k header parent fits
          (AllPairs-lookup (IsIndexed sha256 k) header.prev_block parent idx.by_hash v.nodes found)

    add_below-IsValid :
        (now : ℕ) (parent : HeaderNode)
        → lookup header.prev_block idx.by_hash ≡ some parent
        → has (hash_block_header sha256 header) idx.by_hash ≡ false
        → IsValid sha256 (k + 1) (add_below sha256 e p header now parent idx).0
    unfolding add_below
    add_below-IsValid now parent found fresh =
        let h = hash_block_header sha256 header in
        let n = child_of h header parent in
        elim (Bool-cases (over_capacity header parent idx)) [
          | inl full ↦ rw full (IsValid-grow sha256 k idx v)
          | inr room ↦
              elim (Result-cases (
                full_validate_header sha256 e header (node_header parent) (node_height n)
                  (build_ancestor_lookup idx parent) now (node_height parent) p)) [
                    | inl (u, accepted) ↦
                        rw (room, accepted)
                          (insert_and_prune-IsValid n idx (found_parent parent found) fresh v)
                    | inr (x, refused) ↦
                        rw (room, refused)
                          (IsValid-grow sha256 k (add_rejected h idx)
                            (add_rejected-IsValid sha256 k h idx v))
                  ]
        ]

    pub add_header-IsValid :
        (now : ℕ) → IsValid sha256 (k + 1) (add_header sha256 e p header now idx).0
    unfolding add_header
    add_header-IsValid now =
        let h = hash_block_header sha256 header in
        let same = IsValid-grow sha256 k idx v in
        elim (Bool-cases (has h idx.by_hash)) [
          | inl known ↦ rw known same
          | inr fresh ↦ elim (Bool-cases (has h idx.rejected)) [
            | inl bad ↦ rw (fresh, bad) same
            | inr unjudged ↦ elim (Bool-cases (has header.prev_block idx.rejected)) [
              | inl bad_parent ↦
                  rw (fresh, unjudged, bad_parent)
                    (IsValid-grow sha256 k (add_rejected h idx)
                      (add_rejected-IsValid sha256 k h idx v))
              | inr good_parent ↦ elim (Option-cases (lookup header.prev_block idx.by_hash)) [
                | inl orphan ↦ rw (fresh, unjudged, good_parent, orphan) same
                | inr (parent, found) ↦
                    rw (fresh, unjudged, good_parent, found)
                      (add_below-IsValid now parent found fresh)
              ]
            ]
          ]
        ]

    pub insert_trusted_header-IsValid :
        IsValid sha256 (k + 1) (insert_trusted_header sha256 header idx).0
    unfolding insert_trusted_header
    insert_trusted_header-IsValid =
        let h = hash_block_header sha256 header in
        elim (Bool-cases (has h idx.by_hash)) [
          | inl known ↦ rw known (IsValid-grow sha256 k idx v)
          | inr fresh ↦ elim (Option-cases (lookup header.prev_block idx.by_hash)) [
            | inl orphan ↦ rw (fresh, orphan) (IsValid-grow sha256 k idx v)
            | inr (parent, found) ↦
                rw (fresh, found)
                  (insert_node-IsValid sha256 k (child_of h header parent) idx
                    (found_parent parent found) fresh v)
          ]
        ]
