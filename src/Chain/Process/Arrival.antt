-- ===== src/Chain/Process/Arrival.antt =====
-- processOrphans and processBlock, from the steps of Chain/Process.
use go_chain.Prelude.{
  ℕ, zero, suc, ◌+◌, Bool, true, false, ◌&&◌, ◌||◌, List, [], ◌∷◌, ◌++◌, some, none, leb, ltb, ◌==◌,
  if◌then◌else◌, length, Result, ok, err,
}
use go_chain.KeyMap.{Map, lookup, has, insert, bytes_eq}
use go_chain.Types.Bytes.{Bytes}
use go_chain.Types.Transaction.{Hash}
use go_chain.Types.Block.{Block, serialize_header}
use go_chain.Crypto.Hash.{hash_block_header}
use go_chain.Crypto.Keys.{Primitives}
use go_chain.Crypto.Target.{compact_to_big, validate_proof_of_work}
use go_chain.Params.{ChainParams}
use go_chain.Consensus.Pow.{Engine}
use go_chain.Chain.State.{
  Chain, OrphanBlock, max_orphan_blocks, evict_expired_orphans, evict_oldest_orphan,
  prune_side_chain_index,
}
use go_chain.Chain.Reorg.{ReorgError, too_deep, reorg}
use go_chain.Chain.Process.{
  ProcessError, already_in_chain, orphan_block, bits_too_easy, orphan_pow_failed, reorg_failed,
  side_chain, Clock, Candidate, examine, record_of, put_block, delete_block, set_height,
  connect_tip, skipped, added, reorganised, adopt,
}

-- `for hash, ob := range c.orphans`: the children of a parent, and the others.
unfoldable pub children : Hash → Map OrphanBlock → List (Hash × Block)
children parent [] = []
children parent ((h, o) ∷ m) =
    let rest = children parent m in
    if bytes_eq o.block.header.prev_block parent then (h, o.block) ∷ rest else rest

unfoldable pub others : Hash → Map OrphanBlock → Map OrphanBlock
others parent [] = []
others parent ((h, o) ∷ m) =
    let rest = others parent m in
    if bytes_eq o.block.header.prev_block parent then rest else (h, o) ∷ rest

-- `bytes.Compare(a, b) < 0`
unfoldable pub bytes_less : Bytes → Bytes → Bool
bytes_less [] [] = false
bytes_less [] (b ∷ bs) = true
bytes_less (a ∷ as') [] = false
bytes_less (a ∷ as') (b ∷ bs) = ltb a b || (a == b && bytes_less as' bs)

-- sort.Slice by the hashes, which differ.
unfoldable pub insert_by_hash : Hash × Block → List (Hash × Block) → List (Hash × Block)
insert_by_hash x [] = x ∷ []
insert_by_hash x (y ∷ ys) =
    let rest = insert_by_hash x ys in if bytes_less x.0 y.0 then x ∷ y ∷ ys else y ∷ rest

unfoldable pub sort_by_hash : List (Hash × Block) → List (Hash × Block)
unfolding insert_by_hash
sort_by_hash [] = []
sort_by_hash (x ∷ xs) = insert_by_hash x (sort_by_hash xs)

-- The loop over the children, with the queue: a reorganisation ends it and is all that is left queued.
unfoldable pub adopt_all :
    Primitives
    → Engine
    → ChainParams
    → Clock
    → List (Hash × Block)
    → List Hash
    → Chain
    → Chain × List Hash
adopt_all q e p t [] queue c = (c, queue)
adopt_all q e p t ((h, b) ∷ xs) queue c =
    let r = adopt q e p t h b c in
    elim r.1 [
      | skipped ↦ adopt_all q e p t xs queue r.0
      | added ↦ adopt_all q e p t xs (queue ++ (h ∷ [])) r.0
      | reorganised ↦ (r.0, h ∷ [])
    ]

-- `for len(queue) > 0`, on fuel, with the queue that is left.
unfoldable pub orphan_rounds :
    ℕ → Primitives → Engine → ChainParams → Clock → List Hash → Chain → Chain × List Hash
orphan_rounds zero q e p t queue c = (c, queue)
orphan_rounds (suc k) q e p t [] c = (c, [])
orphan_rounds (suc k) q e p t (parent ∷ queue) c =
    let r =
      adopt_all q e p t (sort_by_hash (children parent c.orphans)) queue
        (record c { orphans = others parent c.orphans }) in
    orphan_rounds k q e p t r.1 r.0

-- processOrphans: what is queued was an orphan before, but for the first hash.
unfoldable pub process_orphans : Primitives → Engine → ChainParams → Clock → Hash → Chain → Chain
process_orphans q e p t parent c = (orphan_rounds (length c.orphans + 1) q e p t (parent ∷ []) c).0

-- The branch of an unknown parent: a check of the work, and then the orphan pool.
unfoldable pub queue_orphan :
    Engine → ChainParams → ℕ → Hash → Block → Chain → Chain × Result ProcessError ℕ
queue_orphan e p now h b c =
    if ltb (compact_to_big p.min_bits) (compact_to_big b.header.bits)
    then (c, err bits_too_easy)
    else elim (validate_proof_of_work (e.pow_hash (serialize_header b.header)) b.header.bits) [
      | err x ↦ (c, err orphan_pow_failed)
      | ok u ↦
          let fresh : Chain = evict_expired_orphans now c in
          let room : Chain =
            if leb max_orphan_blocks (length fresh.orphans)
            then evict_oldest_orphan fresh
            else fresh in
          (
            record room { orphans = insert h (record { block = b; added_at = now }) room.orphans },
            err orphan_block,
          )
    ]

-- The end of an accepted block.
unfoldable pub settle :
    Primitives
    → Engine
    → ChainParams
    → Clock
    → Candidate
    → Chain × Result ProcessError (Unit {0})
    → Chain × Result ProcessError ℕ
unfolding process_orphans
settle q e p t x (c, err y) = (c, err y)
settle q e p t x (c, ok u) =
    (prune_side_chain_index (process_orphans q e p t x.hash c), ok x.height)

abbrev pub after_switch :
    Primitives
    → Engine
    → ChainParams
    → Clock
    → Candidate
    → Chain × Result ReorgError (Unit {0})
    → Chain × Result ProcessError ℕ
after_switch q e p t x (c, ok u) = settle q e p t x (c, ok tt)
after_switch q e p t x (c, err too_deep) =
    (process_orphans q e p t x.hash (set_height x c), err (side_chain x.height))
after_switch q e p t x (c, err y) = (delete_block x.hash c, err (reorg_failed y))

-- The three places of a block under a known parent.
unfoldable pub place :
    Primitives → Engine → ChainParams → Clock → Candidate → Chain → Chain × Result ProcessError ℕ
place q e p t x c =
    if bytes_eq x.block.header.prev_block c.tip_hash
    then settle q e p t x (connect_tip q p x c)
    else let stored : Chain = put_block x (record_of x) c in
      if ltb c.tip_work x.work
      then after_switch q e p t x (reorg q p t.now x.hash x.height x.work stored)
      else (process_orphans q e p t x.hash (set_height x stored), err (side_chain x.height))

-- processBlock; ProcessBlock and ProcessBlockTrustedHeader are its two uses.
unfoldable pub process_block :
    Primitives → Engine → ChainParams → Clock → Bool → Block → Chain → Chain × Result ProcessError ℕ
process_block q e p t trusted b c =
    let h = hash_block_header q.sha256 b.header in
    if has h c.height_by_hash
    then (c, err already_in_chain)
    else if has h c.orphans
    then (c, err orphan_block)
    else elim (lookup b.header.prev_block c.height_by_hash) [
      | none ↦ queue_orphan e p t.now h b c
      | some parent_height ↦ elim (examine q e p t.now_unix trusted h b parent_height c) [
        | err y ↦ (c, err y)
        | ok x ↦ place q e p t x c
      ]
    ]
