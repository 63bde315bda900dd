-- ===== src/Chain/State.antt =====
-- internal/chain/chain.go: what a Chain holds, and what it reads. The mutex, the logs and the counters
-- are left out. The store (internal/store) is its two maps: a write succeeds and is read back, and
-- the undo data of a block is a field of its record in the index. The deferred writes of the initial
-- download are no different then. A map by height is a map by the four bytes of the height.
use go_chain.Prelude.{
  ℕ, zero, suc, ◌+◌, ◌-◌, ◌*◌, ◌%◌, ◌^◌, Bool, true, false, List, [], ◌∷◌, Option, some, none, leb,
  ltb, ◌==◌, if◌then◌else◌,
}
use go_chain.KeyMap.{Map, lookup, has, insert, delete, bytes_eq}
use go_chain.Types.Bytes.{Bytes, put_le}
use go_chain.Types.Transaction.{Hash, is_zero}
use go_chain.Types.Block.{Block, BlockHeader}
use go_chain.Utxo.{Entries, SpentOutput}
use go_chain.Consensus.Timestamps.{GetAncestor}

-- store.DiskBlockIndex; the status bit StatusHaveUndo is whether there is undo data.
pub record DiskBlockIndex : Type 0 where
  pub header : BlockHeader
  pub height : ℕ
  pub chain_work : ℕ
  pub undo : Option (List SpentOutput)

pub record OrphanBlock : Type 0 where
  pub block : Block
  pub added_at : ℕ

pub record ReorgRecord : Type 0 where
  pub height : ℕ
  pub depth : ℕ
  pub timestamp : ℕ

pub record Chain : Type 0 where
  pub blocks : Map Block
  pub block_index : Map DiskBlockIndex
  pub tip_hash : Hash
  pub tip_height : ℕ
  pub tip_work : ℕ
  pub height_by_hash : Map ℕ
  pub hash_by_height : Map Hash
  pub orphans : Map OrphanBlock
  pub utxo_set : Entries
  pub reorg_history : List ReorgRecord

abbrev pub max_orphan_blocks : ℕ
max_orphan_blocks = 100

-- OrphanExpiry, in nanoseconds.
abbrev pub orphan_expiry : ℕ
orphan_expiry = 20 * 60 * 1_000_000_000

abbrev pub height_key : ℕ → Bytes
height_key h = put_le 4 h

-- `c.hashByHeight[height]`
unfoldable pub hash_at_height : Chain → ℕ → Option Hash
hash_at_height c h = lookup (height_key h) c.hash_by_height

-- store.GetHeader
unfoldable pub get_header : Chain → Hash → Option BlockHeader
get_header c h = elim (lookup h c.block_index) [ none ↦ none | some rec ↦ some rec.header ]

-- GetAncestor and getAncestorUnsafe
unfoldable pub get_ancestor : Chain → GetAncestor
unfolding get_header hash_at_height
get_ancestor c height = elim (hash_at_height c height) [ none ↦ none | some h ↦ get_header c h ]

-- FindMainChainHash
unfoldable pub find_main_chain_hash : Chain → Hash → Option ℕ
unfolding hash_at_height
find_main_chain_hash c h = elim (lookup h c.height_by_hash) [
  | none ↦ none
  | some height ↦ elim (hash_at_height c height) [
    | none ↦ none
    | some main ↦ if bytes_eq main h then some height else none
  ]
]

-- HasBlock
unfoldable pub has_block : Chain → Hash → Bool
has_block c h =
    if has h c.height_by_hash then true else if has h c.orphans then true else has h c.blocks

-- HasBlockOnChain
unfoldable pub has_block_on_chain : Chain → Hash → Bool
has_block_on_chain c h = has h c.height_by_hash

-- `mainHash, ok := c.hashByHeight[h]; ok && mainHash == current`
unfoldable pub is_main_at : Chain → ℕ → Hash → Bool
unfolding hash_at_height
is_main_at c height h = elim (hash_at_height c height) [
  | none ↦ false
  | some main ↦ bytes_eq main h
]

-- The loop of buildAncestorLookup down to the main chain: headers by height.
unfoldable pub side_ancestors : Chain → Hash → ℕ → Map BlockHeader
unfolding is_main_at get_header
side_ancestors c current zero =
    if is_main_at c zero current
    then []
    else elim (get_header c current) [ none ↦ [] | some x ↦ (height_key zero, x) ∷ [] ]
side_ancestors c current (suc h) = elim (is_main_at c (suc h) current) [
  | true ↦ []
  | false ↦ elim (get_header c current) [
    | none ↦ []
    | some x ↦ elim (is_zero x.prev_block) [
      | true ↦ (height_key (suc h), x) ∷ []
      | false ↦ insert (height_key (suc h)) x (side_ancestors c x.prev_block h)
    ]
  ]
]

-- buildAncestorLookup
unfoldable pub build_chain_ancestor_lookup : Chain → Hash → ℕ → GetAncestor
unfolding side_ancestors
build_chain_ancestor_lookup c parent_hash parent_height height =
    elim (lookup (height_key height) (side_ancestors c parent_hash parent_height)) [
      | some x ↦ some x
      | none ↦ get_ancestor c height
    ]

-- `for` of BlockLocator, on fuel, with the length of the locator so far and the step.
unfoldable pub block_locator_loop : ℕ → Chain → ℕ → ℕ → ℕ → List Hash
unfolding hash_at_height
block_locator_loop zero c height len step = []
block_locator_loop (suc k) c height len step = elim (hash_at_height c height) [
  | none ↦ []
  | some h ↦ elim (height == 0) [
    | true ↦ h ∷ []
    | false ↦
        h
        ∷ block_locator_loop k c (if ltb height step then 0 else height - step) (len + 1)
            (if ltb 10 (len + 1) then step * 2 % 2 ^ 32 else step)
  ]
]

-- BlockLocator: a round lowers the height, so one more than the height is enough.
unfoldable pub block_locator : Chain → List Hash
unfolding block_locator_loop
block_locator c = block_locator_loop (c.tip_height + 1) c c.tip_height 0 1

-- extendChain: the block is the new tip.
unfoldable pub extend_chain : Hash → ℕ → ℕ → Chain → Chain
extend_chain h height work c = record c {
  height_by_hash = insert h height c.height_by_hash;
  hash_by_height = insert (height_key height) h c.hash_by_height;
  tip_hash = h;
  tip_height = height;
  tip_work = work;
}

-- `for h, height := range c.heightByHash`
unfoldable pub drop_low : Chain → ℕ → Map ℕ → Map ℕ
unfolding is_main_at
drop_low c cutoff [] = []
drop_low c cutoff ((h, height) ∷ m) =
    let rest = drop_low c cutoff m in
    if leb cutoff height
    then (h, height) ∷ rest
    else if is_main_at c height h
    then (h, height) ∷ rest
    else rest

-- pruneSideChainIndex
unfoldable pub prune_side_chain_index : Chain → Chain
unfolding drop_low
prune_side_chain_index c =
    let cutoff = if ltb 1000 c.tip_height then c.tip_height - 1000 else 0 in
    record c { height_by_hash = drop_low c cutoff c.height_by_hash }

-- evictExpiredOrphans
unfoldable pub drop_expired : ℕ → Map OrphanBlock → Map OrphanBlock
drop_expired now [] = []
drop_expired now ((h, o) ∷ m) =
    let rest = drop_expired now m in
    if ltb (o.added_at + orphan_expiry) now then rest else (h, o) ∷ rest

unfoldable pub evict_expired_orphans : ℕ → Chain → Chain
unfolding drop_expired
evict_expired_orphans now c = record c { orphans = drop_expired now c.orphans }

-- The oldest of an entry and a map; of two as old, Go's map order decides, and here the first.
unfoldable pub oldest : Hash → ℕ → Map OrphanBlock → Hash
oldest h time [] = h
oldest h time ((j, o) ∷ m) =
    oldest (if ltb o.added_at time then j else h) (if ltb o.added_at time then o.added_at else time)
      m

-- evictOldestOrphan
unfoldable pub evict_oldest : Map OrphanBlock → Map OrphanBlock
unfolding oldest
evict_oldest [] = []
evict_oldest ((h, o) ∷ m) = delete (oldest h o.added_at m) ((h, o) ∷ m)

unfoldable pub evict_oldest_orphan : Chain → Chain
unfolding evict_oldest
evict_oldest_orphan c = record c { orphans = evict_oldest c.orphans }
