-- ===== src/Chain/Headers.antt =====
-- internal/chain/headers.go: the tree of validated headers and its best chain. The mutex and the log
-- are left out. A *HeaderNode is its node, which never changes, so two pointers are compared
-- by all that they reach.
pub mod Paths
pub mod Valid
pub mod Runs
pub mod Locator
use go_chain.Prelude.{
  ℕ, zero, suc, ◌+◌, ◌-◌, ◌*◌, ◌%◌, ◌^◌, Bool, true, false, ◌&&◌, not, List, [], ◌∷◌, ◌++◌, Option,
  some, none, leb, ltb, ◌==◌, if◌then◌else◌, length, get_elem?, Result, ok, err,
}
use go_chain.KeyMap.{Map, lookup, has, insert, delete, bytes_eq, member}
use go_chain.Types.Bytes.{Bytes}
use go_chain.Types.Transaction.{Hash}
use go_chain.Types.Block.{BlockHeader}
use go_chain.Crypto.Hash.{hash_block_header}
use go_chain.Crypto.Target.{calc_work}
use go_chain.Params.{ChainParams}
use go_chain.Consensus.Timestamps.{GetAncestor}
use go_chain.Consensus.Pow.{Engine, HeaderError, full_validate_header}

-- A node whose Parent is nil, and one below a parent: the hash, the height, the header, the work.
pub data HeaderNode : Type 0 where
  root : Hash → ℕ → BlockHeader → ℕ → HeaderNode
  child : Hash → ℕ → BlockHeader → ℕ → HeaderNode → HeaderNode

abbrev pub node_hash : HeaderNode → Hash
node_hash (root h n x w) = h
node_hash (child h n x w p) = h

abbrev pub node_height : HeaderNode → ℕ
node_height (root h n x w) = n
node_height (child h n x w p) = n

abbrev pub node_header : HeaderNode → BlockHeader
node_header (root h n x w) = x
node_header (child h n x w p) = x

abbrev pub node_work : HeaderNode → ℕ
node_work (root h n x w) = w
node_work (child h n x w p) = w

unfoldable pub header_eq : BlockHeader → BlockHeader → Bool
header_eq a b =
    a.version == b.version
    && (bytes_eq a.prev_block b.prev_block
        && (bytes_eq a.merkle_root b.merkle_root
            && (a.timestamp == b.timestamp && (a.bits == b.bits && a.nonce == b.nonce))))

-- `a == b` on pointers.
unfoldable pub same_node : HeaderNode → HeaderNode → Bool
unfolding header_eq
same_node (root h n x w) (root h' n' x' w') =
    bytes_eq h h' && (n == n' && (header_eq x x' && w == w'))
same_node (root h n x w) (child h' n' x' w' p') = false
same_node (child h n x w p) (root h' n' x' w') = false
same_node (child h n x w p) (child h' n' x' w' p') =
    bytes_eq h h' && (n == n' && (header_eq x x' && (w == w' && same_node p p')))

pub record HeaderIndex : Type 0 where
  pub by_hash : Map HeaderNode
  pub best_header : HeaderNode
  pub rejected : Map (Unit {0})
  pub rejected_order : List Hash
  pub best_chain_by_height : List (Option HeaderNode)

abbrev pub max_rejected_headers : ℕ
max_rejected_headers = 50000

abbrev pub max_header_index_size : ℕ
max_header_index_size = 200000

abbrev pub max_fork_depth : ℕ
max_fork_depth = 2016

pub data IndexError : Type 0 where
  orphan_header duplicate_header rejected_header at_capacity : IndexError
  invalid_header : HeaderError → IndexError

-- NewHeaderIndex
unfoldable pub new_header_index : (Bytes → Bytes) → BlockHeader → HeaderIndex
new_header_index sha256 genesis =
    let h = hash_block_header sha256 genesis in
    let node = root h 0 genesis (calc_work genesis.bits) in
    record {
      by_hash = insert h node [];
      best_header = node;
      rejected = [];
      rejected_order = [];
      best_chain_by_height = some node ∷ [];
    }

-- `xs[i] = x`; past the end, where Go panics, nothing.
unfoldable pub set_at {ℓ} : {A : Type ℓ} → ℕ → A → List A → List A
set_at n x [] = []
set_at zero x (y ∷ ys) = x ∷ ys
set_at (suc n) x (y ∷ ys) = y ∷ set_at n x ys

abbrev pub replicate {ℓ} : {A : Type ℓ} → ℕ → A → List A
replicate zero x = []
replicate (suc n) x = x ∷ replicate n x

-- `for node != nil { index[node.Height] = node; node = node.Parent }`
unfoldable pub fill_index : HeaderNode → List (Option HeaderNode) → List (Option HeaderNode)
unfolding set_at
fill_index (root h n x w) index = set_at n (some (root h n x w)) index
fill_index (child h n x w p) index = fill_index p (set_at n (some (child h n x w p)) index)

-- `idx.bestChainByHeight[height-1] == idx.bestHeader.Parent`, where the index is long enough.
unfoldable pub extends_chain : HeaderNode → List (Option HeaderNode) → Bool
unfolding same_node
extends_chain (root h n x w) index = false
extends_chain (child h n x w p) index = elim (get_elem? index (n - 1)) [
  | none ↦ false
  | some none ↦ false
  | some (some q) ↦ (n == length index) && (ltb 0 n && same_node q p)
]

-- rebuildHeightIndex
unfoldable pub rebuild_height_index : HeaderIndex → HeaderIndex
unfolding fill_index extends_chain
rebuild_height_index idx = record idx {
  best_chain_by_height =
      if extends_chain idx.best_header idx.best_chain_by_height
      then idx.best_chain_by_height ++ (some idx.best_header ∷ [])
      else fill_index idx.best_header (replicate (node_height idx.best_header + 1) none);
}

-- The set bestChainHashes: the two loops walk from the tip to the genesis.
unfoldable pub chain_hashes : HeaderNode → List Hash
chain_hashes (root h n x w) = h ∷ []
chain_hashes (child h n x w p) = h ∷ chain_hashes p

-- `for hash, n := range idx.byHash`
unfoldable pub drop_stale : ℕ → List Hash → Map HeaderNode → Map HeaderNode
drop_stale prune_below keep [] = []
drop_stale prune_below keep ((h, n) ∷ m) =
    let rest = drop_stale prune_below keep m in
    if ltb prune_below (node_height n)
    then (h, n) ∷ rest
    else if member h keep
    then (h, n) ∷ rest
    else rest

-- pruneStaleForks
unfoldable pub prune_stale_forks : HeaderIndex → HeaderIndex
unfolding chain_hashes drop_stale
prune_stale_forks idx =
    let best_height = node_height idx.best_header in
    if ltb best_height max_fork_depth then idx else record idx {
      by_hash =
          drop_stale (best_height - max_fork_depth) (chain_hashes idx.best_header) idx.by_hash;
    }

-- `for len(idx.rejected) >= maxRejectedHeaders && len(idx.rejectedOrder) > 0`
unfoldable pub evict_rejected : List Hash → Map (Unit {0}) → List Hash × Map (Unit {0})
evict_rejected [] rejected = ([], rejected)
evict_rejected (h ∷ order) rejected =
    let rest = evict_rejected order (delete h rejected) in
    if leb max_rejected_headers (length rejected) then rest else (h ∷ order, rejected)

-- addRejectedLocked
unfoldable pub add_rejected : Hash → HeaderIndex → HeaderIndex
unfolding evict_rejected
add_rejected h idx =
    let (order, rejected) = evict_rejected idx.rejected_order idx.rejected in
    if has h idx.rejected
    then idx
    else record idx { rejected = insert h tt rejected; rejected_order = order ++ (h ∷ []) }

-- The walk to the parent at a height.
unfoldable pub walk_back : HeaderNode → ℕ → Option BlockHeader
walk_back (root h n x w) height = if n == height then some x else none
walk_back (child h n x w p) height =
    let rest = walk_back p height in
    if ltb height n then rest else if n == height then some x else none

unfoldable pub on_best_chain : HeaderIndex → HeaderNode → Bool
unfolding same_node
on_best_chain idx n = elim (get_elem? idx.best_chain_by_height (node_height n)) [
  | none ↦ false
  | some none ↦ false
  | some (some q) ↦ same_node q n
]

-- buildAncestorLookup
unfoldable pub build_ancestor_lookup : HeaderIndex → HeaderNode → GetAncestor
unfolding on_best_chain walk_back
build_ancestor_lookup idx n height =
    let walked = walk_back n height in
    if on_best_chain idx n
    then (elim (get_elem? idx.best_chain_by_height height) [
      | none ↦ walked
      | some none ↦ walked
      | some (some q) ↦ some (node_header q)
    ])
    else walked

-- The node of a header below its parent.
abbrev pub child_of : Hash → BlockHeader → HeaderNode → HeaderNode
child_of h header parent =
    child h ((node_height parent + 1) % 2 ^ 32) header (node_work parent + calc_work header.bits)
      parent

-- The node enters the index, and is the new tip if it has more work: InsertTrustedHeader.
unfoldable pub insert_node : HeaderNode → HeaderIndex → HeaderIndex
unfolding rebuild_height_index
insert_node n idx =
    let added : HeaderIndex = record idx { by_hash = insert (node_hash n) n idx.by_hash } in
    if ltb (node_work idx.best_header) (node_work n)
    then rebuild_height_index (record added { best_header = n })
    else added

-- The end of addHeaderLocked, which prunes at every hundredth height.
unfoldable pub insert_and_prune : HeaderNode → HeaderIndex → HeaderIndex
unfolding insert_node prune_stale_forks
insert_and_prune n idx =
    let added = insert_node n idx in
    if ltb (node_work idx.best_header) (node_work n) && node_height n % 100 == 0
    then prune_stale_forks added
    else added

-- InsertTrustedHeader
unfoldable pub insert_trusted_header :
    (Bytes → Bytes) → BlockHeader → HeaderIndex → HeaderIndex × Result IndexError (Unit {0})
unfolding insert_node
insert_trusted_header sha256 header idx =
    let h = hash_block_header sha256 header in
    if has h idx.by_hash then (idx, ok tt) else elim (lookup header.prev_block idx.by_hash) [
      | none ↦ (idx, err orphan_header)
      | some parent ↦ (insert_node (child_of h header parent) idx, ok tt)
    ]

-- At the size limit, a header must lead to more work than the best.
unfoldable pub over_capacity : BlockHeader → HeaderNode → HeaderIndex → Bool
over_capacity header parent idx =
    leb max_header_index_size (length idx.by_hash)
    && leb (node_work parent + calc_work header.bits) (node_work idx.best_header)

-- addHeaderLocked from its capacity test on.
unfoldable pub add_below :
    (Bytes → Bytes)
    → Engine
    → ChainParams
    → BlockHeader
    → ℕ
    → HeaderNode
    → HeaderIndex
    → HeaderIndex × Result IndexError HeaderNode
unfolding over_capacity build_ancestor_lookup insert_and_prune
add_below sha256 e p header now parent idx =
    let h = hash_block_header sha256 header in
    let n = child_of h header parent in
    if over_capacity header parent idx
    then (idx, err at_capacity)
    else elim (full_validate_header sha256 e header (node_header parent) (node_height n)
        (build_ancestor_lookup idx parent) now (node_height parent) p) [
          | err x ↦ (add_rejected h idx, err (invalid_header x))
          | ok u ↦ (insert_and_prune n idx, ok n)
        ]

-- addHeaderLocked
unfoldable pub add_header :
    (Bytes → Bytes)
    → Engine
    → ChainParams
    → BlockHeader
    → ℕ
    → HeaderIndex
    → HeaderIndex × Result IndexError HeaderNode
unfolding add_below
add_header sha256 e p header now idx =
    let h = hash_block_header sha256 header in
    if has h idx.by_hash
    then (idx, err duplicate_header)
    else if has h idx.rejected
    then (idx, err rejected_header)
    else if has header.prev_block idx.rejected
    then (add_rejected h idx, err rejected_header)
    else elim (lookup header.prev_block idx.by_hash) [
      | none ↦ (idx, err orphan_header)
      | some parent ↦ add_below sha256 e p header now parent idx
    ]

-- `errors.Is(err, ErrDuplicateHeader)` or ErrRejectedHeader: the batch goes on.
abbrev is_soft : IndexError → Bool
is_soft duplicate_header = true
is_soft rejected_header = true
is_soft orphan_header = false
is_soft at_capacity = false
is_soft (invalid_header x) = false

-- AddHeaders: the number added and the first hard error.
unfoldable pub add_headers :
    (Bytes → Bytes)
    → Engine
    → ChainParams
    → List BlockHeader
    → ℕ
    → ℕ
    → HeaderIndex
    → HeaderIndex × ℕ × Option IndexError
unfolding add_header
add_headers sha256 e p [] now added idx = (idx, added, none)
add_headers sha256 e p (x ∷ xs) now added idx =
    let r = add_header sha256 e p x now idx in
    elim r.1 [
      | ok n ↦ add_headers sha256 e p xs now (added + 1) r.0
      | err y ↦ elim (is_soft y) [
        | true ↦ add_headers sha256 e p xs now added r.0
        | false ↦ (r.0, added, some y)
      ]
    ]

-- GetHeaderByHeight
unfoldable pub get_header_by_height : ℕ → HeaderIndex → Option HeaderNode
get_header_by_height height idx = elim (get_elem? idx.best_chain_by_height height) [
  | none ↦ none
  | some n ↦ n
]

-- `for node.Parent != nil && node.Height > targetHeight { node = node.Parent }`
unfoldable pub step_back : HeaderNode → ℕ → HeaderNode
step_back (root h n x w) target = root h n x w
step_back (child h n x w p) target =
    let rest = step_back p target in if ltb target n then rest else child h n x w p

-- `for node != nil` of HeaderLocator, on fuel, with the length of the locator so far and the step.
unfoldable pub locator_loop : ℕ → HeaderNode → ℕ → ℕ → List Hash
unfolding step_back
locator_loop zero n len step = []
locator_loop (suc k) n len step = elim (node_height n == 0) [
  | true ↦ node_hash n ∷ []
  | false ↦
      let target = if leb step (node_height n) then node_height n - step else 0 in
      node_hash n
      ∷ locator_loop k (step_back n target) (len + 1)
          (if ltb 10 (len + 1) then step * 2 % 2 ^ 32 else step)
]

-- HeaderLocator: a round lowers the height, so one more than the height is enough.
unfoldable pub header_locator : HeaderIndex → List Hash
unfolding locator_loop
header_locator idx = locator_loop (node_height idx.best_header + 1) idx.best_header 0 1

-- HeadersToFetch: `for h := startHeight; h <= bestH && len(result) < limit; h++`, over the heights left.
unfoldable pub fetch_loop : ℕ → ℕ → ℕ → ℕ → HeaderIndex → List Hash
unfolding get_header_by_height
fetch_loop zero h len limit idx = []
fetch_loop (suc k) h len limit idx = elim (ltb len limit) [
  | false ↦ []
  | true ↦ elim (get_header_by_height h idx) [
    | none ↦ fetch_loop k (h + 1) len limit idx
    | some n ↦ node_hash n ∷ fetch_loop k (h + 1) (len + 1) limit idx
  ]
]

unfoldable pub headers_to_fetch : ℕ → ℕ → HeaderIndex → List Hash
unfolding fetch_loop
headers_to_fetch start limit idx =
    fetch_loop (node_height idx.best_header + 1 - start) start 0 limit idx
