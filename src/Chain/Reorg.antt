-- ===== src/Chain/Reorg.antt =====
-- Chain.reorg of internal/chain/chain.go. The clone of the UTXO set is the set itself, as a value.
pub mod Branch
pub mod Commit
pub mod AllOrNothing
use go_chain.Prelude.{
  ℕ, zero, suc, ◌+◌, ◌-◌, ◌*◌, ◌%◌, ◌^◌, Bool, true, false, ◌&&◌, List, [], ◌∷◌, ◌++◌, Option, some,
  none, leb, ltb, ◌==◌, if◌then◌else◌, length, Result, ok, err, ◌>>=◌, ◌>>◌, fail_if,
}
use go_chain.KeyMap.{Map, lookup, has, insert, delete, bytes_eq}
use go_chain.Types.Bytes.{Bytes}
use go_chain.Types.Transaction.{Hash, is_zero}
use go_chain.Types.Block.{Block, BlockHeader}
use go_chain.Crypto.Keys.{Primitives}
use go_chain.Params.{ChainParams}
use go_chain.Utxo.{Entries, SpentOutput, ConnectError, connect_block, disconnect_block}
use go_chain.Consensus.Transactions.{validate_transaction_inputs}
use go_chain.Consensus.Transactions.Locks.{TxError}
use go_chain.Consensus.Timestamps.{calc_median_time_past}
use go_chain.Chain.State.{
  Chain, DiskBlockIndex, ReorgRecord, height_key, hash_at_height, build_chain_ancestor_lookup,
}

pub data ReorgError : Type 0 where
  missing_block missing_hash missing_index missing_undo too_deep no_path : ReorgError
  bad_inputs : TxError → ReorgError
  bad_connect : ConnectError → ReorgError

abbrev pub found {ℓ} : {A : Type ℓ} → Option A → ReorgError → Result ReorgError A
found none e = err e
found (some a) e = ok a

-- Phase 0: the hashes from the new tip down to the block above the fork, and the height of the fork.
-- The parent is on the main chain if its height names it
-- (a height that names nothing reads as the zero hash).
unfoldable pub fork_height : Chain → Hash → Option ℕ
unfolding hash_at_height
fork_height c prev = elim (lookup prev c.height_by_hash) [
  | none ↦ none
  | some n ↦ elim (hash_at_height c n) [
    | none ↦ if is_zero prev then some n else none
    | some main ↦ if bytes_eq main prev then some n else none
  ]
]

-- The `for` of phase 0, on fuel.
unfoldable pub path_to_fork : ℕ → Chain → Hash → Result ReorgError (List Hash × ℕ)
unfolding fork_height
path_to_fork zero c current = err no_path
path_to_fork (suc k) c current = elim (lookup current c.blocks) [
  | none ↦ err missing_block
  | some b ↦ elim (fork_height c b.header.prev_block) [
    | some n ↦ ok (current ∷ [], n)
    | none ↦ do (rest, n) ← path_to_fork k c b.header.prev_block; ok (current ∷ rest, n)
  ]
]

-- `for h := c.tipHeight; h > forkParentHeight; h--`, for the heights down from `h`.
unfoldable pub disconnect_down :
    (Bytes → Bytes) → Chain → ℕ → ℕ → Entries → Result ReorgError Entries
disconnect_down sha256 c zero h s = ok s
disconnect_down sha256 c (suc depth) h s = do
  hash ← found (hash_at_height c h) missing_hash
  b ← found (lookup hash c.blocks) missing_block
  rec ← found (lookup hash c.block_index) missing_index
  undo ← found rec.undo missing_undo
  disconnect_down sha256 c depth (h - 1) (disconnect_block sha256 s b undo)

pub record TrialResult : Type 0 where
  pub hash : Hash
  pub height : ℕ
  pub undo_data : List SpentOutput
  pub block : Block

abbrev pub connected :
    Result ConnectError (Entries × List SpentOutput)
    → Result ReorgError (Entries × List SpentOutput)
connected (ok r) = ok r
connected (err e) = err (bad_connect e)

abbrev pub valid_inputs : Result TxError ℕ → Result ReorgError (Unit {0})
valid_inputs (ok fees) = ok tt
valid_inputs (err e) = err (bad_inputs e)

abbrev pub trial_check : Primitives → ChainParams → Chain → Block → ℕ → Entries → Result TxError ℕ
trial_check q p c b h s =
    let get_ancestor = build_chain_ancestor_lookup c b.header.prev_block (h - 1) in
    validate_transaction_inputs q p b s h (calc_median_time_past (h - 1) get_ancestor) none

-- Phase 1 over the new blocks, the lowest first, at the heights from `h` on.
unfoldable pub connect_trial :
    Primitives
    → ChainParams
    → Chain
    → List Hash
    → ℕ
    → Entries
    → Result ReorgError (List TrialResult × Entries)
connect_trial q p c [] h s = ok ([], s)
connect_trial q p c (hash ∷ hashes) h s = do
  b ← found (lookup hash c.blocks) missing_block
  valid_inputs (trial_check q p c b h s)
  (s', undo) ← connected (connect_block q.sha256 s b h none)
  (rest, last) ← connect_trial q p c hashes (h + 1) s'
  ok (record { hash = hash; height = h; undo_data = undo; block = b } ∷ rest, last)

-- Phase 2 over the blocks that passed: each enters the set, the index and the main chain. An error
-- leaves what was done before it.
unfoldable pub commit_connected :
    (Bytes → Bytes) → List TrialResult → Chain → Chain × Result ReorgError (Unit {0})
commit_connected sha256 [] c = (c, ok tt)
commit_connected sha256 (t ∷ ts) c = elim (connect_block sha256 c.utxo_set t.block t.height none) [
  | err e ↦ (c, err (bad_connect e))
  | ok r ↦ elim (lookup t.hash c.block_index) [
    | none ↦ (record c { utxo_set = r.0 }, err missing_index)
    | some rec ↦ commit_connected sha256 ts (record c {
      utxo_set = r.0;
      block_index = insert t.hash (record rec { undo = some r.1 }) c.block_index;
      height_by_hash = insert t.hash t.height c.height_by_hash;
      hash_by_height = insert (height_key t.height) t.hash c.hash_by_height;
    })
  ]
]

-- The hashes of the old chain above the fork, at the heights from `h` on.
unfoldable pub old_hashes : Chain → ℕ → ℕ → List (ℕ × Hash)
unfolding hash_at_height
old_hashes c zero h = []
old_hashes c (suc n) h =
    let rest = old_hashes c n (h + 1) in
    elim (hash_at_height c h) [ none ↦ rest | some hash ↦ (h, hash) ∷ rest ]

-- `for h, oldHash := range oldChainHashes`
unfoldable pub drop_old : List (ℕ × Hash) → Chain → Chain
unfolding hash_at_height
drop_old [] c = c
drop_old ((h, old) ∷ xs) c =
    let still : Bool = elim (hash_at_height c h) [ none ↦ false | some hash ↦ bytes_eq hash old ] in
    drop_old xs (record c {
      height_by_hash = delete old c.height_by_hash;
      hash_by_height = if still then delete (height_key h) c.hash_by_height else c.hash_by_height;
    })

-- The last steps of phase 2: the old hashes leave the main chain, and the new tip is set.
abbrev pub set_tip :
    Hash
    → ℕ
    → ℕ
    → List (ℕ × Hash)
    → Chain × Result ReorgError (Unit {0})
    → Chain × Result ReorgError (Unit {0})
set_tip new_hash new_height new_work old (c, err e) = (c, err e)
set_tip new_hash new_height new_work old (c, ok u) = (
  record (drop_old old c) { tip_hash = new_hash; tip_height = new_height; tip_work = new_work },
  ok tt,
)

-- Phase 2: the old blocks leave the live set, with the loop that phase 1 ran, and the new ones enter it.
unfoldable pub commit :
    (Bytes → Bytes)
    → Hash
    → ℕ
    → ℕ
    → ℕ
    → List TrialResult
    → Chain
    → Chain × Result ReorgError (Unit {0})
commit sha256 new_hash new_height new_work fork ts c =
    elim (disconnect_down sha256 c (c.tip_height - fork) c.tip_height c.utxo_set) [
      | err e ↦ (c, err e)
      | ok s ↦
          set_tip new_hash new_height new_work (old_hashes c (c.tip_height - fork) (fork + 1))
            (commit_connected sha256 ts (record c { utxo_set = s }))
    ]

-- The reorganisations of the last 24 hours, in nanoseconds.
unfoldable pub recent : ℕ → List ReorgRecord → List ReorgRecord
recent now [] = []
recent now (r ∷ rs) =
    let rest = recent now rs in
    if ltb now (r.timestamp + 24 * 3600 * 1_000_000_000) then r ∷ rest else rest

unfoldable pub sum_depths : ℕ → List ReorgRecord → ℕ
sum_depths total [] = total
sum_depths total (r ∷ rs) = sum_depths ((total + r.depth) % 2 ^ 32) rs

unfoldable pub reversed {ℓ} : {A : Type ℓ} → List A → List A → List A
reversed [] ys = ys
reversed (x ∷ xs) ys = reversed xs (x ∷ ys)

-- The two limits on the depth, and the history that the second one prunes.
unfoldable pub check_depth : ChainParams → ℕ → ℕ → Chain → Chain × Result ReorgError (Unit {0})
unfolding recent sum_depths
check_depth p now depth c =
    if p.max_reorg_depth == 0
    then (c, ok tt)
    else if ltb p.max_reorg_depth depth
    then (c, err too_deep)
    else let pruned = recent now c.reorg_history in
      let cumulative = (sum_depths 0 pruned + depth) % 2 ^ 32 in
      let c' : Chain = record c { reorg_history = pruned } in
      if ltb (p.max_reorg_depth * 3 % 2 ^ 32) cumulative then (c', err too_deep) else (c', ok tt)

-- Phase 1, on a clone of the set.
unfoldable pub trial :
    Primitives
    → ChainParams
    → ℕ
    → List Hash
    → Chain
    → Result ReorgError (List TrialResult × Entries)
trial q p fork hashes c = do
  s ← disconnect_down q.sha256 c (c.tip_height - fork) c.tip_height c.utxo_set
  connect_trial q p c (reversed hashes []) (fork + 1) s

-- `oldTipHeight - forkParentHeight`, of 32 bits.
unfoldable pub reorg_depth : Chain → ℕ → ℕ
reorg_depth c fork = (c.tip_height + 2 ^ 32 - fork) % 2 ^ 32

abbrev pub add_record :
    ReorgRecord → Chain × Result ReorgError (Unit {0}) → Chain × Result ReorgError (Unit {0})
add_record entry (c, err e) = (c, err e)
add_record entry (c, ok u) = (record c { reorg_history = c.reorg_history ++ (entry ∷ []) }, ok tt)

-- What follows the limits on the depth.
abbrev pub attempt :
    Primitives
    → ChainParams
    → ReorgRecord
    → Hash
    → ℕ
    → ℕ
    → List Hash
    → Chain × Result ReorgError (Unit {0})
    → Chain × Result ReorgError (Unit {0})
attempt q p entry new_hash new_work fork hashes (c, err e) = (c, err e)
attempt q p entry new_hash new_work fork hashes (c, ok u) = elim (trial q p fork hashes c) [
  | err e ↦ (c, err e)
  | ok passed ↦ add_record entry (commit q.sha256 new_hash entry.height new_work fork passed.0 c)
]

-- reorg, on fuel for phase 0: a path to the fork has at most as many blocks as the new height.
unfoldable pub reorg :
    Primitives → ChainParams → ℕ → Hash → ℕ → ℕ → Chain → Chain × Result ReorgError (Unit {0})
reorg q p now new_hash new_height new_work c = elim (path_to_fork (new_height + 1) c new_hash) [
  | err e ↦ (c, err e)
  | ok path ↦
      let depth = reorg_depth c path.1 in
      attempt q p (record { height = new_height; depth = depth; timestamp = now }) new_hash new_work
        path.1 path.0 (check_depth p now depth c)
]
