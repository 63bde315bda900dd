-- ===== src/Chain/Process.antt =====
-- Chain.processBlock and processOrphans of internal/chain/chain.go. What the engine decides is that of
-- Consensus. The clocks are arguments: `now_unix` is TimeSource.Now, and `now` is time.Now, in
-- nanoseconds, once for a call. A block is in the store when it has a record in the index: what
-- WriteBlock leaves without one cannot be read back.
pub mod Arrival
pub mod Pool
pub mod Rounds
pub mod Bounded
use go_chain.Prelude.{
  ℕ, zero, suc, ◌+◌, ◌-◌, ◌*◌, ◌%◌, ◌^◌, Bool, true, false, ◌&&◌, ◌||◌, not, List, [], ◌∷◌, ◌++◌,
  Option, some, none, leb, ltb, ◌==◌, if◌then◌else◌, length, Result, ok, err, ◌>>=◌, ◌>>◌, fail_if,
}
use go_chain.KeyMap.{Map, lookup, has, insert, delete, bytes_eq}
use go_chain.Types.Bytes.{Bytes}
use go_chain.Types.Transaction.{Hash}
use go_chain.Types.Block.{Block, BlockHeader, serialize_header}
use go_chain.Crypto.Hash.{hash_block_header}
use go_chain.Crypto.Keys.{Primitives}
use go_chain.Crypto.Target.{compact_to_big, calc_work, validate_proof_of_work}
use go_chain.Params.{ChainParams}
use go_chain.Utxo.{ConnectError, connect_block}
use go_chain.Consensus.Pow.{Engine, HeaderError, full_validate_header}
use go_chain.Consensus.Structure.{StructureError, validate_block_structure}
use go_chain.Consensus.Transactions.{validate_transaction_inputs}
use go_chain.Consensus.Transactions.Locks.{TxError}
use go_chain.Consensus.Timestamps.{calc_median_time_past}
use go_chain.Chain.State.{
  Chain, DiskBlockIndex, OrphanBlock, max_orphan_blocks, get_header, build_chain_ancestor_lookup,
  extend_chain, evict_expired_orphans, evict_oldest_orphan, prune_side_chain_index,
}
use go_chain.Chain.Reorg.{ReorgError, too_deep, reorg}

pub data ProcessError : Type 0 where
  already_in_chain orphan_block bits_too_easy orphan_pow_failed no_parent_header no_parent_work :
      ProcessError
  bad_header : HeaderError → ProcessError
  bad_structure : StructureError → ProcessError
  bad_inputs : TxError → ProcessError
  bad_connect : ConnectError → ProcessError
  reorg_failed : ReorgError → ProcessError
  side_chain : ℕ → ProcessError

-- The clocks of a call.
pub record Clock : Type 0 where
  pub now_unix : ℕ
  pub now : ℕ

-- A block under a known parent, with its place and the work of its branch.
pub record Candidate : Type 0 where
  pub hash : Hash
  pub block : Block
  pub parent_height : ℕ
  pub height : ℕ
  pub work : ℕ

abbrev pub or_else {ℓ} : {A E : Type ℓ} → Option A → E → Result E A
or_else none e = err e
or_else (some a) e = ok a

abbrev pub header_checked : Result HeaderError (Unit {0}) → Result ProcessError (Unit {0})
header_checked (ok u) = ok tt
header_checked (err e) = err (bad_header e)

abbrev pub structure_checked : Result StructureError (Unit {0}) → Result ProcessError (Unit {0})
structure_checked (ok u) = ok tt
structure_checked (err e) = err (bad_structure e)

-- The checks from the parent's header to the work. A trusted header is not checked again.
unfoldable pub examine :
    Primitives
    → Engine
    → ChainParams
    → ℕ
    → Bool
    → Hash
    → Block
    → ℕ
    → Chain
    → Result ProcessError Candidate
examine q e p now_unix trusted h b parent_height c = do
  let height = (parent_height + 1) % 2 ^ 32
  let get_ancestor = build_chain_ancestor_lookup c b.header.prev_block parent_height
  parent ← or_else (get_header c b.header.prev_block) no_parent_header
  header_checked (
      if trusted
      then ok tt
      else full_validate_header q.sha256 e b.header parent height get_ancestor (now_unix % 2 ^ 32)
          parent_height p)
  structure_checked (validate_block_structure q.sha256 p b height none none)
  rec ← or_else (lookup b.header.prev_block c.block_index) no_parent_work
  ok (record {
    hash = h;
    block = b;
    parent_height = parent_height;
    height = height;
    work = rec.chain_work + calc_work b.header.bits;
  })

abbrev pub record_of : Candidate → DiskBlockIndex
record_of x = record {
  header = x.block.header;
  height = x.height;
  chain_work = x.work;
  undo = none;
}

-- WriteBlock and PutBlockIndex
unfoldable pub put_block : Candidate → DiskBlockIndex → Chain → Chain
put_block x rec c = record c {
  blocks = insert x.hash x.block c.blocks;
  block_index = insert x.hash rec c.block_index;
}

-- DeleteBlockIndex
unfoldable pub delete_block : Hash → Chain → Chain
delete_block h c = record c { blocks = delete h c.blocks; block_index = delete h c.block_index }

abbrev pub set_height : Candidate → Chain → Chain
set_height x c = record c { height_by_hash = insert x.hash x.height c.height_by_hash }

-- A block on the tip: its inputs, the set, the undo data, the record, and the new tip.
unfoldable pub connect_tip :
    Primitives → ChainParams → Candidate → Chain → Chain × Result ProcessError (Unit {0})
unfolding put_block extend_chain
connect_tip q p x c =
    let get_ancestor = build_chain_ancestor_lookup c x.block.header.prev_block x.parent_height in
    let median = calc_median_time_past x.parent_height get_ancestor in
    elim (validate_transaction_inputs q p x.block c.utxo_set x.height median none) [
      | err e ↦ (c, err (bad_inputs e))
      | ok fees ↦ elim (connect_block q.sha256 c.utxo_set x.block x.height none) [
        | err e ↦ (c, err (bad_connect e))
        | ok r ↦
            let rec : DiskBlockIndex = record (record_of x) { undo = some r.1 } in
            let stored : Chain = put_block x rec (record c { utxo_set = r.0 }) in
            (extend_chain x.hash x.height x.work stored, ok tt)
      ]
    ]

-- What became of an orphan: `continue`, on to the next one, or the `break` after a reorganisation.
pub data Adopted : Type 0 where
  skipped added reorganised : Adopted

abbrev pub after_connect : Chain × Result ProcessError (Unit {0}) → Chain × Adopted
after_connect (c, ok u) = (c, added)
after_connect (c, err e) = (c, skipped)

-- The three cases of a new reorganisation: done, too deep, and failed.
abbrev pub after_reorg : Hash → Chain × Result ReorgError (Unit {0}) → Chain × Adopted
after_reorg h (c, ok u) = (c, reorganised)
after_reorg h (c, err too_deep) = (c, skipped)
after_reorg h (c, err e) =
    (delete_block h (record c { height_by_hash = delete h c.height_by_hash }), skipped)

unfoldable pub adopt_candidate :
    Primitives → ChainParams → Clock → Candidate → Chain → Chain × Adopted
unfolding put_block
adopt_candidate q p t x c =
    if bytes_eq x.block.header.prev_block c.tip_hash
    then after_connect (connect_tip q p x c)
    else let stored : Chain = set_height x (put_block x (record_of x) c) in
      if ltb c.tip_work x.work
      then after_reorg x.hash (reorg q p t.now x.hash x.height x.work stored)
      else (stored, added)

-- The body of the loop over the orphans of a parent.
unfoldable pub adopt :
    Primitives → Engine → ChainParams → Clock → Hash → Block → Chain → Chain × Adopted
adopt q e p t h b c = elim (lookup b.header.prev_block c.height_by_hash) [
  | none ↦ (c, skipped)
  | some parent_height ↦ elim (examine q e p t.now_unix false h b parent_height c) [
    | err x ↦ (c, skipped)
    | ok x ↦ adopt_candidate q p t x c
  ]
]
