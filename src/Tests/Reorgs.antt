-- ===== src/Tests/Reorgs.antt =====
-- Chain.reorg and Chain.processBlock of internal/chain/chain.go: a block gives way to a rival with the same transactions.
use go_chain.Prelude.{
  ◌⊎◌, ◌≡◌, ◌≤◌, refl, true, false, length, arith, List, [], ◌∷◌, none, some, ok, err,
}
use go_chain.KeyMap.{lookup, has, bytes_eq}
use go_chain.Types.Bytes.{put_le}
use go_chain.Types.Transaction.{Hash}
use go_chain.Types.Block.{Block}
use go_chain.Chain.State.{Chain, DiskBlockIndex, ReorgRecord, height_key, hash_at_height}
use go_chain.Chain.Reorg.{ReorgError, too_deep, path_to_fork, fork_height, reorg}
use go_chain.Chain.Reorg.Branch.{Built, at_fork, above}
use go_chain.Chain.Reorg.AllOrNothing.{with_history, Fails, Follows, reorg_lem}
use go_chain.Chain.Process.{Clock}
use go_chain.Chain.Process.Arrival.{orphan_rounds, process_orphans, process_block}
use go_chain.Chain.Process.Rounds.{process_orphans-rounds}
use go_chain.Chain.Process.Bounded.{process_block-orphans}
use go_chain.Tests.Chains.{engine}
use go_chain.Tests.Coins.{coins_block, before, connected, spent, fresh, connects, toy_sha256}
use go_chain.Tests.Scripts.{params, toy_primitives}

abbrev base_hash : Hash
base_hash = put_le 32 5

abbrev old_hash : Hash
old_hash = put_le 32 6

abbrev rival_hash : Hash
rival_hash = put_le 32 7

abbrev rival_block : Block
rival_block = record {
  header = record {
    version = 1;
    prev_block = base_hash;
    merkle_root = [];
    timestamp = 1;
    bits = 0;
    nonce = 1;
  };
  transactions = coins_block.transactions;
}

abbrev old_record : DiskBlockIndex
old_record = record { header = coins_block.header; height = 7; chain_work = 8; undo = some spent }

abbrev rival_record : DiskBlockIndex
rival_record = record { header = rival_block.header; height = 7; chain_work = 9; undo = none }

abbrev chain : Chain
chain = record {
  blocks = (old_hash, coins_block) ∷ (rival_hash, rival_block) ∷ [];
  block_index = (old_hash, old_record) ∷ (rival_hash, rival_record) ∷ [];
  tip_hash = old_hash;
  tip_height = 7;
  tip_work = 8;
  height_by_hash = (base_hash, 6) ∷ (old_hash, 7) ∷ [];
  hash_by_height = (height_key 6, base_hash) ∷ (height_key 7, old_hash) ∷ [];
  orphans = [];
  utxo_set = connected;
  reorg_history = [];
}

path_found : path_to_fork 8 chain rival_hash ≡ ok (rival_hash ∷ [], 6)
unfolding path_to_fork fork_height hash_at_height lookup bytes_eq put_le
path_found = refl

built : Built toy_sha256 chain before 1 7 connected
unfolding hash_at_height lookup bytes_eq put_le
built =
    above 0 7 before connected old_hash coins_block old_record spent (at_fork 6) refl refl refl refl
      fresh connects

indexed : has rival_hash chain.block_index ≡ true
unfolding has bytes_eq put_le
indexed = refl

reorg_lem_example :
    ((hist : List ReorgRecord) × (e : ReorgError) × (reorg toy_primitives params 0 rival_hash 7 9
          chain
        ≡ (with_history chain hist, err e))
      × ((e ≡ too_deep)
          ⊎ Fails toy_primitives params (with_history chain hist) before (rival_hash ∷ []) 6 e))
    ⊎ ((d : Chain) × (reorg toy_primitives params 0 rival_hash 7 9 chain ≡ (d, ok tt))
        × Follows toy_sha256 chain.blocks before (rival_hash ∷ []) 6 rival_hash 7 d)
reorg_lem_example =
    reorg_lem toy_primitives params rival_hash 7 9 6 (rival_hash ∷ []) before 0 chain path_found
      built (indexed, tt)

abbrev clock : Clock
clock = record { now_unix = 5000; now = 0 }

process_block-orphans_example :
    length (process_block toy_primitives engine params clock false rival_block chain).0.orphans
    ≤ 100
process_block-orphans_example =
    process_block-orphans toy_primitives engine params clock false rival_block chain (omega arith)

-- The rival waits in the pool for its parent.
abbrev waiting : Chain
waiting = record chain { orphans = (rival_hash, record { block = rival_block; added_at = 0 }) ∷ [] }

process_orphans-rounds_example :
    orphan_rounds 5 toy_primitives engine params clock (base_hash ∷ []) waiting
    ≡ (process_orphans toy_primitives engine params clock base_hash waiting, [])
process_orphans-rounds_example =
    process_orphans-rounds 5 toy_primitives engine params clock base_hash waiting (omega arith)
