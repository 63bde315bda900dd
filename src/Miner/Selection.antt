-- ===== src/Miner/Selection.antt =====
-- MineOne of internal/miner/miner.go, up to the search: what goes into the block.

pub mod Fits
use go_chain.Prelude.{
  ℕ, ◌+◌, ◌-◌, ◌%◌, ◌^◌, Bool, ◌&&◌, List, [], ◌∷◌, Option, some, none, leb, ltb, if◌then◌else◌,
}
use go_chain.Types.Bytes.{Bytes}
use go_chain.Types.Transaction.{Hash, Transaction}
use go_chain.Types.Block.{BlockHeader}
use go_chain.Crypto.Merkle.{compute_merkle_root}
use go_chain.Params.{ChainParams, calc_subsidy}
use go_chain.Consensus.Timestamps.{GetAncestor}
use go_chain.Consensus.Pow.{Engine, prepare_header}
use go_chain.Mempool.{Mempool}
use go_chain.Mempool.Template.{BlockTemplateTx, block_template}
use go_chain.Miner.{build_coinbase}

-- headerSize and coinbaseEstimate.
abbrev pub reserved_size : ℕ
reserved_size = 80 + 150

-- maxTxCount: the limit less the coinbase, or 0 for none.
unfoldable pub max_included : ChainParams → ℕ
max_included p = if leb p.max_block_tx_count 1 then 0 else p.max_block_tx_count - 1

-- `for i, tx := range tmpl.Transactions`, with the number included, the size and the fees so far. The
-- transaction of an entry is the one that stands beside it.
unfoldable pub include_txs : ℕ → ℕ → List BlockTemplateTx → ℕ → ℕ → ℕ → List Transaction × ℕ
include_txs max_count max_size [] n block_size total_fees = ([], total_fees)
include_txs max_count max_size (t ∷ ts) n block_size total_fees =
    let rest =
      include_txs max_count max_size ts (n + 1) (block_size + t.size)
        ((total_fees + t.fee) % 2 ^ 64) in
    if ltb 0 max_count && leb max_count n
    then ([], total_fees)
    else if ltb 0 max_size && ltb max_size (block_size + t.size)
    then ([], total_fees)
    else (t.tx ∷ rest.0, rest.1)

-- The transactions of the new block, and the reward that its coinbase claims.
unfoldable pub block_txs : ChainParams → Mempool → Bytes → ℕ → ℕ → List Transaction
unfolding include_txs max_included
block_txs p m reward_script new_height extra_nonce =
    let included =
      include_txs (max_included p) p.max_block_size (block_template m).entries 0 reserved_size 0 in
    build_coinbase reward_script new_height ((calc_subsidy p new_height + included.1) % 2 ^ 64)
      extra_nonce
    ∷ included.0

-- `ts := uint32(now)`, and one more than the tip's if that is not later.
unfoldable pub block_time : ℕ → BlockHeader → ℕ
block_time now tip =
    let ts = now % 2 ^ 32 in if leb ts tip.timestamp then (tip.timestamp + 1) % 2 ^ 32 else ts

-- The header and the transactions that go into the search: `none` if there is no Merkle root.
unfoldable pub candidate :
    (Bytes → Bytes)
    → Engine
    → ChainParams
    → Mempool
    → Bytes
    → Hash
    → BlockHeader
    → ℕ
    → GetAncestor
    → ℕ
    → ℕ
    → Option (BlockHeader × List Transaction)
unfolding block_txs block_time
candidate sha256 e p m reward_script tip_hash tip tip_height get_ancestor now extra_nonce =
    let txs = block_txs p m reward_script ((tip_height + 1) % 2 ^ 32) extra_nonce in
    elim (compute_merkle_root sha256 txs) [
      | none ↦ none
      | some merkle ↦
          let header : BlockHeader = record {
            version = 1;
            prev_block = tip_hash;
            merkle_root = merkle;
            timestamp = block_time now tip;
            bits = 0;
            nonce = 0;
          } in
          some (prepare_header e header tip tip_height get_ancestor p, txs)
    ]
