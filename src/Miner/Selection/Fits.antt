-- ===== src/Miner/Selection/Fits.antt =====
-- What the miner assembles stays within the limits of a block.
use go_chain.Prelude.{
  ℕ, suc, ◌+◌, ◌-◌, ◌%◌, ◌^◌, ◌≤◌, ◌<◌, ◌≡◌, sym, subst, inl, inr, ◌&&◌, List, [], ◌∷◌, leb, ltb,
  length, length-append, All, arith, Bool-cases,
}
use go_chain.Types.Bytes.{Bytes, put_le, length-put_le}
use go_chain.Types.VarInt.{var_int_size}
use go_chain.Types.VarInt.Canonical.{length-put_var_int}
use go_chain.Types.Transaction.{
  Transaction, serialize_all, serialize_tx, tx_size, input_size, output_size, add_sizes,
}
use go_chain.Types.Transaction.Size.{HasHash, length-serialize_tx}
use go_chain.Types.Block.{BlockHeader, serialize_block, serialize_header}
use go_chain.Params.{ChainParams, calc_subsidy}
use go_chain.Mempool.{Mempool, entry_size}
use go_chain.Mempool.FeeOrder.{TxEntry}
use go_chain.Mempool.Valid.{IsEntry, IsValid}
use go_chain.Mempool.Template.{BlockTemplateTx, template_tx, block_template}
use go_chain.Mempool.Template.Order.{block_template-All}
use go_chain.KeyMap.{Map}
use go_chain.KeyMap.Distinct.{AllPairs, values}
use go_chain.Miner.{build_coinbase, coinbase_message, minimal_height_push_len}
use go_chain.Miner.Selection.{max_included, include_txs, block_txs, reserved_size}

-- An entry of a template carries the size of its transaction, whose inputs name 32-byte hashes.
abbrev pub IsSized : BlockTemplateTx → Type 0
IsSized t = (tx_size t.tx ≤ t.size) × All HasHash t.tx.inputs

-- How many transactions are taken, and how many bytes they are.
record Taken (max_count max_size n block_size : ℕ) (txs : List Transaction) : Type 0 where
  count : n + length txs ≤ max_count
  bytes : block_size + length (serialize_all serialize_tx txs) ≤ max_size

include_txs-Taken :
    (max_count max_size : ℕ) (ts : List BlockTemplateTx) (n block_size total_fees : ℕ)
    → All IsSized ts
    → 0 < max_count
    → 0 < max_size
    → n ≤ max_count
    → block_size ≤ max_size
    → Taken max_count max_size n block_size
        (include_txs max_count max_size ts n block_size total_fees).0
unfolding include_txs serialize_all
include_txs-Taken mc ms [] n size fees a pc ps hn hs = record {
  count = omega arith;
  bytes = omega arith;
}
include_txs-Taken mc ms (t ∷ ts) n size fees a pc ps hn hs =
    elim (Bool-cases (ltb 0 mc && leb mc n)) [
      | inl full ↦ rw (include_txs, full) (record { count = omega arith; bytes = omega arith })
      | inr more ↦ elim (Bool-cases (ltb 0 ms && ltb ms (size + t.size))) [
        | inl too_large ↦
            rw (include_txs, more, too_large) (record { count = omega arith; bytes = omega arith })
        | inr fits ↦
            let r =
              include_txs-Taken mc ms ts (n + 1) (size + t.size) ((fees + t.fee) % 2 ^ 64) a.1 pc ps
                (ground (arith)) (ground (arith)) in
            let rest = (include_txs mc ms ts (n + 1) (size + t.size) ((fees + t.fee) % 2 ^ 64)).0 in
            rw (include_txs, more, fits)
              (record {
                count = omega (arith, r.count);
                bytes = omega (
                  arith,
                  r.bytes,
                  length-append (serialize_tx t.tx) (serialize_all serialize_tx rest),
                  length-serialize_tx t.tx a.0.1,
                  a.0.0,
                );
              })
      ]
    ]

length-coinbase_message :
    (height extra_nonce : ℕ) → length (coinbase_message height extra_nonce) ≤ 18
unfolding coinbase_message minimal_height_push_len put_le
length-coinbase_message height extra_nonce = ground arith

length-build_coinbase :
    (reward_script : Bytes) (height subsidy extra_nonce : ℕ)
    → length reward_script ≤ 69
    → length (serialize_tx (build_coinbase reward_script height subsidy extra_nonce)) ≤ 147
unfolding build_coinbase tx_size add_sizes input_size output_size var_int_size
length-build_coinbase reward_script height subsidy extra_nonce small =
    let tx = build_coinbase reward_script height subsidy extra_nonce in
    let size = length-serialize_tx tx (length-put_le 32 0, tt) in
    let message = length-coinbase_message height extra_nonce in ground (arith, size, message, small)

count_size : (n : ℕ) → n ≤ 65535 → var_int_size n ≤ 3
unfolding var_int_size
count_size n h = ground arith

entry_size-le : (tx : Transaction) → tx_size tx ≤ entry_size tx
unfolding entry_size
entry_size-le tx = ground arith

-- An entry of a consistent pool, whose inputs name 32-byte hashes.
abbrev pub IsSizedEntry : TxEntry → Type 0
IsSizedEntry e = (e.size ≡ entry_size e.tx) × All HasHash e.tx.inputs

sized : (e : TxEntry) → IsSizedEntry e → IsSized (template_tx e)
sized e s = (subst (λ n. tx_size e.tx ≤ n) (sym s.0) (entry_size-le e.tx), s.1)

valid_entries :
    (sha256 : Bytes → Bytes) (p : ChainParams) (m : Map TxEntry)
    → AllPairs (IsEntry sha256 p) m
    → All (λ (e : TxEntry). All HasHash e.tx.inputs) (values m)
    → All IsSizedEntry (values m)
valid_entries sha256 p [] a h = tt
valid_entries sha256 p ((k, e) ∷ m) a h = ((a.0.sized, h.0), valid_entries sha256 p m a.1 h.1)

length-serialize_header :
    (h : BlockHeader)
    → length h.prev_block ≡ 32
    → length h.merkle_root ≡ 32
    → length (serialize_header h) ≡ 80
unfolding serialize_header
length-serialize_header h a b = omega (
  arith,
  length-append {0},
  length-put_le 4 h.version,
  length-put_le 4 h.timestamp,
  length-put_le 4 h.bits,
  length-put_le 4 h.nonce,
)

-- In a network whose blocks hold more than one transaction, at most 65535 of them, and at least the 230
-- bytes set aside, a block of any header over what the miner takes from a consistent pool and a coinbase
-- with a reward script of at most 69 bytes is within MaxBlockTxCount and, serialized, within
-- MaxBlockSize.
pub block_txs-fits :
    (sha256 : Bytes → Bytes) (p : ChainParams) (m : Mempool) (reward_script : Bytes)
    (height extra_nonce : ℕ) (header : BlockHeader)
    → IsValid sha256 p m
    → All (λ (e : TxEntry). All HasHash e.tx.inputs) (values m.txs)
    → length reward_script ≤ 69
    → 1 < p.max_block_tx_count
    → p.max_block_tx_count ≤ 65535
    → reserved_size ≤ p.max_block_size
    → length header.prev_block ≡ 32
    → length header.merkle_root ≡ 32
    → let txs = block_txs p m reward_script height extra_nonce in
      (length txs ≤ p.max_block_tx_count)
      × (length (serialize_block (record { header = header; transactions = txs }))
          ≤ p.max_block_size)
unfolding block_txs max_included serialize_block serialize_all
block_txs-fits sha256 p m reward_script height extra_nonce header v hashes small more few room prev
      merkle =
    let entries =
      block_template-All IsSizedEntry IsSized m sized
        (valid_entries sha256 p m.txs v.entries hashes) in
    let limit : max_included p ≡ p.max_block_tx_count - 1 = ground (arith, more) in
    let picked =
      include_txs (max_included p) p.max_block_size (block_template m).entries 0 reserved_size 0 in
    let taken =
      include_txs-Taken (max_included p) p.max_block_size (block_template m).entries 0 reserved_size
        0 entries (omega (arith, limit, more)) (omega (arith, room)) (omega arith) room in
    let reward = (calc_subsidy p height + picked.1) % 2 ^ 64 in
    let coinbase = build_coinbase reward_script height reward extra_nonce in
    let paid = length-build_coinbase reward_script height reward extra_nonce small in
    let number : suc (length picked.0) ≤ p.max_block_tx_count =
      omega (arith, taken.count, limit, more) in
    (
      number,
      omega (
        arith,
        taken.bytes,
        paid,
        length-append {0},
        length-serialize_header header prev merkle,
        length-put_var_int (suc (length picked.0)),
        count_size (suc (length picked.0)) (omega (arith, number, few)),
      ),
    )
