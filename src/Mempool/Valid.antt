-- ===== src/Mempool/Valid.antt =====
-- What every operation of internal/mempool keeps true of the pool: its two indices, its count of bytes
-- and its heap agree.
pub mod Remove
pub mod Insert
use go_chain.Prelude.{ℕ, ◌/◌, ◌≤◌, ◌≡◌, refl, true, some, List}
use go_chain.KeyMap.{lookup, member}
use go_chain.KeyMap.Distinct.{IsDistinct, AllPairs, total, values}
use go_chain.Types.Bytes.{Bytes}
use go_chain.Types.Transaction.{Hash}
use go_chain.Crypto.Hash.{hash_transaction}
use go_chain.Params.{ChainParams}
use go_chain.Mempool.{Mempool, new, input_keys, entry_size}
use go_chain.Mempool.FeeOrder.{TxEntry}

-- An entry stands under the hash of its transaction, with its size and rate, and pays for its relay.
pub record IsEntry (sha256 : Bytes → Bytes) (p : ChainParams) (h : Hash) (e : TxEntry)
    : Type 0 where
  pub keyed : e.hash ≡ h
  pub hashed : e.hash ≡ hash_transaction sha256 e.tx
  pub sized : e.size ≡ entry_size e.tx
  pub rated : e.fee_rate ≡ e.fee / e.size
  pub paid : p.min_relay_tx_fee ≤ e.fee
  pub paid_rate : p.min_relay_tx_fee_rate ≤ e.fee_rate

abbrev pub Spends : TxEntry → Bytes → Type 0
Spends e k = member k (input_keys e.tx.inputs) ≡ true

-- `marked` and `spends`: an outpoint is marked with a hash exactly when the transaction of that hash is
-- in the pool and spends it.
pub record IsValid (sha256 : Bytes → Bytes) (p : ChainParams) (m : Mempool) : Type 0 where
  pub entries : AllPairs (IsEntry sha256 p) m.txs
  pub distinct : IsDistinct m.txs
  pub marked :
      (k h : Bytes)
      → lookup k m.spent_outpoints ≡ some h
      → (e : TxEntry) × (lookup h m.txs ≡ some e) × Spends e k
  pub spends :
      (k h : Bytes) (e : TxEntry)
      → lookup h m.txs ≡ some e
      → Spends e k
      → lookup k m.spent_outpoints ≡ some h
  pub counted : m.total_bytes ≡ total (λ (e : TxEntry). e.size) m.txs
  pub ordered : m.fee_order ≡ values m.txs

pub new-IsValid : (sha256 : Bytes → Bytes) (p : ChainParams) → IsValid sha256 p new
unfolding lookup
new-IsValid sha256 p = record {
  entries = tt;
  distinct = tt;
  marked = λ k h e. cc;
  spends = λ k h e found s. cc;
  counted = refl;
  ordered = refl;
}
