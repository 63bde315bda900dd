-- ===== src/Miner/Search.antt =====
-- searchNonceSpace of internal/miner/miner.go: each worker seals its own range of nonces, in batches.
-- A worker is modelled as it runs while the tip stays and no other has found a block; SealHeaderCounted
-- is SealHeader with a count. The workers are goroutines: whichever finds a header first gives the
-- block.
pub mod Complete
use go_chain.Prelude.{
  ℕ, zero, suc, ◌+◌, ◌-◌, ◌*◌, ◌/◌, ◌%◌, ◌^◌, Bool, true, false, Option, some, none, ltb, ◌==◌,
  if◌then◌else◌,
}
use go_chain.Types.Transaction.{Hash}
use go_chain.Types.Block.{BlockHeader}
use go_chain.Consensus.Pow.{Engine, seal_header}

-- The range of worker `w`.
unfoldable pub start_nonce : ℕ → ℕ → ℕ
start_nonce workers w = w * (2 ^ 32 / workers)

unfoldable pub end_nonce : ℕ → ℕ → ℕ
unfolding start_nonce
end_nonce workers w = if w == workers - 1 then 2 ^ 32 else start_nonce workers w + 2 ^ 32 / workers

-- `if remaining < batch { batch = remaining }`
abbrev pub batch_at : ℕ → ℕ → ℕ
batch_at size remaining = if ltb remaining size then remaining else size

-- `for pos < end`, on fuel: one batch in each round.
unfoldable pub worker_loop : ℕ → Engine → BlockHeader → Hash → ℕ → ℕ → ℕ → Option BlockHeader
worker_loop zero e header target size pos end = none
worker_loop (suc n) e header target size pos end = elim (ltb pos end) [
  | false ↦ none
  | true ↦
      let batch = batch_at size (end - pos) in
      let sealed = seal_header e (record header { nonce = pos % 2 ^ 32 }) target batch in
      elim sealed.1 [
        | true ↦ some sealed.0
        | false ↦ worker_loop n e header target size (pos + batch) end
      ]
]

-- A worker, with a round for each nonce of its range, which is enough as no batch is empty.
unfoldable pub worker : Engine → BlockHeader → Hash → ℕ → ℕ → ℕ → Option BlockHeader
unfolding worker_loop start_nonce end_nonce
worker e header target size workers w =
    worker_loop (end_nonce workers w - start_nonce workers w) e header target size
      (start_nonce workers w) (end_nonce workers w)
