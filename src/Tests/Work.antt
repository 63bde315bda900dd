-- ===== src/Tests/Work.antt =====
-- internal/crypto and internal/difficulty: proof of work, retargeting, and what a signature covers.
use go_chain.Prelude.{◌≤◌, ◌≡◌, ◌⊎◌, refl, not, [], ◌∷◌, some, leb, arith, fail_if}
use go_chain.Types.Bytes.{put_le, get_le}
use go_chain.Types.Transaction.{Hash, IsHash}
use go_chain.Types.Transaction.RoundTrip.{IsTx}
use go_chain.Crypto.Hash.{double_sha256}
use go_chain.Crypto.Keys.{compute_sig_hash, sighash_data}
use go_chain.Crypto.Keys.Commitment.{Commits, compute_sig_hash-Commits}
use go_chain.Crypto.Merkle.Binding.{Collision}
use go_chain.Crypto.Target.{
  compact_to_big, is_overflow, validate_proof_of_work, hash_exceeds_target, calc_work,
}
use go_chain.Crypto.Target.ProofOfWork.{validate_proof_of_work-eq}
use go_chain.Crypto.Target.Work.{calc_work_antitone}
use go_chain.Types.Block.{BlockHeader}
use go_chain.Crypto.Target.Compact.{big_to_compact, byte_len, normalize}
use go_chain.Consensus.Timestamps.{
  calc_median_time_past, collect_timestamps, median_of, insertion_sort, insert_key,
}
use go_chain.Difficulty.{
  calc_next_bits, bitcoin, lwma, bitcoin_next_bits, clamp_span, capped_time, clamp_target,
}
use go_chain.Difficulty.Limit.{IsLow, calc_next_bits-IsLow}
use go_chain.Tests.Coins.{toy_sha256, second_tx}
use go_chain.Tests.Scripts.{toy_primitives, params}

-- The target of the first Bitcoin block, and an encoding that overflows.
target : compact_to_big 0x1d00ffff ≡ 0xffff0000000000000000000000000000000000000000000000000000
unfolding compact_to_big is_overflow
target = refl

overflow : compact_to_big 0x23000001 ≡ 0
unfolding compact_to_big is_overflow
overflow = refl

abbrev small_hash : Hash
small_hash = put_le 32 0xfffe0000000000000000000000000000000000000000000000000000

small_hash-IsHash : IsHash small_hash
unfolding put_le
small_hash-IsHash = omega arith

validate_proof_of_work-eq_example :
    validate_proof_of_work small_hash 0x1d00ffff
    ≡ fail_if (not (leb (get_le small_hash) (compact_to_big 0x1d00ffff))) hash_exceeds_target
validate_proof_of_work-eq_example =
    validate_proof_of_work-eq small_hash 0x1d00ffff small_hash-IsHash

calc_work_antitone_example :
    (calc_work 0x207fffff ≤ calc_work 0x1d00ffff) × (1 ≤ calc_work 0x207fffff)
unfolding compact_to_big is_overflow
calc_work_antitone_example = calc_work_antitone 0x1d00ffff 0x207fffff (omega arith) (omega arith)

second_tx-IsTx : IsTx second_tx
unfolding put_le
second_tx-IsTx = omega arith

-- The hash that the first input signs.
abbrev signed_hash : Hash
signed_hash = double_sha256 toy_sha256 (sighash_data second_tx 0 (0x51 ∷ []))

signs : compute_sig_hash toy_primitives second_tx 0 (0x51 ∷ []) ≡ some signed_hash
unfolding compute_sig_hash
signs = refl

compute_sig_hash-Commits_example :
    Commits second_tx second_tx 0 0 (0x51 ∷ []) (0x51 ∷ []) ⊎ Collision toy_sha256
compute_sig_hash-Commits_example =
    compute_sig_hash-Commits toy_primitives second_tx second_tx 0 0 (0x51 ∷ []) (0x51 ∷ [])
      signed_hash second_tx-IsTx second_tx-IsTx (omega arith) (omega arith) (omega arith)
      (omega arith) signs signs

-- The first target again, one above it, and a target whose leading bit would be the sign.
packed : big_to_compact 0xffff0000000000000000000000000000000000000000000000000000 ≡ 0x1d00ffff
unfolding big_to_compact byte_len normalize
packed = refl

rounded : big_to_compact 0xffff0000000000000000000000000000000000000000000000000001 ≡ 0x1d00ffff
unfolding big_to_compact byte_len normalize
rounded = refl

shifted : big_to_compact 0x800000 ≡ 0x04008000
unfolding big_to_compact byte_len normalize
shifted = refl

abbrev tip : BlockHeader
tip = record {
  version = 1;
  prev_block = [];
  merkle_root = [];
  timestamp = 9_000_000;
  bits = 0x1c7fffff;
  nonce = 0;
}

-- The tip's time counts as the median of the last blocks and two hours, and the target falls fourfold.
capped :
    calc_next_bits bitcoin tip 2015 (λ height. some (record tip { timestamp = 0 })) params
    ≡ 0x1c1fffff
unfolding calc_next_bits bitcoin_next_bits clamp_span capped_time clamp_target calc_median_time_past
    collect_timestamps median_of insertion_sort insert_key compact_to_big is_overflow big_to_compact
    byte_len normalize
capped = refl

calc_next_bits-IsLow_example :
    IsLow params
      (calc_next_bits lwma tip 2015 (λ height. some (record tip { timestamp = 0 })) params)
unfolding compact_to_big is_overflow
calc_next_bits-IsLow_example =
    calc_next_bits-IsLow lwma params tip 2015 (λ height. some (record tip { timestamp = 0 }))
      (omega arith) (omega arith)
