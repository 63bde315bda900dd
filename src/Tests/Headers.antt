-- ===== src/Tests/Headers.antt =====
-- The subsidy, and the timestamps of a chain of three blocks.
use go_chain.Prelude.{ℕ, ◌*◌, ◌≤◌, ◌≡◌, refl, [], some, ltb, if◌then◌else◌, arith, err}
use go_chain.Types.Block.{BlockHeader}
use go_chain.Params.{calc_subsidy}
use go_chain.Params.Subsidy.{minted, minted-bound}
use go_chain.Consensus.Timestamps.{
  GetAncestor, collect_timestamps, insertion_sort, insert_key, median_of, calc_median_time_past,
  validate_header_timestamp, not_after_median,
}
use go_chain.Tests.Scripts.{params}

minted-bound_example : minted params 500000 ≤ 2 * (210000 * 48)
minted-bound_example = minted-bound params 500000 (omega arith) (omega arith)

-- The subsidy is halved at height 210000.
halved : calc_subsidy params 210000 ≡ 24
unfolding calc_subsidy
halved = refl

abbrev header_at : ℕ → BlockHeader
header_at t = record {
  version = 1;
  prev_block = [];
  merkle_root = [];
  timestamp = t;
  bits = 0;
  nonce = 0;
}

abbrev ancestors : GetAncestor
ancestors h =
    if ltb h 1
    then some (header_at 30)
    else if ltb h 2
    then some (header_at 10)
    else some (header_at 20)

median : calc_median_time_past 2 ancestors ≡ 20
unfolding calc_median_time_past collect_timestamps median_of insertion_sort insert_key
median = refl

refused :
    validate_header_timestamp (header_at 20) (header_at 20) 100 ancestors 2 params
    ≡ err not_after_median
unfolding validate_header_timestamp calc_median_time_past collect_timestamps median_of
    insertion_sort insert_key
refused = refl
