-- ===== src/Consensus/Timestamps.antt =====
-- internal/consensus/validation.go: CalcMedianTimePast and ValidateHeaderTimestamp. The function
-- getAncestor is an argument; its nil is `none`.
pub mod Median
use go_chain.Prelude.{
  ℕ, zero, suc, ◌+◌, ◌-◌, ◌/◌, List, [], ◌∷◌, Option, some, none, leb, ltb, ◌==◌, if◌then◌else◌,
  length, get_or, Result, ok, err, ◌>>=◌, ◌>>◌, fail_if,
}
use text.Mathlib.Text.{◌==◌ as str_eq}
use go_chain.Types.Block.{BlockHeader}
use go_chain.Params.{ChainParams, second}

abbrev pub median_count : ℕ
median_count = 11

abbrev pub GetAncestor : Type 0
GetAncestor = ℕ → Option BlockHeader

-- `for i := uint32(0); i < medianCount && tipHeight >= i; i++`, with `rounds` rounds left.
unfoldable pub collect_timestamps : GetAncestor → ℕ → ℕ → ℕ → List ℕ
collect_timestamps get_ancestor tip_height zero i = []
collect_timestamps get_ancestor tip_height (suc rounds) i =
    let rest = collect_timestamps get_ancestor tip_height rounds (i + 1) in
    if ltb tip_height i
    then []
    else elim (get_ancestor (tip_height - i)) [ none ↦ [] | some h ↦ h.timestamp ∷ rest ]

-- The insertion sort keeps a sorted front of the slice; it is held here with its last element first,
-- in the order in which the inner loop meets it.
unfoldable pub insert_key : ℕ → List ℕ → List ℕ
insert_key key [] = key ∷ []
insert_key key (t ∷ ts) = if ltb key t then t ∷ insert_key key ts else key ∷ t ∷ ts

unfoldable pub insertion_sort : List ℕ → List ℕ → List ℕ
unfolding insert_key
insertion_sort front [] = front
insertion_sort front (key ∷ ts) = insertion_sort (insert_key key front) ts

-- `timestamps[len(timestamps)/2]` of the sorted slice, counted from its end.
unfoldable pub median_of : List ℕ → ℕ
unfolding insertion_sort
median_of timestamps =
    let n = length timestamps in
    if n == 0 then 0 else get_or (insertion_sort [] timestamps) (n - 1 - n / 2) 0

-- CalcMedianTimePast
unfoldable pub calc_median_time_past : ℕ → GetAncestor → ℕ
unfolding collect_timestamps median_of
calc_median_time_past tip_height get_ancestor =
    median_of (collect_timestamps get_ancestor tip_height median_count 0)

pub data TimestampError : Type 0 where
  too_far_in_future not_after_parent not_after_median unknown_rule : TimestampError

-- ValidateHeaderTimestamp
unfoldable pub validate_header_timestamp :
    BlockHeader → BlockHeader → ℕ → GetAncestor → ℕ → ChainParams → Result TimestampError (Unit {0})
unfolding calc_median_time_past
validate_header_timestamp header parent now_unix get_ancestor tip_height p = do
  fail_if (ltb (now_unix + p.max_time_future_drift / second) header.timestamp) too_far_in_future
  if str_eq p.min_timestamp_rule "prev+1"
      then fail_if (leb header.timestamp parent.timestamp) not_after_parent
      else if str_eq p.min_timestamp_rule "median-11"
      then fail_if (leb header.timestamp (calc_median_time_past tip_height get_ancestor))
          not_after_median
      else err unknown_rule
