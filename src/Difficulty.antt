-- ===== src/Difficulty.antt =====
-- internal/difficulty: the four retargeters. Times are whole seconds, as the code divides them. The
-- int64 products of a network's window and spacing stay below 2^63 and are not cut; a window or a spacing
-- of zero, on which the code would divide by zero, is no network's.
pub mod Limit
use go_chain.Prelude.{
  ℕ, zero, suc, ◌+◌, ◌-◌, ◌*◌, ◌/◌, ◌%◌, ◌^◌, Bool, not, List, [], ◌∷◌, Option, some, none, leb,
  ltb, ◌==◌, if◌then◌else◌,
}
use Prim.Native.String.{String}
use text.Mathlib.Text.{◌==◌ as str_eq}
use go_chain.Types.Block.{BlockHeader}
use go_chain.Crypto.Target.{compact_to_big}
use go_chain.Crypto.Target.Compact.{big_to_compact}
use go_chain.Params.{ChainParams, second}
use go_chain.Consensus.Timestamps.{GetAncestor, calc_median_time_past}

-- The end of each: at least 1, at most the target of MinBits.
unfoldable pub clamp_target : ChainParams → ℕ → ℕ
clamp_target p target =
    let floored = if target == 0 then 1 else target in
    let most = compact_to_big p.min_bits in
    big_to_compact (if ltb most floored then most else floored)

-- `to - from`, which may be negative, between two bounds.
unfoldable pub clamp_span : ℕ → ℕ → ℕ → ℕ → ℕ
clamp_span from to least most =
    if ltb to (from + least) then least else if ltb (from + most) to then most else to - from

-- A timestamp, at most the median time past of its height and the drift.
unfoldable pub capped_time : ChainParams → GetAncestor → ℕ → ℕ → ℕ
capped_time p get_ancestor height timestamp =
    let most = calc_median_time_past height get_ancestor + p.max_time_future_drift / second in
    if ltb most timestamp then most else timestamp

-- internal/difficulty/bitcoin
unfoldable pub bitcoin_next_bits : BlockHeader → ℕ → GetAncestor → ChainParams → ℕ
unfolding clamp_span capped_time
bitcoin_next_bits tip tip_height get_ancestor p =
    let window_start = (tip_height + 2 ^ 32 - (p.retarget_interval - 1)) % 2 ^ 32 in
    let target_timespan = p.target_timespan / second in
    if p.no_retarget
    then p.initial_bits
    else if not ((tip_height + 1) % 2 ^ 32 % p.retarget_interval == 0)
    then tip.bits
    else elim (get_ancestor window_start) [
      | none ↦ tip.bits
      | some first ↦
          let first_ts = capped_time p get_ancestor window_start first.timestamp in
          let tip_ts = capped_time p get_ancestor tip_height tip.timestamp in
          let span = clamp_span first_ts tip_ts (target_timespan / 4) (target_timespan * 4) in
          clamp_target p (compact_to_big tip.bits * span / target_timespan)
    ]

-- internal/difficulty/digishield
unfoldable pub digishield_next_bits : BlockHeader → ℕ → GetAncestor → ChainParams → ℕ
unfolding clamp_span
digishield_next_bits tip tip_height get_ancestor p =
    let spacing = p.target_block_spacing / second in
    let n = if ltb p.retarget_interval 2 then 4 else p.retarget_interval in
    if p.no_retarget
    then p.initial_bits
    else if ltb tip_height 1
    then p.initial_bits
    else elim (get_ancestor (tip_height - 1)) [
      | none ↦ tip.bits
      | some prev ↦
          let solve_time =
            if ltb tip.timestamp (prev.timestamp + 1) then 1 else tip.timestamp - prev.timestamp in
          let dampened =
            clamp_span 0 (((n - 1) * spacing + solve_time) / n) (spacing / 4) (spacing * 4) in
          clamp_target p (compact_to_big tip.bits * dampened / spacing)
    ]

-- The loop of dgw down from a block, over the blocks that are left.
unfoldable pub sum_back : ℕ → BlockHeader → ℕ → GetAncestor → Option ℕ
sum_back zero current height get_ancestor = some (compact_to_big current.bits)
sum_back (suc k) current height get_ancestor = elim (get_ancestor (height - 1)) [
  | none ↦ none
  | some below ↦ elim (sum_back k below (height - 1) get_ancestor) [
    | none ↦ none
    | some rest ↦ some (compact_to_big current.bits + rest)
  ]
]

-- internal/difficulty/dgw
unfoldable pub dgw_next_bits : BlockHeader → ℕ → GetAncestor → ChainParams → ℕ
unfolding clamp_span sum_back
dgw_next_bits tip tip_height get_ancestor p =
    let n = p.retarget_interval in
    let expected = n * (p.target_block_spacing / second) in
    if p.no_retarget
    then p.initial_bits
    else if ltb tip_height n
    then p.initial_bits
    else elim (if n == 0 then some 0 else sum_back (n - 1) tip tip_height get_ancestor) [
      | none ↦ tip.bits
      | some sum_target ↦ elim (get_ancestor (tip_height - n)) [
        | none ↦ tip.bits
        | some window_start ↦
            let span =
              clamp_span window_start.timestamp tip.timestamp (expected / 3) (expected * 3) in
            clamp_target p (sum_target / n * span / expected)
      ]
    ]

-- The headers from a height on.
unfoldable pub window : ℕ → ℕ → GetAncestor → Option (List BlockHeader)
window zero height get_ancestor = some []
window (suc k) height get_ancestor = elim (get_ancestor height) [
  | none ↦ none
  | some h ↦ elim (window k (height + 1) get_ancestor) [ none ↦ none | some rest ↦ some (h ∷ rest) ]
]

-- The weighted sum of the solve times, and the sum of the targets, from the position `i` on.
unfoldable pub weigh : ℕ → ℕ → ℕ → List BlockHeader → ℕ × ℕ
weigh most i prev [] = (0, 0)
weigh most i prev (h ∷ hs) =
    let this = if leb h.timestamp prev then prev + 1 else h.timestamp in
    let solve_time = if ltb most (this - prev) then most else this - prev in
    let rest = weigh most (i + 1) this hs in
    (i * solve_time + rest.0, compact_to_big h.bits + rest.1)

unfoldable pub lwma_target : ℕ → ℕ → List BlockHeader → ℕ
unfolding weigh
lwma_target n spacing [] = 0
lwma_target n spacing (first ∷ rest) =
    let sums = weigh (6 * spacing) 1 first.timestamp rest in
    let least = n * n * spacing / 20 in
    let weighted = if ltb sums.0 least then least else sums.0 in
    sums.1 * (200 * weighted) / (n * n * (n + 1) * spacing * 99)

-- internal/difficulty/lwma
unfoldable pub lwma_next_bits : BlockHeader → ℕ → GetAncestor → ChainParams → ℕ
unfolding window lwma_target
lwma_next_bits tip tip_height get_ancestor p =
    let n = p.retarget_interval in
    if p.no_retarget
    then p.initial_bits
    else if ltb tip_height n
    then p.initial_bits
    else elim (window (n + 1) (tip_height - n) get_ancestor) [
      | none ↦ tip.bits
      | some headers ↦ clamp_target p (lwma_target n (p.target_block_spacing / second) headers)
    ]

pub data Retargeter : Type 0 where
  bitcoin lwma dgw digishield : Retargeter

-- GetRetargeter
unfoldable pub get_retargeter : String → Option Retargeter
get_retargeter name =
    if str_eq name "bitcoin"
    then some bitcoin
    else if str_eq name "lwma"
    then some lwma
    else if str_eq name "dgw"
    then some dgw
    else if str_eq name "digishield"
    then some digishield
    else none

-- Retargeter.CalcNextBits
unfoldable pub calc_next_bits : Retargeter → BlockHeader → ℕ → GetAncestor → ChainParams → ℕ
calc_next_bits bitcoin = bitcoin_next_bits
calc_next_bits lwma = lwma_next_bits
calc_next_bits dgw = dgw_next_bits
calc_next_bits digishield = digishield_next_bits
