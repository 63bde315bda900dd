-- ===== src/Params.antt =====
-- internal/params: the parameters of a network that consensus and the mempool read. A time.Duration is
-- its count of nanoseconds, which is not negative in any network. Names, ports and seeds are left out.
pub mod Subsidy
use go_chain.Prelude.{
  ℕ, ◌+◌, ◌/◌, ◌^◌, Bool, true, false, List, [], ◌∷◌, Option, some, none, leb, ◌==◌, if◌then◌else◌,
}
use Prim.Native.String.{String}
use text.Mathlib.Text.{◌==◌ as str_eq}

pub record ChainParams : Type 0 where
  pub retarget_interval : ℕ
  pub target_timespan : ℕ
  pub max_time_future_drift : ℕ
  pub min_timestamp_rule : String
  pub initial_bits : ℕ
  pub min_bits : ℕ
  pub no_retarget : Bool
  pub target_block_spacing : ℕ
  pub allow_min_difficulty_blocks : Bool
  pub max_block_size : ℕ
  pub max_block_tx_count : ℕ
  pub initial_subsidy : ℕ
  pub subsidy_halving_interval : ℕ
  pub coinbase_maturity : ℕ
  pub activation_heights : List (String × ℕ)
  pub max_mempool_size : ℕ
  pub min_relay_tx_fee : ℕ
  pub min_relay_tx_fee_rate : ℕ
  pub mempool_expiry : ℕ
  pub max_reorg_depth : ℕ

abbrev pub max_money_value : ℕ
max_money_value = 2_099_999_997_690_000

abbrev pub max_tx_size : ℕ
max_tx_size = 100_000

-- time.Second, in nanoseconds.
abbrev pub second : ℕ
second = 1_000_000_000

-- ChainParams.CalcSubsidy
unfoldable pub calc_subsidy : ChainParams → ℕ → ℕ
calc_subsidy p height =
    if p.subsidy_halving_interval == 0
    then p.initial_subsidy
    else let halvings = height / p.subsidy_halving_interval in
      if leb 64 halvings then 0 else p.initial_subsidy / 2 ^ halvings

-- A lookup in the map of activation heights.
unfoldable pub activation_height : String → List (String × ℕ) → Option ℕ
activation_height name [] = none
activation_height name ((n, h) ∷ hs) = if str_eq n name then some h else activation_height name hs
