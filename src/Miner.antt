-- ===== src/Miner.antt =====
-- internal/miner/miner.go: the coinbase that the miner builds, the transactions that it takes from the
-- mempool, the header that it prepares and the search for a nonce. `m.rewardScript`, the tip of the
-- chain and the clock are arguments.
pub mod Coinbase
pub mod Selection
pub mod Search
use go_chain.Prelude.{ℕ, Bool, List, [], ◌∷◌, ◌++◌, leb, ltb, if◌then◌else◌, take}
use go_chain.Types.Bytes.{Bytes, put_le}
use go_chain.Types.Transaction.{Transaction}

-- coinparams.CoinbaseTag, "fairchain" in ASCII.
abbrev pub coinbase_tag : Bytes
coinbase_tag = 0x66 ∷ 0x61 ∷ 0x69 ∷ 0x72 ∷ 0x63 ∷ 0x68 ∷ 0x61 ∷ 0x69 ∷ 0x6e ∷ []

-- minimalHeightPushLen
unfoldable pub minimal_height_push_len : ℕ → ℕ
minimal_height_push_len height =
    if leb height 0xFF
    then 1
    else if leb height 0xFFFF
    then 2
    else if leb height 0xFFFFFF
    then 3
    else 4

-- The signature script: the height, the extra nonce unless it is zero, and the tag.
unfoldable pub coinbase_message : ℕ → ℕ → Bytes
unfolding minimal_height_push_len
coinbase_message height extra_nonce =
    let push_len = minimal_height_push_len height in
    (push_len ∷ take push_len (put_le 4 height))
    ++ ((if ltb 0 extra_nonce then put_le 4 extra_nonce else []) ++ coinbase_tag)

-- buildCoinbaseWithExtra
unfoldable pub build_coinbase : Bytes → ℕ → ℕ → ℕ → Transaction
unfolding coinbase_message
build_coinbase reward_script height subsidy extra_nonce = record {
  version = 1;
  inputs =
      record {
        previous_out_point = record { hash = put_le 32 0; index = 0xFFFFFFFF };
        signature_script = coinbase_message height extra_nonce;
        sequence = 0xFFFFFFFF;
      }
      ∷ [];
  outputs = record { value = subsidy; pk_script = reward_script } ∷ [];
  lock_time = 0;
}
