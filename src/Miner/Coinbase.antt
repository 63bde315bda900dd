-- ===== src/Miner/Coinbase.antt =====
-- The validator accepts the coinbase that the miner builds.
use go_chain.Prelude.{
  ℕ, zero, suc, ◌/◌, ◌%◌, ◌^◌, ◌≤◌, ◌<◌, ◌≡◌, refl, ap, inl, inr, true, [], ◌∷◌, ◌++◌, ltb, ◌==◌,
  if◌then◌else◌, length, take, arith, ok, length-append, Bool-cases,
}
use go_chain.Types.Bytes.{Bytes, put_le, length-put_le}
use go_chain.Types.Transaction.{is_coinbase, is_zero, input_is_coinbase}
use go_chain.Consensus.Structure.{
  minimal_push_len, validate_coinbase_script_sig, check_coinbase_height,
}
use go_chain.Consensus.Structure.CoinbaseHeight.{
  height_push, validate_coinbase_script_sig-height_push, minimal_push_len-IsPushLen,
}
use go_chain.Miner.{coinbase_tag, minimal_height_push_len, coinbase_message, build_coinbase}

take-put_le : (n m v : ℕ) → n ≤ m → take n (put_le m v) ≡ put_le n v
unfolding put_le
take-put_le zero m v h = refl
take-put_le (suc n) zero v h = absurd (omega arith)
take-put_le (suc n) (suc m) v h = ap (λ t. (v % 256) ∷ t) (take-put_le n m (v / 256) (omega arith))

same_push_len : (height : ℕ) → minimal_height_push_len height ≡ minimal_push_len height
unfolding minimal_height_push_len minimal_push_len
same_push_len height = refl

-- What follows the height.
abbrev message_rest : ℕ → Bytes
message_rest extra_nonce = (if ltb 0 extra_nonce then put_le 4 extra_nonce else []) ++ coinbase_tag

message-eq :
    (height extra_nonce : ℕ)
    → height < 2 ^ 32
    → coinbase_message height extra_nonce ≡ height_push height ++ message_rest extra_nonce
unfolding coinbase_message
message-eq height extra_nonce h =
    let n = minimal_push_len height in
    let (low, high, fits) = minimal_push_len-IsPushLen height h in
    rw (same_push_len height, take-put_le n 4 height high) refl

length-message_rest : (extra_nonce : ℕ) → length (message_rest extra_nonce) ≤ 95
length-message_rest extra_nonce = elim (Bool-cases (ltb 0 extra_nonce)) [
  | inl extra ↦ rw extra (
      omega (arith, length-append (put_le 4 extra_nonce) coinbase_tag, length-put_le 4 extra_nonce))
  | inr none_used ↦ rw none_used (omega arith)
]

-- Whatever the reward, the script and the extra nonce, what buildCoinbaseWithExtra makes for a 32-bit
-- height is a coinbase, and carries that height as ValidateBlockStructure wants it.
pub check_coinbase_height-build_coinbase :
    (reward_script : Bytes) (height subsidy extra_nonce : ℕ)
    → height < 2 ^ 32
    → let tx = build_coinbase reward_script height subsidy extra_nonce in
      (is_coinbase tx ≡ true) × (check_coinbase_height height tx.inputs ≡ ok tt)
unfolding build_coinbase is_coinbase input_is_coinbase is_zero put_le check_coinbase_height
check_coinbase_height-build_coinbase reward_script height subsidy extra_nonce h =
    let accepted : validate_coinbase_script_sig (coinbase_message height extra_nonce) height
        ≡ ok tt =
      rw message-eq (
        validate_coinbase_script_sig-height_push height (message_rest extra_nonce) h
          (length-message_rest extra_nonce)) in
    (
      refl,
      elim (Bool-cases (height == 0)) [ inl start ↦ rw start refl | inr later ↦ rw later accepted ],
    )
