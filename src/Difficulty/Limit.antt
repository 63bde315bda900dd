-- ===== src/Difficulty/Limit.antt =====
-- No retargeter goes above the target of MinBits.
use go_chain.Prelude.{
  ℕ, ◌+◌, ◌-◌, ◌%◌, ◌^◌, ◌≤◌, Bool, true, false, not, Option, some, none, ltb, ◌==◌, if◌then◌else◌,
  arith, Bool-cases, inl, inr,
}
use go_chain.Types.Block.{BlockHeader}
use go_chain.Crypto.Target.{compact_to_big}
use go_chain.Crypto.Target.Compact.{compact_to_big-big_to_compact}
use go_chain.Crypto.Target.ProofOfWork.{compact_to_big-lt}
use go_chain.Params.{ChainParams}
use go_chain.Consensus.Timestamps.{GetAncestor}
use go_chain.Difficulty.{
  clamp_target, bitcoin_next_bits, digishield_next_bits, sum_back, dgw_next_bits, window,
  lwma_next_bits, Retargeter, bitcoin, lwma, dgw, digishield, calc_next_bits,
}

module _ (p : ChainParams) where
  -- Bits whose target is not above that of MinBits.
  abbrev pub IsLow : ℕ → Type 0
  IsLow bits = compact_to_big bits ≤ compact_to_big p.min_bits

  clamp_target-IsLow : (t : ℕ) → IsLow (clamp_target p t)
  unfolding clamp_target
  clamp_target-IsLow t =
      let most = compact_to_big p.min_bits in
      let floored = if t == 0 then 1 else t in
      let small = compact_to_big-lt p.min_bits in
      elim (Bool-cases (ltb most floored)) [
        | inl above ↦ rw above (compact_to_big-big_to_compact most small)
        | inr within ↦ rw within (
            let fits : floored ≤ most = ground (arith, within) in
            omega (arith, fits, compact_to_big-big_to_compact floored (omega (arith, fits, small))))
      ]

  if-IsLow : (b : Bool) (x y : ℕ) → IsLow x → IsLow y → IsLow (if b then x else y)
  if-IsLow true x y h h' = h
  if-IsLow false x y h h' = h'

  option-IsLow :
      {A : Type 0} (o : Option A) (x : ℕ) (f : A → ℕ)
      → IsLow x
      → ((a : A) → IsLow (f a))
      → IsLow (elim o [ none ↦ x | some a ↦ f a ])
  option-IsLow none x f h k = h
  option-IsLow (some a) x f h k = k a

  module _ (tip : BlockHeader) (tip_height : ℕ) (get_ancestor : GetAncestor) (low : IsLow tip.bits)
      (low_initial : IsLow p.initial_bits) where
    bitcoin_next_bits-IsLow : IsLow (bitcoin_next_bits tip tip_height get_ancestor p)
    unfolding bitcoin_next_bits
    bitcoin_next_bits-IsLow = if-IsLow p.no_retarget p.initial_bits _ low_initial (
        if-IsLow (not ((tip_height + 1) % 2 ^ 32 % p.retarget_interval == 0)) tip.bits _ low (
          option-IsLow (get_ancestor ((tip_height + 2 ^ 32 - (p.retarget_interval - 1)) % 2 ^ 32))
            tip.bits _ low λ first. clamp_target-IsLow _))

    digishield_next_bits-IsLow : IsLow (digishield_next_bits tip tip_height get_ancestor p)
    unfolding digishield_next_bits
    digishield_next_bits-IsLow = if-IsLow p.no_retarget p.initial_bits _ low_initial (
        if-IsLow (ltb tip_height 1) p.initial_bits _ low_initial (
          option-IsLow (get_ancestor (tip_height - 1)) tip.bits _ low λ prev. clamp_target-IsLow _))

    dgw_next_bits-IsLow : IsLow (dgw_next_bits tip tip_height get_ancestor p)
    unfolding dgw_next_bits
    dgw_next_bits-IsLow =
        let n = p.retarget_interval in
        if-IsLow p.no_retarget p.initial_bits _ low_initial (
          if-IsLow (ltb tip_height n) p.initial_bits _ low_initial (
            option-IsLow (if n == 0 then some 0 else sum_back (n - 1) tip tip_height get_ancestor)
              tip.bits _ low
              λ sum_target.
                option-IsLow (get_ancestor (tip_height - n)) tip.bits _ low
                  λ window_start. clamp_target-IsLow _))

    lwma_next_bits-IsLow : IsLow (lwma_next_bits tip tip_height get_ancestor p)
    unfolding lwma_next_bits
    lwma_next_bits-IsLow =
        let n = p.retarget_interval in
        if-IsLow p.no_retarget p.initial_bits _ low_initial (
          if-IsLow (ltb tip_height n) p.initial_bits _ low_initial (
            option-IsLow (window (n + 1) (tip_height - n) get_ancestor) tip.bits _ low
              λ headers. clamp_target-IsLow _))

-- Whatever the timestamps and the history are, none of the four retargeters gives bits with a target
-- above that of MinBits, if neither the bits of the tip nor InitialBits are above it: the conversion to
-- bits only rounds down.
pub calc_next_bits-IsLow :
    (r : Retargeter) (p : ChainParams) (tip : BlockHeader) (tip_height : ℕ)
    (get_ancestor : GetAncestor)
    → IsLow p tip.bits
    → IsLow p p.initial_bits
    → IsLow p (calc_next_bits r tip tip_height get_ancestor p)
unfolding calc_next_bits
calc_next_bits-IsLow bitcoin p tip n get_ancestor low first =
    bitcoin_next_bits-IsLow p tip n get_ancestor low first
calc_next_bits-IsLow lwma p tip n get_ancestor low first =
    lwma_next_bits-IsLow p tip n get_ancestor low first
calc_next_bits-IsLow dgw p tip n get_ancestor low first =
    dgw_next_bits-IsLow p tip n get_ancestor low first
calc_next_bits-IsLow digishield p tip n get_ancestor low first =
    digishield_next_bits-IsLow p tip n get_ancestor low first
