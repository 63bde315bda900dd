-- ===== src/Consensus/Pow/Mining.antt =====
-- The nonce search, and that what it finds is accepted.
use go_chain.Prelude.{
  ℕ, zero, suc, ◌+◌, ◌%◌, ◌^◌, ◌<◌, ◌≡◌, refl, sym, ap, ◌∙◌, subst, Bool, true, false, ◌==◌, arith,
  ok, Bool-cases, inl, inr,
}
use go_chain.KeyMap.{bytes_eq, bytes_eq_self}
use go_chain.Types.Bytes.{Bytes}
use go_chain.Types.Transaction.{Hash}
use go_chain.Types.Block.{BlockHeader, serialize_header}
use go_chain.Crypto.Hash.{hash_block_header}
use go_chain.Crypto.Target.{less_or_equal, compact_to_hash, validate_proof_of_work}
use go_chain.Params.{ChainParams}
use go_chain.Consensus.Timestamps.{GetAncestor}
use go_chain.Consensus.Pow.{
  Engine, validate_header, prepare_header, seal_header, calc_expected_bits,
}

abbrev pub with_nonce : BlockHeader → ℕ → BlockHeader
with_nonce h nonce = record h { nonce = nonce }

abbrev pub is_solution : Engine → BlockHeader → Hash → Bool
is_solution e h target = less_or_equal (e.pow_hash (serialize_header h)) target

abbrev pub Found : Engine → BlockHeader → Hash → BlockHeader × Bool → Type 0
Found e h target r =
    (r.1 ≡ true) → (is_solution e r.0 target ≡ true) × (r.0 ≡ with_nonce h r.0.nonce)

abbrev next_nonce : BlockHeader → BlockHeader
next_nonce h = with_nonce h ((h.nonce + 1) % 2 ^ 32)

seal_header-solved :
    (e : Engine) (h : BlockHeader) (target : Hash) (n : ℕ)
    → is_solution e h target ≡ true
    → seal_header e h target (suc n) ≡ (h, true)
unfolding seal_header
seal_header-solved e h target n solved = rw (seal_header, solved) refl

seal_header-wrapped :
    (e : Engine) (h : BlockHeader) (target : Hash) (n : ℕ)
    → is_solution e h target ≡ false
    → ((next_nonce h).nonce == 0) ≡ true
    → seal_header e h target (suc n) ≡ (next_nonce h, false)
unfolding seal_header
seal_header-wrapped e h target n unsolved wrapped = rw (seal_header, unsolved, wrapped) refl

seal_header-next :
    (e : Engine) (h : BlockHeader) (target : Hash) (n : ℕ)
    → is_solution e h target ≡ false
    → ((next_nonce h).nonce == 0) ≡ false
    → seal_header e h target (suc n) ≡ seal_header e (next_nonce h) target n
unfolding seal_header
seal_header-next e h target n unsolved goes_on = rw (seal_header, unsolved, goes_on) refl

pub seal_header-Found :
    (e : Engine) (h : BlockHeader) (target : Hash) (n : ℕ)
    → Found e h target (seal_header e h target n)
seal_header-Found e h target zero = unfold seal_header in λ f. cc
seal_header-Found e h target (suc n) = elim (Bool-cases (is_solution e h target)) [
  | inl solved ↦ rw (seal_header-solved e h target n solved) (λ f. (solved, refl))
  | inr unsolved ↦
      let next = with_nonce h ((h.nonce + 1) % 2 ^ 32) in
      elim (Bool-cases (next.nonce == 0)) [
        | inl wrapped ↦ rw (seal_header-wrapped e h target n unsolved wrapped) (λ f. cc)
        | inr goes_on ↦
            rw (seal_header-next e h target n unsolved goes_on) (seal_header-Found e next target n)
      ]
]

-- If one of the next nonces solves the header, within the iterations allowed and before the nonce wraps,
-- SealHeader reports a solution.
pub seal_header_complete :
    (e : Engine) (h : BlockHeader) (target : Hash) (max_iterations k : ℕ)
    → k < max_iterations
    → h.nonce + k < 2 ^ 32
    → is_solution e (with_nonce h (h.nonce + k)) target ≡ true
    → (seal_header e h target max_iterations).1 ≡ true
seal_header_complete e h target zero k lt fits s = absurd (omega arith)
seal_header_complete e h target (suc n) zero lt fits s =
    let here : is_solution e h target ≡ true =
      subst (λ m. is_solution e (with_nonce h m) target ≡ true) (omega arith) s in
    ap (λ (r : BlockHeader × Bool). r.1) (seal_header-solved e h target n here)
seal_header_complete e h target (suc n) (suc k) lt fits s =
    elim (Bool-cases (is_solution e h target)) [
      | inl solved ↦ ap (λ (r : BlockHeader × Bool). r.1) (seal_header-solved e h target n solved)
      | inr unsolved ↦
          let next = with_nonce h ((h.nonce + 1) % 2 ^ 32) in
          let goes_on : (next.nonce == 0) ≡ false = ground (arith, fits) in
          let same : h.nonce + suc k ≡ next.nonce + k = omega (arith, fits) in
          ap (λ (r : BlockHeader × Bool). r.1) (seal_header-next e h target n unsolved goes_on)
          ∙ (seal_header_complete e next target n k (omega (arith, lt)) (omega (arith, fits))
              (subst (λ m. is_solution e (with_nonce h m) target ≡ true) same s))
    ]

module _ (sha256 : Bytes → Bytes) (e : Engine) (header parent : BlockHeader) (parent_height : ℕ)
    (get_ancestor : GetAncestor) (p : ChainParams) where
  -- The header that is to be mined.
  abbrev prepared : BlockHeader
  prepared = prepare_header e header parent parent_height get_ancestor p

  solution-accepted :
      (nonce : ℕ)
      → header.prev_block ≡ hash_block_header sha256 parent
      → is_solution e (with_nonce prepared nonce) (compact_to_hash prepared.bits) ≡ true
      → validate_header sha256 e
          (with_nonce prepared nonce)
          parent
          ((parent_height + 1) % 2 ^ 32)
          get_ancestor
          p
        ≡ ok tt
  unfolding validate_header prepare_header validate_proof_of_work
  solution-accepted nonce linked solved =
      let bits =
        calc_expected_bits e header.timestamp parent ((parent_height + 1) % 2 ^ 32) get_ancestor
          p in
      let same_prev : bytes_eq header.prev_block (hash_block_header sha256 parent) ≡ true =
        subst (λ b. bytes_eq header.prev_block b ≡ true) linked (bytes_eq_self header.prev_block) in
      let same_bits : (bits == bits) ≡ true = ground arith in rw (same_prev, same_bits, solved) refl

  -- A header that PrepareHeader prepared on a parent, whose hash it carries, and for which SealHeader
  -- reports a solution against the target of its bits, is accepted by ValidateHeader on that parent at
  -- the next height.
  pub validate_header-seal_header :
      (max_iterations : ℕ)
      → header.prev_block ≡ hash_block_header sha256 parent
      → let h = prepare_header e header parent parent_height get_ancestor p in
        let r = seal_header e h (compact_to_hash h.bits) max_iterations in
        r.1 ≡ true
        → validate_header sha256 e r.0 parent ((parent_height + 1) % 2 ^ 32) get_ancestor p ≡ ok tt
  validate_header-seal_header max_iterations linked found =
      let r = seal_header e prepared (compact_to_hash prepared.bits) max_iterations in
      let (solved, same) =
        seal_header-Found e prepared (compact_to_hash prepared.bits) max_iterations found in
      subst
        (λ h.
          validate_header sha256 e h parent ((parent_height + 1) % 2 ^ 32) get_ancestor p ≡ ok tt)
        (sym same)
        (solution-accepted r.0.nonce linked
          (subst (λ h. is_solution e h (compact_to_hash prepared.bits) ≡ true) same solved))
