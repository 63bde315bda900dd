-- ===== src/Crypto/Target/Work.antt =====
-- The work of a target, by which chains are compared.
use go_chain.Prelude.{ℕ, ◌+◌, ◌*◌, ◌/◌, ◌^◌, ◌≤◌, ◌<◌, ◌≡◌, false, ◌==◌, arith}
use native.Mathlib.Nat.{le-div_iff_mul-le, div-mul-le_self, mul-le-mul_left}
use go_chain.Crypto.Target.{compact_to_big, calc_work}
use go_chain.Crypto.Target.ProofOfWork.{compact_to_big-lt}

more : (a b : ℕ) → a ≤ b → a + 1 ≤ b + 1
more a b h = omega arith

-- Of two positive targets, the smaller one is worth at least the work of the other; and each is worth
-- at least one unit.
pub calc_work_antitone :
    (bits bits' : ℕ)
    → 0 < compact_to_big bits
    → compact_to_big bits ≤ compact_to_big bits'
    → (calc_work bits' ≤ calc_work bits) × (1 ≤ calc_work bits')
unfolding calc_work
calc_work_antitone bits bits' positive h =
    let t = compact_to_big bits in
    let t' = compact_to_big bits' in
    let all : ℕ = 2 ^ 256 in
    let less_work : all / (t' + 1) * (t + 1) ≤ all =
      omega (arith, div-mul-le_self all (t' + 1), mul-le-mul_left (all / (t' + 1)) (more t t' h)) in
    let enough : 1 * (t' + 1) ≤ all = omega (arith, compact_to_big-lt bits') in
    let some : (t == 0) ≡ false = ground arith in
    let some' : (t' == 0) ≡ false = ground arith in
    rw (some, some')
      ((le-div_iff_mul-le (omega arith)).1 less_work, (le-div_iff_mul-le (omega arith)).1 enough)
