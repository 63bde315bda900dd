-- ===== src/Crypto/Target.antt =====
-- internal/crypto/target.go and the order of internal/types/hash.go. A big.Int that is not negative is
-- a natural number, and its Bytes are its digits to the base 256.
pub mod ProofOfWork
pub mod Work
pub mod Compact
use go_chain.Prelude.{
  ℕ, zero, suc, ◌+◌, ◌-◌, ◌*◌, ◌/◌, ◌%◌, ◌^◌, Bool, true, false, ◌&&◌, ◌||◌, not, List, leb, ltb,
  ◌==◌, if◌then◌else◌, get_or, Result, fail_if,
}
use go_chain.KeyMap.{bytes_eq}
use go_chain.Types.Bytes.{Bytes, put_le}
use go_chain.Types.Transaction.{Hash, hash_size}

-- The fields of the compact form: 23 bits of mantissa, a sign, and the exponent.
abbrev pub mantissa_of : ℕ → ℕ
mantissa_of compact = compact % 2 ^ 23

abbrev pub is_negative : ℕ → Bool
is_negative compact = compact / 2 ^ 23 % 2 == 1

abbrev pub exponent_of : ℕ → ℕ
exponent_of compact = compact / 2 ^ 24

unfoldable pub is_overflow : ℕ → ℕ → Bool
is_overflow mantissa exponent =
    not (mantissa == 0)
    && (ltb 34 exponent
        || (ltb 0xff mantissa && ltb 33 exponent)
        || (ltb 0xffff mantissa && ltb 32 exponent))

-- CompactToBig
unfoldable pub compact_to_big : ℕ → ℕ
unfolding is_overflow
compact_to_big compact =
    let mantissa = mantissa_of compact in
    let exponent = exponent_of compact in
    if is_negative compact || is_overflow mantissa exponent
    then 0
    else if leb exponent 3
    then mantissa / 2 ^ (8 * (3 - exponent))
    else mantissa * 2 ^ (8 * (exponent - 3))

-- CompactToHash: the 32 lowest bytes of the target, the lowest first.
unfoldable pub compact_to_hash : ℕ → Hash
unfolding compact_to_big
compact_to_hash compact = put_le hash_size (compact_to_big compact)

-- `for i := HashSize - 1; i >= 0; i--`, over the bytes below an index.
unfoldable pub less_below : Hash → Hash → ℕ → Bool
less_below h other zero = false
less_below h other (suc i) =
    let rest = less_below h other i in
    if ltb (get_or h i 0) (get_or other i 0)
    then true
    else if ltb (get_or other i 0) (get_or h i 0)
    then false
    else rest

-- Hash.Less and Hash.LessOrEqual
unfoldable pub less : Hash → Hash → Bool
less h other = less_below h other hash_size

unfoldable pub less_or_equal : Hash → Hash → Bool
unfolding less
less_or_equal h other = bytes_eq h other || less h other

-- CalcWork
unfoldable pub calc_work : ℕ → ℕ
unfolding compact_to_big
calc_work bits =
    let target = compact_to_big bits in if target == 0 then 0 else 2 ^ 256 / (target + 1)

pub data WorkError : Type 0 where
  hash_exceeds_target : WorkError

-- ValidateProofOfWork
unfoldable pub validate_proof_of_work : Hash → ℕ → Result WorkError (Unit {0})
validate_proof_of_work header_hash bits =
    fail_if (not (less_or_equal header_hash (compact_to_hash bits))) hash_exceeds_target
