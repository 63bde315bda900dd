-- ===== src/Types/VarInt/Agreement.antt =====
-- ReadVarIntFromBytes against ReadVarInt.
use go_chain.Prelude.{
  ℕ, Bool, ◌≡◌, [], ◌∷◌, arith, leb, length, Result, ok, err, Bool-cases, inl, inr, leb→le, Option,
  some, none,
}
use go_chain.Types.Bytes.{Bytes}
use go_chain.Types.Reader.{ReadError, read_full_enough, read_full_short}
use go_chain.Types.VarInt.{
  read_wide, below_fd, at_most_ffff, at_most_ffffffff, read_var_int, wide_from_bytes,
  read_var_int_from_bytes,
}

-- The value that a reader returned, the bytes left over and the kind of error forgotten.
abbrev pub value_read : Result ReadError (ℕ × Bytes) → Option ℕ
value_read (ok (v, rest)) = some v
value_read (err e) = none

abbrev pub value_of : Result ReadError ℕ → Option ℕ
value_of (ok v) = some v
value_of (err e) = none

wide_agrees :
    (width d : ℕ) (too_low : ℕ → Bool) (r : Bytes)
    → value_of (wide_from_bytes width too_low (d ∷ r)) ≡ value_read (read_wide width too_low r)
unfolding wide_from_bytes read_wide
wide_agrees width d too_low r = elim (Bool-cases (leb width (length r))) [
  | inl enough ↦ ground (arith, read_full_enough width r (leb→le width (length r) enough))
  | inr short ↦ let (e, h) = read_full_short width r (ground arith) in ground (arith, h)
]

-- On every input the two readers accept the same values: they refuse together, and what one
-- returns the other returns.
pub read_var_int_from_bytes_agrees :
    (r : Bytes) → value_of (read_var_int_from_bytes r) ≡ value_read (read_var_int r)
unfolding read_var_int_from_bytes read_var_int
read_var_int_from_bytes_agrees [] =
    let (e, h) = read_full_short 1 [] (omega arith) in ground (arith, h)
read_var_int_from_bytes_agrees (d ∷ r) = ground (
  arith,
  read_full_enough 1 (d ∷ r) (omega arith),
  wide_agrees 2 d below_fd r,
  wide_agrees 4 d at_most_ffff r,
  wide_agrees 8 d at_most_ffffffff r,
)
