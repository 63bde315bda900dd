-- ===== src/Types/VarInt.antt =====
-- The compact size of internal/types/transaction.go: PutVarInt, ReadVarInt, ReadVarIntFromBytes and
-- VarIntSize. A uint64 is a number below 2 ^ 64.
pub mod Canonical
pub mod Agreement
use go_chain.Prelude.{
  ℕ, Bool, zero, suc, ◌+◌, ◌*◌, ◌%◌, ◌^◌, ◌≤◌, ◌<◌, ◌≡◌, refl, sym, ap, ◌∙◌, List, [], ◌∷◌, ◌++◌,
  arith, ltb, leb, ◌==◌, if◌then◌else◌, length, take, drop, get_or, Result, ok, err, Bool-cases,
  inl, inr, All,
}
use go_chain.Types.Bytes.{Bytes, AreBytes, put_le, get_le}
use go_chain.Types.Reader.{
  Reader, ReadError, pure, fail, ◌>>=◌, ◌>>◌, fail_if, read_full, eof, unexpected_eof,
  non_canonical, empty_varint, short_varint,
}

-- PutVarInt: the bytes that it stores at the front of its buffer.
unfoldable pub put_var_int : ℕ → Bytes
put_var_int val =
    if ltb val 0xFD
    then (val % 256) ∷ []
    else if leb val 0xFFFF
    then 0xFD ∷ put_le 2 (val % 2 ^ 16)
    else if leb val 0xFFFFFFFF
    then 0xFE ∷ put_le 4 (val % 2 ^ 32)
    else 0xFF ∷ put_le 8 val

unfoldable pub var_int_size : ℕ → ℕ
var_int_size val =
    if ltb val 0xFD then 1 else if leb val 0xFFFF then 3 else if leb val 0xFFFFFFFF then 5 else 9

-- One wide case of ReadVarInt: `width` bytes, refused where a shorter form would have done.
read_wide : ℕ → (ℕ → Bool) → Reader ℕ
read_wide width too_low = do
  buf ← read_full width
  let val = get_le buf
  fail_if (too_low val) non_canonical
  pure val

abbrev below_fd : ℕ → Bool
below_fd val = ltb val 0xFD

abbrev at_most_ffff : ℕ → Bool
at_most_ffff val = leb val 0xFFFF

abbrev at_most_ffffffff : ℕ → Bool
at_most_ffffffff val = leb val 0xFFFFFFFF

unfoldable pub read_var_int : Reader ℕ
unfolding read_wide
read_var_int = do
  discriminant ← read_full 1
  let d = get_or discriminant 0 0
  if d == 0xFD
      then read_wide 2 below_fd
      else if d == 0xFE
      then read_wide 4 at_most_ffff
      else if d == 0xFF
      then read_wide 8 at_most_ffffffff
      else pure d

-- One wide case of ReadVarIntFromBytes: the bytes `data[1:1+width]`.
wide_from_bytes : ℕ → (ℕ → Bool) → Bytes → Result ReadError ℕ
wide_from_bytes width too_low xs =
    let val = get_le (take width (drop 1 xs)) in
    if ltb (length xs) (1 + width)
    then err short_varint
    else if too_low val
    then err non_canonical
    else ok val

unfoldable pub read_var_int_from_bytes : Bytes → Result ReadError ℕ
unfolding wide_from_bytes
read_var_int_from_bytes [] = err empty_varint
read_var_int_from_bytes (d ∷ rest) =
    if d == 0xFD
    then wide_from_bytes 2 below_fd (d ∷ rest)
    else if d == 0xFE
    then wide_from_bytes 4 at_most_ffff (d ∷ rest)
    else if d == 0xFF
    then wide_from_bytes 8 at_most_ffffffff (d ∷ rest)
    else ok d
