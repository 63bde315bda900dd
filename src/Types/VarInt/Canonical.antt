-- ===== src/Types/VarInt/Canonical.antt =====
-- Every uint64 has exactly one encoding that the readers accept.
use go_chain.Prelude.{ℕ, Bool, false, ◌%◌, ◌^◌, ◌<◌, ◌≡◌, refl, [], ◌∷◌, ◌++◌, arith, length, ok}
use go_chain.Types.Bytes.{
  Bytes, AreBytes, put_le, length-put_le, get_le-put_le, put_le-get_le, get_le-lt, put_le-AreBytes,
}
use go_chain.Types.Reader.{read_full, read_full-append, read_full-eq_ok, after}
use go_chain.Types.VarInt.{
  put_var_int, var_int_size, read_wide, below_fd, at_most_ffff, at_most_ffffffff, read_var_int,
}

read_full_byte : (d : ℕ) (rest : Bytes) → read_full 1 (d ∷ rest) ≡ ok (d ∷ [], rest)
read_full_byte d rest = read_full-append 1 (d ∷ []) rest refl

read_wide-append :
    (width v : ℕ) (too_low : ℕ → Bool) (rest : Bytes)
    → v < 256 ^ width
    → too_low v ≡ false
    → read_wide width too_low (put_le width v ++ rest) ≡ ok (v, rest)
unfolding read_wide
read_wide-append width v too_low rest h e = ground (
  arith,
  read_full-append width (put_le width v) rest (length-put_le width v),
  get_le-put_le width v h,
)

-- ReadVarInt reads back the uint64 that PutVarInt wrote, and leaves what follows it.
pub read_var_int-put_var_int :
    (v : ℕ) (rest : Bytes) → v < 2 ^ 64 → read_var_int (put_var_int v ++ rest) ≡ ok (v, rest)
unfolding read_var_int put_var_int
read_var_int-put_var_int v rest h = ground (
  arith,
  read_full_byte v rest,
  read_full_byte 0xFD (put_le 2 v ++ rest),
  read_full_byte 0xFE (put_le 4 v ++ rest),
  read_full_byte 0xFF (put_le 8 v ++ rest),
  read_wide-append 2 v below_fd rest,
  read_wide-append 4 v at_most_ffff rest,
  read_wide-append 8 v at_most_ffffffff rest,
)

read_wide-eq_ok :
    (width v : ℕ) (too_low : ℕ → Bool) (r : Bytes) (rest : Bytes)
    → AreBytes r
    → read_wide width too_low r ≡ ok (v, rest)
    → (r ≡ put_le width v ++ rest) × (v < 256 ^ width) × (too_low v ≡ false) × AreBytes rest
unfolding read_wide
read_wide-eq_ok width v too_low r rest h e = after (read_full width) _ r e λ buf r' e' f.
    let (parts, len, bytes, bytes') = read_full-eq_ok width r h e' in
    ground (arith, put_le-get_le buf bytes, get_le-lt buf bytes)

-- Whatever ReadVarInt accepts is the encoding that PutVarInt writes of a uint64, followed by the rest.
pub read_var_int-eq_ok :
    (v : ℕ) (r rest : Bytes)
    → AreBytes r
    → read_var_int r ≡ ok (v, rest)
    → (r ≡ put_var_int v ++ rest) × (v < 2 ^ 64) × AreBytes rest
unfolding read_var_int put_var_int
read_var_int-eq_ok v [] rest h e = unfold read_full in ground arith
read_var_int-eq_ok v (d ∷ r) rest h e = ground (
  arith,
  read_full_byte d r,
  read_wide-eq_ok 2 v below_fd r rest h.1,
  read_wide-eq_ok 4 v at_most_ffff r rest h.1,
  read_wide-eq_ok 8 v at_most_ffffffff r rest h.1,
)

-- VarIntSize is the number of bytes that PutVarInt returns.
pub length-put_var_int : (v : ℕ) → length (put_var_int v) ≡ var_int_size v
unfolding put_var_int var_int_size
length-put_var_int v =
    ground (arith, length-put_le 2 (v % 2 ^ 16), length-put_le 4 (v % 2 ^ 32), length-put_le 8 v)

pub put_var_int-AreBytes : (v : ℕ) → AreBytes (put_var_int v)
unfolding put_var_int
put_var_int-AreBytes v =
    ground
      (arith, put_le-AreBytes 2 (v % 2 ^ 16), put_le-AreBytes 4 (v % 2 ^ 32), put_le-AreBytes 8 v)
