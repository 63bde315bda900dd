-- ===== src/Types/Bytes.antt =====
-- Byte slices as lists of numbers, and Go's encoding/binary little-endian words.
use go_chain.Prelude.{
  ℕ, zero, suc, ◌+◌, ◌*◌, ◌/◌, ◌%◌, ◌^◌, ◌<◌, ◌≡◌, refl, ap, List, [], ◌∷◌, arith, length, All,
}
use native.Mathlib.Nat.{pow-suc}

abbrev pub Bytes : Type 0
Bytes = List ℕ

abbrev pub IsByte : ℕ → Type 0
IsByte b = b < 256

abbrev pub AreBytes : Bytes → Type 0
AreBytes = All IsByte

-- `binary.LittleEndian.PutUint16/32/64` write `put_le` of 2, 4 and 8 bytes.
unfoldable pub put_le : ℕ → ℕ → Bytes
put_le zero v = []
put_le (suc n) v = (v % 256) ∷ put_le n (v / 256)

-- `binary.LittleEndian.Uint16/32/64`.
unfoldable pub get_le : Bytes → ℕ
get_le [] = 0
get_le (b ∷ bs) = b + 256 * get_le bs

pub length-put_le : (n v : ℕ) → length (put_le n v) ≡ n
unfolding put_le
length-put_le zero v = refl
length-put_le (suc n) v = ap suc (length-put_le n (v / 256))

pub put_le-AreBytes : (n v : ℕ) → AreBytes (put_le n v)
unfolding put_le
put_le-AreBytes zero v = tt
put_le-AreBytes (suc n) v = (omega arith, put_le-AreBytes n (v / 256))

pub get_le-put_le : (n v : ℕ) → v < 256 ^ n → get_le (put_le n v) ≡ v
unfolding put_le get_le
get_le-put_le zero v h = omega arith
get_le-put_le (suc n) v h = omega (arith, get_le-put_le n (v / 256) (omega (arith, pow-suc 256 n)))

pub get_le-lt : (bs : Bytes) → AreBytes bs → get_le bs < 256 ^ length bs
unfolding get_le
get_le-lt [] h = omega arith
get_le-lt (b ∷ bs) h = omega (arith, get_le-lt bs h.1, pow-suc 256 (length bs))

pub put_le-get_le : (bs : Bytes) → AreBytes bs → put_le (length bs) (get_le bs) ≡ bs
unfolding put_le get_le
put_le-get_le [] h = refl
put_le-get_le (b ∷ bs) h = ground (arith, put_le-get_le bs h.1)
