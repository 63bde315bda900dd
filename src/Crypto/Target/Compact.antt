-- ===== src/Crypto/Target/Compact.antt =====
-- BigToCompact of internal/crypto/target.go, for targets that are not negative.
use go_chain.Prelude.{
  ℕ, zero, suc, ◌+◌, ◌-◌, ◌*◌, ◌/◌, ◌%◌, ◌^◌, ◌≤◌, ◌<◌, ◌≡◌, ap, ◌∙◌, true, false, ◌||◌, leb, ◌==◌,
  if◌then◌else◌, arith, Bool-cases, inl, inr,
}
use native.Mathlib.Nat.{pow-succ', mul_assoc, div-mul-le_self, mul-le-mul}
use go_chain.Crypto.Target.{mantissa_of, is_negative, exponent_of, is_overflow, compact_to_big}

-- `(t.BitLen() + 7) / 8`: the number of digits to the base 256. The number itself is fuel enough.
unfoldable pub byte_len : ℕ → ℕ → ℕ
byte_len zero t = 0
byte_len (suc k) t = elim (t == 0) [ true ↦ 0 | false ↦ suc (byte_len k (t / 256)) ]

-- The exponent, and the sign bit that a mantissa must not have.
unfoldable pub normalize : ℕ → ℕ → ℕ
normalize compact n =
    if compact / 2 ^ 23 % 2 == 1
    then compact / 256 + (n + 1) * 2 ^ 24 % 2 ^ 32
    else compact + n * 2 ^ 24 % 2 ^ 32

-- BigToCompact
unfoldable pub big_to_compact : ℕ → ℕ
unfolding byte_len normalize
big_to_compact target =
    if target == 0
    then 0
    else let n = byte_len target target in
      normalize
        (if leb n 3
          then target * 2 ^ (8 * (3 - n)) % 2 ^ 32
          else target / 2 ^ (8 * (n - 3)) % 2 ^ 24)
        n

lt→leb_false : (n m : ℕ) → m < n → leb n m ≡ false
lt→leb_false n m h = ground (arith, h)

byte_len-lt : (k t : ℕ) → t ≤ k → t < 256 ^ byte_len k t
unfolding byte_len
byte_len-lt zero t h = omega arith
byte_len-lt (suc k) t h = elim (Bool-cases (t == 0)) [
  | inl e ↦ rw (byte_len, e) (ground arith)
  | inr e ↦
      rw (byte_len, e)
        (let n = byte_len k (t / 256) in
          omega (arith, byte_len-lt k (t / 256) (ground arith), pow-succ' 256 n))
]

byte_len_le : (j k t : ℕ) → t < 256 ^ j → byte_len k t ≤ j
unfolding byte_len
byte_len_le j zero t h = omega arith
byte_len_le zero (suc k) t h = elim (Bool-cases (t == 0)) [
  | inl e ↦ rw (byte_len, e) (omega arith)
  | inr e ↦ ground arith
]
byte_len_le (suc j) (suc k) t h = elim (Bool-cases (t == 0)) [
  | inl e ↦ rw (byte_len, e) (omega arith)
  | inr e ↦
      rw (byte_len, e)
        (omega (arith, byte_len_le j k (t / 256) (omega (arith, h, pow-succ' 256 j))))
]

-- The value of a mantissa at an exponent, when neither the sign nor the size is in the way.
abbrev value_at : ℕ → ℕ → ℕ
value_at m e = if leb e 3 then m / 2 ^ (8 * (3 - e)) else m * 2 ^ (8 * (e - 3))

compact_to_big-value_at :
    (m e bound : ℕ) → m < 2 ^ 23 → value_at m e ≤ bound → compact_to_big (m + e * 2 ^ 24) ≤ bound
unfolding compact_to_big
compact_to_big-value_at m e bound small h =
    let c = m + e * 2 ^ 24 in
    let same_m : mantissa_of c ≡ m = omega arith in
    let same_e : exponent_of c ≡ e = omega arith in
    elim (Bool-cases (is_negative c || is_overflow (mantissa_of c) (exponent_of c))) [
      | inl none_left ↦ rw none_left (omega arith)
      | inr fits ↦ rw (fits, same_m, same_e) h
    ]

normalize_le :
    (m n bound : ℕ)
    → m < 2 ^ 24
    → n ≤ 100
    → value_at m n ≤ bound
    → value_at (m / 256) (n + 1) ≤ bound
    → compact_to_big (normalize m n) ≤ bound
unfolding normalize
normalize_le m n bound small few h h' =
    let kept : n * 2 ^ 24 % 2 ^ 32 ≡ n * 2 ^ 24 = omega (arith, few) in
    let kept' : (n + 1) * 2 ^ 24 % 2 ^ 32 ≡ (n + 1) * 2 ^ 24 = omega (arith, few) in
    elim (Bool-cases (m / 2 ^ 23 % 2 == 1)) [
      | inl high ↦
          rw (high, kept')
            (compact_to_big-value_at (m / 256) (n + 1) bound (omega (arith, small)) h')
      | inr low ↦ rw (low, kept) (compact_to_big-value_at m n bound (ground (arith, small, low)) h)
    ]

-- The three leading digits of a target, at its length.
abbrev leading : ℕ → ℕ → ℕ
leading t n = if leb n 3 then t * 2 ^ (8 * (3 - n)) % 2 ^ 32 else t / 2 ^ (8 * (n - 3)) % 2 ^ 24

abbrev eight_more : ℕ → ℕ
eight_more y = suc (suc (suc (suc (suc (suc (suc (suc y)))))))

pow_eight : (y : ℕ) → 2 ^ eight_more y ≡ 256 * 2 ^ y
pow_eight y =
    let y2 = suc (suc y) in
    let y4 = suc (suc y2) in
    let y6 = suc (suc y4) in
    omega (
      arith,
      pow-succ' 2 y,
      pow-succ' 2 (suc y),
      pow-succ' 2 y2,
      pow-succ' 2 (suc y2),
      pow-succ' 2 y4,
      pow-succ' 2 (suc y4),
      pow-succ' 2 y6,
      pow-succ' 2 (suc y6),
    )

-- Cut to 24 bits, and to 16, what is shifted down and up again is no larger.
cut_le : (t w : ℕ) → (t / w % 2 ^ 24 * w ≤ t) × (t / w % 2 ^ 24 / 256 * (256 * w) ≤ t)
cut_le t w =
    let d = t / w in
    let r = d % 2 ^ 24 in
    let less : r * w ≤ d * w = mul-le-mul (omega arith) (omega arith) in
    let less' : r / 256 * 256 * w ≤ r * w = mul-le-mul (omega arith) (omega arith) in
    (
      omega (arith, less, div-mul-le_self t w),
      omega (arith, less, less', div-mul-le_self t w, mul_assoc (r / 256) 256 w),
    )

-- Above three digits.
wide_le :
    (n t : ℕ) → 3 < n → n ≤ 32 → compact_to_big (normalize (t / 2 ^ (8 * (n - 3)) % 2 ^ 24) n) ≤ t
wide_le n t wide few =
    let w = 2 ^ (8 * (n - 3)) in
    let m = t / w % 2 ^ 24 in
    let next : 2 ^ (8 * (n + 1 - 3)) ≡ 256 * w =
      ap (λ i. 2 ^ i) (omega (arith, wide)) ∙ pow_eight (8 * (n - 3)) in
    let at : value_at m n ≤ t = rw (lt→leb_false n 3 wide) (cut_le t w).0 in
    let at' : value_at (m / 256) (n + 1) ≤ t =
      rw (lt→leb_false (n + 1) 3 (omega (arith, wide)), next) (cut_le t w).1 in
    normalize_le m n t (omega arith) (omega (arith, few)) at at'

big_to_compact_at :
    (n t : ℕ) → 0 < t → t < 256 ^ n → n ≤ 32 → compact_to_big (normalize (leading t n) n) ≤ t
big_to_compact_at zero t some_t h few = ground arith
big_to_compact_at (suc zero) t some_t h few =
    normalize_le (leading t 1) 1 t (omega arith) (omega arith) (omega arith) (omega arith)
big_to_compact_at (suc (suc zero)) t some_t h few =
    normalize_le (leading t 2) 2 t (omega arith) (omega arith) (omega arith) (omega arith)
big_to_compact_at (suc (suc (suc zero))) t some_t h few =
    normalize_le (leading t 3) 3 t (omega arith) (omega arith) (omega arith) (omega arith)
big_to_compact_at (suc (suc (suc (suc k)))) t some_t h few =
    let n = suc (suc (suc (suc k))) in
    rw (lt→leb_false n 3 (omega arith)) (wide_le n t (omega arith) (omega (arith, few)))

-- A target that is written as bits and read back is no larger, for targets below 2 ^ 256.
pub compact_to_big-big_to_compact : (t : ℕ) → t < 2 ^ 256 → compact_to_big (big_to_compact t) ≤ t
unfolding big_to_compact compact_to_big is_overflow
compact_to_big-big_to_compact t h = elim (Bool-cases (t == 0)) [
  | inl e ↦ rw e (omega arith)
  | inr e ↦ rw e (
      big_to_compact_at (byte_len t t) t (ground arith) (byte_len-lt t t (omega arith))
        (byte_len_le 32 t t (omega (arith, h))))
]
