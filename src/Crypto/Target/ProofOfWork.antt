-- ===== src/Crypto/Target/ProofOfWork.antt =====
-- The byte-wise test of a hash against a target is a comparison of numbers.
use go_chain.Prelude.{
  ℕ, zero, suc, ◌+◌, ◌-◌, ◌*◌, ◌^◌, ◌≤◌, ◌<◌, ◌≡◌, ◌≢◌, refl, sym, ap, ◌∙◌, subst, inl, inr, false,
  ◌||◌, not, [], ◌∷◌, leb, ltb, length, take, get_or, arith, fail_if, Bool-cases, ltb→lt, lt→ltb,
  ltb_false→le, leb→le, le→leb, leb_false→lt, All-take, length-take_le,
}
use native.Mathlib.Nat.{
  pow-succ', mul_assoc, pow-le-pow_right, mul-le-mul_left, mul-le-mul, mul-suc, div-le_self,
  zero-mul,
}
use go_chain.KeyMap.{bytes_eq, bytes_eq→eq, bytes_eq_self}
use go_chain.Types.Bytes.{
  Bytes, AreBytes, put_le, get_le, get_le-lt, get_le-put_le, put_le-get_le, length-put_le,
  put_le-AreBytes,
}
use go_chain.Types.Transaction.{Hash, IsHash}
use go_chain.Crypto.Target.{
  mantissa_of, is_negative, exponent_of, is_overflow, compact_to_big, compact_to_hash, less_below,
  less, less_or_equal, hash_exceeds_target, validate_proof_of_work,
}

get_le-take-suc :
    (i : ℕ) (h : Bytes)
    → i < length h
    → get_le (take (suc i) h) ≡ get_le (take i h) + 256 ^ i * get_or h i 0
unfolding get_le
get_le-take-suc i [] lt = absurd (omega arith)
get_le-take-suc zero (b ∷ h) lt = omega arith
get_le-take-suc (suc i) (b ∷ h) lt =
    let g = get_or h i 0 in
    let digit : 256 ^ suc i * g ≡ 256 * (256 ^ i * g) =
      ap (λ w. w * g) (pow-succ' 256 i) ∙ mul_assoc 256 (256 ^ i) g in
    omega (arith, digit, get_le-take-suc i h (omega arith))

get_or-IsByte : (i : ℕ) (h : Bytes) → AreBytes h → get_or h i 0 < 256
get_or-IsByte i [] a = omega arith
get_or-IsByte zero (b ∷ h) a = a.0
get_or-IsByte (suc i) (b ∷ h) a = get_or-IsByte i h a.1

-- The higher digit decides.
higher_digit : (lo lo' w x y : ℕ) → lo < w → x < y → lo + w * x < lo' + w * y
higher_digit lo lo' w x y small lt =
    let next : suc x ≤ y = omega (arith, lt) in
    omega (arith, small, mul-le-mul_left w next, mul-suc w x)

ltb-add : (a b c : ℕ) → ltb a b ≡ ltb (a + c) (b + c)
ltb-add a b c = elim (Bool-cases (ltb a b)) [
  | inl lt ↦ rw lt (sym (lt→ltb (a + c) (b + c) (omega (arith, ltb→lt a b lt))))
  | inr ge ↦ rw ge (ground (arith, ltb_false→le a b ge))
]

-- Below an index, the walk compares the numbers that the lower bytes stand for.
less_below-eq :
    (h other : Hash) (i : ℕ)
    → AreBytes h
    → AreBytes other
    → i ≤ length h
    → i ≤ length other
    → less_below h other i ≡ ltb (get_le (take i h)) (get_le (take i other))
unfolding less_below get_le
less_below-eq h other zero a b p q = refl
less_below-eq h other (suc i) a b p q =
    let x = get_or h i 0 in
    let y = get_or other i 0 in
    let lo = get_le (take i h) in
    let lo' = get_le (take i other) in
    let w = 256 ^ i in
    let up = get_le-take-suc i h (omega arith) in
    let up' = get_le-take-suc i other (omega arith) in
    let small : lo < w =
      subst (λ n. lo < 256 ^ n) (length-take_le i h (omega arith))
        (get_le-lt (take i h) (All-take _ i h a)) in
    let small' : lo' < w =
      subst (λ n. lo' < 256 ^ n) (length-take_le i other (omega arith))
        (get_le-lt (take i other) (All-take _ i other b)) in
    let rest = less_below-eq h other i a b (omega arith) (omega arith) in
    elim (Bool-cases (ltb x y)) [
      | inl below ↦
          rw (below, up, up')
            (sym (lt→ltb _ _ (higher_digit lo lo' w x y small (ltb→lt x y below))))
      | inr not_below ↦ elim (Bool-cases (ltb y x)) [
        | inl above ↦
            rw (not_below, above, up, up')
              (sym (ground (arith, higher_digit lo' lo w y x small' (ltb→lt y x above))))
        | inr not_above ↦
            let same : x ≡ y =
              omega (arith, ltb_false→le x y not_below, ltb_false→le y x not_above) in
            rw (not_below, not_above, up, up', same, rest) (ltb-add lo lo' (w * y))
      ]
    ]

take-all : (n : ℕ) (xs : Bytes) → length xs ≡ n → take n xs ≡ xs
take-all n xs e = subst (λ m. take m xs ≡ xs) e (take_length xs)
  where
    take_length : (ys : Bytes) → take (length ys) ys ≡ ys
    take_length [] = refl
    take_length (y ∷ ys) = ap (λ t. y ∷ t) (take_length ys)

pub less-eq :
    (h other : Hash) → IsHash h → IsHash other → less h other ≡ ltb (get_le h) (get_le other)
unfolding less
less-eq h other v w =
    less_below-eq h other 32 v.1 w.1 (omega (arith, v.0)) (omega (arith, w.0))
    ∙ rw (take-all 32 h v.0, take-all 32 other w.0) refl

get_le-injective :
    (a b : Bytes) → AreBytes a → AreBytes b → length a ≡ length b → get_le a ≡ get_le b → a ≡ b
get_le-injective a b v w len e = sym (put_le-get_le a v) ∙ rw (len, e) (put_le-get_le b w)

ltb-ne : (a b : ℕ) → a ≢ b → ltb a b ≡ leb a b
ltb-ne a b ne = elim (Bool-cases (ltb a b)) [
  | inl lt ↦ rw lt (sym (le→leb a b (omega (arith, ltb→lt a b lt))))
  | inr ge ↦ elim (Bool-cases (leb a b)) [
    | inr gt ↦ rw (ge, gt) refl
    | inl le ↦
        let same : a ≡ b = omega (arith, ltb_false→le a b ge, leb→le a b le) in absurd (ne same)
  ]
]

-- Hash.LessOrEqual is the order of the numbers that the two hashes stand for, the lowest byte first.
less_or_equal-eq :
    (h other : Hash)
    → IsHash h
    → IsHash other
    → less_or_equal h other ≡ leb (get_le h) (get_le other)
unfolding less_or_equal
less_or_equal-eq h other v w = elim (Bool-cases (bytes_eq h other)) [
  | inl same ↦
      let value : get_le h ≡ get_le other = ap get_le (bytes_eq→eq h other same) in
      rw (same, value) (ground arith)
  | inr differ ↦
      let distinct : get_le h ≢ get_le other = λ e.
        let same : h ≡ other = get_le-injective h other v.1 w.1 (v.0 ∙ sym w.0) e in
        cc (differ, bytes_eq_self h, same) in
      rw (differ, less-eq h other v w) (ltb-ne (get_le h) (get_le other) distinct)
]

shift-lt :
    (m k most width : ℕ) → m ≤ most → k ≤ width → most * 2 ^ width < 2 ^ 256 → m * 2 ^ k < 2 ^ 256
shift-lt m k most width h w fits =
    omega (arith, fits, mul-le-mul h (pow-le-pow_right {n = 2} (omega arith) w))

mantissa-lt : (m e : ℕ) → m < 2 ^ 23 → is_overflow m e ≡ false → m * 2 ^ (8 * (e - 3)) < 2 ^ 256
unfolding is_overflow
mantissa-lt zero e small fits = omega (arith, zero-mul (2 ^ (8 * (e - 3))))
mantissa-lt (suc m) e small fits = elim (Bool-cases (leb e 32)) [
  | inl low ↦
      shift-lt (suc m) (8 * (e - 3)) 8388607 232 (omega arith) (omega (arith, leb→le e 32 low))
        (omega arith)
  | inr high ↦ elim (Bool-cases (leb e 33)) [
    | inl middle ↦
        shift-lt (suc m) (8 * (e - 3)) 65535 240
          (ground (arith, fits, leb_false→lt e 32 high, leb→le e 33 middle))
          (omega (arith, leb→le e 33 middle)) (omega arith)
    | inr top ↦
        shift-lt (suc m) (8 * (e - 3)) 255 248 (ground (arith, fits, leb_false→lt e 33 top))
          (ground (arith, fits)) (omega arith)
  ]
]

-- A target is below 2 ^ 256.
pub compact_to_big-lt : (compact : ℕ) → compact_to_big compact < 2 ^ 256
unfolding compact_to_big
compact_to_big-lt compact =
    let m = mantissa_of compact in
    let e = exponent_of compact in
    let small : m < 2 ^ 23 = omega arith in
    elim (Bool-cases (is_negative compact || is_overflow m e)) [
      | inl none_left ↦ rw none_left (omega arith)
      | inr fits ↦ elim (Bool-cases (leb e 3)) [
        | inl low ↦ rw (fits, low) (omega (arith, small, div-le_self m (2 ^ (8 * (3 - e)))))
        | inr high ↦ rw (fits, high) (mantissa-lt m e small (ground (arith, fits)))
      ]
    ]

-- For every 32-byte hash and every bits, ValidateProofOfWork accepts exactly when the number that the
-- hash stands for is at most the target that CompactToBig gives.
pub validate_proof_of_work-eq :
    (header_hash : Hash) (bits : ℕ)
    → IsHash header_hash
    → validate_proof_of_work header_hash bits
      ≡ fail_if (not (leb (get_le header_hash) (compact_to_big bits))) hash_exceeds_target
unfolding validate_proof_of_work compact_to_hash
validate_proof_of_work-eq header_hash bits v =
    let target = compact_to_big bits in
    let w : IsHash (put_le 32 target) = (length-put_le 32 target, put_le-AreBytes 32 target) in
    ap (λ b. fail_if (not b) hash_exceeds_target)
      (less_or_equal-eq header_hash (put_le 32 target) v w
        ∙ ap (leb (get_le header_hash))
            (get_le-put_le 32 target (omega (arith, compact_to_big-lt bits))))
