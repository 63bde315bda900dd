-- ===== src/Consensus/Structure/CoinbaseHeight.antt =====
-- The height that a coinbase carries.
use go_chain.Prelude.{
  ℕ, ◌+◌, ◌≤◌, ◌<◌, ◌^◌, ◌≡◌, sym, ap, ◌∙◌, false, ◌||◌, not, [], ◌∷◌, ◌++◌, leb, ltb, ◌==◌, length,
  take, drop, arith, ok, after_test, fail_if-eq-ok, subst, Bool-cases, inl, inr, leb→le,
  take-append-drop, length-take_le, All-take, ==_iff, ltb_false→le, take-append_self, length-append,
}
use go_chain.Types.Bytes.{
  Bytes, AreBytes, put_le, get_le, put_le-get_le, get_le-put_le, length-put_le,
}
use go_chain.Consensus.Structure.{minimal_push_len, validate_coinbase_script_sig}

-- The encoding of a height: its length and its bytes, the lowest first.
abbrev pub height_push : ℕ → Bytes
height_push height = minimal_push_len height ∷ put_le (minimal_push_len height) height

not-eq : (a b : ℕ) → not (a == b) ≡ false → a ≡ b
not-eq a b h = ground (arith, ==_iff a b)

-- A coinbase script that validateCoinbaseScriptSig accepts for a height starts with the one shortest
-- encoding of that height, and has 2 to 100 bytes.
pub validate_coinbase_script_sig-eq_ok :
    (script_sig : Bytes) (height : ℕ)
    → AreBytes script_sig
    → validate_coinbase_script_sig script_sig height ≡ ok tt
    → (rest : Bytes) × (script_sig ≡ height_push height ++ rest)
      × (2 ≤ length script_sig)
      × (length script_sig ≤ 100)
unfolding validate_coinbase_script_sig
validate_coinbase_script_sig-eq_ok [] height a h = cc
validate_coinbase_script_sig-eq_ok (n ∷ xs) height a h =
    let size = length (n ∷ xs) in
    after_test (ltb size 2) _ _ h λ low h₁. after_test (ltb 100 size) _ _ h₁ λ high h₂.
      after_test (ltb n 1 || ltb 4 n) _ _ h₂ λ push h₃.
        after_test (ltb size (1 + n)) _ _ h₃ λ fits h₄.
          after_test (not (get_le (take n xs) == height)) _ _ h₄ λ right h₅.
            let minimal = not-eq n (minimal_push_len height) (fail_if-eq-ok _ _ h₅) in
            let enough : n ≤ length xs = omega (arith, ltb_false→le size (1 + n) fits) in
            let body : put_le n height ≡ take n xs =
              rw (← not-eq (get_le (take n xs)) height right) (
                subst (λ k. put_le k (get_le (take n xs)) ≡ take n xs) (length-take_le n xs enough)
                  (put_le-get_le (take n xs) (All-take _ n xs a.1))) in
            (
              drop n xs,
              rw (← minimal, body) (ap (λ t. n ∷ t) (sym (take-append-drop n xs))),
              ltb_false→le size 2 low,
              ltb_false→le 100 size high,
            )

abbrev pub IsPushLen : ℕ → ℕ → Type 0
IsPushLen height n = (1 ≤ n) × (n ≤ 4) × (height < 256 ^ n)

pub minimal_push_len-IsPushLen :
    (height : ℕ) → height < 2 ^ 32 → IsPushLen height (minimal_push_len height)
unfolding minimal_push_len
minimal_push_len-IsPushLen height h = elim (Bool-cases (leb height 0xFF)) [
  | inl one ↦ rw one (omega arith, omega arith, omega (arith, leb→le height 0xFF one))
  | inr more ↦ elim (Bool-cases (leb height 0xFFFF)) [
    | inl two ↦ rw (more, two) (omega arith, omega arith, omega (arith, leb→le height 0xFFFF two))
    | inr more' ↦ elim (Bool-cases (leb height 0xFFFFFF)) [
      | inl three ↦
          rw (more, more', three)
            (omega arith, omega arith, omega (arith, leb→le height 0xFFFFFF three))
      | inr four ↦ rw (more, more', four) (omega arith, omega arith, omega (arith, h))
    ]
  ]
]

-- A script that starts with the encoding of a 32-bit height and has at most 95 bytes after it is
-- accepted for that height.
pub validate_coinbase_script_sig-height_push :
    (height : ℕ) (rest : Bytes)
    → height < 2 ^ 32
    → length rest ≤ 95
    → validate_coinbase_script_sig (height_push height ++ rest) height ≡ ok tt
unfolding validate_coinbase_script_sig
validate_coinbase_script_sig-height_push height rest h small =
    let n = minimal_push_len height in
    let (low, high, fits) = minimal_push_len-IsPushLen height h in
    let len = length-put_le n height in
    let size : length (put_le n height ++ rest) ≡ n + length rest =
      length-append (put_le n height) rest ∙ ap (λ k. k + length rest) len in
    let body : take n (put_le n height ++ rest) ≡ put_le n height =
      subst (λ k. take k (put_le n height ++ rest) ≡ put_le n height) len
        (take-append_self (put_le n height) rest) in
    ground (arith, low, high, size, body, get_le-put_le n height fits)
