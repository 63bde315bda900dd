-- ===== src/Types/Reader.antt =====
-- Reads from an `io.Reader` over the bytes that are left, as the deserializers of internal/types
-- do them. The context that `fmt.Errorf` wraps round an error is left out.
use go_chain.Prelude.{
  ℕ, ◌≤◌, ◌≡◌, refl, ap, subst, ◌++◌, arith, leb, ◌==◌, if◌then◌else◌, length, take, drop,
  length-append, take-append-drop, length-take_le, take-append_self, drop-append_self, All-take,
  All-drop, Result, ok, err, Bool, Bool-cases, inl, inr, le→leb, ◌<◌, ◌≤◌, true, false,
}
use go_chain.Types.Bytes.{Bytes, IsByte, AreBytes}

-- The errors that reading a varint, a transaction or a block can return.
pub data ReadError : Type 0 where
  eof unexpected_eof non_canonical : ReadError
  too_many_inputs too_many_outputs script_too_large too_many_txs : ReadError
  empty_varint short_varint : ReadError

abbrev pub Reader {ℓ} : Type ℓ → Type ℓ
Reader A = Bytes → Result ReadError (A × Bytes)

module _ {ℓ} {A : Type ℓ} where
  abbrev pub pure : A → Reader A
  pure a r = ok (a, r)

  abbrev pub fail : ReadError → Reader A
  fail e r = err e

infixl 5 ◌>>=◌ ◌>>◌
abbrev pub ◌>>=◌ : {A B : Type 0} → Reader A → (A → Reader B) → Reader B
◌>>=◌ m f r = elim (m r) [ ok (a, r') ↦ f a r' | err e ↦ err e ]

abbrev pub ◌>>◌ : {B : Type 0} → Reader (Unit {0}) → Reader B → Reader B
m >> k = m >>= λ _. k

abbrev pub fail_if : Bool → ReadError → Reader (Unit {0})
fail_if true e r = err e
fail_if false e r = ok (tt, r)

-- `io.ReadFull` into a buffer of `n` bytes.
unfoldable pub read_full : ℕ → Reader Bytes
read_full n r =
    if leb n (length r)
    then ok (take n r, drop n r)
    else if length r == 0
    then err eof
    else err unexpected_eof

pub read_full_enough : (n : ℕ) (r : Bytes) → n ≤ length r → read_full n r ≡ ok (take n r, drop n r)
unfolding read_full
read_full_enough n r h = rw (le→leb n (length r) h)

pub read_full_short : (n : ℕ) (r : Bytes) → length r < n → (e : ReadError) × (read_full n r ≡ err e)
unfolding read_full
read_full_short n r h = elim (Bool-cases (length r == 0)) [
  | inl e ↦ (eof, ground arith)
  | inr e ↦ (unexpected_eof, ground arith)
]

-- What a successful run of a reader has taken from the input.
pub read_full-eq_ok :
    (n : ℕ) (r : Bytes) {buf rest : Bytes}
    → AreBytes r
    → read_full n r ≡ ok (buf, rest)
    → (r ≡ buf ++ rest) × (length buf ≡ n) × AreBytes buf × AreBytes rest
unfolding read_full
read_full-eq_ok n r {buf} {rest} h e =
    ground (
      arith,
      take-append-drop n r,
      length-take_le n r,
      All-take IsByte n r h,
      All-drop IsByte n r h,
    )

pub read_full-append :
    (n : ℕ) (buf rest : Bytes) → length buf ≡ n → read_full n (buf ++ rest) ≡ ok (buf, rest)
unfolding read_full
read_full-append n buf rest e =
    rw (← e)
      (ground (arith, length-append buf rest, take-append_self buf rest, drop-append_self buf rest))

-- Inversion of a successful bind: both runs succeeded.
after_result {ℓ} :
    {A B : Type 0} {G : Type ℓ} (x : Result ReadError (A × Bytes)) (f : A → Reader B) {b : B}
    {rest : Bytes}
    → elim x [ ok (a, r') ↦ f a r' | err e ↦ err e ] ≡ ok (b, rest)
    → ((a : A) (r' : Bytes) → x ≡ ok (a, r') → f a r' ≡ ok (b, rest) → G)
    → G
after_result (ok (a, r')) f h k = k a r' refl h
after_result (err e) f h k = cc

pub after {ℓ} :
    {A B : Type 0} {G : Type ℓ} (m : Reader A) (f : A → Reader B) (r : Bytes) {b : B} {rest : Bytes}
    → (m >>= f) r ≡ ok (b, rest)
    → ((a : A) (r' : Bytes) → m r ≡ ok (a, r') → f a r' ≡ ok (b, rest) → G)
    → G
after m f r h k = after_result (m r) f h k

pub after_test {ℓ} :
    {B : Type 0} {G : Type ℓ} (c : Bool) (e : ReadError) (m : Reader B) (r : Bytes) {b : B}
    {rest : Bytes}
    → (fail_if c e >> m) r ≡ ok (b, rest)
    → (c ≡ false → m r ≡ ok (b, rest) → G)
    → G
after_test true e m r h k = cc
after_test false e m r h k = k refl h

payload {ℓ} : {A : Type ℓ} → A → Result ReadError A → A
payload a (ok b) = b
payload a (err e) = a

-- What holds of the value and the rest that were returned holds of the names they are given.
pub returned {ℓ} :
    {A : Type 0} {a b : A} {r rest : Bytes} (P : A → Bytes → Type ℓ)
    → ◌≡◌ {A = Result ReadError (A × Bytes)} (ok (a, r)) (ok (b, rest))
    → P a r
    → P b rest
unfolding payload
returned {A} {a} {b} {r} {rest} P e p = subst (λ x. P x.0 x.1) (ap (payload (a, r)) e) p
