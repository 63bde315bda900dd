-- ===== src/Prelude/Errors.antt =====
-- Go's (value, error) pair as a sum.
use mathlib.Core.Path.{◌≡◌, refl, ap}
use mathlib.Core.Bool.{Bool, true, false}
use mathlib.Core.Logic.{◌⊎◌, inl, inr}

pub data Result {ℓ κ} (E : Type ℓ) (A : Type κ) : Type (ℓ ⊔ κ) where
  ok : A → Result E A
  err : E → Result E A

infixl 5 ◌>>=◌ ◌>>◌
abbrev pub ◌>>=◌ {ℓ κ} : {E : Type ℓ} {A B : Type κ} → Result E A → (A → Result E B) → Result E B
ok a >>= f = f a
err e >>= f = err e

abbrev pub ◌>>◌ {ℓ κ} : {E : Type ℓ} {B : Type κ} → Result E (Unit {κ}) → Result E B → Result E B
m >> k = m >>= λ _. k

abbrev pub fail_if {ℓ} : {E : Type ℓ} → Bool → E → Result E (Unit {0})
fail_if true e = err e
fail_if false e = ok tt

payload {ℓ κ} : {E : Type ℓ} {A : Type κ} → A → Result E A → A
payload a (ok b) = b
payload a (err e) = a

pub ok-injective {ℓ κ} :
    {E : Type ℓ} {A : Type κ} {a b : A} → ◌≡◌ {A = Result E A} (ok a) (ok b) → a ≡ b
unfolding payload
ok-injective {a} e = ap (payload a) e

-- Inversion of a successful bind: its parts are handed on to a continuation.
pub after {ℓ κ μ} :
    {E : Type ℓ} {A B : Type κ} {G : Type μ} (m : Result E A) (f : A → Result E B) {b : B}
    → (m >>= f) ≡ ok b
    → ((a : A) → m ≡ ok a → f a ≡ ok b → G)
    → G
after (ok a) f h k = k a refl h
after (err e) f h k = cc

pub after_test {ℓ μ} :
    {E : Type ℓ} {B : Type 0} {G : Type μ} (c : Bool) (e : E) (m : Result E B) {b : B}
    → (fail_if c e >> m) ≡ ok b
    → (c ≡ false → m ≡ ok b → G)
    → G
after_test true e m h k = cc
after_test false e m h k = k refl h

pub Result-cases {ℓ κ} :
    {E : Type ℓ} {A : Type κ} (r : Result E A) → ((a : A) × (r ≡ ok a)) ⊎ ((e : E) × (r ≡ err e))
Result-cases (ok a) = inl (a, refl)
Result-cases (err e) = inr (e, refl)

pub fail_if-eq-ok {ℓ} :
    {E : Type ℓ} (b : Bool) (e : E) {u : Unit {0}} → fail_if b e ≡ ok u → b ≡ false
fail_if-eq-ok true e h = cc
fail_if-eq-ok false e h = refl
