-- ===== src/Mempool/FeeOrder/Least.antt =====
-- feeHeap.Less orders the entries, so Pop takes one that is below no other.
use go_chain.Prelude.{
  ℕ, zero, suc, ◌≡◌, refl, sym, inl, inr, true, false, List, [], ◌∷◌, if◌then◌else◌, All, arith,
  Bool-cases, some,
}
use go_chain.KeyMap.{Map, lookup, has, bytes_eq_iff}
use go_chain.KeyMap.Distinct.{IsDistinct, AllPairs, values, lookup→has}
use go_chain.Types.Bytes.{Bytes}
use go_chain.Types.Transaction.{Hash}
use go_chain.Crypto.Target.{less_below}
use go_chain.Mempool.FeeOrder.{TxEntry, hash_less, fee_less, lowest, drop_entry}

pub less_below_self : (a : Hash) (i : ℕ) → less_below a a i ≡ false
unfolding less_below
less_below_self a zero = refl
less_below_self a (suc i) = ground (arith, less_below_self a i)

-- `y < e` and not `x < e` give not `x < y`.
pub less_below_mid :
    (x y e : Hash) (i : ℕ)
    → less_below y e i ≡ true
    → less_below x e i ≡ false
    → less_below x y i ≡ false
unfolding less_below
less_below_mid x y e zero h k = refl
less_below_mid x y e (suc i) h k = ground (arith, less_below_mid x y e i)

fee_less_self : (e : TxEntry) → fee_less e e ≡ false
unfolding fee_less hash_less
fee_less_self e = ground (arith, less_below_self e.hash 32)

fee_less_mid : (x y e : TxEntry) → fee_less y e ≡ true → fee_less x e ≡ false → fee_less x y ≡ false
unfolding fee_less hash_less
fee_less_mid x y e h k = ground (arith, less_below_mid x.hash y.hash e.hash 32)

lowest_step :
    (z e x : TxEntry) → fee_less z e ≡ false → fee_less z (if fee_less x e then x else e) ≡ false
lowest_step z e x h = elim (Bool-cases (fee_less x e)) [
  | inl below ↦ rw below (fee_less_mid z x e below h)
  | inr keeps ↦ rw keeps h
]

pub lowest_mono :
    (z e : TxEntry) (xs : List TxEntry) → fee_less z e ≡ false → fee_less z (lowest e xs) ≡ false
unfolding lowest
lowest_mono z e [] h = h
lowest_mono z e (x ∷ xs) h = lowest_mono z (if fee_less x e then x else e) xs (lowest_step z e x h)

taken_below : (e x : TxEntry) → fee_less x (if fee_less x e then x else e) ≡ false
taken_below e x = elim (Bool-cases (fee_less x e)) [
  | inl below ↦ rw below (fee_less_self x)
  | inr keeps ↦ rw keeps keeps
]

lowest_below_rest :
    (e : TxEntry) (xs : List TxEntry) → All (λ x. fee_less x (lowest e xs) ≡ false) xs
unfolding lowest
lowest_below_rest e [] = tt
lowest_below_rest e (x ∷ xs) =
    (lowest_mono x _ xs (taken_below e x), lowest_below_rest (if fee_less x e then x else e) xs)

pub lowest_below_all :
    (e : TxEntry) (xs : List TxEntry) → All (λ x. fee_less x (lowest e xs) ≡ false) (e ∷ xs)
lowest_below_all e xs = (lowest_mono e e xs (fee_less_self e), lowest_below_rest e xs)

pub lowest-All {κ} :
    (P : TxEntry → Type κ) (e : TxEntry) (xs : List TxEntry) → P e → All P xs → P (lowest e xs)
unfolding lowest
lowest-All P e [] p a = p
lowest-All P e (x ∷ xs) p a = elim (Bool-cases (fee_less x e)) [
  | inl below ↦ rw (lowest, below) (lowest-All P x xs a.0 a.1)
  | inr keeps ↦ rw (lowest, keeps) (lowest-All P e xs p a.1)
]

pub drop_entry_twice :
    (h : Hash) (xs : List TxEntry) → drop_entry h (drop_entry h xs) ≡ drop_entry h xs
unfolding drop_entry
drop_entry_twice h [] = refl
drop_entry_twice h (x ∷ xs) = ground (arith, drop_entry_twice h xs)

-- Every value of a keyed map is found under its hash.
abbrev pub IsHeld : Map TxEntry → TxEntry → Type 0
IsHeld m e = lookup e.hash m ≡ some e

IsHeld-cons :
    (k : Bytes) (w : TxEntry) (m : Map TxEntry) (xs : List TxEntry)
    → has k m ≡ false
    → All (IsHeld m) xs
    → All (IsHeld ((k, w) ∷ m)) xs
unfolding lookup
IsHeld-cons k w m [] h a = tt
IsHeld-cons k w m (x ∷ xs) h a =
    (ground (arith, bytes_eq_iff k x.hash, lookup→has x.hash m x a.0), IsHeld-cons k w m xs h a.1)

pub values-IsHeld :
    (P : Bytes → TxEntry → Type 0) (keyed : (k : Bytes) (e : TxEntry) → P k e → e.hash ≡ k)
    (m : Map TxEntry)
    → AllPairs P m
    → IsDistinct m
    → All (IsHeld m) (values m)
unfolding lookup
values-IsHeld P keyed [] a d = tt
values-IsHeld P keyed ((k, w) ∷ m) a d = (
  rw ((bytes_eq_iff k w.hash).1 (sym (keyed k w a.0))) refl,
  IsHeld-cons k w m (values m) d.0 (values-IsHeld P keyed m a.1 d.1),
)
