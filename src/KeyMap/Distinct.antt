-- ===== src/KeyMap/Distinct.antt =====
-- Maps with no key twice, as every Go map is: sums over their values, and insertion of a new key.
use go_chain.Prelude.{
  ℕ, ◌+◌, ◌≡◌, refl, ap, subst, true, false, List, [], ◌∷◌, ◌++◌, some, none, if◌then◌else◌, arith,
  All, Bool-cases, inl, inr, length,
}
use go_chain.Types.Bytes.{Bytes}
use go_chain.KeyMap.{Map, lookup, has, insert, delete, bytes_eq, bytes_eq_iff, has-insert}

module _ {ℓ} {V : Type ℓ} where
  abbrev pub IsDistinct : Map V → Type 0
  IsDistinct [] = Unit {0}
  IsDistinct ((k, v) ∷ m) = (has k m ≡ false) × IsDistinct m

  abbrev pub total : (V → ℕ) → Map V → ℕ
  total f [] = 0
  total f ((k, v) ∷ m) = f v + total f m

  abbrev pub values : Map V → List V
  values [] = []
  values ((k, v) ∷ m) = v ∷ values m

  pub has_false→lookup : (k : Bytes) (m : Map V) → has k m ≡ false → lookup k m ≡ none
  unfolding has lookup
  has_false→lookup k [] h = refl
  has_false→lookup k ((j, w) ∷ m) h = ground (arith, has_false→lookup k m)

  pub has_true→lookup : (k : Bytes) (m : Map V) → has k m ≡ true → (v : V) × (lookup k m ≡ some v)
  unfolding has lookup
  has_true→lookup k [] h = cc
  has_true→lookup k ((j, w) ∷ m) h = elim (Bool-cases (bytes_eq j k)) [
    | inl e ↦ (w, rw e refl)
    | inr e ↦ let (v, found) = has_true→lookup k m (ground (arith)) in (v, rw e found)
  ]

  pub lookup→has : (k : Bytes) (m : Map V) (v : V) → lookup k m ≡ some v → has k m ≡ true
  unfolding has lookup
  lookup→has k [] v h = cc
  lookup→has k ((j, w) ∷ m) v h = ground (arith, lookup→has k m v)

  pub lookup_none→has : (k : Bytes) (m : Map V) → lookup k m ≡ none → has k m ≡ false
  unfolding has lookup
  lookup_none→has k [] h = refl
  lookup_none→has k ((j, w) ∷ m) h = ground (arith, lookup_none→has k m)

  pub insert-fresh :
      (k : Bytes) (v : V) (m : Map V) → has k m ≡ false → insert k v m ≡ m ++ ((k, v) ∷ [])
  unfolding has insert
  insert-fresh k v [] h = refl
  insert-fresh k v ((j, w) ∷ m) h = ground (arith, insert-fresh k v m)

  pub has-delete :
      (k j : Bytes) (m : Map V) → has j (delete k m) ≡ (if bytes_eq k j then false else has j m)
  unfolding has delete
  has-delete k j [] = ground arith
  has-delete k j ((i, w) ∷ m) =
      ground (arith, bytes_eq_iff k j, bytes_eq_iff i k, bytes_eq_iff i j, has-delete k j m)

  pub delete-absent : (k : Bytes) (m : Map V) → has k m ≡ false → delete k m ≡ m
  unfolding has delete
  delete-absent k [] h = refl
  delete-absent k ((j, w) ∷ m) h = ground (arith, delete-absent k m)

  pub IsDistinct-insert :
      (k : Bytes) (v : V) (m : Map V) → has k m ≡ false → IsDistinct m → IsDistinct (insert k v m)
  unfolding has insert
  IsDistinct-insert k v [] h d = (refl, tt)
  IsDistinct-insert k v ((j, w) ∷ m) h d = elim (Bool-cases (bytes_eq j k)) [
    | inl e ↦ cc
    | inr e ↦ rw e (
      ground (arith, has-insert k j v m, bytes_eq_iff k j, bytes_eq_iff j k),
      IsDistinct-insert k v m (ground arith) d.1,
    )
  ]

  pub IsDistinct-delete : (k : Bytes) (m : Map V) → IsDistinct m → IsDistinct (delete k m)
  unfolding delete
  IsDistinct-delete k [] d = tt
  IsDistinct-delete k ((j, w) ∷ m) d = elim (Bool-cases (bytes_eq j k)) [
    | inl e ↦ rw e (IsDistinct-delete k m d.1)
    | inr e ↦ rw e (ground (arith, has-delete k j m), IsDistinct-delete k m d.1)
  ]

  pub total-insert :
      (f : V → ℕ) (k : Bytes) (v : V) (m : Map V)
      → has k m ≡ false
      → total f (insert k v m) ≡ total f m + f v
  unfolding has insert
  total-insert f k v [] h = omega arith
  total-insert f k v ((j, w) ∷ m) h = ground (arith, total-insert f k v m)

  pub total-delete :
      (f : V → ℕ) (k : Bytes) (v : V) (m : Map V)
      → IsDistinct m
      → lookup k m ≡ some v
      → total f (delete k m) + f v ≡ total f m
  unfolding lookup delete
  total-delete f k v [] d h = cc
  total-delete f k v ((j, w) ∷ m) d h = elim (Bool-cases (bytes_eq j k)) [
    | inl e ↦
        let gone : delete k m ≡ m =
          delete-absent k m (subst (λ x. has x m ≡ false) ((bytes_eq_iff j k).0 e) d.0) in
        ground (arith, gone)
    | inr e ↦ ground (arith, total-delete f k v m)
  ]

  pub length-total : (m : Map V) → length m ≡ total (λ v. 1) m
  length-total [] = refl
  length-total ((k, v) ∷ m) = omega (arith, length-total m)

  pub values-append :
      (m : Map V) (k : Bytes) (v : V) → values (m ++ ((k, v) ∷ [])) ≡ values m ++ (v ∷ [])
  values-append [] k v = refl
  values-append ((j, w) ∷ m) k v = ap (λ l. w ∷ l) (values-append m k v)

  -- A predicate of every key and its value.
  abbrev pub AllPairs {κ} : (Bytes → V → Type κ) → Map V → Type κ
  AllPairs P m = All (λ kv. P kv.0 kv.1) m

  pub AllPairs-lookup {κ} :
      (P : Bytes → V → Type κ) (k : Bytes) (v : V) (m : Map V)
      → AllPairs P m
      → lookup k m ≡ some v
      → P k v
  unfolding lookup
  AllPairs-lookup P k v [] a h = cc
  AllPairs-lookup P k v ((j, w) ∷ m) a h = elim (Bool-cases (bytes_eq j k)) [
    | inl e ↦
        let same : w ≡ v = ground (arith) in
        subst (λ x. P x v) ((bytes_eq_iff j k).0 e) (subst (λ x. P j x) same a.0)
    | inr e ↦ AllPairs-lookup P k v m a.1 (ground arith)
  ]

  pub AllPairs-insert {κ} :
      (P : Bytes → V → Type κ) (k : Bytes) (v : V) (m : Map V)
      → P k v
      → AllPairs P m
      → AllPairs P (insert k v m)
  unfolding insert
  AllPairs-insert P k v [] p a = (p, tt)
  AllPairs-insert P k v ((j, w) ∷ m) p a = elim (Bool-cases (bytes_eq j k)) [
    | inl e ↦ rw e (p, a.1)
    | inr e ↦ rw e (a.0, AllPairs-insert P k v m p a.1)
  ]

  pub AllPairs-delete {κ} :
      (P : Bytes → V → Type κ) (k : Bytes) (m : Map V) → AllPairs P m → AllPairs P (delete k m)
  unfolding delete
  AllPairs-delete P k [] a = tt
  AllPairs-delete P k ((j, w) ∷ m) a = elim (Bool-cases (bytes_eq j k)) [
    | inl e ↦ rw e (AllPairs-delete P k m a.1)
    | inr e ↦ rw e (a.0, AllPairs-delete P k m a.1)
  ]
