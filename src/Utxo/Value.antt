-- ===== src/Utxo/Value.antt =====
-- The value of a set: Set.TotalValue, and what inserting and deleting do to the sum.
use go_chain.Prelude.{
  ℕ, ◌+◌, ◌-◌, ◌%◌, ◌^◌, ◌≤◌, ◌<◌, ◌≡◌, refl, ◌⊎◌, inl, inr, false, List, [], ◌∷◌, ◌++◌, some, ltb,
  if◌then◌else◌, arith, All,
}
use go_chain.KeyMap.{Map, bytes_eq_iff, lookup, has, insert, delete, has-insert}
use go_chain.Types.Bytes.{Bytes}
use go_chain.Utxo.{UtxoEntry, Entries, delete_all, add_unspent, Pending, apply_pending}

-- `for _, e := range s.entries`: the sum so far, or all ones as soon as it wraps.
unfoldable pub total_from : ℕ → Entries → ℕ
total_from total [] = total
total_from total ((k, e) ∷ s) =
    let rest = total_from ((total + e.value) % 2 ^ 64) s in
    if ltb ((total + e.value) % 2 ^ 64) total then 2 ^ 64 - 1 else rest

-- Set.TotalValue
unfoldable pub total_value : Entries → ℕ
unfolding total_from
total_value s = total_from 0 s

-- The sum, without a bound.
unfoldable pub sum_values : Entries → ℕ
sum_values [] = 0
sum_values ((k, e) ∷ s) = e.value + sum_values s

abbrev pub IsAmount : Bytes × UtxoEntry → Type 0
IsAmount x = x.1.value < 2 ^ 64

total_from-eq :
    (total : ℕ) (s : Entries)
    → total < 2 ^ 64
    → All IsAmount s
    → total_from total s
      ≡ (if ltb (total + sum_values s) (2 ^ 64) then total + sum_values s else 2 ^ 64 - 1)
unfolding total_from sum_values
total_from-eq total [] h a = ground arith
total_from-eq total ((k, e) ∷ s) h a =
    ground (arith, total_from-eq ((total + e.value) % 2 ^ 64) s (omega arith) a.1)

-- TotalValue is the sum of all values if that fits 64 bits, and all ones if it does not: it does not
-- depend on the order in which the map is walked.
pub total_value-eq :
    (s : Entries)
    → All IsAmount s
    → total_value s ≡ (if ltb (sum_values s) (2 ^ 64) then sum_values s else 2 ^ 64 - 1)
unfolding total_value
total_value-eq s a = ground (arith, total_from-eq 0 s (omega arith) a)

sum_values-insert :
    (k : Bytes) (e : UtxoEntry) (s : Entries) → sum_values (insert k e s) ≤ sum_values s + e.value
unfolding sum_values insert
sum_values-insert k e [] = omega arith
sum_values-insert k e ((j, d) ∷ s) = ground (arith, sum_values-insert k e s)

pub sum_values-delete_le : (k : Bytes) (s : Entries) → sum_values (delete k s) ≤ sum_values s
unfolding sum_values delete
sum_values-delete_le k [] = omega arith
sum_values-delete_le k ((j, d) ∷ s) = ground (arith, sum_values-delete_le k s)

pub sum_values-delete :
    (k : Bytes) (e : UtxoEntry) (s : Entries)
    → lookup k s ≡ some e
    → sum_values (delete k s) + e.value ≤ sum_values s
unfolding sum_values delete lookup
sum_values-delete k e [] h = cc
sum_values-delete k e ((j, d) ∷ s) h =
    ground (arith, sum_values-delete k e s, sum_values-delete_le k s)

pub delete_all-append :
    (ks : List Bytes) (k : Bytes) (s : Entries)
    → delete_all (ks ++ (k ∷ [])) s ≡ delete k (delete_all ks s)
unfolding delete_all
delete_all-append [] k s = refl
delete_all-append (j ∷ ks) k s = delete_all-append ks k (delete j s)

-- The values that ConnectBlock will add: of what it created, those that were not spent.
unfoldable pub unspent_sum : Map (Unit {0}) → List (Bytes × UtxoEntry) → ℕ
unspent_sum spent [] = 0
unspent_sum spent ((k, e) ∷ xs) = (if has k spent then 0 else e.value) + unspent_sum spent xs

pub unspent_sum-append :
    (spent : Map (Unit {0})) (xs : List (Bytes × UtxoEntry)) (k : Bytes) (e : UtxoEntry)
    → unspent_sum spent (xs ++ ((k, e) ∷ [])) ≤ unspent_sum spent xs + e.value
unfolding unspent_sum
unspent_sum-append spent [] k e = ground arith
unspent_sum-append spent ((j, d) ∷ xs) k e = omega (arith, unspent_sum-append spent xs k e)

pub unspent_sum-insert_le :
    (k : Bytes) (spent : Map (Unit {0})) (xs : List (Bytes × UtxoEntry))
    → unspent_sum (insert k tt spent) xs ≤ unspent_sum spent xs
unfolding unspent_sum
unspent_sum-insert_le k spent [] = omega arith
unspent_sum-insert_le k spent ((j, d) ∷ xs) =
    ground (arith, has-insert k j tt spent, unspent_sum-insert_le k spent xs)

abbrev pub Occurs : Bytes → UtxoEntry → List (Bytes × UtxoEntry) → Type 0
Occurs k e [] = ⊥
Occurs k e ((j, d) ∷ xs) = ((j ≡ k) × (d ≡ e)) ⊎ Occurs k e xs

-- Spending something that was created and not yet spent.
pub unspent_sum-insert :
    (k : Bytes) (e : UtxoEntry) (spent : Map (Unit {0})) (xs : List (Bytes × UtxoEntry))
    → has k spent ≡ false
    → Occurs k e xs
    → unspent_sum (insert k tt spent) xs + e.value ≤ unspent_sum spent xs
unfolding unspent_sum
unspent_sum-insert k e spent [] h o = absurd o
unspent_sum-insert k e spent ((j, d) ∷ xs) h (inl same) = ground (
  arith,
  same.0,
  same.1,
  has-insert k j tt spent,
  bytes_eq_iff k j,
  unspent_sum-insert_le k spent xs,
)
unspent_sum-insert k e spent ((j, d) ∷ xs) h (inr later) =
    ground (arith, has-insert k j tt spent, unspent_sum-insert k e spent xs h later)

sum_values-add_unspent :
    (spent : Map (Unit {0})) (xs : List (Bytes × UtxoEntry)) (s : Entries)
    → sum_values (add_unspent spent xs s) ≤ sum_values s + unspent_sum spent xs
unfolding add_unspent unspent_sum
sum_values-add_unspent spent [] s = omega arith
sum_values-add_unspent spent ((k, e) ∷ xs) s = ground (
  arith,
  sum_values-add_unspent spent xs (if has k spent then s else insert k e s),
  sum_values-insert k e s,
)

pub sum_values-apply_pending :
    (w : Pending) (s : Entries)
    → sum_values (apply_pending w s)
      ≤ sum_values (delete_all w.to_remove s) + unspent_sum w.spent_in_block w.to_add
unfolding apply_pending
sum_values-apply_pending w s =
    sum_values-add_unspent w.spent_in_block w.to_add (delete_all w.to_remove s)
