-- ===== src/Mempool/Template/Order.antt =====
-- What BlockTemplate gives: the best-paying transactions first, and the exact sum of their fees.
use go_chain.Prelude.{
  ℕ, ◌+◌, ◌%◌, ◌^◌, ◌<◌, ◌≤◌, ◌⊎◌, ◌==◌, ◌≡◌, refl, ap, subst, inl, inr, true, false, List, [], ◌∷◌,
  ◌++◌, ltb, map, All, arith, Bool-cases, ltb_false→le, ltb→lt,
}
use mathlib.Core.List.Perm
use mathlib.Core.List.{Perm}
use go_chain.KeyMap.Distinct.{values}
use go_chain.Types.Bytes.{get_le}
use go_chain.Types.Transaction.{IsHash}
use go_chain.Crypto.Target.{less}
use go_chain.Crypto.Target.ProofOfWork.{less-eq}
use go_chain.Mempool.{Mempool}
use go_chain.Mempool.FeeOrder.{TxEntry, hash_less}
use go_chain.Mempool.FeeOrder.Least.{less_below_self, less_below_mid}
use go_chain.Mempool.Template.{
  rate_before, insert_sorted, sort_entries, add_fees, BlockTemplateTx, template_tx, block_template,
}

rate_before_self : (e : TxEntry) → rate_before e e ≡ false
unfolding rate_before hash_less
rate_before_self e = ground (arith, less_below_self e.hash 32)

rate_before_mid :
    (x y e : TxEntry) → rate_before y e ≡ true → rate_before x e ≡ false → rate_before x y ≡ false
unfolding rate_before hash_less
rate_before_mid x y e h k = ground (arith, less_below_mid x.hash y.hash e.hash 32)

-- The first pays the higher fee rate, or the same with a hash that is not the larger number.
abbrev pub PaysBefore : TxEntry → TxEntry → Type 0
PaysBefore e x =
    (x.fee_rate < e.fee_rate) ⊎ ((x.fee_rate ≡ e.fee_rate) × (get_le e.hash ≤ get_le x.hash))

-- Every entry pays before all that come after it.
abbrev pub IsRanked : List TxEntry → Type 0
IsRanked [] = Unit {0}
IsRanked (e ∷ es) = All (PaysBefore e) es × IsRanked es

rate_before-PaysBefore :
    (e x : TxEntry) → IsHash e.hash → IsHash x.hash → rate_before x e ≡ false → PaysBefore e x
unfolding rate_before hash_less less
rate_before-PaysBefore e x v w h = elim (Bool-cases (x.fee_rate == e.fee_rate)) [
  | inl same ↦ inr (ground (arith, same), ground (arith, h, same, less-eq x.hash e.hash w v))
  | inr other ↦ inl (ground (arith, h, other))
]

-- No entry stands after one that it should precede.
abbrev IsOrdered : List TxEntry → Type 0
IsOrdered [] = Unit {0}
IsOrdered (e ∷ es) = All (λ x. rate_before x e ≡ false) es × IsOrdered es

abbrev pub sum_fees : List TxEntry → ℕ
sum_fees [] = 0
sum_fees (e ∷ es) = e.fee + sum_fees es

All-insert_sorted :
    (P : TxEntry → Type 0) (e : TxEntry) (xs : List TxEntry)
    → P e
    → All P xs
    → All P (insert_sorted e xs)
unfolding insert_sorted
All-insert_sorted P e [] p a = (p, tt)
All-insert_sorted P e (x ∷ xs) p a = elim (Bool-cases (rate_before e x)) [
  | inl first ↦ rw (insert_sorted, first) (p, a)
  | inr later ↦ rw (insert_sorted, later) (a.0, All-insert_sorted P e xs p a.1)
]

All-before :
    (e x : TxEntry) (xs : List TxEntry)
    → rate_before e x ≡ true
    → All (λ y. rate_before y x ≡ false) xs
    → All (λ y. rate_before y e ≡ false) xs
All-before e x [] h a = tt
All-before e x (y ∷ ys) h a = (rate_before_mid y e x h a.0, All-before e x ys h a.1)

insert_sorted-IsOrdered :
    (e : TxEntry) (xs : List TxEntry) → IsOrdered xs → IsOrdered (insert_sorted e xs)
unfolding insert_sorted
insert_sorted-IsOrdered e [] o = (tt, tt)
insert_sorted-IsOrdered e (x ∷ xs) o = elim (Bool-cases (rate_before e x)) [
  | inl first ↦
      rw (insert_sorted, first)
        ((rate_before_mid x e x first (rate_before_self x), All-before e x xs first o.0), o)
  | inr later ↦
      rw (insert_sorted, later)
        (
          All-insert_sorted (λ y. rate_before y x ≡ false) e xs later o.0,
          insert_sorted-IsOrdered e xs o.1,
        )
]

insert_sorted-perm : (e : TxEntry) (xs : List TxEntry) → Perm (insert_sorted e xs) (e ∷ xs)
unfolding insert_sorted
insert_sorted-perm e [] = Perm.rfl
insert_sorted-perm e (x ∷ xs) = elim (Bool-cases (rate_before e x)) [
  | inl first ↦ rw (insert_sorted, first) Perm.rfl
  | inr later ↦
      rw (insert_sorted, later)
        (Perm.trans (Perm.cons x (insert_sorted-perm e xs)) (Perm.swap e x xs))
]

sort_entries-IsOrdered : (es : List TxEntry) → IsOrdered (sort_entries es)
unfolding sort_entries
sort_entries-IsOrdered [] = tt
sort_entries-IsOrdered (e ∷ es) =
    insert_sorted-IsOrdered e (sort_entries es) (sort_entries-IsOrdered es)

sort_entries-perm : (es : List TxEntry) → Perm (sort_entries es) es
unfolding sort_entries
sort_entries-perm [] = Perm.rfl
sort_entries-perm (e ∷ es) =
    Perm.trans (insert_sorted-perm e (sort_entries es)) (Perm.cons e (sort_entries-perm es))

All-sort_entries : (P : TxEntry → Type 0) (es : List TxEntry) → All P es → All P (sort_entries es)
unfolding sort_entries
All-sort_entries P [] a = tt
All-sort_entries P (e ∷ es) a =
    All-insert_sorted P e (sort_entries es) a.0 (All-sort_entries P es a.1)

All-PaysBefore :
    (e : TxEntry) (es : List TxEntry)
    → IsHash e.hash
    → All (λ x. rate_before x e ≡ false) es
    → All (λ (x : TxEntry). IsHash x.hash) es
    → All (PaysBefore e) es
All-PaysBefore e [] v o hs = tt
All-PaysBefore e (x ∷ xs) v o hs =
    (rate_before-PaysBefore e x v hs.0 o.0, All-PaysBefore e xs v o.1 hs.1)

IsOrdered-IsRanked :
    (es : List TxEntry) → IsOrdered es → All (λ (e : TxEntry). IsHash e.hash) es → IsRanked es
IsOrdered-IsRanked [] o hs = tt
IsOrdered-IsRanked (e ∷ es) o hs =
    (All-PaysBefore e es hs.0 o.0 hs.1, IsOrdered-IsRanked es o.1 hs.1)

sum_fees-perm : (es : List TxEntry) → sum_fees (sort_entries es) ≡ sum_fees es
unfolding sort_entries
sum_fees-perm [] = refl
sum_fees-perm (e ∷ es) = omega (arith, inserted e (sort_entries es), sum_fees-perm es)
  where
    inserted :
        (x : TxEntry) (xs : List TxEntry) → sum_fees (insert_sorted x xs) ≡ x.fee + sum_fees xs
    inserted x [] = refl
    inserted x (y ∷ ys) = elim (Bool-cases (rate_before x y)) [
      | inl first ↦ rw (insert_sorted, first) refl
      | inr later ↦ rw (insert_sorted, later) (omega (arith, inserted x ys))
    ]

-- The walk over the entries: a prefix of them, and its exact sum.
pub record Adds (total : ℕ) (es : List TxEntry) : Type 0 where
  pub rest : List TxEntry
  pub split : es ≡ (add_fees total es).0 ++ rest
  pub exact : (add_fees total es).1 ≡ total + sum_fees (add_fees total es).0
  pub bounded : (add_fees total es).1 < 2 ^ 64
  pub whole : total + sum_fees es < 2 ^ 64 → rest ≡ []

add_fees-Adds :
    (total : ℕ) (es : List TxEntry)
    → total < 2 ^ 64
    → All (λ (e : TxEntry). e.fee < 2 ^ 64) es
    → Adds total es
unfolding add_fees
add_fees-Adds total [] lt a = record {
  rest = [];
  split = refl;
  exact = omega arith;
  bounded = lt;
  whole = λ h. refl;
}
add_fees-Adds total (e ∷ es) lt a =
    let next = (total + e.fee) % 2 ^ 64 in
    elim (Bool-cases (ltb next total)) [
      | inl wraps ↦ record {
        rest = e ∷ es;
        split = rw (add_fees, wraps) refl;
        exact = rw (add_fees, wraps) (omega arith);
        bounded = rw (add_fees, wraps) lt;
        whole = λ h. absurd (omega (arith, ltb→lt next total wraps));
      }
      | inr grows ↦
          let r = add_fees-Adds next es (omega arith) a.1 in
          let sum : next ≡ total + e.fee = omega (arith, ltb_false→le next total grows, a.0) in
          record {
            rest = r.rest;
            split = rw (add_fees, grows) (ap (λ l. e ∷ l) r.split);
            exact = rw (add_fees, grows) (omega (arith, r.exact, sum));
            bounded = rw (add_fees, grows) r.bounded;
            whole = λ h. r.whole (omega (arith, h, sum));
          }
    ]

-- Where every fee is a uint64 and every hash has 32 bytes, the template of a pool is a list of its
-- entries, the higher fee rate before the lower, and of two with the same rate the one whose hash is the
-- smaller number, read with its lowest byte first; its total is the exact, unwrapped sum of their fees;
-- what it leaves out comes after in that order, and it leaves out nothing when the fees of the whole
-- pool sum to less than 2 ^ 64.
pub block_template_lem :
    (m : Mempool)
    → All (λ (e : TxEntry). e.fee < 2 ^ 64) (values m.txs)
    → All (λ (e : TxEntry). IsHash e.hash) (values m.txs)
    → let t = block_template m in
      (picked : List TxEntry) × (rest : List TxEntry) × IsRanked (picked ++ rest)
      × Perm (picked ++ rest) (values m.txs)
      × (t.transactions ≡ map (λ (e : TxEntry). e.tx) picked)
      × (t.entries ≡ map template_tx picked)
      × (t.total_fees ≡ sum_fees picked)
      × (t.total_fees < 2 ^ 64)
      × (sum_fees (values m.txs) < 2 ^ 64 → rest ≡ [])
unfolding block_template
block_template_lem m a hashes =
    let es = values m.txs in
    let sorted = sort_entries es in
    let r =
      add_fees-Adds 0 sorted (omega arith)
        (All-sort_entries (λ (e : TxEntry). e.fee < 2 ^ 64) es a) in
    (
      (add_fees 0 sorted).0,
      r.rest,
      subst IsRanked r.split (
          IsOrdered-IsRanked sorted (sort_entries-IsOrdered es)
            (All-sort_entries (λ (e : TxEntry). IsHash e.hash) es hashes)),
      subst (λ l. Perm l es) r.split (sort_entries-perm es),
      refl,
      refl,
      omega (arith, r.exact),
      r.bounded,
      λ h. r.whole (omega (arith, sum_fees-perm es, h)),
    )

All-add_fees :
    (P : TxEntry → Type 0) (total : ℕ) (es : List TxEntry) → All P es → All P (add_fees total es).0
unfolding add_fees
All-add_fees P total [] a = tt
All-add_fees P total (e ∷ es) a = elim (Bool-cases (ltb ((total + e.fee) % 2 ^ 64) total)) [
  | inl wraps ↦ rw (add_fees, wraps) tt
  | inr grows ↦ rw (add_fees, grows) (a.0, All-add_fees P ((total + e.fee) % 2 ^ 64) es a.1)
]

-- What holds of every entry of the pool holds of the template's.
pub block_template-All :
    (P : TxEntry → Type 0) (Q : BlockTemplateTx → Type 0) (m : Mempool)
    → ((e : TxEntry) → P e → Q (template_tx e))
    → All P (values m.txs)
    → All Q (block_template m).entries
unfolding block_template
block_template-All P Q m h a =
    mapped (add_fees 0 (sort_entries (values m.txs))).0
      (All-add_fees P 0 (sort_entries (values m.txs)) (All-sort_entries P (values m.txs) a))
  where
    mapped : (es : List TxEntry) → All P es → All Q (map template_tx es)
    mapped [] a = tt
    mapped (e ∷ es) a = (h e a.0, mapped es a.1)
