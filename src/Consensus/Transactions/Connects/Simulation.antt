-- ===== src/Consensus/Transactions/Connects/Simulation.antt =====
-- ConnectBlock follows ValidateTransactionInputs step by step, over one set, and keeps the books:
-- what the set holds, with what was paid in, stays within what it held and what was made.
use go_chain.Prelude.{
  ℕ, ◌+◌, ◌≤◌, ◌≡◌, refl, sym, ap, ◌∙◌, false, List, [], ◌∷◌, ◌++◌, some, arith, ok, after,
  after_test, ok-injective, subst, Option-cases, inl, inr,
}
use go_chain.KeyMap.{Map, lookup, has, insert, delete, lookup-delete, has-insert}
use go_chain.Types.Bytes.{Bytes}
use go_chain.Types.Transaction.{OutPoint, TxInput}
use go_chain.Utxo.{
  UtxoEntry, SpentOutput, Entries, Pending, key_of, spend, find_and_spend, connect_inputs,
  delete_all,
}
use go_chain.Utxo.Value.{
  sum_values, sum_values-delete, sum_values-delete_le, delete_all-append, unspent_sum,
  unspent_sum-insert, unspent_sum-insert_le, Occurs,
}
use go_chain.Params.{ChainParams, max_money_value}
use go_chain.Consensus.Transactions.{
  View, Inputs, resolve, check_maturity, add_input_value, validate_inputs,
}
use go_chain.Consensus.Transactions.Connects.Amounts.{add_input_value-eq_ok}

pub record Follows (v : View) (w : Pending) : Type 0 where
  pub spent : v.spent_in_block ≡ w.spent_in_block
  pub created : v.created_in_block ≡ w.created_in_block

-- The books: `paid` is the value of all inputs so far and `made` that of all outputs.
pub record IsBalanced (s : Entries) (w : Pending) (paid made : ℕ) : Type 0 where
  pub balance :
      sum_values (delete_all w.to_remove s) + unspent_sum w.spent_in_block w.to_add + paid
      ≤ sum_values s + made
  pub occurs :
      (k : Bytes) (e : UtxoEntry) → lookup k w.created_in_block ≡ some e → Occurs k e w.to_add
  pub removed :
      (k : Bytes)
      → has k w.spent_in_block ≡ false
      → lookup k (delete_all w.to_remove s) ≡ lookup k s

pub Occurs-append :
    (k : Bytes) (e : UtxoEntry) (xs ys : List (Bytes × UtxoEntry))
    → Occurs k e xs
    → Occurs k e (xs ++ ys)
Occurs-append k e [] ys o = absurd o
Occurs-append k e (x ∷ xs) ys (inl same) = inl same
Occurs-append k e (x ∷ xs) ys (inr later) = inr (Occurs-append k e xs ys later)

pub Occurs-last :
    (k : Bytes) (e : UtxoEntry) (xs : List (Bytes × UtxoEntry)) → Occurs k e (xs ++ ((k, e) ∷ []))
Occurs-last k e [] = inl (refl, refl)
Occurs-last k e (x ∷ xs) = inr (Occurs-last k e xs)

module _ (s : Entries) (w : Pending) (paid made : ℕ) (g : IsBalanced s w paid made) (p : OutPoint)
    (e : UtxoEntry) (restored : List SpentOutput)
    (unspent : has (key_of p) w.spent_in_block ≡ false) where
  spend_removed :
      (k : Bytes)
      → has k (spend (key_of p) restored w).spent_in_block ≡ false
      → lookup k (delete_all (spend (key_of p) restored w).to_remove s) ≡ lookup k s
  unfolding spend
  spend_removed k h = rw delete_all-append (
      ground (
        arith,
        lookup-delete (key_of p) k (delete_all w.to_remove s),
        has-insert (key_of p) k tt w.spent_in_block,
        g.removed k,
      ))

  spend-Occurs :
      (k : Bytes) (d : UtxoEntry)
      → lookup k (spend (key_of p) restored w).created_in_block ≡ some d
      → Occurs k d w.to_add
  unfolding spend
  spend-Occurs k d h = g.occurs k d (ground (arith, lookup-delete (key_of p) k w.created_in_block))

  spend_new-IsBalanced :
      lookup (key_of p) w.created_in_block ≡ some e
      → IsBalanced s (spend (key_of p) restored w) (paid + e.value) made
  unfolding spend
  spend_new-IsBalanced found = record {
    balance = rw delete_all-append (
        omega (
          arith,
          g.balance,
          sum_values-delete_le (key_of p) (delete_all w.to_remove s),
          unspent_sum-insert (key_of p) e w.spent_in_block w.to_add unspent
              (g.occurs (key_of p) e found),
        ));
    occurs = spend-Occurs;
    removed = spend_removed;
  }

  spend_old-IsBalanced :
      lookup (key_of p) s ≡ some e
      → IsBalanced s (spend (key_of p) restored w) (paid + e.value) made
  unfolding spend
  spend_old-IsBalanced found = record {
    balance = rw delete_all-append (
        omega (
          arith,
          g.balance,
          sum_values-delete (key_of p) e (delete_all w.to_remove s)
              (g.removed (key_of p) unspent ∙ found),
          unspent_sum-insert_le (key_of p) w.spent_in_block w.to_add,
        ));
    occurs = spend-Occurs;
    removed = spend_removed;
  }

abbrev FindsAndSpends : Entries → View → Pending → OutPoint → ℕ → ℕ → Type 0
FindsAndSpends s v w p paid made =
    (w' : Pending) × (find_and_spend (lookup (key_of p) w.created_in_block) (lookup (key_of p) s) p
        w
      ≡ ok w')
    × Follows v w'
    × IsBalanced s w' paid made

-- The view after one input.
abbrev spent_view : Bytes → View → View
spent_view key v = record {
  spent_in_block = insert key tt v.spent_in_block;
  created_in_block = delete key v.created_in_block;
}

find_and_spend-Follows :
    (s : Entries) (v : View) (w : Pending) (p : OutPoint) (e : UtxoEntry) (paid made : ℕ)
    → Follows v w
    → IsBalanced s w paid made
    → has (key_of p) w.spent_in_block ≡ false
    → resolve (lookup (key_of p) w.created_in_block) (lookup (key_of p) s) ≡ ok e
    → FindsAndSpends s (spent_view (key_of p) v) w p (paid + e.value) made
unfolding resolve find_and_spend spend
find_and_spend-Follows s v w p e paid made f g unspent h =
    elim (Option-cases (lookup (key_of p) w.created_in_block)) [
      | inr (d, new) ↦
          let same : d ≡ e = ok-injective (rw new at h) in
          (
            spend (key_of p) [] w,
            rw new,
            follows [],
            spend_new-IsBalanced s w paid made g p e [] unspent (new ∙ ap some same),
          )
      | inl old ↦ elim (Option-cases (lookup (key_of p) s)) [
        | inr (d, found) ↦
            let same : d ≡ e = ok-injective (rw (old, found) at h) in
            let undo = record { out_point = p; entry = d } ∷ [] in
            (
              spend (key_of p) undo w,
              rw (old, found),
              follows undo,
              spend_old-IsBalanced s w paid made g p e undo unspent (found ∙ ap some same),
            )
        | inl missing ↦ cc (old, missing, h)
      ]
    ]
  where
    follows :
        (undo : List SpentOutput) → Follows (spent_view (key_of p) v) (spend (key_of p) undo w)
    follows undo = record {
      spent = ap (insert (key_of p) tt) f.spent;
      created = ap (delete (key_of p)) f.created;
    }

abbrev pub ConnectsInputs :
    Entries → List TxInput → Map (Unit {0}) → View → Pending → ℕ → ℕ → Type 0
ConnectsInputs s is seen v w paid made =
    (w' : Pending) × (connect_inputs s is seen w ≡ ok w') × Follows v w' × IsBalanced s w' paid made

connect_inputs_step :
    (s : Entries) (i : TxInput) (is : List TxInput) (seen : Map (Unit {0})) (w w₁ : Pending)
    → has (key_of i.previous_out_point) seen ≡ false
    → has (key_of i.previous_out_point) w.spent_in_block ≡ false
    → let key = key_of i.previous_out_point in
      find_and_spend (lookup key w.created_in_block) (lookup key s) i.previous_out_point w ≡ ok w₁
      → connect_inputs s (i ∷ is) seen w
        ≡ connect_inputs s is (insert (key_of i.previous_out_point) tt seen) w₁
unfolding connect_inputs
connect_inputs_step s i is seen w w₁ new unspent found = rw (new, unspent, found)

-- Inputs that are accepted are connected, and paid for.
pub connect_inputs-Follows :
    (p : ChainParams) (height : ℕ) (s : Entries) (is : List TxInput) (seen : Map (Unit {0}))
    (v : View) (w : Pending) (t paid made : ℕ) (r : Inputs)
    → Follows v w
    → IsBalanced s w (paid + t) made
    → t ≤ max_money_value
    → validate_inputs p height s is seen v t ≡ ok r
    → ConnectsInputs s is seen r.0 w (paid + r.1) made × (r.1 ≤ max_money_value)
unfolding validate_inputs connect_inputs
connect_inputs-Follows p height s [] seen v w t paid made r f g small h =
    subst
      (λ (r : Inputs). ConnectsInputs s [] seen r.0 w (paid + r.1) made × (r.1 ≤ max_money_value))
      (ok-injective h) ((w, refl, f, g), small)
connect_inputs-Follows p height s (i ∷ is) seen v w t paid made r f g small h =
    let key = key_of i.previous_out_point in
    after_test (has key seen) _ _ h λ new h₁.
      after_test (has key v.spent_in_block) _ _ h₁ λ unspent h₂.
        after (resolve (lookup key v.created_in_block) (lookup key s)) _ h₂ λ e found h₃.
          after (check_maturity p height e) _ h₃ λ u mature h₄.
            after (add_input_value t e) _ h₄ λ t₁ added h₅.
              after (validate_inputs p height s is (insert key tt seen) (spent_view key v) t₁) _ h₅
                λ r₁ ran done.
                  let (sum₁, small₁) = add_input_value-eq_ok t t₁ e added in
                  let unspent' : has key w.spent_in_block ≡ false =
                    ap (has key) (sym f.spent) ∙ unspent in
                  let (w₁, steps, f₁, g₁) =
                    find_and_spend-Follows s v w i.previous_out_point e (paid + t) made f g unspent'
                      (subst (λ m. resolve (lookup key m) (lookup key s) ≡ ok e) f.created found) in
                  let paid₁ : paid + t + e.value ≡ paid + t₁ = omega (arith, sum₁) in
                  let ((w₂, ran₂, f₂, g₂), small₂) =
                    connect_inputs-Follows p height s is (insert key tt seen) (spent_view key v) w₁
                      t₁ paid made r₁ f₁ (subst (λ n. IsBalanced s w₁ n made) paid₁ g₁) small₁
                      ran in
                  subst
                    (λ (r : Inputs).
                      ConnectsInputs s (i ∷ is) seen r.0 w (paid + r.1) made
                      × (r.1 ≤ max_money_value))
                    (ok-injective done)
                    (
                      (w₂, connect_inputs_step s i is seen w w₁ new unspent' steps ∙ ran₂, f₂, g₂),
                      small₂,
                    )
