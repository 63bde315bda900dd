-- ===== src/Consensus/Transactions/Connects/Outputs.antt =====
-- The outputs of a transaction, in both validators.
use go_chain.Prelude.{
  ℕ, ◌+◌, ◌%◌, ◌^◌, ◌≡◌, ap, Bool, List, [], ◌∷◌, ◌++◌, some, arith, subst, Bool-cases, inl, inr,
}
use go_chain.KeyMap.{bytes_eq, bytes_eq→eq, lookup, insert, lookup-insert}
use go_chain.Types.Bytes.{Bytes}
use go_chain.Types.Transaction.{Hash, TxOutput}
use go_chain.Utxo.{UtxoEntry, Entries, Pending, entry_of, outpoint_key, connect_outputs}
use go_chain.Utxo.Value.{unspent_sum-append, Occurs}
use go_chain.Consensus.Transactions.{View, register_outputs}
use go_chain.Consensus.Transactions.Connects.Amounts.{sum_outputs}
use go_chain.Consensus.Transactions.Connects.Simulation.{
  Follows, IsBalanced, Occurs-append, Occurs-last,
}

module _ (s : Entries) (tx_hash : Hash) (height : ℕ) (coinbase : Bool) where
  create-Occurs :
      (key k : Bytes) (e d : UtxoEntry) (w : Pending) (paid made : ℕ)
      → IsBalanced s w paid made
      → lookup k (insert key e w.created_in_block) ≡ some d
      → Occurs k d (w.to_add ++ ((key, e) ∷ []))
  create-Occurs key k e d w paid made g h = elim (Bool-cases (bytes_eq key k)) [
    | inl same ↦
        let entry : e ≡ d = cc (lookup-insert key k e w.created_in_block, same, h) in
        subst (λ j. Occurs j d (w.to_add ++ ((key, e) ∷ []))) (bytes_eq→eq key k same)
          (subst (λ x. Occurs key x (w.to_add ++ ((key, e) ∷ []))) entry
            (Occurs-last key e w.to_add))
    | inr other ↦
        Occurs-append k d w.to_add ((key, e) ∷ []) (g.occurs k d (rw (lookup-insert, other) at h))
  ]

  -- Outputs are created, and their value is made.
  pub connect_outputs-Follows :
      (n : ℕ) (os : List TxOutput) (v : View) (w : Pending) (paid made : ℕ)
      → Follows v w
      → IsBalanced s w paid made
      → let w' = connect_outputs tx_hash height coinbase n os w in
        Follows
          (record v {
            created_in_block = register_outputs tx_hash height coinbase n os v.created_in_block;
          })
          w'
        × IsBalanced s w' paid (made + sum_outputs os)
  unfolding connect_outputs register_outputs sum_outputs
  connect_outputs-Follows n [] v w paid made f g =
      (f, subst (λ m. IsBalanced s w paid m) (omega arith) g)
  connect_outputs-Follows n (o ∷ os) v w paid made f g =
      let key = outpoint_key tx_hash (n % 2 ^ 32) in
      let e = entry_of o height coinbase in
      let w₁ : Pending = record w {
        created_in_block = insert key e w.created_in_block;
        to_add = w.to_add ++ ((key, e) ∷ []);
      } in
      let g₁ : IsBalanced s w₁ paid (made + o.value) = record {
        balance = omega (arith, g.balance, unspent_sum-append w.spent_in_block w.to_add key e);
        occurs = λ k d h. create-Occurs key k e d w paid made g h;
        removed = g.removed;
      } in
      let (f₂, g₂) =
        connect_outputs-Follows (n + 1) os
          (record v { created_in_block = insert key e v.created_in_block }) w₁ paid (made + o.value)
          (record { spent = f.spent; created = ap (insert key e) f.created }) g₁ in
      (
        f₂,
        subst (λ m. IsBalanced s (connect_outputs tx_hash height coinbase (n + 1) os w₁) paid m)
            (omega arith) g₂,
      )
