-- ===== src/Consensus/Transactions/Locks/Monotone.antt =====
-- A lock that has opened stays open.
use go_chain.Prelude.{
  ℕ, ◌≤◌, ◌≡◌, ◌≢◌, refl, Bool, true, false, List, [], ◌∷◌, ltb, ◌==◌, arith, ok, fail_if, after,
  after_test, Bool-cases, Option-cases, inl, inr,
}
use go_chain.Types.Transaction.{TxInput, Transaction, input_is_coinbase}
use go_chain.Utxo.{UtxoEntry, Entries, get}
use go_chain.Consensus.Transactions.Locks.{
  TxError, all_final, lock_time_threshold, check_transaction_finality, has_bit, check_relative_lock,
  check_input_lock, check_sequence_locks,
}

fail_if_mono :
    (b b' : Bool) (e : TxError)
    → (b ≡ false → b' ≡ false)
    → fail_if b e ≡ ok tt
    → fail_if b' e ≡ ok tt
fail_if_mono true b' e h f = cc
fail_if_mono false b' e h f = rw (h refl) refl

finality_mono :
    (tx : Transaction) (height height' median median' : ℕ)
    → height ≤ height'
    → median ≤ median'
    → check_transaction_finality tx height median ≡ ok tt
    → check_transaction_finality tx height' median' ≡ ok tt
unfolding check_transaction_finality
finality_mono tx height height' median median' h m f = elim (Bool-cases (tx.lock_time == 0)) [
  | inl unlocked ↦ rw unlocked refl
  | inr locked ↦ elim (Bool-cases (all_final tx.inputs)) [
    | inl final ↦ rw (locked, final) refl
    | inr open_inputs ↦ elim (Bool-cases (ltb tx.lock_time lock_time_threshold)) [
      | inl by_height ↦
          rw (locked, open_inputs, by_height)
            (fail_if_mono _ _ _ (λ b. ground (arith, b, h))
              (rw (locked, open_inputs, by_height) at f))
      | inr by_time ↦
          rw (locked, open_inputs, by_time)
            (fail_if_mono _ _ _ (λ b. ground (arith, b, m))
              (rw (locked, open_inputs, by_time) at f))
    ]
  ]
]

relative_lock_mono :
    (i : TxInput) (height height' : ℕ) (e : UtxoEntry)
    → height ≤ height'
    → check_relative_lock i height e ≡ ok tt
    → check_relative_lock i height' e ≡ ok tt
unfolding check_relative_lock
relative_lock_mono i height height' e h f = after_test (has_bit i.sequence 22) _ _ f λ by_height f₁.
    after_test (ltb height e.height) _ _ f₁ λ above f₂.
      let low : ltb height' e.height ≡ false = ground (arith, above, h) in
      rw (by_height, low) (fail_if_mono _ _ _ (λ b. ground (arith, b, h)) f₂)

input_lock_mono :
    (s : Entries) (height height' : ℕ) (i : TxInput)
    → height ≤ height'
    → check_input_lock s height i ≡ ok tt
    → check_input_lock s height' i ≡ ok tt
unfolding check_input_lock
input_lock_mono s height height' i h f = elim (Bool-cases (has_bit i.sequence 31)) [
  | inl disabled ↦ rw disabled refl
  | inr enabled ↦ elim (Bool-cases (input_is_coinbase i)) [
    | inl coinbase ↦ rw (enabled, coinbase) refl
    | inr other ↦ elim (Option-cases (get s i.previous_out_point.hash i.previous_out_point.index)) [
      | inl missing ↦
          let refused : check_input_lock s height i ≢ ok tt =
            rw (check_input_lock, enabled, other, missing) (λ e. cc) in
          absurd (refused f)
      | inr (entry, found) ↦
          let before : check_relative_lock i height entry ≡ ok tt =
            rw (check_input_lock, enabled, other, found) at f in
          rw (check_input_lock, enabled, other, found)
            (relative_lock_mono i height height' entry h before)
    ]
  ]
]

sequence_locks_mono :
    (s : Entries) (height height' : ℕ) (is : List TxInput)
    → height ≤ height'
    → check_sequence_locks s height is ≡ ok tt
    → check_sequence_locks s height' is ≡ ok tt
unfolding check_sequence_locks
sequence_locks_mono s height height' [] h f = refl
sequence_locks_mono s height height' (i ∷ is) h f =
    after (check_input_lock s height i) _ f λ u here rest.
      rw (input_lock_mono s height height' i h here)
        (sequence_locks_mono s height height' is h rest)

-- A transaction that is final at a height and median time, and whose relative locks are satisfied over a
-- set at that height, is final and has its locks satisfied over the same set at every greater height
-- and median time.
pub locks_mono :
    (tx : Transaction) (s : Entries) (height height' median median' : ℕ)
    → height ≤ height'
    → median ≤ median'
    → check_transaction_finality tx height median ≡ ok tt
    → check_sequence_locks s height tx.inputs ≡ ok tt
    → (check_transaction_finality tx height' median' ≡ ok tt)
      × (check_sequence_locks s height' tx.inputs ≡ ok tt)
locks_mono tx s height height' median median' h m final locks = (
  finality_mono tx height height' median median' h m final,
  sequence_locks_mono s height height' tx.inputs h locks,
)
