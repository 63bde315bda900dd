-- ===== src/Chain/Process/Pool.antt =====
-- The steps of Chain/Process and Chain/Reorg leave the orphan pool alone.
use go_chain.Prelude.{
  ℕ, ◌+◌, ◌-◌, ◌≡◌, refl, ap, ◌∙◌, false, List, [], ◌∷◌, none, ltb, Result, ok, err, Bool-cases,
  Option-cases, Result-cases, inl, inr,
}
use go_chain.KeyMap.{lookup, bytes_eq}
use go_chain.Types.Bytes.{Bytes}
use go_chain.Types.Transaction.{Hash}
use go_chain.Types.Block.{Block}
use go_chain.Crypto.Keys.{Primitives}
use go_chain.Params.{ChainParams}
use go_chain.Utxo.{connect_block}
use go_chain.Consensus.Pow.{Engine}
use go_chain.Consensus.Transactions.{validate_transaction_inputs}
use go_chain.Consensus.Timestamps.{calc_median_time_past}
use go_chain.Chain.State.{Chain, ReorgRecord, extend_chain, build_chain_ancestor_lookup}
use go_chain.Chain.Reorg.{
  ReorgError, too_deep, missing_block, missing_hash, missing_index, missing_undo, no_path,
  bad_inputs, bad_connect, old_hashes, TrialResult, path_to_fork, disconnect_down, commit_connected,
  drop_old, set_tip, commit, check_depth, trial, attempt, add_record, reorg, reorg_depth,
}
use go_chain.Chain.Reorg.Commit.{on_set}
use go_chain.Chain.Reorg.AllOrNothing.{check_depth-history}
use go_chain.Chain.Process.{
  ProcessError, Clock, Candidate, examine, record_of, set_height, delete_block, put_block,
  connect_tip, after_connect, after_reorg, adopt_candidate, adopt,
}

abbrev Checked : Type 0
Checked = Chain × Result ReorgError (Unit {0})

-- A reorganisation leaves the orphans alone.
commit_connected-orphans :
    (sha256 : Bytes → Bytes) (ts : List TrialResult) (c : Chain)
    → (commit_connected sha256 ts c).0.orphans ≡ c.orphans
unfolding commit_connected
commit_connected-orphans sha256 [] c = refl
commit_connected-orphans sha256 (t ∷ ts) c =
    elim (Result-cases (connect_block sha256 c.utxo_set t.block t.height none)) [
      | inr (e, failed) ↦ rw (commit_connected, failed) refl
      | inl (r, connects) ↦ elim (Option-cases (lookup t.hash c.block_index)) [
        | inl missing ↦ rw (commit_connected, connects, missing) refl
        | inr (rec, found) ↦
            rw (commit_connected, connects, found) (commit_connected-orphans sha256 ts _)
      ]
    ]

drop_old-orphans : (xs : List (ℕ × Hash)) (c : Chain) → (drop_old xs c).orphans ≡ c.orphans
unfolding drop_old
drop_old-orphans [] c = refl
drop_old-orphans ((h, old) ∷ xs) c = drop_old-orphans xs _

set_tip-orphans :
    (h : Hash) (height work : ℕ) (old : List (ℕ × Hash)) (r : Chain × Result ReorgError (Unit {0}))
    → (set_tip h height work old r).0.orphans ≡ r.0.orphans
set_tip-orphans h height work old (c, err e) = refl
set_tip-orphans h height work old (c, ok u) = drop_old-orphans old c

commit-orphans :
    (sha256 : Bytes → Bytes) (h : Hash) (height work fork : ℕ) (ts : List TrialResult) (c : Chain)
    → (commit sha256 h height work fork ts c).0.orphans ≡ c.orphans
unfolding commit
commit-orphans sha256 h height work fork ts c =
    elim (Result-cases (disconnect_down sha256 c (c.tip_height - fork) c.tip_height c.utxo_set)) [
      | inr (e, failed) ↦ rw (commit, failed) refl
      | inl (s, disconnects) ↦
          rw (commit, disconnects)
            (set_tip-orphans h height work (old_hashes c (c.tip_height - fork) (fork + 1))
                (commit_connected sha256 ts (on_set c s))
              ∙ commit_connected-orphans sha256 ts (on_set c s))
    ]

add_record-orphans :
    (entry : ReorgRecord) (r : Chain × Result ReorgError (Unit {0}))
    → (add_record entry r).0.orphans ≡ r.0.orphans
add_record-orphans entry (c, err e) = refl
add_record-orphans entry (c, ok u) = refl

attempt-orphans :
    (q : Primitives) (p : ChainParams) (entry : ReorgRecord) (h : Hash) (work fork : ℕ)
    (hashes : List Hash) (r : Chain × Result ReorgError (Unit {0}))
    → (attempt q p entry h work fork hashes r).0.orphans ≡ r.0.orphans
attempt-orphans q p entry h work fork hashes (c, err e) = refl
attempt-orphans q p entry h work fork hashes (c, ok u) =
    elim (Result-cases (trial q p fork hashes c)) [
      | inr (e, failed) ↦ rw (attempt, failed) refl
      | inl (passed, ran) ↦
          rw (attempt, ran)
            (add_record-orphans entry (commit q.sha256 h entry.height work fork passed.0 c)
              ∙ commit-orphans q.sha256 h entry.height work fork passed.0 c)
    ]

pub reorg-orphans :
    (q : Primitives) (p : ChainParams) (now : ℕ) (h : Hash) (height work : ℕ) (c : Chain)
    → (reorg q p now h height work c).0.orphans ≡ c.orphans
unfolding reorg
reorg-orphans q p now h height work c = elim (Result-cases (path_to_fork (height + 1) c h)) [
  | inr (e, failed) ↦ rw (reorg, failed) refl
  | inl (path, found) ↦
      let depth = reorg_depth c path.1 in
      let entry : ReorgRecord = record { height = height; depth = depth; timestamp = now } in
      let (hist, cases) = check_depth-history p now depth c in
      rw (reorg, found)
        (attempt-orphans q p entry h work path.1 path.0 (check_depth p now depth c) ∙ elim cases [
          | inl e ↦ ap (λ (r : Checked). r.0.orphans) e
          | inr e ↦ ap (λ (r : Checked). r.0.orphans) e
        ])
]

pub connect_tip-orphans :
    (q : Primitives) (p : ChainParams) (x : Candidate) (c : Chain)
    → (connect_tip q p x c).0.orphans ≡ c.orphans
unfolding connect_tip put_block extend_chain
connect_tip-orphans q p x c =
    let get_ancestor = build_chain_ancestor_lookup c x.block.header.prev_block x.parent_height in
    let median = calc_median_time_past x.parent_height get_ancestor in
    elim (Result-cases (validate_transaction_inputs q p x.block c.utxo_set x.height median none)) [
      | inr (e, failed) ↦ rw (connect_tip, failed) refl
      | inl (fees, valid) ↦
          elim (Result-cases (connect_block q.sha256 c.utxo_set x.block x.height none)) [
            | inr (e, failed) ↦ rw (connect_tip, valid, failed) refl
            | inl (r, connects) ↦ rw (connect_tip, valid, connects) refl
          ]
    ]

after_connect-orphans :
    (r : Chain × Result ProcessError (Unit {0})) → (after_connect r).0.orphans ≡ r.0.orphans
after_connect-orphans (c, ok u) = refl
after_connect-orphans (c, err e) = refl

after_reorg-orphans : (h : Hash) (r : Checked) → (after_reorg h r).0.orphans ≡ r.0.orphans
unfolding delete_block
after_reorg-orphans h (c, ok u) = refl
after_reorg-orphans h (c, err too_deep) = refl
after_reorg-orphans h (c, err missing_block) = refl
after_reorg-orphans h (c, err missing_hash) = refl
after_reorg-orphans h (c, err missing_index) = refl
after_reorg-orphans h (c, err missing_undo) = refl
after_reorg-orphans h (c, err no_path) = refl
after_reorg-orphans h (c, err (bad_inputs e)) = refl
after_reorg-orphans h (c, err (bad_connect e)) = refl

adopt_candidate-orphans :
    (q : Primitives) (p : ChainParams) (t : Clock) (x : Candidate) (c : Chain)
    → (adopt_candidate q p t x c).0.orphans ≡ c.orphans
unfolding adopt_candidate put_block
adopt_candidate-orphans q p t x c =
    let stored : Chain = set_height x (put_block x (record_of x) c) in
    elim (Bool-cases (bytes_eq x.block.header.prev_block c.tip_hash)) [
      | inl e ↦
          rw (adopt_candidate, e)
            (after_connect-orphans (connect_tip q p x c) ∙ connect_tip-orphans q p x c)
      | inr e ↦ elim (Bool-cases (ltb c.tip_work x.work)) [
        | inr e2 ↦ rw (adopt_candidate, e, e2) refl
        | inl e2 ↦
            rw (adopt_candidate, e, e2)
              (after_reorg-orphans x.hash (reorg q p t.now x.hash x.height x.work stored)
                ∙ reorg-orphans q p t.now x.hash x.height x.work stored)
      ]
    ]

pub adopt-orphans :
    (q : Primitives) (e : Engine) (p : ChainParams) (t : Clock) (h : Hash) (b : Block) (c : Chain)
    → (adopt q e p t h b c).0.orphans ≡ c.orphans
unfolding adopt
adopt-orphans q e p t h b c = elim (Option-cases (lookup b.header.prev_block c.height_by_hash)) [
  | inl unknown ↦ rw (adopt, unknown) refl
  | inr (n, known) ↦ elim (Result-cases (examine q e p t.now_unix false h b n c)) [
    | inr (x, failed) ↦ rw (adopt, known, failed) refl
    | inl (x, passed) ↦ rw (adopt, known, passed) (adopt_candidate-orphans q p t x c)
  ]
]
