-- ===== src/Chain/Reorg/AllOrNothing.antt =====
-- The whole of reorg: it refuses and changes nothing, or the set is that of the new branch.
use go_chain.Prelude.{
  ℕ, ◌+◌, ◌-◌, ◌*◌, ◌%◌, ◌^◌, ◌≡◌, refl, sym, ap, ◌∙◌, subst, List, [], ◌∷◌, ◌++◌, ok, err,
  Bool-cases, Result-cases, ◌⊎◌, inl, inr, ltb, ◌==◌,
}
use go_chain.KeyMap.{Map}
use go_chain.Types.Bytes.{Bytes}
use go_chain.Types.Transaction.{Hash}
use go_chain.Types.Block.{Block}
use go_chain.Crypto.Keys.{Primitives}
use go_chain.Params.{ChainParams}
use go_chain.Utxo.{Entries}
use go_chain.Utxo.Connect.Same.{Same}
use go_chain.Chain.State.{Chain, DiskBlockIndex, ReorgRecord}
use go_chain.Chain.Reorg.{
  ReorgError, too_deep, path_to_fork, disconnect_down, connect_trial, TrialResult, drop_old,
  reversed, old_hashes, recent, sum_depths, check_depth, reorg_depth, trial, set_tip, commit,
  add_record, attempt, reorg,
}
use go_chain.Chain.Reorg.Branch.{
  Built, at_fork, above, disconnect_down-Built, replay, connect_trial-replay,
}
use go_chain.Chain.Reorg.Commit.{AllIndexed, commit_connected-connect_trial}

reversed-AllIndexed :
    (xs ys : List Hash) (index : Map DiskBlockIndex)
    → AllIndexed xs index
    → AllIndexed ys index
    → AllIndexed (reversed xs ys) index
unfolding reversed
reversed-AllIndexed [] ys index h hs = hs
reversed-AllIndexed (x ∷ xs) ys index h hs = reversed-AllIndexed xs (x ∷ ys) index h.1 (h.0, hs)

drop_old-utxo_set : (xs : List (ℕ × Hash)) (c : Chain) → (drop_old xs c).utxo_set ≡ c.utxo_set
unfolding drop_old
drop_old-utxo_set [] c = refl
drop_old-utxo_set ((h, old) ∷ xs) c = drop_old-utxo_set xs _

abbrev pub with_history : Chain → List ReorgRecord → Chain
with_history c hist = record c { reorg_history = hist }

-- The limits change nothing but the history.
pub check_depth-history :
    (p : ChainParams) (now depth : ℕ) (c : Chain)
    → (hist : List ReorgRecord) × ((check_depth p now depth c ≡ (with_history c hist, ok tt))
        ⊎ (check_depth p now depth c ≡ (with_history c hist, err too_deep)))
unfolding check_depth
check_depth-history p now depth c = elim (Bool-cases (p.max_reorg_depth == 0)) [
  | inl e ↦ rw e (c.reorg_history, inl refl)
  | inr e ↦ elim (Bool-cases (ltb p.max_reorg_depth depth)) [
    | inl e2 ↦ rw (e, e2) (c.reorg_history, inr refl)
    | inr e2 ↦
        let hist = recent now c.reorg_history in
        let cumulative = (sum_depths 0 hist + depth) % 2 ^ 32 in
        elim (Bool-cases (ltb (p.max_reorg_depth * 3 % 2 ^ 32) cumulative)) [
          | inl e3 ↦ rw (e, e2, e3) (hist, inr refl)
          | inr e3 ↦ rw (e, e2, e3) (hist, inl refl)
        ]
  ]
]

-- What a chain is built from does not depend on the history.
Built-history :
    (sha256 : Bytes → Bytes) (c : Chain) (base : Entries) (hist : List ReorgRecord) (depth h : ℕ)
    (s : Entries)
    → Built sha256 c base depth h s
    → Built sha256 (with_history c hist) base depth h s
unfolding go_chain.Chain.State.hash_at_height
Built-history sha256 c base hist _ _ _ (at_fork h) = at_fork h
Built-history sha256 c base hist _ _ _
      (above depth h before s hash b rec undo below at stored record_of undone fresh connects) =
    above depth h before s hash b rec undo
      (Built-history sha256 c base hist depth (h - 1) before below) at stored record_of undone fresh
      connects

-- The trial of the new branch fails, on a set with the entries of the fork.
abbrev pub Fails : Primitives → ChainParams → Chain → Entries → List Hash → ℕ → ReorgError → Type 0
Fails q p c base hashes fork e =
    (s : Entries) × Same s base × (connect_trial q p c (reversed hashes []) (fork + 1) s ≡ err e)

-- A chain with the tip, and with the set that a replay of the new branch from the fork leaves.
abbrev pub Follows :
    (Bytes → Bytes) → Map Block → Entries → List Hash → ℕ → Hash → ℕ → Chain → Type 0
Follows sha256 blocks base hashes fork new_hash new_height d =
    (d.tip_hash ≡ new_hash)
    × (d.tip_height ≡ new_height)
    × ((last : Entries) × (replay sha256 blocks (reversed hashes []) (fork + 1) base ≡ ok last)
        × Same d.utxo_set last)

module _ (q : Primitives) (p : ChainParams) (new_hash : Hash) (new_height new_work fork : ℕ)
    (hashes : List Hash) (base : Entries) where
  commit-trial :
      (c : Chain) (s : Entries) (passed : List TrialResult × Entries)
      → AllIndexed hashes c.block_index
      → disconnect_down q.sha256 c (c.tip_height - fork) c.tip_height c.utxo_set ≡ ok s
      → Same s base
      → connect_trial q p c (reversed hashes []) (fork + 1) s ≡ ok passed
      → (d : Chain) × (commit q.sha256 new_hash new_height new_work fork passed.0 c ≡ (d, ok tt))
        × Follows q.sha256 c.blocks base hashes fork new_hash new_height d
  unfolding commit
  commit-trial c s passed indexed disconnects same ran =
      let (done, commits, same_set) =
        commit_connected-connect_trial q p c c (reversed hashes []) (fork + 1) s passed.1 passed.0
          ran (reversed-AllIndexed hashes [] c.block_index indexed tt) in
      let (last, replays, same_last) =
        connect_trial-replay q p c (reversed hashes []) (fork + 1) s base passed.1 passed.0 same
          ran in
      let old = old_hashes c (c.tip_height - fork) (fork + 1) in
      let tip = set_tip new_hash new_height new_work old in
      (
        record (drop_old old done) {
          tip_hash = new_hash;
          tip_height = new_height;
          tip_work = new_work;
        },
        rw (commit, disconnects) (ap tip commits),
        (
          refl,
          refl,
          (
            last,
            replays,
            subst (λ r. Same r last) (sym (drop_old-utxo_set old done ∙ same_set)) same_last,
          ),
        ),
      )

  attempt-pass :
      (c : Chain) (entry : ReorgRecord) (passed : List TrialResult × Entries)
      → trial q p fork hashes c ≡ ok passed
      → attempt q p entry new_hash new_work fork hashes (c, ok tt)
        ≡ add_record entry (commit q.sha256 new_hash entry.height new_work fork passed.0 c)
  attempt-pass c entry passed h = rw (attempt, h) refl

  attempt-fail :
      (c : Chain) (entry : ReorgRecord) (e : ReorgError)
      → trial q p fork hashes c ≡ err e
      → attempt q p entry new_hash new_work fork hashes (c, ok tt) ≡ (c, err e)
  attempt-fail c entry e h = rw (attempt, h) refl

  -- On a chain whose blocks above the fork are in the store and were connected in turn, from `base`,
  -- with the undo data of their records, each onto a set that had none of the outputs that the block
  -- creates, and with a record of every block of the new branch, a reorganisation to a fork that
  -- phase 0 finds is all or nothing. The condition on the outputs is one that the code does not check.
  -- Either it fails, because of a limit on the depth or because the trial of the new branch fails on
  -- a set with the entries of `base`, and then only the history of reorganisations may have changed.
  -- Or it succeeds, the tip is the new one, and the live set has at every outpoint what it has when
  -- the new branch is connected to `base`.
  pub reorg_lem :
      (now : ℕ) (c : Chain)
      → path_to_fork (new_height + 1) c new_hash ≡ ok (hashes, fork)
      → Built q.sha256 c base (c.tip_height - fork) c.tip_height c.utxo_set
      → AllIndexed hashes c.block_index
      → ((hist : List ReorgRecord) × (e : ReorgError) × (reorg q p now new_hash new_height new_work
              c
            ≡ (with_history c hist, err e))
          × ((e ≡ too_deep) ⊎ Fails q p (with_history c hist) base hashes fork e))
        ⊎ ((d : Chain) × (reorg q p now new_hash new_height new_work c ≡ (d, ok tt))
            × Follows q.sha256 c.blocks base hashes fork new_hash new_height d)
  unfolding reorg trial
  reorg_lem now c found built indexed =
      let (hist, cases) = check_depth-history p now (reorg_depth c fork) c in
      let c1 : Chain = with_history c hist in
      let entry : ReorgRecord = record {
        height = new_height;
        depth = reorg_depth c fork;
        timestamp = now;
      } in
      let run = attempt q p entry new_hash new_work fork hashes in
      elim cases [
        | inr refused ↦ inl (hist, too_deep, rw (reorg, found) (ap run refused), inl refl)
        | inl checked ↦
            let (s, disconnects, same) =
              disconnect_down-Built q.sha256 c1 base (c.tip_height - fork) c.tip_height c.utxo_set
                c.utxo_set
                (Built-history q.sha256 c base hist (c.tip_height - fork) c.tip_height c.utxo_set
                  built)
                (λ k. refl) in
            elim (Result-cases (connect_trial q p c1 (reversed hashes []) (fork + 1) s)) [
              | inl (passed, ran) ↦
                  let (d, commits, follows) =
                    commit-trial c1 s passed indexed disconnects same ran in
                  inr (
                    record d { reorg_history = d.reorg_history ++ (entry ∷ []) },
                    rw (reorg, found)
                        (ap run checked
                          ∙ attempt-pass c1 entry passed (rw (trial, disconnects) ran)
                          ∙ ap (add_record entry) commits),
                    follows,
                  )
              | inr (e, failed) ↦ inl (
                hist,
                e,
                rw (reorg, found)
                    (ap run checked ∙ attempt-fail c1 entry e (rw (trial, disconnects) failed)),
                inr (s, same, failed),
              )
            ]
      ]
