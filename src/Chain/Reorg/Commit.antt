-- ===== src/Chain/Reorg/Commit.antt =====
-- Phase 2 of reorg does again what phase 1 tried.
use go_chain.Prelude.{
  ℕ, ◌+◌, ◌≡◌, refl, subst, true, List, [], ◌∷◌, some, none, ok, after, ok-injective, arith, All,
  Bool-cases, inl, inr,
}
use go_chain.KeyMap.{Map, lookup, has, insert, has-insert, bytes_eq}
use go_chain.Types.Bytes.{Bytes}
use go_chain.Types.Transaction.{Hash}
use go_chain.Crypto.Keys.{Primitives}
use go_chain.Params.{ChainParams}
use go_chain.Utxo.{Entries, connect_block}
use go_chain.Chain.State.{Chain, DiskBlockIndex, height_key}
use go_chain.Chain.Reorg.{
  missing_block, found, connected, valid_inputs, trial_check, connect_trial, TrialResult,
  commit_connected,
}
use go_chain.Chain.Reorg.Branch.{of_connected}

-- Every hash has a record in the index.
abbrev pub AllIndexed : List Hash → Map DiskBlockIndex → Type 0
AllIndexed hashes index = All (λ h. has h index ≡ true) hashes

AllIndexed-insert :
    (hashes : List Hash) (j : Bytes) (rec : DiskBlockIndex) (index : Map DiskBlockIndex)
    → AllIndexed hashes index
    → AllIndexed hashes (insert j rec index)
AllIndexed-insert [] j rec index h = tt
AllIndexed-insert (x ∷ xs) j rec index (h, hs) =
    (ground (arith, has-insert j x rec index), AllIndexed-insert xs j rec index hs)

lookup-has :
    (k : Bytes) (index : Map DiskBlockIndex)
    → has k index ≡ true
    → (rec : DiskBlockIndex) × (lookup k index ≡ some rec)
unfolding lookup has
lookup-has k [] h = cc
lookup-has k ((j, rec) ∷ m) h = elim (Bool-cases (bytes_eq j k)) [
  | inl e ↦ rw e (rec, refl)
  | inr e ↦ rw e (lookup-has k m (ground arith))
]

abbrev pub on_set : Chain → Entries → Chain
on_set c s = record c { utxo_set = s }

-- What passed the trial commits, from any chain with the set of the trial, and with its last set.
pub commit_connected-connect_trial :
    (q : Primitives) (p : ChainParams) (c d : Chain) (hashes : List Hash) (h : ℕ) (s last : Entries)
    (ts : List TrialResult)
    → connect_trial q p c hashes h s ≡ ok (ts, last)
    → AllIndexed hashes d.block_index
    → (d' : Chain) × (commit_connected q.sha256 ts (on_set d s) ≡ (d', ok tt))
      × (d'.utxo_set ≡ last)
unfolding connect_trial commit_connected
commit_connected-connect_trial q p c d [] h s last ts ran indexed =
    subst
      (λ (r : List TrialResult × Entries).
        (d' : Chain) × (commit_connected q.sha256 r.0 (on_set d s) ≡ (d', ok tt))
        × (d'.utxo_set ≡ r.1))
      (ok-injective ran) (on_set d s, refl, refl)
commit_connected-connect_trial q p c d (hash ∷ hashes) h s last ts ran (is_indexed, indexed) =
    after (found (lookup hash c.blocks) missing_block) _ ran λ b stored ran1.
      after (valid_inputs (trial_check q p c b h s)) _ ran1 λ u valid ran2.
        after (connected (connect_block q.sha256 s b h none)) _ ran2 λ r connects ran3.
          after (connect_trial q p c hashes (h + 1) r.0) _ ran3 λ tail ran4 done.
            let (rec, record_of) = lookup-has hash d.block_index is_indexed in
            let d1 : Chain = record d {
              block_index = insert hash (record rec { undo = some r.1 }) d.block_index;
              height_by_hash = insert hash h d.height_by_hash;
              hash_by_height = insert (height_key h) hash d.hash_by_height;
            } in
            let (d', commits, same) =
              commit_connected-connect_trial q p c d1 hashes (h + 1) r.0 tail.1 tail.0 ran4 (
                AllIndexed-insert hashes hash (record rec { undo = some r.1 }) d.block_index
                  indexed) in
            subst
              (λ (x : List TrialResult × Entries).
                (d' : Chain) × (commit_connected q.sha256 x.0 (on_set d s) ≡ (d', ok tt))
                × (d'.utxo_set ≡ x.1))
              (ok-injective done)
              (
                d',
                rw
                    (
                      commit_connected,
                      of_connected (connect_block q.sha256 s b h none) r connects,
                      record_of,
                    )
                    commits,
                same,
              )
