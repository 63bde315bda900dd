-- ===== src/Chain/Reorg/Branch.antt =====
-- Phase 1 of reorg against a plain replay: the old branch comes off, and the new one connects where it forked.
use go_chain.Prelude.{
  ℕ, zero, suc, ◌+◌, ◌-◌, ◌≡◌, refl, ap, subst, true, List, [], ◌∷◌, some, none, Result, ok, err,
  ◌>>=◌, after, ok-injective,
}
use go_chain.KeyMap.{Map, lookup, member}
use go_chain.Types.Bytes.{Bytes}
use go_chain.Types.Transaction.{Hash}
use go_chain.Types.Block.{Block}
use go_chain.Crypto.Keys.{Primitives}
use go_chain.Params.{ChainParams}
use go_chain.Utxo.{
  ConnectError, Entries, SpentOutput, created_keys, connect_block, disconnect_block,
}
use go_chain.Utxo.Connect.Same.{Same, disconnect_block-Same, Same-connect_block}
use go_chain.Chain.State.{Chain, DiskBlockIndex, hash_at_height}
use go_chain.Chain.Reorg.{
  ReorgError, missing_block, found, disconnect_down, connected, valid_inputs, trial_check,
  connect_trial, TrialResult,
}

-- The set `s` at height `h` came from `base` by connecting the main chain's blocks of the last
-- `depth` heights, each with the undo data of its record and onto a set with none of its outputs.
pub data Built (sha256 : Bytes → Bytes) (c : Chain) (base : Entries)
    : ℕ → ℕ → Entries → Type 0 where
  at_fork : (h : ℕ) → Built sha256 c base zero h base
  above :
      (depth h : ℕ) (before s : Entries) (hash : Hash) (b : Block) (rec : DiskBlockIndex)
      (undo : List SpentOutput)
      → Built sha256 c base depth (h - 1) before
      → hash_at_height c h ≡ some hash
      → lookup hash c.blocks ≡ some b
      → lookup hash c.block_index ≡ some rec
      → rec.undo ≡ some undo
      → ((k : Bytes)
          → member k (created_keys sha256 b.transactions) ≡ true
          → lookup k before ≡ none)
      → connect_block sha256 before b h none ≡ ok (s, undo)
      → Built sha256 c base (suc depth) h s

-- The disconnecting loop runs to its end and brings back the set at the fork.
pub disconnect_down-Built :
    (sha256 : Bytes → Bytes) (c : Chain) (base : Entries) (depth h : ℕ) (s s' : Entries)
    → Built sha256 c base depth h s
    → Same s' s
    → (t : Entries) × (disconnect_down sha256 c depth h s' ≡ ok t) × Same t base
unfolding disconnect_down
disconnect_down-Built sha256 c base _ _ _ s' (at_fork h) same = (s', refl, same)
disconnect_down-Built sha256 c base _ _ _ s'
      (above depth h before s hash b rec undo below at stored record_of undone fresh connects)
      same =
    rw (at, stored, record_of, undone)
      (disconnect_down-Built sha256 c base depth (h - 1) before (disconnect_block sha256 s' b undo)
        below (disconnect_block-Same sha256 before s s' b h undo fresh connects same))

-- Connecting the blocks of the hashes, with no check of the inputs.
unfoldable pub replay :
    (Bytes → Bytes) → Map Block → List Hash → ℕ → Entries → Result ReorgError Entries
replay sha256 blocks [] h s = ok s
replay sha256 blocks (hash ∷ hashes) h s = do
  b ← found (lookup hash blocks) missing_block
  (s', undo) ← connected (connect_block sha256 s b h none)
  replay sha256 blocks hashes (h + 1) s'

pub of_connected :
    (x : Result ConnectError (Entries × List SpentOutput)) (r : Entries × List SpentOutput)
    → connected x ≡ ok r
    → x ≡ ok r
of_connected (ok r') r h = ap ok (ok-injective h)
of_connected (err e) r h = cc

-- What a trial ends with is what a replay ends with, from any set with the same entries.
pub connect_trial-replay :
    (q : Primitives) (p : ChainParams) (c : Chain) (hashes : List Hash) (h : ℕ)
    (s s' last : Entries) (ts : List TrialResult)
    → Same s s'
    → connect_trial q p c hashes h s ≡ ok (ts, last)
    → (last' : Entries) × (replay q.sha256 c.blocks hashes h s' ≡ ok last') × Same last last'
unfolding connect_trial replay
connect_trial-replay q p c [] h s s' last ts same ran =
    (s', refl, subst (λ (r : List TrialResult × Entries). Same r.1 s') (ok-injective ran) same)
connect_trial-replay q p c (hash ∷ hashes) h s s' last ts same ran =
    after (found (lookup hash c.blocks) missing_block) _ ran λ b stored ran1.
      after (valid_inputs (trial_check q p c b h s)) _ ran1 λ u valid ran2.
        after (connected (connect_block q.sha256 s b h none)) _ ran2 λ r connects ran3.
          after (connect_trial q p c hashes (h + 1) r.0) _ ran3 λ tail ran4 done.
            let (t', connects', same') =
              Same-connect_block q.sha256 s s' r.0 b h none r.1 same
                (of_connected (connect_block q.sha256 s b h none) r connects) in
            let (last', replays, same_last) =
              connect_trial-replay q p c hashes (h + 1) r.0 t' tail.1 tail.0 same' ran4 in
            (
              last',
              rw (stored, connects') replays,
              subst (λ (x : List TrialResult × Entries). Same x.1 last') (ok-injective done)
                  same_last,
            )
