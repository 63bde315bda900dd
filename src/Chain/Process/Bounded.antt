-- ===== src/Chain/Process/Bounded.antt =====
-- The orphan pool of a Chain stays within MaxOrphanBlocks.
use go_chain.Prelude.{
  ℕ, ◌+◌, ◌-◌, ◌≤◌, ◌≡◌, refl, sym, subst, ◌||◌, Bool, true, false, [], ◌∷◌, leb, ltb,
  if◌then◌else◌, length, Result, ok, err, arith, Bool-cases, Option-cases, Result-cases, inl, inr,
}
use go_chain.KeyMap.{Map, lookup, has, insert, delete, bytes_eq, bytes_eq_self}
use go_chain.Types.Bytes.{Bytes}
use go_chain.Types.Transaction.{Hash}
use go_chain.Types.Block.{Block, serialize_header}
use go_chain.Crypto.Hash.{hash_block_header}
use go_chain.Crypto.Keys.{Primitives}
use go_chain.Crypto.Target.{compact_to_big, validate_proof_of_work}
use go_chain.Params.{ChainParams}
use go_chain.Consensus.Pow.{Engine}
use go_chain.Chain.Reorg.{
  ReorgError, too_deep, missing_block, missing_hash, missing_index, missing_undo, no_path,
  bad_inputs, bad_connect, reorg,
}
use go_chain.Chain.Process.{
  ProcessError, Clock, Candidate, examine, record_of, put_block, delete_block, set_height,
  connect_tip,
}
use go_chain.Chain.Process.Pool.{connect_tip-orphans, reorg-orphans}
use go_chain.Chain.Process.Rounds.{orphan_rounds-orphans}
use go_chain.Chain.Process.Arrival.{
  process_orphans, queue_orphan, settle, after_switch, place, process_block,
}
use go_chain.Chain.State.{
  Chain, prune_side_chain_index, OrphanBlock, max_orphan_blocks, orphan_expiry, drop_expired,
  evict_expired_orphans, oldest, evict_oldest, evict_oldest_orphan,
}

length-delete : (k : Bytes) (m : Map OrphanBlock) → length (delete k m) ≤ length m
unfolding delete
length-delete k [] = omega arith
length-delete k ((j, o) ∷ m) = ground (arith, length-delete k m)

length-delete_present :
    (k : Bytes) (m : Map OrphanBlock) → has k m ≡ true → length (delete k m) + 1 ≤ length m
unfolding delete has
length-delete_present k [] h = cc
length-delete_present k ((j, o) ∷ m) h =
    ground (arith, length-delete_present k m, length-delete k m)

length-insert :
    (k : Bytes) (o : OrphanBlock) (m : Map OrphanBlock) → length (insert k o m) ≤ length m + 1
unfolding insert
length-insert k o [] = omega arith
length-insert k o ((j, w) ∷ m) = ground (arith, length-insert k o m)

length-drop_expired : (now : ℕ) (m : Map OrphanBlock) → length (drop_expired now m) ≤ length m
unfolding drop_expired
length-drop_expired now [] = omega arith
length-drop_expired now ((h, o) ∷ m) = elim (Bool-cases (ltb (o.added_at + orphan_expiry) now)) [
  | inl e ↦ rw e (omega (arith, length-drop_expired now m))
  | inr e ↦ rw e (omega (arith, length-drop_expired now m))
]

one_of :
    (b : Bool) (h j r : Hash) (m : Map OrphanBlock)
    → (bytes_eq (if b then j else h) r || has r m) ≡ true
    → (bytes_eq h r || (bytes_eq j r || has r m)) ≡ true
one_of true h j r m e = ground arith
one_of false h j r m e = ground arith

-- The oldest is one of them.
oldest-has :
    (h : Hash) (time : ℕ) (m : Map OrphanBlock)
    → (bytes_eq h (oldest h time m) || has (oldest h time m) m) ≡ true
unfolding oldest has
oldest-has h time [] = rw (bytes_eq_self h) refl
oldest-has h time ((j, o) ∷ m) =
    let older = ltb o.added_at time in
    let h' = if older then j else h in
    let time' = if older then o.added_at else time in
    one_of older h j (oldest h' time' m) m (oldest-has h' time' m)

length-evict_oldest : (m : Map OrphanBlock) → length (evict_oldest m) ≤ length m - 1
unfolding evict_oldest
length-evict_oldest [] = omega arith
length-evict_oldest ((h, o) ∷ m) = omega (
  arith,
  length-delete_present (oldest h o.added_at m) ((h, o) ∷ m)
      (unfold has in oldest-has h o.added_at m),
)

-- The pool of a chain is within the limit.
abbrev Within : Chain → Type 0
Within c = length c.orphans ≤ max_orphan_blocks

queue_orphan-Within :
    (e : Engine) (p : ChainParams) (now : ℕ) (h : Hash) (b : Block) (c : Chain)
    → Within c
    → Within (queue_orphan e p now h b c).0
unfolding queue_orphan evict_expired_orphans evict_oldest_orphan
queue_orphan-Within e p now h b c w =
    elim (Bool-cases (ltb (compact_to_big p.min_bits) (compact_to_big b.header.bits))) [
      | inl easy ↦ rw (queue_orphan, easy) w
      | inr hard ↦
          elim (Result-cases
            (validate_proof_of_work (e.pow_hash (serialize_header b.header)) b.header.bits)) [
              | inr (x, failed) ↦ rw (queue_orphan, hard, failed) w
              | inl (u, passed) ↦
                  let m = drop_expired now c.orphans in
                  let entry : OrphanBlock = record { block = b; added_at = now } in
                  let less = length-drop_expired now c.orphans in
                  elim (Bool-cases (leb max_orphan_blocks (length m))) [
                    | inl full ↦
                        rw (queue_orphan, hard, passed, full)
                          (omega (
                            arith,
                            w,
                            less,
                            length-evict_oldest m,
                            length-insert h entry (evict_oldest m),
                          ))
                    | inr room ↦
                        rw (queue_orphan, hard, passed, room)
                          (ground (arith, length-insert h entry m))
                  ]
            ]
    ]

process_orphans-Within :
    (q : Primitives) (e : Engine) (p : ChainParams) (t : Clock) (parent : Hash) (c : Chain)
    → Within c
    → Within (process_orphans q e p t parent c)
unfolding process_orphans
process_orphans-Within q e p t parent c w =
    omega (arith, w, orphan_rounds-orphans (length c.orphans + 1) q e p t (parent ∷ []) c)

settle-Within :
    (q : Primitives) (e : Engine) (p : ChainParams) (t : Clock) (x : Candidate)
    (r : Chain × Result ProcessError (Unit {0}))
    → Within r.0
    → Within (settle q e p t x r).0
unfolding settle prune_side_chain_index
settle-Within q e p t x (c, err y) w = w
settle-Within q e p t x (c, ok u) w = process_orphans-Within q e p t x.hash c w

after_switch-Within :
    (q : Primitives) (e : Engine) (p : ChainParams) (t : Clock) (x : Candidate)
    (r : Chain × Result ReorgError (Unit {0}))
    → Within r.0
    → Within (after_switch q e p t x r).0
unfolding delete_block
after_switch-Within q e p t x (c, ok u) w = settle-Within q e p t x (c, ok tt) w
after_switch-Within q e p t x (c, err too_deep) w =
    process_orphans-Within q e p t x.hash (set_height x c) w
after_switch-Within q e p t x (c, err missing_block) w = w
after_switch-Within q e p t x (c, err missing_hash) w = w
after_switch-Within q e p t x (c, err missing_index) w = w
after_switch-Within q e p t x (c, err missing_undo) w = w
after_switch-Within q e p t x (c, err no_path) w = w
after_switch-Within q e p t x (c, err (bad_inputs y)) w = w
after_switch-Within q e p t x (c, err (bad_connect y)) w = w

place-Within :
    (q : Primitives) (e : Engine) (p : ChainParams) (t : Clock) (x : Candidate) (c : Chain)
    → Within c
    → Within (place q e p t x c).0
unfolding place put_block
place-Within q e p t x c w =
    let stored : Chain = put_block x (record_of x) c in
    elim (Bool-cases (bytes_eq x.block.header.prev_block c.tip_hash)) [
      | inl on_tip ↦
          rw (place, on_tip)
            (settle-Within q e p t x (connect_tip q p x c) (
              subst (λ (m : Map OrphanBlock). length m ≤ max_orphan_blocks)
                (sym (connect_tip-orphans q p x c)) w))
      | inr aside ↦ elim (Bool-cases (ltb c.tip_work x.work)) [
        | inl heavier ↦
            rw (place, aside, heavier)
              (after_switch-Within q e p t x (reorg q p t.now x.hash x.height x.work stored) (
                subst (λ (m : Map OrphanBlock). length m ≤ max_orphan_blocks)
                  (sym (reorg-orphans q p t.now x.hash x.height x.work stored)) w))
        | inr lighter ↦
            rw (place, aside, lighter)
              (process_orphans-Within q e p t x.hash (set_height x stored) w)
      ]
    ]

-- Whatever block arrives, and whatever becomes of it, an orphan pool of at most 100 blocks has at most
-- 100 afterwards.
pub process_block-orphans :
    (q : Primitives) (e : Engine) (p : ChainParams) (t : Clock) (trusted : Bool) (b : Block)
    (c : Chain)
    → length c.orphans ≤ max_orphan_blocks
    → length (process_block q e p t trusted b c).0.orphans ≤ max_orphan_blocks
unfolding process_block
process_block-orphans q e p t trusted b c w =
    let h = hash_block_header q.sha256 b.header in
    elim (Bool-cases (has h c.height_by_hash)) [
      | inl known ↦ rw (process_block, known) w
      | inr new ↦ elim (Bool-cases (has h c.orphans)) [
        | inl known ↦ rw (process_block, new, known) w
        | inr fresh ↦ elim (Option-cases (lookup b.header.prev_block c.height_by_hash)) [
          | inl orphan ↦
              rw (process_block, new, fresh, orphan) (queue_orphan-Within e p t.now h b c w)
          | inr (n, below) ↦ elim (Result-cases (examine q e p t.now_unix trusted h b n c)) [
            | inr (y, failed) ↦ rw (process_block, new, fresh, below, failed) w
            | inl (x, passed) ↦
                rw (process_block, new, fresh, below, passed) (place-Within q e p t x c w)
          ]
        ]
      ]
    ]
