-- ===== src/Chain/Process/Rounds.antt =====
-- The rounds of processOrphans end, whatever the blocks.
use go_chain.Prelude.{
  ℕ, zero, suc, ◌+◌, ◌≤◌, ◌≡◌, refl, ap, ◌∙◌, List, [], ◌∷◌, ◌++◌, length, length-append, arith,
  ◌⊎◌, inl, inr,
}
use go_chain.KeyMap.{Map}
use go_chain.Types.Transaction.{Hash}
use go_chain.Types.Block.{Block}
use go_chain.Crypto.Keys.{Primitives}
use go_chain.Params.{ChainParams}
use go_chain.Consensus.Pow.{Engine}
use go_chain.Chain.State.{Chain, OrphanBlock}
use go_chain.Chain.Process.{Clock, Adopted, skipped, added, reorganised, adopt}
use go_chain.Chain.Process.Pool.{adopt-orphans}
use go_chain.Chain.Process.Arrival.{
  children, others, insert_by_hash, sort_by_hash, adopt_all, orphan_rounds, process_orphans,
}

-- What a parent's children and the others come to is the pool.
length-children :
    (parent : Hash) (m : Map OrphanBlock)
    → length (children parent m) + length (others parent m) ≡ length m
unfolding children others
length-children parent [] = refl
length-children parent ((h, o) ∷ m) = ground (arith, length-children parent m)

length-insert_by_hash :
    (x : Hash × Block) (xs : List (Hash × Block)) → length (insert_by_hash x xs) ≡ length xs + 1
unfolding insert_by_hash
length-insert_by_hash x [] = refl
length-insert_by_hash x (y ∷ ys) = ground (arith, length-insert_by_hash x ys)

length-sort_by_hash : (xs : List (Hash × Block)) → length (sort_by_hash xs) ≡ length xs
unfolding sort_by_hash
length-sort_by_hash [] = refl
length-sort_by_hash (x ∷ xs) =
    omega (arith, length-insert_by_hash x (sort_by_hash xs), length-sort_by_hash xs)

Adopted-cases : (a : Adopted) → (a ≡ skipped) ⊎ ((a ≡ added) ⊎ (a ≡ reorganised))
Adopted-cases skipped = inl refl
Adopted-cases added = inr (inl refl)
Adopted-cases reorganised = inr (inr refl)

-- The children join the queue at most, and the pool stays.
adopt_all-queue :
    (q : Primitives) (e : Engine) (p : ChainParams) (t : Clock) (xs : List (Hash × Block))
    (queue : List Hash) (c : Chain)
    → (length (adopt_all q e p t xs queue c).1 ≤ length queue + length xs)
      × ((adopt_all q e p t xs queue c).0.orphans ≡ c.orphans)
unfolding adopt_all
adopt_all-queue q e p t [] queue c = (omega arith, refl)
adopt_all-queue q e p t ((h, b) ∷ xs) queue c =
    let r = adopt q e p t h b c in
    let same = adopt-orphans q e p t h b c in
    elim (Adopted-cases r.1) [
      | inl skips ↦
          let rest = adopt_all-queue q e p t xs queue r.0 in
          rw (adopt_all, skips) (omega (arith, rest.0), rest.1 ∙ same)
      | inr (inl adds) ↦
          let rest = adopt_all-queue q e p t xs (queue ++ (h ∷ [])) r.0 in
          rw (adopt_all, adds) (omega (arith, rest.0, length-append queue (h ∷ [])), rest.1 ∙ same)
      | inr (inr ends) ↦ rw (adopt_all, ends) (omega arith, same)
    ]

-- A round takes one hash off what is queued and pooled.
round_shrinks :
    (q : Primitives) (e : Engine) (p : ChainParams) (t : Clock) (parent : Hash) (queue : List Hash)
    (c : Chain)
    → let r =
        adopt_all q e p t
          (sort_by_hash (children parent c.orphans))
          queue
          (record c { orphans = others parent c.orphans }) in
      length r.1 + length r.0.orphans ≤ length queue + length c.orphans
round_shrinks q e p t parent queue c =
    let found = children parent c.orphans in
    let left : Chain = record c { orphans = others parent c.orphans } in
    let (grown, same) = adopt_all-queue q e p t (sort_by_hash found) queue left in
    omega (
      arith,
      grown,
      ap (λ (m : Map OrphanBlock). length m) same,
      length-sort_by_hash found,
      length-children parent c.orphans,
    )

-- No round adds to the pool.
pub orphan_rounds-orphans :
    (k : ℕ) (q : Primitives) (e : Engine) (p : ChainParams) (t : Clock) (queue : List Hash)
    (c : Chain)
    → length (orphan_rounds k q e p t queue c).0.orphans ≤ length c.orphans
unfolding orphan_rounds
orphan_rounds-orphans zero q e p t queue c = omega arith
orphan_rounds-orphans (suc k) q e p t [] c = omega arith
orphan_rounds-orphans (suc k) q e p t (parent ∷ queue) c =
    let left : Chain = record c { orphans = others parent c.orphans } in
    let r = adopt_all q e p t (sort_by_hash (children parent c.orphans)) queue left in
    let (grown, same) =
      adopt_all-queue q e p t (sort_by_hash (children parent c.orphans)) queue left in
    omega (
      arith,
      orphan_rounds-orphans k q e p t r.1 r.0,
      ap (λ (m : Map OrphanBlock). length m) same,
      length-children parent c.orphans,
    )

-- On fuel for the queue and the pool, the rounds end with nothing queued.
orphan_rounds-done :
    (k : ℕ) (q : Primitives) (e : Engine) (p : ChainParams) (t : Clock) (queue : List Hash)
    (c : Chain)
    → length queue + length c.orphans ≤ k
    → (orphan_rounds k q e p t queue c).1 ≡ []
unfolding orphan_rounds
orphan_rounds-done zero q e p t [] c h = refl
orphan_rounds-done zero q e p t (x ∷ queue) c h = absurd (omega arith)
orphan_rounds-done (suc k) q e p t [] c h = refl
orphan_rounds-done (suc k) q e p t (parent ∷ queue) c h =
    let left : Chain = record c { orphans = others parent c.orphans } in
    let r = adopt_all q e p t (sort_by_hash (children parent c.orphans)) queue left in
    orphan_rounds-done k q e p t r.1 r.0 (omega (arith, h, round_shrinks q e p t parent queue c))

-- Any two amounts that are enough come to the same.
orphan_rounds-fuel :
    (j k : ℕ) (q : Primitives) (e : Engine) (p : ChainParams) (t : Clock) (queue : List Hash)
    (c : Chain)
    → length queue + length c.orphans ≤ j
    → length queue + length c.orphans ≤ k
    → orphan_rounds j q e p t queue c ≡ orphan_rounds k q e p t queue c
unfolding orphan_rounds
orphan_rounds-fuel zero zero q e p t queue c h i = refl
orphan_rounds-fuel zero (suc k) q e p t [] c h i = refl
orphan_rounds-fuel (suc j) zero q e p t [] c h i = refl
orphan_rounds-fuel zero (suc k) q e p t (x ∷ queue) c h i = absurd (omega arith)
orphan_rounds-fuel (suc j) zero q e p t (x ∷ queue) c h i = absurd (omega arith)
orphan_rounds-fuel (suc j) (suc k) q e p t [] c h i = refl
orphan_rounds-fuel (suc j) (suc k) q e p t (parent ∷ queue) c h i =
    let left : Chain = record c { orphans = others parent c.orphans } in
    let r = adopt_all q e p t (sort_by_hash (children parent c.orphans)) queue left in
    let less = round_shrinks q e p t parent queue c in
    orphan_rounds-fuel j k q e p t r.1 r.0 (omega (arith, h, less)) (omega (arith, i, less))

-- processOrphans ends, with nothing queued, whatever the blocks: any number of rounds that is larger than
-- the orphan pool comes to its chain and to an empty queue.
pub process_orphans-rounds :
    (k : ℕ) (q : Primitives) (e : Engine) (p : ChainParams) (t : Clock) (parent : Hash) (c : Chain)
    → length c.orphans + 1 ≤ k
    → orphan_rounds k q e p t (parent ∷ []) c ≡ (process_orphans q e p t parent c, [])
unfolding process_orphans
process_orphans-rounds k q e p t parent c h =
    let n = length c.orphans + 1 in
    orphan_rounds-fuel k n q e p t (parent ∷ []) c (omega (arith, h)) (omega arith)
    ∙ ap (λ (queue : List Hash). ((orphan_rounds n q e p t (parent ∷ []) c).0, queue))
        (orphan_rounds-done n q e p t (parent ∷ []) c (omega arith))
