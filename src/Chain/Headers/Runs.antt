-- ===== src/Chain/Headers/Runs.antt =====
-- Any sequence of headers from NewHeaderIndex on, and the ancestors that validation looks up.
use go_chain.Prelude.{
  ℕ, ◌+◌, ◌^◌, ◌≤◌, ◌<◌, ◌≡◌, refl, sym, ap, subst, ◌∙◌, inl, inr, true, List, [], ◌∷◌, Option,
  some, none, length, get_elem?, arith, Bool-cases, Option-cases,
}
use go_chain.KeyMap.{lookup}
use go_chain.KeyMap.Distinct.{AllPairs-lookup}
use go_chain.Types.Bytes.{Bytes}
use go_chain.Types.Block.{BlockHeader}
use go_chain.Params.{ChainParams}
use go_chain.Consensus.Pow.{Engine}
use go_chain.Chain.Headers.{
  HeaderNode, node_hash, node_height, node_header, HeaderIndex, new_header_index,
  insert_trusted_header, add_header, on_best_chain, walk_back, build_ancestor_lookup,
}
use go_chain.Chain.Headers.Paths.{
  path, same_node→eq, get_elem?-slots, path_below, walk_back-path, length-path,
  get_elem?-slots_back,
}
use go_chain.Chain.Headers.Valid.{IsIndexed, IsValid, new_header_index-IsValid}
use go_chain.Chain.Headers.Valid.Keeps.{add_header-IsValid, insert_trusted_header-IsValid}

-- AddHeader at a time, or InsertTrustedHeader.
pub data Arrival : Type 0 where
  checked : BlockHeader → ℕ → Arrival
  trusted : BlockHeader → Arrival

unfoldable pub arrive : (Bytes → Bytes) → Engine → ChainParams → HeaderIndex → Arrival → HeaderIndex
arrive sha256 e p idx (checked header now) = (add_header sha256 e p header now idx).0
arrive sha256 e p idx (trusted header) = (insert_trusted_header sha256 header idx).0

unfoldable pub arrive_all :
    (Bytes → Bytes) → Engine → ChainParams → HeaderIndex → List Arrival → HeaderIndex
arrive_all sha256 e p idx [] = idx
arrive_all sha256 e p idx (x ∷ xs) = arrive_all sha256 e p (arrive sha256 e p idx x) xs

module _ (sha256 : Bytes → Bytes) (e : Engine) (p : ChainParams) where
  arrive-IsValid :
      (k : ℕ) (idx : HeaderIndex) (x : Arrival)
      → k + 1 < 2 ^ 32
      → IsValid sha256 k idx
      → IsValid sha256 (k + 1) (arrive sha256 e p idx x)
  unfolding arrive
  arrive-IsValid k idx (checked header now) fits v =
      add_header-IsValid sha256 e p k fits header idx v now
  arrive-IsValid k idx (trusted header) fits v =
      insert_trusted_header-IsValid sha256 e p k fits header idx v

  arrive_all_keeps :
      (k : ℕ) (idx : HeaderIndex) (xs : List Arrival)
      → k + length xs < 2 ^ 32
      → IsValid sha256 k idx
      → IsValid sha256 (k + length xs) (arrive_all sha256 e p idx xs)
  unfolding arrive_all
  arrive_all_keeps k idx [] fits v = subst (λ n. IsValid sha256 n idx) (omega arith) v
  arrive_all_keeps k idx (x ∷ xs) fits v =
      subst (λ n. IsValid sha256 n (arrive_all sha256 e p (arrive sha256 e p idx x) xs))
        (omega arith)
        (arrive_all_keeps (k + 1) (arrive sha256 e p idx x) xs (omega (arith, fits))
          (arrive-IsValid k idx x (omega (arith, fits)) v))

  -- After fewer than 2 ^ 32 calls of AddHeader and InsertTrustedHeader, whatever the headers and the
  -- times, every node of the index stands under the hash of its header, one above its parent, whose hash
  -- the header names, with the parent's work and its own, and so down to a root; the best header is in
  -- the index and no header of the index has more work, also after pruning; and the index by height
  -- holds the path from that root to the best header and nothing else.
  pub arrive_all-IsValid :
      (genesis : BlockHeader) (xs : List Arrival)
      → length xs < 2 ^ 32
      → IsValid sha256 (length xs) (arrive_all sha256 e p (new_header_index sha256 genesis) xs)
  arrive_all-IsValid genesis xs fits =
      subst (λ n. IsValid sha256 n (arrive_all sha256 e p (new_header_index sha256 genesis) xs))
        (omega arith)
        (arrive_all_keeps 0 (new_header_index sha256 genesis) xs (omega (arith, fits))
          (new_header_index-IsValid sha256 genesis))

-- The lookup through the index, where the node is on the best chain.
on_best_chain-same :
    (idx : HeaderIndex) (n : HeaderNode)
    → on_best_chain idx n ≡ true
    → get_elem? idx.best_chain_by_height (node_height n) ≡ some (some n)
unfolding on_best_chain
on_best_chain-same idx n e =
    elim (Option-cases (get_elem? idx.best_chain_by_height (node_height n))) [
      | inl missing ↦ ground (arith, missing)
      | inr (slot, there) ↦ of_slot slot there
    ]
  where
    of_slot :
        (slot : Option HeaderNode)
        → get_elem? idx.best_chain_by_height (node_height n) ≡ some slot
        → get_elem? idx.best_chain_by_height (node_height n) ≡ some (some n)
    of_slot none there = ground (arith, there)
    of_slot (some q) there =
        let same : q ≡ n = same_node→eq q n (ground (arith, there, e)) in
        there ∙ ap (λ r. some (some r)) same

shortcut-slot :
    (idx : HeaderIndex) (n q : HeaderNode) (height : ℕ)
    → on_best_chain idx n ≡ true
    → get_elem? idx.best_chain_by_height height ≡ some (some q)
    → build_ancestor_lookup idx n height ≡ some (node_header q)
unfolding build_ancestor_lookup
shortcut-slot idx n q height on slot = rw (on, slot) refl

best_chain-ancestor :
    (sha256 : Bytes → Bytes) (k : ℕ) (idx : HeaderIndex) (n q : HeaderNode) (height : ℕ)
    → IsValid sha256 k idx
    → on_best_chain idx n ≡ true
    → height ≤ node_height n
    → get_elem? (path n) height ≡ some q
    → build_ancestor_lookup idx n height ≡ some (node_header q)
best_chain-ancestor sha256 k idx n q height v on le at_height =
    let best = idx.best_header in
    let linked =
      (AllPairs-lookup (IsIndexed sha256 k) (node_hash best) best idx.by_hash v.nodes
        v.best_in).1 in
    let slot =
      subst (λ l. get_elem? l (node_height n) ≡ some (some n)) v.indexed
        (on_best_chain-same idx n on) in
    let (here, within) = get_elem?-slots_back (path best) (node_height n) n slot in
    let low : node_height n ≤ node_height best =
      omega (arith, within, length-path sha256 best linked) in
    let below = path_below sha256 best n (node_height n) height linked low here le in
    let found = get_elem?-slots (path best) height q (below ∙ at_height) in
    shortcut-slot idx n q height on
      (subst (λ l. get_elem? l height ≡ some (some q)) (sym v.indexed) found)

-- In a valid index the lookup that validation gets for a node of the index gives, at every height up to
-- the node's, the header of its own ancestor at that height, as the walk along the parents does and
-- there always is one: the shortcut through the index by height never shows another fork.
pub build_ancestor_lookup-walk_back :
    (sha256 : Bytes → Bytes) (k : ℕ) (idx : HeaderIndex) (n : HeaderNode) (height : ℕ)
    → IsValid sha256 k idx
    → lookup (node_hash n) idx.by_hash ≡ some n
    → height ≤ node_height n
    → (q : HeaderNode) × (get_elem? (path n) height ≡ some q)
      × (build_ancestor_lookup idx n height ≡ some (node_header q))
      × (walk_back n height ≡ some (node_header q))
unfolding build_ancestor_lookup
build_ancestor_lookup-walk_back sha256 k idx n height v there le =
    let linked =
      (AllPairs-lookup (IsIndexed sha256 k) (node_hash n) n idx.by_hash v.nodes there).1 in
    let (q, at_height, walked) = walk_back-path sha256 n height linked le in
    elim (Bool-cases (on_best_chain idx n)) [
      | inr off ↦ (q, at_height, rw off walked, walked)
      | inl on ↦
          (q, at_height, best_chain-ancestor sha256 k idx n q height v on le at_height, walked)
    ]
