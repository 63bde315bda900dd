-- ===== src/Chain/Headers/Valid.antt =====
-- What every operation of the header index keeps true.
pub mod Keeps
use go_chain.Prelude.{
  ℕ, zero, suc, ◌+◌, ◌-◌, ◌%◌, ◌^◌, ◌≤◌, ◌<◌, ◌≡◌, refl, sym, ap, subst, ◌∙◌, inl, inr, Bool, true,
  false, ◌&&◌, ◌||◌, List, [], ◌∷◌, ◌++◌, Option, some, none, ltb, ltb→lt, ltb_false→le, leb, ◌==◌,
  if◌then◌else◌, length, get_elem?, arith, Bool-cases, Option-cases, Result-cases, Result, ok, err,
}
use go_chain.KeyMap.{
  Map, lookup, has, insert, delete, member, bytes_eq, bytes_eq_iff, bytes_eq_self, lookup-insert,
}
use go_chain.KeyMap.Distinct.{AllPairs, AllPairs-lookup, AllPairs-insert, lookup→has}
use go_chain.Types.Bytes.{Bytes}
use go_chain.Types.Transaction.{Hash}
use go_chain.Types.Block.{BlockHeader}
use go_chain.Crypto.Hash.{hash_block_header}
use go_chain.Crypto.Target.{calc_work}
use go_chain.Params.{ChainParams}
use go_chain.Consensus.Pow.{Engine, full_validate_header}
use go_chain.Chain.Headers.{
  HeaderNode, root, child, node_hash, node_height, node_header, node_work, same_node, HeaderIndex,
  IndexError, new_header_index, fill_index, extends_chain, rebuild_height_index, chain_hashes,
  drop_stale, prune_stale_forks, replicate, child_of, insert_node, insert_and_prune, add_rejected,
  insert_trusted_header, over_capacity, build_ancestor_lookup, add_below, add_header,
  max_fork_depth,
}
use go_chain.Chain.Headers.Paths.{
  same_node→eq, IsLinked, option_eq, path, slots, slots-append, length-slots-path, get_elem?-slots,
  path_last, path_below, walk_back-path, fill_index-replicate,
}

-- A node of the index: under its own hash, linked down to a root, and no higher than `k`.
abbrev pub IsIndexed : (Bytes → Bytes) → ℕ → Hash → HeaderNode → Type 0
IsIndexed sha256 k h n = (node_hash n ≡ h) × IsLinked sha256 n × (node_height n ≤ k)

pub record IsValid (sha256 : Bytes → Bytes) (k : ℕ) (idx : HeaderIndex) : Type 0 where
  pub nodes : AllPairs (IsIndexed sha256 k) idx.by_hash
  pub best_in : lookup (node_hash idx.best_header) idx.by_hash ≡ some idx.best_header
  pub most_work : AllPairs (λ h n. node_work n ≤ node_work idx.best_header) idx.by_hash
  pub indexed : idx.best_chain_by_height ≡ slots (path idx.best_header)

pub new_header_index-IsValid :
    (sha256 : Bytes → Bytes) (genesis : BlockHeader)
    → IsValid sha256 0 (new_header_index sha256 genesis)
unfolding new_header_index insert lookup
new_header_index-IsValid sha256 genesis = record {
  nodes = ((refl, (refl, refl, refl), omega arith), tt);
  best_in = rw (bytes_eq_self (hash_block_header sha256 genesis)) refl;
  most_work = (omega arith, tt);
  indexed = refl;
}

slot_of : Option HeaderNode → Option (Option HeaderNode) → Option HeaderNode
slot_of d none = d
slot_of d (some n) = n

slot_eq :
    {a b : HeaderNode}
    → ◌≡◌ {A = Option (Option HeaderNode)} (some (some a)) (some (some b))
    → a ≡ b
unfolding slot_of
slot_eq {a} e = option_eq (ap (slot_of (some a)) e)

AllPairs-weaken :
    {V : Type 0} (P Q : Bytes → V → Type 0) (m : Map V)
    → ((k : Bytes) (v : V) → P k v → Q k v)
    → AllPairs P m
    → AllPairs Q m
AllPairs-weaken P Q [] f a = tt
AllPairs-weaken P Q ((k, v) ∷ m) f a = (f k v a.0, AllPairs-weaken P Q m f a.1)

record Extends (n : ℕ) (p : HeaderNode) (index : List (Option HeaderNode)) : Type 0 where
  at_parent : get_elem? index (n - 1) ≡ some (some p)
  one_more : n ≡ length index
  above_root : 0 < n

extends_chain-Extends :
    (h : Hash) (n : ℕ) (x : BlockHeader) (w : ℕ) (p : HeaderNode) (index : List (Option HeaderNode))
    → extends_chain (child h n x w p) index ≡ true
    → Extends n p index
unfolding extends_chain
extends_chain-Extends h n x w p index e = elim (Option-cases (get_elem? index (n - 1))) [
  | inl missing ↦ ground (arith, missing)
  | inr (slot, there) ↦ of_slot slot there
]
  where
    of_slot : (slot : Option HeaderNode) → get_elem? index (n - 1) ≡ some slot → Extends n p index
    of_slot none there = ground (arith, there)
    of_slot (some q) there =
        let tests : ((n == length index) && (ltb 0 n && same_node q p)) ≡ true =
          ground (arith, there, e) in
        let same : q ≡ p = same_node→eq q p (ground (arith, tests)) in
        record {
          at_parent = there ∙ ap (λ r. some (some r)) same;
          one_more = ground (arith, tests);
          above_root = ground (arith, tests);
        }

-- The quick path of rebuildHeightIndex gives what the full one does.
rebuilt-path :
    (sha256 : Bytes → Bytes) (old n : HeaderNode)
    → IsLinked sha256 old
    → IsLinked sha256 n
    → (if extends_chain n (slots (path old))
        then slots (path old) ++ (some n ∷ [])
        else fill_index n (replicate (node_height n + 1) none))
      ≡ slots (path n)
rebuilt-path sha256 old (root h n x w) lo ln =
    elim (Bool-cases (extends_chain (root h n x w) (slots (path old)))) [
      | inl e ↦ unfold extends_chain in cc e
      | inr e ↦ rw e (fill_index-replicate sha256 (root h n x w) ln)
    ]
rebuilt-path sha256 old (child h n x w p) lo ln =
    let me = child h n x w p in
    elim (Bool-cases (extends_chain me (slots (path old)))) [
      | inr e ↦ rw e (fill_index-replicate sha256 me ln)
      | inl e ↦
          let x' = extends_chain-Extends h n x w p (slots (path old)) e in
          let height : n - 1 ≡ node_height old =
            omega (arith, x'.one_more, length-slots-path sha256 old lo) in
          let tip = get_elem?-slots (path old) (node_height old) old (path_last sha256 old lo) in
          let same : old ≡ p = slot_eq (
            sym tip
            ∙ subst (λ k. get_elem? (slots (path old)) k ≡ some (some p)) height x'.at_parent) in
          rw e (
            subst (λ q. slots (path q) ++ (some me ∷ []) ≡ slots (path me)) (sym same)
              (sym (slots-append (path p) (me ∷ []))))
    ]
