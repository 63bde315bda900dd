-- ===== src/Chain/Headers/Paths.antt =====
-- The path from the genesis to a node, and the walks over it.
use go_chain.Prelude.{
  ℕ, zero, suc, ◌+◌, ◌≤◌, ◌<◌, ◌≡◌, refl, sym, ap, subst, ◌∙◌, inl, inr, true, List, [], ◌∷◌, ◌++◌,
  Option, some, none, ltb, ltb→lt, ltb_false→le, ◌==◌, length, length-append, get_elem?, take,
  length-take_le, append_assoc, append-nil, arith, Bool-cases, ==_iff,
}
use go_chain.KeyMap.{bytes_eq→eq}
use go_chain.Types.Bytes.{Bytes}
use go_chain.Types.Block.{BlockHeader}
use go_chain.Crypto.Hash.{hash_block_header}
use go_chain.Crypto.Target.{calc_work}
use go_chain.Chain.Headers.{
  HeaderNode, root, child, node_hash, node_height, node_header, node_work, header_eq, same_node,
  set_at, fill_index, walk_back, replicate,
}

header_eq→eq : (a b : BlockHeader) → header_eq a b ≡ true → a ≡ b
unfolding header_eq
header_eq→eq a b h =
    ground (arith, bytes_eq→eq a.prev_block b.prev_block, bytes_eq→eq a.merkle_root b.merkle_root)

pub same_node→eq : (a b : HeaderNode) → same_node a b ≡ true → a ≡ b
unfolding same_node
same_node→eq (root h n x w) (root h' n' x' w') e =
    ground (arith, bytes_eq→eq h h', header_eq→eq x x')
same_node→eq (root h n x w) (child h' n' x' w' p') e = cc
same_node→eq (child h n x w p) (root h' n' x' w') e = cc
same_node→eq (child h n x w p) (child h' n' x' w' p') e =
    ground (arith, bytes_eq→eq h h', header_eq→eq x x', same_node→eq p p')

-- A node whose hash, height and work follow from its header and its parent, and so down to the root.
abbrev pub IsLinked : (Bytes → Bytes) → HeaderNode → Type 0
IsLinked sha256 (root h n x w) = (h ≡ hash_block_header sha256 x) × (n ≡ 0) × (w ≡ calc_work x.bits)
IsLinked sha256 (child h n x w p) =
    (h ≡ hash_block_header sha256 x)
    × (n ≡ node_height p + 1)
    × (w ≡ node_work p + calc_work x.bits)
    × (x.prev_block ≡ node_hash p)
    × IsLinked sha256 p

-- From the root up.
abbrev pub path : HeaderNode → List HeaderNode
path (root h n x w) = root h n x w ∷ []
path (child h n x w p) = path p ++ (child h n x w p ∷ [])

abbrev pub slots : List HeaderNode → List (Option HeaderNode)
slots [] = []
slots (n ∷ ns) = some n ∷ slots ns

pub slots-append : (xs ys : List HeaderNode) → slots (xs ++ ys) ≡ slots xs ++ slots ys
slots-append [] ys = refl
slots-append (x ∷ xs) ys = ap (λ l. some x ∷ l) (slots-append xs ys)

length-slots : (xs : List HeaderNode) → length (slots xs) ≡ length xs
length-slots [] = refl
length-slots (x ∷ xs) = ap suc (length-slots xs)

pub length-path :
    (sha256 : Bytes → Bytes) (n : HeaderNode)
    → IsLinked sha256 n
    → length (path n) ≡ node_height n + 1
length-path sha256 (root h n x w) l = omega (arith, l.1)
length-path sha256 (child h n x w p) l =
    omega (arith, length-append (path p) (child h n x w p ∷ []), length-path sha256 p l.4, l.1)

pub length-slots-path :
    (sha256 : Bytes → Bytes) (n : HeaderNode)
    → IsLinked sha256 n
    → length (slots (path n)) ≡ node_height n + 1
length-slots-path sha256 n l = length-slots (path n) ∙ length-path sha256 n l

payload : HeaderNode → Option HeaderNode → HeaderNode
payload n none = n
payload n (some m) = m

pub option_eq : {a b : HeaderNode} → ◌≡◌ {A = Option HeaderNode} (some a) (some b) → a ≡ b
unfolding payload
option_eq {a} e = ap (payload a) e

-- Element access.
pub get_elem?-append_left {ℓ} :
    {A : Type ℓ} (xs ys : List A) (i : ℕ) → i < length xs → get_elem? (xs ++ ys) i ≡ get_elem? xs i
get_elem?-append_left [] ys i h = absurd (omega arith)
get_elem?-append_left (x ∷ xs) ys zero h = refl
get_elem?-append_left (x ∷ xs) ys (suc i) h = get_elem?-append_left xs ys i (omega arith)

get_elem?-append_last {ℓ} :
    {A : Type ℓ} (xs : List A) (y : A) (i : ℕ)
    → i ≡ length xs
    → get_elem? (xs ++ (y ∷ [])) i ≡ some y
get_elem?-append_last [] y zero h = refl
get_elem?-append_last [] y (suc i) h = absurd (omega arith)
get_elem?-append_last (x ∷ xs) y zero h = absurd (omega arith)
get_elem?-append_last (x ∷ xs) y (suc i) h = get_elem?-append_last xs y i (omega (arith, h))

pub get_elem?-slots :
    (xs : List HeaderNode) (i : ℕ) (n : HeaderNode)
    → get_elem? xs i ≡ some n
    → get_elem? (slots xs) i ≡ some (some n)
get_elem?-slots [] i n h = cc
get_elem?-slots (x ∷ xs) zero n h = ap some h
get_elem?-slots (x ∷ xs) (suc i) n h = get_elem?-slots xs i n h

-- The last node of a path is its tip.
pub path_last :
    (sha256 : Bytes → Bytes) (n : HeaderNode)
    → IsLinked sha256 n
    → get_elem? (path n) (node_height n) ≡ some n
path_last sha256 (root h n x w) l = rw l.1 refl
path_last sha256 (child h n x w p) l =
    get_elem?-append_last (path p) (child h n x w p) n
      (omega (arith, l.1, length-path sha256 p l.4))

-- Below a node of a path, the path is that of the node.
pub path_below :
    (sha256 : Bytes → Bytes) (n q : HeaderNode) (j i : ℕ)
    → IsLinked sha256 n
    → j ≤ node_height n
    → get_elem? (path n) j ≡ some q
    → i ≤ j
    → get_elem? (path n) i ≡ get_elem? (path q) i
path_below sha256 (root h n x w) q j i l le e lt =
    let zero_j : j ≡ 0 = omega (arith, le, l.1) in
    let same : root h n x w ≡ q =
      option_eq (subst (λ k. get_elem? (root h n x w ∷ []) k ≡ some q) zero_j e) in
    subst (λ r. get_elem? (path (root h n x w)) i ≡ get_elem? (path r) i) same refl
path_below sha256 (child h n x w p) q j i l le e lt = elim (Bool-cases (j == n)) [
  | inl top ↦
      let at_top : j ≡ n = (==_iff j n).0 top in
      let same : child h n x w p ≡ q = option_eq (
        sym (path_last sha256 (child h n x w p) l)
        ∙ subst (λ k. get_elem? (path (child h n x w p)) k ≡ some q) at_top e) in
      subst (λ r. get_elem? (path (child h n x w p)) i ≡ get_elem? (path r) i) same refl
  | inr below ↦
      let len = length-path sha256 p l.4 in
      let lower : j ≤ node_height p = ground (arith, l.1) in
      let in_p : get_elem? (path p) j ≡ some q =
        sym (get_elem?-append_left (path p) (child h n x w p ∷ []) j (omega (arith, len, lower)))
        ∙ e in
      get_elem?-append_left (path p) (child h n x w p ∷ []) i (omega (arith, len, lower, lt))
      ∙ path_below sha256 p q j i l.4 lower in_p lt
]

-- A walk back finds the node of the path.
pub walk_back-path :
    (sha256 : Bytes → Bytes) (n : HeaderNode) (i : ℕ)
    → IsLinked sha256 n
    → i ≤ node_height n
    → (q : HeaderNode) × (get_elem? (path n) i ≡ some q) × (walk_back n i ≡ some (node_header q))
unfolding walk_back
walk_back-path sha256 (root h n x w) i l le =
    let zero_i : i ≡ 0 = omega (arith, le, l.1) in
    (root h n x w, rw zero_i refl, rw (zero_i, l.1) refl)
walk_back-path sha256 (child h n x w p) i l le = elim (Bool-cases (ltb i n)) [
  | inr top ↦
      let at_top : i ≡ n = omega (arith, le, ltb_false→le i n top) in
      (
        child h n x w p,
        subst (λ k. get_elem? (path (child h n x w p)) k ≡ some (child h n x w p)) (sym at_top)
            (path_last sha256 (child h n x w p) l),
        ground (arith, at_top),
      )
  | inl lower ↦
      let below : i ≤ node_height p = omega (arith, ltb→lt i n lower, l.1) in
      let (q, there, walked) = walk_back-path sha256 p i l.4 below in
      (
        q,
        get_elem?-append_left (path p) (child h n x w p ∷ []) i
              (omega (arith, length-path sha256 p l.4, below))
            ∙ there,
        rw (walk_back, lower) walked,
      )
]

set_at-split {ℓ} :
    {A : Type ℓ} (m : ℕ) (x : A) (xs ys : List A)
    → length xs ≡ suc m
    → set_at m x (xs ++ ys) ≡ take m xs ++ (x ∷ ys)
unfolding set_at
set_at-split m x [] ys h = absurd (omega (arith, h))
set_at-split zero x (y ∷ []) ys h = refl
set_at-split zero x (y ∷ z ∷ xs) ys h = absurd (omega (arith, h))
set_at-split (suc m) x (y ∷ xs) ys h = ap (λ l. y ∷ l) (set_at-split m x xs ys (omega (arith, h)))

-- The fill of an index from a tip writes the path at its front.
fill_index-path :
    (sha256 : Bytes → Bytes) (n : HeaderNode) (xs ys : List (Option HeaderNode))
    → IsLinked sha256 n
    → length xs ≡ node_height n + 1
    → fill_index n (xs ++ ys) ≡ slots (path n) ++ ys
unfolding fill_index
fill_index-path sha256 (root h n x w) xs ys l len =
    set_at-split n (some (root h n x w)) xs ys (omega (arith, len)) ∙ rw l.1 refl
fill_index-path sha256 (child h n x w p) xs ys l len =
    let me = child h n x w p in
    let short : length (take n xs) ≡ node_height p + 1 =
      omega (arith, length-take_le n xs (omega (arith, len)), l.1) in
    ap (fill_index p) (set_at-split n (some me) xs ys (omega (arith, len)))
    ∙ (fill_index-path sha256 p (take n xs) (some me ∷ ys) l.4 short
        ∙ rw (slots-append (path p) (me ∷ []), append_assoc) refl)

length-replicate {ℓ} : {A : Type ℓ} (n : ℕ) (x : A) → length (replicate n x) ≡ n
length-replicate zero x = refl
length-replicate (suc n) x = ap suc (length-replicate n x)

pub fill_index-replicate :
    (sha256 : Bytes → Bytes) (n : HeaderNode)
    → IsLinked sha256 n
    → fill_index n (replicate (node_height n + 1) none) ≡ slots (path n)
fill_index-replicate sha256 n l =
    ap (fill_index n) (sym (append-nil (replicate (node_height n + 1) none)))
    ∙ (fill_index-path sha256 n (replicate (node_height n + 1) none) [] l
          (length-replicate (node_height n + 1) none)
        ∙ append-nil (slots (path n)))

pub get_elem?-slots_back :
    (xs : List HeaderNode) (i : ℕ) (n : HeaderNode)
    → get_elem? (slots xs) i ≡ some (some n)
    → (get_elem? xs i ≡ some n) × (i < length xs)
get_elem?-slots_back [] i n h = cc
get_elem?-slots_back (x ∷ xs) zero n h = (slot_eq_inner h, omega arith)
  where
    inner : Option (Option HeaderNode) → Option HeaderNode
    inner none = none
    inner (some o) = o

    slot_eq_inner :
        ◌≡◌ {A = Option (Option HeaderNode)} (some (some x)) (some (some n))
        → ◌≡◌ {A = Option HeaderNode} (some x) (some n)
    slot_eq_inner e = ap inner e
get_elem?-slots_back (x ∷ xs) (suc i) n h =
    let (there, lt) = get_elem?-slots_back xs i n h in (there, omega (arith, lt))
