-- ===== src/Chain/Headers/Locator.antt =====
-- HeaderLocator reaches the genesis.
use go_chain.Prelude.{
  ℕ, zero, suc, ◌+◌, ◌-◌, ◌*◌, ◌%◌, ◌^◌, ◌≤◌, ◌<◌, ◌≡◌, refl, sym, ap, subst, ◌∙◌, inl, inr, List,
  [], ◌∷◌, some, ltb, leb, ltb→lt, ltb_false→le, ◌==◌, ==_iff, if◌then◌else◌, get_elem?, map, arith,
  Bool-cases,
}
use go_chain.KeyMap.Distinct.{AllPairs-lookup}
use go_chain.Types.Bytes.{Bytes}
use go_chain.Chain.Headers.{
  HeaderNode, root, child, node_hash, node_height, HeaderIndex, step_back, locator_loop,
  header_locator,
}
use go_chain.Chain.Headers.Paths.{IsLinked, path, path_last, length-path, get_elem?-append_left}
use go_chain.Chain.Headers.Valid.{IsIndexed, IsValid}

-- Nodes on the path below `n`, each lower than the one before it, down to height 0.
abbrev pub IsTrail : HeaderNode → List HeaderNode → Type 0
IsTrail n [] = node_height n ≡ 0
IsTrail n (m ∷ ms) =
    (node_height m < node_height n) × (get_elem? (path n) (node_height m) ≡ some m) × IsTrail m ms

record Steps (sha256 : Bytes → Bytes) (n : HeaderNode) (target : ℕ) (m : HeaderNode) : Type 0 where
  at_target : node_height m ≡ target
  on_path : get_elem? (path n) target ≡ some m
  linked : IsLinked sha256 m

step_back-Steps :
    (sha256 : Bytes → Bytes) (n : HeaderNode) (target : ℕ)
    → IsLinked sha256 n
    → target ≤ node_height n
    → Steps sha256 n target (step_back n target)
unfolding step_back
step_back-Steps sha256 (root h n x w) target l le = record {
  at_target = omega (arith, l.1, le);
  on_path = let zero_t : target ≡ 0 = omega (arith, l.1, le) in rw zero_t refl;
  linked = l;
}
step_back-Steps sha256 (child h n x w p) target l le = elim (Bool-cases (ltb target n)) [
  | inr top ↦
      let same : target ≡ n = omega (arith, le, ltb_false→le target n top) in
      rw (step_back, top)
        (record {
          at_target = sym same;
          on_path =
              subst (λ t. get_elem? (path (child h n x w p)) t ≡ some (child h n x w p)) (sym same)
                (path_last sha256 (child h n x w p) l);
          linked = l;
        })
  | inl lower ↦
      let below : target ≤ node_height p = omega (arith, ltb→lt target n lower, l.1) in
      let s = step_back-Steps sha256 p target l.4 below in
      rw (step_back, lower)
        (record {
          at_target = s.at_target;
          on_path =
              get_elem?-append_left (path p) (child h n x w p ∷ []) target
                (omega (arith, length-path sha256 p l.4, below))
              ∙ s.on_path;
          linked = s.linked;
        })
]

-- The next step, and that it never wraps to zero above the genesis.
abbrev next_step : ℕ → ℕ → ℕ
next_step len step = if ltb 10 (len + 1) then step * 2 % 2 ^ 32 else step

abbrev target_of : ℕ → ℕ → ℕ
target_of height step = if leb step height then height - step else 0

steps_on :
    (height len step : ℕ)
    → 0 < height
    → 0 < step
    → height + step ≤ 2 ^ 32
    → (target_of height step < height)
      × (0 < target_of height step
          → (0 < next_step len step) × (target_of height step + next_step len step ≤ 2 ^ 32))
steps_on height len step above some_step fits = (ground arith, λ h. ground arith)

module _ (sha256 : Bytes → Bytes) where
  locator_loop-IsTrail :
      (k : ℕ) (n : HeaderNode) (len step : ℕ)
      → IsLinked sha256 n
      → node_height n < k
      → (0 < node_height n → (0 < step) × (node_height n + step ≤ 2 ^ 32))
      → (ns : List HeaderNode) × (locator_loop k n len step ≡ map node_hash (n ∷ ns)) × IsTrail n ns
  unfolding locator_loop
  locator_loop-IsTrail zero n len step l enough ok_step = absurd (omega (arith, enough))
  locator_loop-IsTrail (suc k) n len step l enough ok_step =
      elim (Bool-cases (node_height n == 0)) [
        | inl bottom ↦ ([], rw (locator_loop, bottom) refl, (==_iff (node_height n) 0).0 bottom)
        | inr above ↦
            let height = node_height n in
            let positive : 0 < height = ground arith in
            let (some_step, fits) = ok_step positive in
            let (lower, next_ok) = steps_on height len step positive some_step fits in
            let target = target_of height step in
            let s = step_back-Steps sha256 n target l (omega (arith, lower)) in
            let m = step_back n target in
            let (ms, rest, trail) =
              locator_loop-IsTrail k m (len + 1) (next_step len step) s.linked
                (omega (arith, s.at_target, lower, enough))
                (subst (λ t. 0 < t → (0 < next_step len step) × (t + next_step len step ≤ 2 ^ 32))
                  (sym s.at_target) next_ok) in
            (
              m ∷ ms,
              rw (locator_loop, above) (ap (λ r. node_hash n ∷ r) rest),
              (
                omega (arith, s.at_target, lower),
                subst (λ t. get_elem? (path n) t ≡ some m) (sym s.at_target) s.on_path,
                trail,
              ),
            )
      ]

  -- In a valid index of headers below height 2 ^ 32 - 1, the locator is the hashes of the best header
  -- and of ancestors of it, each lower than the one before, down to one at height 0: the doubled step
  -- never wraps to zero before the walk is over.
  pub header_locator-IsTrail :
      (k : ℕ) (idx : HeaderIndex)
      → IsValid sha256 k idx
      → k + 1 < 2 ^ 32
      → (ns : List HeaderNode) × (header_locator idx ≡ map node_hash (idx.best_header ∷ ns))
        × IsTrail idx.best_header ns
  unfolding header_locator
  header_locator-IsTrail k idx v fits =
      let best = idx.best_header in
      let indexed =
        AllPairs-lookup (IsIndexed sha256 k) (node_hash best) best idx.by_hash v.nodes v.best_in in
      locator_loop-IsTrail (node_height best + 1) best 0 1 indexed.1 (omega arith)
        (λ h. (omega arith, omega (arith, indexed.2, fits)))
