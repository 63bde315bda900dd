-- ===== src/Consensus/Timestamps/Median.antt =====
-- The median of the last timestamps, and the rule that stands on it.
use go_chain.Prelude.{ℕ, ◌+◌, ◌≤◌, Bool, List, [], ◌∷◌, leb, ltb, if◌then◌else◌, All}
use go_chain.Consensus.Timestamps.{GetAncestor, median_count, collect_timestamps}

-- How many timestamps pass a test.
unfoldable pub count : (ℕ → Bool) → List ℕ → ℕ
count p [] = 0
count p (t ∷ ts) = (if p t then 1 else 0) + count p ts

abbrev pub at_most : ℕ → ℕ → Bool
at_most m t = leb t m

abbrev pub at_least : ℕ → ℕ → Bool
at_least m t = leb m t

-- From the largest on.
abbrev IsDescending : List ℕ → Type 0
IsDescending [] = Unit {0}
IsDescending (t ∷ ts) = All (λ u. u ≤ t) ts × IsDescending ts

-- The timestamps that CalcMedianTimePast looks at.
abbrev pub last_timestamps : ℕ → GetAncestor → List ℕ
last_timestamps tip_height get_ancestor = collect_timestamps get_ancestor tip_height median_count 0

abbrev pub below : ℕ → ℕ → Bool
below m t = ltb t m
