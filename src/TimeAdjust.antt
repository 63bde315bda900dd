-- ===== src/TimeAdjust.antt =====
-- internal/timeadjust: the clock that peers adjust. An int64 is an integer here, and the subtraction keeps
-- its wrap-around. The mutex is left out.
pub mod Sound
use go_chain.Prelude.{
  ℕ, zero, suc, ◌+◌, ◌-◌, ◌*◌, ◌/◌, ◌^◌, Bool, true, false, ◌||◌, List, [], ◌∷◌, ◌++◌, leb, ltb,
  if◌then◌else◌, length, get_or,
}
use go_chain.KeyMap.{Map, has, insert}
use go_chain.Types.Bytes.{Bytes}

-- `negsuc n` is -(n + 1).
pub data ℤ : Type 0 where
  pos negsuc : ℕ → ℤ

unfoldable pub int_less : ℤ → ℤ → Bool
int_less (pos a) (pos b) = ltb a b
int_less (pos a) (negsuc b) = false
int_less (negsuc a) (pos b) = true
int_less (negsuc a) (negsuc b) = ltb b a

-- `peerTime - now`, for a clock after 1970.
unfoldable pub minus : ℤ → ℕ → ℤ
minus (pos a) b = if leb b a then pos (a - b) else negsuc (b - a - 1)
minus (negsuc a) b = if ltb (a + b) (2 ^ 63) then negsuc (a + b) else pos (2 ^ 64 - 1 - (a + b))

-- MaxAllowedOffset, in seconds.
abbrev pub max_allowed_offset : ℕ
max_allowed_offset = 70 * 60

abbrev pub min_samples : ℕ
min_samples = 5

abbrev pub max_samples : ℕ
max_samples = 200

pub record AdjustedClock : Type 0 where
  pub offsets : List ℤ
  pub known : Map (Unit {0})
  pub median : ℤ
  pub warned : Bool

-- New
unfoldable pub new_clock : AdjustedClock
new_clock = record { offsets = pos 0 ∷ []; known = []; median = pos 0; warned = false }

-- sort.Slice
unfoldable pub insert_offset : ℤ → List ℤ → List ℤ
insert_offset x [] = x ∷ []
insert_offset x (y ∷ ys) =
    let rest = insert_offset x ys in if int_less x y then x ∷ y ∷ ys else y ∷ rest

unfoldable pub sort_offsets : List ℤ → List ℤ
unfolding insert_offset
sort_offsets [] = []
sort_offsets (x ∷ xs) = insert_offset x (sort_offsets xs)

-- `med > max || med < -max`
unfoldable pub too_far : ℤ → Bool
unfolding int_less
too_far med =
    int_less (pos max_allowed_offset) med || int_less med (negsuc (max_allowed_offset - 1))

-- recalcMedian
unfoldable pub recalc_median : AdjustedClock → AdjustedClock
unfolding sort_offsets too_far
recalc_median c =
    let sorted = sort_offsets c.offsets in
    let med = get_or sorted (length sorted / 2) (pos 0) in
    if leb min_samples (length c.offsets)
    then if too_far med
      then record c { median = pos 0; warned = true }
      else record c { median = med }
    else c

-- `c.offsets[1:]`
unfoldable pub drop_first : List ℤ → List ℤ
drop_first [] = []
drop_first (x ∷ xs) = xs

-- AddSample, at the local time `now`.
unfoldable pub add_sample : Bytes → ℤ → ℕ → AdjustedClock → AdjustedClock
unfolding minus drop_first recalc_median
add_sample addr peer_time now c =
    if has addr c.known
    then c
    else let kept =
        if leb max_samples (length c.offsets) then drop_first c.offsets else c.offsets in
      recalc_median
        (record c { known = insert addr tt c.known; offsets = kept ++ (minus peer_time now ∷ []) })
