-- ===== src/TimeAdjust/Sound.antt =====
-- What peers can do to the clock.
use go_chain.Prelude.{
  ℕ, ◌+◌, ◌/◌, ◌≤◌, ◌<◌, ◌≡◌, refl, false, List, [], ◌∷◌, ◌++◌, leb, if◌then◌else◌, length,
  length-append, get_or, arith, Bool-cases, inl, inr,
}
use go_chain.KeyMap.{has, insert}
use go_chain.Types.Bytes.{Bytes}
use go_chain.TimeAdjust.{
  ℤ, pos, negsuc, int_less, minus, max_samples, min_samples, AdjustedClock, new_clock, sort_offsets,
  too_far, recalc_median, drop_first, add_sample,
}

-- An offset of at most 70 minutes, forwards or backwards: 4200 seconds.
abbrev pub IsNear : ℤ → Type 0
IsNear (pos n) = n ≤ 4200
IsNear (negsuc n) = n + 1 ≤ 4200

too_far-IsNear : (m : ℤ) → too_far m ≡ false → IsNear m
unfolding too_far int_less
too_far-IsNear (pos n) h = ground (arith, h)
too_far-IsNear (negsuc n) h = ground (arith, h)

-- Between one and 200 samples; no offset before there are five; and none above 70 minutes.
pub record IsSound (c : AdjustedClock) : Type 0 where
  pub few : length c.offsets ≤ 200
  pub some_offset : 1 ≤ length c.offsets
  pub unused : length c.offsets < 5 → c.median ≡ pos 0
  pub near : IsNear c.median

recalc_median-IsSound :
    (c : AdjustedClock)
    → length c.offsets ≤ 200
    → 1 ≤ length c.offsets
    → (length c.offsets < 5 → c.median ≡ pos 0)
    → IsNear c.median
    → IsSound (recalc_median c)
unfolding recalc_median
recalc_median-IsSound c few some_offset unused near =
    let sorted = sort_offsets c.offsets in
    let med = get_or sorted (length sorted / 2) (pos 0) in
    elim (Bool-cases (leb min_samples (length c.offsets))) [
      | inr below ↦
          rw (recalc_median, below)
            record { few = few; some_offset = some_offset; unused = unused; near = near }
      | inl enough ↦ elim (Bool-cases (too_far med)) [
        | inl far ↦
            rw (recalc_median, enough, far)
              record {
                few = few;
                some_offset = some_offset;
                unused = λ h. refl;
                near = omega arith;
              }
        | inr close ↦
            rw (recalc_median, enough, close)
              record {
                few = few;
                some_offset = some_offset;
                unused = λ h. absurd (ground (arith, enough, h));
                near = too_far-IsNear med close;
              }
      ]
    ]

-- What AddSample keeps leaves room for one more, and drops none of a short list.
length-kept :
    (xs : List ℤ)
    → length xs ≤ max_samples
    → (length (if leb max_samples (length xs) then drop_first xs else xs) + 1 ≤ max_samples)
      × (length xs ≤ length (if leb max_samples (length xs) then drop_first xs else xs) + 1)
unfolding drop_first
length-kept [] h = (omega arith, omega arith)
length-kept (x ∷ xs) h = (ground (arith, h), ground (arith, h))

add_sample-IsSound :
    (addr : Bytes) (peer_time : ℤ) (now : ℕ) (c : AdjustedClock)
    → IsSound c
    → IsSound (add_sample addr peer_time now c)
unfolding add_sample drop_first
add_sample-IsSound addr peer_time now c s = elim (Bool-cases (has addr c.known)) [
  | inl known ↦ rw (add_sample, known) s
  | inr new ↦
      let kept = if leb max_samples (length c.offsets) then drop_first c.offsets else c.offsets in
      let more = kept ++ (minus peer_time now ∷ []) in
      let size = length-kept c.offsets s.few in
      let grown = length-append kept (minus peer_time now ∷ []) in
      rw (add_sample, new)
        (recalc_median-IsSound (record c { known = insert addr tt c.known; offsets = more })
          (omega (arith, size.0, grown)) (omega (arith, grown))
          (λ h. s.unused (omega (arith, size.1, grown, h))) s.near)
]

abbrev pub Sample : Type 0
Sample = Bytes × ℤ × ℕ

unfoldable pub add_samples : List Sample → AdjustedClock → AdjustedClock
add_samples [] c = c
add_samples ((addr, peer_time, now) ∷ xs) c = add_samples xs (add_sample addr peer_time now c)

add_samples_keeps : (xs : List Sample) (c : AdjustedClock) → IsSound c → IsSound (add_samples xs c)
unfolding add_samples
add_samples_keeps [] c s = s
add_samples_keeps ((addr, peer_time, now) ∷ xs) c s =
    add_samples_keeps xs (add_sample addr peer_time now c)
      (add_sample-IsSound addr peer_time now c s)

-- Whatever times any number of peers send, the clock keeps between 1 and 200 samples, its median is 0 as
-- long as there are fewer than five, and it is never more than 70 minutes ahead or behind.
pub add_samples-IsSound : (xs : List Sample) → IsSound (add_samples xs new_clock)
unfolding new_clock
add_samples-IsSound xs =
    add_samples_keeps xs new_clock record {
      few = omega arith;
      some_offset = omega arith;
      unused = λ h. refl;
      near = omega arith;
    }
