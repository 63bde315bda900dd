-- ===== src/Tests/Clock.antt =====
-- internal/timeadjust: four peers, one of which says that it is the year 2106.
use go_chain.Prelude.{◌≡◌, refl, [], ◌∷◌, List}
use go_chain.KeyMap.{has, insert, bytes_eq}
use go_chain.TimeAdjust.{
  pos, new_clock, add_sample, minus, drop_first, recalc_median, sort_offsets, insert_offset,
  too_far, int_less,
}
use go_chain.TimeAdjust.Sound.{Sample, IsSound, add_samples, add_samples-IsSound}

abbrev samples : List Sample
samples =
    (1 ∷ [], pos 1010, 1000)
    ∷ (2 ∷ [], pos 1003, 1000)
    ∷ (3 ∷ [], pos 4294967295, 1000)
    ∷ (1 ∷ [], pos 1011, 1001)
    ∷ (4 ∷ [], pos 1007, 1002)
    ∷ []

-- The sorted offsets are 0, 3, 5, 10 and a very large one; the second sample of the first peer is ignored.
median_is : (add_samples samples new_clock).median ≡ pos 5
unfolding add_samples new_clock add_sample minus drop_first recalc_median sort_offsets insert_offset
    too_far int_less has insert bytes_eq
median_is = refl

add_samples-IsSound_example : IsSound (add_samples samples new_clock)
add_samples-IsSound_example = add_samples-IsSound samples
