-- ===== src/Worker/Persons/Intervals.antt =====
-- The time patches in processor.py: what is left of the video, where they meet, and where they are
-- many. A count of people on screen is an integer, as in the source.
pub mod Points
pub mod Sweep
pub mod Many
pub mod Twice
pub mod Merged
pub mod Counted
use video_flow.Prelude.{
  ℕ, ◌+◌, ◌*◌, Bool, true, false, ◌&&◌, ◌||◌, Option, none, some, List, [], ◌∷◌, ◌++◌, ltb, leb,
  ◌==◌, if◌then◌else◌, select, max,
}
use video_flow.Prelude.Int.{ℤ, pos, pos_part, neg_part, ◌+ℤ◌, ◌-ℤ◌, ltb_ℤ}
use video_flow.Prelude.Text.{Text, text, text_eq}
use video_flow.Prelude.Sorting.{sort}
use video_flow.Worker.TimePatch.{TimePatch, update_end_time, calc_time_scale}
use video_flow.Worker.Tracking.{ms, patch_at, reverse_from, by_start, extend_last}

-- The default of `min_time_interval` in TimePatch
abbrev pub default_interval : ℕ
default_interval = 3000

-- _get_reversed_time_patchs: the loop of TrackingSequence.reverse, up to the end of the video
unfoldable pub reversed_time_patchs : ℕ → List TimePatch → List TimePatch
unfolding reverse_from
reversed_time_patchs video_duration time_patchs =
    reverse_from default_interval 0 time_patchs video_duration

-- `p._calc_time_scale(p.time_unit or "ms")`
abbrev pub scale_of : TimePatch → ℕ
scale_of p = calc_time_scale (elim p.time_unit [ none ↦ ms | some u ↦ u ])

-- The patches that _get_tracking_sequences keeps: `end_time - start_time > min_interval`
unfoldable pub long_patchs : ℕ → List TimePatch → List TimePatch
unfolding calc_time_scale
long_patchs min_interval time_patchs =
    select (λ p. ltb (p.start_time * scale_of p + min_interval) (p.end_time * scale_of p))
      time_patchs

-- The loop of _merge_intervals, from the last merged patch on.
unfoldable pub merge_next : TimePatch → List TimePatch → List TimePatch
unfolding update_end_time
merge_next last [] = last ∷ []
merge_next last (p ∷ ps) = elim (ltb last.end_time p.start_time) [
  | true ↦ last ∷ merge_next p ps
  | false ↦ merge_next (update_end_time last (max last.end_time p.end_time) ms) ps
]

unfoldable pub merged : List TimePatch → List TimePatch
unfolding merge_next
merged [] = []
merged (p ∷ ps) = merge_next p ps

-- _merge_intervals
unfoldable pub merge_intervals : List TimePatch → List TimePatch
unfolding merged sort
merge_intervals time_patchs = merged (sort by_start time_patchs)

-- A time point: the start of a patch ("l") or its end ("r").
pub data Side : Type 0 where
  l : Side
  r : Side

pub record Point : Type 0 where
  pub time : ℕ
  pub side : Side

abbrev pub is_start : Side → Bool
is_start l = true
is_start r = false

abbrev pub time_points : List TimePatch → List Point
time_points [] = []
time_points (p ∷ ps) =
    record { time = p.start_time; side = l }
    ∷ record { time = p.end_time; side = r }
    ∷ time_points ps

-- The key `(x[0], -ord(x[1]))`: at one time, the ends come first.
abbrev pub side_le : Side → Side → Bool
side_le r s = true
side_le l l = true
side_le l r = false

abbrev pub point_le : Point → Point → Bool
point_le a b = ltb a.time b.time || (a.time == b.time && side_le a.side b.side)

abbrev pub eqb_ℤ : ℤ → ℤ → Bool
eqb_ℤ a b = pos_part a + neg_part b == pos_part b + neg_part a

-- `cnt` after the point
abbrev pub counted : Side → ℤ → ℤ
counted l cnt = cnt +ℤ pos 1
counted r cnt = cnt -ℤ pos 1

-- One round of the loop of _get_time_patch_count; `none` where `res_time_patchs[-1]` raises.
unfoldable pub after_point : ℤ → Point → ℤ → ℤ → List TimePatch → Option (List TimePatch)
unfolding extend_last
after_point num_of_people point last_cnt cnt res =
    if eqb_ℤ cnt (num_of_people +ℤ pos 1) && ltb_ℤ last_cnt cnt
    then some (res ++ (patch_at default_interval point.time ∷ []))
    else if eqb_ℤ last_cnt (num_of_people +ℤ pos 1) && ltb_ℤ cnt last_cnt
    then extend_last res point.time
    else some res

unfoldable pub count_points : ℤ → ℤ → List Point → List TimePatch → Option (List TimePatch)
unfolding after_point ◌+ℤ◌ ◌-ℤ◌
count_points num_of_people cnt [] res = some res
count_points num_of_people cnt (point ∷ points) res =
    elim (after_point num_of_people point cnt (counted point.side cnt) res) [
      | none ↦ none
      | some res' ↦ count_points num_of_people (counted point.side cnt) points res'
    ]

-- _get_time_patch_count
unfoldable pub get_time_patch_count : List TimePatch → ℤ → Option (List TimePatch)
unfolding count_points sort
get_time_patch_count time_patchs num_of_people =
    if ltb_ℤ num_of_people (pos 0)
    then some []
    else count_points num_of_people (pos 0) (sort point_le (time_points time_patchs)) []
