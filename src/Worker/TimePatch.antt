-- ===== src/Worker/TimePatch.antt =====
-- workflow-worker domain/entities/common/time_patch.py: a stretch of time. Times are natural
-- numbers, where the source has floats; a difference is compared by what is added to the other side. A time unit that is `None` is "ms".
pub mod Overlap
use video_flow.Prelude.{
  ℕ, ◌+◌, ◌*◌, ◌/◌, Bool, ◌&&◌, ◌||◌, Option, none, some, leb, ltb, if◌then◌else◌,
}
use video_flow.Prelude.Text.{Text, text, text_eq}

pub record TimePatch : Type 0 where
  pub start_time : ℕ
  pub end_time : ℕ
  pub min_time_interval : Option ℕ
  pub time_unit : Option Text

-- _calc_time_scale: an unknown unit counts as "ms"
unfoldable pub calc_time_scale : Text → ℕ
unfolding text_eq
calc_time_scale unit =
    if text_eq unit (text "ms")
    then 1
    else if text_eq unit (text "s")
    then 1000
    else if text_eq unit (text "min") || text_eq unit (text "m")
    then 60 * 1000
    else if text_eq unit (text "h") || text_eq unit (text "hour")
    then 60 * 1000 * 1000
    else 1

abbrev unit_of : TimePatch → Text
unit_of p = elim p.time_unit [ none ↦ text "ms" | some u ↦ u ]

-- `x * self._calc_time_ratio(time_unit)`: exact where the patch's own unit is "ms", as everywhere in
-- the worker, or where its scale divides the product.
unfoldable pub scaled : TimePatch → Text → ℕ → ℕ
unfolding calc_time_scale
scaled p unit x = x * calc_time_scale unit / calc_time_scale (unit_of p)

-- update_end_time
unfoldable pub update_end_time : TimePatch → ℕ → Text → TimePatch
unfolding scaled
update_end_time p frame_time unit = record p { end_time = scaled p unit frame_time }

-- `self.min_time_interval or 0`
abbrev pub interval_or_zero : TimePatch → ℕ
interval_or_zero p = elim p.min_time_interval [ none ↦ 0 | some n ↦ n ]

-- is_burr: `end - start < min_time_interval`
unfoldable pub is_burr : TimePatch → Bool
is_burr p = ltb p.end_time (p.start_time + interval_or_zero p)

-- is_overlap
unfoldable pub is_overlap : TimePatch → ℕ → ℕ → Bool
is_overlap p start_time end_time =
    if leb p.start_time start_time then leb start_time p.end_time else leb p.start_time end_time

-- is_in
unfoldable pub is_in : TimePatch → ℕ → Text → Bool
unfolding scaled
is_in p time_stamp unit =
    leb p.start_time (scaled p unit time_stamp) && leb (scaled p unit time_stamp) p.end_time
