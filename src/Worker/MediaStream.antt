-- ===== src/Worker/MediaStream.antt =====
-- workflow-worker infrastructure/media_stream/stream.py: how often frames are decoded, and which of
-- them each channel gets. The rates of channels and metadata, floats in the source, are counted in
-- frames per thousand seconds; `int` cuts them to whole frames per second. Metadata without a rate is
-- `none`.
pub mod Sampling
use mathlib.Core.Option
use video_flow.Prelude.{
  ◌*◌, ℕ, zero, ◌+◌, ◌/◌, ◌%◌, Bool, true, false, not, Option, none, some, List, [], ◌∷◌, max,
  select, ltb, ◌==◌, if◌then◌else◌, map,
}

-- `int(rate)`
abbrev pub whole_fps : ℕ → ℕ
whole_fps rate = rate / 1000

-- `max(channel_fps) if channel_fps else 0`
unfoldable pub max_of : List ℕ → ℕ
max_of [] = 0
max_of (n ∷ ns) = max n (max_of ns)

abbrev pub is_positive : ℕ → Bool
is_positive n = ltb 0 n

-- The end of _choose_decode_fps: the channels' rate, capped to the metadata's whole rate.
unfoldable pub capped_fps : ℕ → ℕ → ℕ
capped_fps max_channel_fps meta_fps_int =
    if ltb (meta_fps_int * 1000) max_channel_fps then meta_fps_int else whole_fps max_channel_fps

-- _choose_decode_fps: `none` where it raises RuntimeError. A rate in the metadata is a text, which is
-- truthy even if it is "0".
unfoldable pub choose_decode_fps : List ℕ → Option ℕ → Option ℕ
unfolding capped_fps max_of
choose_decode_fps fps meta_fps =
    let max_channel_fps = max_of (select is_positive fps) in
    if max_channel_fps == 0 then Option.map whole_fps meta_fps else elim meta_fps [
      | none ↦ some (whole_fps max_channel_fps)
      | some m ↦ some (capped_fps max_channel_fps (whole_fps m))
    ]

-- The step that _recalc_process_steps gives a channel: `int(decode_fps / ch.fps)`
unfoldable pub process_step : ℕ → ℕ → ℕ
process_step decode_fps fps = if ltb 0 fps then decode_fps * 1000 / fps else 1

-- _recalc_process_steps
unfoldable pub recalc_process_steps : ℕ → List ℕ → List ℕ
unfolding process_step
recalc_process_steps decode_fps fps = map (process_step decode_fps) fps

-- _should_skip, for a message with an image or without: `none` where it divides by zero
unfoldable pub should_skip : Bool → ℕ → ℕ → Option Bool
should_skip has_image id step =
    if has_image then (if step == 0 then none else some (not (id % step == 0))) else some false
