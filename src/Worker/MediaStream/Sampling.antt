-- ===== src/Worker/MediaStream/Sampling.antt =====
-- The sampling of frames: when the step of a channel is usable.
use video_flow.Prelude.{◌⊎◌, All, ℕ, ◌+◌, ◌*◌, ◌≤◌, ◌<◌, ◌≡◌, true, none, List, In}
use video_flow.Worker.MediaStream.{process_step, should_skip}

-- What the channels `fps`, and one of them that asks for `f`, get of a video of `m`, decoded at `r`
-- whole frames per second; all but `r` count frames per thousand seconds.
pub record IsSampled (fps : List ℕ) (m f r : ℕ) : Type 0 where
  pub capped : r * 1000 ≤ m
  pub wanted : (g : ℕ) × In g fps × (r * 1000 ≤ g)
  -- no higher whole rate is below both the video's and some channel's
  pub most : (m < (r + 1) * 1000) ⊎ All (λ g. g < (r + 1) * 1000) fps
  -- the channel asks for more: every frame divides by zero
  pub above : r * 1000 < f → (id : ℕ) → should_skip true id (process_step r f) ≡ none
  -- it asks for at most that: one frame of each step is taken, which keeps the rate
  pub within :
      f ≤ r * 1000
      → (0 < process_step r f)
        × (process_step r f * f ≤ r * 1000)
        × (r * 1000 < (process_step r f + 1) * f)
