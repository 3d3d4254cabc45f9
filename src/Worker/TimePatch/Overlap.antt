-- ===== src/Worker/TimePatch/Overlap.antt =====
-- What is_overlap tests.
use video_flow.Prelude.{ℕ, ◌≤◌, max, ◌≡◌, ◌↔◌, true, arith}
use video_flow.Worker.TimePatch.{TimePatch, is_overlap}

-- For a patch and an interval that do not end before they start, is_overlap is true exactly if some
-- instant lies in both.
pub is_overlap_iff :
    (p : TimePatch) (s e : ℕ)
    → p.start_time ≤ p.end_time
    → s ≤ e
    → (is_overlap p s e ≡ true)
      ↔ ((t : ℕ) × (p.start_time ≤ t) × (t ≤ p.end_time) × (s ≤ t) × (t ≤ e))
unfolding is_overlap
is_overlap_iff p s e h k = (
  λ o. (max p.start_time s, omega arith, ground arith, omega arith, ground arith),
  λ (t, a, b, c, d). ground arith,
)
