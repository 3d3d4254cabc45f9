-- ===== src/Worker/Persons/Intervals/Points.antt =====
-- One point of the sweep in _get_time_patch_count, and the counts of points up to an instant.
use video_flow.Prelude.{
  ℕ, ◌+◌, ◌≤◌, ◌<◌, ◌≡◌, refl, Bool, true, false, ◌&&◌, some, List, [], ◌∷◌, ◌++◌, arith, leb, All,
  count_if,
}
use video_flow.Prelude.Int.{ℤ, pos, pos_part, neg_part, +ℤ_parts, -ℤ_parts}
use video_flow.Worker.TimePatch.{TimePatch}
use video_flow.Worker.Tracking.{patch_at, patch_between, extend_last}
use video_flow.Worker.Persons.Intervals.{
  Side, l, r, Point, is_start, counted, after_point, default_interval,
}

-- The count is above `n`.
abbrev pub Above : ℕ → ℤ → Type 0
Above n c = neg_part c + n < pos_part c

abbrev pub AtMost : ℕ → ℤ → Type 0
AtMost n c = pos_part c ≤ neg_part c + n

ruleset point_arith = (arith, +ℤ_parts, -ℤ_parts)

module _ (n t : ℕ) (c : ℤ) (res : List TimePatch) where
  pub after_point-opens :
      (s : Side)
      → AtMost n c
      → Above n (counted s c)
      → after_point (pos n) (record { time = t; side = s }) c (counted s c) res
        ≡ some (res ++ (patch_at default_interval t ∷ []))
  unfolding after_point
  after_point-opens l h k = ground (arith, +ℤ_parts c (pos 1), +ℤ_parts (pos n) (pos 1))
  after_point-opens r h k = absurd (omega (arith, -ℤ_parts c (pos 1)))

  pub after_point-below :
      (s : Side)
      → AtMost n c
      → AtMost n (counted s c)
      → after_point (pos n) (record { time = t; side = s }) c (counted s c) res ≡ some res
  unfolding after_point
  after_point-below l h k = ground (arith, +ℤ_parts c (pos 1), +ℤ_parts (pos n) (pos 1))
  after_point-below r h k = ground (arith, -ℤ_parts c (pos 1), +ℤ_parts (pos n) (pos 1))

  pub after_point-Above :
      (s : Side)
      → Above n c
      → Above n (counted s c)
      → after_point (pos n) (record { time = t; side = s }) c (counted s c) res ≡ some res
  unfolding after_point
  after_point-Above l h k = ground (arith, +ℤ_parts c (pos 1), +ℤ_parts (pos n) (pos 1))
  after_point-Above r h k = ground (arith, -ℤ_parts c (pos 1), +ℤ_parts (pos n) (pos 1))

  pub after_point-closes :
      (s : Side)
      → Above n c
      → AtMost n (counted s c)
      → after_point (pos n) (record { time = t; side = s }) c (counted s c) res ≡ extend_last res t
  unfolding after_point
  after_point-closes l h k = absurd (omega (arith, +ℤ_parts c (pos 1)))
  after_point-closes r h k = ground (arith, -ℤ_parts c (pos 1), +ℤ_parts (pos n) (pos 1))

pub extend_last-append :
    (res : List TimePatch) (s t : ℕ)
    → extend_last (res ++ (patch_at default_interval s ∷ [])) t
      ≡ some (res ++ (patch_between default_interval s t ∷ []))
unfolding extend_last
extend_last-append [] s t = refl
extend_last-append (p ∷ []) s t = refl
extend_last-append (p ∷ q ∷ ps) s t = rw (extend_last-append (q ∷ ps) s t) refl

-- The points of one side up to the instant `t`.
abbrev pub count_to : (Side → Bool) → ℕ → List Point → ℕ
count_to side t es = count_if (λ e. leb e.time t && side e.side) es

abbrev pub is_end : Side → Bool
is_end l = false
is_end r = true

-- The count at the instant `t`, for a count `c` before the points: starts are added, ends are taken.
abbrev pub AboveAt : ℕ → ℤ → ℕ → List Point → Type 0
AboveAt n c t es = neg_part c + n + count_to is_end t es < pos_part c + count_to is_start t es

pub count_to-nil :
    (side : Side → Bool) (t lo : ℕ) (es : List Point)
    → All (λ e. lo ≤ e.time) es
    → t < lo
    → count_to side t es ≡ 0
count_to-nil side t lo [] h b = refl
count_to-nil side t lo (e ∷ es) h b =
    let later : leb e.time t ≡ false = ground arith in rw later (count_to-nil side t lo es h.1 b)
