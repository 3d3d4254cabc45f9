-- ===== src/Worker/Tracking/Gaps.antt =====
-- The gaps between the time patches of a sequence: what reverse makes of them.
use video_flow.Prelude.{
  ℕ, ◌+◌, ◌-◌, ◌≤◌, ◌<◌, ◌≡◌, refl, ◌⊎◌, inl, inr, List, [], ◌∷◌, arith, ltb, ◌==◌, Bool-cases,
  order-cases,
}
use video_flow.Prelude.Text.{text_eq}
use video_flow.Worker.TimePatch.{TimePatch, update_end_time}
use video_flow.Worker.Tracking.{TrackingSequence, patch_between, reverse_from, reverse}
use video_flow.Worker.Tracking.Patches.{IsApart, IsCovered}

-- The lengths of the patches together.
abbrev pub total : List TimePatch → ℕ
total [] = 0
total (p ∷ ps) = p.end_time - p.start_time + total ps

pub patch_between_end : (i s t : ℕ) → (patch_between i s t).end_time ≡ t
unfolding update_end_time text_eq
patch_between_end i s t = omega arith

pub patch_between_start : (i s t : ℕ) → (patch_between i s t).start_time ≡ s
unfolding update_end_time
patch_between_start i s t = refl

-- What reverse promises from `start` on.
pub record IsComplement (start frame_time : ℕ) (ps qs : List TimePatch) : Type 0 where
  pub sum : start + total ps + total qs ≡ frame_time
  pub covers : (t : ℕ) → start < t → t ≤ frame_time → IsCovered t ps ⊎ IsCovered t qs

-- the first patch of the gaps
step_gap :
    (i start frame_time : ℕ) (p : TimePatch) (ps qs : List TimePatch)
    → start ≤ p.start_time
    → p.start_time ≤ p.end_time
    → IsComplement p.end_time frame_time ps qs
    → IsComplement start frame_time (p ∷ ps) (patch_between i start p.start_time ∷ qs)
unfolding update_end_time
step_gap i start frame_time p ps qs h f c = record {
  sum = omega (arith, c.sum, patch_between_end i start p.start_time);
  covers = λ t le ge. elim (order-cases t p.start_time) [
    | inl before ↦ inr (inl (omega arith, omega (arith, patch_between_end i start p.start_time)))
    | inr after ↦ elim (order-cases t p.end_time) [
      | inl in_p ↦ inl (inl (omega arith, in_p))
      | inr beyond ↦ elim (c.covers t (omega arith) ge) [
        | inl d ↦ inl (inr d)
        | inr d ↦ inr (inr d)
      ]
    ]
  ];
}

step_no_gap :
    (start frame_time : ℕ) (p : TimePatch) (ps qs : List TimePatch)
    → start ≡ p.start_time
    → p.start_time ≤ p.end_time
    → IsComplement p.end_time frame_time ps qs
    → IsComplement start frame_time (p ∷ ps) qs
step_no_gap start frame_time p ps qs h f c = record {
  sum = omega (arith, c.sum);
  covers = λ t le ge. elim (order-cases t p.end_time) [
    | inl in_p ↦ inl (inl (omega arith, in_p))
    | inr beyond ↦ elim (c.covers t (omega arith) ge) [ inl d ↦ inl (inr d) | inr d ↦ inr d ]
  ];
}

step_end :
    (i start frame_time : ℕ)
    → start < frame_time
    → IsComplement start frame_time [] (patch_between i start frame_time ∷ [])
unfolding update_end_time
step_end i start frame_time h = record {
  sum = omega (arith, patch_between_end i start frame_time);
  covers = λ t le ge. inr (inl (omega arith, omega (arith, patch_between_end i start frame_time)));
}

step_done : (start : ℕ) → IsComplement start start [] []
step_done start = record { sum = omega arith; covers = λ t le ge. absurd (omega arith) }

-- The patches end by the time `hi`.
abbrev pub EndsBy : ℕ → ℕ → List TimePatch → Type 0
EndsBy start hi [] = start ≤ hi
EndsBy start hi (p ∷ ps) = EndsBy p.end_time hi ps

reverse_from-IsComplement :
    (i gap start lo frame_time : ℕ) (ps : List TimePatch)
    → start ≤ lo
    → IsApart gap lo ps
    → EndsBy start frame_time ps
    → IsComplement start frame_time ps (reverse_from i start ps frame_time)
unfolding reverse_from
reverse_from-IsComplement i gap start lo frame_time [] b h k =
    elim (Bool-cases (ltb start frame_time)) [
      | inl e ↦ rw (e, reverse_from) (step_end i start frame_time (ground arith))
      | inr e ↦
          let same : frame_time ≡ start = ground arith in
          rw (e, reverse_from) (rw same (step_done start))
    ]
reverse_from-IsComplement i gap start lo frame_time (p ∷ ps) b h k =
    let rest =
      reverse_from-IsComplement i gap p.end_time (p.end_time + gap + 1) frame_time ps (omega arith)
        h.2 k in
    elim (Bool-cases (start == p.start_time)) [
      | inl e ↦
          rw (e, reverse_from) (step_no_gap start frame_time p ps _ (ground arith) h.1.forward rest)
      | inr e ↦
          rw (e, reverse_from) (step_gap i start frame_time p ps _ (omega arith) h.1.forward rest)
    ]

-- For a sequence whose patches are in milliseconds, in the order of time and apart by more than some
-- gap, the last one ending by `frame_time`: the lengths of its patches and of those that reverse
-- returns add up to `frame_time`, and every instant behind 0 up to it lies in one of them.
pub reverse-IsComplement :
    (s : TrackingSequence) (gap frame_time : ℕ)
    → IsApart gap 0 s.time_patchs
    → EndsBy 0 frame_time s.time_patchs
    → IsComplement 0 frame_time s.time_patchs (reverse s frame_time)
unfolding reverse
reverse-IsComplement s gap frame_time h k =
    reverse_from-IsComplement s.min_time_interval gap 0 0 frame_time s.time_patchs (omega arith) h k
