-- ===== src/Worker/Persons/Process/Ratio.antt =====
-- When the check of the ratio raises.
use video_flow.Prelude.{[], ◌∷◌, ◌↔◌, ◌==◌, refl, inl, inr, false, arith, Bool-cases, order-cases}
use video_flow.Worker.TimePatch.{TimePatch}
use video_flow.Worker.Persons.Identity.{TrackingSequence, ParticipantSequence, Processor}
use video_flow.Worker.Persons.Checks.{
  requirement_of, matched_sequences, is_ratio_low, ratio_warnings, get_ratio_warning,
}
use video_flow.Prelude.Dict.{Dict}
use video_flow.Prelude.{some, count_if, none, ◌<◌, List, Bool, ℕ, ◌≡◌}
use video_flow.Prelude.Text.{Text, text, text_eq}
use video_flow.Worker.Persons.Report.{Ratio, Report}

-- The matched sequences that must be on screen.
abbrev pub is_required : Dict ParticipantSequence → Text × TrackingSequence → Bool
is_required participants (identity, t) =
    text_eq (requirement_of participants identity t) (text "01")

module _ (ratio : Ratio) (participants : Dict ParticipantSequence) where
  is_ratio_low_positive :
      (d : ℕ) (lost : List TimePatch)
      → 0 < d
      → (low : Bool) × (is_ratio_low ratio d lost ≡ some low)
  unfolding is_ratio_low
  is_ratio_low_positive d lost h =
      let e : (d == 0) ≡ false = ground arith in rw (e, is_ratio_low) (_, refl)

  ratio_warnings_zero :
      (ts : List (Text × TrackingSequence)) (r : Report)
      → 0 < count_if (is_required participants) ts
      → ratio_warnings 0 participants ratio ts r ≡ none
  unfolding ratio_warnings
  ratio_warnings_zero [] r h = absurd (omega arith)
  ratio_warnings_zero ((identity, t) ∷ ts) r h =
      elim (Bool-cases (is_required participants (identity, t))) [
        | inl e ↦ rw (e, ratio_warnings) refl
        | inr e ↦ rw (e, ratio_warnings) (ratio_warnings_zero ts r (rw e at h))
      ]

  ratio_warnings_raised :
      (d : ℕ) (ts : List (Text × TrackingSequence)) (r : Report)
      → ratio_warnings d participants ratio ts r ≡ none
      → (d ≡ 0) × (0 < count_if (is_required participants) ts)
  unfolding ratio_warnings
  ratio_warnings_raised d [] r h = absurd (cc h)
  ratio_warnings_raised d ((identity, t) ∷ ts) r h =
      elim (Bool-cases (is_required participants (identity, t))) [
        | inl e ↦ elim (order-cases d 0) [
          | inl z ↦ rw e (omega arith, omega arith)
          | inr p ↦
              let (low, f) = is_ratio_low_positive d t.lost_time_patchs p in
              rw e ((ratio_warnings_raised d ts _ (rw (e, f, ratio_warnings) at h)).0, omega arith)
        ]
        | inr e ↦ rw e (ratio_warnings_raised d ts r (rw (e, ratio_warnings) at h))
      ]

-- Where every match of the mapper names a sequence that is there: the check of the ratio raises exactly where
-- the duration of the video is 0 and a matched sequence is one that must be on screen.
pub get_ratio_warning-none :
    (ratio : Ratio) (s : Processor) (tracking : Dict TrackingSequence)
    (participants : Dict ParticipantSequence) (ts : List (Text × TrackingSequence)) (r : Report)
    → matched_sequences tracking s.identity_mapper ≡ some ts
    → (get_ratio_warning ratio s tracking participants r ≡ none)
      ↔ ((s.video_duration ≡ 0) × (0 < count_if (is_required participants) ts))
unfolding get_ratio_warning
get_ratio_warning-none ratio s tracking participants ts r e = rw e (
  ratio_warnings_raised ratio participants s.video_duration ts r,
  λ (z, k). rw z (ratio_warnings_zero ratio participants ts r k),
)
