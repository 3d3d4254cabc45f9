-- ===== src/Worker/Persons/Process/Flagged.antt =====
-- The status of the report through the checks.
use video_flow.Prelude.{
  none, some, Option, ℕ, ◌+◌, ◌<◌, ◌≡◌, refl, Bool, true, false, not, ◌&&◌, List, [], ◌∷◌, length,
  length-append, if-both, Bool-cases, arith, min, inl, inr, ◌==◌,
}
use video_flow.Prelude.Int.{ℤ, pos}
use video_flow.Prelude.Text.{Text, text, text_eq}
use video_flow.Prelude.Dict.{Dict, keys, member}
use video_flow.Prelude.Partial.{Gives->>=, Gives}
use video_flow.Worker.TimePatch.{TimePatch}
use video_flow.Worker.Persons.Intervals.{eqb_ℤ}
use video_flow.Worker.Persons.Identity.{TrackingSequence, ParticipantSequence, Mapper}
use video_flow.Worker.Persons.Report.{Ratio, Times, Report, Outside, get_format_time_patchs}
use video_flow.Worker.Persons.Checks.{
  url_of, warn, absent_participants, add_persons, with_person, stored_times, get_cumulative_number,
  is_ratio_low, with_low_ratio, ratio_warnings, with_lost, lost_warnings, with_crowd,
  with_strangers, requirement_of,
}

-- The status is 1 where a reason or a lost participant is reported, and 0 otherwise.
abbrev pub IsFlagged : Report → Type 0
IsFlagged r = r.status ≡ min 1 (length r.reasons + length r.lost_participants)

warn-IsFlagged : (reason : Text) (r : Report) → IsFlagged (warn reason r)
warn-IsFlagged reason r = omega (arith, length-append r.reasons (reason ∷ []))

pub absent_participants-IsFlagged :
    (mapper : Mapper) (ps : Dict ParticipantSequence) (r : Report)
    → IsFlagged r
    → IsFlagged (absent_participants mapper ps r)
unfolding absent_participants
absent_participants-IsFlagged mapper [] r h = h
absent_participants-IsFlagged mapper ((identity, p) ∷ ps) r h =
    absent_participants-IsFlagged mapper ps _ (
      if-both IsFlagged (not (member (keys mapper) identity) && text_eq p.requirement (text "01")) _
        _ (warn-IsFlagged _ r) h)

-- The store of pictures takes any picture.
abbrev pub Stores : Outside → Type 0
Stores outside =
    (task_uuid face : ℕ) → Gives {0, 0} (λ _. Unit) (outside.storage_url task_uuid face)

module _ (outside : Outside) (stores : Stores outside) (task_uuid video_duration : ℕ)
    (participants : Dict ParticipantSequence) where
  url_of-Gives :
      (face : Option ℕ)
      → Gives {0, 0} (λ _. Unit) (url_of outside task_uuid video_duration participants face)
  url_of-Gives none = ([], refl, tt)
  url_of-Gives (some face) = stores task_uuid face

  with_person-IsFlagged :
      (identity : Text) (t : TrackingSequence) (times : List Times) (r : Report)
      → IsFlagged r
      → Gives IsFlagged
          (with_person outside task_uuid video_duration participants identity t times r)
  unfolding with_person
  with_person-IsFlagged identity t [] r h = (r, refl, h)
  with_person-IsFlagged identity t (x ∷ xs) r h =
      Gives->>= (λ _. Unit {0}) IsFlagged _ _ (url_of-Gives t.face_frame)
        (λ url _. (
          _,
          refl,
          if-both IsFlagged (text_eq (requirement_of participants identity t) (text "02")) _ _
              (warn-IsFlagged _ r) h,
        ))

  pub add_persons-IsFlagged :
      (ts : List (Text × TrackingSequence)) (r : Report)
      → IsFlagged r
      → Gives IsFlagged (add_persons outside task_uuid video_duration participants ts r)
  unfolding add_persons
  add_persons-IsFlagged [] r h = (r, refl, h)
  add_persons-IsFlagged ((identity, t) ∷ ts) r h =
      Gives->>= IsFlagged IsFlagged _ _
        (with_person-IsFlagged identity t (stored_times video_duration t.lost_time_patchs) r h)
        (λ r' h'. add_persons-IsFlagged ts r' h')

module _ (video_duration : ℕ) (participants : Dict ParticipantSequence) where
  with_low_ratio-IsFlagged :
      (identity : Text) (t : TrackingSequence) (low : Bool) (r : Report)
      → IsFlagged r
      → IsFlagged (with_low_ratio video_duration participants identity t low r)
  with_low_ratio-IsFlagged identity t true r h = warn-IsFlagged _ r
  with_low_ratio-IsFlagged identity t false r h = h

  is_ratio_low-Gives :
      (ratio : Ratio) (lost : List TimePatch)
      → 0 < video_duration
      → Gives {0, 0} (λ _. Unit) (is_ratio_low ratio video_duration lost)
  unfolding is_ratio_low
  is_ratio_low-Gives ratio lost d =
      let e : (video_duration == 0) ≡ false = ground arith in rw (e, is_ratio_low) (_, refl, tt)

  pub ratio_warnings-Gives :
      (ratio : Ratio) (ts : List (Text × TrackingSequence)) (r : Report)
      → 0 < video_duration
      → IsFlagged r
      → Gives IsFlagged (ratio_warnings video_duration participants ratio ts r)
  unfolding ratio_warnings
  ratio_warnings-Gives ratio [] r d h = (r, refl, h)
  ratio_warnings-Gives ratio ((identity, t) ∷ ts) r d h =
      elim (Bool-cases (text_eq (requirement_of participants identity t) (text "01"))) [
        | inl e ↦
            let (low, f, _) = is_ratio_low-Gives ratio t.lost_time_patchs d in
            rw (e, f, ratio_warnings)
              (ratio_warnings-Gives ratio ts _ d (with_low_ratio-IsFlagged identity t low r h))
        | inr e ↦ rw (e, ratio_warnings) (ratio_warnings-Gives ratio ts r d h)
      ]

  with_lost-IsFlagged :
      (identity : Text) (ps : List TimePatch) (r : Report)
      → IsFlagged r
      → IsFlagged (with_lost video_duration participants identity ps r)
  with_lost-IsFlagged identity [] r h = h
  with_lost-IsFlagged identity (p ∷ ps) r h =
      let n =
        length-append r.lost_participants
          (record { identity = identity; times = get_format_time_patchs (p ∷ ps) } ∷ []) in
      omega (arith, n)

  pub lost_warnings-IsFlagged :
      (threshold : ℤ) (ts : List (Text × TrackingSequence)) (r : Report)
      → IsFlagged r
      → IsFlagged (lost_warnings video_duration participants threshold ts r)
  unfolding lost_warnings
  lost_warnings-IsFlagged threshold [] r h = h
  lost_warnings-IsFlagged threshold ((identity, t) ∷ ts) r h =
      lost_warnings-IsFlagged threshold ts _ (
        if-both IsFlagged (text_eq (requirement_of participants identity t) (text "01")) _ _
          (with_lost-IsFlagged identity _ r h) h)

pub get_cumulative_number-IsFlagged :
    (tracking : Dict TrackingSequence) (n : ℤ) (r : Report)
    → IsFlagged r
    → IsFlagged (get_cumulative_number tracking n r)
unfolding get_cumulative_number
get_cumulative_number-IsFlagged tracking n r h =
    if-both IsFlagged (eqb_ℤ (pos (length tracking)) n) _ _ h
      (warn-IsFlagged _ (record r { cumulative_number = pos (length tracking) }))

pub with_crowd-IsFlagged :
    (n : ℤ) (ps : List TimePatch) (r : Report) → IsFlagged r → IsFlagged (with_crowd n ps r)
unfolding with_crowd
with_crowd-IsFlagged n [] r h = h
with_crowd-IsFlagged n (p ∷ ps) r h = warn-IsFlagged _ r

pub with_strangers-IsFlagged :
    (ps : List TimePatch) (r : Report) → IsFlagged r → IsFlagged (with_strangers ps r)
unfolding with_strangers
with_strangers-IsFlagged [] r h = h
with_strangers-IsFlagged (p ∷ ps) r h = warn-IsFlagged _ r
