-- ===== src/Worker/Persons/Process/Total.antt =====
-- What _process gives: a report whose status says whether anything was found, and the one exception
-- that is left where the video has a duration.
use video_flow.Prelude.{
  Distinct, ℕ, ◌<◌, ◌≡◌, ◌≢◌, refl, Bool, true, Option, none, some, List, [], ◌∷◌, if-both,
  if◌then◌else◌, All, All-weaken, In,
}
use video_flow.Prelude.Int.{ℤ, pos, ltb_ℤ}
use video_flow.Prelude.Dict.{get-In, Dict, keys}
use video_flow.Prelude.Partial.{Gives, Gives->>=, ◌>>=◌}
use video_flow.Worker.Persons.Intervals.Counted.{get_time_patch_count-Gives}
use video_flow.Worker.Persons.Identity.{
  text_or_none, Answer, Faces, TrackingResult, Participant, TrackingSequence, ParticipantSequence,
  Mapper, Processor,
}
use video_flow.Worker.Persons.Identity.Sequences.{sequences_of}
use video_flow.Worker.Persons.Identity.Assigned.{Mapped, get_identity_mapper-IsAssigned}
use video_flow.Worker.Persons.Identity.Keyed.{
  get_participant_sequences-Gives, get_tracking_sequences-Gives, get_tracking_sequences-Gives,
  get_participant_sequences-Gives,
}
use video_flow.Worker.Persons.Report.{Ratio, Config, Task, Report, empty_report, Outside}
use video_flow.Worker.Persons.Checks.{
  matched_sequences, get_all_ts, get_ratio_warning, get_lost_warning, all_time_patchs,
  get_max_num_warning, get_stranger_warning,
}
use video_flow.Worker.Persons.Process.{
  Text, present, check_all, built, checked, process, prepared, run,
}
use video_flow.Worker.Persons.Process.Flagged.{
  Stores, IsFlagged, absent_participants-IsFlagged, add_persons-IsFlagged, ratio_warnings-Gives,
  lost_warnings-IsFlagged, get_cumulative_number-IsFlagged, with_crowd-IsFlagged,
  with_strangers-IsFlagged,
}

matched_sequences-Gives :
    (tracking : Dict TrackingSequence) (mapper : Mapper)
    → All (λ t. In t (keys tracking)) (sequences_of mapper)
    → Gives {0, 0} (λ _. Unit) (matched_sequences tracking mapper)
unfolding matched_sequences
matched_sequences-Gives tracking [] h = ([], refl, tt)
matched_sequences-Gives tracking ((identity, none) ∷ mapper) h =
    matched_sequences-Gives tracking mapper h
matched_sequences-Gives tracking ((identity, some m) ∷ mapper) h =
    let (t, e, _) = get-In tracking m.t_identity h.0 in
    let (ts, f, _) = matched_sequences-Gives tracking mapper h.1 in
    rw (e, f, matched_sequences) (_, refl, tt)

module _ (s : Processor) (tracking : Dict TrackingSequence)
    (participants : Dict ParticipantSequence) (duration : 0 < s.video_duration)
    (known : All (λ t. In t (keys tracking)) (sequences_of s.identity_mapper)) where
  get_all_ts-Gives :
      (outside : Outside) (stores : Stores outside) (task_uuid : ℕ) (r : Report)
      → IsFlagged r
      → Gives IsFlagged (get_all_ts outside task_uuid s tracking participants r)
  unfolding get_all_ts
  get_all_ts-Gives outside stores task_uuid r h =
      let (ts, e, _) = matched_sequences-Gives tracking s.identity_mapper known in
      rw e (
        add_persons-IsFlagged outside stores task_uuid s.video_duration participants ts _
          (absent_participants-IsFlagged s.identity_mapper participants r h))

  get_ratio_warning-Gives :
      (ratio : Ratio) (r : Report)
      → IsFlagged r
      → Gives IsFlagged (get_ratio_warning ratio s tracking participants r)
  unfolding get_ratio_warning
  get_ratio_warning-Gives ratio r h =
      let (ts, e, _) = matched_sequences-Gives tracking s.identity_mapper known in
      rw e (ratio_warnings-Gives s.video_duration participants ratio ts r duration h)

  get_lost_warning-Gives :
      (n : ℤ) (r : Report)
      → IsFlagged r
      → Gives IsFlagged (get_lost_warning n s tracking participants r)
  unfolding get_lost_warning
  get_lost_warning-Gives n r h =
      let (ts, e, _) = matched_sequences-Gives tracking s.identity_mapper known in
      rw e (_, refl, lost_warnings-IsFlagged s.video_duration participants n ts r h)

  get_max_num_warning-Gives :
      (n : ℤ) (r : Report) → IsFlagged r → Gives IsFlagged (get_max_num_warning n s tracking r)
  unfolding get_max_num_warning
  get_max_num_warning-Gives n r h =
      let (ts, e, _) = matched_sequences-Gives tracking s.identity_mapper known in
      let (ps, f, _) =
        get_time_patch_count-Gives (all_time_patchs (λ _. true) s.video_duration ts) n in
      rw (e, f) (_, refl, with_crowd-IsFlagged n ps r h)

  get_stranger_warning-Gives :
      (r : Report) → IsFlagged r → Gives IsFlagged (get_stranger_warning s tracking r)
  unfolding get_stranger_warning
  get_stranger_warning-Gives r h =
      let (ts, e, _) = matched_sequences-Gives tracking s.identity_mapper known in
      rw e (_, refl, with_strangers-IsFlagged _ r h)

  switched-Gives :
      (off : Bool) (r : Report) (check : Option Report)
      → IsFlagged r
      → Gives IsFlagged check
      → Gives IsFlagged (if off then some r else check)
  switched-Gives off r check h g = if-both (Gives IsFlagged) off _ _ (r, refl, h) g

  check_all-Gives :
      (cfg : Config) (r : Report)
      → IsFlagged r
      → Gives IsFlagged (check_all cfg s tracking participants r)
  unfolding check_all
  check_all-Gives cfg r h =
      Gives->>= IsFlagged IsFlagged _ _
        (switched-Gives (ltb_ℤ cfg.ratio.numerator (pos 0)) _ _
          (if-both IsFlagged (ltb_ℤ (pos 0) cfg.cumulative_number) _ _
            (get_cumulative_number-IsFlagged tracking cfg.cumulative_number r h) h)
          (get_ratio_warning-Gives cfg.ratio _ (
            if-both IsFlagged (ltb_ℤ (pos 0) cfg.cumulative_number) _ _
              (get_cumulative_number-IsFlagged tracking cfg.cumulative_number r h) h)))
        (λ rated k.
          Gives->>= IsFlagged IsFlagged _ _
            (switched-Gives (ltb_ℤ cfg.lost_warning_threshold (pos 0)) rated _ k
              (get_lost_warning-Gives cfg.lost_warning_threshold rated k))
            (λ lost l.
              Gives->>= IsFlagged IsFlagged _ _
                (switched-Gives (ltb_ℤ cfg.num_of_people (pos 0)) lost _ l
                  (get_max_num_warning-Gives cfg.num_of_people lost l))
                (λ crowded c.
                  if-both (Gives IsFlagged) cfg.stranger_warning_flag _ _
                    (get_stranger_warning-Gives crowded c) (crowded, refl, c))))

  pub checked-Gives :
      (outside : Outside) (stores : Stores outside) (task_uuid : ℕ) (cfg : Config)
      → Gives IsFlagged (checked outside task_uuid cfg s tracking participants)
  unfolding checked
  checked-Gives outside stores task_uuid cfg =
      Gives->>= IsFlagged IsFlagged _ _
        (get_all_ts-Gives outside stores task_uuid empty_report refl)
        (λ r h. check_all-Gives cfg r h)

-- No participant has the name of a tracking result.
abbrev pub AreApart : List Participant → List TrackingResult → Type 0
AreApart ps rs = All (λ p. All (λ r. text_or_none p.role ≢ r.tracking_id) rs) ps

-- For all of two lists, in the other order.
All-flip :
    {A B : Type 0} (R : A → B → Type 0) (xs : List A) (ys : List B)
    → All (λ x. All (λ y. R x y) ys) xs
    → All (λ y. All (λ x. R x y) xs) ys
All-flip R xs [] h = tt
All-flip R xs (y ∷ ys) h = (
  All-weaken (λ x. All (λ y. R x y) (y ∷ ys)) (λ x. R x y) (λ x a. a.0) xs h,
  All-flip R xs ys
      (All-weaken (λ x. All (λ y. R x y) (y ∷ ys)) (λ x. All (λ y. R x y) ys) (λ x a. a.1) xs h),
)

-- What the run builds from a report of which this is known.
abbrev pub Reported : Outside → Option Report → Type 0
Reported outside o = (r : Report) × (o ≡ built outside r) × IsFlagged r

Reported->>= :
    {A : Type 0} (P : A → Type 0) (outside : Outside) (o : Option A) (f : A → Option Report)
    → Gives P o
    → ((a : A) → P a → Reported outside (f a))
    → Reported outside (o >>= f)
Reported->>= P outside o f (a, e, p) h = rw e (h a p)

-- Where every image loads, the services answer and the store takes every picture, the metadata of the
-- media gives a duration other than 0, no participant has the name of a tracking result, and the processor
-- is new (no relation, no mapper), whatever the similarities of the faces and the configuration are: the
-- run gives a report up to the last step, which builds the result from it, and in that report the status
-- is 1 where a reason or a lost participant is reported, and 0 otherwise.
pub run-Gives :
    (faces : Faces) (answer : Answer faces) (outside : Outside) (stores : Stores outside)
    (cfg : Config) (task : Task) (results : List TrackingResult) (s : Processor) (duration : ℕ)
    → task.meta ≡ some (some duration)
    → 0 < duration
    → AreApart (present task.participants) results
    → s.relation ≡ []
    → s.identity_mapper ≡ []
    → Reported outside (run faces outside cfg task results s)
unfolding run process
run-Gives faces answer outside stores cfg task results s duration e d apart n m =
    let p = prepared cfg (some duration) s in
    let people = present task.participants in
    let away : Text → Type 0 = λ t. All (λ q. text_or_none q.role ≢ t) people in
    rw e (
      Reported->>= (λ tracking. Distinct (keys tracking) × All away (keys tracking)) outside _ _
        (get_tracking_sequences-Gives faces answer duration away cfg.min_time_interval results
          (All-flip (λ p r. text_or_none p.role ≢ r.tracking_id) people results apart))
        (λ tracking ids.
          Reported->>= (λ ps. All (λ q. All (λ t. q ≢ t) (keys tracking)) (keys ps)) outside _ _
            (get_participant_sequences-Gives faces answer (λ q. All (λ t. q ≢ t) (keys tracking))
              people (All-flip (λ t p. text_or_none p.role ≢ t) (keys tracking) people ids.1))
            (λ participants names.
              Reported->>= (Mapped (keys tracking) p) outside _ _
                (get_identity_mapper-IsAssigned faces answer tracking participants p ids.0 names n
                  m)
                (λ s' mapped.
                  Reported->>= IsFlagged outside _ _
                    (checked-Gives s' tracking participants (rw mapped.1 d) mapped.0.known outside
                      stores task.id cfg)
                    (λ r h. (r, refl, h))))))
