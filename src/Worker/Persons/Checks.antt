-- ===== src/Worker/Persons/Checks.antt =====
-- The checks of processor.py, each of which reads the identity mapper and adds to the report. `none`
-- stands for an exception that leaves the processor.
use video_flow.Prelude.{
  ℕ, ◌*◌, Bool, true, false, not, ◌&&◌, Option, none, some, List, [], ◌∷◌, ◌++◌, ◌==◌,
  if◌then◌else◌, length, select,
}
use video_flow.Prelude.Int.{ℤ, pos, ◌+ℤ◌, ◌-ℤ◌, ◌*ℤ◌, ltb_ℤ}
use video_flow.Prelude.Text.{Text, text, text_eq}
use video_flow.Prelude.Dict.{Dict, keys, get, member}
use video_flow.Prelude.Partial.{◌>>=◌}
use video_flow.Prelude.Decimal.{decimal, decimal_ℤ}
use video_flow.Worker.TimePatch.{TimePatch}
use video_flow.Worker.Persons.Intervals.{
  reversed_time_patchs, merge_intervals, get_time_patch_count, eqb_ℤ,
}
use video_flow.Worker.Persons.Identity.{
  text_or_none, TrackingSequence, ParticipantSequence, Mapper, Processor,
}
use video_flow.Worker.Persons.Report.{
  Ratio, Times, Person, Report, Outside, time_transport, get_format_time_patchs, get_duration,
}

-- `report["status"] = 1` and a reason more
abbrev pub warn : Text → Report → Report
warn reason report = record report { status = 1; reasons = report.reasons ++ (reason ∷ []) }

-- The head of every loop over identity_mapper: the entries with a match, with their sequences; a
-- sequence that is not there is a KeyError.
unfoldable pub matched_sequences :
    Dict TrackingSequence → Mapper → Option (List (Text × TrackingSequence))
matched_sequences tracking [] = some []
matched_sequences tracking ((identity, none) ∷ mapper) = matched_sequences tracking mapper
matched_sequences tracking ((identity, some m) ∷ mapper) = do
  t ← get tracking m.t_identity
  rest ← matched_sequences tracking mapper
  some ((identity, t) ∷ rest)

-- The `appearance_requirement` of an identity.
abbrev pub requirement_of : Dict ParticipantSequence → Text → TrackingSequence → Text
requirement_of participants identity t = elim (get participants identity) [
  | none ↦ t.requirement
  | some p ↦ p.requirement
]

-- `identity and identity[0] == "v"`
abbrev is_unknown : Text → Bool
is_unknown [] = false
is_unknown (c ∷ _) = c == 118

-- The times of a sequence: what is left of the video, or all of it.
unfoldable pub stored_times : ℕ → List TimePatch → List Times
unfolding get_format_time_patchs reversed_time_patchs time_transport
stored_times video_duration [] =
    record { start_time = time_transport 0; end_time = time_transport video_duration } ∷ []
stored_times video_duration (p ∷ ps) =
    get_format_time_patchs (reversed_time_patchs video_duration (p ∷ ps))

-- The first loop of _get_all_ts: the required participants that no entry names.
unfoldable pub absent_participants : Mapper → Dict ParticipantSequence → Report → Report
absent_participants mapper [] report = report
absent_participants mapper ((identity, p) ∷ ps) report = absent_participants mapper ps (
    if not (member (keys mapper) identity) && text_eq p.requirement (text "01")
    then record (warn (text "A required participant did not appear") report) {
      ratio_participants =
          report.ratio_participants ++ (record { identity = identity; times = [] } ∷ []);
    }
    else report)

module _ (outside : Outside) (task_uuid video_duration : ℕ)
    (participants : Dict ParticipantSequence) where
  abbrev pub url_of : Option ℕ → Option Text
  url_of none = some []
  url_of (some face) = outside.storage_url task_uuid face

  abbrev person_of : Text → TrackingSequence → List Times → Text → Person
  person_of identity t times url = record {
    url = url;
    identity = if is_unknown identity then text "unknown" else identity;
    identity_type = if is_unknown identity then 0 else 1;
    appearance_requirement = requirement_of participants identity t;
    times = times;
  }

  abbrev pub shown : Person → Report → Report
  shown person report =
      let shown = record report { persons = report.persons ++ (person ∷ []) } in
      if text_eq person.appearance_requirement (text "02")
      then warn (text "A prohibited person appeared on screen") shown
      else shown

  unfoldable pub with_person : Text → TrackingSequence → List Times → Report → Option Report
  with_person identity t [] report = some report
  with_person identity t (x ∷ xs) report = do
    url ← url_of t.face_frame
    some (shown (person_of identity t (x ∷ xs) url) report)

  -- Its second loop, over the matched sequences.
  unfoldable pub add_persons : List (Text × TrackingSequence) → Report → Option Report
  unfolding with_person stored_times
  add_persons [] report = some report
  add_persons ((identity, t) ∷ ts) report = do
    report' ← with_person identity t (stored_times video_duration t.lost_time_patchs) report
    add_persons ts report'

-- _get_all_ts
unfoldable pub get_all_ts :
    Outside
    → ℕ
    → Processor
    → Dict TrackingSequence
    → Dict ParticipantSequence
    → Report
    → Option Report
unfolding absent_participants add_persons matched_sequences
get_all_ts outside task_uuid s tracking participants report = do
  ts ← matched_sequences tracking s.identity_mapper
  add_persons outside task_uuid s.video_duration participants ts
      (absent_participants s.identity_mapper participants report)

-- _get_cumulative_number
unfoldable pub get_cumulative_number : Dict TrackingSequence → ℤ → Report → Report
unfolding decimal decimal_ℤ
get_cumulative_number tracking required report =
    let counted = record report { cumulative_number = pos (length tracking) } in
    if eqb_ℤ (pos (length tracking)) required
    then counted
    else warn
        (text "Video has "
          ++ decimal (length tracking)
          ++ text " participant(s), expected "
          ++ decimal_ℤ required)
        counted

abbrev pub total_duration : List TimePatch → ℤ
total_duration [] = pos 0
total_duration (p ∷ ps) = get_duration p +ℤ total_duration ps

-- `1 - total_duration / video_duration < ratio`; `none` for ZeroDivisionError
unfoldable pub is_ratio_low : Ratio → ℕ → List TimePatch → Option Bool
unfolding get_duration ◌+ℤ◌ ◌-ℤ◌ ◌*ℤ◌
is_ratio_low ratio video_duration lost =
    if video_duration == 0
    then none
    else some (
        ltb_ℤ
          (pos (video_duration * ratio.denominator) -ℤ total_duration lost *ℤ pos ratio.denominator)
          (ratio.numerator *ℤ pos video_duration))

-- What a formatted string shows of a name that may be None.
abbrev pub formatted : Text → Text
formatted identity = if text_eq identity (text_or_none none) then text "None" else identity

module _ (video_duration : ℕ) (participants : Dict ParticipantSequence) where
  abbrev pub with_low_ratio : Text → TrackingSequence → Bool → Report → Report
  with_low_ratio identity t true report =
      record (warn
        (text "Participant " ++ formatted identity ++ text " on-screen time ratio is insufficient")
        report) {
          ratio_participants =
              report.ratio_participants
              ++ (record {
                identity = identity;
                times =
                    get_format_time_patchs (reversed_time_patchs video_duration t.lost_time_patchs);
              }
                  ∷ []);
        }
  with_low_ratio identity t false report = report

  -- The loop of _get_ratio_warning.
  unfoldable pub ratio_warnings : Ratio → List (Text × TrackingSequence) → Report → Option Report
  unfolding is_ratio_low get_format_time_patchs reversed_time_patchs
  ratio_warnings ratio [] report = some report
  ratio_warnings ratio ((identity, t) ∷ ts) report =
      elim (text_eq (requirement_of participants identity t) (text "01")) [
        | false ↦ ratio_warnings ratio ts report
        | true ↦ elim (is_ratio_low ratio video_duration t.lost_time_patchs) [
          | none ↦ none
          | some low ↦ ratio_warnings ratio ts (with_low_ratio identity t low report)
        ]
      ]

  abbrev pub with_lost : Text → List TimePatch → Report → Report
  with_lost identity [] report = report
  with_lost identity (p ∷ ps) report = record report {
    status = 1;
    lost_participants =
        report.lost_participants
        ++ (record { identity = identity; times = get_format_time_patchs (p ∷ ps) } ∷ []);
  }

  -- The loop of _get_lost_warning.
  unfoldable pub lost_warnings : ℤ → List (Text × TrackingSequence) → Report → Report
  unfolding get_duration get_format_time_patchs
  lost_warnings threshold [] report = report
  lost_warnings threshold ((identity, t) ∷ ts) report = lost_warnings threshold ts (
      if text_eq (requirement_of participants identity t) (text "01")
      then with_lost identity (select (λ p. ltb_ℤ threshold (get_duration p)) t.lost_time_patchs)
          report
      else report)

-- _get_ratio_warning
unfoldable pub get_ratio_warning :
    Ratio → Processor → Dict TrackingSequence → Dict ParticipantSequence → Report → Option Report
unfolding ratio_warnings matched_sequences
get_ratio_warning ratio s tracking participants report = do
  ts ← matched_sequences tracking s.identity_mapper
  ratio_warnings s.video_duration participants ratio ts report

-- _get_lost_warning
unfoldable pub get_lost_warning :
    ℤ → Processor → Dict TrackingSequence → Dict ParticipantSequence → Report → Option Report
unfolding lost_warnings matched_sequences
get_lost_warning threshold s tracking participants report = do
  ts ← matched_sequences tracking s.identity_mapper
  some (lost_warnings s.video_duration participants threshold ts report)

-- The patches of the sequences whose identity passes a test.
unfoldable pub all_time_patchs : (Text → Bool) → ℕ → List (Text × TrackingSequence) → List TimePatch
unfolding reversed_time_patchs
all_time_patchs keeps video_duration [] = []
all_time_patchs keeps video_duration ((identity, t) ∷ ts) =
    let rest = all_time_patchs keeps video_duration ts in
    if keeps identity then reversed_time_patchs video_duration t.lost_time_patchs ++ rest else rest

unfoldable pub with_crowd : ℤ → List TimePatch → Report → Report
unfolding get_format_time_patchs decimal_ℤ
with_crowd num_of_people [] report = report
with_crowd num_of_people (p ∷ ps) report =
    record (warn (text "More than " ++ decimal_ℤ num_of_people ++ text " people on screen")
      report) {
        max_participants = record { identity = []; times = get_format_time_patchs (p ∷ ps) } ∷ [];
      }

-- _get_max_num_warning
unfoldable pub get_max_num_warning : ℤ → Processor → Dict TrackingSequence → Report → Option Report
unfolding matched_sequences all_time_patchs with_crowd get_time_patch_count
get_max_num_warning num_of_people s tracking report = do
  ts ← matched_sequences tracking s.identity_mapper
  time_patchs ← get_time_patch_count (all_time_patchs (λ _. true) s.video_duration ts) num_of_people
  some (with_crowd num_of_people time_patchs report)

unfoldable pub with_strangers : List TimePatch → Report → Report
unfolding get_format_time_patchs
with_strangers [] report = report
with_strangers (p ∷ ps) report = record (warn (text "Stranger detected on screen") report) {
  strangers =
      report.strangers ++ (record { identity = []; times = get_format_time_patchs (p ∷ ps) } ∷ []);
}

-- _get_stranger_warning
unfoldable pub get_stranger_warning : Processor → Dict TrackingSequence → Report → Option Report
unfolding matched_sequences all_time_patchs with_strangers merge_intervals
get_stranger_warning s tracking report = do
  ts ← matched_sequences tracking s.identity_mapper
  some (with_strangers (merge_intervals (all_time_patchs is_unknown s.video_duration ts)) report)
