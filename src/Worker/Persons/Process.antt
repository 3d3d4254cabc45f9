-- ===== src/Worker/Persons/Process.antt =====
-- The report of processor.py as a whole: run and _process. `none` stands for an exception that leaves
-- the processor: a media without metadata, a call outside that raises, a sequence that is not there, a
-- division by zero, or a person that pydantic refuses.
pub mod Flagged
pub mod Total
pub mod Ratio
use video_flow.Prelude.{
  ℕ, ◌+◌, ◌*◌, ◌/◌, ◌%◌, Bool, true, false, not, ◌&&◌, Option, none, some, List, [], ◌∷◌, ◌++◌, map,
  ltb, leb, ◌==◌, if◌then◌else◌, length, select,
}
use video_flow.Prelude.Int.{ℤ, pos, negsuc, ◌+ℤ◌, ◌-ℤ◌, ◌*ℤ◌, ltb_ℤ, sub_ℕ}
use video_flow.Prelude.Text.{Text, text, text_eq}
use video_flow.Prelude.Dict.{Dict, keys, get, member}
use video_flow.Prelude.Partial.{◌>>=◌}
use video_flow.Prelude.Decimal.{decimal, decimal_ℤ, padded}
use video_flow.Worker.TimePatch.{TimePatch, calc_time_scale}
use video_flow.Worker.Tracking.{ms}
use video_flow.Worker.Persons.Intervals.{
  reversed_time_patchs, merge_intervals, get_time_patch_count, eqb_ℤ, scale_of,
}
use video_flow.Worker.Persons.Identity.{
  Faces, TrackingResult, Participant, TrackingSequence, ParticipantSequence, Match, Mapper,
  Processor, get_tracking_sequences, get_participant_sequences, get_identity_mapper,
}
use video_flow.Worker.Persons.Report.{Config, Task, Person, Report, empty_report, Outside}
use video_flow.Worker.Persons.Checks.{
  get_all_ts, get_cumulative_number, get_ratio_warning, get_lost_warning, get_max_num_warning,
  get_stranger_warning,
}

abbrev pub present : List (Option Participant) → List Participant
present [] = []
present (none ∷ ps) = present ps
present (some p ∷ ps) = p ∷ present ps

-- The checks in their order, each under its switch.
unfoldable pub check_all :
    Config → Processor → Dict TrackingSequence → Dict ParticipantSequence → Report → Option Report
unfolding get_cumulative_number get_ratio_warning get_lost_warning get_max_num_warning
    get_stranger_warning
check_all cfg s tracking participants report = do
  let counted =
      if ltb_ℤ (pos 0) cfg.cumulative_number
      then get_cumulative_number tracking cfg.cumulative_number report
      else report
  rated ←
      if ltb_ℤ cfg.ratio.numerator (pos 0)
      then some counted
      else get_ratio_warning cfg.ratio s tracking participants counted
  lost ←
      if ltb_ℤ cfg.lost_warning_threshold (pos 0)
      then some rated
      else get_lost_warning cfg.lost_warning_threshold s tracking participants rated
  crowded ←
      if ltb_ℤ cfg.num_of_people (pos 0)
      then some lost
      else get_max_num_warning cfg.num_of_people s tracking lost
  if cfg.stranger_warning_flag then get_stranger_warning s tracking crowded else some crowded

-- Every entry of `persons` is taken.
abbrev pub all_accepted : (Person → Bool) → List Person → Bool
all_accepted accepts [] = true
all_accepted accepts (p ∷ ps) = accepts p && all_accepted accepts ps

-- HumanTackReportResult(...)
abbrev pub built : Outside → Report → Option Report
built outside report = if all_accepted outside.accepts report.persons then some report else none

-- The report of _process before it is parsed.
unfoldable pub checked :
    Outside
    → ℕ
    → Config
    → Processor
    → Dict TrackingSequence
    → Dict ParticipantSequence
    → Option Report
unfolding get_all_ts check_all
checked outside task_uuid cfg s tracking participants = do
  report ← get_all_ts outside task_uuid s tracking participants empty_report
  check_all cfg s tracking participants report

-- _process
unfoldable pub process :
    Faces → Outside → Config → Task → List TrackingResult → Processor → Option Report
unfolding get_tracking_sequences get_participant_sequences get_identity_mapper checked
process faces outside cfg task results s = do
  tracking ← get_tracking_sequences faces s.video_duration cfg.min_time_interval results
  participants ← get_participant_sequences faces (present task.participants)
  mapped ← get_identity_mapper faces tracking participants s
  report ← checked outside task.id cfg mapped tracking participants
  built outside report

-- `meta.duration or 0.0`
abbrev pub duration_of : Option ℕ → ℕ
duration_of none = 0
duration_of (some d) = d

-- What run sets before it calls _process.
abbrev pub prepared : Config → Option ℕ → Processor → Processor
prepared cfg duration s = record s {
  video_duration = duration_of duration;
  verification_threshold =
      if ltb 0 cfg.verification_threshold
      then cfg.verification_threshold
      else s.verification_threshold;
}

-- run
unfoldable pub run :
    Faces → Outside → Config → Task → List TrackingResult → Processor → Option Report
unfolding process
run faces outside cfg task results s = do
  duration ← task.meta
  process faces outside cfg task results (prepared cfg duration s)
