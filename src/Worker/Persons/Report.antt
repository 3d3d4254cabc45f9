-- ===== src/Worker/Persons/Report.antt =====
-- The report of processor.py: its data, and its times by time_transport of shared/utils/common.py.
pub mod Clock
use video_flow.Prelude.{ℕ, ◌*◌, ◌/◌, ◌%◌, Bool, Option, List, [], ◌++◌, map}
use video_flow.Prelude.Int.{ℤ, negsuc, sub_ℕ}
use video_flow.Prelude.Text.{Text, text}
use video_flow.Prelude.Decimal.{padded}
use video_flow.Worker.TimePatch.{TimePatch, calc_time_scale}
use video_flow.Worker.Persons.Intervals.{scale_of}
use video_flow.Worker.Persons.Identity.{Participant}

-- A ratio: `numerator / denominator`, where the source has a float.
pub record Ratio : Type 0 where
  pub numerator : ℤ
  pub denominator : ℕ

-- SinglePersonTrackingJobCfg: what the processor reads
pub record Config : Type 0 where
  pub min_time_interval : ℕ
  pub verification_threshold : ℕ
  pub lost_warning_threshold : ℤ
  pub cumulative_number : ℤ
  pub stranger_warning_flag : Bool
  pub num_of_people : ℤ
  pub ratio : Ratio

-- Task: `meta` is the media's metadata, read for its duration
pub record Task : Type 0 where
  pub id : ℕ
  pub meta : Option (Option ℕ)
  pub participants : List (Option Participant)

-- A formatted time patch.
pub record Times : Type 0 where
  pub start_time : Text
  pub end_time : Text

-- An entry of `persons`, and a ReportPerson.
pub record Person : Type 0 where
  pub url : Text
  pub identity : Text
  pub identity_type : ℕ
  pub appearance_requirement : Text
  pub times : List Times

pub record ReportPerson : Type 0 where
  pub identity : Text
  pub times : List Times

-- `report`, with its "result"
pub record Report : Type 0 where
  pub reasons : List Text
  pub status : ℕ
  pub cumulative_number : ℤ
  pub persons : List Person
  pub strangers : List ReportPerson
  pub lost_participants : List ReportPerson
  pub ratio_participants : List ReportPerson
  pub max_participants : List ReportPerson

abbrev pub empty_report : Report
empty_report = record {
  reasons = [];
  status = 0;
  cumulative_number = negsuc 0;
  persons = [];
  strangers = [];
  lost_participants = [];
  ratio_participants = [];
  max_participants = [];
}

-- What is called outside: the store of pictures, `none` where it raises, and whether pydantic takes an
-- entry of `persons`.
pub record Outside : Type 0 where
  pub storage_url : ℕ → ℕ → Option Text
  pub accepts : Person → Bool

-- time_transport
unfoldable pub time_transport : ℕ → Text
unfolding padded
time_transport origin_time =
    let in_second = origin_time / 1000 in
    let in_minute = in_second / 60 in
    padded 2 (in_minute / 60)
    ++ (text ":" ++ (padded 2 (in_minute % 60) ++ (text ":" ++ padded 2 (in_second % 60))))

-- _get_format_time_patchs
unfoldable pub get_format_time_patchs : List TimePatch → List Times
unfolding time_transport
get_format_time_patchs time_patchs =
    map
      (λ p. record {
        start_time = time_transport p.start_time;
        end_time = time_transport p.end_time;
      })
      time_patchs

-- get_duration, in ms
unfoldable pub get_duration : TimePatch → ℤ
unfolding calc_time_scale
get_duration p = sub_ℕ (p.end_time * scale_of p) (p.start_time * scale_of p)
