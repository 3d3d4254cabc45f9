-- ===== src/Worker/Samples/Persons.antt =====
-- A video with two persons, its report, and the theorems on patches and reports at them.
use video_flow.Prelude.Partial.{Gives}
use video_flow.Worker.Persons.Report.{time_transport}
use video_flow.Worker.Persons.Report.Clock.{seconds_of, seconds_of-time_transport}
use video_flow.Worker.Persons.Process.Ratio.{get_ratio_warning-none, is_required}
use video_flow.Worker.Persons.Process.Total.{Reported, run-Gives}
use video_flow.Worker.Persons.Identity.Assigned.{Mapped, get_identity_mapper-IsAssigned}
use video_flow.Worker.Persons.Checks.{matched_sequences, get_ratio_warning}
use video_flow.Worker.Persons.Intervals.Many.{get_time_patch_count_iff, patchs_at}
use video_flow.Worker.Tracking.{ms}
use video_flow.Worker.Persons.Intervals.Merged.{merge_intervals-IsMerged}
use video_flow.Worker.Persons.Intervals.Twice.{reversed_time_patchs_twice, plain}
use video_flow.Worker.Persons.Intervals.Sweep.{IsWithin}
use video_flow.Worker.TimePatch.{TimePatch}
use video_flow.Worker.Tracking.Patches.{IsPatch, IsMerged}
use video_flow.Worker.Persons.Intervals.{
  default_interval, merge_intervals, reversed_time_patchs, get_time_patch_count,
}
use video_flow.Worker.Persons.Identity.{
  Answer, own_match, get_participant_sequences, TrackingResult, get_tracking_sequences,
  ParticipantSequence, TrackingSequence, Participant, Processor, Faces, get_identity_mapper,
}
use video_flow.Worker.Persons.Process.{run, prepared, checked}
use video_flow.Prelude.Dict.{keys, text_eq_ne, Dict}
use video_flow.Worker.Persons.Report.{empty_report, Report, Config, Outside, Task}
use video_flow.Prelude.{
  Distinct, count_if, ◌≤◌, ◌≢◌, length, ◌<◌, ◌&&◌, ◌↔◌, Bool, ◌≡◌, List, Option, ℕ, refl, true,
  false, arith, some, none, [], ◌∷◌, All, map, ◌==◌, if◌then◌else◌,
}
use video_flow.Prelude.Int.{pos, negsuc}
use video_flow.Prelude.Text.{Text, text, text_eq}

abbrev stay : ℕ → ℕ → TimePatch
stay s e = record {
  start_time = s;
  end_time = e;
  min_time_interval = some default_interval;
  time_unit = some ms;
}

abbrev stays : List TimePatch
stays = stay 2000 9000 ∷ stay 1000 4000 ∷ stay 12000 15000 ∷ []

get_time_patch_count_test : get_time_patch_count stays (pos 1) ≡ some (stay 2000 4000 ∷ [])
unfolding get_time_patch_count text_eq
get_time_patch_count_test = refl

get_time_patch_count_iff_example :
    (rs : List TimePatch) × (get_time_patch_count stays (pos 1) ≡ some rs)
    × ((t : ℕ) → (IsWithin t rs) ↔ (1 < patchs_at t stays))
get_time_patch_count_iff_example =
    get_time_patch_count_iff 1 stays (omega arith, (omega arith, (omega arith, tt)))

stay-IsPatch : (s e : ℕ) → s ≤ e → IsPatch (stay s e)
stay-IsPatch s e h = record { forward = h; unit = refl }

abbrev apart : List TimePatch
apart = stay 2000 4000 ∷ stay 9000 15000 ∷ []

reversed_time_patchs_test :
    reversed_time_patchs 20000 apart ≡ stay 0 2000 ∷ stay 4000 9000 ∷ stay 15000 20000 ∷ []
unfolding reversed_time_patchs text_eq
reversed_time_patchs_test = refl

reversed_time_patchs_twice_example :
    reversed_time_patchs 20000 (reversed_time_patchs 20000 apart) ≡ map plain apart
reversed_time_patchs_twice_example =
    reversed_time_patchs_twice 20000 1000 apart
      (
        omega arith,
        stay-IsPatch 2000 4000 (omega arith),
        (omega arith, stay-IsPatch 9000 15000 (omega arith), tt),
      )
      (omega arith, (omega arith, tt)) (omega arith)

merge_intervals-IsMerged_example : IsMerged 0 stays (merge_intervals stays)
merge_intervals-IsMerged_example = merge_intervals-IsMerged stays (
  stay-IsPatch 2000 9000 (omega arith),
  (stay-IsPatch 1000 4000 (omega arith), (stay-IsPatch 12000 15000 (omega arith), tt)),
)

abbrev faces : Faces
faces = record {
  face_data = λ frame _. some (some frame);
  picture_data = λ url. some (elim url [ [] ↦ none | c ∷ _ ↦ some c ]);
  similarity = λ p t. some (alike p t);
}
  where
    alike : Option ℕ → Option ℕ → ℕ
    alike (some a) (some b) = if a == b then 900000 else 100000
    alike _ _ = 0

faces-Answer : Answer faces
faces-Answer = record {
  face_data = λ frame box. (_, refl, tt);
  picture_data = λ url. (_, refl, tt);
  similarity = λ p t. (_, refl, tt);
}

abbrev outside : Outside
outside = record { storage_url = λ task face. some []; accepts = λ p. p.identity_type == 0 }

abbrev results : List TrackingResult
results =
    record { tracking_id = text "v001"; time_patchs = stay 0 60000 ∷ []; frame = 65; bbox = none }
    ∷ record {
      tracking_id = text "v002";
      time_patchs = stay 20000 90000 ∷ [];
      frame = 66;
      bbox = none;
    }
    ∷ []

abbrev agent : Participant
agent = record {
  role = some (text "agent");
  picture = some (text "A");
  requirement = some (text "01");
}

abbrev task : Task
task = record { id = 1; meta = some (some 100000); participants = some agent ∷ none ∷ [] }

abbrev cfg : Config
cfg = record {
  min_time_interval = 5;
  verification_threshold = 800000;
  lost_warning_threshold = pos 30000;
  cumulative_number = pos 2;
  stranger_warning_flag = false;
  num_of_people = negsuc 0;
  ratio = record { numerator = negsuc 0; denominator = 1 };
}

abbrev new_processor : Processor
new_processor = record {
  video_duration = 0;
  relation = [];
  identity_mapper = [];
  verification_threshold = 750000;
}

abbrev tracking : Dict TrackingSequence
tracking = elim (get_tracking_sequences faces 100000 5 results) [ none ↦ [] | some m ↦ m ]

abbrev participants : Dict ParticipantSequence
participants = elim (get_participant_sequences faces (agent ∷ [])) [ none ↦ [] | some m ↦ m ]

abbrev mapped : Processor
mapped =
    elim (get_identity_mapper faces tracking participants
      (prepared cfg (some 100000) new_processor)) [ none ↦ new_processor | some s ↦ s ]

mapped_test :
    mapped.identity_mapper
    ≡ (text "agent", some (record { t_identity = text "v001"; similarity = 900000 }))
      ∷ (text "v002", own_match (text "v002"))
      ∷ []
unfolding get_identity_mapper get_tracking_sequences get_participant_sequences text_eq
mapped_test = refl

-- The agent is away for 40 seconds: the status is 1, and there is no reason.
abbrev lost_without_reason : Option Report → Bool
lost_without_reason none = false
lost_without_reason (some r) =
    r.status == 1 && length r.reasons == 0 && length r.lost_participants == 1

checked_test : lost_without_reason (checked outside 1 cfg mapped tracking participants) ≡ true
unfolding checked get_identity_mapper get_tracking_sequences get_participant_sequences text_eq
checked_test = refl

agent-ne : text "agent" ≢ text "v001"
unfolding text_eq
agent-ne = text_eq_ne (text "agent") (text "v001") refl

agent_ne_two : text "agent" ≢ text "v002"
unfolding text_eq
agent_ne_two = text_eq_ne (text "agent") (text "v002") refl

participants_apart : All (λ p. All (λ t. p ≢ t) (keys tracking)) (keys participants)
unfolding get_tracking_sequences get_participant_sequences text_eq
participants_apart = ((agent-ne, (agent_ne_two, tt)), tt)

tracking-Distinct : Distinct (keys tracking)
unfolding get_tracking_sequences text_eq
tracking-Distinct = ((text_eq_ne (text "v001") (text "v002") refl, tt), (tt, tt))

get_identity_mapper-IsAssigned_example :
    Gives
      (Mapped (keys tracking) (prepared cfg (some 100000) new_processor))
      (get_identity_mapper faces tracking participants (prepared cfg (some 100000) new_processor))
get_identity_mapper-IsAssigned_example =
    get_identity_mapper-IsAssigned faces faces-Answer tracking participants
      (prepared cfg (some 100000) new_processor) tracking-Distinct participants_apart refl refl

run-Gives_example : Reported outside (run faces outside cfg task results new_processor)
run-Gives_example =
    run-Gives faces faces-Answer outside (λ task face. (_, refl, tt)) cfg task results new_processor
      100000 refl (omega arith) ((agent-ne, (agent_ne_two, tt)), tt) refl refl

abbrev stopped : Processor
stopped = record mapped { video_duration = 0 }

abbrev matched : List (Text × TrackingSequence)
matched = elim (matched_sequences tracking mapped.identity_mapper) [ none ↦ [] | some ts ↦ ts ]

matched_test : matched_sequences tracking stopped.identity_mapper ≡ some matched
unfolding matched_sequences get_identity_mapper get_tracking_sequences get_participant_sequences
    text_eq
matched_test = refl

get_ratio_warning-none_example :
    (get_ratio_warning
        (record { numerator = pos 1; denominator = 2 })
        stopped
        tracking
        participants
        empty_report
      ≡ none)
    ↔ ((stopped.video_duration ≡ 0) × (0 < count_if (is_required participants) matched))
get_ratio_warning-none_example =
    get_ratio_warning-none (record { numerator = pos 1; denominator = 2 }) stopped tracking
      participants matched empty_report matched_test

time_transport_test : time_transport 3725999 ≡ text "01:02:05"
unfolding time_transport
time_transport_test = refl

seconds_of-time_transport_example : seconds_of (time_transport 3725999) ≡ 3725
seconds_of-time_transport_example = seconds_of-time_transport 3725999
