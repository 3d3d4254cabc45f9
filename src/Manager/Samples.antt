-- ===== src/Manager/Samples.antt =====
-- Inputs for the tests of the manager: an environment in which every session commits and the platform
-- answers.
mod Tests
use video_flow.Prelude.{
  ℕ, ◌+◌, ◌≡◌, refl, Bool, true, false, Option, none, some, List, [], ◌∷◌, ltb, ◌==◌, ◌&&◌, ◌||◌,
  ◌⊎◌, ◌≢◌, min, inl, inr, arith,
}
use video_flow.Prelude.Int.{pos}
use video_flow.Prelude.Text.{Text, text, text_eq, strip}
use video_flow.Prelude.Sorting.{sort, sort-Permᴰ, sort-IsSorted}
use video_flow.Manager.Models.{Job, JobStatus, pending, running, success, failed, retry}
use video_flow.Manager.World.{
  Env, World, Outcome, done, lost, Request, ResultField, task_get, task_update, report_create, str,
  int, IsDatabase,
}
use video_flow.Manager.Servicer.{
  max_retry_times, is_empty_report, ReportRequest, get_job_rpc, create_report_rpc,
}
use video_flow.Manager.Models
use video_flow.Manager.Repository
use video_flow.Manager.Service
use video_flow.Manager.ExternalApi
use video_flow.Manager.Servicer
use video_flow.Manager.World
use video_flow.Manager.Requests
use video_flow.Manager.Exec.Rules.{Ends}
use video_flow.Manager.Repository.{get_one_pending_for_update}
use video_flow.Manager.Repository.Keeps.{IsValid}
use video_flow.Manager.Repository.Picks.{
  Allocated, get_one_pending_for_update-Allocated, get_one_pending_for_update-ne,
}
use video_flow.Manager.Repository.Stands.{Stands}
use video_flow.Manager.Service.{allowed, transition_job_status}
use video_flow.Manager.Service.Transitions.{Transitioned, transition_job_status-Transitioned}
use video_flow.Manager.Servicer.Allocation.{Granted, get_job_rpc-Granted}
use video_flow.Manager.Servicer.Outcomes.{Settled, create_report_rpc-Settled}
use video_flow.Manager.Servicer.Exhaustion.{reports, status_after, reports-exhaust}
use video_flow.Manager.Requests.Invariant.{serve-IsValid, fresh-IsValid}
use video_flow.Manager.Requests.Pages.{listing, first_pages}
use video_flow.Manager.Exec.{Result, ok, ◌>>=◌, try_except, attempt, pure, raise}
use video_flow.Manager.Requests.{
  Request as ApiRequest, job_create, job_allocate, job_report, serve, fresh, ListJobsRequest,
  is_admissible, total_pages,
}

abbrev always : ℕ → Outcome
always n = done

unfoldable pub text_le : Text → Text → Bool
text_le [] t = true
text_le (c ∷ s) [] = false
text_le (c ∷ s) (d ∷ t) = ltb c d || (c == d && text_le s t)

text_le-total : (s t : Text) → (text_le s t ≡ true) ⊎ (text_le t s ≡ true)
unfolding text_le
text_le-total [] t = inl refl
text_le-total (c ∷ s) [] = inr refl
text_le-total (c ∷ s) (d ∷ t) = ground (arith, text_le-total s t)

text_le_trans : (s t u : Text) → text_le s t ≡ true → text_le t u ≡ true → text_le s u ≡ true
unfolding text_le
text_le_trans [] t u h k = refl
text_le_trans (c ∷ s) [] u h k = cc
text_le_trans (c ∷ s) (d ∷ t) [] h k = cc
text_le_trans (c ∷ s) (d ∷ t) (e ∷ u) h k = ground (arith, text_le_trans s t u)

-- The platform of the samples: tasks are empty objects and report 7 is created.
abbrev answer : ℕ → Request → Option (Option ResultField)
answer n (task_get k) = some (some (str (text "{}")))
answer n (task_update k s) = some none
answer n (report_create r) = some (some (int (pos 7)))

-- The platform rejects every report.
abbrev refuse : ℕ → Request → Option (Option ResultField)
refuse n (report_create r) = none
refuse n r = answer n r

abbrev pub calm : Env
calm = record {
  session = always;
  now = λ n. 100 + n;
  order_by = λ n. sort;
  text_le = text_le;
  post = answer;
  base_url = text "http://platform";
  int_of = λ s. none;
}

pub calm-IsDatabase : IsDatabase calm
calm-IsDatabase = record {
  order_by-perm = λ n le xs. sort-Permᴰ le xs;
  order_by-IsSorted = λ n le xs order. sort-IsSorted order xs;
  text_le-IsOrder = record { total = text_le-total; trans = text_le_trans };
}

abbrev pub sample_report : Text → ReportRequest
sample_report value = record {
  job_id = 1;
  task_id = 40;
  job_report = record { name = text "qa"; value_json = value; message = [] };
}

abbrev pub first_job : ApiRequest
first_job = job_create (record { task_id = 40; project_name = text "p" })
