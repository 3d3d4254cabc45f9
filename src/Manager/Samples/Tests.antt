-- ===== src/Manager/Samples/Tests.antt =====
-- What the manager does on the sample inputs, and its theorems at them.
use video_flow.Prelude.{
  ℕ, ◌+◌, ◌≡◌, refl, true, Option, none, some, List, [], ◌∷◌, ◌≢◌, min, inl, arith,
}
use video_flow.Prelude.Text.{text, text_eq, strip}
use video_flow.Prelude.Sorting.{sort}
use video_flow.Manager.Models.{Job, JobStatus, pending, running, success, failed, retry}
use video_flow.Manager.World.{
  Env, World, Outcome, done, lost, Request, ResultField, task_get, task_update, report_create, str,
  int, IsDatabase,
}
use video_flow.Manager.Servicer.{
  max_retry_times, is_empty_report, ReportRequest, get_job_rpc, create_report_rpc,
}
use video_flow.Manager.Models
use video_flow.Manager.Repository
use video_flow.Manager.Service
use video_flow.Manager.ExternalApi
use video_flow.Manager.Servicer
use video_flow.Manager.World
use video_flow.Manager.Requests
use video_flow.Manager.Exec.Rules.{Ends}
use video_flow.Manager.Repository.{get_one_pending_for_update}
use video_flow.Manager.Repository.Keeps.{IsValid}
use video_flow.Manager.Repository.Picks.{
  Allocated, get_one_pending_for_update-Allocated, get_one_pending_for_update-ne,
}
use video_flow.Manager.Repository.Stands.{Stands}
use video_flow.Manager.Service.{allowed, transition_job_status}
use video_flow.Manager.Service.Transitions.{Transitioned, transition_job_status-Transitioned}
use video_flow.Manager.Servicer.Allocation.{Granted, get_job_rpc-Granted}
use video_flow.Manager.Servicer.Exhaustion.{reports, status_after, reports-exhaust}
use video_flow.Manager.Requests.Invariant.{serve-IsValid, fresh-IsValid}
use video_flow.Manager.Exec.{Result, ok, ◌>>=◌, try_except, attempt, pure, raise}
use video_flow.Manager.Requests.{
  Request as ApiRequest, job_create, job_allocate, job_report, serve, fresh, ListJobsRequest,
  is_admissible, total_pages,
}
use video_flow.Manager.Samples.{calm, calm-IsDatabase, sample_report, first_job, text_le}

-- A session runs its calls.
runs : Unit {0}
unfolding Repository.update_where Repository.flushed Repository.column_of Repository.named
    Repository.in_status Repository.merged Repository.started Repository.claim Repository.column_le
    Repository.listed_le Repository.create Repository.get_by_id Repository.list_jobs
    Repository.update Repository.update_status Repository.count_pending Repository.oldest
    Repository.chosen Repository.get_one_pending_for_update Repository.delete Service.applied
    Service.with_events Service.allowed Service.create_job Service.get_job Service.list_jobs
    Service.write_back Service.update_job Service.acquire Service.get_runnable_job
    Service.update_job_status Service.transition_job_status ExternalApi.or_raise
    ExternalApi.task_text ExternalApi.configured ExternalApi.report_id ExternalApi.get_task
    ExternalApi.update_task_status ExternalApi.create_report Servicer.is_empty_report
    Servicer.mark_retry Servicer.roll_back Servicer.rollback_to_retry Servicer.after_update
    Servicer.after_fetch Servicer.allocate Servicer.get_job_rpc Servicer.reject
    Servicer.after_submit Servicer.accept Servicer.report_on Servicer.create_report_rpc
    Servicer.heartbeat Requests.is_admissible Requests.total_pages Requests.job_task
    Requests.create_job Requests.get_job Requests.get_job_task Requests.list_jobs Requests.handle
    Requests.serve World.end_session World.in_session World.send ◌>>=◌ try_except attempt pure raise
    text_eq strip sort text_le Models.status_eq Models.job_eq
runs = tt

abbrev standings : List Job → List (JobStatus × ℕ)
standings [] = []
standings (r ∷ rs) = (r.status, r.retry_times) ∷ standings rs

abbrev after : List ApiRequest → List (JobStatus × ℕ)
after rs = standings (serve calm fresh rs).table.rows

after_allocate : after (first_job ∷ job_allocate ∷ []) ≡ (running, 0) ∷ []
unfolding runs
after_allocate = refl

after_empty :
    after (first_job ∷ job_allocate ∷ job_report (sample_report (text " {} ")) ∷ [])
    ≡ (retry, 1) ∷ []
unfolding runs
after_empty = refl

after_success :
    after (first_job ∷ job_allocate ∷ job_report (sample_report (text "{1}")) ∷ [])
    ≡ (success, 0) ∷ []
unfolding runs
after_success = refl

-- Witnesses of the manager's theorems.
serve-IsValid_example :
    IsValid max_retry_times (serve calm fresh (first_job ∷ job_allocate ∷ [])).table
serve-IsValid_example = serve-IsValid calm (first_job ∷ job_allocate ∷ []) fresh fresh-IsValid

abbrev one_job : World
one_job = serve calm fresh (first_job ∷ [])

abbrev one_running : World
one_running = serve calm fresh (first_job ∷ job_allocate ∷ [])

abbrev a_job : JobStatus → Job
a_job s = record {
  id = 1;
  task_id = 40;
  project_name = text "p";
  status = s;
  retry_times = 0;
  events = [];
  created_time = 100;
  updated_time = 100;
  deleted = 0;
}

abbrev a_world : JobStatus → World
a_world s = record { table = record { rows = a_job s ∷ []; next_id = 2 }; calls = 5; posted = [] }

a_world-Stands : (s : JobStatus) → Stands 1 s 0 (a_world s).table
a_world-Stands s = record {
  distinct = (tt, tt);
  row = a_job s;
  stored = inl refl;
  key = refl;
  live = refl;
  status = refl;
  retries = refl;
}

get_job_rpc-Granted_example :
    Ends
      (λ reply w'. Granted calm (a_world pending).table reply.code reply.body w'.table)
      (λ w'. ⊥)
      (get_job_rpc calm (a_world pending)).0
      (get_job_rpc calm (a_world pending)).1
get_job_rpc-Granted_example =
    get_job_rpc-Granted calm calm-IsDatabase (λ n. refl) (a_world pending) (tt, tt)

is_empty_report_lem : is_empty_report (sample_report (text " {} ")).job_report ≡ true
unfolding runs
is_empty_report_lem = refl

reports-exhaust_example :
    Stands 1
      (status_after (0 + 10))
      (min (0 + 10) 9)
      (reports calm (sample_report (text " {} ")) 10 (a_world running)).table
reports-exhaust_example =
    reports-exhaust calm (λ n. refl) (sample_report (text " {} ")) is_empty_report_lem 9 running 0
      (a_world running) (omega arith) (a_world-Stands running)

get_one_pending_for_update-Allocated_example :
    Allocated 105
      (a_world retry).table
      (get_one_pending_for_update calm (a_world retry)).0
      (get_one_pending_for_update calm (a_world retry)).1.table
get_one_pending_for_update-Allocated_example =
    get_one_pending_for_update-Allocated calm calm-IsDatabase (a_world retry) refl

abbrev two_jobs : World
two_jobs = record {
  table = record { rows = a_job pending ∷ record (a_job retry) { id = 2 } ∷ []; next_id = 3 };
  calls = 5;
  posted = [];
}

abbrev out : World → Result (Option Job) × World
out w = get_one_pending_for_update calm w

abbrev first_out : Job
first_out = record (a_job running) { updated_time = 105 }

abbrev second_out : Job
second_out = record (a_job running) { id = 2; updated_time = 106 }

out_first : (out two_jobs).0 ≡ ok (some first_out)
unfolding runs
out_first = refl

out_second : (out (out two_jobs).1).0 ≡ ok (some second_out)
unfolding runs
out_second = refl

get_one_pending_for_update-ne_example : first_out.id ≢ second_out.id
get_one_pending_for_update-ne_example =
    get_one_pending_for_update-ne calm calm-IsDatabase two_jobs refl out_first refl out_second

transition_job_status-Transitioned_example :
    Transitioned true
      (a_job running)
      success
      (a_world running)
      (transition_job_status calm true (a_job running) success (a_world running)).0
      (transition_job_status calm true (a_job running) success (a_world running)).1
transition_job_status-Transitioned_example =
    transition_job_status-Transitioned calm (λ n. refl) true (a_job running) success running 0
      (a_world running) refl (a_world-Stands running)

abbrev a_listing : ListJobsRequest
a_listing = record {
  project_name = none;
  page = 1;
  page_size = 1;
  sort_by = text "id";
  sort_order = text "desc";
}

-- The world in which page `k + 1` is asked for.
abbrev page_world : ℕ → World
page_world k = record two_jobs { calls = two_jobs.calls + k }
