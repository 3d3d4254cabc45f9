-- ===== src/Manager/Servicer.antt =====
-- workflow-manager grpc/servicer.py: the RPC handlers that workers call. The text of an error's
-- details is not modelled; its code is.
pub mod Keeps
pub mod Allocation
pub mod Exhaustion
pub mod Outcomes
use video_flow.Prelude.{ℕ, ◌+◌, Bool, ◌||◌, Option, none, some, List, leb, if◌then◌else◌}
use video_flow.Prelude.Int.{ℤ}
use video_flow.Prelude.Text.{Text, text, text_eq, is_empty, strip}
use video_flow.Manager.Models.{JobStatus, retry, Job, JobUpdate}
use video_flow.Manager.Models as Models
use video_flow.Manager.Exec.{Exec, pure, attempt, try_except, ◌>>=◌, ◌>>◌}
use video_flow.Manager.World.{TaskStatus, ReportData, World, Env}
use video_flow.Manager.Service.{get_job, update_job, update_job_status, get_runnable_job}
use video_flow.Manager.ExternalApi

abbrev pub max_retry_times : ℕ
max_retry_times = 10

-- What `context.set_code` is given.
pub data Code : Type 0 where
  fine not_found internal invalid_argument : Code

pub record JobInfo : Type 0 where
  pub id : ℕ
  pub task_id : ℕ
  pub task_json : Text

pub record JobReport : Type 0 where
  pub name : Text
  pub value_json : Text
  pub message : Text

pub record ReportRequest : Type 0 where
  pub job_id : ℕ
  pub task_id : ℕ
  pub job_report : JobReport

-- A code and a message, `none` if its fields are not set.
pub record Reply (A : Type 0) : Type 0 where
  pub code : Code
  pub body : Option A

abbrev pub replied : {A : Type 0} → Code → Reply A
replied c = record { code = c; body = none }

-- `not report_value_json or report_value_json == "{}"`
unfoldable pub is_empty_report : JobReport → Bool
unfolding strip text_eq
is_empty_report report =
    let stripped = strip report.value_json in is_empty stripped || text_eq stripped (text "{}")

module _ (env : Env) where
  -- `JobUpdate(status=JobStatus.RETRY, retry_times=...)`
  unfoldable pub mark_retry : ℕ → ℕ → Exec World Unit
  mark_retry job_id retries = do
    update_job env job_id
        (record { status = some retry; retry_times = some retries; events = none })
    pure tt

  -- _rollback_to_retry, past its look-up
  unfoldable pub roll_back : ℕ → Option Job → Exec World Unit
  unfolding mark_retry
  roll_back job_id none = pure tt
  roll_back job_id (some job) =
      if leb max_retry_times (job.retry_times + 1)
      then (do update_job_status env job_id Models.failed none; pure tt)
      else mark_retry job_id (job.retry_times + 1)

  -- _rollback_to_retry
  unfoldable pub rollback_to_retry : ℕ → Exec World Unit
  unfolding roll_back
  rollback_to_retry job_id =
      try_except (do found ← get_job env job_id; roll_back job_id found) (pure tt)

  unfoldable pub after_update : Job → Text → Option ℕ → Exec World (Reply JobInfo)
  unfolding rollback_to_retry
  after_update job task_json none = do rollback_to_retry job.id; pure (replied internal)
  after_update job task_json (some _) = pure (record {
    code = fine;
    body = some (record { id = job.id; task_id = job.task_id; task_json = task_json });
  })

  unfoldable pub after_fetch : Job → Option Text → Exec World (Reply JobInfo)
  unfolding after_update
  after_fetch job none = do rollback_to_retry job.id; pure (replied internal)
  after_fetch job (some task_json) = do
    updated ← attempt (ExternalApi.update_task_status env job.task_id TaskStatus.running)
    after_update job task_json updated

  unfoldable pub allocate : Option Job → Exec World (Reply JobInfo)
  unfolding after_fetch
  allocate none = pure (replied not_found)
  allocate (some job) = do
    fetched ← attempt (ExternalApi.get_task env job.task_id)
    after_fetch job fetched

  -- GetJob
  unfoldable pub get_job_rpc : Exec World (Reply JobInfo)
  unfolding allocate
  get_job_rpc = try_except (do job ← get_runnable_job env; allocate job) (pure (replied internal))

  -- The branch of CreateReport for an empty report.
  unfoldable pub reject : ReportRequest → Job → Exec World (Reply ReportRequest)
  unfolding mark_retry
  reject r job = do
    if leb max_retry_times (job.retry_times + 1)
        then (do
          update_job_status env r.job_id Models.failed none
          attempt (ExternalApi.update_task_status env r.task_id TaskStatus.failed)
          pure tt)
        else mark_retry r.job_id (job.retry_times + 1)
    pure (record { code = invalid_argument; body = some r })

  unfoldable pub after_submit : ReportRequest → Option ℤ → Exec World (Reply ReportRequest)
  unfolding rollback_to_retry
  after_submit r none = do rollback_to_retry r.job_id; pure (replied internal)
  after_submit r (some report_id) = do
    attempt (ExternalApi.update_task_status env r.task_id TaskStatus.success)
    pure (record { code = fine; body = some r })

  abbrev pub report_data : ReportRequest → ReportData
  report_data r = record {
    id = r.task_id;
    name = r.job_report.name;
    value_json = r.job_report.value_json;
    message = r.job_report.message;
  }

  -- The branch of CreateReport for a report with content.
  unfoldable pub accept : ReportRequest → Exec World (Reply ReportRequest)
  unfolding after_submit
  accept r = do
    update_job_status env r.job_id Models.success none
    submitted ← attempt (ExternalApi.create_report env (report_data r))
    after_submit r submitted

  unfoldable pub report_on : ReportRequest → Option Job → Exec World (Reply ReportRequest)
  unfolding reject accept
  report_on r none = pure (replied not_found)
  report_on r (some job) = if is_empty_report r.job_report then reject r job else accept r

  -- CreateReport
  unfoldable pub create_report_rpc : ReportRequest → Exec World (Reply ReportRequest)
  unfolding report_on
  create_report_rpc r =
      try_except (do found ← get_job env r.job_id; report_on r found)
        (do attempt (rollback_to_retry r.job_id); pure (replied internal))

-- Heartbeat: the worker's name comes back.
unfoldable pub heartbeat : Text → List ℕ → Text
heartbeat worker_id running_job_ids = worker_id
