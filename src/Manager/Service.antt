-- ===== src/Manager/Service.antt =====
-- workflow-manager core/services.py: the job service over the repository.
pub mod Keeps
pub mod Transitions
use video_flow.Prelude.{
  ℕ, zero, Bool, true, false, Option, none, some, List, [], ◌∷◌, ◌++◌, if◌then◌else◌,
}
use video_flow.Prelude.Text.{Text, is_empty}
use video_flow.Manager.Models.{
  JobStatus, pending, running, retry, success, failed, Job, JobCreate, JobUpdate,
}
use video_flow.Manager.Exec.{attribute_error, Exec, pure, raise, value_error, ◌>>=◌, ◌>>◌}
use video_flow.Manager.World.{World, Env}
use video_flow.Manager.Repository

-- `if data.x is not None: job.x = data.x`
abbrev pub given : {A : Type 0} → Option A → A → A
given none x = x
given (some y) x = y

-- The object that update_job writes back.
unfoldable pub applied : JobUpdate → Job → Job
applied d job = record job {
  status = given d.status job.status;
  retry_times = given d.retry_times job.retry_times;
  events = given d.events job.events;
}

-- `f"{job.events}\n{events}" if job.events else events`
unfoldable pub with_events : Text → Job → Job
with_events events job = record job {
  events = if is_empty job.events then events else job.events ++ 10 ∷ events;
}

-- The pairs that transition_job_status lets through.
unfoldable pub allowed : JobStatus → JobStatus → Bool
allowed pending running = true
allowed retry running = true
allowed running success = true
allowed running failed = true
allowed running retry = true
allowed retry failed = true
allowed _ _ = false

module _ (env : Env) where
  -- create_job
  unfoldable pub create_job : JobCreate → Exec World Job
  create_job d = Repository.create env (record {
    id = 0;
    task_id = d.task_id;
    project_name = d.project_name;
    status = pending;
    retry_times = 0;
    events = [];
    created_time = 0;
    updated_time = 0;
    deleted = 0;
  })

  -- get_job
  unfoldable pub get_job : ℕ → Exec World (Option Job)
  get_job = Repository.get_by_id env

  -- list_jobs
  unfoldable pub list_jobs : Option Text → ℕ → ℕ → Text → Text → Exec World (List Job × ℕ)
  list_jobs name page page_size sort_by sort_order =
      Repository.list_jobs env name none page page_size sort_by sort_order

  unfoldable pub write_back : (Job → Job) → Option Job → Exec World (Option Job)
  write_back f none = pure none
  write_back f (some job) = do job' ← Repository.update env (f job); pure (some job')

  -- update_job
  unfoldable pub update_job : ℕ → JobUpdate → Exec World (Option Job)
  unfolding write_back
  update_job job_id d = do job ← Repository.get_by_id env job_id; write_back (applied d) job

  unfoldable pub acquire : ℕ → Exec World (Option Job)
  acquire zero = pure none
  acquire count = Repository.get_one_pending_for_update env

  -- get_runnable_job
  unfoldable pub get_runnable_job : Exec World (Option Job)
  unfolding acquire
  get_runnable_job = do count ← Repository.count_pending env; acquire count

  -- update_job_status, with no events and with some
  unfoldable pub update_job_status : ℕ → JobStatus → Option Text → Exec World (Option Job)
  update_job_status job_id target none = Repository.update_status env job_id target
  update_job_status job_id target (some events) = do
    job ← Repository.update_status env job_id target
    if is_empty events then pure job else write_back (with_events events) job

  -- transition_job_status: the job of the caller is changed too. `loaded` says that its status came
  -- from the database, as an integer, which equals a member of JobStatus but has no `name` for the
  -- message of the ValueError.
  unfoldable pub transition_job_status : Bool → Job → JobStatus → Exec World (Bool × Job)
  unfolding allowed
  transition_job_status loaded job target =
      if allowed job.status target
      then (Repository.update env (record job { status = target })
          >> pure (true, record job { status = target }))
      else raise (if loaded then attribute_error else value_error)
