-- ===== src/Manager/Service/Keeps.antt =====
-- What the job service keeps of the job table.
use video_flow.Prelude.{ℕ, zero, suc, ◌<◌, Bool, true, false, Option, none, some, if◌then◌else◌}
use video_flow.Prelude.Text.{Text, is_empty}
use video_flow.Manager.Models.{JobStatus, Job, JobCreate, JobUpdate}
use video_flow.Manager.Exec.{Exec, pure}
use video_flow.Manager.Exec.Rules.{Triple-pure, Triple-bind, Triple_from, Triple_to}
use video_flow.Manager.World.{Table, World, Env}
use video_flow.Manager.Repository
use video_flow.Manager.Repository.Keeps.{
  IsValid, Holds, Known, Found, create-Holds, get_by_id-Holds, update-Holds, update_status-Holds,
  count_pending-Holds, get_one_pending_for_update-Holds,
}
use video_flow.Manager.Service.{
  given, applied, with_events, create_job, get_job, list_jobs, write_back, update_job, acquire,
  get_runnable_job, update_job_status,
}

module _ (env : Env) (budget : ℕ) where
  abbrev Valid : Table → Type 0
  Valid t = IsValid budget t

  abbrev pub Kept : {A : Type 0} → Exec World A → Type 0
  Kept m = Holds env budget Valid m (λ _. Valid)

  pub valid : (found : Option Job) (t : Table) → Found env budget found t → Valid t
  valid none t v = v
  valid (some job) t k = k.0

  pub get_job-Holds : (job_id : ℕ) → Kept (get_job env job_id)
  unfolding get_job
  get_job-Holds job_id =
      Triple_to _ (λ found w. valid found w.table) (get_by_id-Holds env budget job_id)

  pub create_job-Holds : (d : JobCreate) → 0 < budget → Kept (create_job env d)
  unfolding create_job
  create_job-Holds d h = create-Holds env budget _ h

  -- Writing back a job that was found, changed within the budget.
  write_back-Holds :
      (f : Job → Job)
      → ((t : Table) (job : Job) → Known env budget job t → Known env budget (f job) t)
      → (found : Option Job)
      → Holds env budget (Found env budget found) (write_back env f found) (λ _. Valid)
  unfolding write_back
  write_back-Holds f keep none = Triple-pure none (λ w v. v)
  write_back-Holds f keep (some job) =
      Triple-bind _ _ (Triple_from _ (λ w k. keep w.table job k) (update-Holds env budget (f job)))
        (λ job'. Triple-pure (some job') (λ w v. v))

  pub update_job-Holds :
      (job_id : ℕ) (d : JobUpdate)
      → ((job : Job) → job.retry_times < budget → given d.retry_times job.retry_times < budget)
      → Kept (update_job env job_id d)
  unfolding update_job applied
  update_job-Holds job_id d fits =
      Triple-bind _ _ (get_by_id-Holds env budget job_id)
        (write_back-Holds (applied d) (λ t job k. (k.0, k.1, fits job k.2)))

  pub get_runnable_job-Holds : Kept (get_runnable_job env)
  unfolding get_runnable_job
  get_runnable_job-Holds = Triple-bind _ _ (count_pending-Holds env budget) acquired
    where
      acquired : (count : ℕ) → Kept (acquire env count)
      acquired zero = Triple-pure none (λ w v. v)
      acquired (suc n) = get_one_pending_for_update-Holds env budget

  pub update_job_status-Holds :
      (job_id : ℕ) (s : JobStatus) (events : Option Text)
      → Kept (update_job_status env job_id s events)
  unfolding update_job_status with_events
  update_job_status-Holds job_id s none =
      Triple_to _ (λ found w. valid found w.table) (update_status-Holds env budget job_id s)
  update_job_status-Holds job_id s (some events) =
      Triple-bind _ _ (update_status-Holds env budget job_id s) (appended (is_empty events))
    where
      appended :
          (skip : Bool) (found : Option Job)
          → Holds env budget
              (Found env budget found)
              (if skip then pure found else write_back env (with_events events) found)
              (λ _. Valid)
      appended true found = Triple-pure found (λ w. valid found w.table)
      appended false found =
          write_back-Holds (with_events events) (λ t job k. (k.0, k.1, k.2)) found

  pub list_jobs-Holds :
      (name : Option Text) (page page_size : ℕ) (sort_by sort_order : Text)
      → Kept (list_jobs env name page page_size sort_by sort_order)
  unfolding list_jobs
  list_jobs-Holds name page page_size sort_by sort_order =
      Repository.Keeps.list_jobs-Holds env budget name none page page_size sort_by sort_order
