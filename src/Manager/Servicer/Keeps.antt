-- ===== src/Manager/Servicer/Keeps.antt =====
-- The handlers keep the job table well-formed, whatever the database and the platform do.
use video_flow.Prelude.{
  ℕ, ◌≡◌, ◌<◌, Bool, true, false, Option, none, some, arith, leb, if◌then◌else◌,
}
use mathlib.Core.Path.{subst, sym, refl}
use video_flow.Prelude.Int.{ℤ}
use video_flow.Manager.ExternalApi
use video_flow.Prelude.Text.{Text}
use video_flow.Manager.Models.{Job, JobStatus}
use video_flow.Manager.Exec.{Exec, Result, ok, raised, pure, attempt, try_except, ◌>>=◌}
use video_flow.Manager.Exec.Rules.{
  Ends, Triple-pure, Triple-bind, Triple-attempt, Triple-try_except, Triple_to, OnAttempt,
}
use video_flow.Manager.World.{TaskStatus, ReportData, World, Env}
use video_flow.Manager.Repository.Keeps.{IsValid}
use video_flow.Manager.Service.{get_job, get_runnable_job, update_job_status}
use video_flow.Manager.Service.Keeps.{
  Kept, get_job-Holds, update_job-Holds, get_runnable_job-Holds, update_job_status-Holds,
}
use video_flow.Manager.ExternalApi.Tables.{
  table-get_task, table-update_task_status, table-create_report,
}
use video_flow.Manager.Servicer.{
  max_retry_times, ReportRequest, mark_retry, roll_back, rollback_to_retry, after_update,
  after_fetch, allocate, get_job_rpc, reject, after_submit, accept, report_on, create_report_rpc,
}

module _ (env : Env) where
  abbrev pub Keeps : {A : Type 0} → Exec World A → Type 0
  Keeps m = Kept env max_retry_times m

  Ends-raise :
      {A : Type 0} (P : World → Type 0) (r : Result A) (w : World) → P w → Ends (λ a. P) P r w
  Ends-raise P (ok a) w v = v
  Ends-raise P (raised e) w v = v

  Keeps-remote : {A : Type 0} (m : Exec World A) → ((w : World) → (m w).1.table ≡ w.table) → Keeps m
  Keeps-remote m same = record {
    at = λ w v.
        Ends-raise (λ w. IsValid max_retry_times w.table) (m w).0 (m w).1
          (subst (IsValid max_retry_times) (sym (same w)) v);
  }

  either :
      {A : Type 0} (o : Option A) (w : World)
      → OnAttempt
          (λ (a : A) w'. IsValid max_retry_times w'.table)
          (λ w'. IsValid max_retry_times w'.table)
          o
          w
      → IsValid max_retry_times w.table
  either none w v = v
  either (some a) w v = v

  Keeps-attempt : {A : Type 0} (m : Exec World A) → Keeps m → Keeps (attempt m)
  Keeps-attempt m km = Triple_to _ either (Triple-attempt m km)

  Keeps-pure : {A : Type 0} (a : A) → Keeps (pure a)
  Keeps-pure a = Triple-pure a (λ w v. v)

  Keeps-bind :
      {A B : Type 0} (m : Exec World A) (f : A → Exec World B)
      → Keeps m
      → ((a : A) → Keeps (f a))
      → Keeps (m >>= f)
  Keeps-bind m f km kf = Triple-bind m f km kf

  Keeps-try :
      {A : Type 0} (m handler : Exec World A)
      → Keeps m
      → Keeps handler
      → Keeps (try_except m handler)
  Keeps-try m handler km kh = Triple-try_except _ m handler km kh

  Keeps-if :
      {A : Type 0} (b : Bool) (m n : Exec World A)
      → (b ≡ true → Keeps m)
      → (b ≡ false → Keeps n)
      → Keeps (if b then m else n)
  Keeps-if true m n km kn = km refl
  Keeps-if false m n km kn = kn refl

  Keeps-get_job : (job_id : ℕ) → Keeps (get_job env job_id)
  Keeps-get_job job_id = get_job-Holds env max_retry_times job_id

  Keeps-get_runnable_job : Keeps (get_runnable_job env)
  Keeps-get_runnable_job = get_runnable_job-Holds env max_retry_times

  Keeps-update_job_status :
      (job_id : ℕ) (s : JobStatus) (events : Option Text)
      → Keeps (update_job_status env job_id s events)
  Keeps-update_job_status = update_job_status-Holds env max_retry_times

  Keeps-get_task : (task_id : ℕ) → Keeps (ExternalApi.get_task env task_id)
  Keeps-get_task task_id = Keeps-remote _ (table-get_task env task_id)

  Keeps-update_task_status :
      (task_id : ℕ) (s : TaskStatus) → Keeps (ExternalApi.update_task_status env task_id s)
  Keeps-update_task_status task_id s = Keeps-remote _ (table-update_task_status env task_id s)

  Keeps-create_report : (report : ReportData) → Keeps (ExternalApi.create_report env report)
  Keeps-create_report report = Keeps-remote _ (table-create_report env report)

  Keeps-mark_retry :
      (job_id retries : ℕ) → retries < max_retry_times → Keeps (mark_retry env job_id retries)
  unfolding mark_retry
  Keeps-mark_retry job_id retries h =
      Keeps-bind _ _ (update_job-Holds env max_retry_times job_id _ (λ job _. h))
        (λ _. Keeps-pure tt)

  -- The counter that is written when the test for the last retry fails.
  room : (n : ℕ) → leb max_retry_times n ≡ false → n < max_retry_times
  room n h = ground arith

  ruleset keeps_rules = (
    Keeps-pure, Keeps-bind, Keeps-try, Keeps-if, Keeps-attempt, Keeps-get_job,
    Keeps-get_runnable_job, Keeps-update_job_status, Keeps-get_task, Keeps-update_task_status,
    Keeps-create_report, Keeps-mark_retry, room,
  )

  Keeps-roll_back : (job_id : ℕ) (found : Option Job) → Keeps (roll_back env job_id found)
  unfolding roll_back
  Keeps-roll_back job_id none = search keeps_rules
  Keeps-roll_back job_id (some job) = search keeps_rules

  Keeps-rollback_to_retry : (job_id : ℕ) → Keeps (rollback_to_retry env job_id)
  unfolding rollback_to_retry
  Keeps-rollback_to_retry job_id = search (keeps_rules, Keeps-roll_back)

  Keeps-after_update :
      (job : Job) (task_json : Text) (o : Option ℕ) → Keeps (after_update env job task_json o)
  unfolding after_update
  Keeps-after_update job task_json none = search (keeps_rules, Keeps-rollback_to_retry)
  Keeps-after_update job task_json (some n) = search keeps_rules

  Keeps-after_fetch : (job : Job) (o : Option Text) → Keeps (after_fetch env job o)
  unfolding after_fetch
  Keeps-after_fetch job none = search (keeps_rules, Keeps-rollback_to_retry)
  Keeps-after_fetch job (some task_json) = search (keeps_rules, Keeps-after_update)

  Keeps-allocate : (found : Option Job) → Keeps (allocate env found)
  unfolding allocate
  Keeps-allocate none = search keeps_rules
  Keeps-allocate (some job) = search (keeps_rules, Keeps-after_fetch)

  pub Keeps-get_job_rpc : Keeps (get_job_rpc env)
  unfolding get_job_rpc
  Keeps-get_job_rpc = search (keeps_rules, Keeps-allocate)

  Keeps-reject : (r : ReportRequest) (job : Job) → Keeps (reject env r job)
  unfolding reject
  Keeps-reject r job = search keeps_rules depth 8

  Keeps-after_submit : (r : ReportRequest) (o : Option ℤ) → Keeps (after_submit env r o)
  unfolding after_submit
  Keeps-after_submit r none = search (keeps_rules, Keeps-rollback_to_retry)
  Keeps-after_submit r (some n) = search keeps_rules

  Keeps-accept : (r : ReportRequest) → Keeps (accept env r)
  unfolding accept
  Keeps-accept r = search (keeps_rules, Keeps-after_submit)

  Keeps-report_on : (r : ReportRequest) (found : Option Job) → Keeps (report_on env r found)
  unfolding report_on
  Keeps-report_on r none = search keeps_rules
  Keeps-report_on r (some job) = search (keeps_rules, Keeps-reject, Keeps-accept)

  pub Keeps-create_report_rpc : (r : ReportRequest) → Keeps (create_report_rpc env r)
  unfolding create_report_rpc
  Keeps-create_report_rpc r = search (keeps_rules, Keeps-report_on, Keeps-rollback_to_retry)
