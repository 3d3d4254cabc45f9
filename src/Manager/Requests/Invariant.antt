-- ===== src/Manager/Requests/Invariant.antt =====
-- Whatever requests arrive and however sessions and calls to the platform end, the table stays valid.
use video_flow.Prelude.{Bool, true, false, List, [], ◌∷◌, arith, if◌then◌else◌}
use video_flow.Manager.Exec.{Exec, Result, ok, raised, raise, value_error}
use video_flow.Manager.Exec.Rules.{Ends, Triple-pure, Triple-raise, Triple-bind}
use video_flow.Manager.World.{World, Env}
use video_flow.Manager.Repository.Keeps.{IsValid}
use video_flow.Manager.Service.Keeps.{create_job-Holds, get_job-Holds, list_jobs-Holds}
use video_flow.Manager.Servicer.{max_retry_times, get_job_rpc, create_report_rpc}
use video_flow.Manager.Servicer.Keeps.{Keeps, Keeps-get_job_rpc, Keeps-create_report_rpc}
use video_flow.Manager.Requests.{
  max_name_length, length, leb, is_admissible, Request, job_create, job_get, job_task_get, job_list,
  job_allocate, job_report, create_job, get_job, get_job_task, list_jobs, handle, serve, fresh,
  job_task,
}

module _ (env : Env) where
  list_if :
      {A : Type 0} (b : Bool) (m : Exec World A)
      → Keeps env m
      → Keeps env (if b then m else raise value_error)
  list_if true m k = k
  list_if false m k = Triple-raise _ (λ w v. v)

  kept_after :
      {A : Type 0} (m : Exec World A)
      → Keeps env m
      → (w : World) → IsValid max_retry_times w.table
      → IsValid max_retry_times (m w).1.table
  kept_after m k w v = Ends-same (m w).0 (m w).1 (k.at w v)
    where
      Ends-same :
          {A : Type 0} (r : Result A) (w : World)
          → Ends (λ a w. IsValid max_retry_times w.table) (λ w. IsValid max_retry_times w.table) r w
          → IsValid max_retry_times w.table
      Ends-same (ok a) w v = v
      Ends-same (raised e) w v = v

  handle-IsValid :
      (r : Request) (w : World)
      → IsValid max_retry_times w.table
      → IsValid max_retry_times (handle env r w).table
  unfolding handle create_job get_job get_job_task list_jobs
  handle-IsValid (job_create d) = kept_after (create_job env d) (
      list_if (leb (length d.project_name) max_name_length) _ (
        Triple-bind _ _ (create_job-Holds env max_retry_times d (omega arith))
          (λ job. Triple-pure job.id (λ w v. v))))
  handle-IsValid (job_get k) = kept_after (get_job env k) (get_job-Holds env max_retry_times k)
  handle-IsValid (job_task_get k) = kept_after (get_job_task env k) (
      Triple-bind _ _ (get_job-Holds env max_retry_times k)
        (λ job. Triple-pure (job_task job) (λ w v. v)))
  handle-IsValid (job_list r) = kept_after (list_jobs env r) (
      list_if (is_admissible r) _ (
        Triple-bind _ _
          (list_jobs-Holds env max_retry_times r.project_name r.page r.page_size r.sort_by
            r.sort_order)
          (λ page. Triple-pure _ (λ w v. v))))
  handle-IsValid job_allocate = kept_after (get_job_rpc env) (Keeps-get_job_rpc env)
  handle-IsValid (job_report r) =
      kept_after (create_report_rpc env r) (Keeps-create_report_rpc env r)

  -- From a valid table, any requests in any order leave a valid table, however the sessions and the
  -- calls to the platform end: the keys stay distinct and below the next one, and every job has
  -- fewer than ten retries.
  pub serve-IsValid :
      (rs : List Request) (w : World)
      → IsValid max_retry_times w.table
      → IsValid max_retry_times (serve env w rs).table
  unfolding serve
  serve-IsValid [] w v = v
  serve-IsValid (r ∷ rs) w v = serve-IsValid rs (handle env r w) (handle-IsValid r w v)

pub fresh-IsValid : IsValid max_retry_times fresh.table
fresh-IsValid = record { distinct = tt; given_out = tt; within = tt }
