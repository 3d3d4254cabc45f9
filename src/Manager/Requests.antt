-- ===== src/Manager/Requests.antt =====
-- The requests that the manager serves: api/handlers/job_handler.py and grpc/servicer.py, one after
-- another over one world.
pub mod Invariant
pub mod Pages
use video_flow.Prelude.{
  length, ℕ, ◌+◌, ◌-◌, ◌/◌, Bool, Option, none, some, List, [], ◌∷◌, ◌==◌, leb, if◌then◌else◌, ◌&&◌,
  ◌||◌,
}
use video_flow.Prelude.Text.{Text, text, text_eq}
use video_flow.Manager.Models.{max_name_length, Job, JobStatus, JobCreate}
use video_flow.Manager.Exec.{Exec, pure, raise, value_error, ◌>>=◌}
use video_flow.Manager.World.{World, Env}
use video_flow.Manager.Service
use video_flow.Manager.Servicer.{ReportRequest, get_job_rpc, create_report_rpc}

-- ListJobsRequest of job_handler.py, whose fields are validated on the way in.
pub record ListJobsRequest : Type 0 where
  pub project_name : Option Text
  pub page : ℕ
  pub page_size : ℕ
  pub sort_by : Text
  pub sort_order : Text

-- `ge=1`, `ge=1, le=100`, `pattern="^(asc|desc)$"`
unfoldable pub is_admissible : ListJobsRequest → Bool
unfolding text_eq
is_admissible r =
    leb 1 r.page
    && leb 1 r.page_size
    && leb r.page_size 100
    && (text_eq r.sort_order (text "asc") || text_eq r.sort_order (text "desc"))

pub record ListJobsReply : Type 0 where
  pub items : List Job
  pub total : ℕ
  pub page : ℕ
  pub page_size : ℕ
  pub total_pages : ℕ

-- `math.ceil(total / page_size) if total > 0 else 0`
unfoldable pub total_pages : ℕ → ℕ → ℕ
total_pages total page_size = if total == 0 then 0 else (total + page_size - 1) / page_size

pub record JobTask : Type 0 where
  pub task_id : ℕ
  pub job_id : ℕ
  pub status : JobStatus
  pub project_name : Text

-- `HTTPException(404)` is `none`.
unfoldable pub job_task : Option Job → Option JobTask
job_task none = none
job_task (some job) = some (record {
  task_id = job.task_id;
  job_id = job.id;
  status = job.status;
  project_name = job.project_name;
})

-- A request to the manager: the four of job_handler.py and the two of servicer.py that use jobs.
pub data Request : Type 0 where
  job_create : JobCreate → Request
  job_get job_task_get : ℕ → Request
  job_list : ListJobsRequest → Request
  job_allocate : Request
  job_report : ReportRequest → Request

module _ (env : Env) where
  -- create_job: `JobCreate(...)` raises a ValidationError, a ValueError, for a name that is too long
  unfoldable pub create_job : JobCreate → Exec World ℕ
  create_job d =
      if leb (length d.project_name) max_name_length
      then (do job ← Service.create_job env d; pure job.id)
      else raise value_error

  -- get_job
  unfoldable pub get_job : ℕ → Exec World (Option Job)
  get_job job_id = Service.get_job env job_id

  -- get_job_task
  unfoldable pub get_job_task : ℕ → Exec World (Option JobTask)
  unfolding job_task
  get_job_task job_id = do job ← Service.get_job env job_id; pure (job_task job)

  -- list_jobs
  unfoldable pub list_jobs : ListJobsRequest → Exec World ListJobsReply
  list_jobs r =
      if is_admissible r
      then (do
        (items, total) ←
            Service.list_jobs env r.project_name r.page r.page_size r.sort_by r.sort_order
        pure (record {
          items = items;
          total = total;
          page = r.page;
          page_size = r.page_size;
          total_pages = total_pages total r.page_size;
        }))
      else raise value_error

  -- What a request leaves behind, whether its handler returned or raised.
  unfoldable pub handle : Request → World → World
  handle (job_create d) w = (create_job d w).1
  handle (job_get job_id) w = (get_job job_id w).1
  handle (job_task_get job_id) w = (get_job_task job_id w).1
  handle (job_list r) w = (list_jobs r w).1
  handle job_allocate w = (get_job_rpc env w).1
  handle (job_report r) w = (create_report_rpc env r w).1

  unfoldable pub serve : World → List Request → World
  serve w [] = w
  serve w (r ∷ rs) = serve (handle r w) rs

-- The world before the first request: an empty table.
abbrev pub fresh : World
fresh = record { table = record { rows = []; next_id = 1 }; calls = 0; posted = [] }
