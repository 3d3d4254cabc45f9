-- ===== src/Manager/Models.antt =====
-- workflow-manager core/models.py: the job record, its status and the update request. A date is a
-- number of ticks, a text is its list of code points.
use video_flow.Prelude.{ℕ, ◌≡◌, Bool, true, ◌&&◌, Option, arith, ◌==◌}
use video_flow.Prelude.Text.{Text, text_eq, text_eq-eq}

pub data JobStatus : Type 0 where
  pending running retry success failed no_need : JobStatus

-- The value of the status in the database.
abbrev pub code_of : JobStatus → ℕ
code_of pending = 0
code_of running = 1
code_of retry = 2
code_of success = 16
code_of failed = 17
code_of no_need = 32

unfoldable pub status_eq : JobStatus → JobStatus → Bool
status_eq a b = code_of a == code_of b

pub status_eq-eq : (a b : JobStatus) → status_eq a b ≡ true → a ≡ b
unfolding status_eq
status_eq-eq a b h = ground arith

-- A row of the table. The column of the status holds an integer, the code of its status: a job that was
-- loaded compares and is written as the status, and has no attributes of it (transition_job_status).
pub record Job : Type 0 where
  pub id : ℕ
  pub task_id : ℕ
  pub project_name : Text
  pub status : JobStatus
  pub retry_times : ℕ
  pub events : Text
  pub created_time : ℕ
  pub updated_time : ℕ
  pub deleted : ℕ

-- No column differs.
unfoldable pub job_eq : Job → Job → Bool
job_eq a b =
    a.id == b.id
    && a.task_id == b.task_id
    && text_eq a.project_name b.project_name
    && status_eq a.status b.status
    && a.retry_times == b.retry_times
    && text_eq a.events b.events
    && a.created_time == b.created_time
    && a.updated_time == b.updated_time
    && a.deleted == b.deleted

pub job_eq-eq : (a b : Job) → job_eq a b ≡ true → a ≡ b
unfolding job_eq
job_eq-eq a b h = ground (
  arith,
  text_eq-eq a.project_name b.project_name,
  text_eq-eq a.events b.events,
  status_eq-eq a.status b.status,
)

-- `max_length` of project_name
abbrev pub max_name_length : ℕ
max_name_length = 128

pub record JobCreate : Type 0 where
  pub task_id : ℕ
  pub project_name : Text

pub record JobUpdate : Type 0 where
  pub status : Option JobStatus
  pub retry_times : Option ℕ
  pub events : Option Text
