-- ===== src/Manager/Repository.antt =====
-- workflow-manager core/repositories.py: each method is one session over the job table.
pub mod Rows
pub mod Keeps
pub mod Stands
pub mod Picks
use video_flow.Prelude.{
  ℕ, suc, ◌+◌, ◌-◌, ◌*◌, Bool, true, false, ◌&&◌, ◌||◌, not, Option, none, some, List, [], ◌∷◌,
  ◌++◌, map, ◌==◌, leb, ltb, if◌then◌else◌, length, take, drop, select,
}
use video_flow.Prelude.Text.{Text, text, text_eq, is_empty}
use video_flow.Manager.Models.{JobStatus, pending, running, retry, Job, status_eq, job_eq, code_of}
use video_flow.Manager.Exec.{Result, ok, raised, multiple_results, Exec, pure, ◌>>=◌, ◌>>◌}
use video_flow.Manager.World.{Table, World, Env, in_session}

-- UPDATE ... WHERE id = job_id
unfoldable pub update_where : ℕ → (Job → Job) → List Job → List Job
update_where job_id f [] = []
update_where job_id f (r ∷ rs) = (if r.id == job_id then f r else r) ∷ update_where job_id f rs

-- SELECT ... WHERE id = job_id
abbrev pub has_id : ℕ → Job → Bool
has_id job_id r = r.id == job_id

-- `scalar_one_or_none()`
abbrev pub scalar_one_or_none : List Job → Result (Option Job)
scalar_one_or_none [] = ok none
scalar_one_or_none (r ∷ []) = ok (some r)
scalar_one_or_none (r ∷ s ∷ rs) = raised multiple_results

-- The row that a flush of `merged` writes over `row`: nothing if no column differs, and the time of
-- the update unless the object brings its own.
unfoldable pub flushed : ℕ → Job → Job → Job
flushed now job row =
    if job_eq job row
    then row
    else if job.updated_time == row.updated_time
    then record job { updated_time = now }
    else job

abbrev pub is_live : Job → Bool
is_live r = r.deleted == 0

-- `Job.status == status, Job.deleted == 0`
abbrev pub has_status : JobStatus → Job → Bool
has_status s r = status_eq r.status s && is_live r

abbrev pub schedulable : Job → Bool
schedulable r = (status_eq r.status pending || status_eq r.status retry) && is_live r

-- ORDER BY created_time
abbrev pub by_created : Job → Job → Bool
by_created a b = leb a.created_time b.created_time

-- ORDER BY retry_times, created_time
abbrev pub by_retries : Job → Job → Bool
by_retries a b =
    ltb a.retry_times b.retry_times
    || (a.retry_times == b.retry_times && leb a.created_time b.created_time)

-- The columns of `_ALLOWED_SORT_COLUMNS`.
pub data Column : Type 0 where
  id created_time updated_time status project_name retry_times : Column

unfoldable pub column_of : Text → Column
unfolding text_eq
column_of s =
    if text_eq s (text "id")
    then id
    else if text_eq s (text "updated_time")
    then updated_time
    else if text_eq s (text "status")
    then status
    else if text_eq s (text "project_name")
    then project_name
    else if text_eq s (text "retry_times")
    then retry_times
    else created_time

-- `if project_name: query.where(...)`, `if status is not None: query.where(...)`
unfoldable pub named : Option Text → Job → Bool
named none r = true
named (some n) r = is_empty n || text_eq r.project_name n

unfoldable pub in_status : Option JobStatus → Job → Bool
in_status none r = true
in_status (some s) r = status_eq r.status s

abbrev pub listed : Option Text → Option JobStatus → Job → Bool
listed name wanted r = is_live r && named name r && in_status wanted r

unfoldable pub merged : ℕ → Job → List Job → Table → Result Job × Table
merged now job [] t = (ok job, record t { rows = t.rows ++ job ∷ [] })
merged now job (row ∷ _) t =
    let row' = flushed now job row in
    (ok row', record t { rows = update_where job.id (λ _. row') t.rows })

unfoldable pub started : ℕ → Job → Job
started now r = record r { status = running; updated_time = now }

unfoldable pub claim : ℕ → Table → Result (Option Job) → Result (Option Job) × Table
claim now t (raised e) = (raised e, t)
claim now t (ok none) = (ok none, t)
claim now t (ok (some job)) =
    (ok (some (started now job)), record t { rows = update_where job.id (started now) t.rows })

module _ (env : Env) where
  unfoldable pub column_le : Column → Job → Job → Bool
  column_le id a b = leb a.id b.id
  column_le created_time a b = leb a.created_time b.created_time
  column_le updated_time a b = leb a.updated_time b.updated_time
  column_le status a b = leb (code_of a.status) (code_of b.status)
  column_le project_name a b = env.text_le a.project_name b.project_name
  column_le retry_times a b = leb a.retry_times b.retry_times

  -- The test of `order_by(column.desc())` or of `order_by(column.asc())`.
  unfoldable pub listed_le : Text → Text → Job → Job → Bool
  unfolding column_of column_le
  listed_le sort_by sort_order a b =
      if text_eq sort_order (text "desc")
      then column_le (column_of sort_by) b a
      else column_le (column_of sort_by) a b

  -- create
  unfoldable pub create : Job → Exec World Job
  create job = in_session env λ now t.
      let row = record job { id = t.next_id; created_time = now; updated_time = now } in
      (ok row, record { rows = t.rows ++ row ∷ []; next_id = t.next_id + 1 })

  -- get_by_id
  unfoldable pub get_by_id : ℕ → Exec World (Option Job)
  get_by_id job_id =
      in_session env
        λ now t. (scalar_one_or_none (select (λ r. has_id job_id r && is_live r) t.rows), t)

  -- list_jobs: one page and the count of all that pass the filter
  unfoldable pub list_jobs :
      Option Text → Option JobStatus → ℕ → ℕ → Text → Text → Exec World (List Job × ℕ)
  unfolding listed_le
  list_jobs name wanted page page_size sort_by sort_order w =
      in_session env
        (λ now t.
          let found = select (listed name wanted) t.rows in
          let sorted = env.order_by w.calls (listed_le sort_by sort_order) found in
          (ok (take page_size (drop ((page - 1) * page_size) sorted), length found), t))
        w

  -- update: `session.merge(job)`, which looks up the key, whether deleted or not
  unfoldable pub update : Job → Exec World Job
  update job = in_session env λ now t. merged now job (select (has_id job.id) t.rows) t

  -- update_status: the result is read in a session of its own
  unfoldable pub update_status : ℕ → JobStatus → Exec World (Option Job)
  update_status job_id target = do
    in_session env λ now t. (
      ok tt,
      record t {
        rows = update_where job_id (λ r. record r { status = target; updated_time = now }) t.rows;
      },
    )
    get_by_id job_id

  -- count_pending
  unfoldable pub count_pending : Exec World ℕ
  count_pending = in_session env λ now t. (ok (length (select schedulable t.rows)), t)

  -- The first row of a status in an order, with `with_for_update().limit(1)`.
  unfoldable pub oldest : ℕ → JobStatus → (Job → Job → Bool) → Table → Result (Option Job)
  oldest n s le t = scalar_one_or_none (take 1 (env.order_by n le (select (has_status s) t.rows)))

  -- The PENDING job, or else the RETRY job.
  unfoldable pub chosen : ℕ → Result (Option Job) → Table → Result (Option Job)
  chosen n (ok none) t = oldest n retry by_retries t
  chosen n other t = other

  -- get_one_pending_for_update
  unfoldable pub get_one_pending_for_update : Exec World (Option Job)
  get_one_pending_for_update w =
      in_session env (λ now t. claim now t (chosen w.calls (oldest w.calls pending by_created t) t))
        w

  -- delete
  unfoldable pub delete : ℕ → Exec World Bool
  delete job_id = in_session env λ now t. (
    ok (ltb 0 (length (select (has_id job_id) t.rows))),
    record t {
      rows = update_where job_id (λ r. record r { deleted = 1; updated_time = now }) t.rows;
    },
  )
