-- ===== src/Manager/Requests/Pages.antt =====
-- The pages of list_jobs, put together.
use video_flow.Prelude.{ℕ, zero, suc, none, List, [], ◌++◌, select}
use mathlib.Core.List.Permᴰ
use mathlib.Core.List.{Permᴰ}
use video_flow.Manager.Models.{Job}
use video_flow.Manager.Exec.{Result, ok, raised}
use video_flow.Manager.World.{Table, World, Env}
use video_flow.Manager.Repository
use video_flow.Manager.Repository.{listed, listed_le}
use video_flow.Manager.Service
use video_flow.Prelude.Text.{Text}
use video_flow.Manager.Requests.{ListJobsRequest, ListJobsReply, list_jobs}

abbrev items_of : Result ListJobsReply → List Job
items_of (ok reply) = reply.items
items_of (raised e) = []

module _ (env : Env) (r : ListJobsRequest) (w : ℕ → World) where
  -- The first `k` pages of one listing, page `k + 1` asked for in the world `w k`.
  pub first_pages : ℕ → List Job
  first_pages zero = []
  first_pages (suc k) =
      first_pages k ++ items_of (list_jobs env (record r { page = suc k }) (w k)).0

-- The rows that pass the filter.
abbrev pub found : ListJobsRequest → Table → List Job
found r t = select (listed r.project_name none) t.rows

-- All of them in the order asked for, as the n-th call lists them.
abbrev pub listing : Env → ListJobsRequest → Table → ℕ → List Job
listing env r t n = env.order_by n (listed_le env r.sort_by r.sort_order) (found r t)
