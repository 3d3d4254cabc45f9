-- ===== src/Manager/World.antt =====
-- What the manager shares with the outside: its job table (core/models.py, core/database.py) and the
-- task platform (the requests of client/external_api.py). Each database session and each HTTP
-- request is one call; an environment fixes how the n-th call ends and what the clock reads in it.
use video_flow.Prelude.{ℕ, ◌+◌, Bool, Option, none, some, List, ◌∷◌, [], ◌++◌}
use video_flow.Prelude.Int.{ℤ}
use video_flow.Prelude.Text.{Text}
use video_flow.Prelude.Sorting.{IsOrder, IsSorted}
use mathlib.Core.List.{Permᴰ}
use video_flow.Manager.Models.{Job}
use video_flow.Manager.Exec.{db_error, http_error, Result, ok, raised, Exec}

-- TaskStatus of client/external_api.py
pub data TaskStatus : Type 0 where
  unknown ready running ready_for_human success failed : TaskStatus

-- The object that CreateReport serialises: "Id", "Name", "ValueJson", "Message".
pub record ReportData : Type 0 where
  pub id : ℕ
  pub name : Text
  pub value_json : Text
  pub message : Text

-- The three requests of the client, by their URL path and payload.
pub data Request : Type 0 where
  task_get : (task_id : ℕ) → Request
  task_update : (task_id : ℕ) → TaskStatus → Request
  report_create : ReportData → Request

-- The "Result" of a reply: a dictionary is given by what `json.dumps` makes of it.
pub data ResultField : Type 0 where
  dict : (dumped : Text) → ResultField
  str : Text → ResultField
  int : ℤ → ResultField
  other : ResultField

-- How a session ends: committed; failed with nothing committed; or failed behind the commit.
pub data Outcome : Type 0 where
  done lost late : Outcome

-- core/models.py: the table `engine_jobs`, with the next value of its autoincrement key.
pub record Table : Type 0 where
  pub rows : List Job
  pub next_id : ℕ

pub record World : Type 0 where
  pub table : Table
  pub calls : ℕ
  pub posted : List Request

pub record Env : Type 0 where
  -- the n-th call, as a session, and the clock in it
  pub session : ℕ → Outcome
  pub now : ℕ → ℕ
  -- ORDER BY in the n-th call, by a test for "not behind", and the database's order of texts: rows
  -- that tie may come in another order in another call
  pub order_by : ℕ → (Job → Job → Bool) → List Job → List Job
  pub text_le : Text → Text → Bool
  -- the n-th call, as a request: `none` if it raises or its body is no JSON object, else the
  -- body's field "Result", if there is one
  pub post : ℕ → Request → Option (Option ResultField)
  pub base_url : Text
  -- Python's `int(s)`, `none` if it raises
  pub int_of : Text → Option ℤ

-- What SQL says of ORDER BY: the rows come back, none lost or invented, in the order asked for.
pub record IsDatabase (env : Env) : Type 0 where
  pub order_by-perm :
      (n : ℕ) (le : Job → Job → Bool) (xs : List Job) → Permᴰ (env.order_by n le xs) xs
  pub order_by-IsSorted :
      (n : ℕ) (le : Job → Job → Bool) (xs : List Job)
      → IsOrder le
      → IsSorted le (env.order_by n le xs)
  pub text_le-IsOrder : IsOrder env.text_le

module _ (env : Env) where
  module _ {A : Type 0} where
    unfoldable pub end_session : Outcome → Result A × Table → Exec World A
    end_session done (r, t) w = (r, record w { table = t; calls = w.calls + 1 })
    end_session lost (r, t) w = (raised db_error, record w { calls = w.calls + 1 })
    end_session late (r, t) w = (raised db_error, record w { table = t; calls = w.calls + 1 })

    -- `with get_session() as session`: what the body makes of the clock and the table.
    unfoldable pub in_session : (ℕ → Table → Result A × Table) → Exec World A
    unfolding end_session
    in_session body w = end_session (env.session w.calls) (body (env.now w.calls) w.table) w

  end_post : Option (Option ResultField) → Request → Exec World (Option ResultField)
  end_post none r w = (raised http_error, record w { calls = w.calls + 1 })
  end_post (some field) r w =
      (ok field, record w { calls = w.calls + 1; posted = w.posted ++ r ∷ [] })

  -- `self.client.post(...)`, `raise_for_status()` and `json()`. A request that raised may or may
  -- not have reached the platform: `posted` has those that were answered.
  unfoldable pub send : Request → Exec World (Option ResultField)
  unfolding end_post
  send r w = end_post (env.post w.calls r) r w
