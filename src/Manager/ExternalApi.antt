-- ===== src/Manager/ExternalApi.antt =====
-- workflow-manager client/external_api.py: the three requests to the task platform.
pub mod Tables
use video_flow.Prelude.{ℕ, Option, none, some, if◌then◌else◌}
use video_flow.Prelude.Int.{ℤ}
use video_flow.Prelude.Text.{Text, is_empty}
use video_flow.Manager.Exec.{Exec, pure, raise, value_error, ◌>>=◌, ◌>>◌}
use video_flow.Manager.World.{
  TaskStatus, ReportData, Request, task_get, task_update, report_create, ResultField, dict, str,
  int, World, Env, send,
}

unfoldable pub or_raise : {A : Type 0} → Option A → Exec World A
or_raise none = raise value_error
or_raise (some a) = pure a

-- What get_task makes of "Result".
unfoldable pub task_text : Option ResultField → Exec World Text
task_text none = raise value_error
task_text (some (dict dumped)) = pure dumped
task_text (some (str s)) = pure s
task_text (some _) = raise value_error

module _ (env : Env) where
  -- `if not self.base_url: raise ValueError(...)`, and the request
  unfoldable pub configured : Request → Exec World (Option ResultField)
  configured r = if is_empty env.base_url then raise value_error else send env r

  -- What create_report makes of "Result".
  unfoldable pub report_id : Option ResultField → Exec World ℤ
  unfolding or_raise
  report_id none = raise value_error
  report_id (some (int n)) = pure n
  report_id (some (str s)) = or_raise (env.int_of s)
  report_id (some _) = raise value_error

  unfoldable pub get_task : ℕ → Exec World Text
  unfolding task_text configured
  get_task task_id = do field ← configured (task_get task_id); task_text field

  unfoldable pub update_task_status : ℕ → TaskStatus → Exec World ℕ
  unfolding configured
  update_task_status task_id status = do configured (task_update task_id status); pure task_id

  unfoldable pub create_report : ReportData → Exec World ℤ
  unfolding report_id configured
  create_report report = do field ← configured (report_create report); report_id field
