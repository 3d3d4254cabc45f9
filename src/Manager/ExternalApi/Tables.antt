-- ===== src/Manager/ExternalApi/Tables.antt =====
-- The requests to the task platform never touch the job table.
use video_flow.Prelude.{ℕ, ◌≡◌, arith}
use video_flow.Manager.Exec.{◌>>=◌}
use video_flow.Manager.World.{TaskStatus, ReportData, World, Env, send}
use video_flow.Manager.ExternalApi.{get_task, update_task_status, create_report}

module _ (env : Env) where
  pub table-get_task : (task_id : ℕ) (w : World) → (get_task env task_id w).1.table ≡ w.table
  unfolding get_task send ◌>>=◌
  table-get_task task_id w = ground arith

  pub table-update_task_status :
      (task_id : ℕ) (s : TaskStatus) (w : World)
      → (update_task_status env task_id s w).1.table ≡ w.table
  unfolding update_task_status send ◌>>=◌
  table-update_task_status task_id s w = ground arith

  pub table-create_report :
      (report : ReportData) (w : World) → (create_report env report w).1.table ≡ w.table
  unfolding create_report send ◌>>=◌
  table-create_report report w = ground arith
