-- ===== src/Manager/Servicer/Exhaustion.antt =====
-- How often a job can fail: empty reports one after another.
use video_flow.Prelude.{ℕ, zero, suc, ◌+◌, ◌<◌, min, ◌≡◌, refl, true, arith, leb, if◌then◌else◌}
use mathlib.Core.Path.{subst₂}
use video_flow.Manager.Models.{JobStatus, retry}
use video_flow.Manager.Models as Models
use video_flow.Manager.Exec.{Result, ok, raised}
use video_flow.Manager.Exec.Rules.{Ends}
use video_flow.Manager.World.{World, Table, Env, done}
use video_flow.Manager.Repository.Stands.{Stands}
use video_flow.Manager.Servicer.{
  max_retry_times, ReportRequest, Reply, Code, fine, not_found, internal, invalid_argument,
  is_empty_report, create_report_rpc,
}
use video_flow.Manager.Servicer.Outcomes.{
  status_after_failure, retries_after_failure, HasFailed, Settled, create_report_rpc-Settled,
}

-- The same report, `m` times.
pub reports : Env → ReportRequest → ℕ → World → World
reports env r zero w = w
reports env r (suc m) w = reports env r m (create_report_rpc env r w).1

-- Where `n` retries and `m` more failures lead: to FAILED with nine retries, once there are ten.
abbrev pub status_after : ℕ → JobStatus
status_after k = if leb max_retry_times k then Models.failed else retry

status_once : (n : ℕ) → status_after_failure n ≡ status_after (n + 1)
status_once n = refl

retries_once : (n : ℕ) → n < 10 → retries_after_failure n ≡ min (n + 1) 9
retries_once n h = ground arith

retries_after_failure-lt : (n : ℕ) → n < 10 → retries_after_failure n < 10
retries_after_failure-lt n h = ground arith

status_more :
    (n m : ℕ) → status_after (retries_after_failure n + suc m) ≡ status_after (n + suc (suc m))
status_more n m = ground arith

retries_more :
    (n m : ℕ) → n < 10 → min (retries_after_failure n + suc m) 9 ≡ min (n + suc (suc m)) 9
retries_more n m h = ground arith

Settled-HasFailed :
    (env : Env) (r : ReportRequest) (n : ℕ) (c : Code) (t : Table)
    → Settled env r n true c t
    → HasFailed r.job_id n t
Settled-HasFailed env r n fine t h = absurd h
Settled-HasFailed env r n not_found t h = absurd h
Settled-HasFailed env r n internal t h = absurd h
Settled-HasFailed env r n invalid_argument t h = h

Ends-failed :
    (env : Env) (q : ReportRequest) (n : ℕ) (r : Result (Reply ReportRequest)) (w : World)
    → Ends
        (λ (reply : Reply ReportRequest) w'. Settled env q n true reply.code w'.table)
        (λ w'. ⊥)
        r
        w
    → HasFailed q.job_id n w.table
Ends-failed env q n (ok reply) w h = Settled-HasFailed env q n reply.code w.table h
Ends-failed env q n (raised e) w h = absurd h

module _ (env : Env) (up : (n : ℕ) → env.session n ≡ done) (r : ReportRequest)
    (empty : is_empty_report r.job_report ≡ true) where
  one_failure :
      (s : JobStatus) (n : ℕ) (w : World)
      → Stands r.job_id s n w.table
      → HasFailed r.job_id n (create_report_rpc env r w).1.table
  one_failure s n w st =
      Ends-failed env r n (create_report_rpc env r w).0 (create_report_rpc env r w).1
        (rw empty at (create_report_rpc-Settled env up r s n w st))

  -- After `m + 1` empty reports in a row, where every session commits, a job that had `n` retries,
  -- below ten, is in RETRY with `n + m + 1` retries if that is below ten, and otherwise in FAILED
  -- with nine.
  pub reports-exhaust :
      (m : ℕ) (s : JobStatus) (n : ℕ) (w : World)
      → n < max_retry_times
      → Stands r.job_id s n w.table
      → Stands r.job_id
          (status_after (n + suc m))
          (min (n + suc m) 9)
          (reports env r (suc m) w).table
  unfolding reports
  reports-exhaust zero s n w h st =
      subst₂ (λ x k. Stands r.job_id x k (create_report_rpc env r w).1.table) (status_once n)
        (retries_once n h) (one_failure s n w st)
  reports-exhaust (suc m) s n w h st =
      subst₂
        (λ x k. Stands r.job_id x k (reports env r (suc m) (create_report_rpc env r w).1).table)
        (status_more n m) (retries_more n m h)
        (reports-exhaust m (status_after_failure n) (retries_after_failure n)
          (create_report_rpc env r w).1 (retries_after_failure-lt n h) (one_failure s n w st))
