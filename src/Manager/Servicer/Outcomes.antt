-- ===== src/Manager/Servicer/Outcomes.antt =====
-- Where CreateReport and GetJob leave a job, in a database whose sessions all commit.
use video_flow.Manager.ExternalApi.{create_report}
use video_flow.Prelude.{
  ℕ, ◌+◌, ◌≡◌, refl, sym, Bool, true, false, Option, none, some, leb, if◌then◌else◌, Bool-cases,
  inl, inr,
}
use video_flow.Prelude.Int.{ℤ}
use mathlib.Core.Path.{subst}
use video_flow.Manager.Models.{Job, JobStatus, running, retry}
use video_flow.Manager.Models as Models
use video_flow.Manager.Exec.{caught, Exec, attempt}
use video_flow.Manager.Exec.Rules.{Ends, Triple-pure, Triple-bind, Triple-try_except, Triple_to}
use video_flow.Manager.World.{TaskStatus, World, Table, Env, done}
use video_flow.Manager.Repository.Stands.{
  Stands, Does, Read, get_by_id-Does, update_status-Does, update-Does,
}
use video_flow.Manager.Service.{get_job, update_job, update_job_status, applied, write_back}
use video_flow.Manager.ExternalApi.Tables.{table-update_task_status, table-create_report}
use video_flow.Manager.Servicer.{
  report_data, max_retry_times, ReportRequest, Code, internal, fine, invalid_argument,
  is_empty_report, mark_retry, roll_back, rollback_to_retry, reject, after_submit, accept,
  report_on, create_report_rpc,
}

-- A failure: one more retry while there are retries left, and otherwise FAILED, with the count as it
-- was.
abbrev pub status_after_failure : ℕ → JobStatus
status_after_failure n = if leb max_retry_times (n + 1) then Models.failed else retry

abbrev pub retries_after_failure : ℕ → ℕ
retries_after_failure n = if leb max_retry_times (n + 1) then n else n + 1

abbrev pub HasFailed : ℕ → ℕ → Table → Type 0
HasFailed job_id n t = Stands job_id (status_after_failure n) (retries_after_failure n) t

-- A request to the platform was made from a table with `P`, and ended so: with a value, or by raising.
abbrev pub Answered : {A : Type 0} → (Table → Type 0) → Exec World A → Option A → Type 0
Answered P m end = (w : World) × P w.table × (caught (m w).0 ≡ end)

-- How a code answers a report: with content or without, on a job that had `n` retries.
abbrev pub Settled : Env → ReportRequest → ℕ → Bool → Code → Table → Type 0
Settled env r n false fine t =
    Stands r.job_id Models.success n t
    × ((report_id : ℤ) × Answered (Stands r.job_id Models.success n)
          (create_report env (report_data env r)) (some report_id))
Settled env r n false internal t =
    HasFailed r.job_id n t
    × Answered (Stands r.job_id Models.success n) (create_report env (report_data env r)) none
Settled env r n true invalid_argument t = HasFailed r.job_id n t
Settled env r n _ _ t = ⊥

module _ (env : Env) (up : (n : ℕ) → env.session n ≡ done) where
  update_job-Does :
      (job_id : ℕ) (s : JobStatus) (n m : ℕ)
      → Does env up
          (Stands job_id s n)
          (update_job env job_id
            (record { status = some retry; retry_times = some m; events = none }))
          (λ _. Stands job_id retry m)
  unfolding update_job applied write_back
  update_job-Does job_id s n m = Triple-bind _ _ (get_by_id-Does env up job_id s n) written
    where
      written :
          (found : Option Job)
          → Does env up
              (Read env up job_id s n found)
              (write_back env
                (applied (record { status = some retry; retry_times = some m; events = none }))
                found)
              (λ _. Stands job_id retry m)
      written none = record { at = λ w p. absurd p }
      written (some job) = record {
        at = λ w p.
            (Triple-bind _ _
                (update-Does env up job_id (record job { status = retry; retry_times = m }) s n p.1
                  p.2)
                (λ j. Triple-pure (some j) (λ w st. st))).at
              w p.0;
      }

  mark_retry-Does :
      (job_id : ℕ) (s : JobStatus) (n m : ℕ)
      → Does env up (Stands job_id s n) (mark_retry env job_id m) (λ _. Stands job_id retry m)
  unfolding mark_retry
  mark_retry-Does job_id s n m =
      Triple-bind _ _ (update_job-Does job_id s n m) (λ _. Triple-pure tt (λ w st. st))

  stands :
      (job_id : ℕ) (s : JobStatus) (n : ℕ) (found : Option Job) (t : Table)
      → Read env up job_id s n found t
      → Stands job_id s n t
  stands job_id s n none t p = absurd p
  stands job_id s n (some job) t p = p.0

  update_job_status-Does :
      (job_id : ℕ) (s s' : JobStatus) (n : ℕ)
      → Does env up
          (Stands job_id s n)
          (update_job_status env job_id s' none)
          (λ _. Stands job_id s' n)
  unfolding update_job_status
  update_job_status-Does job_id s s' n =
      Triple_to _ (λ found w. stands job_id s' n found w.table)
        (update_status-Does env up job_id s s' n)

  -- The update that follows a failure, for a test that agrees with the count.
  failure-Does :
      {A : Type 0} (job_id : ℕ) (s : JobStatus) (n : ℕ) (x y : Exec World A)
      → Does env up (Stands job_id s n) x (λ _. Stands job_id Models.failed n)
      → Does env up (Stands job_id s n) y (λ _. Stands job_id retry (n + 1))
      → Does env up
          (Stands job_id s n)
          (if leb max_retry_times (n + 1) then x else y)
          (λ _. HasFailed job_id n)
  failure-Does job_id s n x y dx dy = elim (Bool-cases (leb max_retry_times (n + 1))) [
    | inl e ↦ rw e dx
    | inr e ↦ rw e dy
  ]

  roll_back-Does :
      (job_id : ℕ) (s : JobStatus) (n : ℕ) (found : Option Job)
      → Does env up
          (Read env up job_id s n found)
          (roll_back env job_id found)
          (λ _. HasFailed job_id n)
  unfolding roll_back
  roll_back-Does job_id s n none = record { at = λ w p. absurd p }
  roll_back-Does job_id s n (some job) = record {
    at = λ w p.
        let d =
          failure-Does job_id s n _ _
            (Triple-bind _ _ (update_job_status-Does job_id s Models.failed n)
              (λ _. Triple-pure tt (λ w st. st)))
            (mark_retry-Does job_id s n (n + 1)) in
        rw p.4 (d.at w p.0);
  }

  get_job-Does :
      (job_id : ℕ) (s : JobStatus) (n : ℕ)
      → Does env up (Stands job_id s n) (get_job env job_id) (Read env up job_id s n)
  unfolding get_job
  get_job-Does job_id s n = get_by_id-Does env up job_id s n

  pub rollback_to_retry-Does :
      (job_id : ℕ) (s : JobStatus) (n : ℕ)
      → Does env up (Stands job_id s n) (rollback_to_retry env job_id) (λ _. HasFailed job_id n)
  unfolding rollback_to_retry
  rollback_to_retry-Does job_id s n =
      Triple-try_except (λ w. ⊥) _ _
        (Triple-bind _ _ (get_job-Does job_id s n) (roll_back-Does job_id s n))
        (Triple-pure tt (λ w p. absurd p))

  -- An attempted request to the platform leaves the table alone, and its end is known.
  pub remote-Does :
      {A : Type 0} (P : Table → Type 0) (m : Exec World A)
      → ((w : World) → (m w).1.table ≡ w.table)
      → Does env up P (attempt m) (λ end t. P t × Answered P m end)
  unfolding attempt
  remote-Does P m same = record { at = λ w p. (subst P (sym (same w)) p, (w, p, refl)) }

  reject-Does :
      (r : ReportRequest) (job : Job) (s : JobStatus) (n : ℕ)
      → job.retry_times ≡ n
      → Does env up
          (Stands r.job_id s n)
          (reject env r job)
          (λ reply. Settled env r n true reply.code)
  unfolding reject
  reject-Does r job s n e =
      Triple-bind _ _
        (rw e (
          failure-Does r.job_id s n _ _
            (Triple-bind _ _ (update_job_status-Does r.job_id s Models.failed n) (λ _.
              Triple-bind _ _
                (remote-Does (Stands r.job_id Models.failed n) _
                  (table-update_task_status env r.task_id TaskStatus.failed))
                (λ _. Triple-pure tt (λ w st. st.0))))
            (mark_retry-Does r.job_id s n (n + 1))))
        (λ _. Triple-pure _ (λ w st. st))

  after_submit-Does :
      (r : ReportRequest) (n : ℕ) (o : Option ℤ)
      → Does env up
          (λ t.
            Stands r.job_id Models.success n t
            × Answered (Stands r.job_id Models.success n) (create_report env (report_data env r)) o)
          (after_submit env r o)
          (λ reply. Settled env r n false reply.code)
  unfolding after_submit
  after_submit-Does r n none = record {
    at = λ w p.
        (Triple-bind _ _ (rollback_to_retry-Does r.job_id Models.success n)
            (λ _. Triple-pure _ (λ w st. (st, p.1)))).at
          w p.0;
  }
  after_submit-Does r n (some report_id) = record {
    at = λ w p.
        (Triple-bind _ _
            (remote-Does (Stands r.job_id Models.success n) _
              (table-update_task_status env r.task_id TaskStatus.success))
            (λ _. Triple-pure _ (λ w st. (st.0, (report_id, p.1))))).at
          w p.0;
  }

  accept-Does :
      (r : ReportRequest) (s : JobStatus) (n : ℕ)
      → Does env up (Stands r.job_id s n) (accept env r) (λ reply. Settled env r n false reply.code)
  unfolding accept
  accept-Does r s n = Triple-bind _ _ (update_job_status-Does r.job_id s Models.success n) (λ _.
      Triple-bind _ _ (remote-Does (Stands r.job_id Models.success n) _ (table-create_report env _))
        (after_submit-Does r n))

  report_on-Does :
      (r : ReportRequest) (s : JobStatus) (n : ℕ) (found : Option Job)
      → Does env up
          (Read env up r.job_id s n found)
          (report_on env r found)
          (λ reply. Settled env r n (is_empty_report r.job_report) reply.code)
  unfolding report_on
  report_on-Does r s n none = record { at = λ w p. absurd p }
  report_on-Does r s n (some job) = record {
    at = λ w p. elim (Bool-cases (is_empty_report r.job_report)) [
      | inl e ↦ rw e ((reject-Does r job s n p.4).at w p.0)
      | inr e ↦ rw e ((accept-Does r s n).at w p.0)
    ];
  }

  create_report_rpc-Does :
      (r : ReportRequest) (s : JobStatus) (n : ℕ)
      → Does env up
          (Stands r.job_id s n)
          (create_report_rpc env r)
          (λ reply. Settled env r n (is_empty_report r.job_report) reply.code)
  unfolding create_report_rpc
  create_report_rpc-Does r s n =
      Triple-try_except (λ w. ⊥) _ _
        (Triple-bind _ _ (get_job-Does r.job_id s n) (report_on-Does r s n))
        (record { at = λ w p. absurd p })

  pub create_report_rpc-Settled :
      (r : ReportRequest) (s : JobStatus) (n : ℕ) (w : World)
      → Stands r.job_id s n w.table
      → Ends
          (λ reply w'. Settled env r n (is_empty_report r.job_report) reply.code w'.table)
          (λ w'. ⊥)
          (create_report_rpc env r w).0
          (create_report_rpc env r w).1
  create_report_rpc-Settled r s n w st = (create_report_rpc-Does r s n).at w st
