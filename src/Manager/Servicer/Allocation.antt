-- ===== src/Manager/Servicer/Allocation.antt =====
-- What GetJob hands to a worker, and where it leaves the job, in a database whose sessions commit.
use video_flow.Manager.ExternalApi.{update_task_status, get_task}
use video_flow.Prelude.{
  inl, ◌⊎◌, inr, ℕ, zero, suc, ◌≡◌, refl, ap, ◌∙◌, true, false, Option, none, some, List, [], ◌∷◌,
  arith, All, select, select-nil, length,
}
use mathlib.Core.Path.{subst}
use video_flow.Prelude.Text.{Text}
use video_flow.Manager.Models.{Job, running}
use video_flow.Manager.Exec.{attempt, Result, ok, raised, pure, ◌>>◌}
use video_flow.Manager.Exec.Rules.{Ends, Triple-pure, Triple-bind, Triple-try_except, Triple_from}
use video_flow.Manager.World.{TaskStatus, World, Table, Env, done, IsDatabase}
use video_flow.Manager.Repository.{schedulable, count_pending, get_one_pending_for_update, started}
use video_flow.Manager.Repository.Rows.{Distinct, ids}
use video_flow.Manager.Repository.Picks.{
  IsNext, Allocated, get_one_pending_for_update-Allocated, IsNext-schedulable,
}
use video_flow.Manager.Repository.Stands.{Stands, Does, Does-in_session, moved}
use video_flow.Manager.Service.{get_runnable_job, acquire}
use video_flow.Manager.ExternalApi.Tables.{table-get_task, table-update_task_status}
use video_flow.Manager.Servicer.{
  JobInfo, replied, Code, internal, fine, not_found, rollback_to_retry, after_update, after_fetch,
  allocate, get_job_rpc,
}
use video_flow.Manager.Servicer.Outcomes.{Answered, HasFailed, rollback_to_retry-Does, remote-Does}

-- How the two requests to the platform ended, made while the job of the row was RUNNING: the fetch of
-- its task, and the update of its task to RUNNING.
abbrev pub Fetched : Env → Job → Option Text → Type 0
Fetched env r end = Answered (Stands r.id running r.retry_times) (get_task env r.task_id) end

abbrev pub Updated : Env → Job → Option ℕ → Type 0
Updated env r end =
    Answered (Stands r.id running r.retry_times)
      (update_task_status env r.task_id TaskStatus.running) end

-- The answer to a worker, from the table `t₀`: no job, and then none is schedulable and nothing has
-- changed; or the next job, which is RUNNING now, with the task that the platform returned; or an
-- error, where a request to the platform raised, after which that job has failed once more.
abbrev pub Granted : Env → Table → Code → Option JobInfo → Table → Type 0
Granted env t₀ not_found none t = All (λ r. schedulable r ≡ false) t₀.rows × (t ≡ t₀)
Granted env t₀ fine (some info) t =
    (r : Job) × IsNext t₀.rows r
    × (info.id ≡ r.id)
    × (info.task_id ≡ r.task_id)
    × Fetched env r (some info.task_json)
    × ((n : ℕ) × Updated env r (some n))
    × Stands r.id running r.retry_times t
Granted env t₀ internal none t =
    (r : Job) × IsNext t₀.rows r
    × (Fetched env r none ⊎ Updated env r none)
    × HasFailed r.id r.retry_times t
Granted env t₀ _ _ t = ⊥

-- A job that comes from a row of the table, with the row's key, task and count of retries.
abbrev From : Job → Job → Type 0
From job r = (job.id ≡ r.id) × (job.task_id ≡ r.task_id) × (job.retry_times ≡ r.retry_times)

abbrev Acquired : Table → Option Job → Table → Type 0
Acquired t₀ none t = All (λ r. schedulable r ≡ false) t₀.rows × (t ≡ t₀)
Acquired t₀ (some job) t =
    (r : Job) × IsNext t₀.rows r × From job r × Stands r.id running r.retry_times t

module _ (env : Env) (db : IsDatabase env) (up : (n : ℕ) → env.session n ≡ done) (t₀ : Table)
    (distinct : Distinct (ids t₀.rows)) where
  live_of : (r : Job) → schedulable r ≡ true → r.deleted ≡ 0
  live_of r h = ground arith

  claimed :
      (now : ℕ) (t t' : Table) (x : Result (Option Job))
      → t ≡ t₀
      → Allocated now t x t'
      → Ends (Acquired t₀) (λ t. ⊥) x t'
  unfolding started
  claimed now t t' (raised e) same h = h
  claimed now t t' (ok none) same h = (rw (← same) h.0, h.1 ∙ same)
  claimed now t t' (ok (some job)) same (r, next, job_is, after) =
      let next' = subst (λ (x : Table). IsNext x.rows r) same next in
      let (m, h) = IsNext-schedulable t₀.rows r next' in
      let st : Stands r.id r.status r.retry_times t₀ = record {
        distinct = distinct;
        row = r;
        stored = m;
        key = refl;
        live = live_of r h;
        status = refl;
        retries = refl;
      } in
      (
        r,
        next',
        (
          ap (λ (j : Job). j.id) job_is,
          ap (λ (j : Job). j.task_id) job_is,
          ap (λ (j : Job). j.retry_times) job_is,
        ),
        rw after (rw same (moved (started now) t₀ st (λ r e. refl) st.live refl refl)),
      )

  at_world :
      {A : Type 0} (Q : A → Table → Type 0) (x : Result A) (w : World)
      → Ends Q (λ t. ⊥) x w.table
      → Ends (λ a w'. Q a w'.table) (λ w'. ⊥) x w
  at_world Q (ok a) w h = h
  at_world Q (raised e) w h = h

  get_one_pending_for_update-Does :
      Does env up (λ t. t ≡ t₀) (get_one_pending_for_update env) (Acquired t₀)
  get_one_pending_for_update-Does = record {
    at = λ w same. at_world (Acquired t₀) _ _ (
        claimed (env.now w.calls) w.table _ _ same
          (get_one_pending_for_update-Allocated env db w (up w.calls)));
  }

  abbrev Counted : ℕ → Table → Type 0
  Counted n t = (t ≡ t₀) × (n ≡ length (select schedulable t₀.rows))

  count_pending-Does : Does env up (λ t. t ≡ t₀) (count_pending env) Counted
  unfolding count_pending
  count_pending-Does =
      Does-in_session env up (λ t. t ≡ t₀) Counted _
        (λ now t same. (same, ap (λ (t : Table). length (select schedulable t.rows)) same))

  none_counted : (rows : List Job) → 0 ≡ length rows → rows ≡ []
  none_counted [] e = refl
  none_counted (r ∷ rows) e = absurd (omega arith)

  acquire-Does : (n : ℕ) → Does env up (Counted n) (acquire env n) (Acquired t₀)
  unfolding acquire
  acquire-Does zero =
      Triple-pure none (λ w c. (select-nil schedulable t₀.rows (none_counted _ c.1), c.0))
  acquire-Does (suc n) = Triple_from _ (λ w c. c.0) get_one_pending_for_update-Does

  get_runnable_job-Does : Does env up (λ t. t ≡ t₀) (get_runnable_job env) (Acquired t₀)
  unfolding get_runnable_job
  get_runnable_job-Does = Triple-bind _ _ count_pending-Does acquire-Does

  module _ (job r : Job) (next : IsNext t₀.rows r) (from : From job r) where
    abbrev Running : Table → Type 0
    Running t = Stands r.id running r.retry_times t

    undone :
        (Fetched env r none ⊎ Updated env r none)
        → Does env up Running
            (do rollback_to_retry env job.id; pure (replied internal))
            (λ reply. Granted env t₀ reply.code reply.body)
    undone why = rw from.0 (
        Triple-bind _ _ (rollback_to_retry-Does env up r.id running r.retry_times)
          (λ _. Triple-pure _ (λ w failed. (r, next, why, failed))))

    after_update-Does :
        (task_json : Text) (o : Option ℕ)
        → Fetched env r (some task_json)
        → Does env up
            (λ t. Running t × Updated env r o)
            (after_update env job task_json o)
            (λ reply. Granted env t₀ reply.code reply.body)
    unfolding after_update
    after_update-Does task_json none fetched = record { at = λ w p. (undone (inr p.1)).at w p.0 }
    after_update-Does task_json (some n) fetched =
        Triple-pure _ (λ w p. (r, next, from.0, from.1, fetched, (n, p.1), p.0))

    update-Does :
        Does env up Running
          (attempt (update_task_status env job.task_id TaskStatus.running))
          (λ o t. Running t × Updated env r o)
    update-Does =
        rw from.1
          (remote-Does env up Running _ (table-update_task_status env r.task_id TaskStatus.running))

    fetch-Does :
        Does env up Running
          (attempt (get_task env job.task_id))
          (λ o t. Running t × Fetched env r o)
    fetch-Does = rw from.1 (remote-Does env up Running _ (table-get_task env r.task_id))

    after_fetch-Does :
        (o : Option Text)
        → Does env up
            (λ t. Running t × Fetched env r o)
            (after_fetch env job o)
            (λ reply. Granted env t₀ reply.code reply.body)
    unfolding after_fetch
    after_fetch-Does none = record { at = λ w p. (undone (inl p.1)).at w p.0 }
    after_fetch-Does (some task_json) = record {
      at = λ w p. (Triple-bind _ _ update-Does (λ o. after_update-Does task_json o p.1)).at w p.0;
    }

    allocate-some :
        Does env up Running
          (allocate env (some job))
          (λ reply. Granted env t₀ reply.code reply.body)
    unfolding allocate
    allocate-some = Triple-bind _ _ fetch-Does after_fetch-Does

  allocate-Does :
      (found : Option Job)
      → Does env up
          (Acquired t₀ found)
          (allocate env found)
          (λ reply. Granted env t₀ reply.code reply.body)
  unfolding allocate
  allocate-Does none = Triple-pure _ (λ w h. h)
  allocate-Does (some job) = record {
    at = λ w (r, next, from, st). (allocate-some job r next from).at w st;
  }

  get_job_rpc-Does :
      Does env up (λ t. t ≡ t₀) (get_job_rpc env) (λ reply. Granted env t₀ reply.code reply.body)
  unfolding get_job_rpc
  get_job_rpc-Does =
      Triple-try_except (λ w. ⊥) _ _ (Triple-bind _ _ get_runnable_job-Does allocate-Does)
        (record { at = λ w p. absurd p })

-- Where the sessions commit and the keys are distinct, GetJob returns. It answers NOT_FOUND only if no
-- job is schedulable, and then changes nothing. It answers OK with the key and the task of the next
-- job (the PENDING job created first, or else the RETRY job with the fewest retries), which is RUNNING
-- with its count of retries, and with the text that the platform returned for this task; the update of
-- the task to RUNNING returned too. It answers INTERNAL only if one of these two requests raised, and
-- then the next job has one more retry and is in RETRY if that is below ten, and otherwise in FAILED.
pub get_job_rpc-Granted :
    (env : Env) (db : IsDatabase env) (up : (n : ℕ) → env.session n ≡ done) (w : World)
    → Distinct (ids w.table.rows)
    → Ends
        (λ reply w'. Granted env w.table reply.code reply.body w'.table)
        (λ w'. ⊥)
        (get_job_rpc env w).0
        (get_job_rpc env w).1
get_job_rpc-Granted env db up w distinct = (get_job_rpc-Does env db up w.table distinct).at w refl
