-- ===== src/Manager/Repository/Stands.antt =====
-- Where a job stands, and how each method moves it, in a database whose sessions all commit.
use video_flow.Prelude.{
  ℕ, ◌≡◌, ◌≢◌, refl, sym, ◌∙◌, inl, inr, Bool, true, ◌&&◌, Option, none, some, List, [], ◌∷◌, arith,
  All, All-In, In, select, Bool-cases, ==_iff,
}
use mathlib.Core.Path.{subst}
use video_flow.Manager.Models.{JobStatus, Job, job_eq, job_eq-eq}
use video_flow.Manager.Exec.{Exec, Result, ok, raised}
use video_flow.Manager.Exec.Rules.{Ends, Triple, Triple-bind}
use video_flow.Manager.World.{Env, World, Table, done, in_session, end_session}
use video_flow.Manager.Repository.{
  update_where, has_id, is_live, flushed, merged, scalar_one_or_none, get_by_id, update,
  update_status,
}
use video_flow.Manager.Repository.Rows.{Distinct, ids, ids-update_where, flushed-id, In-ids}

-- The one row of a job, which is not deleted, and its status and count of retries.
pub record Stands (job_id : ℕ) (s : JobStatus) (n : ℕ) (t : Table) : Type 0 where
  pub distinct : Distinct (ids t.rows)
  pub row : Job
  pub stored : In row t.rows
  pub key : row.id ≡ job_id
  pub live : row.deleted ≡ 0
  pub status : row.status ≡ s
  pub retries : row.retry_times ≡ n

select-none :
    (p : Job → Bool) (k : ℕ) (rows : List Job)
    → ((r : Job) → p r ≡ true → r.id ≡ k)
    → All (λ y. k ≢ y) (ids rows)
    → select p rows ≡ []
select-none p k [] sub h = refl
select-none p k (r ∷ rows) sub h = elim (Bool-cases (p r)) [
  | inl e ↦ absurd (h.0 (sym (sub r e)))
  | inr e ↦ rw e (select-none p k rows sub h.1)
]

-- A look-up of a key finds the one row that has it.
select-one :
    (p : Job → Bool) (rows : List Job) (row : Job)
    → ((r : Job) → p r ≡ true → r.id ≡ row.id)
    → Distinct (ids rows)
    → In row rows
    → p row ≡ true
    → select p rows ≡ row ∷ []
select-one p [] row sub d m h = absurd m
select-one p (r ∷ rows) row sub d (inl same) h =
    let e : p r ≡ true = rw same at h in
    rw e (rw (select-none p row.id rows sub (rw (← same) at d.0)) (rw same))
select-one p (r ∷ rows) row sub d (inr m) h = elim (Bool-cases (p r)) [
  | inl e ↦ absurd (All-In (λ y. r.id ≢ y) row.id (ids rows) d.0 (In-ids row rows m) (sub r e))
  | inr e ↦ rw e (select-one p rows row sub d.1 m h)
]

In-update_where :
    (k : ℕ) (f : Job → Job) (r : Job) (rows : List Job)
    → r.id ≡ k
    → In r rows
    → In (f r) (update_where k f rows)
unfolding update_where
In-update_where k f r [] e m = m
In-update_where k f r (r' ∷ rows) e (inl same) = inl (rw (← same) (rw ((==_iff r.id k).1 e)))
In-update_where k f r (r' ∷ rows) e (inr m) = inr (In-update_where k f r rows e m)

flushed-facts :
    (now : ℕ) (job row : Job)
    → ((flushed now job row).status ≡ job.status)
      × ((flushed now job row).retry_times ≡ job.retry_times)
      × ((flushed now job row).deleted ≡ job.deleted)
unfolding flushed
flushed-facts now job row = elim (Bool-cases (job_eq job row)) [
  | inl e ↦ let same = job_eq-eq job row e in rw e (rw same (refl, refl, refl))
  | inr e ↦ rw e (ground arith)
]

-- An update by key that keeps keys moves the job as it changes its row.
pub moved :
    (f : Job → Job) {job_id : ℕ} {s : JobStatus} {n : ℕ} (t : Table) (st : Stands job_id s n t)
    {s' : JobStatus} {n' : ℕ}
    → ((r : Job) → r.id ≡ job_id → (f r).id ≡ r.id)
    → (f st.row).deleted ≡ 0
    → (f st.row).status ≡ s'
    → (f st.row).retry_times ≡ n'
    → Stands job_id s' n' (record t { rows = update_where job_id f t.rows })
moved f {job_id} t st key live status retries = record {
  distinct = rw (ids-update_where job_id f key t.rows) st.distinct;
  row = f st.row;
  stored = In-update_where job_id f st.row t.rows st.key st.stored;
  key = key st.row st.key ∙ st.key;
  live = live;
  status = status;
  retries = retries;
}

module _ (env : Env) (up : (n : ℕ) → env.session n ≡ done) where
  -- A triple in which nothing raises.
  abbrev pub Does : {A : Type 0} → (Table → Type 0) → Exec World A → (A → Table → Type 0) → Type 0
  Does P m Q = Triple (λ w. P w.table) m (λ a w. Q a w.table) (λ w. ⊥)

  Ends-end_session :
      {A : Type 0} (Q : A → Table → Type 0) (r : Result A) (t : Table) (w : World)
      → Ends Q (λ t. ⊥) r t
      → Ends
          (λ a w'. Q a w'.table)
          (λ w'. ⊥)
          (end_session env done (r, t) w).0
          (end_session env done (r, t) w).1
  unfolding end_session
  Ends-end_session Q (ok a) t w q = q
  Ends-end_session Q (raised e) t w q = q

  pub Does-in_session :
      {A : Type 0} (P : Table → Type 0) (Q : A → Table → Type 0)
      (body : ℕ → Table → Result A × Table)
      → ((now : ℕ) (t : Table) → P t → Ends Q (λ t. ⊥) (body now t).0 (body now t).1)
      → Does P (in_session env body) Q
  unfolding in_session
  Does-in_session P Q body step = record {
    at = λ w p. rw (up w.calls) (
        Ends-end_session Q (body (env.now w.calls) w.table).0 (body (env.now w.calls) w.table).1 w
          (step (env.now w.calls) w.table p));
  }

  module _ (job_id : ℕ) where
    -- What a look-up of the job returns: its row, or at least its key, status and retries.
    abbrev pub Read : JobStatus → ℕ → Option Job → Table → Type 0
    Read s n none t = ⊥
    Read s n (some job) t =
        Stands job_id s n t
        × (job.id ≡ job_id)
        × (job.deleted ≡ 0)
        × (job.status ≡ s)
        × (job.retry_times ≡ n)

    Read-found :
        (s : JobStatus) (n : ℕ) (found : List Job) (t : Table) (st : Stands job_id s n t)
        → found ≡ st.row ∷ []
        → Ends (Read s n) (λ t. ⊥) (scalar_one_or_none found) t
    Read-found s n found t st e = rw e (st, st.key, st.live, st.status, st.retries)

    pub get_by_id-Does :
        (s : JobStatus) (n : ℕ) → Does (Stands job_id s n) (get_by_id env job_id) (Read s n)
    unfolding get_by_id
    get_by_id-Does s n = Does-in_session (Stands job_id s n) (Read s n) _ (λ now t st.
        Read-found s n _ t st (
          select-one (λ r. has_id job_id r && is_live r) t.rows st.row
            (λ r h. ground (arith, st.key)) st.distinct st.stored
            (ground (arith, st.key, st.live))))

    pub update_status-Does :
        (s s' : JobStatus) (n : ℕ)
        → Does (Stands job_id s n) (update_status env job_id s') (Read s' n)
    unfolding update_status
    update_status-Does s s' n =
        Triple-bind _ _
          (Does-in_session (Stands job_id s n) (λ _. Stands job_id s' n) _
            (λ now t st.
              moved (λ r. record r { status = s'; updated_time = now }) t st (λ r e. refl) st.live
                refl st.retries))
          (λ _. get_by_id-Does s' n)

    merged-one :
        (now : ℕ) (job : Job) (found : List Job) (t : Table) {s : JobStatus} {n : ℕ}
        (st : Stands job_id s n t)
        → found ≡ st.row ∷ []
        → job.id ≡ job_id
        → job.deleted ≡ 0
        → Ends
            (λ _. Stands job_id job.status job.retry_times)
            (λ t. ⊥)
            (merged now job found t).0
            (merged now job found t).1
    unfolding merged
    merged-one now job found t st e k live =
        let (fs, fn, fd) = flushed-facts now job st.row in
        rw e (
          subst
            (λ x.
              Stands job_id job.status job.retry_times
                (record t { rows = update_where x (λ _. flushed now job st.row) t.rows }))
            (sym k)
            (moved (λ _. flushed now job st.row) t st
              (λ r e'. flushed-id now job st.row (st.key ∙ sym k) ∙ k ∙ sym e') (fd ∙ live) fs fn))

    pub update-Does :
        (job : Job) (s : JobStatus) (n : ℕ)
        → job.id ≡ job_id
        → job.deleted ≡ 0
        → Does (Stands job_id s n) (update env job) (λ _. Stands job_id job.status job.retry_times)
    unfolding update
    update-Does job s n k live =
        Does-in_session (Stands job_id s n) (λ _. Stands job_id job.status job.retry_times) _
          (λ now t st.
            merged-one now job _ t st
              (select-one (has_id job.id) t.rows st.row (λ r h. ground (arith, st.key)) st.distinct
                st.stored (ground (arith, st.key)))
              k live)
