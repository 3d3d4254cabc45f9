-- ===== src/Manager/Repository/Keeps.antt =====
-- The well-formedness of the job table, and what each method of the repository keeps of it.
use video_flow.Prelude.{
  ℕ, ◌+◌, ◌<◌, ◌≡◌, refl, Option, none, some, List, [], ◌∷◌, ◌++◌, arith, All, All-append,
  All-weaken, All-In, ==_iff, ◌≢◌, ◌∙◌, ◌&&◌, In, select, inl, sym,
}
use mathlib.Core.List.{map-append}
use video_flow.Prelude.Text.{Text}
use video_flow.Manager.Models.{pending, JobStatus, Job}
use video_flow.Manager.Exec.{Result, ok, raised, Exec}
use video_flow.Manager.Exec.Rules.{Ends, Triple, Triple-bind}
use video_flow.Manager.World.{Outcome, done, lost, late, Table, World, Env, end_session, in_session}
use video_flow.Manager.Repository.{
  by_created, oldest, chosen, update_where, has_id, flushed, is_live, scalar_one_or_none, merged,
  started, claim, create, get_by_id, update, update_status, count_pending,
  get_one_pending_for_update, list_jobs, delete,
}
use video_flow.Manager.Repository.Rows.{
  Distinct, ids, ids-update_where, All-update_where, flushed-id, In-select, In-ids,
  select-has_id-nil, Distinct-append,
}

-- Keys are distinct and were given out, and no job has used up its retries.
pub record IsValid (budget : ℕ) (t : Table) : Type 0 where
  pub distinct : Distinct (ids t.rows)
  pub given_out : All (λ k. k < t.next_id) (ids t.rows)
  pub within : All (λ (r : Job). r.retry_times < budget) t.rows

flushed-within :
    {budget : ℕ} (now : ℕ) (job row : Job)
    → row.retry_times < budget
    → job.retry_times < budget
    → (flushed now job row).retry_times < budget
unfolding flushed
flushed-within now job row h k = ground arith

-- The same keys, and rows that keep their budget.
IsValid-rows :
    (budget : ℕ) (t : Table) (rows : List Job)
    → ids rows ≡ ids t.rows
    → All (λ (r : Job). r.retry_times < budget) rows
    → IsValid budget t
    → IsValid budget (record t { rows = rows })
IsValid-rows budget t rows e h v = record {
  distinct = rw e v.distinct;
  given_out = rw e v.given_out;
  within = h;
}

module _ (env : Env) (budget : ℕ) where
  -- A triple over valid tables: a raise leaves a valid table too.
  abbrev pub Holds : {A : Type 0} → (Table → Type 0) → Exec World A → (A → Table → Type 0) → Type 0
  Holds P m Q = Triple (λ w. P w.table) m (λ a w. Q a w.table) (λ w. IsValid budget w.table)

  module _ {A : Type 0} (Q : A → Table → Type 0) where
    abbrev Sound : Result A → Table → Type 0
    Sound r t = Ends Q (IsValid budget) r t

    end_session-Ends :
        (o : Outcome) (r : Result A) (t : Table) (w : World)
        → IsValid budget w.table
        → IsValid budget t
        → Sound r t
        → Ends
            (λ a w'. Q a w'.table)
            (λ w'. IsValid budget w'.table)
            (end_session env o (r, t) w).0
            (end_session env o (r, t) w).1
    unfolding end_session
    end_session-Ends done (ok a) t w v v' q = q
    end_session-Ends done (raised e) t w v v' q = q
    end_session-Ends lost r t w v v' q = v
    end_session-Ends late r t w v v' q = v'

    -- A session keeps what its body keeps, however it ends.
    pub Holds-in_session :
        (P : Table → Type 0) (body : ℕ → Table → Result A × Table)
        → ((t : Table) → P t → IsValid budget t)
        → ((now : ℕ) (t : Table) → P t → IsValid budget (body now t).1)
        → ((now : ℕ) (t : Table) → P t → Sound (body now t).0 (body now t).1)
        → Holds P (in_session env body) Q
    unfolding in_session
    Holds-in_session P body same kept sound = record {
      at = λ w p.
          end_session-Ends (env.session w.calls) (body (env.now w.calls) w.table).0
            (body (env.now w.calls) w.table).1 w (same w.table p) (kept (env.now w.calls) w.table p)
            (sound (env.now w.calls) w.table p);
    }

module _ (env : Env) (budget : ℕ) where
  abbrev Valid : Table → Type 0
  Valid t = IsValid budget t

  -- A job that may be written back: its key is in the table, and it is within the budget.
  abbrev pub Known : Job → Table → Type 0
  Known job t = IsValid budget t × In job.id (ids t.rows) × (job.retry_times < budget)

  abbrev pub Found : Option Job → Table → Type 0
  Found none t = IsValid budget t
  Found (some job) t = Known job t

  pub create-Holds :
      (job : Job) → job.retry_times < budget → Holds env budget Valid (create env job) (λ _. Valid)
  unfolding create
  create-Holds job h =
      Holds-in_session env budget (λ _. Valid) Valid _ (λ t v. v) (λ now t v. added now t v)
        (λ now t v. added now t v)
    where
      added :
          (now : ℕ) (t : Table)
          → Valid t
          → Valid (record {
            rows =
                t.rows
                ++ record job { id = t.next_id; created_time = now; updated_time = now } ∷ [];
            next_id = t.next_id + 1;
          })
      added now t v = record {
        distinct = rw map-append (Distinct-append t.next_id (ids t.rows) v.given_out v.distinct);
        given_out = rw map-append (
            All-append (λ k. k < t.next_id + 1) (ids t.rows) (t.next_id ∷ [])
              (All-weaken (λ k. k < t.next_id) (λ k. k < t.next_id + 1) (λ k b. omega arith)
                (ids t.rows) v.given_out)
              (omega arith, tt));
        within = All-append (λ (r : Job). r.retry_times < budget) t.rows _ v.within (h, tt);
      }

  looked_up :
      (found : List Job) (t : Table)
      → ((job : Job) → In job found → In job t.rows)
      → IsValid budget t
      → Ends Found Valid (scalar_one_or_none found) t
  looked_up [] t sub v = v
  looked_up (r ∷ []) t sub v =
      let m = sub r (inl refl) in
      (v, In-ids r t.rows m, All-In (λ (j : Job). j.retry_times < budget) r t.rows v.within m)
  looked_up (r ∷ s ∷ rs) t sub v = v

  pub get_by_id-Holds : (job_id : ℕ) → Holds env budget Valid (get_by_id env job_id) Found
  unfolding get_by_id
  get_by_id-Holds job_id =
      Holds-in_session env budget Found Valid _ (λ t v. v) (λ now t v. v)
        (λ now t v.
          looked_up _ t (λ job m. (In-select (λ r. has_id job_id r && is_live r) job t.rows m).0) v)

  -- An update by key that changes neither the key nor takes a job over its budget.
  updated :
      (k : ℕ) (f : Job → Job) (t : Table)
      → ((r : Job) → r.id ≡ k → (f r).id ≡ r.id)
      → ((r : Job) → r.id ≡ k → r.retry_times < budget → (f r).retry_times < budget)
      → Valid t
      → Valid (record t { rows = update_where k f t.rows })
  updated k f t key small v =
      IsValid-rows budget t (update_where k f t.rows) (ids-update_where k f key t.rows)
        (All-update_where k f (λ (r : Job). r.retry_times < budget) small t.rows v.within) v

  merged-Valid :
      (now : ℕ) (job : Job) (found : List Job) (t : Table)
      → found ≢ []
      → ((r : Job) → In r found → (r.id ≡ job.id) × (r.retry_times < budget))
      → Known job t
      → Valid (merged now job found t).1
  unfolding merged flushed
  merged-Valid now job [] t some_row match known = absurd (some_row refl)
  merged-Valid now job (row ∷ rest) t some_row match known =
      let (same, fits) = match row (inl refl) in
      updated job.id (λ _. flushed now job row) t (λ r e. flushed-id now job row same ∙ sym e)
        (λ r e b. flushed-within now job row fits known.2) known.0

  merged-Ends :
      (now : ℕ) (job : Job) (found : List Job) (t : Table)
      → Valid (merged now job found t).1
      → Ends (λ _. Valid) Valid (merged now job found t).0 (merged now job found t).1
  unfolding merged
  merged-Ends now job [] t v = v
  merged-Ends now job (row ∷ rest) t v = v

  pub update-Holds : (job : Job) → Holds env budget (Known job) (update env job) (λ _. Valid)
  unfolding update
  update-Holds job =
      Holds-in_session env budget (λ _. Valid) (Known job) _ (λ t k. k.0) whole
        (λ now t k. merged-Ends now job (select (has_id job.id) t.rows) t (whole now t k))
    where
      whole :
          (now : ℕ) (t : Table)
          → Known job t
          → Valid (merged now job (select (has_id job.id) t.rows) t).1
      whole now t k =
          merged-Valid now job (select (has_id job.id) t.rows) t
            (select-has_id-nil job.id t.rows k.1)
            (λ r m.
              let (m', e) = In-select (has_id job.id) r t.rows m in
              (
                (==_iff r.id job.id).0 e,
                All-In (λ (j : Job). j.retry_times < budget) r t.rows k.0.within m',
              ))
            k

  pub update_status-Holds :
      (job_id : ℕ) (s : JobStatus) → Holds env budget Valid (update_status env job_id s) Found
  unfolding update_status
  update_status-Holds job_id s =
      Triple-bind _ _
        (Holds-in_session env budget (λ _. Valid) Valid _ (λ t v. v) (set_status job_id s)
          (set_status job_id s))
        (λ _. get_by_id-Holds job_id)
    where
      set_status :
          (job_id : ℕ) (s : JobStatus) (now : ℕ) (t : Table)
          → Valid t
          → Valid (record t {
            rows = update_where job_id (λ r. record r { status = s; updated_time = now }) t.rows;
          })
      set_status job_id s now t v = updated job_id _ t (λ r e. refl) (λ r e b. b) v

  claim-Valid :
      (now : ℕ) (t : Table) (r : Result (Option Job))
      → Valid t
      → Valid (claim now t r).1 × Ends (λ _. Valid) Valid (claim now t r).0 (claim now t r).1
  unfolding claim started
  claim-Valid now t (raised e) v = (v, v)
  claim-Valid now t (ok none) v = (v, v)
  claim-Valid now t (ok (some job)) v =
      let v' = updated job.id (started now) t (λ r e. refl) (λ r e b. b) v in (v', v')

  pub get_one_pending_for_update-Holds :
      Holds env budget Valid (get_one_pending_for_update env) (λ _. Valid)
  unfolding get_one_pending_for_update
  get_one_pending_for_update-Holds = record {
    at = λ w p.
        (Holds-in_session env budget (λ _. Valid) Valid
            (λ now t. claim now t (chosen env w.calls (oldest env w.calls pending by_created t) t))
            (λ t v. v) (λ now t v. (claim-Valid now t _ v).0)
            (λ now t v. (claim-Valid now t _ v).1)).at
          w p;
  }

  pub count_pending-Holds : Holds env budget Valid (count_pending env) (λ _. Valid)
  unfolding count_pending
  count_pending-Holds =
      Holds-in_session env budget (λ _. Valid) Valid _ (λ t v. v) (λ now t v. v) (λ now t v. v)

  pub list_jobs-Holds :
      (name : Option Text) (wanted : Option JobStatus) (page page_size : ℕ)
      (sort_by sort_order : Text)
      → Holds env budget Valid
          (list_jobs env name wanted page page_size sort_by sort_order)
          (λ _. Valid)
  unfolding list_jobs
  list_jobs-Holds name wanted page page_size sort_by sort_order = record {
    at = λ w p.
        (Holds-in_session env budget (λ _. Valid) Valid _ (λ t v. v) (λ now t v. v)
            (λ now t v. v)).at
          w p;
  }

  pub delete-Holds : (job_id : ℕ) → Holds env budget Valid (delete env job_id) (λ _. Valid)
  unfolding delete
  delete-Holds job_id = Holds-in_session env budget (λ _. Valid) Valid _ (λ t v. v) removed removed
    where
      removed :
          (now : ℕ) (t : Table)
          → Valid t
          → Valid (record t {
            rows = update_where job_id (λ r. record r { deleted = 1; updated_time = now }) t.rows;
          })
      removed now t v = updated job_id _ t (λ r e. refl) (λ r e b. b) v
