-- ===== src/Manager/Repository/Picks.antt =====
-- Which job `get_one_pending_for_update` hands out.
use video_flow.Prelude.{
  ℕ, ◌≡◌, ◌≢◌, refl, sym, ap, ◌∙◌, ◌⊎◌, inl, inr, Bool, true, false, Option, none, some, List, [],
  ◌∷◌, arith, take, All, All-weaken, All-In, ◌==◌, ==_iff, In, select, Bool-cases,
}
use mathlib.Core.Bool.{false≢true}
use mathlib.Core.List.{Permᴰ}
use video_flow.Prelude.Sorting.{In-Permᴰ, IsOrder, IsSorted, All-Permᴰ}
use video_flow.Manager.Models.{JobStatus, pending, retry, Job, status_eq}
use video_flow.Manager.Exec.{Result, ok, raised}
use video_flow.Manager.World.{Env, World, Table, done, in_session, IsDatabase}
use video_flow.Manager.Repository.{
  update_where, has_status, schedulable, by_created, by_retries, started, claim, oldest, chosen,
  scalar_one_or_none, get_one_pending_for_update,
}
use video_flow.Manager.Repository.Rows.{In-select}

-- A property of the selected rows, of the whole table.
All-of-select :
    (p : Job → Bool) (P : Job → Type 0) (rows : List Job)
    → All P (select p rows)
    → All (λ r. p r ≡ true → P r) rows
All-of-select p P [] h = tt
All-of-select p P (r ∷ rows) h = elim (Bool-cases (p r)) [
  | inl e ↦
      let h' : P r × All P (select p rows) = rw e at h in ((λ _. h'.0), All-of-select p P rows h'.1)
  | inr e ↦ ((λ e'. absurd (false≢true (sym e ∙ e'))), All-of-select p P rows (rw e at h))
]

by_created-IsOrder : IsOrder by_created
by_created-IsOrder = record { total = λ x y. ground arith; trans = λ x y z h k. ground arith }

by_retries-IsOrder : IsOrder by_retries
by_retries-IsOrder = record { total = λ x y. ground arith; trans = λ x y z h k. ground arith }

-- The first of the rows that pass a test, in an order.
pub record IsFirst (p : Job → Bool) (le : Job → Job → Bool) (rows : List Job) (r : Job)
    : Type 0 where
  pub stored : In r rows
  pub passes : p r ≡ true
  pub least : All (λ r'. p r' ≡ true → le r r' ≡ true) rows

abbrev Head : (Job → Bool) → (Job → Job → Bool) → List Job → Result (Option Job) → Type 0
Head p le rows (raised e) = ⊥
Head p le rows (ok none) = All (λ r. p r ≡ false) rows
Head p le rows (ok (some r)) = IsFirst p le rows r

not-true : (b : Bool) → (b ≡ true → ⊥) → b ≡ false
not-true true h = absurd (h refl)
not-true false h = refl

module _ (p : Job → Bool) {le : Job → Job → Bool} (order : IsOrder le) (rows : List Job) where
  le_refl : (x : Job) → (le x x ≡ true) ⊎ (le x x ≡ true) → le x x ≡ true
  le_refl x (inl h) = h
  le_refl x (inr h) = h

  scalar-Head :
      (xs : List Job)
      → Permᴰ xs (select p rows)
      → IsSorted le xs
      → Head p le rows (scalar_one_or_none (take 1 xs))
  scalar-Head [] perm sorted =
      All-weaken (λ r. p r ≡ true → ⊥) (λ r. p r ≡ false) (λ r h. not-true (p r) h) rows
        (All-of-select p (λ r. ⊥) rows (All-Permᴰ (λ r. ⊥) perm tt))
  scalar-Head (x ∷ xs) perm sorted =
      let (m, h) = In-select p x rows (In-Permᴰ perm x (inl refl)) in
      record {
        stored = m;
        passes = h;
        least =
            All-of-select p (λ r. le x r ≡ true) rows
              (All-Permᴰ (λ r. le x r ≡ true) perm (le_refl x (order.total x x), sorted.0));
      }

-- The job that is to run next: the PENDING job created first, or, where none is PENDING, the RETRY
-- job with the fewest retries, and of those the one created first.
abbrev pub IsNext : List Job → Job → Type 0
IsNext rows r =
    IsFirst (has_status pending) by_created rows r
    ⊎ (All (λ r'. has_status pending r' ≡ false) rows
        × IsFirst (has_status retry) by_retries rows r)

abbrev pub Chosen : List Job → Result (Option Job) → Type 0
Chosen rows (raised e) = ⊥
Chosen rows (ok none) = All (λ r. schedulable r ≡ false) rows
Chosen rows (ok (some r)) = IsNext rows r

-- What the method did: it changed nothing and no job was schedulable, or it gave out the next job
-- as RUNNING and wrote that to its row alone.
abbrev pub Allocated : ℕ → Table → Result (Option Job) → Table → Type 0
Allocated now t (raised e) t' = ⊥
Allocated now t (ok none) t' = All (λ r. schedulable r ≡ false) t.rows × (t' ≡ t)
Allocated now t (ok (some job)) t' =
    (r : Job) × IsNext t.rows r
    × (job ≡ started now r)
    × (t' ≡ record t { rows = update_where r.id (started now) t.rows })

pending_passes : (r : Job) → has_status pending r ≡ true → schedulable r ≡ true
pending_passes r h = ground arith

retry_passes : (r : Job) → has_status retry r ≡ true → schedulable r ≡ true
retry_passes r h = ground arith

pub IsNext-schedulable :
    (rows : List Job) (r : Job) → IsNext rows r → In r rows × (schedulable r ≡ true)
IsNext-schedulable rows r (inl h) = (h.stored, pending_passes r h.passes)
IsNext-schedulable rows r (inr (_, h)) = (h.stored, retry_passes r h.passes)

module _ (env : Env) (db : IsDatabase env) where
  oldest-Head :
      (n : ℕ) (s : JobStatus) (le : Job → Job → Bool)
      → IsOrder le
      → (t : Table) → Head (has_status s) le t.rows (oldest env n s le t)
  unfolding oldest
  oldest-Head n s le order t =
      scalar-Head (has_status s) order t.rows _
        (db.order_by-perm n le (select (has_status s) t.rows))
        (db.order_by-IsSorted n le (select (has_status s) t.rows) order)

  neither :
      (r : Job) → has_status pending r ≡ false → has_status retry r ≡ false → schedulable r ≡ false
  neither r h k = ground arith

  All-both :
      (rows : List Job)
      → All (λ r. has_status pending r ≡ false) rows
      → All (λ r. has_status retry r ≡ false) rows
      → All (λ r. schedulable r ≡ false) rows
  All-both [] h k = tt
  All-both (r ∷ rows) h k = (neither r h.0 k.0, All-both rows h.1 k.1)

  second :
      (rows : List Job) (x : Result (Option Job))
      → All (λ r. has_status pending r ≡ false) rows
      → Head (has_status retry) by_retries rows x
      → Chosen rows x
  second rows (raised e) none_pending h = h
  second rows (ok none) none_pending h = All-both rows none_pending h
  second rows (ok (some r)) none_pending h = inr (none_pending, h)

  chosen-Chosen :
      (n : ℕ) (t : Table) (x : Result (Option Job))
      → Head (has_status pending) by_created t.rows x
      → Chosen t.rows (chosen env n x t)
  unfolding chosen
  chosen-Chosen n t (raised e) h = h
  chosen-Chosen n t (ok none) h =
      second t.rows _ h (oldest-Head n retry by_retries by_retries-IsOrder t)
  chosen-Chosen n t (ok (some r)) h = inl h

  claim-Allocated :
      (now : ℕ) (t : Table) (x : Result (Option Job))
      → Chosen t.rows x
      → Allocated now t (claim now t x).0 (claim now t x).1
  unfolding claim
  claim-Allocated now t (raised e) h = h
  claim-Allocated now t (ok none) h = (h, refl)
  claim-Allocated now t (ok (some r)) h = (r, h, refl, refl)

  -- Where the session commits, the job given out is the PENDING job created first or, where none is
  -- PENDING, the RETRY job with the fewest retries and then the earliest creation; it comes back as
  -- RUNNING, and only its row is written. None is given out only if none is schedulable, and then
  -- nothing changes.
  pub get_one_pending_for_update-Allocated :
      (w : World)
      → env.session w.calls ≡ done
      → Allocated
          (env.now w.calls)
          w.table
          (get_one_pending_for_update env w).0
          (get_one_pending_for_update env w).1.table
  unfolding get_one_pending_for_update in_session
  get_one_pending_for_update-Allocated w committed = rw committed (
      claim-Allocated (env.now w.calls) w.table _ (
        chosen-Chosen w.calls w.table _
          (oldest-Head w.calls pending by_created by_created-IsOrder w.table)))

  started-unschedulable :
      (now k : ℕ) (rows : List Job)
      → All (λ r. r.id ≡ k → schedulable r ≡ false) (update_where k (started now) rows)
  unfolding update_where started status_eq
  started-unschedulable now k [] = tt
  started-unschedulable now k (r ∷ rows) = elim (Bool-cases (r.id == k)) [
    | inl e ↦ rw e ((λ _. refl), started-unschedulable now k rows)
    | inr e ↦ rw e (
      (λ same. absurd (false≢true (sym e ∙ (==_iff r.id k).1 same))),
      started-unschedulable now k rows,
    )
  ]

  given_out :
      (now : ℕ) (t t' : Table) (x : Result (Option Job)) {a : Job}
      → Allocated now t x t'
      → x ≡ ok (some a)
      → (r : Job) × IsNext t.rows r
        × (a.id ≡ r.id)
        × (t' ≡ record t { rows = update_where r.id (started now) t.rows })
  unfolding started
  given_out now t t' (raised e) h e' = absurd h
  given_out now t t' (ok none) h e' = cc
  given_out now t t' (ok (some b)) {a} (r, next, same, after) e' = (r, next, ground arith, after)

  -- A job that was given out is not given out again while it is RUNNING: two allocations in a row,
  -- whose sessions commit, give out different jobs.
  pub get_one_pending_for_update-ne :
      (w : World) {a b : Job}
      → env.session w.calls ≡ done
      → (get_one_pending_for_update env w).0 ≡ ok (some a)
      → env.session (get_one_pending_for_update env w).1.calls ≡ done
      → (get_one_pending_for_update env (get_one_pending_for_update env w).1).0 ≡ ok (some b)
      → a.id ≢ b.id
  get_one_pending_for_update-ne w {a} {b} c p c' q same =
      let w' = (get_one_pending_for_update env w).1 in
      let (r, next, ka, after) =
        given_out (env.now w.calls) w.table w'.table _ (get_one_pending_for_update-Allocated w c)
          p in
      let (s, next', kb, _) =
        given_out (env.now w'.calls) w'.table _ _ (get_one_pending_for_update-Allocated w' c') q in
      let (m, h) = IsNext-schedulable w'.table.rows s next' in
      let none_again : All (λ (j : Job). j.id ≡ r.id → schedulable j ≡ false) w'.table.rows =
        rw (ap (λ (t : Table). t.rows) after)
          (started-unschedulable (env.now w.calls) r.id w.table.rows) in
      let stopped =
        All-In (λ j. j.id ≡ r.id → schedulable j ≡ false) s w'.table.rows none_again m in
      false≢true (sym (stopped (sym kb ∙ sym same ∙ ka)) ∙ h)
