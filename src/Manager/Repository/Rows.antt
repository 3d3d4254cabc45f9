-- ===== src/Manager/Repository/Rows.antt =====
-- Facts about the rows of the job table: keys, selections, and updates by key.
use video_flow.Prelude.{
  ℕ, ◌<◌, ◌≡◌, refl, sym, ap, ◌≢◌, inl, inr, Bool, true, some, List, [], ◌∷◌, ◌++◌, map, arith,
  ◌==◌, Bool-cases, All, All-append, In, select, ==_iff,
}
pub use video_flow.Prelude.{Distinct}
use mathlib.Core.Path.{ap₂}
use video_flow.Manager.Models.{Job}
use video_flow.Manager.Exec.{ok}
use video_flow.Manager.Repository.{update_where, has_id, scalar_one_or_none, flushed}

abbrev pub ids : List Job → List ℕ
ids rows = map (λ r. r.id) rows

module _ (k : ℕ) (f : Job → Job) where
  -- An update that keeps the key of the rows that it changes keeps all keys.
  pub ids-update_where :
      ((r : Job) → r.id ≡ k → (f r).id ≡ r.id)
      → (rows : List Job) → ids (update_where k f rows) ≡ ids rows
  unfolding update_where
  ids-update_where keeps [] = refl
  ids-update_where keeps (r ∷ rows) =
      let rest = ids-update_where keeps rows in
      elim (Bool-cases (r.id == k)) [
        | inl e ↦ rw e (ap₂ ◌∷◌ (keeps r ((==_iff r.id k).0 e)) rest)
        | inr e ↦ rw e (ap (λ t. r.id ∷ t) rest)
      ]

  pub All-update_where :
      (P : Job → Type 0)
      → ((r : Job) → r.id ≡ k → P r → P (f r))
      → (rows : List Job) → All P rows
      → All P (update_where k f rows)
  unfolding update_where
  All-update_where P step [] h = tt
  All-update_where P step (r ∷ rows) h = elim (Bool-cases (r.id == k)) [
    | inl e ↦ rw e (step r ((==_iff r.id k).0 e) h.0, All-update_where P step rows h.1)
    | inr e ↦ rw e (h.0, All-update_where P step rows h.1)
  ]

pub flushed-id : (now : ℕ) (job row : Job) → row.id ≡ job.id → (flushed now job row).id ≡ job.id
unfolding flushed
flushed-id now job row e = ground arith

kept :
    (p : Job → Bool) (a r : Job) (rows : List Job)
    → (In a (select p rows) → In a rows × (p a ≡ true))
    → p r ≡ true
    → In a (r ∷ select p rows)
    → In a (r ∷ rows) × (p a ≡ true)
kept p a r rows rec e (inl same) = (inl same, rw same e)
kept p a r rows rec e (inr m) = let (m', h) = rec m in (inr m', h)

pub In-select :
    (p : Job → Bool) (a : Job) (rows : List Job) → In a (select p rows) → In a rows × (p a ≡ true)
In-select p a [] m = absurd m
In-select p a (r ∷ rows) m = elim (Bool-cases (p r)) [
  | inl e ↦ kept p a r rows (In-select p a rows) e (rw e at m)
  | inr e ↦ let (m', h) = In-select p a rows (rw e at m) in (inr m', h)
]

-- What a look-up returns stands in the list.
pub scalar_one_or_none-In :
    (rows : List Job) (job : Job) → scalar_one_or_none rows ≡ ok (some job) → In job rows
scalar_one_or_none-In [] job e = cc
scalar_one_or_none-In (r ∷ []) job e = inl (cc)
scalar_one_or_none-In (r ∷ s ∷ rows) job e = cc

-- A key of a list of rows.
abbrev pub Has : ℕ → List ℕ → Type 0
Has k ks = In k ks

pub In-ids : (job : Job) (rows : List Job) → In job rows → In job.id (ids rows)
In-ids job [] m = absurd m
In-ids job (r ∷ rows) (inl e) = inl (ap (λ (j : Job). j.id) e)
In-ids job (r ∷ rows) (inr m) = inr (In-ids job rows m)

pub select-has_id-nil : (k : ℕ) (rows : List Job) → In k (ids rows) → select (has_id k) rows ≢ []
select-has_id-nil k [] m e = absurd m
select-has_id-nil k (r ∷ rows) (inl same) e = ground (arith, ==_iff r.id k)
select-has_id-nil k (r ∷ rows) (inr m) e = ground (arith, select-has_id-nil k rows m)

-- A fresh key at the end.
pub Distinct-append :
    (k : ℕ) (ks : List ℕ) → All (λ x. x < k) ks → Distinct ks → Distinct (ks ++ k ∷ [])
Distinct-append k [] b d = (tt, tt)
Distinct-append k (x ∷ ks) b d =
    (All-append (λ y. x ≢ y) ks (k ∷ []) d.0 ((λ e. omega arith), tt), Distinct-append k ks b.1 d.1)

-- With distinct keys, at most one row has a given key.
pub select-has_id-All :
    (k : ℕ) (rows : List Job) → All (λ y. k ≢ y) (ids rows) → select (has_id k) rows ≡ []
select-has_id-All k [] h = refl
select-has_id-All k (r ∷ rows) h = elim (Bool-cases (r.id == k)) [
  | inl e ↦ absurd (h.0 (sym ((==_iff r.id k).0 e)))
  | inr e ↦ rw e (select-has_id-All k rows h.1)
]
