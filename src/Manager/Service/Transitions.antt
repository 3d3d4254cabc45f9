-- ===== src/Manager/Service/Transitions.antt =====
-- The status machine of transition_job_status.
use video_flow.Prelude.{if◌then◌else◌, ℕ, ◌≡◌, refl, ap, Bool, true, false, Bool-cases, inl, inr}
use video_flow.Manager.Models.{retry, running, JobStatus, pending, success, failed, no_need, Job}
use video_flow.Manager.Exec.{Result, ok, raised, value_error, attribute_error, pure, raise, ◌>>◌}
use video_flow.Manager.Exec.Rules.{Ends, Triple-pure, Triple-bind}
use video_flow.Manager.World.{World, Env, done}
use video_flow.Manager.Repository.Stands.{Stands, Does, update-Does}
use video_flow.Manager.Repository.{update}
use video_flow.Manager.Service.{allowed, transition_job_status}

-- The moves of a job: a worker takes it, and it ends well, ends badly or is to be tried again; a job
-- to be tried again can be given up.
pub data Moves : JobStatus → JobStatus → Type 0 where
  start : Moves pending running
  restart : Moves retry running
  finish : Moves running success
  fail : Moves running failed
  requeue : Moves running retry
  give_up : Moves retry failed

allowed-Moves : (a b : JobStatus) → allowed a b ≡ true → Moves a b
unfolding allowed
allowed-Moves pending running h = start
allowed-Moves retry running h = restart
allowed-Moves running success h = finish
allowed-Moves running failed h = fail
allowed-Moves running retry h = requeue
allowed-Moves retry failed h = give_up
allowed-Moves pending pending h = absurd (cc h)
allowed-Moves pending retry h = absurd (cc h)
allowed-Moves pending success h = absurd (cc h)
allowed-Moves pending failed h = absurd (cc h)
allowed-Moves pending no_need h = absurd (cc h)
allowed-Moves running pending h = absurd (cc h)
allowed-Moves running running h = absurd (cc h)
allowed-Moves running no_need h = absurd (cc h)
allowed-Moves retry pending h = absurd (cc h)
allowed-Moves retry retry h = absurd (cc h)
allowed-Moves retry success h = absurd (cc h)
allowed-Moves retry no_need h = absurd (cc h)
allowed-Moves success pending h = absurd (cc h)
allowed-Moves success running h = absurd (cc h)
allowed-Moves success retry h = absurd (cc h)
allowed-Moves success success h = absurd (cc h)
allowed-Moves success failed h = absurd (cc h)
allowed-Moves success no_need h = absurd (cc h)
allowed-Moves failed pending h = absurd (cc h)
allowed-Moves failed running h = absurd (cc h)
allowed-Moves failed retry h = absurd (cc h)
allowed-Moves failed success h = absurd (cc h)
allowed-Moves failed failed h = absurd (cc h)
allowed-Moves failed no_need h = absurd (cc h)
allowed-Moves no_need pending h = absurd (cc h)
allowed-Moves no_need running h = absurd (cc h)
allowed-Moves no_need retry h = absurd (cc h)
allowed-Moves no_need success h = absurd (cc h)
allowed-Moves no_need failed h = absurd (cc h)
allowed-Moves no_need no_need h = absurd (cc h)

Moves-allowed : {a b : JobStatus} → Moves a b → allowed a b ≡ true
unfolding allowed
Moves-allowed start = refl
Moves-allowed restart = refl
Moves-allowed finish = refl
Moves-allowed fail = refl
Moves-allowed requeue = refl
Moves-allowed give_up = refl

refused : (a b : JobStatus) → allowed a b ≡ false → Moves a b → ⊥
refused a b e m = let t = Moves-allowed m in absurd (cc (t, e))

-- What a transition did. It was one of the moves, answered True, moved the caller's job and wrote the
-- target, with the count of retries of the caller's job. Or it was none of them, it raised, by whether
-- the caller's job was loaded, and it changed nothing.
abbrev pub Transitioned : Bool → Job → JobStatus → World → Result (Bool × Job) → World → Type 0
Transitioned loaded job target w (ok (b, job')) w' =
    Moves job.status target
    × (b ≡ true)
    × (job' ≡ record job { status = target })
    × Stands job.id target job.retry_times w'.table
Transitioned loaded job target w (raised e) w' =
    ¬ Moves job.status target × (e ≡ (if loaded then attribute_error else value_error)) × (w' ≡ w)

module _ (env : Env) (up : (n : ℕ) → env.session n ≡ done) where
  written :
      (job : Job) (target : JobStatus) (s : JobStatus) (n : ℕ)
      → job.deleted ≡ 0
      → Does env up {A = Bool × Job}
          (Stands job.id s n)
          (update env (record job { status = target })
            >> pure (true, record job { status = target }))
          (λ x t.
            (x ≡ (true, record job { status = target })) × Stands job.id target job.retry_times t)
  written job target s n live =
      Triple-bind _ _ (update-Does env up job.id (record job { status = target }) s n refl live)
        (λ _. Triple-pure _ (λ w st. (refl, st)))

  allowed_end :
      (loaded : Bool) (job : Job) (target : JobStatus) (w : World) (x : Result (Bool × Job))
      (w' : World)
      → Moves job.status target
      → Ends
          (λ y w''.
            (y ≡ (true, record job { status = target }))
            × Stands job.id target job.retry_times w''.table)
          (λ w''. ⊥)
          x
          w'
      → Transitioned loaded job target w x w'
  allowed_end loaded job target w (ok (b, job')) w' move h =
      (move, ap (λ (y : Bool × Job). y.0) h.0, ap (λ (y : Bool × Job). y.1) h.0, h.1)
  allowed_end loaded job target w (raised e) w' move h = absurd h

  -- Where the sessions commit and the caller's job is a live row of the table, in whatever status: if
  -- the call returns, the transition from the status of the caller's copy is one of the moves, and it
  -- answers True, moves that copy and writes the target with the copy's count of retries. If it
  -- raises, the transition is none of the moves and nothing changes; the exception is ValueError for a
  -- status that is a member of JobStatus, and AttributeError for one that came from the database.
  pub transition_job_status-Transitioned :
      (loaded : Bool) (job : Job) (target : JobStatus) (s : JobStatus) (n : ℕ) (w : World)
      → job.deleted ≡ 0
      → Stands job.id s n w.table
      → Transitioned loaded job target w
          (transition_job_status env loaded job target w).0
          (transition_job_status env loaded job target w).1
  unfolding transition_job_status raise
  transition_job_status-Transitioned loaded job target s n w live st =
      elim (Bool-cases (allowed job.status target)) [
        | inl e ↦ rw e (
            allowed_end loaded job target w _ _ (allowed-Moves job.status target e)
              ((written job target s n live).at w st))
        | inr e ↦ rw e (refused job.status target e, refl, refl)
      ]
