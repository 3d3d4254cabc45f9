-- ===== src/Worker/CircularQueue/Runs.antt =====
-- Runs of the ring buffer, against runs of a list of bounded length.
use video_flow.Prelude.{
  ℕ, zero, suc, ◌≤◌, ◌<◌, ◌≡◌, refl, ap, ◌∙◌, Bool, true, false, Option, none, some, List, [], ◌∷◌,
  ◌++◌, arith, ltb, if◌then◌else◌, inl, inr, length, order-cases,
}
use mathlib.Core.Path.{subst}
use video_flow.Worker.CircularQueue.{CircularQueue, new_queue, nothing, is_full, enqueue, dequeue}
use video_flow.Worker.CircularQueue.Fifo.{
  Holds, enqueue_full, enqueue-Holds, dequeue-Holds, dequeue_empty, is_full-some,
}

pub data Call (A : Type 0) : Type 0 where
  put : A → Call A
  get : Call A

pub data Answer (A : Type 0) : Type 0 where
  accepted : Bool → Answer A
  took : Option A → Answer A

length-nothing : (A : Type 0) (n : ℕ) → length (nothing {A = A} n) ≡ n
length-nothing A zero = refl
length-nothing A (suc n) = ap suc (length-nothing A n)

module _ {A : Type 0} where
  answer : Call A → CircularQueue A → Answer A × CircularQueue A
  unfolding enqueue dequeue
  answer (put x) q = let (ok, p) = enqueue x q in (accepted ok, p)
  answer get q = let (o, p) = dequeue q in (took o, p)

  -- The answers of the ring buffer to calls one after another.
  unfoldable pub run : List (Call A) → CircularQueue A → List (Answer A)
  unfolding answer
  run [] q = []
  run (c ∷ cs) q = let (a, p) = answer c q in a ∷ run cs p

  -- The specification: a list of at most `size` items, served from its front.
  abbrev pub list_answer : ℕ → Call A → List A → Answer A × List A
  list_answer size (put x) xs =
      if ltb (length xs) size then (accepted true, xs ++ (x ∷ [])) else (accepted false, xs)
  list_answer size get [] = (took none, [])
  list_answer size get (x ∷ xs) = (took (some x), xs)

  abbrev pub list_run : ℕ → List (Call A) → List A → List (Answer A)
  list_run size [] xs = []
  list_run size (c ∷ cs) xs = (list_answer size c xs).0 ∷ list_run size cs (list_answer size c xs).1

  Holds-le : (q : CircularQueue A) (xs : List A) → Holds q xs → length xs ≤ q.size
  Holds-le q [] h = omega arith
  Holds-le q (x ∷ xs) h = h.3

  Holds-full :
      (q : CircularQueue A) (xs : List A) → Holds q xs → length xs ≡ q.size → is_full q ≡ true
  Holds-full q [] h e = absurd (omega (arith, h.0))
  Holds-full q (x ∷ xs) (len, f, lt, le, front, rear, slots) e =
      is_full-some q f (length xs) lt (omega arith) front rear ∙ ground arith

  -- The ring buffer answers as the list does, and holds what the list has then.
  answer-Holds :
      (c : Call A) (q : CircularQueue A) (xs : List A)
      → Holds q xs
      → (p : CircularQueue A) × (answer c q ≡ ((list_answer q.size c xs).0, p))
        × (p.size ≡ q.size)
        × Holds p (list_answer q.size c xs).1
  unfolding answer
  answer-Holds (put x) q xs h = elim (order-cases q.size (length xs)) [
    | inl le ↦
        let room : ltb (length xs) q.size ≡ false = ground arith in
        let full = Holds-full q xs h (omega (arith, Holds-le q xs h)) in
        rw room (q, ap (λ r. (accepted r.0, r.1)) (enqueue_full q x full), refl, h)
    | inr lt ↦
        let room : ltb (length xs) q.size ≡ true = ground arith in
        let (p, e, size, holds) = enqueue-Holds q x xs h lt in
        rw room (p, ap (λ r. (accepted r.0, r.1)) e, size, holds)
  ]
  answer-Holds get q [] h = (q, ap (λ r. (took r.0, r.1)) (dequeue_empty q h.2), refl, h)
  answer-Holds get q (x ∷ xs) h =
      let (p, e, size, holds) = dequeue-Holds q x xs h in
      (p, ap (λ r. (took r.0, r.1)) e, size, holds)

  run-Holds :
      (size : ℕ) (cs : List (Call A)) (q : CircularQueue A) (xs : List A)
      → q.size ≡ size
      → Holds q xs
      → run cs q ≡ list_run size cs xs
  unfolding run
  run-Holds size [] q xs s h = refl
  run-Holds size (c ∷ cs) q xs s h =
      let (p, e, kept, holds) = answer-Holds c q xs h in
      let same : list_answer q.size c xs ≡ list_answer size c xs = ap (λ n. list_answer n c xs) s in
      rw e (
        ap (λ a. a.0 ∷ run cs p) same
        ∙ ap (λ r. (list_answer size c xs).0 ∷ r)
            (run-Holds size cs p (list_answer size c xs).1 (kept ∙ s)
              (subst (λ a. Holds p a.1) same holds)))

  -- A new ring buffer of a size of at least 1 answers any calls of enqueue and dequeue, one after
  -- another, as a list of at most that many items does: enqueue appends an item and returns True, or
  -- returns False at the bound; dequeue takes the oldest item, or returns None where there is none.
  pub run-list_run :
      (size : ℕ) (cs : List (Call A))
      → 0 < size
      → run cs (new_queue {A = A} size) ≡ list_run size cs []
  unfolding new_queue
  run-list_run size cs h =
      run-Holds size cs (new_queue size) [] refl (h, length-nothing A size, refl, refl)
