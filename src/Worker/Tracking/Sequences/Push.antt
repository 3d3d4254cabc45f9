-- ===== src/Worker/Tracking/Sequences/Push.antt =====
-- What push does to the queue when a sequence matches.
use video_flow.Prelude.{
  ◌&&◌, ◌+◌, ◌∙◌, All, false, inl, inr, ltb, if_true, if_false, Bool-cases, ℕ, zero, suc, ◌≤◌, ◌<◌,
  ◌≡◌, refl, sym, ap, Bool, true, some, List, [], ◌∷◌, ◌++◌, arith, take, drop, length, get_elem?,
}
use mathlib.Core.Path.{subst}
use video_flow.Worker.Tracking.{is_alive, Frame, Human, TrackingSequence, update}
use video_flow.Worker.Tracking.Sequences.{
  shortest, Recogniser, SequenceManager, returned, raised, Replied, change_at, index_head,
  first_match, reranked, id_at, push_match, push,
}
use video_flow.Worker.Tracking.Sequences.Rerank.{moved, rerank-moved, rerank-none}

-- The first item that passes the test stands at the index.
pub record FirstAt {A : Type 0} (p : A → Bool) (xs : List A) (i : ℕ) (x : A) : Type 0 where
  pub stored : get_elem? xs i ≡ some x
  pub passes : p x ≡ true
  pub before : All (λ y. p y ≡ false) (take i xs)

-- The first of the sequences with the fewest updates stands at the index.
pub record FewestAt (q : List TrackingSequence) (i : ℕ) (s : TrackingSequence) : Type 0 where
  pub stored : get_elem? q i ≡ some s
  pub least : All (λ t. s.length ≤ t.length) q
  pub before : All (λ t. s.length < t.length) (take i q)

change_at-drop :
    (f : TrackingSequence → Bool × TrackingSequence) (q : List TrackingSequence) (i : ℕ)
    (s t : TrackingSequence)
    → get_elem? q i ≡ some s
    → f s ≡ (true, t)
    → change_at f q i ≡ (true, take i q ++ (t ∷ drop (suc i) q))
unfolding change_at
change_at-drop f [] i s t e h = absurd (cc e)
change_at-drop f (x ∷ xs) zero s t e h =
    let same : f x ≡ (true, t) = ap f (cc e) ∙ h in rw same refl
change_at-drop f (x ∷ xs) (suc i) s t e h = rw (change_at-drop f xs i s t e h) refl

-- What push is to do on a match at `index`, where the sequence with the fewest updates stands at
-- `head`, `t` is the sequence that matched behind its update and `q` is the queue with it.
abbrev pub Matched : SequenceManager → ℕ → ℕ → TrackingSequence → Replied → Type 0
Matched m head index t p =
    let q = take index m.queue ++ (t ∷ drop (suc index) m.queue) in
    (index < head → p ≡ (raised, record m { queue = q }))
    × (head ≤ index
        → p ≡ (returned (some t.tracking_id), record m { queue = moved head index t q }))

get_elem?-take :
    (h : ℕ) (x : TrackingSequence) (q r : List TrackingSequence)
    → h ≤ length q
    → get_elem? (take h q ++ (x ∷ r)) h ≡ some x
get_elem?-take zero x q r k = refl
get_elem?-take (suc h) x [] r k = absurd (omega arith)
get_elem?-take (suc h) x (y ∷ ys) r k = get_elem?-take h x ys r (omega arith)

get_elem?-bound :
    (q : List TrackingSequence) (i : ℕ) (s : TrackingSequence)
    → get_elem? q i ≡ some s
    → i < length q
get_elem?-bound [] i s e = absurd (cc e)
get_elem?-bound (x ∷ xs) zero s e = omega arith
get_elem?-bound (x ∷ xs) (suc i) s e = omega (arith, get_elem?-bound xs i s e)

get_elem?-length :
    (q : List TrackingSequence) (i : ℕ) (s t : TrackingSequence)
    → get_elem? q i ≡ some s
    → i < length (take i q ++ (t ∷ drop (suc i) q))
get_elem?-length [] i s t e = absurd (cc e)
get_elem?-length (x ∷ xs) zero s t e = omega arith
get_elem?-length (x ∷ xs) (suc i) s t e = omega (arith, get_elem?-length xs i s t e)

-- The search for the fewest updates.
shortest-least :
    (best least i : ℕ) (ss : List TrackingSequence)
    → All (λ t. least ≤ t.length) ss
    → shortest best least i ss ≡ best
unfolding shortest
shortest-least best least i [] h = refl
shortest-least best least i (s ∷ ss) h =
    let e : ltb s.length least ≡ false = ground (arith, h.0) in
    rw (e, shortest) (shortest-least best least (suc i) ss h.1)

shortest-FewestAt :
    (best least i j : ℕ) (ss : List TrackingSequence) (s : TrackingSequence)
    → FewestAt ss j s
    → s.length < least
    → shortest best least i ss ≡ i + j
unfolding shortest
shortest-FewestAt best least i j [] s f less = absurd (cc f.stored)
shortest-FewestAt best least i zero (x ∷ xs) s f less =
    let same : x ≡ s = cc f.stored in
    let e : ltb x.length least ≡ true = ground (arith, rw (← same) at less) in
    rw (e, shortest)
      (shortest-least i x.length (suc i) xs
          (subst (λ (z : TrackingSequence). All (λ t. z.length ≤ t.length) xs) (sym same) f.least.1)
        ∙ omega arith)
shortest-FewestAt best least i (suc j) (x ∷ xs) s f less =
    let rest : FewestAt xs j s = record {
      stored = f.stored;
      least = f.least.1;
      before = f.before.1;
    } in
    elim (Bool-cases (ltb x.length least)) [
      | inl e ↦
          rw (e, shortest)
            (shortest-FewestAt i x.length (suc i) j xs s rest f.before.0 ∙ omega arith)
      | inr e ↦
          rw (e, shortest) (shortest-FewestAt best least (suc i) j xs s rest less ∙ omega arith)
    ]

index_head-FewestAt :
    (q : List TrackingSequence) (i : ℕ) (s : TrackingSequence) → FewestAt q i s → index_head q ≡ i
unfolding index_head
index_head-FewestAt [] i s f = absurd (cc f.stored)
index_head-FewestAt (x ∷ xs) zero s f =
    let same : x ≡ s = cc f.stored in
    shortest-least 0 x.length 1 xs
      (subst (λ (z : TrackingSequence). All (λ t. z.length ≤ t.length) xs) (sym same) f.least.1)
index_head-FewestAt (x ∷ xs) (suc i) s f =
    let rest : FewestAt xs i s = record {
      stored = f.stored;
      least = f.least.1;
      before = f.before.1;
    } in
    shortest-FewestAt 0 x.length 1 i xs s rest f.before.0 ∙ omega arith

module _ (r : Recogniser) where
  -- The sequence is alive and matches.
  abbrev pub candidate : Human → TrackingSequence → Bool
  candidate info s = is_alive s && r.is_match s info

  first_match-FirstAt :
      (info : Human) (k i : ℕ) (ss : List TrackingSequence) (s : TrackingSequence)
      → FirstAt (candidate info) ss i s
      → first_match r k ss info ≡ some (k + i)
  unfolding first_match
  first_match-FirstAt info k i [] s f = absurd (cc f.stored)
  first_match-FirstAt info k zero (x ∷ xs) s f =
      let same : x ≡ s = cc f.stored in
      let e : candidate info x ≡ true = rw (← same) at f.passes in
      if_true (candidate info x) _ _ e ∙ ap some (omega arith)
  first_match-FirstAt info k (suc i) (x ∷ xs) s f =
      if_false (candidate info x) _ _ f.before.0
      ∙ first_match-FirstAt info (suc k) i xs s
          (record { stored = f.stored; passes = f.passes; before = f.before.1 })
      ∙ ap some (omega arith)

  reranked-Matched :
      (m : SequenceManager) (head index : ℕ) (t : TrackingSequence) (q : List TrackingSequence)
      → q ≡ take index m.queue ++ (t ∷ drop (suc index) m.queue)
      → index < length q
      → get_elem? q index ≡ some t
      → Matched m head index t (reranked r head index (record m { queue = q }))
  unfolding reranked
  reranked-Matched m head index t q same k e = rw (← same) (
    (λ h. rw (rerank-none head index q h, reranked) refl),
    λ h.
        rw (rerank-moved head index t q h e, reranked)
          (let at_head =
              get_elem?-take head t q (drop head (take index q) ++ drop (suc index) q)
                (omega arith) in
            rw (at_head, id_at) refl),
  )

  push_on_match :
      (info : Human) (frame : Frame) (m : SequenceManager) (head index : ℕ)
      (q : List TrackingSequence)
      → first_match r 0 m.queue info ≡ some index
      → index_head m.queue ≡ head
      → change_at (update info frame) m.queue index ≡ (true, q)
      → push r info frame m ≡ reranked r head index (record m { queue = q })
  unfolding push push_match
  push_on_match info frame m head index q e h u = rw (e, push) (rw (u, push_match) (rw h refl))

  -- Let `s`, at `index`, be the first sequence alive that matches, `t` what its update makes of it
  -- without raising, and `head` the place of the first sequence with the fewest updates. If `index` is
  -- before `head`, push raises with the update recorded. Otherwise it returns the id of the sequence
  -- that matched and moves that sequence to the place `head`, everything else in its order.
  pub push-Matched :
      (info : Human) (frame : Frame) (m : SequenceManager) (head index : ℕ)
      (s t least : TrackingSequence)
      → FirstAt (candidate info) m.queue index s
      → update info frame s ≡ (true, t)
      → FewestAt m.queue head least
      → Matched m head index t (push r info frame m)
  push-Matched info frame m head index s t least first u fewest =
      let q = take index m.queue ++ (t ∷ drop (suc index) m.queue) in
      let bound = get_elem?-bound m.queue index s first.stored in
      rw
        (push_on_match info frame m head index q
          (first_match-FirstAt info 0 index m.queue s first ∙ ap some (omega arith))
          (index_head-FewestAt m.queue head least fewest)
          (change_at-drop (update info frame) m.queue index s t first.stored u))
        (reranked-Matched m head index t q refl (get_elem?-length m.queue index s t first.stored)
          (get_elem?-take index t m.queue (drop (suc index) m.queue) (omega arith)))
