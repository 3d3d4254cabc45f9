-- ===== src/Worker/Persons/Identity/Keyed.antt =====
-- The keys of the sequences of the video and of the participants.
use video_flow.Prelude.Partial.{Gives->>=}
use video_flow.Prelude.{
  refl, ◌*◌, All-weaken, ℕ, ◌≢◌, inl, inr, List, [], ◌∷◌, All, All-append, Distinct,
}
use video_flow.Prelude.Text.{Text}
use video_flow.Prelude.Dict.{Distinct-append, keys-assign, Dict, keys, assign}
use video_flow.Worker.Persons.Identity.{
  text_or_none, Gives, Answer, TrackingSequence, ParticipantSequence, Faces,
}
use video_flow.Worker.Persons.Identity.{
  TrackingResult, Participant, sequences_from, with_sequence, get_tracking_sequences,
  participants_from, get_participant_sequences,
}
use video_flow.Worker.Persons.Identity.Sequences.{}
use video_flow.Worker.Persons.Intervals.{long_patchs}
use video_flow.Worker.TimePatch.{TimePatch}

keys-assign-All :
    {V : Type 0} (P : Text → Type 0) (m : Dict V) (k : Text) (v : V)
    → P k
    → All P (keys m)
    → All P (keys (assign m k v))
keys-assign-All P m k v p h = elim (keys-assign m k v) [
  | inl e ↦ rw e h
  | inr (_, e) ↦ rw e (All-append P (keys m) (k ∷ []) h (p, tt))
]

keys-assign-Distinct :
    {V : Type 0} (m : Dict V) (k : Text) (v : V)
    → Distinct (keys m)
    → Distinct (keys (assign m k v))
keys-assign-Distinct m k v h = elim (keys-assign m k v) [
  | inl e ↦ rw e h
  | inr (fresh, e) ↦ rw e (
      Distinct-append (keys m) (k ∷ []) h (tt, tt)
        (All-weaken (λ j. j ≢ k) (λ j. All (λ y. j ≢ y) (k ∷ [])) (λ j d. (d, tt)) (keys m) fresh))
]

module _ (faces : Faces) (answer : Answer faces) (video_duration : ℕ) where
  -- A property that assigning the sequence of a result keeps.
  abbrev IsKept : (Dict TrackingSequence → Type 0) → TrackingResult → Type 0
  IsKept P r =
      (m : Dict TrackingSequence) (v : TrackingSequence) → P m → P (assign m r.tracking_id v)

  with_sequence-Gives :
      (P : Dict TrackingSequence → Type 0) (r : TrackingResult) (ps : List TimePatch)
      (m : Dict TrackingSequence)
      → IsKept P r
      → P m
      → Gives P (with_sequence faces video_duration r ps m)
  unfolding with_sequence
  with_sequence-Gives P r [] m kept h = (m, refl, h)
  with_sequence-Gives P r (x ∷ xs) m kept h =
      Gives->>= (λ _. Unit {0}) P _ _ (answer.face_data r.frame r.bbox)
        (λ face _. (_, refl, kept m _ h))

  sequences_from-Gives :
      (P : Dict TrackingSequence → Type 0) (n : ℕ) (rs : List TrackingResult)
      (m : Dict TrackingSequence)
      → All (IsKept P) rs
      → P m
      → Gives P (sequences_from faces video_duration n rs m)
  unfolding sequences_from
  sequences_from-Gives P n [] m kept h = (m, refl, h)
  sequences_from-Gives P n (r ∷ rs) m kept h =
      Gives->>= P P _ _ (with_sequence-Gives P r (long_patchs n r.time_patchs) m kept.0 h)
        (λ m' h'. sequences_from-Gives P n rs m' kept.1 h')

  -- The keys are distinct and have the property of the ids.
  abbrev pub HasIds : (Text → Type 0) → Dict TrackingSequence → Type 0
  HasIds P m = Distinct (keys m) × All P (keys m)

  assign-HasIds :
      (P : Text → Type 0) (rs : List TrackingResult)
      → All (λ r. P r.tracking_id) rs
      → All (IsKept (HasIds P)) rs
  assign-HasIds P [] h = tt
  assign-HasIds P (r ∷ rs) h = (
    (λ m v k.
        (keys-assign-Distinct m r.tracking_id v k.0, keys-assign-All P m r.tracking_id v h.0 k.1)),
    assign-HasIds P rs h.1,
  )

  pub get_tracking_sequences-Gives :
      (P : Text → Type 0) (n : ℕ) (rs : List TrackingResult)
      → All (λ r. P r.tracking_id) rs
      → Gives (HasIds P) (get_tracking_sequences faces video_duration n rs)
  unfolding get_tracking_sequences
  get_tracking_sequences-Gives P n rs h =
      sequences_from-Gives (HasIds P) (n * 1000) rs [] (assign-HasIds P rs h) (tt, tt)

module _ (faces : Faces) (answer : Answer faces) where
  participants_from-Gives :
      (P : Text → Type 0) (ps : List Participant) (m : Dict ParticipantSequence)
      → All (λ p. P (text_or_none p.role)) ps
      → All P (keys m)
      → Gives (λ m'. All P (keys m')) (participants_from faces ps m)
  unfolding participants_from
  participants_from-Gives P [] m p h = (m, refl, h)
  participants_from-Gives P (x ∷ xs) m p h =
      Gives->>= (λ _. Unit {0}) (λ m'. All P (keys m')) _ _ (answer.picture_data _)
        (λ face _.
          participants_from-Gives P xs _ p.1 (keys-assign-All P m (text_or_none x.role) _ p.0 h))

  pub get_participant_sequences-Gives :
      (P : Text → Type 0) (ps : List Participant)
      → All (λ p. P (text_or_none p.role)) ps
      → Gives (λ m. All P (keys m)) (get_participant_sequences faces ps)
  unfolding get_participant_sequences
  get_participant_sequences-Gives P ps h = participants_from-Gives P ps [] h tt
