-- ===== src/Worker/Persons/Identity/Related.antt =====
-- What _fill_relation relates.
use video_flow.Prelude.Partial.{Gives->>=}
use video_flow.Prelude.{
  refl, if-both, ℕ, ◌≢◌, inl, inr, none, some, List, [], ◌∷◌, ◌++◌, All, All-append, All-weaken, In,
  Distinct, Bool-cases, Option-cases, ltb,
}
use video_flow.Prelude.Text.{Text, text_eq}
use video_flow.Prelude.Dict.{assign-All, Distinct-append, Dict, keys, get, keys-assign}
use video_flow.Worker.Persons.Identity.{
  Gives, Answer, Faces, TrackingSequence, ParticipantSequence, Match, fill_relation,
  relate_participants, append_match,
}
use video_flow.Worker.Persons.Identity.Matched.{Known}

-- A relation that names participants, each once, and sequences of the video.
pub record IsRelation (ids people : List Text) (relation : Dict (List Match)) : Type 0 where
  pub once : Distinct (keys relation)
  pub people_only : All (λ p. In p people) (keys relation)
  pub known : All (λ e. All (Known ids) e.1) relation

get-All :
    (P : Match → Type 0) (relation : Dict (List Match)) (k : Text)
    → All (λ e. All P e.1) relation
    → All P (elim (get relation k) [ none ↦ [] | some ms ↦ ms ])
get-All P [] k h = tt
get-All P ((j, ms) ∷ relation) k h = elim (Bool-cases (text_eq j k)) [
  | inl e ↦ rw e h.0
  | inr e ↦ rw e (get-All P relation k h.1)
]

append_match-All :
    (P : Match → Type 0) (relation : Dict (List Match)) (k : Text) (m : Match)
    → All (λ e. All P e.1) relation
    → P m
    → All (λ e. All P e.1) (append_match relation k m)
append_match-All P relation k m h p =
    assign-All (All P) relation k
      (elim (get relation k) [ none ↦ m ∷ [] | some ms ↦ ms ++ (m ∷ []) ]) h
      (elim (Option-cases (get relation k)) [
        | inl e ↦ rw e (p, tt)
        | inr (ms, e) ↦ rw e (All-append P ms (m ∷ []) (rw e at (get-All P relation k h)) (p, tt))
      ])

append_match-IsRelation :
    (ids people : List Text) (relation : Dict (List Match)) (k : Text) (m : Match)
    → In k people
    → Known ids m
    → IsRelation ids people relation
    → IsRelation ids people (append_match relation k m)
append_match-IsRelation ids people relation k m i n h =
    let ms : List Match = elim (get relation k) [ none ↦ m ∷ [] | some ms ↦ ms ++ (m ∷ []) ] in
    let known = append_match-All (Known ids) relation k m h.known n in
    elim (keys-assign relation k ms) [
      | inl e ↦ record { once = rw e h.once; people_only = rw e h.people_only; known = known }
      | inr (fresh, e) ↦ record {
        once = rw e (
            Distinct-append (keys relation) (k ∷ []) h.once (tt, tt)
              (All-weaken (λ j. j ≢ k) (λ j. All (λ y. j ≢ y) (k ∷ [])) (λ j d. (d, tt))
                (keys relation) fresh));
        people_only =
            rw e (All-append (λ p. In p people) (keys relation) (k ∷ []) h.people_only (i, tt));
        known = known;
      }
    ]

module _ (faces : Faces) (answer : Answer faces) (threshold : ℕ) (ids people : List Text) where
  relate_participants-IsRelation :
      (t_identity : Text) (t : TrackingSequence) (ps : Dict ParticipantSequence)
      (relation : Dict (List Match))
      → In t_identity ids
      → All (λ p. In p people) (keys ps)
      → IsRelation ids people relation
      → Gives (IsRelation ids people) (relate_participants faces threshold t_identity t ps relation)
  unfolding relate_participants
  relate_participants-IsRelation t_identity t [] relation i k h = (relation, refl, h)
  relate_participants-IsRelation t_identity t ((p, s) ∷ ps) relation i k h =
      Gives->>= (λ _. Unit {0}) (IsRelation ids people) _ _
        (answer.similarity s.face_frame t.face_frame)
        (λ similarity _. relate_participants-IsRelation t_identity t ps _ i k.1 (
          if-both (IsRelation ids people) (ltb threshold similarity) _ _
            (append_match-IsRelation ids people relation p _ k.0 i h) h))

  pub fill_relation-IsRelation :
      (ts : Dict TrackingSequence) (ps : Dict ParticipantSequence) (relation : Dict (List Match))
      → All (λ t. In t ids) (keys ts)
      → All (λ p. In p people) (keys ps)
      → IsRelation ids people relation
      → Gives (IsRelation ids people) (fill_relation faces threshold ts ps relation)
  unfolding fill_relation
  fill_relation-IsRelation [] ps relation i k h = (relation, refl, h)
  fill_relation-IsRelation ((t_identity, t) ∷ ts) ps relation i k h =
      Gives->>= (IsRelation ids people) (IsRelation ids people) _ _
        (relate_participants-IsRelation t_identity t ps relation i.0 k h)
        (λ relation' h'. fill_relation-IsRelation ts ps relation' i.1 k h')
