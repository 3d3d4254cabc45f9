-- ===== src/Worker/Persons/Identity/Assigned.antt =====
-- Each sequence of the video belongs to exactly one identity.
use video_flow.Prelude.Partial.{Gives->>=}
use mathlib.Core.Bool.{false≢true}
use video_flow.Prelude.{
  All-In_self, ◌≡◌, refl, sym, ap, ◌∙◌, ◌≢◌, ◌⊎◌, inl, inr, Bool, true, false, not, List, [], ◌∷◌,
  ◌++◌, All, All-append, All-weaken, All-In, All-select, In, Distinct, select, select-passes,
  Bool-cases,
}
use video_flow.Prelude.Text.{Text}
use video_flow.Prelude.Dict.{Distinct-append, Dict, keys, member, member-In, not-member}
use video_flow.Worker.Persons.Identity.{
  Gives, Answer, Faces, TrackingSequence, ParticipantSequence, Match, Mapper, Processor,
  match_participants, mapper_of, get_identity_mapper,
}
use video_flow.Worker.Persons.Identity.Sequences.{sequences_of}
use video_flow.Worker.Persons.Identity.Matched.{
  free, match_strangers-sequences_of, match_participants-IsMatched,
}
use video_flow.Worker.Persons.Identity.Related.{IsRelation, fill_relation-IsRelation}

In-append : (x : Text) (xs ys : List Text) → In x xs ⊎ In x ys → In x (xs ++ ys)
In-append x [] ys (inl i) = absurd i
In-append x [] ys (inr i) = i
In-append x (y ∷ xs) ys (inl (inl e)) = inl e
In-append x (y ∷ xs) ys (inl (inr i)) = inr (In-append x xs ys (inl i))
In-append x (y ∷ xs) ys (inr i) = inr (In-append x xs ys (inr i))

Distinct-select : (p : Text → Bool) (xs : List Text) → Distinct xs → Distinct (select p xs)
Distinct-select p [] h = tt
Distinct-select p (x ∷ xs) h = elim (Bool-cases (p x)) [
  | inl e ↦ rw e (All-select (λ y. x ≢ y) p xs h.0, Distinct-select p xs h.1)
  | inr e ↦ rw e (Distinct-select p xs h.1)
]

not-true : (b : Bool) → not b ≡ true → b ≡ false
not-true true h = absurd (false≢true h)
not-true false h = refl

All-apart :
    (xs ys : List Text) → All (λ y. All (λ x. x ≢ y) xs) ys → All (λ x. All (λ y. x ≢ y) ys) xs
All-apart [] ys h = tt
All-apart (x ∷ xs) ys h = (
  All-weaken (λ y. All (λ z. z ≢ y) (x ∷ xs)) (λ y. x ≢ y) (λ y a. a.0) ys h,
  All-apart xs ys
      (All-weaken (λ y. All (λ z. z ≢ y) (x ∷ xs)) (λ y. All (λ z. z ≢ y) xs) (λ y a. a.1) ys h),
)

In-select :
    (p : Text → Bool) (xs : List Text) (t : Text) → p t ≡ true → In t xs → In t (select p xs)
In-select p [] t e i = absurd i
In-select p (x ∷ xs) t e (inl i) = rw (sym i, e) (inl refl)
In-select p (x ∷ xs) t e (inr i) = elim (Bool-cases (p x)) [
  | inl h ↦ rw h (inr (In-select p xs t e i))
  | inr h ↦ rw h (In-select p xs t e i)
]

In-either :
    (occupied ids : List Text) (t : Text) → In t ids → In t (occupied ++ select (free occupied) ids)
In-either occupied ids t i = elim (Bool-cases (member occupied t)) [
  | inl e ↦ In-append t occupied (select (free occupied) ids) (inl (member-In occupied t e))
  | inr e ↦
      In-append t occupied (select (free occupied) ids)
        (inr (In-select (free occupied) ids t (rw e refl) i))
]

-- Each sequence of `ids` is named once, and nothing else is.
pub record IsAssigned (ids : List Text) (m : Mapper) : Type 0 where
  pub once : Distinct (sequences_of m)
  pub known : All (λ t. In t ids) (sequences_of m)
  pub every : All (λ t. In t (sequences_of m)) ids

mapper_of-IsAssigned :
    (ids people : List Text) (relation : Dict (List Match))
    → Distinct ids
    → All (λ p. All (λ t. p ≢ t) ids) people
    → IsRelation ids people relation
    → IsAssigned ids (mapper_of ids relation [])
unfolding mapper_of
mapper_of-IsAssigned ids people relation d apart h =
    let occupied = (match_participants relation [] []).0 in
    let m = (match_participants relation [] []).1 in
    let (first, ks) =
      match_participants-IsMatched ids relation [] [] h.once h.known
        (record { sequences = refl; distinct = tt; known = tt }) in
    let keys_apart : Distinct (keys m ++ ids) = rw ks (
      Distinct-append (keys relation) ids h.once d (
        All-weaken (λ p. In p people) (λ p. All (λ t. p ≢ t) ids)
          (λ p i. All-In (λ q. All (λ t. q ≢ t) ids) p people apart i) (keys relation)
          h.people_only)) in
    let strangers =
      match_strangers-sequences_of occupied ids m keys_apart
      ∙ ap (λ r. r ++ select (free occupied) ids) first.sequences in
    record {
      once = rw strangers (
          Distinct-append occupied (select (free occupied) ids) first.distinct
            (Distinct-select (free occupied) ids d)
            (All-apart occupied (select (free occupied) ids) (
              All-weaken (λ y. free occupied y ≡ true) (λ y. All (λ j. j ≢ y) occupied)
                (λ y e. not-member occupied y (not-true (member occupied y) e))
                (select (free occupied) ids) (select-passes (free occupied) ids))));
      known = rw strangers (
          All-append (λ t. In t ids) occupied (select (free occupied) ids) first.known
            (All-select (λ t. In t ids) (free occupied) ids (All-In_self ids)));
      every = rw strangers (
          All-weaken (λ t. In t ids) (λ t. In t (occupied ++ select (free occupied) ids))
            (In-either occupied ids) ids (All-In_self ids));
    }

-- A processor of the same duration whose mapper names each of the sequences once.
abbrev pub Mapped : List Text → Processor → Processor → Type 0
Mapped ids s s' = IsAssigned ids s'.identity_mapper × (s'.video_duration ≡ s.video_duration)

-- Where the services answer, the ids of the tracking sequences are distinct, none of them is the name of a
-- participant, and the processor holds no relation and no mapper yet, whatever the similarities of the
-- faces are: _get_identity_mapper returns, the identity mapper built names every tracking sequence once,
-- and no other sequence, and the duration of the video stays.
pub get_identity_mapper-IsAssigned :
    (faces : Faces) (answer : Answer faces) (tracking : Dict TrackingSequence)
    (participants : Dict ParticipantSequence) (s : Processor)
    → Distinct (keys tracking)
    → All (λ p. All (λ t. p ≢ t) (keys tracking)) (keys participants)
    → s.relation ≡ []
    → s.identity_mapper ≡ []
    → Gives (Mapped (keys tracking) s) (get_identity_mapper faces tracking participants s)
unfolding get_identity_mapper
get_identity_mapper-IsAssigned faces answer tracking participants s d apart r m =
    Gives->>= (IsRelation (keys tracking) (keys participants)) (Mapped (keys tracking) s) _ _
      (fill_relation-IsRelation faces answer s.verification_threshold (keys tracking)
        (keys participants) tracking participants s.relation (All-In_self (keys tracking))
        (All-In_self (keys participants))
        (rw r (record { once = tt; people_only = tt; known = tt })))
      (λ relation h. (
        _,
        refl,
        (rw m (mapper_of-IsAssigned (keys tracking) (keys participants) relation d apart h), refl),
      ))
