-- ===== src/Worker/Persons/Identity/Matched.antt =====
-- The two loops of _get_identity_mapper: what they name is new each time.
use video_flow.Prelude.{
  ◌≡◌, sym, ap, ◌∙◌, ◌≢◌, inl, inr, Bool, not, Option, none, some, List, [], ◌∷◌, ◌++◌, All,
  All-append, All-weaken, In, Distinct, select, Bool-cases,
}
use mathlib.Core.List.{append-nil, append_assoc}
use mathlib.Core.List.Permᴰ
use video_flow.Prelude.Text.{Text}
use video_flow.Prelude.Sorting.{sort, sort-Permᴰ, All-Permᴰ}
use video_flow.Prelude.Dict.{Distinct-append, Dict, keys, assign, member, not-member}
use video_flow.Worker.Persons.Identity.{
  Match, Mapper, by_similarity, first_free, with_occupied, match_participants, own_match,
  match_strangers,
}
use video_flow.Worker.Persons.Identity.Sequences.{
  sequences_of, sequences_of-new, keys-new, Distinct-front, Distinct-drop,
}

abbrev pub free : List Text → Text → Bool
free occupied t = not (member occupied t)

pub match_strangers-sequences_of :
    (occupied ts : List Text) (m : Mapper)
    → Distinct (keys m ++ ts)
    → sequences_of (match_strangers occupied ts m) ≡ sequences_of m ++ select (free occupied) ts
unfolding match_strangers
match_strangers-sequences_of occupied [] m d = sym (append-nil (sequences_of m))
match_strangers-sequences_of occupied (t ∷ ts) m d = elim (Bool-cases (member occupied t)) [
  | inl e ↦ rw e (match_strangers-sequences_of occupied ts m (Distinct-drop (keys m) t ts d))
  | inr e ↦
      let fresh = Distinct-front (keys m) t ts d in
      rw e (
        match_strangers-sequences_of occupied ts (assign m t (own_match t))
          (rw (keys-new m t (own_match t) fresh, append_assoc (keys m) (t ∷ []) ts) d)
        ∙ rw (sequences_of-new m t (own_match t) fresh)
            (append_assoc (sequences_of m) (t ∷ []) (select (free occupied) ts)))
]

-- Of the tracking ids.
abbrev pub Known : List Text → Match → Type 0
Known ids m = In m.t_identity ids

-- What is picked stands in the list and is not occupied.
abbrev IsFree : List Text → List Text → Option Match → Type 0
IsFree ids occupied none = Unit
IsFree ids occupied (some m) = Known ids m × All (λ j. j ≢ m.t_identity) occupied

first_free-IsFree :
    (ids occupied : List Text) (ms : List Match)
    → All (Known ids) ms
    → IsFree ids occupied (first_free occupied ms)
unfolding first_free
first_free-IsFree ids occupied [] h = tt
first_free-IsFree ids occupied (m ∷ ms) h = elim (Bool-cases (member occupied m.t_identity)) [
  | inl e ↦ rw e (first_free-IsFree ids occupied ms h.1)
  | inr e ↦ rw e (h.0, not-member occupied m.t_identity e)
]

-- What the first loop keeps.
pub record IsMatched (ids occupied : List Text) (m : Mapper) : Type 0 where
  pub sequences : sequences_of m ≡ occupied
  pub distinct : Distinct occupied
  pub known : All (λ t. In t ids) occupied

IsMatched-assign :
    (ids occupied : List Text) (m : Mapper) (k : Text) (o : Option Match)
    → All (λ j. j ≢ k) (keys m)
    → IsFree ids occupied o
    → IsMatched ids occupied m
    → IsMatched ids (with_occupied occupied o) (assign m k o)
IsMatched-assign ids occupied m k none fresh f h = record {
  sequences = rw (sequences_of-new m k none fresh) (append-nil (sequences_of m) ∙ h.sequences);
  distinct = h.distinct;
  known = h.known;
}
IsMatched-assign ids occupied m k (some x) fresh f h = record {
  sequences =
      rw (sequences_of-new m k (some x) fresh) (ap (λ r. r ++ (x.t_identity ∷ [])) h.sequences);
  distinct =
      Distinct-append occupied (x.t_identity ∷ []) h.distinct (tt, tt)
        (All-weaken (λ j. j ≢ x.t_identity) (λ j. All (λ y. j ≢ y) (x.t_identity ∷ []))
          (λ j n. (n, tt)) occupied f.1);
  known = All-append (λ t. In t ids) occupied (x.t_identity ∷ []) h.known (f.0, tt);
}

pub match_participants-IsMatched :
    (ids : List Text) (relation : Dict (List Match)) (occupied : List Text) (m : Mapper)
    → Distinct (keys m ++ keys relation)
    → All (λ e. All (Known ids) e.1) relation
    → IsMatched ids occupied m
    → IsMatched ids
        (match_participants relation occupied m).0
        (match_participants relation occupied m).1
      × (keys (match_participants relation occupied m).1 ≡ keys m ++ keys relation)
unfolding match_participants
match_participants-IsMatched ids [] occupied m d k h = (h, sym (append-nil (keys m)))
match_participants-IsMatched ids ((p, ms) ∷ relation) occupied m d k h =
    let fresh = Distinct-front (keys m) p (keys relation) d in
    let o = first_free occupied (sort by_similarity ms) in
    let is_free =
      first_free-IsFree ids occupied (sort by_similarity ms)
        (All-Permᴰ (Known ids) (Permᴰ.symm (sort-Permᴰ by_similarity ms)) k.0) in
    let front : keys (assign m p o) ++ keys relation ≡ keys m ++ (p ∷ keys relation) =
      rw (keys-new m p o fresh) (append_assoc (keys m) (p ∷ []) (keys relation)) in
    let (rest, ks) =
      match_participants-IsMatched ids relation (with_occupied occupied o) (assign m p o)
        (rw front d) k.1 (IsMatched-assign ids occupied m p o fresh is_free h) in
    (rest, ks ∙ front)
