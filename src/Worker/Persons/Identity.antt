-- ===== src/Worker/Persons/Identity.antt =====
-- Who is who in processor.py: the sequences of the video, the participants, and which of them belong
-- together. Images are handles; loading and decoding them, and the similarity of two faces, are
-- parameters, whose exceptions leave the processor: `none`, here as in what calls them.
pub mod Sequences
pub mod Matched
pub mod Related
pub mod Assigned
pub mod Keyed
use video_flow.Prelude.{
  ℕ, ◌+◌, ◌*◌, Bool, true, false, not, Option, none, some, List, [], ◌∷◌, ◌++◌, ltb, leb,
  if◌then◌else◌, map,
}
use video_flow.Prelude.Text.{Text, text, text_eq}
use video_flow.Prelude.Dict.{Dict, keys, get, assign, member}
use video_flow.Prelude.Sorting.{sort}
use video_flow.Prelude.Partial.{Gives, ◌>>=◌}
use video_flow.Worker.TimePatch.{TimePatch}
use video_flow.Worker.Persons.Intervals.{long_patchs, reversed_time_patchs}

-- A result of the tracking: `frame` and the box stand for the picture.
pub record TrackingResult : Type 0 where
  pub tracking_id : Text
  pub time_patchs : List TimePatch
  pub frame : ℕ
  pub bbox : Option ℕ

pub record Participant : Type 0 where
  pub role : Option Text
  pub picture : Option Text
  pub requirement : Option Text

-- None, where a text is expected, is a key of its own and equal to no text: a code point that no text
-- has.
abbrev pub text_or_none : Option Text → Text
text_or_none none = 1114112 ∷ []
text_or_none (some t) = t

-- What the code calls outside, `none` where it raises: `face_data` loads the image of a frame and cuts
-- the face out, if there is a box; `picture_data` loads an address, which may hold no image, and asks
-- DetService for its face; `similarity` asks FeatService.
pub record Faces : Type 0 where
  pub face_data : ℕ → Option ℕ → Option (Option ℕ)
  pub picture_data : Text → Option (Option ℕ)
  pub similarity : Option ℕ → Option ℕ → Option ℕ

-- The images load and the services answer.
pub record Answer (faces : Faces) : Type 0 where
  pub face_data :
      (frame : ℕ) (box : Option ℕ) → Gives {0, 0} (λ _. Unit) (faces.face_data frame box)
  pub picture_data : (url : Text) → Gives {0, 0} (λ _. Unit) (faces.picture_data url)
  pub similarity : (p t : Option ℕ) → Gives {0, 0} (λ _. Unit) (faces.similarity p t)

pub record TrackingSequence : Type 0 where
  pub lost_time_patchs : List TimePatch
  pub face_frame : Option ℕ
  pub requirement : Text

pub record ParticipantSequence : Type 0 where
  pub face_frame : Option ℕ
  pub requirement : Text

-- An entry of `relation` and of `identity_mapper`.
pub record Match : Type 0 where
  pub t_identity : Text
  pub similarity : ℕ

abbrev pub Mapper : Type 0
Mapper = Dict (Option Match)

pub record Processor : Type 0 where
  pub video_duration : ℕ
  pub relation : Dict (List Match)
  pub identity_mapper : Mapper
  pub verification_threshold : ℕ

-- `self.relation[p_identity].append(...)`, with the list made where there is none
abbrev pub append_match : Dict (List Match) → Text → Match → Dict (List Match)
append_match relation p_identity m =
    assign relation p_identity
      (elim (get relation p_identity) [ none ↦ m ∷ [] | some ms ↦ ms ++ (m ∷ []) ])

module _ (faces : Faces) where
  -- One round of _get_tracking_sequences.
  abbrev sequence_of : ℕ → List TimePatch → Option ℕ → TrackingSequence
  sequence_of video_duration time_patchs face = record {
    lost_time_patchs = reversed_time_patchs video_duration time_patchs;
    face_frame = face;
    requirement = text "00";
  }

  unfoldable pub with_sequence :
      ℕ → TrackingResult → List TimePatch → Dict TrackingSequence → Option (Dict TrackingSequence)
  unfolding reversed_time_patchs
  with_sequence video_duration r [] m = some m
  with_sequence video_duration r (p ∷ ps) m = do
    face ← faces.face_data r.frame r.bbox
    some (assign m r.tracking_id (sequence_of video_duration (p ∷ ps) face))

  unfoldable pub sequences_from :
      ℕ → ℕ → List TrackingResult → Dict TrackingSequence → Option (Dict TrackingSequence)
  unfolding with_sequence long_patchs
  sequences_from video_duration min_interval [] m = some m
  sequences_from video_duration min_interval (r ∷ rs) m = do
    m' ← with_sequence video_duration r (long_patchs min_interval r.time_patchs) m
    sequences_from video_duration min_interval rs m'

  -- _get_tracking_sequences
  unfoldable pub get_tracking_sequences :
      ℕ → ℕ → List TrackingResult → Option (Dict TrackingSequence)
  unfolding sequences_from
  get_tracking_sequences video_duration min_time_interval results =
      sequences_from video_duration (min_time_interval * 1000) results []

  unfoldable pub participants_from :
      List Participant → Dict ParticipantSequence → Option (Dict ParticipantSequence)
  participants_from [] m = some m
  participants_from (p ∷ ps) m = do
    face ← faces.picture_data (elim p.picture [ none ↦ [] | some url ↦ url ])
    participants_from ps (
        assign m (text_or_none p.role)
          (record { face_frame = face; requirement = text_or_none p.requirement }))

  -- _get_participant_sequences
  unfoldable pub get_participant_sequences : List Participant → Option (Dict ParticipantSequence)
  unfolding participants_from
  get_participant_sequences infos = participants_from infos []

  unfoldable pub relate_participants :
      ℕ
      → Text
      → TrackingSequence
      → Dict ParticipantSequence
      → Dict (List Match)
      → Option (Dict (List Match))
  relate_participants threshold t_identity t [] relation = some relation
  relate_participants threshold t_identity t ((p_identity, p) ∷ ps) relation = do
    similarity ← faces.similarity p.face_frame t.face_frame
    relate_participants threshold t_identity t ps (
        if ltb threshold similarity
        then append_match relation p_identity
            (record { t_identity = t_identity; similarity = similarity })
        else relation)

  -- _fill_relation
  unfoldable pub fill_relation :
      ℕ
      → Dict TrackingSequence
      → Dict ParticipantSequence
      → Dict (List Match)
      → Option (Dict (List Match))
  unfolding relate_participants
  fill_relation threshold [] participants relation = some relation
  fill_relation threshold ((t_identity, t) ∷ ts) participants relation = do
    relation' ← relate_participants threshold t_identity t participants relation
    fill_relation threshold ts participants relation'

-- `sort(key=similarity, reverse=True)`, which keeps the order of equal ones
abbrev pub by_similarity : Match → Match → Bool
by_similarity a b = leb b.similarity a.similarity

-- The first match whose sequence is not taken.
unfoldable pub first_free : List Text → List Match → Option Match
first_free occupied [] = none
first_free occupied (m ∷ ms) =
    let rest = first_free occupied ms in if member occupied m.t_identity then rest else some m

abbrev pub with_occupied : List Text → Option Match → List Text
with_occupied occupied none = occupied
with_occupied occupied (some m) = occupied ++ (m.t_identity ∷ [])

-- The first loop of _get_identity_mapper.
unfoldable pub match_participants : Dict (List Match) → List Text → Mapper → List Text × Mapper
unfolding first_free sort
match_participants [] occupied mapper = (occupied, mapper)
match_participants ((p_identity, t_messages) ∷ relation) occupied mapper =
    let matched = first_free occupied (sort by_similarity t_messages) in
    match_participants relation (with_occupied occupied matched) (assign mapper p_identity matched)

-- Similarities are counted in millionths.
abbrev pub one : ℕ
one = 1000000

abbrev pub own_match : Text → Option Match
own_match t_identity = some (record { t_identity = t_identity; similarity = one })

-- Its second loop.
unfoldable pub match_strangers : List Text → List Text → Mapper → Mapper
match_strangers occupied [] mapper = mapper
match_strangers occupied (t_identity ∷ ts) mapper =
    match_strangers occupied ts (
      if member occupied t_identity
      then mapper
      else assign mapper t_identity (own_match t_identity))

-- Both loops, over the sorted relation.
unfoldable pub mapper_of : List Text → Dict (List Match) → Mapper → Mapper
unfolding match_participants match_strangers
mapper_of tracking_ids relation mapper =
    let (occupied, matched) = match_participants relation [] mapper in
    match_strangers occupied tracking_ids matched

-- _get_identity_mapper
unfoldable pub get_identity_mapper :
    Faces → Dict TrackingSequence → Dict ParticipantSequence → Processor → Option Processor
unfolding fill_relation mapper_of
get_identity_mapper faces tracking participants s = do
  relation ← fill_relation faces s.verification_threshold tracking participants s.relation
  some (record s {
    relation = map (λ e. (e.0, sort by_similarity e.1)) relation;
    identity_mapper = mapper_of (keys tracking) relation s.identity_mapper;
  })
