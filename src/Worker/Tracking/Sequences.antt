-- ===== src/Worker/Tracking/Sequences.antt =====
-- workflow-worker services/ai/track/manager.py (class SequenceManager). Both the face comparison of
-- FeatService and the float score of `is_match` are parameters, taken to return.
-- The number of a tracking id stands for the id "v104..."; the id "v0" is `none`.
pub mod Rerank
pub mod Push
pub mod Merge
use video_flow.Prelude.{
  ℕ, zero, suc, ◌+◌, ◌-◌, Bool, true, false, ◌&&◌, ◌||◌, not, Option, none, some, List, [], ◌∷◌,
  ◌++◌, ltb, ◌==◌, if◌then◌else◌, select, length, map, get_elem?, set_elem,
}
use video_flow.Prelude.Int.{ℤ, pos, pos_part, ◌+ℤ◌}
use video_flow.Worker.Boxes.{Box, calc_box_area}
use video_flow.Worker.TimePatch.{TimePatch}
use video_flow.Worker.Tracking.{
  Frame, Face, Human, TrackingSequence, patch_at, update, is_alive, check_state, filter_time_path,
  merge,
}

-- What the manager asks of the recognisers.
pub record Recogniser : Type 0 where
  pub same_face : Frame → Frame → Option Box → Option Box → Option ℕ → Option ℕ → Bool
  pub is_match : TrackingSequence → Human → Bool

pub record SequenceManager : Type 0 where
  pub tolerance : ℕ
  pub gap : ℕ
  pub min_time_interval : ℕ
  pub queue : List TrackingSequence
  pub id_number : ℤ

-- A method returns, or raises; either way the manager is left in a state.
pub data Returned : Type 0 where
  returned : Option ℕ → Returned
  raised : Returned

abbrev pub Replied : Type 0
Replied = Returned × SequenceManager

module _ {A : Type 0} where
  abbrev set_from : List A → ℕ → Option A → List A
  set_from q i none = q
  set_from q i (some a) = set_elem q i a

  -- The loop of _rerank: `while index > target_index`
  unfoldable pub shift_up : ℕ → ℕ → List A → List A
  shift_up target zero q = q
  shift_up target (suc i) q = elim (ltb target (suc i)) [
    | true ↦ shift_up target i (set_from q (suc i) (get_elem? q i))
    | false ↦ q
  ]

  -- _rerank; `none` where it raises
  unfoldable pub rerank : ℕ → ℕ → List A → Option (List A)
  unfolding shift_up
  rerank target index q =
      if target == index
      then some q
      else if ltb index target
      then none
      else elim (get_elem? q index) [
        | none ↦ none
        | some matched ↦ some (set_elem (shift_up target index q) target matched)
      ]

-- get_tracking_id
unfoldable pub get_tracking_id : SequenceManager → ℕ × SequenceManager
get_tracking_id m = (pos_part (m.id_number +ℤ pos 1), record m { id_number = m.id_number +ℤ pos 1 })

-- The end of the last patch, which raises where there is none.
abbrev pub last_end : List TimePatch → Option ℕ
last_end [] = none
last_end (p ∷ []) = some p.end_time
last_end (p ∷ q ∷ ps) = last_end (q ∷ ps)

-- A change of the sequence at an index; it raises where the change does or the index is out of range.
unfoldable pub change_at :
    (TrackingSequence → Bool × TrackingSequence)
    → List TrackingSequence
    → ℕ
    → Bool × List TrackingSequence
change_at f [] i = (false, [])
change_at f (s ∷ ss) zero = let (ok, t) = f s in (ok, t ∷ ss)
change_at f (s ∷ ss) (suc i) = let (ok, ts) = change_at f ss i in (ok, s ∷ ts)

-- What _insert does to a sequence with the same face.
unfoldable pub revive : SequenceManager → Human → Frame → TrackingSequence → Bool × TrackingSequence
unfolding update
revive m info frame s = elim (last_end s.time_patchs) [
  | none ↦ (false, record s { ttl = pos m.tolerance })
  | some e ↦ update info frame (record s {
    ttl = pos m.tolerance;
    time_patchs =
        if ltb (e + m.gap) frame.timestamp
        then s.time_patchs ++ (patch_at m.min_time_interval frame.timestamp ∷ [])
        else s.time_patchs;
  })
]

-- The first index of least length: `min(range(len(queue)), key=...)`, from `i` on.
unfoldable pub shortest : ℕ → ℕ → ℕ → List TrackingSequence → ℕ
shortest best least i [] = best
shortest best least i (s ∷ ss) = elim (ltb s.length least) [
  | true ↦ shortest i s.length (suc i) ss
  | false ↦ shortest best least (suc i) ss
]

unfoldable pub index_head : List TrackingSequence → ℕ
unfolding shortest
index_head [] = 0
index_head (s ∷ ss) = shortest 0 s.length 1 ss

-- The sequence that _insert makes of a new face.
unfoldable pub new_sequence : SequenceManager → Human → Face → Frame → ℕ → ℕ → TrackingSequence
new_sequence m info face frame id face_area = record {
  min_time_interval = m.min_time_interval;
  node = info;
  stored_frame = frame;
  tracking_id = id;
  ttl = pos m.tolerance;
  length = 1;
  gap = 1000;
  has_match = true;
  stored_face_bbox = some face.face_bbox;
  stored_face_area = face_area;
  face_score = elim face.score [ none ↦ 0 | some n ↦ n ];
  stored_face_feature = face.face_feature;
  last_time = frame.timestamp;
  time_patchs = patch_at m.min_time_interval frame.timestamp ∷ [];
}

module _ (r : Recogniser) where
  abbrev same_node_face : TrackingSequence → Frame → Face → Option Face → Bool
  same_node_face s frame face none = false
  same_node_face s frame face (some ref) =
      r.same_face s.stored_frame frame (some ref.face_bbox) (some face.face_bbox) ref.face_feature
        face.face_feature

  -- The candidates of _check_face_match for one sequence.
  unfoldable pub has_face : TrackingSequence → Frame → Face → Bool
  has_face s frame face =
      r.same_face s.stored_frame frame s.stored_face_bbox (some face.face_bbox)
        s.stored_face_feature face.face_feature
      || same_node_face s frame face s.node.face_info

  -- _check_face_match: the index of the sequence, from `i` on
  unfoldable pub check_face_match : ℕ → List TrackingSequence → Frame → Face → Option ℕ
  unfolding has_face
  check_face_match i [] frame face = none
  check_face_match i (s ∷ ss) frame face =
      let rest = check_face_match (suc i) ss frame face in
      if has_face s frame face then some i else rest

  -- The first sequence alive that matches, in push.
  unfoldable pub first_match : ℕ → List TrackingSequence → Human → Option ℕ
  unfolding is_alive
  first_match i [] info = none
  first_match i (s ∷ ss) info =
      let rest = first_match (suc i) ss info in
      if is_alive s && r.is_match s info then some i else rest

  abbrev id_at : List TrackingSequence → ℕ → Returned
  id_at q i = elim (get_elem? q i) [ none ↦ raised | some s ↦ returned (some s.tracking_id) ]

  insert_new : Human → Face → Frame → Option ℕ → ℕ × SequenceManager → Replied
  unfolding new_sequence
  insert_new info face frame none (id, m) = (raised, m)
  insert_new info face frame (some face_area) (id, m) = (
    returned (some id),
    record m { queue = m.queue ++ (new_sequence m info face frame id face_area ∷ []) },
  )

  unfoldable pub insert_face : Human → Face → Frame → Option ℕ → SequenceManager → Replied
  unfolding change_at revive get_tracking_id insert_new
  insert_face info face frame none m =
      insert_new info face frame (calc_box_area face.face_bbox) (get_tracking_id m)
  insert_face info face frame (some i) m =
      let (ok, q) = change_at (revive m info frame) m.queue i in
      (if ok then id_at q i else raised, record m { queue = q })

  insert_of : Human → Frame → Option Face → SequenceManager → Replied
  unfolding insert_face check_face_match
  insert_of info frame none m = (returned none, m)
  insert_of info frame (some face) m =
      insert_face info face frame (check_face_match 0 m.queue frame face) m

  -- _insert
  unfoldable pub insert : Human → Frame → SequenceManager → Replied
  unfolding insert_of
  insert info frame m = insert_of info frame info.face_info m

  -- `self._rerank(index_head, i)` and the id that push returns
  unfoldable pub reranked : ℕ → ℕ → SequenceManager → Replied
  unfolding rerank
  reranked head i m = elim (rerank head i m.queue) [
    | none ↦ (raised, m)
    | some q ↦ (id_at q head, record m { queue = q })
  ]

  -- The branch of push on a match at `i`.
  unfoldable pub push_match : Human → Frame → ℕ → SequenceManager → Replied
  unfolding change_at update reranked index_head
  push_match info frame i m =
      let (ok, q) = change_at (update info frame) m.queue i in
      let updated = record m { queue = q } in
      if ok then reranked (index_head m.queue) i updated else (raised, updated)

  -- push
  unfoldable pub push : Human → Frame → SequenceManager → Replied
  unfolding push_match insert first_match
  push info frame m = elim (first_match 0 m.queue info) [
    | none ↦ insert info frame m
    | some i ↦ push_match info frame i m
  ]

  -- The inner loop of merge: the sequence at `i` takes in those behind it that show the same face.
  unfoldable pub absorb :
      TrackingSequence → List TrackingSequence → TrackingSequence × List TrackingSequence
  unfolding merge
  absorb s [] = (s, [])
  absorb s (t ∷ ts) =
      elim (r.same_face s.stored_frame t.stored_frame s.stored_face_bbox t.stored_face_bbox
        s.stored_face_feature t.stored_face_feature) [
          | true ↦ absorb (merge s t) ts
          | false ↦ let (kept, rest) = absorb s ts in (kept, t ∷ rest)
        ]

  -- The outer loop of merge, on fuel.
  unfoldable pub merge_from : ℕ → List TrackingSequence → List TrackingSequence
  unfolding absorb
  merge_from zero q = q
  merge_from (suc n) [] = []
  merge_from (suc n) (s ∷ ss) = let (kept, rest) = absorb s ss in kept ∷ merge_from n rest

  -- merge of the class
  unfoldable pub merge_all : SequenceManager → SequenceManager
  unfolding merge_from
  merge_all m = record m { queue = merge_from (length m.queue) m.queue }

-- check
unfoldable pub check : ℕ → SequenceManager → SequenceManager
unfolding check_state
check frame_time m = record m {
  queue = map (λ s. record (check_state frame_time s) { last_time = frame_time }) m.queue;
}

abbrev has_patchs : TrackingSequence → Bool
has_patchs s = elim s.time_patchs [ [] ↦ false | p ∷ ps ↦ true ]

-- filter_burr
unfoldable pub filter_burr : SequenceManager → SequenceManager
unfolding filter_time_path
filter_burr m = record m { queue = select has_patchs (map filter_time_path m.queue) }

abbrev has_stored_face : TrackingSequence → Bool
has_stored_face s = elim s.stored_face_bbox [ none ↦ false | some b ↦ true ]

-- filter_noface_human
unfoldable pub filter_noface_human : SequenceManager → SequenceManager
filter_noface_human m = record m { queue = select has_stored_face m.queue }
