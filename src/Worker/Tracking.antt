-- ===== src/Worker/Tracking.antt =====
-- workflow-worker services/ai/track/manager.py (class TrackingSequence) and domain/entities/human.py.
-- Times are whole milliseconds, and a confidence is a natural number: the code only compares it. A
-- feature vector is a handle, which the code only passes on. Where a method raises, it returns `false`
-- with the object as it was left.
pub mod Patches
pub mod Gaps
pub mod Sequences
use video_flow.Prelude.{
  ℕ, ◌+◌, ◌-◌, Bool, true, false, ◌&&◌, ◌||◌, not, Option, none, some, List, [], ◌∷◌, ◌++◌, ltb,
  leb, ◌==◌, if◌then◌else◌, select, max,
}
use video_flow.Prelude.Int.{ℤ, pos, ◌-ℤ◌, ltb_ℤ}
use video_flow.Prelude.Text.{Text, text}
use video_flow.Prelude.Sorting.{sort}
use video_flow.Worker.Boxes.{Box, calc_box_area}
use video_flow.Worker.TimePatch.{TimePatch, update_end_time, is_burr, is_overlap}

pub record Frame : Type 0 where
  pub image : ℕ
  pub timestamp : ℕ

pub record Face : Type 0 where
  pub face_bbox : Box
  pub score : Option ℕ
  pub face_feature : Option ℕ

pub record Body : Type 0 where
  pub body_bbox : Box
  pub confidence : ℕ

pub record Human : Type 0 where
  pub face_info : Option Face
  pub body_info : Option Body
  pub ttl : Option ℕ
  pub tolerance : Option ℕ

-- `if new is not None: self.x = new`
abbrev newer : {A : Type 0} → Option A → Option A → Option A
newer none old = old
newer (some a) old = some a

-- Human.update
unfoldable pub human_update : Human → Human → Human
human_update self info = record self {
  face_info = newer info.face_info self.face_info;
  body_info = newer info.body_info self.body_info;
  ttl = self.tolerance;
}

pub record TrackingSequence : Type 0 where
  pub min_time_interval : ℕ
  pub node : Human
  pub stored_frame : Frame
  pub tracking_id : ℕ
  pub ttl : ℤ
  pub length : ℕ
  pub gap : ℕ
  pub has_match : Bool
  pub stored_face_bbox : Option Box
  pub stored_face_area : ℕ
  pub face_score : ℕ
  pub stored_face_feature : Option ℕ
  pub last_time : ℕ
  pub time_patchs : List TimePatch

abbrev pub ms : Text
ms = text "ms"

-- `TimePatch(start_time=t, end_time=t, min_time_interval=...)`
abbrev pub patch_at : ℕ → ℕ → TimePatch
patch_at min_time_interval t = record {
  start_time = t;
  end_time = t;
  min_time_interval = some min_time_interval;
  time_unit = some ms;
}

-- `gap.update_end_time(t)` on such a patch
abbrev pub patch_between : ℕ → ℕ → ℕ → TimePatch
patch_between min_time_interval s t = update_end_time (patch_at min_time_interval s) t ms

-- reverse
unfoldable pub reverse_from : ℕ → ℕ → List TimePatch → ℕ → List TimePatch
unfolding update_end_time
reverse_from interval start [] frame_time =
    if ltb start frame_time then patch_between interval start frame_time ∷ [] else []
reverse_from interval start (tp ∷ tps) frame_time =
    let rest = reverse_from interval tp.end_time tps frame_time in
    if start == tp.start_time then rest else patch_between interval start tp.start_time ∷ rest

unfoldable pub reverse : TrackingSequence → ℕ → List TimePatch
unfolding reverse_from
reverse s frame_time = reverse_from s.min_time_interval 0 s.time_patchs frame_time

-- `self.time_patchs[-1].update_end_time(t)`, which raises where there is none
unfoldable pub extend_last : List TimePatch → ℕ → Option (List TimePatch)
unfolding update_end_time
extend_last [] t = none
extend_last (p ∷ []) t = some (update_end_time p t ms ∷ [])
extend_last (p ∷ q ∷ ps) t = elim (extend_last (q ∷ ps) t) [ none ↦ none | some qs ↦ some (p ∷ qs) ]

-- `(a, b) > (c, d)`
abbrev pub pair_gt : ℕ → ℕ → ℕ → ℕ → Bool
pair_gt a b c d = ltb c a || (a == c && ltb d b)

-- The face of the update, with its area and its score. A score `None` cannot be compared.
unfoldable pub better_face :
    Face → Frame → Option ℕ → Option ℕ → TrackingSequence → Bool × TrackingSequence
better_face face frame none score s = (false, s)
better_face face frame (some new_area) none s = (false, s)
better_face face frame (some new_area) (some new_score) s =
    if pair_gt new_score new_area s.face_score s.stored_face_area
    then (
      true,
      record s {
        face_score = new_score;
        stored_face_area = new_area;
        stored_frame = frame;
        stored_face_bbox = some face.face_bbox;
        stored_face_feature = face.face_feature;
      },
    )
    else (true, s)

unfoldable pub with_face : Option Face → Frame → TrackingSequence → Bool × TrackingSequence
unfolding better_face
with_face none frame s = (true, s)
with_face (some face) frame s = better_face face frame (calc_box_area face.face_bbox) face.score s

unfoldable pub with_patchs :
    Option (List TimePatch) → Human → Frame → TrackingSequence → Bool × TrackingSequence
unfolding with_face
with_patchs none info frame s = (false, s)
with_patchs (some patchs) info frame s =
    with_face info.face_info frame (record s { time_patchs = patchs; has_match = true })

-- update
unfoldable pub update : Human → Frame → TrackingSequence → Bool × TrackingSequence
unfolding human_update extend_last with_patchs
update info frame s =
    with_patchs (extend_last s.time_patchs frame.timestamp) info frame
      (record s { node = human_update s.node info; length = s.length + 1 })

-- updata_face
unfoldable pub updata_face : TrackingSequence → TrackingSequence → TrackingSequence
updata_face self other = record self {
  face_score = other.face_score;
  stored_face_area = other.stored_face_area;
  stored_frame = other.stored_frame;
  stored_face_bbox = other.stored_face_bbox;
  stored_face_feature = other.stored_face_feature;
}

-- is_alive
unfoldable pub is_alive : TrackingSequence → Bool
is_alive s = not (ltb_ℤ s.ttl (pos 0))

-- is_better_than
unfoldable pub is_better_than : TrackingSequence → TrackingSequence → Bool
is_better_than self other =
    pair_gt self.face_score self.stored_face_area other.face_score other.stored_face_area

-- check_state
unfoldable pub check_state : ℕ → TrackingSequence → TrackingSequence
check_state frame_time s = record s {
  ttl = if s.has_match then s.ttl else s.ttl -ℤ (pos frame_time -ℤ pos s.last_time);
  has_match = false;
}

-- filter_time_path
unfoldable pub filter_time_path : TrackingSequence → TrackingSequence
filter_time_path s = record s { time_patchs = select (λ tp. not (is_burr tp)) s.time_patchs }

-- The test of _merge_time_patch: `tp` against the last merged patch.
unfoldable pub joins : ℕ → TimePatch → TimePatch → Bool
unfolding is_overlap
joins gap last tp =
    is_overlap tp last.start_time last.end_time || leb tp.start_time (last.end_time + gap)

-- The loop of _merge_time_patch, from the last merged patch on.
unfoldable pub coalesce : ℕ → TimePatch → List TimePatch → List TimePatch
unfolding joins update_end_time
coalesce gap last [] = last ∷ []
coalesce gap last (tp ∷ tps) = elim (joins gap last tp) [
  | true ↦ coalesce gap (update_end_time last (max last.end_time tp.end_time) ms) tps
  | false ↦ last ∷ coalesce gap tp tps
]

abbrev pub by_start : TimePatch → TimePatch → Bool
by_start a b = leb a.start_time b.start_time

unfoldable pub coalesced : ℕ → List TimePatch → List TimePatch
unfolding coalesce
coalesced gap [] = []
coalesced gap (tp ∷ tps) = coalesce gap tp tps

-- _merge_time_patch
unfoldable pub merge_time_patch : TrackingSequence → TrackingSequence
unfolding coalesced sort
merge_time_patch s = record s { time_patchs = coalesced s.gap (sort by_start s.time_patchs) }

-- merge
unfoldable pub merge : TrackingSequence → TrackingSequence → TrackingSequence
unfolding merge_time_patch is_better_than updata_face
merge self other =
    let best = if is_better_than self other then self else updata_face self other in
    merge_time_patch (record best { time_patchs = best.time_patchs ++ other.time_patchs })
