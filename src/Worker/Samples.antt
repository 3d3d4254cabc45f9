-- ===== src/Worker/Samples.antt =====
-- Boxes, patches and sequences of the worker, what it does with them, and its theorems at them.
mod Streams
mod Persons
mod Texts
use video_flow.Prelude.{
  ℕ, ◌≡◌, ◌↔◌, refl, true, Bool, ltb, length, map, ◌+◌, ◌++◌, Bool-cases, inl, inr, if◌then◌else◌,
  false, Option, none, some, List, [], ◌∷◌, arith, All, ◌≤◌, ◌==◌, ap,
}
use video_flow.Prelude.Int.{pos, ◌+ℤ◌, ◌-ℤ◌}
use video_flow.Prelude.Text.{text, text_eq}
use video_flow.Worker.Boxes.{
  Box, Ratio, calc_intersection, calc_iou, calc_ioa, check_box, iou_of, intersection, min_ℤ, max_ℤ,
  calc_box_area, area, span,
}
use video_flow.Worker.Boxes.Overlap.{IsLegal, Meets, calc_intersection-Meets}
use video_flow.Worker.Boxes.Ratios.{IsShare, calc_iou-IsShare, calc_ioa-IsShare}
use video_flow.Worker.TimePatch.{TimePatch, is_overlap, update_end_time}
use video_flow.Worker.TimePatch.Overlap.{is_overlap_iff}
use video_flow.Worker.Tracking.{
  is_alive, TrackingSequence, Human, Frame, ms, merge_time_patch, reverse, update,
}
use video_flow.Worker.Tracking.Sequences.{
  Recogniser, SequenceManager, change_at, index_head, merge_all, merge_from, first_match, push,
  rerank,
}
use video_flow.Worker.CircularQueue.{new_queue}
use video_flow.Worker.CircularQueue.Runs.{
  Call, put, get, accepted, took, run, list_run, run-list_run,
}
use video_flow.Worker.FrameChannel.{Janus, IsFifo, FrameChannel}
use video_flow.Worker.FrameChannel.Delivery
use video_flow.Worker.FrameChannel.Delivery.{Event, sent, read, marked, run-Fifo}
use video_flow.Worker.MediaStream.{choose_decode_fps}
use video_flow.Worker.MediaStream.Sampling.{IsSampled}
use video_flow.Worker.Tracking.Sequences.Merge.{IsTracked, merge_all-IsTracked}
use video_flow.Worker.Tracking.Sequences.Rerank.{rerank-moved}
use video_flow.Worker.Tracking.Sequences.Push.{Matched, FirstAt, FewestAt, candidate, push-Matched}
use video_flow.Worker.Tracking.Patches.{IsPatch, IsMerged, merge_time_patch-IsMerged}
use video_flow.Worker.Tracking.Gaps.{IsComplement, reverse-IsComplement}

abbrev left_box : Box
left_box = record { x1 = pos 0; y1 = pos 0; x2 = pos 9; y2 = pos 9 }

abbrev right_box : Box
right_box = record { x1 = pos 5; y1 = pos 5; x2 = pos 14; y2 = pos 14 }

left_box-IsLegal : IsLegal left_box
left_box-IsLegal = record {
  across = omega arith;
  down = omega arith;
  x_nonneg = omega arith;
  y_nonneg = omega arith;
}

right_box-IsLegal : IsLegal right_box
right_box-IsLegal = record {
  across = omega arith;
  down = omega arith;
  x_nonneg = omega arith;
  y_nonneg = omega arith;
}

calc_iou_test : calc_iou left_box right_box ≡ some (record { num = 25; den = 175 })
unfolding calc_iou calc_intersection check_box iou_of intersection min_ℤ max_ℤ calc_box_area area
    span ◌+ℤ◌ ◌-ℤ◌
calc_iou_test = refl

calc_intersection-Meets_example :
    (o : Option Box) × (calc_intersection left_box right_box ≡ some o) × Meets left_box right_box o
calc_intersection-Meets_example =
    calc_intersection-Meets left_box right_box left_box-IsLegal right_box-IsLegal

calc_iou-IsShare_example : (q : Ratio) × (calc_iou left_box right_box ≡ some q) × IsShare q
calc_iou-IsShare_example = calc_iou-IsShare left_box right_box left_box-IsLegal right_box-IsLegal

calc_ioa-IsShare_example : (q : Ratio) × (calc_ioa left_box right_box ≡ some q) × IsShare q
calc_ioa-IsShare_example = calc_ioa-IsShare left_box right_box left_box-IsLegal right_box-IsLegal

abbrev patch : ℕ → ℕ → TimePatch
patch s e = record {
  start_time = s;
  end_time = e;
  min_time_interval = some 5000;
  time_unit = some ms;
}

is_overlap_iff_example :
    (is_overlap (patch 10 20) 15 30 ≡ true) ↔ ((t : ℕ) × (10 ≤ t) × (t ≤ 20) × (15 ≤ t) × (t ≤ 30))
is_overlap_iff_example = is_overlap_iff (patch 10 20) 15 30 (omega arith) (omega arith)

abbrev face_frame : Frame
face_frame = record { image = 0; timestamp = 0 }

abbrev unknown : Human
unknown = record { face_info = none; body_info = none; ttl = none; tolerance = some 2 }

abbrev sequence : List TimePatch → TrackingSequence
sequence ps = record {
  min_time_interval = 5000;
  node = unknown;
  stored_frame = face_frame;
  tracking_id = 0;
  ttl = pos 1000;
  length = 1;
  gap = 1000;
  has_match = true;
  stored_face_bbox = none;
  stored_face_area = 0;
  face_score = 0;
  stored_face_feature = none;
  last_time = 0;
  time_patchs = ps;
}

abbrev scattered : TrackingSequence
scattered = sequence (patch 9000 9500 ∷ patch 2000 4000 ∷ patch 5000 6000 ∷ [])

merge_time_patch_test :
    (merge_time_patch scattered).time_patchs ≡ patch 2000 6000 ∷ patch 9000 9500 ∷ []
unfolding merge_time_patch text_eq
merge_time_patch_test = refl

scattered-IsPatch : All IsPatch scattered.time_patchs
scattered-IsPatch = (
  record { forward = omega arith; unit = refl },
  (
    record { forward = omega arith; unit = refl },
    (record { forward = omega arith; unit = refl }, tt),
  ),
)

merge_time_patch-IsMerged_example :
    IsMerged 1000 scattered.time_patchs (merge_time_patch scattered).time_patchs
merge_time_patch-IsMerged_example = merge_time_patch-IsMerged scattered scattered-IsPatch

abbrev tidy : TrackingSequence
tidy = sequence (patch 2000 6000 ∷ patch 9000 9500 ∷ [])

reverse_test : reverse tidy 12000 ≡ patch 0 2000 ∷ patch 6000 9000 ∷ patch 9500 12000 ∷ []
unfolding reverse text_eq
reverse_test = refl

reverse-IsComplement_example : IsComplement 0 12000 tidy.time_patchs (reverse tidy 12000)
reverse-IsComplement_example =
    reverse-IsComplement tidy 1000 12000
      (
        omega arith,
        record { forward = omega arith; unit = refl },
        (omega arith, record { forward = omega arith; unit = refl }, tt),
      )
      (omega arith)

abbrev recogniser : Recogniser
recogniser = record {
  same_face = λ f g a b c d. f.image == g.image;
  is_match = λ s info. s.tracking_id == elim info.ttl [ none ↦ 0 | some n ↦ n ];
}

-- Two people; the first was seen in more frames.
abbrev two_people : SequenceManager
two_people = record {
  tolerance = 1000;
  gap = 1000;
  min_time_interval = 5000;
  queue =
      record (sequence (patch 0 40 ∷ [])) { length = 2 }
      ∷ record (sequence (patch 40 40 ∷ [])) { tracking_id = 1 }
      ∷ [];
  id_number = pos 1;
}

abbrev person : ℕ → Human
person n = record { face_info = none; body_info = none; ttl = some n; tolerance = some 2 }

abbrev next_frame : Frame
next_frame = record { image = 1; timestamp = 80 }

abbrev seen_first : TrackingSequence
seen_first = record (sequence (patch 0 40 ∷ [])) { length = 2 }

abbrev seen_again : TrackingSequence
seen_again = (update (person 0) next_frame seen_first).1

update_test : update (person 0) next_frame seen_first ≡ (true, seen_again)
unfolding update
update_test = ap (λ ok. (ok, seen_again)) refl

first_test : FirstAt (candidate recogniser (person 0)) two_people.queue 0 seen_first
unfolding is_alive
first_test = record { stored = refl; passes = refl; before = tt }

fewest_test : FewestAt two_people.queue 1 (record (sequence (patch 40 40 ∷ [])) { tracking_id = 1 })
fewest_test = record {
  stored = refl;
  least = (omega arith, (omega arith, tt));
  before = (omega arith, tt);
}

push-Matched_example :
    Matched two_people 1 0 seen_again (push recogniser (person 0) next_frame two_people)
push-Matched_example =
    push-Matched recogniser (person 0) next_frame two_people 1 0 seen_first seen_again
      (record (sequence (patch 40 40 ∷ [])) { tracking_id = 1 }) first_test update_test fewest_test

rerank-moved_example :
    rerank {A = ℕ} 1 3 (10 ∷ 11 ∷ 12 ∷ 13 ∷ 14 ∷ []) ≡ some (10 ∷ 13 ∷ 11 ∷ 12 ∷ 14 ∷ [])
rerank-moved_example = rerank-moved 1 3 13 (10 ∷ 11 ∷ 12 ∷ 13 ∷ 14 ∷ []) (omega arith) refl

abbrev crowd : SequenceManager
crowd = record two_people {
  queue =
      sequence (patch 0 40 ∷ [])
      ∷ record (sequence (patch 60 80 ∷ [])) { tracking_id = 1; stored_frame = next_frame }
      ∷ record (sequence (patch 500 900 ∷ [])) { tracking_id = 2 }
      ∷ [];
}

merge_all_test :
    map (λ s. s.time_patchs) (merge_all recogniser crowd).queue
    ≡ (patch 0 900 ∷ []) ∷ (patch 60 80 ∷ []) ∷ []
unfolding merge_all text_eq
merge_all_test = refl

one_patch : (s e : ℕ) → s ≤ e → All IsPatch (patch s e ∷ [])
one_patch s e h = (record { forward = h; unit = refl }, tt)

merge_all-IsTracked_example : IsTracked 700 (merge_all recogniser crowd).queue
merge_all-IsTracked_example =
    merge_all-IsTracked recogniser crowd
      (
        one_patch 0 40 (omega arith),
        (one_patch 60 80 (omega arith), (one_patch 500 900 (omega arith), tt)),
      )
      700 (inr (inr (inl (inl (omega arith, omega arith)))))
