-- ===== src/Worker/Ocr/Results.antt =====
-- ocr_info_manager.py: the results that a manager makes of the frames.
pub mod Detected
pub mod Aligned
pub mod Spans
pub mod Runs
pub mod Frames
pub mod Started
use video_flow.Prelude.Int.{ℤ}
use video_flow.Prelude.{
  ℕ, ◌+◌, ◌-◌, ◌*◌, ◌==◌, ltb, leb, Bool, true, false, not, ◌&&◌, ◌||◌, Option, none, some, List,
  [], ◌∷◌, ◌++◌, if◌then◌else◌, length, map, drop, select,
}
use video_flow.Prelude.Text.{Text, text, text_eq}
use video_flow.Prelude.Dict.{Dict, get, assign, keys, member}
use video_flow.Prelude.Partial.{◌>>=◌}
use video_flow.Worker.TimePatch.{TimePatch}
use video_flow.Worker.Tracking.{Frame, patch_at}
use video_flow.Worker.Ocr.{Validator, Distances, OcrInfoType, OcrInfo, TextBlock}
use video_flow.Worker.Ocr.Ids
use video_flow.Worker.Ocr.Ids.{get_detection_ocr_id}
use video_flow.Worker.Ocr.Recognition.{do_recognition}
use video_flow.Worker.Ocr.Manager.{
  Variant, base, doc, id_card, Expected, Recognised, Registered, OcrInfoManager, tolerance, reinit,
  do_detection,
}

-- OCRTrackingResult
pub record OcrTrackingResult : Type 0 where
  pub time_patch : TimePatch
  pub tracking_id : Text
  pub expected_contents : Dict Expected
  pub recognized_contents : Dict Recognised
  pub frame : Frame
  pub keys : List Text
  pub bbox : Option (List ℤ)
  pub confidence : Option ℕ

-- The best match so far: its similarity, its id, its frame and its box.
pub record Best : Type 0 where
  pub max_similarity : ℕ
  pub matched_id : Option Text
  pub best_frame : Option Frame
  pub bbox : Option (List ℤ)

-- The inner loop of _gen_recog_tracking_result.
unfoldable pub best_field : Text → Dict Expected → Dict Recognised → List Text → Best → Option Best
best_field id expected found [] best = some best
best_field id expected found (key_field ∷ ks) best = elim (get found key_field) [
  | none ↦ best_field id expected found ks best
  | some r ↦ do
    e ← get expected key_field
    best_field id expected found ks (
        if ltb e.similarity_threshold r.similarity && ltb best.max_similarity r.similarity
        then record {
          max_similarity = r.similarity;
          matched_id = some id;
          best_frame = r.best_frame;
          bbox = r.bbox;
        }
        else best)
]

unfoldable pub best_match : Dict Registered → Dict (Dict Recognised) → Best → Option Best
unfolding best_field
best_match [] found best = some best
best_match ((id, r) ∷ rs) found best = do
  contents ← get found id
  next ← best_field id r.contents contents r.key_fields best
  best_match rs found next

-- `TimePatch(start_time=self.start_time or 0.0, end_time=frame.timestamp)`
abbrev pub time_patch_of : OcrInfoManager → Frame → TimePatch
time_patch_of m frame = record {
  start_time = elim m.start_time [ none ↦ 0 | some t ↦ t ];
  end_time = frame.timestamp;
  min_time_interval = some 3000;
  time_unit = some (text "ms");
}

-- What a card says: the blocks named "name" and "id_card_number".
unfoldable pub card_contents : List TextBlock → Dict Recognised → Dict Recognised
unfolding text_eq
card_contents [] found = found
card_contents (b ∷ bs) found =
    let entry : Recognised = record {
      content = b.content;
      similarity = b.text_confidence;
      best_frame = none;
      bbox = none;
    } in
    let name : Text = elim b.name [ none ↦ [] | some n ↦ n ] in
    card_contents bs (
      if text_eq name (text "name")
      then assign found (text "name") entry
      else if text_eq name (text "id_card_number")
      then assign found (text "card_number") entry
      else found)

abbrev pub stored_contents : Option OcrInfo → Dict Recognised
stored_contents none = []
stored_contents (some info) = elim info.detection_confidence [
  | none ↦ []
  | some _ ↦ card_contents info.text_blocks []
]

-- The counters in _generate, where frames are being tracked: a frame is the thousand of `fps`.
abbrev pub counted_frame : Bool → OcrInfoManager → OcrInfoManager
counted_frame true m = record m { frames_count = m.frames_count + 1; ttl = tolerance m }
counted_frame false m = record m { ttl = m.ttl - 1000 }

abbrev pub is_nonempty : List OcrInfo → Bool
is_nonempty [] = false
is_nonempty (_ ∷ _) = true

module _ ⦃valid : Validator⦄ where
  -- The constructor of OCRTrackingResult, which raises a ValidationError for a box that is refused.
  abbrev pub is_taken : Option (List ℤ) → Bool
  is_taken none = true
  is_taken (some bbox) = valid.accepts bbox

  abbrev pub validated : OcrTrackingResult → Option (Option OcrTrackingResult)
  validated r = if is_taken r.bbox then some (some r) else none

  -- The result for the best match; without one, None.
  unfoldable pub recog_result : OcrInfoManager → Frame → Best → Option (Option OcrTrackingResult)
  recog_result m frame best = elim best.matched_id [
    | none ↦ some none
    | some id ↦ (do
      registered ← get m.expected_contents id
      found ← get m.recognized_contents id
      best_frame ← best.best_frame
      validated (record {
        time_patch = time_patch_of m frame;
        tracking_id = id;
        expected_contents = registered.contents;
        recognized_contents = found;
        frame = best_frame;
        keys = registered.key_fields;
        bbox = best.bbox;
        confidence = some best.max_similarity;
      }))
  ]

  -- _gen_recog_tracking_result: the inner `none` is None
  unfoldable pub gen_recog_tracking_result :
      OcrInfoManager → Frame → Option (Option OcrTrackingResult)
  unfolding best_match recog_result
  gen_recog_tracking_result m frame = do
    best ←
        best_match m.expected_contents m.recognized_contents
          (record { max_similarity = 0; matched_id = none; best_frame = none; bbox = none })
    recog_result m frame best

  -- _gen_detect_tracking_result: the frame must have been stored
  unfoldable pub gen_detect_tracking_result :
      OcrInfoManager → Frame → Option (Option OcrTrackingResult)
  unfolding get_detection_ocr_id card_contents
  gen_detect_tracking_result m frame =
      if m.need_detection
      then (do
        stored_frame ← m.stored_frame
        validated (record {
          time_patch = time_patch_of m frame;
          tracking_id = get_detection_ocr_id (Ids.member m.ocr_type);
          expected_contents = [];
          recognized_contents = stored_contents m.stored_info;
          frame = stored_frame;
          keys = [];
          bbox = m.max_bbox;
          confidence = m.max_confidence;
        }))
      else some none

  -- _gen_tracking_result
  unfoldable pub gen_tracking_result : OcrInfoManager → Frame → Option (Option OcrTrackingResult)
  unfolding gen_recog_tracking_result gen_detect_tracking_result
  gen_tracking_result m frame = do
    recognised ← if m.need_recognition then gen_recog_tracking_result m frame else some none
    elim recognised [ some result ↦ some (some result) | none ↦ gen_detect_tracking_result m frame ]

  -- The end of a span, once the tolerance is used up.
  unfoldable pub finish_frame :
      OcrInfoManager → Frame → Option (Option OcrTrackingResult × OcrInfoManager)
  unfolding gen_tracking_result reinit
  finish_frame m frame =
      if m.ttl == 0
      then (do result ← gen_tracking_result m frame; some (result, reinit m))
      else some (none, m)

  -- _generate
  unfoldable pub generate :
      OcrInfoManager → Bool → Frame → Option (Option OcrTrackingResult × OcrInfoManager)
  unfolding finish_frame
  generate m has_type_match frame =
      if ltb 0 m.frames_count
      then finish_frame (counted_frame has_type_match m) frame
      else if has_type_match
      then some
          (none, record m { start_time = some frame.timestamp; frames_count = m.frames_count + 1 })
      else some (none, m)

  -- process
  unfoldable pub process :
      Distances
      → OcrInfoManager
      → List OcrInfo
      → Frame
      → Option (Option OcrTrackingResult × OcrInfoManager)
  unfolding do_detection do_recognition generate
  process distances m infos frame = do
    (passed, detected) ← do_detection (record m { frame = some frame }) infos frame
    recognised ← do_recognition distances detected passed frame
    generate recognised (is_nonempty passed) frame

  -- What is left to report, where a frame was kept.
  unfoldable pub over_frame : OcrInfoManager → Option Frame → Option (Option OcrTrackingResult)
  unfolding gen_tracking_result
  over_frame m none = some none
  over_frame m (some frame) = gen_tracking_result m frame

  -- over
  unfoldable pub over : OcrInfoManager → Option (Option OcrTrackingResult)
  unfolding over_frame
  over m = if ltb 0 m.frames_count then over_frame m m.frame else some none
