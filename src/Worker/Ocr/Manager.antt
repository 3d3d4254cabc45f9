-- ===== src/Worker/Ocr/Manager.antt =====
-- applications/modules/common/ocr/ocr_info_manager.py: the state of an OCRInfoManager, what is registered
-- with it, and how a frame changes it. `none` stands for an exception. Areas are counted in halves of a
-- millionth of a pixel, similarities and confidences in millionths, and frames per second in thousandths.
use video_flow.Prelude.{
  ℕ, ◌*◌, ◌==◌, ltb, Bool, true, false, not, ◌&&◌, ◌||◌, Option, none, some, List, [], ◌∷◌,
  if◌then◌else◌, length, map, select,
}
use video_flow.Prelude.Int.{ℤ, pos, pos_part, ◌+ℤ◌, ◌-ℤ◌, ltb_ℤ}
use video_flow.Prelude.Text.{Text, text_eq}
use video_flow.Prelude.Dict.{Dict, assign, keys, member}
use video_flow.Prelude.Partial.{◌>>=◌, ◌>>◌}
use video_flow.Worker.Boxes.{Box, check_box}
use video_flow.Worker.Tracking.{Frame}
use video_flow.Worker.Ocr.{OcrInfoType, OcrInfo, TextBlock, same_type, doubled_area}
use video_flow.Worker.Ocr.Ids
use video_flow.Worker.Ocr.Ids.{is_ocr_type_match}

-- OCRInfoManager itself, DocOCRInfoManager and IDCardOCRInfoManager
pub data Variant : Type 0 where
  base : Variant
  doc : Variant
  id_card : Variant

-- A text to be recognised, and the best that was recognised for it.
pub record Expected : Type 0 where
  pub content : Text
  pub similarity_threshold : ℕ

pub record Recognised : Type 0 where
  pub content : Text
  pub similarity : ℕ
  pub best_frame : Option Frame
  pub bbox : Option (List ℤ)

pub record Registered : Type 0 where
  pub contents : Dict Expected
  pub key_fields : List Text

pub record OcrInfoManager : Type 0 where
  pub variant : Variant
  pub ocr_type : OcrInfoType
  pub fps : ℕ
  pub method : Text
  pub need_recognition : Bool
  pub need_detection : Bool
  pub expected_contents : Dict Registered
  pub recognized_contents : Dict (Dict Recognised)
  pub frame : Option Frame
  pub frames_count : ℕ
  pub ttl : ℕ
  pub start_time : Option ℕ
  pub max_area : ℕ
  pub max_confidence : Option ℕ
  pub max_bbox : Option (List ℤ)
  pub stored_info : Option OcrInfo
  pub stored_frame : Option Frame

-- `2 * self.fps`, in thousandths of a frame
abbrev pub tolerance : OcrInfoManager → ℕ
tolerance m = 2 * m.fps

abbrev pub nothing_recognised : Recognised
nothing_recognised = record { content = []; similarity = 0; best_frame = none; bbox = none }

abbrev pub cleared : Dict Recognised → Dict Recognised
cleared contents = map (λ e. (e.0, nothing_recognised)) contents

-- _reinit
unfoldable pub reinit : OcrInfoManager → OcrInfoManager
reinit m = record m {
  frame = none;
  frames_count = 0;
  ttl = tolerance m;
  start_time = none;
  max_area = 0;
  max_confidence = some 0;
  max_bbox = none;
  stored_info = none;
  stored_frame = none;
  recognized_contents = map (λ e. (e.0, cleared e.1)) m.recognized_contents;
}

-- What __init__ sets before _reinit.
abbrev pub blank_manager : Variant → OcrInfoType → ℕ → Text → Bool → Bool → OcrInfoManager
blank_manager variant ocr_type fps method need_detection need_recognition = record {
  variant = variant;
  ocr_type = ocr_type;
  fps = fps;
  method = method;
  need_recognition = need_recognition;
  need_detection = if need_recognition then true else need_detection;
  expected_contents = [];
  recognized_contents = [];
  frame = none;
  frames_count = 0;
  ttl = 0;
  start_time = none;
  max_area = 0;
  max_confidence = none;
  max_bbox = none;
  stored_info = none;
  stored_frame = none;
}

-- __init__
unfoldable pub new_manager : Variant → OcrInfoType → ℕ → Text → Bool → Bool → OcrInfoManager
unfolding reinit
new_manager variant ocr_type fps method need_detection need_recognition =
    reinit (blank_manager variant ocr_type fps method need_detection need_recognition)

-- What append_contents registers.
abbrev pub registered : OcrInfoManager → Text → Dict Expected → Option (List Text) → OcrInfoManager
registered m tracking_id ocr_contents key_fields = record m {
  expected_contents = assign m.expected_contents tracking_id (record {
    contents = ocr_contents;
    key_fields = elim key_fields [ none ↦ keys ocr_contents | some fs ↦ fs ];
  });
  recognized_contents =
      assign m.recognized_contents tracking_id (map (λ e. (e.0, nothing_recognised)) ocr_contents);
}

-- append_contents: `none` for key_fields stands for what is no list
unfoldable pub append_contents :
    OcrInfoManager → Text → Dict Expected → Option (List Text) → OcrInfoManager
unfolding is_ocr_type_match
append_contents m tracking_id ocr_contents key_fields =
    if not (is_ocr_type_match tracking_id (Ids.member m.ocr_type))
    then m
    else if member (keys m.expected_contents) tracking_id
    then m
    else if length ocr_contents == 0
    then m
    else registered m tracking_id ocr_contents key_fields

abbrev pub any_match : OcrInfoType → List Text → Bool
any_match ocr_type [] = false
any_match ocr_type (id ∷ ids) = is_ocr_type_match id (Ids.member ocr_type) || any_match ocr_type ids

-- _check_ocr_type
unfoldable pub check_ocr_type : OcrInfoManager → OcrInfo → Bool
unfolding is_ocr_type_match text_eq
check_ocr_type m info =
    any_match info.ocr_type (keys m.expected_contents)
    || (m.need_detection && same_type info.ocr_type m.ocr_type)

abbrev pub box_of : List ℤ → Option Box
box_of (a ∷ b ∷ c ∷ d ∷ []) = some (record { x1 = a; y1 = b; x2 = c; y2 = d })
box_of _ = none

-- The loop over the text blocks in _get_bbox.
unfoldable pub largest_block : Option (List ℤ) → ℕ → List TextBlock → Option (List ℤ) × ℕ
unfolding doubled_area
largest_block bbox bbox_area [] = (bbox, bbox_area)
largest_block bbox bbox_area (b ∷ bs) =
    let text_area = doubled_area b.polygon in
    if ltb_ℤ (pos bbox_area) text_area
    then largest_block (some b.polygon) (pos_part text_area) bs
    else largest_block bbox bbox_area bs

-- calc_box_area on floats: `b - a + 1`, and the product of the two sides
abbrev pub side_length : ℤ → ℤ → ℕ
side_length a b = pos_part (b -ℤ a +ℤ pos 1000)

abbrev pub box_area : Box → Option ℕ
box_area b = do check_box b; some (2 * (side_length b.x1 b.x2 * side_length b.y1 b.y2))

-- _get_bbox
unfoldable pub get_bbox : OcrInfo → Option (Option (List ℤ) × ℕ)
unfolding check_box largest_block
get_bbox info = elim info.bbox [
  | [] ↦ some (largest_block none 200000 info.text_blocks)
  | c ∷ cs ↦ do box ← box_of (c ∷ cs); area ← box_area box; some (some (c ∷ cs), area)
]

abbrev pub stored :
    OcrInfoManager → OcrInfo → Frame → Option (List ℤ) → ℕ → Option ℕ → OcrInfoManager
stored m info frame bbox bbox_area confidence = record m {
  max_area = bbox_area;
  max_confidence = confidence;
  max_bbox = bbox;
  stored_info = some info;
  stored_frame = some frame;
}

-- The confidence that IDCardOCRInfoManager compares: an attribute that is not there raises, and None
-- cannot be compared.
abbrev pub card_confidence : OcrInfo → Option ℕ
card_confidence info = do
  confidence ← info.confidence
  if confidence == 0 then (do given ← info.detection_confidence; given) else some confidence

-- What is compared to update the history: the confidence of a card, and otherwise the area.
unfoldable pub update_history :
    Variant → OcrInfoManager → OcrInfo → Frame → Option (List ℤ) → ℕ → Option OcrInfoManager
update_history id_card m info frame bbox bbox_area = do
  confidence ← card_confidence info
  most ← m.max_confidence
  some (if ltb most confidence then stored m info frame bbox bbox_area (some confidence) else m)
update_history _ m info frame bbox bbox_area =
    some
      (if ltb m.max_area bbox_area then stored m info frame bbox bbox_area info.confidence else m)

-- One round of the loop that updates the history.
unfoldable pub detected : OcrInfoManager → OcrInfo → Frame → Option OcrInfoManager
unfolding get_bbox update_history
detected m info frame = do
  (bbox, bbox_area) ← get_bbox info
  update_history m.variant m info frame bbox bbox_area

unfoldable pub detected_all : OcrInfoManager → List OcrInfo → Frame → Option OcrInfoManager
unfolding detected
detected_all m [] frame = some m
detected_all m (info ∷ infos) frame = do next ← detected m info frame; detected_all next infos frame

-- do_detection
unfoldable pub do_detection :
    OcrInfoManager → List OcrInfo → Frame → Option (List OcrInfo × OcrInfoManager)
unfolding check_ocr_type detected_all
do_detection m infos frame =
    if m.need_detection
    then (do
      let passed = select (check_ocr_type m) infos
      next ← detected_all m passed frame
      some (passed, next))
    else some ([], m)
