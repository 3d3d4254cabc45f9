-- ===== src/Worker/Ocr/Recognition.antt =====
-- ocr_info_manager.py: recognition, which keeps the most similar text for each expected one.
use video_flow.Prelude.{ℕ, ◌-◌, ◌==◌, ltb, Option, some, List, [], ◌∷◌, if◌then◌else◌, length, drop}
use video_flow.Prelude.Text.{Text}
use video_flow.Prelude.Dict.{Dict, get, assign}
use video_flow.Prelude.Partial.{◌>>=◌}
use video_flow.Worker.Tracking.{Frame}
use video_flow.Worker.Ocr.{OcrInfo, TextBlock, Distances, calc_text_similarity}
use video_flow.Worker.Ocr.Manager.{Variant, doc, Expected, Recognised, Registered, OcrInfoManager}

-- calc_text_similarity with the method of a manager
abbrev pub Similarity : Type 0
Similarity = Text → Text → Option ℕ

-- What is compared: DocOCRInfoManager takes the last characters, as many as are expected (all, where
-- none are: `[-0:]`).
abbrev pub compared : Variant → Text → Text → Text
compared doc expected found =
    if ltb (length expected) (length found)
    then (if length expected == 0 then found else drop (length found - length expected) found)
    else found
compared _ expected found = found

-- One round of the loop of _recogition_text.
abbrev pub better_text :
    Similarity → Variant → Text → OcrInfo → Frame → TextBlock → Recognised → Option Recognised
better_text similar variant expected info frame block best = do
  similarity ← similar expected (compared variant expected block.content)
  some (
      if ltb best.similarity similarity
      then record {
        content = block.content;
        similarity = similarity;
        best_frame = some frame;
        bbox = some info.bbox;
      }
      else best)

module _ (similar : Similarity) where
  -- _recogition_text, on the recognised text
  unfoldable pub recogition_text :
      Variant → Text → OcrInfo → Frame → List TextBlock → Recognised → Option Recognised
  recogition_text variant expected info frame [] best = some best
  recogition_text variant expected info frame (b ∷ bs) best = do
    better ← better_text similar variant expected info frame b best
    recogition_text variant expected info frame bs better

  -- The fields of one tracking id; a field that is not there raises.
  unfoldable pub recognise_fields :
      Variant → OcrInfo → Frame → Dict Expected → Dict Recognised → Option (Dict Recognised)
  unfolding recogition_text
  recognise_fields variant info frame [] found = some found
  recognise_fields variant info frame ((field, e) ∷ es) found = do
    best ← get found field
    better ← recogition_text variant e.content info frame info.text_blocks best
    recognise_fields variant info frame es (assign found field better)

  unfoldable pub recognise_ids :
      Variant
      → OcrInfo
      → Frame
      → Dict Registered
      → Dict (Dict Recognised)
      → Option (Dict (Dict Recognised))
  unfolding recognise_fields
  recognise_ids variant info frame [] found = some found
  recognise_ids variant info frame ((id, r) ∷ rs) found = do
    contents ← get found id
    next ← recognise_fields variant info frame r.contents contents
    recognise_ids variant info frame rs (assign found id next)

  unfoldable pub recognise_infos :
      Variant
      → Dict Registered
      → List OcrInfo
      → Frame
      → Dict (Dict Recognised)
      → Option (Dict (Dict Recognised))
  unfolding recognise_ids
  recognise_infos variant expected [] frame found = some found
  recognise_infos variant expected (info ∷ infos) frame found = do
    next ← recognise_ids variant info frame expected found
    recognise_infos variant expected infos frame next

-- do_recognition
unfoldable pub do_recognition :
    Distances → OcrInfoManager → List OcrInfo → Frame → Option OcrInfoManager
unfolding recognise_infos calc_text_similarity
do_recognition distances m infos frame = do
  found ←
      if m.need_recognition
      then recognise_infos (calc_text_similarity distances m.method) m.variant m.expected_contents
          infos frame m.recognized_contents
      else some m.recognized_contents
  some (record m { recognized_contents = found })
