-- ===== src/Worker/Samples/Texts.antt =====
-- A document in a video, the ids that are given, and the theorems on ids and managers at them.
use video_flow.Worker.Ocr.Results.Aligned.{Answers}
use video_flow.Prelude.Dict.{get, Dict}
use video_flow.Prelude.{
  ◌&&◌, ◌==◌, ◌%◌, Bool, inr, arith, refl, inr, true, false, arith, some, none, [], ◌∷◌, ◌≡◌,
  if◌then◌else◌, List, ltb, ℕ, ◌⊎◌, ◌+◌, Option,
}
use video_flow.Prelude.Int.{pos_part, ℤ, pos}
use video_flow.Prelude.Text.{Text, text, text_eq}
use video_flow.Worker.Tracking.{Frame}
use video_flow.Worker.Boxes.{Box, check_box, area, span}
use video_flow.Worker.Boxes.Overlap.{IsLegal}
use video_flow.Worker.Ocr.{calc_text_similarity, Distances, Validator, OcrInfo, doc_ocr_type}
use video_flow.Worker.Ocr.Ids
use video_flow.Worker.Ocr.Ids.{
  OcrIdGenerator, Slot, new_generator, get_ocr_id, slot_of, type_of, get_ocr_type, kind_of,
}
use video_flow.Worker.Ocr.Ids.Numbered.{IsGenerator, IsNew, get_ocr_id-IsGenerator}
use video_flow.Worker.Ocr.Manager.{
  check_ocr_type, OcrInfoManager, new_manager, append_contents, tolerance,
}
use video_flow.Worker.Ocr.Manager
use video_flow.Worker.Ocr.Results.Spans.{IsRunning, span_of}
use video_flow.Worker.Ocr.Results.Frames.{
  process_all, span_run, matches, AreUsable, process_all-spans,
}
use video_flow.Worker.Ocr.Manager.{Expected, append_contents}
use video_flow.Worker.Ocr.Results.Started.{append_contents-IsRunning, new_manager-IsRunning}

new_generator-IsGenerator : IsGenerator new_generator
new_generator-IsGenerator = record {
  id_card_ids = record { numbers = tt; distinct = tt };
  handwriting_ids = record { numbers = tt; distinct = tt };
  doc_ids = record { numbers = tt; distinct = tt };
  employee_card_ids = record { numbers = tt; distinct = tt };
  practicing_certificate_ids = record { numbers = tt; distinct = tt };
}

abbrev title : Text × Text
title = (text "title", text "Contract")

documents_test : kind_of (text "documents") ≡ some Ids.doc
unfolding kind_of text_eq
documents_test = refl

id_test : get_ocr_type (text "v30107") ≡ some doc_ocr_type
unfolding get_ocr_type text_eq
id_test = refl

get_ocr_id-IsGenerator_example :
    (id : Text) × (g' : OcrIdGenerator) × IsGenerator g'
    × (get_ocr_id g' (some (text "documents")) (some (title ∷ [])) ≡ inr ((id, true), g'))
    × (((get (slot_of new_generator Ids.doc).cache (Ids.joined (title ∷ [])) ≡ some id)
          × (get_ocr_id new_generator (some (text "documents")) (some (title ∷ []))
              ≡ inr ((id, true), new_generator))
          × (g' ≡ new_generator))
        ⊎ ((get (slot_of new_generator Ids.doc).cache (Ids.joined (title ∷ [])) ≡ none)
            × (get_ocr_id new_generator (some (text "documents")) (some (title ∷ []))
                ≡ inr ((id, false), g'))
            × IsNew new_generator id
            × (get_ocr_type id ≡ (
                if ltb ((slot_of new_generator Ids.doc).ocr_id + 1) 100
                then some (type_of Ids.doc)
                else none))))
get_ocr_id-IsGenerator_example =
    get_ocr_id-IsGenerator new_generator (text "documents") Ids.doc title [] documents_test
      new_generator-IsGenerator

-- A box of four coordinates that are whole pixels is taken.
instance abbrev whole_pixels : Validator
whole_pixels = record { accepts = λ cs. all_whole cs }
  where
    all_whole : List ℤ → Bool
    all_whole [] = true
    all_whole (c ∷ cs) = (pos_part c % 1000 == 0) && all_whole cs

abbrev paper : OcrInfo
paper = record {
  ocr_type = doc_ocr_type;
  bbox = pos 10000 ∷ pos 20000 ∷ pos 110000 ∷ pos 160000 ∷ [];
  confidence = some 900000;
  text_blocks = [];
  detection_confidence = none;
}

abbrev at_time : ℕ → Frame
at_time t = record { image = 0; timestamp = t }

-- Two frames per second: the tolerance is four frames.
abbrev blank : OcrInfoManager
blank = new_manager Manager.doc doc_ocr_type 2000 (text "nlevenshtein") true true

abbrev contents : Dict Expected
contents = (text "title", record { content = text "Contract"; similarity_threshold = 800000 }) ∷ []

abbrev manager : OcrInfoManager
manager = append_contents blank (text "v30101") contents none

manager-IsRunning : IsRunning manager
manager-IsRunning =
    append_contents-IsRunning blank (text "v30101") contents none
      (new_manager-IsRunning Manager.doc doc_ocr_type 2000 (text "nlevenshtein") true)

abbrev video : List (List OcrInfo × Frame)
video =
    ([], at_time 0)
    ∷ (paper ∷ [], at_time 500)
    ∷ ([], at_time 1000)
    ∷ (paper ∷ [], at_time 1500)
    ∷ ([], at_time 2000)
    ∷ ([], at_time 2500)
    ∷ ([], at_time 3000)
    ∷ ([], at_time 3500)
    ∷ []

-- Texts that are never similar.
abbrev never : Distances
never = record { jaccard = λ a b. some 0; nlevenshtein = λ a b. some 0 }

manager-Answers : Answers (calc_text_similarity never manager.method)
unfolding calc_text_similarity append_contents new_manager text_eq
manager-Answers a b = (0, refl, tt)

abbrev answers : Option (List (Option (ℕ × ℕ)) × OcrInfoManager) → List (Option (ℕ × ℕ))
answers none = []
answers (some (results, last)) = results

video_test :
    answers (process_all never manager video)
    ≡ none ∷ none ∷ none ∷ none ∷ none ∷ none ∷ none ∷ some (500, 3500) ∷ []
unfolding process_all new_manager append_contents text_eq check_box area span
video_test = refl

abbrev paper_box : Box
paper_box = record { x1 = pos 10000; y1 = pos 20000; x2 = pos 110000; y2 = pos 160000 }

paper-IsLegal : IsLegal paper_box
paper-IsLegal = record {
  across = omega arith;
  down = omega arith;
  x_nonneg = omega arith;
  y_nonneg = omega arith;
}

video-AreUsable : AreUsable manager video
unfolding append_contents new_manager check_ocr_type text_eq
video-AreUsable = (
  tt,
  (
    (((paper_box, refl, paper-IsLegal), tt, refl, tt), tt),
    (tt, ((((paper_box, refl, paper-IsLegal), tt, refl, tt), tt), (tt, (tt, (tt, (tt, tt)))))),
  ),
)

process_all-spans_example :
    (results : List (Option (ℕ × ℕ))) × (last : OcrInfoManager) × (process_all never manager video
      ≡ some (results, last))
    × IsRunning last
    × ((results, span_of last)
        ≡ span_run (tolerance manager) (matches manager video) (span_of manager))
process_all-spans_example =
    process_all-spans never manager video manager-Answers manager-IsRunning video-AreUsable

append_contents-IsRunning_example :
    IsRunning (append_contents manager (text "v30102") contents (some (text "title" ∷ [])))
append_contents-IsRunning_example =
    append_contents-IsRunning manager (text "v30102") contents (some (text "title" ∷ []))
      manager-IsRunning
