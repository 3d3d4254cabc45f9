-- ===== src/Worker/Ocr/Ids.antt =====
-- applications/modules/common/ocr/ocr_id_generator.py: the ids of recognised things, and what an id
-- says of its type. An error that the source raises is a value of `Refusal`.
pub mod Printed
pub mod Numbered
use video_flow.Prelude.{
  ℕ, ◌+◌, ◌==◌, Bool, true, false, not, ◌||◌, Option, none, some, List, [], ◌∷◌, ◌++◌,
  if◌then◌else◌, length, take, map, ◌⊎◌, inl, inr,
}
use video_flow.Prelude.Text.{Text, text, text_eq}
use video_flow.Prelude.Dict.{Dict, get, assign}
use video_flow.Prelude.Decimal.{padded}
use video_flow.Worker.Ocr.{
  OcrInfoType, base_ocr_type, doc_ocr_type, handwriting_ocr_type, id_card_ocr_type,
  employee_card_ocr_type, practicing_certificate_ocr_type, general_ocr_type, value, all_types,
  get_ocr_info_name,
}

-- The types that ids are made for, each with its counter and its cache.
pub data Kind : Type 0 where
  id_card : Kind
  handwriting : Kind
  doc : Kind
  employee_card : Kind
  practicing_certificate : Kind

pub record Slot : Type 0 where
  pub ocr_id : ℕ
  pub cache : Dict Text

pub record OcrIdGenerator : Type 0 where
  pub id_card_slot : Slot
  pub handwriting_slot : Slot
  pub doc_slot : Slot
  pub employee_card_slot : Slot
  pub practicing_certificate_slot : Slot

abbrev pub empty_slot : Slot
empty_slot = record { ocr_id = 0; cache = [] }

-- __init__
abbrev pub new_generator : OcrIdGenerator
new_generator = record {
  id_card_slot = empty_slot;
  handwriting_slot = empty_slot;
  doc_slot = empty_slot;
  employee_card_slot = empty_slot;
  practicing_certificate_slot = empty_slot;
}

abbrev pub type_of : Kind → OcrInfoType
type_of id_card = id_card_ocr_type
type_of handwriting = handwriting_ocr_type
type_of doc = doc_ocr_type
type_of employee_card = employee_card_ocr_type
type_of practicing_certificate = practicing_certificate_ocr_type

-- `getattr(self, ocr_type + "_prefix")`
abbrev pub prefix_of : Kind → Text
prefix_of k = text "v" ++ value (type_of k)

abbrev pub slot_of : OcrIdGenerator → Kind → Slot
slot_of g id_card = g.id_card_slot
slot_of g handwriting = g.handwriting_slot
slot_of g doc = g.doc_slot
slot_of g employee_card = g.employee_card_slot
slot_of g practicing_certificate = g.practicing_certificate_slot

abbrev pub with_slot : OcrIdGenerator → Kind → Slot → OcrIdGenerator
with_slot g id_card s = record g { id_card_slot = s }
with_slot g handwriting s = record g { handwriting_slot = s }
with_slot g doc s = record g { doc_slot = s }
with_slot g employee_card s = record g { employee_card_slot = s }
with_slot g practicing_certificate s = record g { practicing_certificate_slot = s }

-- ocr_mapper
unfoldable pub kind_of : Text → Option Kind
unfolding text_eq
kind_of field =
    if text_eq field (text "documents")
    then some doc
    else if text_eq field (text "id_card")
    then some id_card
    else if text_eq field (text "employee_card")
    then some employee_card
    else if text_eq field (text "practicing_certificate")
    then some practicing_certificate
    else if text_eq field (text "sign")
    then some handwriting
    else none

pub data Refusal : Type 0 where
  type_error : Refusal
  value_error : Refusal

-- `content_fileds`: the texts of the contents, one behind the other
abbrev pub joined : Dict Text → Text
joined [] = []
joined ((field, t) ∷ contents) = t ++ joined contents

-- The id for the texts, whether it was there, and the slot behind it.
unfoldable pub numbered : Kind → Text → Slot → (Text × Bool) × Slot
unfolding padded
numbered k texts s = elim (get s.cache texts) [
  | some tracking_id ↦ ((tracking_id, true), s)
  | none ↦
      let ocr_id = s.ocr_id + 1 in
      let tracking_id = prefix_of k ++ padded 2 ocr_id in
      ((tracking_id, false), record { ocr_id = ocr_id; cache = assign s.cache texts tracking_id })
]

abbrev pub get_kind_id : OcrIdGenerator → Kind → Dict Text → (Text × Bool) × OcrIdGenerator
get_kind_id g k contents =
    let (answer, s) = numbered k (joined contents) (slot_of g k) in (answer, with_slot g k s)

-- get_ocr_id: `none` stands for a field that is no string, and for contents that are no dictionary
unfoldable pub get_ocr_id :
    OcrIdGenerator → Option Text → Option (Dict Text) → Refusal ⊎ ((Text × Bool) × OcrIdGenerator)
unfolding kind_of numbered
get_ocr_id g none contents = inl type_error
get_ocr_id g (some field) contents = elim (kind_of field) [
  | none ↦ inl value_error
  | some k ↦ elim contents [
    | none ↦ inl type_error
    | some [] ↦ inl value_error
    | some (c ∷ cs) ↦ inr (get_kind_id g k (c ∷ cs))
  ]
]

-- The argument `OCRInfoType | str` of the checks.
pub data TypeArgument : Type 0 where
  member : OcrInfoType → TypeArgument
  string : Text → TypeArgument

-- get_detection_ocr_id
unfoldable pub get_detection_ocr_id : TypeArgument → Text
get_detection_ocr_id (member ocr_type) = text "v" ++ value ocr_type ++ text "xx"
get_detection_ocr_id (string ocr_type) = text "v" ++ ocr_type ++ text "xx"

abbrev pub prefix_matches : Text → TypeArgument → Bool
prefix_matches p (member ocr_type) = text_eq p (text "v" ++ value ocr_type)
prefix_matches p (string ocr_type) = text_eq p ocr_type

-- is_ocr_type_match
unfoldable pub is_ocr_type_match : Text → TypeArgument → Bool
unfolding text_eq
is_ocr_type_match tracking_id ocr_type =
    if length tracking_id == 6 then prefix_matches (take 4 tracking_id) ocr_type else false

-- is_ocr_type_correct
unfoldable pub is_ocr_type_correct : Text → List OcrInfoType → Bool
unfolding is_ocr_type_match
is_ocr_type_correct tracking_id [] = false
is_ocr_type_correct tracking_id (t ∷ ts) =
    is_ocr_type_match tracking_id (member t) || is_ocr_type_correct tracking_id ts

abbrev pub first_type : Text → List OcrInfoType → Option OcrInfoType
first_type tracking_id [] = none
first_type tracking_id (t ∷ ts) =
    if is_ocr_type_match tracking_id (member t) then some t else first_type tracking_id ts

-- get_ocr_type
unfoldable pub get_ocr_type : Text → Option OcrInfoType
unfolding is_ocr_type_match
get_ocr_type tracking_id = first_type tracking_id all_types

-- get_ocr_name
unfoldable pub get_ocr_name : Text → Text
unfolding get_ocr_type get_ocr_info_name
get_ocr_name tracking_id = get_ocr_info_name (get_ocr_type tracking_id)
