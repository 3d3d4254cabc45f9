-- ===== src/Worker/Ocr.antt =====
-- domain/entities/service/ocr.py: what the recognition of texts finds in a frame.
pub mod Ids
pub mod Manager
pub mod Recognition
pub mod Results
use video_flow.Prelude.{
  ℕ, ◌*◌, Bool, true, false, Option, none, some, List, [], ◌∷◌, ◌++◌, if◌then◌else◌,
}
use video_flow.Prelude.Int.{ℤ, pos, ◌+ℤ◌, ◌-ℤ◌, ◌*ℤ◌}
use video_flow.Prelude.Text.{Text, text, text_eq}

pub data OcrInfoType : Type 0 where
  base_ocr_type : OcrInfoType
  doc_ocr_type : OcrInfoType
  handwriting_ocr_type : OcrInfoType
  id_card_ocr_type : OcrInfoType
  employee_card_ocr_type : OcrInfoType
  practicing_certificate_ocr_type : OcrInfoType
  general_ocr_type : OcrInfoType

-- `ocr_type.value`
abbrev pub value : OcrInfoType → Text
value base_ocr_type = text "300"
value doc_ocr_type = text "301"
value handwriting_ocr_type = text "302"
value id_card_ocr_type = text "303"
value employee_card_ocr_type = text "304"
value practicing_certificate_ocr_type = text "305"
value general_ocr_type = text "306"

-- The members of the enumeration in their order.
abbrev pub all_types : List OcrInfoType
all_types =
    base_ocr_type ∷ doc_ocr_type ∷ handwriting_ocr_type ∷ id_card_ocr_type ∷ employee_card_ocr_type
    ∷ practicing_certificate_ocr_type ∷ general_ocr_type ∷ []

-- `==` on the members
abbrev pub same_type : OcrInfoType → OcrInfoType → Bool
same_type a b = text_eq (value a) (value b)

-- get_ocr_info_name of a member or of None
unfoldable pub get_ocr_info_name : Option OcrInfoType → Text
get_ocr_info_name (some doc_ocr_type) = text "document"
get_ocr_info_name (some id_card_ocr_type) = text "id_card"
get_ocr_info_name (some employee_card_ocr_type) = text "employee_card"
get_ocr_info_name (some practicing_certificate_ocr_type) = text "practicing_certificate"
get_ocr_info_name (some handwriting_ocr_type) = text "handwriting"
get_ocr_info_name _ = []

-- pydantic's validation of a box as `list[int]`: whether a list of coordinates is taken. A fractional
-- coordinate is not.
pub record Validator : Type 0 where
  pub accepts : List ℤ → Bool

-- The similarities of two texts that the package distance offers, `none` where one raises.
pub record Distances : Type 0 where
  pub jaccard : Text → Text → Option ℕ
  pub nlevenshtein : Text → Text → Option ℕ

-- calc_text_similarity of shared/utils: an unknown method raises KeyError
unfoldable pub calc_text_similarity : Distances → Text → Text → Text → Option ℕ
unfolding text_eq
calc_text_similarity d method s1 s2 =
    if text_eq method (text "jaccard")
    then d.jaccard s1 s2
    else if text_eq method (text "nlevenshtein")
    then d.nlevenshtein s1 s2
    else none

-- A polygon is its coordinates, x and y in turn. Coordinates of boxes and polygons, floats in the
-- source, are counted in thousandths of a pixel.
pub record TextBlock : Type 0 where
  pub content : Text
  pub polygon : List ℤ
  pub text_confidence : ℕ
  pub name : Option Text

-- `detection_confidence` is there for an IDCardOCRInfo, and `none` inside is None.
pub record OcrInfo : Type 0 where
  pub ocr_type : OcrInfoType
  pub bbox : List ℤ
  pub confidence : Option ℕ
  pub text_blocks : List TextBlock
  pub detection_confidence : Option (Option ℕ)

-- The corners of a polygon, from one on, and back to the first.
unfoldable pub shoelace : ℤ → ℤ → ℤ → ℤ → List ℤ → ℤ
unfolding ◌+ℤ◌ ◌-ℤ◌ ◌*ℤ◌
shoelace x0 y0 x y (x' ∷ y' ∷ rest) = x *ℤ y' -ℤ x' *ℤ y +ℤ shoelace x0 y0 x' y' rest
shoelace x0 y0 x y _ = x *ℤ y0 -ℤ x0 *ℤ y

-- text_area, doubled
unfoldable pub doubled_area : List ℤ → ℤ
unfolding shoelace
doubled_area (x ∷ y ∷ rest) = shoelace x y x y rest
doubled_area _ = pos 0
