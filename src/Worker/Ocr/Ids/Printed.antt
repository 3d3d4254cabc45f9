-- ===== src/Worker/Ocr/Ids/Printed.antt =====
-- What a printed id says of its type.
use video_flow.Prelude.Decimal.{padded}
use video_flow.Prelude.Decimal.{length-padded_short, length-padded_long}
use video_flow.Prelude.Text.{text, text_eq, Text}
use video_flow.Worker.Ocr.{
  practicing_certificate_ocr_type, employee_card_ocr_type, doc_ocr_type, handwriting_ocr_type,
  value, all_types, OcrInfoType,
}
use video_flow.Worker.Ocr.Ids.{
  member, id_card, practicing_certificate, employee_card, doc, first_type, type_of, handwriting,
  prefix_of, is_ocr_type_match, Kind, get_ocr_type,
}
use video_flow.Prelude.{
  Option, drop, take, ◌≡◌, length, List, ℕ, refl, sym, ap, false, arith, [], ◌∷◌, ◌∙◌, ◌+◌, ◌++◌,
  ◌==◌, ◌≤◌, ◌<◌, some, none, if◌then◌else◌,
}

id_of : Kind → ℕ → Text
id_of k n = prefix_of k ++ padded 2 n

pub length-prefix_of : (k : Kind) (s : Text) → length (prefix_of k ++ s) ≡ 4 + length s
length-prefix_of id_card s = omega arith
length-prefix_of handwriting s = omega arith
length-prefix_of doc s = omega arith
length-prefix_of employee_card s = omega arith
length-prefix_of practicing_certificate s = omega arith

pub take-prefix_of : (k : Kind) (s : Text) → take 4 (prefix_of k ++ s) ≡ prefix_of k
take-prefix_of id_card s = refl
take-prefix_of handwriting s = refl
take-prefix_of doc s = refl
take-prefix_of employee_card s = refl
take-prefix_of practicing_certificate s = refl

pub drop-prefix_of : (k : Kind) (s : Text) → drop 4 (prefix_of k ++ s) ≡ s
drop-prefix_of id_card s = refl
drop-prefix_of handwriting s = refl
drop-prefix_of doc s = refl
drop-prefix_of employee_card s = refl
drop-prefix_of practicing_certificate s = refl

-- The first of the types that a prefix of four characters names.
abbrev pub prefix_type : Text → List OcrInfoType → Option OcrInfoType
prefix_type p [] = none
prefix_type p (t ∷ ts) = if text_eq p (text "v" ++ value t) then some t else prefix_type p ts

pub prefix_type-prefix_of : (k : Kind) → prefix_type (prefix_of k) all_types ≡ some (type_of k)
unfolding text_eq
prefix_type-prefix_of id_card = refl
prefix_type-prefix_of handwriting = refl
prefix_type-prefix_of doc = refl
prefix_type-prefix_of employee_card = refl
prefix_type-prefix_of practicing_certificate = refl

match-short :
    (k : Kind) (s : Text) (t : OcrInfoType)
    → length s ≡ 2
    → is_ocr_type_match (prefix_of k ++ s) (member t) ≡ text_eq (prefix_of k) (text "v" ++ value t)
unfolding is_ocr_type_match text_eq
match-short id_card s t h = rw h refl
match-short handwriting s t h = rw h refl
match-short doc s t h = rw h refl
match-short employee_card s t h = rw h refl
match-short practicing_certificate s t h = rw h refl

first_type-short :
    (k : Kind) (s : Text) (ts : List OcrInfoType)
    → length s ≡ 2
    → first_type (prefix_of k ++ s) ts ≡ prefix_type (prefix_of k) ts
first_type-short k s [] h = refl
first_type-short k s (t ∷ ts) h = rw (match-short k s t h, first_type-short k s ts h) refl

first_type-long :
    (k : Kind) (s : Text) (ts : List OcrInfoType)
    → 2 < length s
    → first_type (prefix_of k ++ s) ts ≡ none
unfolding is_ocr_type_match
first_type-long k s [] h = refl
first_type-long k s (t ∷ ts) h =
    let e : (length (prefix_of k ++ s) == 6) ≡ false = ground (arith, length-prefix_of k s) in
    rw (e) (first_type-long k s ts h)

pub get_ocr_type-short :
    (k : Kind) (n : ℕ) → n < 100 → get_ocr_type (prefix_of k ++ padded 2 n) ≡ some (type_of k)
unfolding get_ocr_type
get_ocr_type-short k n h =
    first_type-short k (padded 2 n) all_types (length-padded_short n h) ∙ prefix_type-prefix_of k

pub get_ocr_type-long :
    (k : Kind) (n : ℕ) → 100 ≤ n → get_ocr_type (prefix_of k ++ padded 2 n) ≡ none
unfolding get_ocr_type
get_ocr_type-long k n h = first_type-long k (padded 2 n) all_types (length-padded_long n h)

abbrev kind_from : OcrInfoType → Kind
kind_from handwriting_ocr_type = handwriting
kind_from doc_ocr_type = doc
kind_from employee_card_ocr_type = employee_card
kind_from practicing_certificate_ocr_type = practicing_certificate
kind_from _ = id_card

kind_from-type_of : (k : Kind) → kind_from (type_of k) ≡ k
kind_from-type_of id_card = refl
kind_from-type_of handwriting = refl
kind_from-type_of doc = refl
kind_from-type_of employee_card = refl
kind_from-type_of practicing_certificate = refl

some-inj : (s t : OcrInfoType) → some s ≡ some t → s ≡ t
some-inj s t e = cc e

pub prefix_of-inj : (j k : Kind) → prefix_of j ≡ prefix_of k → j ≡ k
prefix_of-inj j k e =
    let same = some-inj (type_of j) (type_of k) (
      sym (prefix_type-prefix_of j)
      ∙ ap (λ p. prefix_type p all_types) e
      ∙ prefix_type-prefix_of k) in
    sym (kind_from-type_of j) ∙ ap kind_from same ∙ kind_from-type_of k
