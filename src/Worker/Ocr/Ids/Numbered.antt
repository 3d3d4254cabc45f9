-- ===== src/Worker/Ocr/Ids/Numbered.antt =====
-- The generator gives one id to one text and no id to two, and what its ids say of their types.
use video_flow.Prelude.Decimal.{padded}
use mathlib.Core.List.{map-append}
use video_flow.Prelude.Decimal.{padded-inj}
use video_flow.Worker.Ocr.Ids.Printed.{
  get_ocr_type-long, get_ocr_type-short, drop-prefix_of, take-prefix_of, prefix_of-inj,
}
use video_flow.Worker.Ocr.Ids.{
  joined, get_kind_id, kind_of, get_ocr_id, type_of, get_ocr_type, numbered, practicing_certificate,
  employee_card, prefix_of, doc, handwriting, id_card, with_slot, Slot, slot_of, Kind,
  OcrIdGenerator,
}
use video_flow.Prelude.Dict.{
  get-assign, Distinct-append, assign-new, text_eq_ne, keys, values, assign, get, Dict,
}
use video_flow.Prelude.Text.{text_eq, Text}
use video_flow.Prelude.{
  ltb→lt, ltb, All-weaken, All-append, drop, take, ◌≡◌, ℕ, refl, sym, ap, inl, inr, true, false,
  arith, Bool-cases, Option-cases, [], ◌∷◌, ◌∙◌, ◌+◌, ◌++◌, ◌≤◌, ◌<◌, ◌≢◌, ◌⊎◌, some, none,
  if◌then◌else◌, All, Distinct,
}

-- An id of the kind, with a number that the counter has passed.
abbrev pub IsNumber : Kind → ℕ → Text → Type 0
IsNumber k ocr_id v = (n : ℕ) × (0 < n) × (n ≤ ocr_id) × (v ≡ prefix_of k ++ padded 2 n)

pub record IsSlot (k : Kind) (s : Slot) : Type 0 where
  pub numbers : All (IsNumber k s.ocr_id) (values s.cache)
  pub distinct : Distinct (values s.cache)

-- In every cache: ids of its kind, up to its counter, and no id twice.
pub record IsGenerator (g : OcrIdGenerator) : Type 0 where
  pub id_card_ids : IsSlot id_card g.id_card_slot
  pub handwriting_ids : IsSlot handwriting g.handwriting_slot
  pub doc_ids : IsSlot doc g.doc_slot
  pub employee_card_ids : IsSlot employee_card g.employee_card_slot
  pub practicing_certificate_ids : IsSlot practicing_certificate g.practicing_certificate_slot

slot_of-IsSlot : (g : OcrIdGenerator) (k : Kind) → IsGenerator g → IsSlot k (slot_of g k)
slot_of-IsSlot g id_card h = h.id_card_ids
slot_of-IsSlot g handwriting h = h.handwriting_ids
slot_of-IsSlot g doc h = h.doc_ids
slot_of-IsSlot g employee_card h = h.employee_card_ids
slot_of-IsSlot g practicing_certificate h = h.practicing_certificate_ids

with_slot-IsGenerator :
    (g : OcrIdGenerator) (k : Kind) (s : Slot)
    → IsGenerator g
    → IsSlot k s
    → IsGenerator (with_slot g k s)
with_slot-IsGenerator g id_card s h i = record {
  id_card_ids = i;
  handwriting_ids = h.handwriting_ids;
  doc_ids = h.doc_ids;
  employee_card_ids = h.employee_card_ids;
  practicing_certificate_ids = h.practicing_certificate_ids;
}
with_slot-IsGenerator g handwriting s h i = record {
  id_card_ids = h.id_card_ids;
  handwriting_ids = i;
  doc_ids = h.doc_ids;
  employee_card_ids = h.employee_card_ids;
  practicing_certificate_ids = h.practicing_certificate_ids;
}
with_slot-IsGenerator g doc s h i = record {
  id_card_ids = h.id_card_ids;
  handwriting_ids = h.handwriting_ids;
  doc_ids = i;
  employee_card_ids = h.employee_card_ids;
  practicing_certificate_ids = h.practicing_certificate_ids;
}
with_slot-IsGenerator g employee_card s h i = record {
  id_card_ids = h.id_card_ids;
  handwriting_ids = h.handwriting_ids;
  doc_ids = h.doc_ids;
  employee_card_ids = i;
  practicing_certificate_ids = h.practicing_certificate_ids;
}
with_slot-IsGenerator g practicing_certificate s h i = record {
  id_card_ids = h.id_card_ids;
  handwriting_ids = h.handwriting_ids;
  doc_ids = h.doc_ids;
  employee_card_ids = h.employee_card_ids;
  practicing_certificate_ids = i;
}

slot_of-with_slot : (g : OcrIdGenerator) (k : Kind) (s : Slot) → slot_of (with_slot g k s) k ≡ s
slot_of-with_slot g id_card s = refl
slot_of-with_slot g handwriting s = refl
slot_of-with_slot g doc s = refl
slot_of-with_slot g employee_card s = refl
slot_of-with_slot g practicing_certificate s = refl

with_slot_self : (g : OcrIdGenerator) (k : Kind) → with_slot g k (slot_of g k) ≡ g
with_slot_self g id_card = refl
with_slot_self g handwriting = refl
with_slot_self g doc = refl
with_slot_self g employee_card = refl
with_slot_self g practicing_certificate = refl

-- The next number is behind all those in the caches.
number-new :
    (j k : Kind) (m n : ℕ) (v : Text)
    → IsNumber j m v
    → (j ≡ k → m < n)
    → v ≢ prefix_of k ++ padded 2 n
number-new j k m n v (i, p, le, e) later same =
    let both = sym e ∙ same in
    let kinds : j ≡ k =
      prefix_of-inj j k
        (sym (take-prefix_of j (padded 2 i)) ∙ ap (take 4) both ∙ take-prefix_of k (padded 2 n)) in
    let digits : padded 2 i ≡ padded 2 n =
      sym (drop-prefix_of j (padded 2 i)) ∙ ap (drop 4) both ∙ drop-prefix_of k (padded 2 n) in
    absurd (omega (arith, padded-inj 2 i n digits, later kinds))

get-absent : (m : Dict Text) (k : Text) → get m k ≡ none → All (λ j. j ≢ k) (keys m)
get-absent [] k h = tt
get-absent ((j, v) ∷ m) k h = elim (Bool-cases (text_eq j k)) [
  | inl e ↦ absurd (cc (rw e at h))
  | inr e ↦ (text_eq_ne j k e, get-absent m k (rw e at h))
]

values-new :
    (m : Dict Text) (k v : Text)
    → All (λ j. j ≢ k) (keys m)
    → values (assign m k v) ≡ values m ++ (v ∷ [])
values-new m k v h = rw (assign-new m k v h) (map-append (λ (e : Text × Text). e.1) m ((k, v) ∷ []))

-- The slot behind a new text: the id is new to the caches of its own kind and of every other.
numbered-new :
    (k : Kind) (texts : Text) (s : Slot)
    → get s.cache texts ≡ none
    → numbered k texts s ≡ (
      (prefix_of k ++ padded 2 (s.ocr_id + 1), false),
      record {
        ocr_id = s.ocr_id + 1;
        cache = assign s.cache texts (prefix_of k ++ padded 2 (s.ocr_id + 1));
      },
    )
unfolding numbered
numbered-new k texts s e = rw (e, numbered) refl

numbered-known :
    (k : Kind) (texts id : Text) (s : Slot)
    → get s.cache texts ≡ some id
    → numbered k texts s ≡ ((id, true), s)
unfolding numbered
numbered-known k texts id s e = rw (e, numbered) refl

IsSlot-new :
    (k : Kind) (texts : Text) (s : Slot)
    → get s.cache texts ≡ none
    → IsSlot k s
    → IsSlot k (record {
      ocr_id = s.ocr_id + 1;
      cache = assign s.cache texts (prefix_of k ++ padded 2 (s.ocr_id + 1));
    })
IsSlot-new k texts s e h =
    let id = prefix_of k ++ padded 2 (s.ocr_id + 1) in
    let vs = values-new s.cache texts id (get-absent s.cache texts e) in
    record {
      numbers = rw vs (
          All-append (IsNumber k (s.ocr_id + 1)) (values s.cache) (id ∷ [])
            (All-weaken (IsNumber k s.ocr_id) (IsNumber k (s.ocr_id + 1))
              (λ v (n, p, le, f). (n, p, omega arith, f)) (values s.cache) h.numbers)
            ((s.ocr_id + 1, omega arith, omega arith, refl), tt));
      distinct = rw vs (
          Distinct-append (values s.cache) (id ∷ []) h.distinct (tt, tt)
            (All-weaken (IsNumber k s.ocr_id) (λ v. All (λ y. v ≢ y) (id ∷ []))
              (λ v i. (number-new k k s.ocr_id (s.ocr_id + 1) v i (λ _. omega arith), tt))
              (values s.cache) h.numbers));
    }

get_ocr_id-kind :
    (g : OcrIdGenerator) (field : Text) (k : Kind) (c : Text × Text) (cs : Dict Text)
    → kind_of field ≡ some k
    → get_ocr_id g (some field) (some (c ∷ cs)) ≡ inr (get_kind_id g k (c ∷ cs))
unfolding get_ocr_id
get_ocr_id-kind g field k c cs f = rw (f, get_ocr_id) refl

get_ocr_id-known :
    (g : OcrIdGenerator) (field : Text) (k : Kind) (c : Text × Text) (cs : Dict Text) (id : Text)
    → kind_of field ≡ some k
    → get (slot_of g k).cache (joined (c ∷ cs)) ≡ some id
    → get_ocr_id g (some field) (some (c ∷ cs)) ≡ inr ((id, true), g)
get_ocr_id-known g field k c cs id f e =
    get_ocr_id-kind g field k c cs f
    ∙ rw (numbered-known k (joined (c ∷ cs)) id (slot_of g k) e)
        (ap (λ x. inr ((id, true), x)) (with_slot_self g k))

-- No cache of the generator has the id.
abbrev pub IsNew : OcrIdGenerator → Text → Type 0
IsNew g id = (k : Kind) → All (λ v. v ≢ id) (values (slot_of g k).cache)

id-IsNew :
    (g : OcrIdGenerator) (k : Kind)
    → IsGenerator g
    → IsNew g (prefix_of k ++ padded 2 ((slot_of g k).ocr_id + 1))
id-IsNew g k h j =
    let m = (slot_of g j).ocr_id in
    let n = (slot_of g k).ocr_id + 1 in
    All-weaken (IsNumber j m) (λ v. v ≢ prefix_of k ++ padded 2 n)
      (λ v i. number-new j k m n v i (λ same. rw same (omega arith))) (values (slot_of g j).cache)
      (slot_of-IsSlot g j h).numbers

id_type :
    (k : Kind) (n : ℕ)
    → get_ocr_type (prefix_of k ++ padded 2 n) ≡ (if ltb n 100 then some (type_of k) else none)
id_type k n = elim (Bool-cases (ltb n 100)) [
  | inl e ↦ rw e (get_ocr_type-short k n (ltb→lt n 100 e))
  | inr e ↦ rw e (get_ocr_type-long k n (ground arith))
]

-- For contents that are not empty and a field that the generator knows, with well numbered caches: the call gives an id and leaves
-- well numbered caches, in which the same contents get the same id, marked as repeated. If the cache
-- of the kind has the joined text of the contents, the id is the cached one, marked as repeated, and
-- nothing changes. If it has not, the id is marked as new and is in no cache of the generator yet, and
-- get_ocr_type reads the type of the field from it if its number is below 100, and no type otherwise.
pub get_ocr_id-IsGenerator :
    (g : OcrIdGenerator) (field : Text) (k : Kind) (c : Text × Text) (cs : Dict Text)
    → kind_of field ≡ some k
    → IsGenerator g
    → (id : Text) × (g' : OcrIdGenerator) × IsGenerator g'
      × (get_ocr_id g' (some field) (some (c ∷ cs)) ≡ inr ((id, true), g'))
      × (((get (slot_of g k).cache (joined (c ∷ cs)) ≡ some id)
            × (get_ocr_id g (some field) (some (c ∷ cs)) ≡ inr ((id, true), g))
            × (g' ≡ g))
          ⊎ ((get (slot_of g k).cache (joined (c ∷ cs)) ≡ none)
              × (get_ocr_id g (some field) (some (c ∷ cs)) ≡ inr ((id, false), g'))
              × IsNew g id
              × (get_ocr_type id
                  ≡ (if ltb ((slot_of g k).ocr_id + 1) 100 then some (type_of k) else none))))
get_ocr_id-IsGenerator g field k c cs f h =
    elim (Option-cases (get (slot_of g k).cache (joined (c ∷ cs)))) [
      | inr (id, e) ↦
          let answer = get_ocr_id-known g field k c cs id f e in
          (id, g, h, answer, inl (e, answer, refl))
      | inl e ↦
          let s = slot_of g k in
          let texts = joined (c ∷ cs) in
          let id = prefix_of k ++ padded 2 (s.ocr_id + 1) in
          let next : Slot = record { ocr_id = s.ocr_id + 1; cache = assign s.cache texts id } in
          let again : get (slot_of (with_slot g k next) k).cache texts ≡ some id =
            rw (slot_of-with_slot g k next) (get-assign s.cache texts id) in
          let asked : get_ocr_id g (some field) (some (c ∷ cs))
              ≡ inr ((id, false), with_slot g k next) =
            rw (get_ocr_id-kind g field k c cs f, numbered-new k texts s e) refl in
          (
            id,
            with_slot g k next,
            with_slot-IsGenerator g k next h (IsSlot-new k texts s e (slot_of-IsSlot g k h)),
            get_ocr_id-known (with_slot g k next) field k c cs id f again,
            inr (e, asked, id-IsNew g k h, id_type k (s.ocr_id + 1)),
          )
    ]
