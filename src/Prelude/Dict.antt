-- ===== src/Prelude/Dict.antt =====
-- Python's dictionaries with texts as keys: the pairs in the order in which the keys came in.
use video_flow.Prelude.Tests.{if◌then◌else◌, Bool-cases}
use video_flow.Prelude.Lists.{All, All-In, In, All-append, Distinct}
use video_flow.Prelude.Text.{Text, text_eq, text_eq-eq, text_eq_refl}
use video_flow.Prelude.Partial.{Gives}
use mathlib.Core.Path.{◌≡◌, refl, sym, ap, ◌∙◌}
use mathlib.Core.Logic.{◌≢◌, ◌⊎◌, inl, inr}
use mathlib.Core.Bool.{Bool, true, false, false≢true}
use mathlib.Core.Option.{Option, none, some}
use mathlib.Core.List.{List, [], ◌∷◌, ◌++◌, map}

abbrev pub Dict : Type 0 → Type 0
Dict V = List (Text × V)

abbrev pub keys : {V : Type 0} → Dict V → List Text
keys m = map (λ e. e.0) m

abbrev pub values : {V : Type 0} → Dict V → List V
values m = map (λ e. e.1) m

module _ {V : Type 0} where
  -- `m.get(k)`
  abbrev pub get : Dict V → Text → Option V
  get [] k = none
  get ((j, v) ∷ m) k = if text_eq j k then some v else get m k

  -- `m[k] = v`
  abbrev pub assign : Dict V → Text → V → Dict V
  assign [] k v = (k, v) ∷ []
  assign ((j, w) ∷ m) k v =
      let rest = assign m k v in if text_eq j k then (j, v) ∷ m else (j, w) ∷ rest

-- `k in m`, and `k in` a set or a list of texts
abbrev pub member : List Text → Text → Bool
member [] k = false
member (j ∷ js) k = if text_eq j k then true else member js k

pub text_eq-false : (s t : Text) → s ≢ t → text_eq s t ≡ false
text_eq-false s t h = elim (Bool-cases (text_eq s t)) [
  | inl e ↦ absurd (h (text_eq-eq s t e))
  | inr e ↦ e
]

pub text_eq_ne : (s t : Text) → text_eq s t ≡ false → s ≢ t
text_eq_ne s t e h = absurd (false≢true (sym e ∙ rw h (text_eq_refl t)))

pub assign-new :
    {V : Type 0} (m : Dict V) (k : Text) (v : V)
    → All (λ j. j ≢ k) (keys m)
    → assign m k v ≡ m ++ ((k, v) ∷ [])
assign-new [] k v h = refl
assign-new ((j, w) ∷ m) k v h =
    rw (text_eq-false j k h.0) (ap (λ r. (j, w) ∷ r) (assign-new m k v h.1))

-- Assigning keeps the keys, or adds one that was not there.
pub keys-assign :
    {V : Type 0} (m : Dict V) (k : Text) (v : V)
    → (keys (assign m k v) ≡ keys m)
      ⊎ (All (λ j. j ≢ k) (keys m) × (keys (assign m k v) ≡ keys m ++ (k ∷ [])))
keys-assign [] k v = inr (tt, refl)
keys-assign ((j, w) ∷ m) k v = elim (Bool-cases (text_eq j k)) [
  | inl e ↦ rw e (inl refl)
  | inr e ↦ rw e (elim (keys-assign m k v) [
    | inl h ↦ inl (ap (λ r. j ∷ r) h)
    | inr (h, g) ↦ inr ((text_eq_ne j k e, h), ap (λ r. j ∷ r) g)
  ])
]

pub member-In : (js : List Text) (k : Text) → member js k ≡ true → In k js
member-In [] k h = absurd (false≢true h)
member-In (j ∷ js) k h = elim (Bool-cases (text_eq j k)) [
  | inl e ↦ inl (sym (text_eq-eq j k e))
  | inr e ↦ inr (member-In js k (rw e at h))
]

pub not-member : (js : List Text) (k : Text) → member js k ≡ false → All (λ j. j ≢ k) js
not-member [] k h = tt
not-member (j ∷ js) k h = elim (Bool-cases (text_eq j k)) [
  | inl e ↦ absurd (false≢true (sym (rw e at h)))
  | inr e ↦ (text_eq_ne j k e, not-member js k (rw e at h))
]

-- Distinctness of a list and another behind it.
pub Distinct-append :
    (xs ys : List Text)
    → Distinct xs
    → Distinct ys
    → All (λ x. All (λ y. x ≢ y) ys) xs
    → Distinct (xs ++ ys)
Distinct-append [] ys h k d = k
Distinct-append (x ∷ xs) ys h k d =
    (All-append (λ y. x ≢ y) xs ys h.0 d.0, Distinct-append xs ys h.1 k d.1)

module _ {V : Type 0} where
  pub get-In : (m : Dict V) (k : Text) → In k (keys m) → Gives {0, 0} (λ _. Unit) (get m k)
  get-In [] k h = absurd h
  get-In ((j, v) ∷ m) k h = elim (Bool-cases (text_eq j k)) [
    | inl e ↦ rw e (v, refl, tt)
    | inr e ↦ rw e (get-In m k (elim h [ inl i ↦ absurd (text_eq_ne j k e (sym i)) | inr i ↦ i ]))
  ]

  pub In-get : (m : Dict V) (k : Text) (v : V) → get m k ≡ some v → In k (keys m)
  In-get [] k v h = absurd (cc h)
  In-get ((j, w) ∷ m) k v h = elim (Bool-cases (text_eq j k)) [
    | inl e ↦ inl (sym (text_eq-eq j k e))
    | inr e ↦ inr (In-get m k v (rw e at h))
  ]

  pub get-assign : (m : Dict V) (k : Text) (v : V) → get (assign m k v) k ≡ some v
  get-assign [] k v = rw (text_eq_refl k) refl
  get-assign ((j, w) ∷ m) k v = elim (Bool-cases (text_eq j k)) [
    | inl e ↦ rw (e, e) refl
    | inr e ↦ rw (e, e) (get-assign m k v)
  ]

  pub get-assign_other :
      (m : Dict V) (k i : Text) (v : V) → text_eq k i ≡ false → get (assign m k v) i ≡ get m i
  get-assign_other [] k i v n = rw n refl
  get-assign_other ((j, w) ∷ m) k i v n = elim (Bool-cases (text_eq j k)) [
    | inl e ↦ let q : text_eq j i ≡ false = rw (text_eq-eq j k e) n in rw (e, q) refl
    | inr e ↦ elim (Bool-cases (text_eq j i)) [
      | inl f ↦ rw (e, f) refl
      | inr f ↦ rw (e, f) (get-assign_other m k i v n)
    ]
  ]

  pub get-All :
      (P : V → Type 0) (m : Dict V) (k : Text) (v : V) → get m k ≡ some v → All (λ e. P e.1) m → P v
  get-All P [] k v h a = absurd (cc h)
  get-All P ((j, w) ∷ m) k v h a = elim (Bool-cases (text_eq j k)) [
    | inl e ↦ let g : w ≡ v = cc (rw e at h) in rw (sym g) a.0
    | inr e ↦ get-All P m k v (rw e at h) a.1
  ]

  pub assign-All :
      (P : V → Type 0) (m : Dict V) (k : Text) (v : V)
      → All (λ e. P e.1) m
      → P v
      → All (λ e. P e.1) (assign m k v)
  assign-All P [] k v h p = (p, tt)
  assign-All P ((j, w) ∷ m) k v h p = elim (Bool-cases (text_eq j k)) [
    | inl e ↦ rw e (p, h.1)
    | inr e ↦ rw e (h.0, assign-All P m k v h.1 p)
  ]

  -- Assigning to a key that is there keeps the keys.
  pub keys-assign_known :
      (m : Dict V) (k : Text) (v : V) → In k (keys m) → keys (assign m k v) ≡ keys m
  keys-assign_known m k v i = elim (keys-assign m k v) [
    | inl e ↦ e
    | inr (fresh, _) ↦ absurd (All-In (λ j. j ≢ k) k (keys m) fresh i refl)
  ]
