-- ===== src/Worker/Persons/Identity/Sequences.antt =====
-- The sequences a mapper of processor.py names, and lists without repetition.
use video_flow.Prelude.{
  ◌≡◌, refl, ap, ◌≢◌, inl, inr, Option, none, some, List, [], ◌∷◌, ◌++◌, All, All-In, In, Distinct,
}
use mathlib.Core.List.{map-append}
use video_flow.Prelude.Text.{Text}
use video_flow.Prelude.Dict.{keys, values, assign, assign-new}
use video_flow.Worker.Persons.Identity.{Match, Mapper}

-- The sequences that entries of the mapper name.
abbrev pub taken : List (Option Match) → List Text
taken [] = []
taken (none ∷ es) = taken es
taken (some m ∷ es) = m.t_identity ∷ taken es

abbrev pub sequences_of : Mapper → List Text
sequences_of m = taken (values m)

pub taken-append : (es fs : List (Option Match)) → taken (es ++ fs) ≡ taken es ++ taken fs
taken-append [] fs = refl
taken-append (none ∷ es) fs = taken-append es fs
taken-append (some m ∷ es) fs = ap (λ r. m.t_identity ∷ r) (taken-append es fs)

pub sequences_of-new :
    (m : Mapper) (k : Text) (o : Option Match)
    → All (λ j. j ≢ k) (keys m)
    → sequences_of (assign m k o) ≡ sequences_of m ++ taken (o ∷ [])
sequences_of-new m k o h =
    rw (assign-new m k o h, map-append (λ (e : Text × Option Match). e.1) m ((k, o) ∷ []))
      (taken-append (values m) (o ∷ []))

pub keys-new :
    (m : Mapper) (k : Text) (o : Option Match)
    → All (λ j. j ≢ k) (keys m)
    → keys (assign m k o) ≡ keys m ++ (k ∷ [])
keys-new m k o h =
    rw (assign-new m k o h) (map-append (λ (e : Text × Option Match). e.0) m ((k, o) ∷ []))

pub Distinct-front :
    (xs : List Text) (k : Text) (ys : List Text) → Distinct (xs ++ (k ∷ ys)) → All (λ x. x ≢ k) xs
Distinct-front [] k ys h = tt
Distinct-front (x ∷ xs) k ys h =
    (All-In (λ y. x ≢ y) k (xs ++ (k ∷ ys)) h.0 (in_middle xs), Distinct-front xs k ys h.1)
  where
    in_middle : (zs : List Text) → In k (zs ++ (k ∷ ys))
    in_middle [] = inl refl
    in_middle (z ∷ zs) = inr (in_middle zs)

pub Distinct-drop :
    (xs : List Text) (k : Text) (ys : List Text) → Distinct (xs ++ (k ∷ ys)) → Distinct (xs ++ ys)
Distinct-drop [] k ys h = h.1
Distinct-drop (x ∷ xs) k ys h = (drop_all xs h.0, Distinct-drop xs k ys h.1)
  where
    drop_all : (zs : List Text) → All (λ y. x ≢ y) (zs ++ (k ∷ ys)) → All (λ y. x ≢ y) (zs ++ ys)
    drop_all [] a = a.1
    drop_all (z ∷ zs) a = (a.0, drop_all zs a.1)
