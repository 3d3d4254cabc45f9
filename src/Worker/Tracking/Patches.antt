-- ===== src/Worker/Tracking/Patches.antt =====
-- The time patches of a sequence: what _merge_time_patch and reverse make of them.
use video_flow.Prelude.{
  ℕ, ◌+◌, ◌≤◌, ◌<◌, max, ◌≡◌, refl, ◌⊎◌, inl, inr, true, false, some, List, [], ◌∷◌, arith, leb,
  Bool-cases, order-cases, All, All-weaken,
}
use mathlib.Core.List.Permᴰ
use mathlib.Core.List.{Permᴰ}
use video_flow.Prelude.Text.{text_eq}
use video_flow.Prelude.Sorting.{IsOrder, IsSorted, sort, sort-Permᴰ, sort-IsSorted, All-Permᴰ}
use video_flow.Worker.TimePatch.{TimePatch, update_end_time, is_overlap}
use video_flow.Worker.Tracking.{
  TrackingSequence, ms, joins, coalesce, coalesced, by_start, merge_time_patch,
}

-- A patch in milliseconds that does not end before it starts.
pub record IsPatch (p : TimePatch) : Type 0 where
  pub forward : p.start_time ≤ p.end_time
  pub unit : p.time_unit ≡ some ms

-- The patches come one after the other from `lo` on, with more than `gap` between neighbours.
abbrev pub IsApart : ℕ → ℕ → List TimePatch → Type 0
IsApart gap lo [] = Unit
IsApart gap lo (p ∷ ps) = (lo ≤ p.start_time) × IsPatch p × IsApart gap (p.end_time + gap + 1) ps

abbrev pub During : ℕ → TimePatch → Type 0
During t p = (p.start_time ≤ t) × (t ≤ p.end_time)

-- The instant lies in one of the patches.
abbrev pub IsCovered : ℕ → List TimePatch → Type 0
IsCovered t [] = ⊥
IsCovered t (p ∷ ps) = During t p ⊎ IsCovered t ps

pub update_end_time-ms :
    (p : TimePatch) (t : ℕ) → p.time_unit ≡ some ms → (update_end_time p t ms).end_time ≡ t
unfolding update_end_time text_eq
update_end_time-ms p t e = rw e (omega arith)

unfoldable pub extended : TimePatch → TimePatch → TimePatch
extended last tp = update_end_time last (max last.end_time tp.end_time) ms

pub extended-IsPatch : (last tp : TimePatch) → IsPatch last → IsPatch (extended last tp)
unfolding extended update_end_time
extended-IsPatch last tp h = record {
  forward =
      omega (arith, update_end_time-ms last (max last.end_time tp.end_time) h.unit, h.forward);
  unit = h.unit;
}

joins-false :
    (gap : ℕ) (last tp : TimePatch)
    → joins gap last tp ≡ false
    → last.end_time + gap < tp.start_time
unfolding joins
joins-false gap last tp h = ground arith

joins-true :
    (gap : ℕ) (last tp : TimePatch)
    → last.start_time ≤ last.end_time
    → joins gap last tp ≡ true
    → tp.start_time ≤ last.end_time + gap
unfolding joins is_overlap
joins-true gap last tp k h = ground arith

pub coalesce_join :
    (gap : ℕ) (last tp : TimePatch) (tps : List TimePatch)
    → joins gap last tp ≡ true
    → coalesce gap last (tp ∷ tps) ≡ coalesce gap (extended last tp) tps
unfolding coalesce extended
coalesce_join gap last tp tps e = rw (e, coalesce) refl

pub coalesce_part :
    (gap : ℕ) (last tp : TimePatch) (tps : List TimePatch)
    → joins gap last tp ≡ false
    → coalesce gap last (tp ∷ tps) ≡ last ∷ coalesce gap tp tps
unfolding coalesce
coalesce_part gap last tp tps e = rw (e, coalesce) refl

coalesce_nil : (gap : ℕ) (last : TimePatch) → coalesce gap last [] ≡ last ∷ []
unfolding coalesce
coalesce_nil gap last = refl

extended_start : (last tp : TimePatch) → (extended last tp).start_time ≡ last.start_time
unfolding extended update_end_time
extended_start last tp = refl

coalesce-IsApart :
    (gap lo : ℕ) (last : TimePatch) (tps : List TimePatch)
    → lo ≤ last.start_time
    → IsPatch last
    → All IsPatch tps
    → IsApart gap lo (coalesce gap last tps)
coalesce-IsApart gap lo last [] b h k = rw (coalesce_nil gap last) (b, h, tt)
coalesce-IsApart gap lo last (tp ∷ tps) b h k = elim (Bool-cases (joins gap last tp)) [
  | inl e ↦ rw (coalesce_join gap last tp tps e) (
      coalesce-IsApart gap lo (extended last tp) tps (rw (extended_start last tp) b)
        (extended-IsPatch last tp h) k.1)
  | inr e ↦ rw (coalesce_part gap last tp tps e) (
    b,
    h,
    coalesce-IsApart gap (last.end_time + gap + 1) tp tps (omega (arith, joins-false gap last tp e))
        k.0 k.1,
  )
]

extended_end :
    (last tp : TimePatch)
    → IsPatch last
    → (extended last tp).end_time ≡ max last.end_time tp.end_time
unfolding extended
extended_end last tp h = update_end_time-ms last (max last.end_time tp.end_time) h.unit

covers_extended :
    (t : ℕ) (last tp : TimePatch) (tps : List TimePatch)
    → IsPatch last
    → leb last.start_time tp.start_time ≡ true
    → IsCovered t (last ∷ tp ∷ tps)
    → IsCovered t (extended last tp ∷ tps)
covers_extended t last tp tps h s (inl c) =
    inl (omega (arith, extended_start last tp), omega (arith, extended_end last tp h))
covers_extended t last tp tps h s (inr (inl c)) =
    inl (ground (arith, extended_start last tp), omega (arith, extended_end last tp h))
covers_extended t last tp tps h s (inr (inr c)) = inr c

-- Coverage is kept, for patches in the order of their starts.
coalesce-IsCovered :
    (gap t : ℕ) (last : TimePatch) (tps : List TimePatch)
    → IsPatch last
    → All IsPatch tps
    → IsSorted by_start (last ∷ tps)
    → IsCovered t (last ∷ tps)
    → IsCovered t (coalesce gap last tps)
coalesce-IsCovered gap t last [] h k s c = rw (coalesce_nil gap last) c
coalesce-IsCovered gap t last (tp ∷ tps) h k s c = elim (Bool-cases (joins gap last tp)) [
  | inl e ↦ rw (coalesce_join gap last tp tps e) (
      coalesce-IsCovered gap t (extended last tp) tps (extended-IsPatch last tp h) k.1
        (rw (extended_start last tp) (s.0.1, s.1.1)) (covers_extended t last tp tps h s.0.0 c))
  | inr e ↦
      rw (coalesce_part gap last tp tps e)
        (elim c [ inl d ↦ inl d | inr d ↦ inr (coalesce-IsCovered gap t tp tps k.0 k.1 s.1 d) ])
]

-- At most `gap` after an instant with the property.
abbrev pub Near : ℕ → (ℕ → Type 0) → ℕ → Type 0
Near gap C t = (s : ℕ) × C s × (s ≤ t) × (t ≤ s + gap)

abbrev DuringIn : (ℕ → Type 0) → TimePatch → Type 0
DuringIn C p = (t : ℕ) → During t p → C t

max_in : (C : ℕ → Type 0) (a b : ℕ) → C a → C b → C (max a b)
max_in C a b h k = elim (order-cases a b) [
  | inl le ↦ let e : max a b ≡ b = omega arith in rw e k
  | inr gt ↦ let e : max a b ≡ a = omega arith in rw e h
]

module _ (gap : ℕ) (C : ℕ → Type 0) where
  extended-Near :
      (last tp : TimePatch)
      → IsPatch last
      → IsPatch tp
      → joins gap last tp ≡ true
      → DuringIn (Near gap C) last
      → C last.end_time
      → DuringIn C tp
      → DuringIn (Near gap C) (extended last tp)
  extended-Near last tp h k e near end sub t d = elim (order-cases t last.end_time) [
    | inl le ↦ near t (omega (arith, extended_start last tp), le)
    | inr gt ↦ elim (order-cases tp.start_time t) [
      | inl from ↦
          (t, sub t (from, omega (arith, extended_end last tp h)), omega arith, omega arith)
      | inr before ↦
          (last.end_time, end, omega arith, omega (arith, joins-true gap last tp h.forward e))
    ]
  ]

  coalesce-Near :
      (last : TimePatch) (tps : List TimePatch)
      → IsPatch last
      → All IsPatch tps
      → DuringIn (Near gap C) last
      → C last.end_time
      → All (DuringIn C) tps
      → (t : ℕ) → IsCovered t (coalesce gap last tps)
      → Near gap C t
  coalesce-Near last [] h k near end sub t c = elim (rw (coalesce_nil gap last) at c) [
    | inl d ↦ near t d
    | inr d ↦ absurd d
  ]
  coalesce-Near last (tp ∷ tps) h k near end sub t c = elim (Bool-cases (joins gap last tp)) [
    | inl e ↦
        coalesce-Near (extended last tp) tps (extended-IsPatch last tp h) k.1
          (extended-Near last tp h k.0 e near end sub.0)
          (rw (extended_end last tp h)
            (max_in C last.end_time tp.end_time end (sub.0 tp.end_time (k.0.forward, omega arith))))
          sub.1 t (rw (coalesce_join gap last tp tps e) at c)
    | inr e ↦ elim (rw (coalesce_part gap last tp tps e) at c) [
      | inl d ↦ near t d
      | inr d ↦
          coalesce-Near tp tps k.0 k.1 (λ u m. (u, sub.0 u m, omega arith, omega arith))
            (sub.0 tp.end_time (k.0.forward, omega arith)) sub.1 t d
    ]
  ]

IsCovered-Permᴰ : (t : ℕ) {ps qs : List TimePatch} → Permᴰ ps qs → IsCovered t ps → IsCovered t qs
IsCovered-Permᴰ t Permᴰ.nil c = c
IsCovered-Permᴰ t (Permᴰ.cons e p) (inl d) = inl (rw e at d)
IsCovered-Permᴰ t (Permᴰ.cons e p) (inr c) = inr (IsCovered-Permᴰ t p c)
IsCovered-Permᴰ t (Permᴰ.swap e f) (inl d) = inr (inl (rw e at d))
IsCovered-Permᴰ t (Permᴰ.swap e f) (inr (inl d)) = inl (rw f at d)
IsCovered-Permᴰ t (Permᴰ.swap e f) (inr (inr c)) = inr (inr c)
IsCovered-Permᴰ t (Permᴰ.trans p q) c = IsCovered-Permᴰ t q (IsCovered-Permᴰ t p c)

All-IsCovered : (ps : List TimePatch) → All (DuringIn (λ t. IsCovered t ps)) ps
All-IsCovered [] = tt
All-IsCovered (p ∷ ps) = (
  λ t d. inl d,
  All-weaken (DuringIn (λ t. IsCovered t ps)) (DuringIn (λ t. IsCovered t (p ∷ ps)))
      (λ q h t d. inr (h t d)) ps (All-IsCovered ps),
)

by_start-IsOrder : IsOrder by_start
by_start-IsOrder = record { total = λ p q. ground arith; trans = λ p q r h k. ground arith }

-- What is asked of the merged patches `qs` of `ps`.
pub record IsMerged (gap : ℕ) (ps qs : List TimePatch) : Type 0 where
  pub apart : IsApart gap 0 qs
  pub keeps : (t : ℕ) → IsCovered t ps → IsCovered t qs
  pub adds : (t : ℕ) → IsCovered t qs → Near gap (λ s. IsCovered s ps) t

coalesced-IsMerged :
    (gap : ℕ) (ps : List TimePatch)
    → All IsPatch ps
    → IsSorted by_start ps
    → IsMerged gap ps (coalesced gap ps)
unfolding coalesced
coalesced-IsMerged gap [] h s = record { apart = tt; keeps = λ t c. c; adds = λ t c. absurd c }
coalesced-IsMerged gap (p ∷ ps) h s =
    let all = All-IsCovered (p ∷ ps) in
    record {
      apart = coalesce-IsApart gap 0 p ps (omega arith) h.0 h.1;
      keeps = λ t c. coalesce-IsCovered gap t p ps h.0 h.1 s c;
      adds =
          coalesce-Near gap (λ t. IsCovered t (p ∷ ps)) p ps h.0 h.1
            (λ u d. (u, inl d, omega arith, omega arith)) (inl (h.0.forward, omega arith)) all.1;
    }

-- The merged patches of sorted ones, against the patches as they came.
pub sorted-IsMerged :
    (gap : ℕ) (ps : List TimePatch)
    → All IsPatch ps
    → IsMerged gap ps (coalesced gap (sort by_start ps))
sorted-IsMerged gap ps h =
    let p = sort-Permᴰ by_start ps in
    let m =
      coalesced-IsMerged gap (sort by_start ps) (All-Permᴰ IsPatch (Permᴰ.symm p) h)
        (sort-IsSorted by_start-IsOrder ps) in
    record {
      apart = m.apart;
      keeps = λ t c. m.keeps t (IsCovered-Permᴰ t (Permᴰ.symm p) c);
      adds = λ t c. let (u, d, le, ge) = m.adds t c in (u, IsCovered-Permᴰ u p d, le, ge);
    }

-- For a sequence whose patches are in milliseconds and end no earlier than they start,
-- _merge_time_patch leaves such patches, in the order of time and with more than the gap between
-- neighbours; an instant that lay in a patch still does, and an instant that lies in one now lay in
-- one, or came at most the gap after an instant that did.
pub merge_time_patch-IsMerged :
    (s : TrackingSequence)
    → All IsPatch s.time_patchs
    → IsMerged s.gap s.time_patchs (merge_time_patch s).time_patchs
unfolding merge_time_patch
merge_time_patch-IsMerged s h = sorted-IsMerged s.gap s.time_patchs h
