-- ===== src/Worker/Tracking/Sequences/Merge.antt =====
-- merge of the manager: the time that its sequences cover, and its fuel.
use video_flow.Prelude.{
  ℕ, zero, suc, ◌+◌, ◌≤◌, ◌≡◌, refl, ◌⊎◌, inl, inr, Bool, true, false, List, [], ◌∷◌, ◌++◌, arith,
  Bool-cases, All, All-append, length, if◌then◌else◌,
}
use video_flow.Worker.TimePatch.{TimePatch}
use video_flow.Worker.Tracking.{
  TrackingSequence, merge, merge_time_patch, is_better_than, updata_face,
}
use video_flow.Worker.Tracking.Patches.{IsPatch, IsApart, IsCovered, merge_time_patch-IsMerged}
use video_flow.Worker.Tracking.Sequences.{
  Recogniser, SequenceManager, absorb, merge_from, merge_all,
}

IsApart-All : (gap lo : ℕ) (ps : List TimePatch) → IsApart gap lo ps → All IsPatch ps
IsApart-All gap lo [] h = tt
IsApart-All gap lo (p ∷ ps) h = (h.1, IsApart-All gap (p.end_time + gap + 1) ps h.2)

IsCovered-append :
    (t : ℕ) (ps qs : List TimePatch) → IsCovered t ps ⊎ IsCovered t qs → IsCovered t (ps ++ qs)
IsCovered-append t [] qs (inl c) = absurd c
IsCovered-append t [] qs (inr c) = c
IsCovered-append t (p ∷ ps) qs (inl (inl d)) = inl d
IsCovered-append t (p ∷ ps) qs (inl (inr c)) = inr (IsCovered-append t ps qs (inl c))
IsCovered-append t (p ∷ ps) qs (inr c) = inr (IsCovered-append t ps qs (inr c))

abbrev pub HasPatchs : TrackingSequence → Type 0
HasPatchs s = All IsPatch s.time_patchs

-- Some sequence covers the instant.
abbrev pub IsTracked : ℕ → List TrackingSequence → Type 0
IsTracked t [] = ⊥
IsTracked t (s ∷ ss) = IsCovered t s.time_patchs ⊎ IsTracked t ss

-- The sequence whose patches merge puts in order.
joined : TrackingSequence → TrackingSequence → TrackingSequence
joined self other =
    let best = if is_better_than self other then self else updata_face self other in
    record best { time_patchs = best.time_patchs ++ other.time_patchs }

joined-patchs : (s o : TrackingSequence) → (joined s o).time_patchs ≡ s.time_patchs ++ o.time_patchs
unfolding joined updata_face
joined-patchs s o = elim (Bool-cases (is_better_than s o)) [ inl e ↦ rw e refl | inr e ↦ rw e refl ]

merge-joined : (s o : TrackingSequence) → merge s o ≡ merge_time_patch (joined s o)
unfolding merge joined
merge-joined s o = refl

joined-HasPatchs : (s o : TrackingSequence) → HasPatchs s → HasPatchs o → HasPatchs (joined s o)
joined-HasPatchs s o h k =
    rw (joined-patchs s o) (All-append IsPatch s.time_patchs o.time_patchs h k)

merge-HasPatchs : (s o : TrackingSequence) → HasPatchs s → HasPatchs o → HasPatchs (merge s o)
merge-HasPatchs s o h k =
    rw (merge-joined s o)
      (IsApart-All _ 0 _ (merge_time_patch-IsMerged (joined s o) (joined-HasPatchs s o h k)).apart)

merge-IsCovered :
    (t : ℕ) (s o : TrackingSequence)
    → HasPatchs s
    → HasPatchs o
    → IsCovered t s.time_patchs ⊎ IsCovered t o.time_patchs
    → IsCovered t (merge s o).time_patchs
merge-IsCovered t s o h k c = rw (merge-joined s o) (
    (merge_time_patch-IsMerged (joined s o) (joined-HasPatchs s o h k)).keeps t
      (rw (joined-patchs s o) (IsCovered-append t s.time_patchs o.time_patchs c)))

module _ (r : Recogniser) where
  abbrev same : TrackingSequence → TrackingSequence → Bool
  same s t =
      r.same_face s.stored_frame t.stored_frame s.stored_face_bbox t.stored_face_bbox
        s.stored_face_feature t.stored_face_feature

  absorb_join :
      (s t : TrackingSequence) (ts : List TrackingSequence)
      → same s t ≡ true
      → absorb r s (t ∷ ts) ≡ absorb r (merge s t) ts
  unfolding absorb
  absorb_join s t ts e = rw (e, absorb) refl

  absorb_part :
      (s t : TrackingSequence) (ts : List TrackingSequence)
      → same s t ≡ false
      → absorb r s (t ∷ ts) ≡ ((absorb r s ts).0, t ∷ (absorb r s ts).1)
  unfolding absorb
  absorb_part s t ts e = rw (e, absorb) refl

  -- What absorb leaves: no more sequences, patches in order, and every instant tracked.
  record IsAbsorbed (s : TrackingSequence) (ts : List TrackingSequence)
      (p : TrackingSequence × List TrackingSequence) : Type 0 where
    fewer : length p.1 ≤ length ts
    kept : HasPatchs p.0
    rest : All HasPatchs p.1
    tracks : (t : ℕ) → IsTracked t (s ∷ ts) → IsTracked t (p.0 ∷ p.1)

  absorb-IsAbsorbed :
      (s : TrackingSequence) (ts : List TrackingSequence)
      → HasPatchs s
      → All HasPatchs ts
      → IsAbsorbed s ts (absorb r s ts)
  unfolding absorb
  absorb-IsAbsorbed s [] h k = record {
    fewer = omega arith;
    kept = h;
    rest = tt;
    tracks = λ t c. c;
  }
  absorb-IsAbsorbed s (u ∷ us) h k = elim (Bool-cases (same s u)) [
    | inl e ↦
        let ih = absorb-IsAbsorbed (merge s u) us (merge-HasPatchs s u h k.0) k.1 in
        rw (absorb_join s u us e) (record {
          fewer = omega (arith, ih.fewer);
          kept = ih.kept;
          rest = ih.rest;
          tracks = λ t c. ih.tracks t (elim c [
            | inl d ↦ inl (merge-IsCovered t s u h k.0 (inl d))
            | inr (inl d) ↦ inl (merge-IsCovered t s u h k.0 (inr d))
            | inr (inr d) ↦ inr d
          ]);
        })
    | inr e ↦
        let ih = absorb-IsAbsorbed s us h k.1 in
        rw (absorb_part s u us e) (record {
          fewer = omega (arith, ih.fewer);
          kept = ih.kept;
          rest = (k.0, ih.rest);
          tracks = λ t c. elim c [
            | inl d ↦ elim (ih.tracks t (inl d)) [ inl a ↦ inl a | inr b ↦ inr (inr b) ]
            | inr (inl d) ↦ inr (inl d)
            | inr (inr d) ↦ elim (ih.tracks t (inr d)) [ inl a ↦ inl a | inr b ↦ inr (inr b) ]
          ];
        })
  ]

  merge_from-IsTracked :
      (n : ℕ) (q : List TrackingSequence)
      → All HasPatchs q
      → (t : ℕ) → IsTracked t q
      → IsTracked t (merge_from r n q)
  unfolding merge_from
  merge_from-IsTracked zero q h t c = c
  merge_from-IsTracked (suc n) [] h t c = c
  merge_from-IsTracked (suc n) (s ∷ ss) h t c =
      let a = absorb-IsAbsorbed s ss h.0 h.1 in
      elim (a.tracks t c) [
        | inl d ↦ inl d
        | inr d ↦ inr (merge_from-IsTracked n (absorb r s ss).1 a.rest t d)
      ]

  -- Where each patch of each sequence is in milliseconds and ends no earlier than it starts, an instant
  -- that some sequence covers is still covered by one behind merge.
  pub merge_all-IsTracked :
      (m : SequenceManager)
      → All HasPatchs m.queue
      → (t : ℕ) → IsTracked t m.queue
      → IsTracked t (merge_all r m).queue
  unfolding merge_all
  merge_all-IsTracked m h t c = merge_from-IsTracked (length m.queue) m.queue h t c

  absorb-fewer :
      (s : TrackingSequence) (ts : List TrackingSequence) → length (absorb r s ts).1 ≤ length ts
  unfolding absorb
  absorb-fewer s [] = omega arith
  absorb-fewer s (u ∷ us) = elim (Bool-cases (same s u)) [
    | inl e ↦ rw (absorb_join s u us e) (omega (arith, absorb-fewer (merge s u) us))
    | inr e ↦ rw (absorb_part s u us e) (omega (arith, absorb-fewer s us))
  ]

  merge_from-nil : (n : ℕ) → merge_from r n [] ≡ []
  unfolding merge_from
  merge_from-nil zero = refl
  merge_from-nil (suc n) = refl
