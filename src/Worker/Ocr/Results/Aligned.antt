-- ===== src/Worker/Ocr/Results/Aligned.antt =====
-- Recognition raises nothing, and what it finds has a frame.
use video_flow.Worker.Tracking.{Frame}
use video_flow.Prelude.Text.{text_eq, Text}
use video_flow.Worker.Ocr.{ℤ, Validator, TextBlock, OcrInfo}
use video_flow.Prelude.Text.{text_eq-eq}
use video_flow.Prelude.Partial.{Gives}
use video_flow.Worker.Ocr.Results.{
  is_taken, recog_result, time_patch_of, OcrTrackingResult, best_match, gen_recog_tracking_result,
  best_field, Best,
}
use video_flow.Worker.Ocr.Recognition.{
  compared, recognise_infos, recognise_ids, recognise_fields, Similarity, recogition_text,
}
use video_flow.Worker.Ocr.Manager.{OcrInfoManager, Expected, Variant, Recognised, Registered}
use video_flow.Prelude.{
  true, arith, ◌&&◌, ◌⊎◌, Option, none, Option-cases, ltb, ◌≡◌, refl, sym, ap, inl, inr, Bool-cases,
  if-both, [], ◌∷◌, ◌∙◌, ◌<◌, some, List, All, All-weaken, In, All-In_self,
}
use video_flow.Prelude.Dict.{
  In-get, Dict, keys, get, assign, get-In, get-assign, get-assign_other, get-All, assign-All,
  keys-assign_known,
}
use video_flow.Worker.Ocr.Results.Detected.{Accepted, HasFrame}

module _ ⦃valid : Validator⦄ where
  -- What was recognised with a similarity above 0 has its frame, and a box is one that pydantic takes.
  abbrev pub IsSeen : Recognised → Type 0
  IsSeen r = (0 < r.similarity → HasFrame r.best_frame) × Accepted r.bbox

  -- The method of a manager compares any two texts.
  abbrev pub Answers : Similarity → Type 0
  Answers similar = (a b : Text) → Gives {0, 0} (λ _. Unit) (similar a b)

  abbrev pub IsBoxed : OcrInfo → Type 0
  IsBoxed info = Accepted (some info.bbox)

  -- The recognised fields are the expected ones.
  abbrev pub Fits : Registered → Dict Recognised → Type 0
  Fits r c = (keys c ≡ keys r.contents) × All (λ e. IsSeen e.1) c

  abbrev pub FitsAt : Dict (Dict Recognised) → Text × Registered → Type 0
  FitsAt found e = (c : Dict Recognised) × (get found e.0 ≡ some c) × Fits e.1 c

  -- Every registered id has its recognised fields.
  abbrev pub Aligned : Dict Registered → Dict (Dict Recognised) → Type 0
  Aligned expected found = All (FitsAt found) expected

  recogition_text-IsSeen :
      (similar : Similarity)
      → Answers similar
      → (x : Variant) (e : Text) (info : OcrInfo) (frame : Frame) (bs : List TextBlock)
        (r : Recognised)
      → IsBoxed info
      → IsSeen r
      → Gives IsSeen (recogition_text similar x e info frame bs r)
  unfolding recogition_text
  recogition_text-IsSeen similar answers x e info frame [] r boxed h = (r, refl, h)
  recogition_text-IsSeen similar answers x e info frame (b ∷ bs) r boxed h =
      let (n, f, _) = answers e (compared x e b.content) in
      rw f (
        recogition_text-IsSeen similar answers x e info frame bs _ boxed
          (if-both IsSeen (ltb r.similarity n) _ _ ((λ _. (frame, refl, tt)), boxed) h))

  module _ (similar : Similarity) (answers : Answers similar) (x : Variant) (frame : Frame) where
    recognise_fields-Gives :
        (info : OcrInfo) (es : Dict Expected) (c : Dict Recognised)
        → IsBoxed info
        → All (λ k. In k (keys c)) (keys es)
        → All (λ e. IsSeen e.1) c
        → Gives
            (λ c'. (keys c' ≡ keys c) × All (λ e. IsSeen e.1) c')
            (recognise_fields similar x info frame es c)
    unfolding recognise_fields
    recognise_fields-Gives info [] c boxed i h = (c, refl, (refl, h))
    recognise_fields-Gives info ((field, e) ∷ es) c boxed i h =
        let (best, f, _) = get-In c field i.0 in
        let (r, n, seen) =
          recogition_text-IsSeen similar answers x e.content info frame info.text_blocks best boxed
            (get-All IsSeen c field best f h) in
        let same = keys-assign_known c field r i.0 in
        let (c', g, (ks, h')) =
          recognise_fields-Gives info es (assign c field r) boxed (rw same i.1)
            (assign-All IsSeen c field r h seen) in
        rw (f, n) (c', g, (ks ∙ same, h'))

    FitsAt-assign :
        (found : Dict (Dict Recognised)) (id : Text) (c next : Dict Recognised)
        (e : Text × Registered)
        → get found id ≡ some c
        → keys next ≡ keys c
        → All (λ e. IsSeen e.1) next
        → FitsAt found e
        → FitsAt (assign found id next) e
    FitsAt-assign found id c next e g ks seen (d, f, (kd, sd)) =
        elim (Bool-cases (text_eq id e.0)) [
          | inl t ↦
              let same : e.0 ≡ id = sym (text_eq-eq id e.0 t) in
              let one : d ≡ c = cc (sym f ∙ ap (get found) same ∙ g) in
              (
                next,
                ap (get (assign found id next)) same ∙ get-assign found id next,
                (ks ∙ ap keys (sym one) ∙ kd, seen),
              )
          | inr t ↦ (d, get-assign_other found id e.0 next t ∙ f, (kd, sd))
        ]

    recognise_ids-Gives :
        (full : Dict Registered) (info : OcrInfo) (rs : Dict Registered)
        (found : Dict (Dict Recognised))
        → IsBoxed info
        → All (FitsAt found) rs
        → Aligned full found
        → Gives (Aligned full) (recognise_ids similar x info frame rs found)
    unfolding recognise_ids
    recognise_ids-Gives full info [] found boxed h a = (found, refl, a)
    recognise_ids-Gives full info ((id, r) ∷ rs) found boxed h a =
        let (c, f, (kc, sc)) = h.0 in
        let (next, g, (kn, sn)) =
          recognise_fields-Gives info r.contents c boxed (rw kc (All-In_self (keys r.contents)))
            sc in
        let (last, e, b) =
          recognise_ids-Gives full info rs (assign found id next) boxed
            (All-weaken (FitsAt found) (FitsAt (assign found id next))
              (λ y. FitsAt-assign found id c next y f kn sn) rs h.1)
            (All-weaken (FitsAt found) (FitsAt (assign found id next))
              (λ y. FitsAt-assign found id c next y f kn sn) full a) in
        rw (f, g) (last, e, b)

    pub recognise_infos-Gives :
        (expected : Dict Registered) (infos : List OcrInfo) (found : Dict (Dict Recognised))
        → All IsBoxed infos
        → Aligned expected found
        → Gives (Aligned expected) (recognise_infos similar x expected infos frame found)
    unfolding recognise_infos
    recognise_infos-Gives expected [] found boxed a = (found, refl, a)
    recognise_infos-Gives expected (info ∷ infos) found boxed a =
        let (next, e, b) = recognise_ids-Gives expected info expected found boxed.0 a a in
        rw e (recognise_infos-Gives expected infos next boxed.1 b)

  -- No match yet, or the match of a registered id, with its frame.
  abbrev IsMatch : Dict Registered → Best → Type 0
  IsMatch full best =
      (best.matched_id ≡ none)
      ⊎ ((id : Text) × (best.matched_id ≡ some id)
          × In id (keys full)
          × HasFrame best.best_frame
          × Accepted best.bbox)

  best_field-Gives :
      (full : Dict Registered) (id : Text) (r : Registered) (c : Dict Recognised) (ks : List Text)
      (best : Best)
      → In id (keys full)
      → Fits r c
      → IsMatch full best
      → Gives (IsMatch full) (best_field id r.contents c ks best)
  unfolding best_field
  best_field-Gives full id r c [] best i h m = (best, refl, m)
  best_field-Gives full id r c (k ∷ ks) best i h m = elim (Option-cases (get c k)) [
    | inl e ↦ rw (e, best_field) (best_field-Gives full id r c ks best i h m)
    | inr (x, e) ↦
        let (t, f, _) = get-In r.contents k (rw h.0 at (In-get c k x e)) in
        rw (e, f, best_field)
          (best_field-Gives full id r c ks _ i h
            (elim (Bool-cases
              (ltb t.similarity_threshold x.similarity && ltb best.max_similarity x.similarity)) [
                | inl g ↦
                    let seen = get-All IsSeen c k x e h.1 in
                    rw g (inr (id, refl, i, seen.0 (ground (arith, g)), seen.1))
                | inr g ↦ rw g m
              ]))
  ]

  best_match-Gives :
      (full : Dict Registered) (rs : Dict Registered) (found : Dict (Dict Recognised)) (best : Best)
      → All (λ e. In e.0 (keys full)) rs
      → Aligned rs found
      → IsMatch full best
      → Gives (IsMatch full) (best_match rs found best)
  unfolding best_match
  best_match-Gives full [] found best i a m = (best, refl, m)
  best_match-Gives full ((id, r) ∷ rs) found best i a m =
      let (c, e, h) = a.0 in
      let (next, f, m') = best_field-Gives full id r c r.key_fields best i.0 h m in
      rw (e, f) (best_match-Gives full rs found next i.1 a.1 m')

  -- A result, if any, with the stretch of time from the first frame to this one.
  abbrev pub IsTimed : OcrInfoManager → Frame → Option OcrTrackingResult → Type 0
  IsTimed m frame none = Unit
  IsTimed m frame (some r) = r.time_patch ≡ time_patch_of m frame

  entries_in : (rs : Dict Registered) → All (λ e. In e.0 (keys rs)) rs
  entries_in rs = map_in rs (All-In_self (keys rs))
    where
      map_in :
          (es : Dict Registered)
          → All (λ k. In k (keys rs)) (keys es)
          → All (λ e. In e.0 (keys rs)) es
      map_in [] h = tt
      map_in (e ∷ es) h = (h.0, map_in es h.1)

  found_at :
      (found : Dict (Dict Recognised)) (es : Dict Registered) (id : Text)
      → In id (keys es)
      → Aligned es found
      → Gives {0, 0} (λ _. Unit) (get found id)
  found_at found [] id i b = absurd i
  found_at found ((j, r) ∷ es) id (inl i) b = let (c, e, _) = b.0 in (c, ap (get found) i ∙ e, tt)
  found_at found ((j, r) ∷ es) id (inr i) b = found_at found es id i b.1

  pub is_taken-Accepted : (o : Option (List ℤ)) → Accepted o → is_taken o ≡ true
  is_taken-Accepted none h = refl
  is_taken-Accepted (some bbox) h = h

  recog_result-Gives :
      (m : OcrInfoManager) (frame : Frame) (best : Best)
      → Aligned m.expected_contents m.recognized_contents
      → IsMatch m.expected_contents best
      → Gives (IsTimed m frame) (recog_result m frame best)
  unfolding recog_result
  recog_result-Gives m frame best a (inl n) = rw (n, recog_result) (none, refl, tt)
  recog_result-Gives m frame best a (inr (id, s, i, (f, g, _), boxed)) =
      let (r, k, _) = get-In m.expected_contents id i in
      let (c, l, _) = found_at m.recognized_contents m.expected_contents id i a in
      rw (s, recog_result, k, l, g, is_taken-Accepted best.bbox boxed) (some _, refl, refl)

  pub gen_recog_tracking_result-Gives :
      (m : OcrInfoManager) (frame : Frame)
      → Aligned m.expected_contents m.recognized_contents
      → Gives (IsTimed m frame) (gen_recog_tracking_result m frame)
  unfolding gen_recog_tracking_result
  gen_recog_tracking_result-Gives m frame a =
      let (best, e, h) =
        best_match-Gives m.expected_contents m.expected_contents m.recognized_contents
          (record { max_similarity = 0; matched_id = none; best_frame = none; bbox = none })
          (entries_in m.expected_contents) a (inl refl) in
      rw e (recog_result-Gives m frame best a h)
