-- ===== src/Worker/Ocr/Results/Started.antt =====
-- A manager that is made to detect, and one with contents registered, stands between two frames.
use video_flow.Prelude.{
  if-cases, if-both, map, ◌≡◌, refl, ap, sym, true, false, arith, [], ◌∷◌, ◌∙◌, ◌==◌, ◌≢◌, All,
  All-append, Bool, Option, ℕ, List, not, length,
}
use video_flow.Prelude.Dict.{
  Dict, keys, assign, member, not-member, assign-new, get-assign, get-assign_other, text_eq-false,
}
use video_flow.Prelude.Text.{Text, text_eq}
use video_flow.Worker.Ocr.{Validator, OcrInfoType}
use video_flow.Worker.Ocr.Ids
use video_flow.Worker.Ocr.Ids.{is_ocr_type_match}
use video_flow.Worker.Ocr.Manager.{
  Variant, Expected, Recognised, Registered, OcrInfoManager, new_manager, blank_manager, registered,
  append_contents, nothing_recognised,
}
use video_flow.Worker.Ocr.Results.Aligned.{Aligned, FitsAt, IsSeen}
use video_flow.Worker.Ocr.Results.Spans.{IsRunning, reinit-IsRunning}

module _ ⦃valid : Validator⦄ where
  pub new_manager-IsRunning :
      (x : Variant) (t : OcrInfoType) (fps : ℕ) (method : Text) (recognises : Bool)
      → IsRunning (new_manager x t fps method true recognises)
  unfolding new_manager
  new_manager-IsRunning x t fps method recognises =
      reinit-IsRunning (blank_manager x t fps method true recognises)
        (if-both (λ b. b ≡ true) recognises true true refl refl) tt

  -- The fields that append_contents makes.
  empty-Fits :
      (es : Dict Expected)
      → (keys (map (λ e. (e.0, nothing_recognised)) es) ≡ keys es)
        × All
            (λ (e : Text × Recognised). IsSeen e.1)
            (map (λ (e : Text × Expected). (e.0, nothing_recognised)) es)
  empty-Fits [] = (refl, tt)
  empty-Fits ((k, e) ∷ es) =
      let (q, h) = empty-Fits es in
      (ap (λ ks. k ∷ ks) q, (((λ p. absurd (omega (arith, p))), tt), h))

  FitsAt_other :
      (found : Dict (Dict Recognised)) (id : Text) (c : Dict Recognised) (es : Dict Registered)
      → All (λ j. j ≢ id) (keys es)
      → Aligned es found
      → Aligned es (assign found id c)
  FitsAt_other found id c [] n a = tt
  FitsAt_other found id c ((j, r) ∷ es) n a =
      let (d, e, h) = a.0 in
      let apart : text_eq id j ≡ false = text_eq-false id j (λ q. n.0 (sym q)) in
      ((d, get-assign_other found id j c apart ∙ e, h), FitsAt_other found id c es n.1 a.1)

  registered-Aligned :
      (m : OcrInfoManager) (id : Text) (contents : Dict Expected) (fields : Option (List Text))
      → All (λ j. j ≢ id) (keys m.expected_contents)
      → Aligned m.expected_contents m.recognized_contents
      → Aligned
          (registered m id contents fields).expected_contents
          (registered m id contents fields).recognized_contents
  registered-Aligned m id contents fields n a =
      let c : Dict Recognised = map (λ e. (e.0, nothing_recognised)) contents in
      let found = assign m.recognized_contents id c in
      rw (assign-new m.expected_contents id _ n) (
        All-append (FitsAt found) m.expected_contents _
          (FitsAt_other m.recognized_contents id c m.expected_contents n a)
          ((c, get-assign m.recognized_contents id c, empty-Fits contents), tt))

  -- append_contents keeps a manager that detects, between two frames: whatever id, contents and key fields are given, the
  -- registered fields stay the recognised ones, and the state between two frames stays sound.
  pub append_contents-IsRunning :
      (m : OcrInfoManager) (id : Text) (contents : Dict Expected) (fields : Option (List Text))
      → IsRunning m
      → IsRunning (append_contents m id contents fields)
  unfolding append_contents
  append_contents-IsRunning m id contents fields h =
      if-both IsRunning (not (is_ocr_type_match id (Ids.member m.ocr_type))) _ _ h (
        if-cases IsRunning (member (keys m.expected_contents) id) _ _ (λ _. h)
          (λ e. if-both IsRunning (length contents == 0) _ _ h (record {
            detects = h.detects;
            aligned =
                registered-Aligned m id contents fields (not-member (keys m.expected_contents) id e)
                  h.aligned;
            compares = h.compares;
            begun = h.begun;
            phase = h.phase;
            boxed = h.boxed;
          })))
