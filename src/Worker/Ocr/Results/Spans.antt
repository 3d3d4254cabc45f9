-- ===== src/Worker/Ocr/Results/Spans.antt =====
-- A manager follows a simple machine: a result for a stretch of frames that match, and for the pause behind it.
use video_flow.Worker.Ocr.Results.Aligned.{
  is_taken-Accepted, FitsAt, IsTimed, gen_recog_tracking_result-Gives, Aligned, IsSeen,
}
use video_flow.Worker.Ocr.Manager.{tolerance, cleared}
use video_flow.Prelude.{
  map, ◌≡◌, refl, ap, inl, inr, true, false, arith, Bool-cases, [], ◌∷◌, ◌∙◌, ◌-◌, ◌==◌, ◌<◌, ◌⊎◌,
  some, none, if◌then◌else◌, All, All-weaken, Bool, ltb, Option, ℕ,
}
use video_flow.Prelude.Dict.{Dict, keys, get}
use video_flow.Worker.Ocr.Results.{
  time_patch_of, gen_detect_tracking_result, gen_tracking_result, OcrTrackingResult,
}
use video_flow.Worker.Ocr.Manager.{
  reinit, Recognised, OcrInfoManager, tolerance, cleared, Variant, base, doc, id_card,
}
use video_flow.Worker.Tracking.{Frame}
use video_flow.Prelude.Text.{Text, text_eq}
use video_flow.Worker.Ocr.Results.Detected.{Accepted, Begun, Compares, HasFrame}
use video_flow.Worker.Ocr.{Validator}

module _ ⦃valid : Validator⦄ where
  -- Nothing matched yet; or a match at `start`, with what is left of the tolerance.
  pub data Span : Type 0 where
    waiting : Span
    tracking : (start left : ℕ) → Span

  -- A frame that matches, or not, at a time: the first match starts a span, a later one renews its
  -- tolerance, and a pause as long as the tolerance ends it.
  abbrev pub span_next : ℕ → ℕ → ℕ → Option (ℕ × ℕ) × Span
  span_next start time left =
      if left == 0 then (some (start, time), waiting) else (none, tracking start left)

  abbrev pub span_step : ℕ → Bool → ℕ → Span → Option (ℕ × ℕ) × Span
  span_step most true time waiting = (none, tracking time most)
  span_step most false time waiting = (none, waiting)
  span_step most true time (tracking start left) = span_next start time most
  span_step most false time (tracking start left) = span_next start time (left - 1000)

  abbrev pub start_of : OcrInfoManager → ℕ
  start_of m = elim m.start_time [ none ↦ 0 | some t ↦ t ]

  -- The machine's state in a manager, and its answer in a result.
  abbrev pub span_of : OcrInfoManager → Span
  span_of m = if ltb 0 m.frames_count then tracking (start_of m) m.ttl else waiting

  abbrev pub times_of : Option OcrTrackingResult → Option (ℕ × ℕ)
  times_of none = none
  times_of (some r) = some (r.time_patch.start_time, r.time_patch.end_time)

  abbrev pub Phase : ℕ → ℕ → ℕ → Option Frame → Type 0
  Phase count ttl most frame = ((count ≡ 0) × (ttl ≡ most)) ⊎ ((0 < count) × HasFrame frame)

  -- A manager that detects, between two frames.
  pub record IsRunning (m : OcrInfoManager) : Type 0 where
    pub detects : m.need_detection ≡ true
    pub aligned : Aligned m.expected_contents m.recognized_contents
    pub compares : Compares m.variant m.max_confidence
    pub begun : Begun m.max_area m.max_confidence m.stored_frame
    pub phase : Phase m.frames_count m.ttl (tolerance m) m.stored_frame
    pub boxed : Accepted m.max_bbox

  pub gen_tracking_result-Gives :
      (m : OcrInfoManager) (frame : Frame)
      → m.need_detection ≡ true
      → Aligned m.expected_contents m.recognized_contents
      → HasFrame m.stored_frame
      → Accepted m.max_bbox
      → (r : OcrTrackingResult) × (gen_tracking_result m frame ≡ some (some r))
        × (r.time_patch ≡ time_patch_of m frame)
  unfolding gen_tracking_result gen_detect_tracking_result
  gen_tracking_result-Gives m frame d a (f, g, _) boxed = elim (Bool-cases m.need_recognition) [
    | inl e ↦
        let (o, h, t) = gen_recog_tracking_result-Gives m frame a in rw (e, h) (or_detected o t)
    | inr e ↦ rw e (or_detected none tt)
  ]
    where
      or_detected :
          (o : Option OcrTrackingResult)
          → IsTimed m frame o
          → (r : OcrTrackingResult) × (elim o [
            | some result ↦ some (some result)
            | none ↦ gen_detect_tracking_result m frame
          ]
              ≡ some (some r))
            × (r.time_patch ≡ time_patch_of m frame)
      or_detected (some r) t = (r, refl, t)
      or_detected none t = rw (d, g, is_taken-Accepted m.max_bbox boxed) (_, refl, refl)

  cleared-All :
      (c : Dict Recognised) → (keys (cleared c) ≡ keys c) × All (λ e. IsSeen e.1) (cleared c)
  cleared-All [] = (refl, tt)
  cleared-All ((k, r) ∷ c) =
      let (e, h) = cleared-All c in
      (ap (λ ks. k ∷ ks) e, (((λ p. absurd (omega (arith, p))), tt), h))

  get-cleared :
      (found : Dict (Dict Recognised)) (id : Text) (c : Dict Recognised)
      → get found id ≡ some c
      → get (map (λ e. (e.0, cleared e.1)) found) id ≡ some (cleared c)
  get-cleared [] id c h = absurd (cc h)
  get-cleared ((j, x) ∷ found) id c h = elim (Bool-cases (text_eq j id)) [
    | inl e ↦ let g : x ≡ c = cc (rw e at h) in rw (e, g) refl
    | inr e ↦ rw e (get-cleared found id c (rw e at h))
  ]

  -- _reinit leaves a manager that waits.
  pub reinit-IsRunning :
      (m : OcrInfoManager)
      → m.need_detection ≡ true
      → Aligned m.expected_contents m.recognized_contents
      → IsRunning (reinit m)
  unfolding reinit
  reinit-IsRunning m d a = record {
    detects = d;
    aligned =
        All-weaken (FitsAt m.recognized_contents)
          (FitsAt (map (λ e. (e.0, cleared e.1)) m.recognized_contents))
          (λ (id, r) (c, e, (ks, h)).
            let (ks', h') = cleared-All c in
            (cleared c, get-cleared m.recognized_contents id c e, (ks' ∙ ks, h')))
          m.expected_contents a;
    compares = compares_zero m.variant;
    begun = inr (refl, refl);
    phase = inl (refl, refl);
    boxed = tt;
  }
    where
      compares_zero : (x : Variant) → Compares x (some 0)
      compares_zero base = tt
      compares_zero doc = tt
      compares_zero id_card = (0, refl, tt)
