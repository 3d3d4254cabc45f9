-- ===== src/Worker/Ocr/Results/Runs.antt =====
-- A frame, and any frames, move a manager as the machine of Spans moves.
use video_flow.Prelude.{
  ◌≡◌, refl, inl, inr, true, false, arith, Bool-cases, ◌∙◌, ◌+◌, ◌==◌, ◌<◌, some, none, Bool, ltb,
  Option, ℕ,
}
use video_flow.Worker.Ocr.Results.{OcrTrackingResult, counted_frame, finish_frame, generate}
use video_flow.Worker.Ocr.Manager.{reinit, OcrInfoManager, tolerance}
use video_flow.Worker.Tracking.{Frame}
use video_flow.Worker.Ocr.Results.Detected.{Accepted, Compares, HasFrame}
use video_flow.Worker.Ocr.Results.Aligned.{Aligned}
use video_flow.Worker.Ocr.Results.Spans.{
  Phase, Span, waiting, span_next, span_step, start_of, span_of, times_of, IsRunning,
  gen_tracking_result-Gives, reinit-IsRunning,
}
use video_flow.Worker.Ocr.{Validator}

module _ ⦃valid : Validator⦄ where
  -- What no frame changes.
  pub record Setup (m m' : OcrInfoManager) : Type 0 where
    pub fps : m'.fps ≡ m.fps
    pub variant : m'.variant ≡ m.variant
    pub ocr_type : m'.ocr_type ≡ m.ocr_type
    pub expected : m'.expected_contents ≡ m.expected_contents
    pub detection : m'.need_detection ≡ m.need_detection
    pub method : m'.method ≡ m.method

  -- What a frame gives: a result or none, and the manager behind it.
  pub record Moved (m : OcrInfoManager) (step : Option (ℕ × ℕ) × Span)
      (o : Option (Option OcrTrackingResult × OcrInfoManager)) : Type 0 where
    pub result : Option OcrTrackingResult
    pub next : OcrInfoManager
    pub gives : o ≡ some (result, next)
    pub running : IsRunning next
    pub config : Setup m next
    pub moves : (times_of result, span_of next) ≡ step

  reinit-Setup : (m : OcrInfoManager) → Setup m (reinit m)
  unfolding reinit
  reinit-Setup m = record {
    fps = refl;
    variant = refl;
    ocr_type = refl;
    expected = refl;
    detection = refl;
    method = refl;
  }

  reinit-span_of : (m : OcrInfoManager) → span_of (reinit m) ≡ waiting
  unfolding reinit
  reinit-span_of m = refl

  finish_frame-Moved :
      (m : OcrInfoManager) (frame : Frame)
      → m.need_detection ≡ true
      → Aligned m.expected_contents m.recognized_contents
      → Compares m.variant m.max_confidence
      → HasFrame m.stored_frame
      → Accepted m.max_bbox
      → 0 < m.frames_count
      → Moved m (span_next (start_of m) frame.timestamp m.ttl) (finish_frame m frame)
  unfolding finish_frame
  finish_frame-Moved m frame d a c f boxed p = elim (Bool-cases (m.ttl == 0)) [
    | inl e ↦
        let (r, g, t) = gen_tracking_result-Gives m frame d a f boxed in
        record {
          result = some r;
          next = reinit m;
          gives = rw (e, g) refl;
          running = reinit-IsRunning m d a;
          config = reinit-Setup m;
          moves = rw (e, t, reinit-span_of m) refl;
        }
    | inr e ↦ record {
      result = none;
      next = m;
      gives = rw e refl;
      running = record {
        detects = d;
        aligned = a;
        compares = c;
        begun = inl f;
        phase = inr (p, f);
        boxed = boxed;
      };
      config = record {
        fps = refl;
        variant = refl;
        ocr_type = refl;
        expected = refl;
        detection = refl;
        method = refl;
      };
      moves = let k : ltb 0 m.frames_count ≡ true = ground arith in rw (e, k) refl;
    }
  ]

  -- The step that a tracking manager makes, through the counters.
  generate_tracking :
      (m : OcrInfoManager) (b : Bool) (frame : Frame)
      → ltb 0 m.frames_count ≡ true
      → generate m b frame ≡ finish_frame (counted_frame b m) frame
  unfolding generate
  generate_tracking m b frame k = rw k refl

  pub generate-Moved :
      (m : OcrInfoManager) (b : Bool) (frame : Frame)
      → Phase m.frames_count m.ttl (tolerance m) m.stored_frame
      → IsRunning m
      → (b ≡ true → HasFrame m.stored_frame)
      → Moved m (span_step (tolerance m) b frame.timestamp (span_of m)) (generate m b frame)
  unfolding generate
  generate-Moved m true frame (inl (z, t)) h f =
      let k : ltb 0 m.frames_count ≡ false = ground arith in
      let after : ltb 0 (m.frames_count + 1) ≡ true = ground arith in
      record {
        result = none;
        next = record m { start_time = some frame.timestamp; frames_count = m.frames_count + 1 };
        gives = rw k refl;
        running = record {
          detects = h.detects;
          aligned = h.aligned;
          compares = h.compares;
          begun = h.begun;
          phase = inr (omega arith, f refl);
          boxed = h.boxed;
        };
        config = record {
          fps = refl;
          variant = refl;
          ocr_type = refl;
          expected = refl;
          detection = refl;
          method = refl;
        };
        moves = rw (k, after, t) refl;
      }
  generate-Moved m false frame (inl (z, t)) h f =
      let k : ltb 0 m.frames_count ≡ false = ground arith in
      record {
        result = none;
        next = m;
        gives = rw k refl;
        running = h;
        config = record {
          fps = refl;
          variant = refl;
          ocr_type = refl;
          expected = refl;
          detection = refl;
          method = refl;
        };
        moves = rw k refl;
      }
  generate-Moved m true frame (inr (p, s)) h f =
      let k : ltb 0 m.frames_count ≡ true = ground arith in
      let d =
        finish_frame-Moved (counted_frame true m) frame h.detects h.aligned h.compares s h.boxed
          (omega arith) in
      record {
        result = d.result;
        next = d.next;
        gives = generate_tracking m true frame k ∙ d.gives;
        running = d.running;
        config = record {
          fps = d.config.fps;
          variant = d.config.variant;
          ocr_type = d.config.ocr_type;
          expected = d.config.expected;
          detection = d.config.detection;
          method = d.config.method;
        };
        moves = d.moves ∙ rw k refl;
      }
  generate-Moved m false frame (inr (p, s)) h f =
      let k : ltb 0 m.frames_count ≡ true = ground arith in
      let d =
        finish_frame-Moved (counted_frame false m) frame h.detects h.aligned h.compares s h.boxed
          p in
      record {
        result = d.result;
        next = d.next;
        gives = generate_tracking m false frame k ∙ d.gives;
        running = d.running;
        config = record {
          fps = d.config.fps;
          variant = d.config.variant;
          ocr_type = d.config.ocr_type;
          expected = d.config.expected;
          detection = d.config.detection;
          method = d.config.method;
        };
        moves = d.moves ∙ rw k refl;
      }
