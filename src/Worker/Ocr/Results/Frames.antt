-- ===== src/Worker/Ocr/Results/Frames.antt =====
-- process, on one frame and on the frames of a video.
use video_flow.Prelude.Int.{ℤ}
use mathlib.Core.Bool.{false≢true}
use video_flow.Prelude.{
  All-weaken, if-both, if_true, map, ◌≡◌, refl, ap, sym, inl, inr, true, [], ◌∷◌, ◌∙◌, some, All,
  Bool, Option, ℕ, List, select,
}
use video_flow.Prelude.Dict.{Dict}
use video_flow.Prelude.Partial.{Gives, ◌>>=◌}
use video_flow.Worker.Ocr.{calc_text_similarity, Distances, Validator, OcrInfo}
use video_flow.Worker.Ocr.Results.{is_nonempty, generate, process}
use video_flow.Worker.Ocr.Recognition.{do_recognition}
use video_flow.Worker.Ocr.Manager.{
  Recognised, OcrInfoManager, tolerance, check_ocr_type, do_detection, detected_all,
}
use video_flow.Worker.Tracking.{Frame}
use video_flow.Worker.Ocr.Results.Detected.{HasFrame, IsUsable, with_history, detected_all-Detected}
use video_flow.Worker.Ocr.Results.Aligned.{IsBoxed, Answers, Aligned, recognise_infos-Gives}
use video_flow.Worker.Ocr.Results.Spans.{Span, span_step, span_of, times_of, IsRunning}
use video_flow.Worker.Ocr.Results.Runs.{Setup, Moved, generate-Moved}

module _ ⦃valid : Validator⦄ where
  -- What do_detection lets pass.
  abbrev pub seen : OcrInfoManager → List OcrInfo → List OcrInfo
  seen m infos = select (check_ocr_type m) infos

  -- The manager behind the detections of one frame.
  record Looked (m : OcrInfoManager) (ps : List OcrInfo) (o : Option OcrInfoManager) : Type 0 where
    area : ℕ
    confidence : Option ℕ
    bbox : Option (List ℤ)
    info : Option OcrInfo
    frame : Option Frame
    gives : o ≡ some (with_history m area confidence bbox info frame)
    running : IsRunning (with_history m area confidence bbox info frame)
    has_frame : is_nonempty ps ≡ true → HasFrame frame

  detected_all-Looked :
      (m : OcrInfoManager) (ps : List OcrInfo) (frame : Frame)
      → All (IsUsable m.variant) ps
      → IsRunning m
      → Looked m ps (detected_all m ps frame)
  unfolding detected_all
  detected_all-Looked m [] frame u h = record {
    area = m.max_area;
    confidence = m.max_confidence;
    bbox = m.max_bbox;
    info = m.stored_info;
    frame = m.stored_frame;
    gives = refl;
    running = h;
    has_frame = λ e. absurd (false≢true e);
  }
  detected_all-Looked m (p ∷ ps) frame u h =
      let (m', e, d) = detected_all-Detected m p ps frame u h.compares h.begun h.boxed in
      record {
        area = d.area;
        confidence = d.confidence;
        bbox = d.bbox;
        info = d.info;
        frame = d.frame;
        gives = e ∙ ap some d.same;
        running = record {
          detects = h.detects;
          aligned = h.aligned;
          compares = d.compares;
          begun = inl d.has_frame;
          phase = elim h.phase [ inl w ↦ inl w | inr (c, _) ↦ inr (c, d.has_frame) ];
          boxed = d.boxed;
        };
        has_frame = λ _. d.has_frame;
      }

  do_recognition-Gives :
      (distances : Distances) (m : OcrInfoManager) (ps : List OcrInfo) (frame : Frame)
      → Answers (calc_text_similarity distances m.method)
      → All IsBoxed ps
      → Aligned m.expected_contents m.recognized_contents
      → (found : Dict (Dict Recognised)) × (do_recognition distances m ps frame
          ≡ some (record m { recognized_contents = found }))
        × Aligned m.expected_contents found
  unfolding do_recognition
  do_recognition-Gives distances m ps frame answers boxed a =
      let (found, e, b) =
        if-both (Gives (Aligned m.expected_contents)) m.need_recognition _ _
          (recognise_infos-Gives (calc_text_similarity distances m.method) answers m.variant frame
            m.expected_contents ps m.recognized_contents boxed a)
          (m.recognized_contents, refl, a) in
      (found, rw e refl, b)

  do_detection-seen :
      (m m' : OcrInfoManager) (ps infos : List OcrInfo) (frame : Frame)
      → m.need_detection ≡ true
      → seen m infos ≡ ps
      → detected_all m ps frame ≡ some m'
      → do_detection m infos frame ≡ some (ps, m')
  unfolding do_detection
  do_detection-seen m m' ps infos frame d q e = if_true m.need_detection _ _ d ∙ rw (q, e) refl

  -- The frame that is kept does not change what passes.
  seen_frame :
      (m : OcrInfoManager) (frame : Frame) (infos : List OcrInfo)
      → seen (record m { frame = some frame }) infos ≡ seen m infos
  unfolding check_ocr_type
  seen_frame m frame infos = refl

  process-generate :
      (distances : Distances) (m m1 m2 : OcrInfoManager) (ps infos : List OcrInfo) (frame : Frame)
      → do_detection (record m { frame = some frame }) infos frame ≡ some (ps, m1)
      → do_recognition distances m1 ps frame ≡ some m2
      → process distances m infos frame ≡ generate m2 (is_nonempty ps) frame
  unfolding process
  process-generate distances m m1 m2 ps infos frame e f = rw (e, f) refl

  process-Moved :
      (distances : Distances) (m : OcrInfoManager) (infos : List OcrInfo) (frame : Frame)
      → Answers (calc_text_similarity distances m.method)
      → All (IsUsable m.variant) (seen m infos)
      → IsRunning m
      → Moved m
          (span_step (tolerance m) (is_nonempty (seen m infos)) frame.timestamp (span_of m))
          (process distances m infos frame)
  process-Moved distances m infos frame answers u h =
      let m0 = record m { frame = some frame } in
      let ps = seen m infos in
      let running : IsRunning m0 = record {
        detects = h.detects;
        aligned = h.aligned;
        compares = h.compares;
        begun = h.begun;
        phase = h.phase;
        boxed = h.boxed;
      } in
      let l = detected_all-Looked m0 ps frame u running in
      let m1 = with_history m0 l.area l.confidence l.bbox l.info l.frame in
      let (found, e, b) =
        do_recognition-Gives distances m1 ps frame answers
          (All-weaken (IsUsable m.variant) IsBoxed (λ i w. w.2) ps u) l.running.aligned in
      let m2 = record m1 { recognized_contents = found } in
      let detection : do_detection m0 infos frame ≡ some (ps, m1) =
        do_detection-seen m0 m1 ps infos frame h.detects (seen_frame m frame infos) l.gives in
      let d =
        generate-Moved m2 (is_nonempty ps) frame l.running.phase
          (record {
            detects = l.running.detects;
            aligned = b;
            compares = l.running.compares;
            begun = l.running.begun;
            phase = l.running.phase;
            boxed = l.running.boxed;
          })
          l.has_frame in
      record {
        result = d.result;
        next = d.next;
        gives = process-generate distances m m1 m2 ps infos frame detection e ∙ d.gives;
        running = d.running;
        config = record {
          fps = d.config.fps;
          variant = d.config.variant;
          ocr_type = d.config.ocr_type;
          expected = d.config.expected;
          detection = d.config.detection;
          method = d.config.method;
        };
        moves = d.moves;
      }

  check_ocr_type-Setup :
      (m m' : OcrInfoManager) (info : OcrInfo)
      → Setup m m'
      → check_ocr_type m' info ≡ check_ocr_type m info
  unfolding check_ocr_type
  check_ocr_type-Setup m m' info c = rw (c.expected, c.detection, c.ocr_type) refl

  seen-Setup :
      (m m' : OcrInfoManager) (infos : List OcrInfo) → Setup m m' → seen m' infos ≡ seen m infos
  seen-Setup m m' [] c = refl
  seen-Setup m m' (i ∷ is) c = rw (check_ocr_type-Setup m m' i c, seen-Setup m m' is c) refl

  -- The frames of a video with what is found in them, one after another: the times of each answer.
  unfoldable pub process_all :
      Distances
      → OcrInfoManager
      → List (List OcrInfo × Frame)
      → Option (List (Option (ℕ × ℕ)) × OcrInfoManager)
  unfolding process
  process_all distances m [] = some ([], m)
  process_all distances m ((infos, frame) ∷ frames) = do
    (result, next) ← process distances m infos frame
    (results, last) ← process_all distances next frames
    some (times_of result ∷ results, last)

  -- The same by the machine: only whether something passes, and the time, count.
  abbrev pub span_run : ℕ → List (Bool × ℕ) → Span → List (Option (ℕ × ℕ)) × Span
  span_run most [] s = ([], s)
  span_run most ((b, time) ∷ bs) s =
      let (o, next) = span_step most b time s in
      let (os, last) = span_run most bs next in (o ∷ os, last)

  abbrev pub matches : OcrInfoManager → List (List OcrInfo × Frame) → List (Bool × ℕ)
  matches m frames = map (λ (infos, frame). (is_nonempty (seen m infos), frame.timestamp)) frames

  abbrev pub AreUsable : OcrInfoManager → List (List OcrInfo × Frame) → Type 0
  AreUsable m frames = All (λ (infos, frame). All (IsUsable m.variant) (seen m infos)) frames

  AreUsable-Setup :
      (m m' : OcrInfoManager) (frames : List (List OcrInfo × Frame))
      → Setup m m'
      → AreUsable m frames
      → AreUsable m' frames
  AreUsable-Setup m m' [] c u = tt
  AreUsable-Setup m m' ((infos, frame) ∷ frames) c u =
      (rw (seen-Setup m m' infos c, c.variant) u.0, AreUsable-Setup m m' frames c u.1)

  matches-Setup :
      (m m' : OcrInfoManager) (frames : List (List OcrInfo × Frame))
      → Setup m m'
      → matches m' frames ≡ matches m frames
  matches-Setup m m' [] c = refl
  matches-Setup m m' ((infos, frame) ∷ frames) c =
      rw (seen-Setup m m' infos c, matches-Setup m m' frames c) refl

  span_run-step :
      (most time : ℕ) (b : Bool) (bs : List (Bool × ℕ)) (s next last : Span) (o : Option (ℕ × ℕ))
      (os : List (Option (ℕ × ℕ)))
      → (o, next) ≡ span_step most b time s
      → (os, last) ≡ span_run most bs next
      → (o ∷ os, last) ≡ span_run most ((b, time) ∷ bs) s
  span_run-step most time b bs s next last o os e f = rw (sym e, sym f) refl

  -- For a manager that detects, between two frames, with a method that compares any two texts, and frames
  -- in which each thing that passes has a legal box or none, a confidence above 0 where the manager is one
  -- for cards, and a box and polygons that pydantic takes as lists of integers: processing the frames
  -- raises nothing, leaves such a manager, and its results, with their start and end times, are those of
  -- the machine that only sees whether something passes: the first match starts a span, a later one renews
  -- the tolerance, and the frame that uses it up ends the span with a result.
  pub process_all-spans :
      (distances : Distances) (m : OcrInfoManager) (frames : List (List OcrInfo × Frame))
      → Answers (calc_text_similarity distances m.method)
      → IsRunning m
      → AreUsable m frames
      → (results : List (Option (ℕ × ℕ))) × (last : OcrInfoManager) × (process_all distances m
            frames
          ≡ some (results, last))
        × IsRunning last
        × ((results, span_of last) ≡ span_run (tolerance m) (matches m frames) (span_of m))
  unfolding process_all
  process_all-spans distances m [] answers h u = ([], m, refl, h, refl)
  process_all-spans distances m ((infos, frame) ∷ frames) answers h u =
      let d = process-Moved distances m infos frame answers u.0 h in
      let (results, last, e, running, moves) =
        process_all-spans distances d.next frames (rw d.config.method answers) d.running
          (AreUsable-Setup m d.next frames d.config u.1) in
      let rest : span_run (tolerance d.next) (matches d.next frames) (span_of d.next)
          ≡ span_run (tolerance m) (matches m frames) (span_of d.next) =
        rw (d.config.fps, matches-Setup m d.next frames d.config) refl in
      (
        times_of d.result ∷ results,
        last,
        rw (d.gives, e) refl,
        running,
        span_run-step (tolerance m) frame.timestamp (is_nonempty (seen m infos)) (matches m frames)
            (span_of m) (span_of d.next) (span_of last) (times_of d.result) results d.moves
            (moves ∙ rest),
      )
