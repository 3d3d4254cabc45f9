-- ===== src/Worker/Ocr/Results/Detected.antt =====
-- What do_detection keeps: a frame is stored once something was detected.
use video_flow.Worker.Boxes.Ratios.{one_part, mul-pos}
use video_flow.Worker.Boxes.Overlap.{check_box_legal, IsLegal}
use video_flow.Worker.Boxes.{Box}
use video_flow.Prelude.Partial.{Gives}
use video_flow.Worker.Tracking.{Frame}
use video_flow.Worker.Ocr.{Validator, doubled_area, TextBlock, OcrInfo}
use video_flow.Prelude.Int.{
  ◌+ℤ◌, -ℤ_parts, -ℤ_parts, ◌-ℤ◌, +ℤ_parts, ◌≤ℤ◌, negsuc, pos_part, pos, ltb_ℤ, ℤ,
}
use video_flow.Prelude.{
  ap, ltb, ◌≡◌, ℕ, Option, refl, sym, inl, inr, true, false, arith, Bool-cases, [], ◌∷◌, ◌∙◌, ◌<◌,
  ◌⊎◌, some, none, if◌then◌else◌, List, All,
}
use video_flow.Worker.Ocr.Manager.{
  side_length, update_history, stored, detected_all, detected, box_of, card_confidence,
  largest_block, get_bbox, Variant, base, doc, id_card, OcrInfoManager,
}

module _ ⦃valid : Validator⦄ where
  -- A box that is legal, or none.
  abbrev pub Framed : List ℤ → Type 0
  Framed [] = Unit
  Framed (c ∷ cs) = (b : Box) × (box_of (c ∷ cs) ≡ some b) × IsLegal b

  -- A card must have a confidence above 0.
  abbrev pub Confident : Variant → OcrInfo → Type 0
  Confident id_card info = (c : ℕ) × (card_confidence info ≡ some c) × (0 < c)
  Confident base info = Unit
  Confident doc info = Unit

  -- A box that pydantic takes, or none.
  abbrev pub Accepted : Option (List ℤ) → Type 0
  Accepted none = Unit
  Accepted (some bbox) = valid.accepts bbox ≡ true

  abbrev pub IsUsable : Variant → OcrInfo → Type 0
  IsUsable variant info =
      Framed info.bbox
      × Confident variant info
      × Accepted (some info.bbox)
      × All (λ (b : TextBlock). Accepted (some b.polygon)) info.text_blocks

  -- The manager with another history of detections.
  abbrev pub with_history :
      OcrInfoManager
      → ℕ
      → Option ℕ
      → Option (List ℤ)
      → Option OcrInfo
      → Option Frame
      → OcrInfoManager
  with_history m area confidence bbox info frame = record m {
    max_area = area;
    max_confidence = confidence;
    max_bbox = bbox;
    stored_info = info;
    stored_frame = frame;
  }

  abbrev pub Compares : Variant → Option ℕ → Type 0
  Compares id_card c = Gives {0, 0} (λ _. Unit) c
  Compares base c = Unit
  Compares doc c = Unit

  abbrev pub HasFrame : Option Frame → Type 0
  HasFrame f = Gives {0, 0} (λ _. Unit) f

  -- Nothing detected yet, or a frame is stored.
  abbrev pub Begun : ℕ → Option ℕ → Option Frame → Type 0
  Begun area confidence frame = HasFrame frame ⊎ ((area ≡ 0) × (confidence ≡ some 0))

  -- The manager behind a detection: only its history is another, and a frame is stored.
  pub record Detected (v : Variant) (m m' : OcrInfoManager) : Type 0 where
    pub area : ℕ
    pub confidence : Option ℕ
    pub bbox : Option (List ℤ)
    pub info : Option OcrInfo
    pub frame : Option Frame
    pub same : m' ≡ with_history m area confidence bbox info frame
    pub compares : Compares v confidence
    pub has_frame : HasFrame frame
    pub boxed : Accepted bbox

  above_zero : (a : ℕ) (z : ℤ) → ltb_ℤ (pos a) z ≡ true → 0 < pos_part z
  above_zero a (pos n) h = ground (arith, h)
  above_zero a (negsuc n) h = ground (arith, h)

  largest_block-pos :
      (o : Option (List ℤ)) (a : ℕ) (bs : List TextBlock) → 0 < a → 0 < (largest_block o a bs).1
  unfolding largest_block
  largest_block-pos o a [] h = h
  largest_block-pos o a (b ∷ bs) h = elim (Bool-cases (ltb_ℤ (pos a) (doubled_area b.polygon))) [
    | inl e ↦ rw e (largest_block-pos (some b.polygon) _ bs (above_zero a _ e))
    | inr e ↦ rw e (largest_block-pos o a bs h)
  ]

  largest_block-Accepted :
      (o : Option (List ℤ)) (a : ℕ) (bs : List TextBlock)
      → Accepted o
      → All (λ (b : TextBlock). Accepted (some b.polygon)) bs
      → Accepted (largest_block o a bs).0
  unfolding largest_block
  largest_block-Accepted o a [] h k = h
  largest_block-Accepted o a (b ∷ bs) h k =
      elim (Bool-cases (ltb_ℤ (pos a) (doubled_area b.polygon))) [
        | inl e ↦ rw e (largest_block-Accepted (some b.polygon) _ bs k.0 k.1)
        | inr e ↦ rw e (largest_block-Accepted o a bs h k.1)
      ]

  side_length-pos : (a b : ℤ) → a ≤ℤ b → 0 < side_length a b
  side_length-pos a b h =
      omega (arith, +ℤ_parts (b -ℤ a) (pos 1000), -ℤ_parts b a, one_part (b -ℤ a +ℤ pos 1000))

  get_bbox-Gives :
      (info : OcrInfo) (cs : List ℤ)
      → info.bbox ≡ cs
      → Framed cs
      → Accepted (some cs)
      → All (λ (b : TextBlock). Accepted (some b.polygon)) info.text_blocks
      → Gives (λ (p : Option (List ℤ) × ℕ). (0 < p.1) × Accepted p.0) (get_bbox info)
  unfolding get_bbox
  get_bbox-Gives info [] e h k ks =
      rw (e, get_bbox)
        (
          _,
          refl,
          (
            largest_block-pos none 200000 info.text_blocks (omega arith),
            largest_block-Accepted none 200000 info.text_blocks tt ks,
          ),
        )
  get_bbox-Gives info (c ∷ cs) e (b, f, l) k ks =
      let p =
        mul-pos (side_length b.x1 b.x2) (side_length b.y1 b.y2) (side_length-pos _ _ l.across)
          (side_length-pos _ _ l.down) in
      rw (e, get_bbox, f, check_box_legal b l) (_, refl, (omega arith, k))

  stored-Detected :
      (v : Variant) (m : OcrInfoManager) (info : OcrInfo) (frame : Frame) (bbox : Option (List ℤ))
      (area : ℕ) (c : Option ℕ)
      → Compares v c
      → Accepted bbox
      → Detected v m (stored m info frame bbox area c)
  stored-Detected v m info frame bbox area c k boxed = record {
    area = area;
    confidence = c;
    bbox = bbox;
    info = some info;
    frame = some frame;
    same = refl;
    compares = k;
    has_frame = (frame, refl, tt);
    boxed = boxed;
  }

  kept-Detected :
      (v : Variant) (m : OcrInfoManager)
      → Compares v m.max_confidence
      → HasFrame m.stored_frame
      → Accepted m.max_bbox
      → Detected v m m
  kept-Detected v m k f boxed = record {
    area = m.max_area;
    confidence = m.max_confidence;
    bbox = m.max_bbox;
    info = m.stored_info;
    frame = m.stored_frame;
    same = refl;
    compares = k;
    has_frame = f;
    boxed = boxed;
  }

  -- What is not larger than the history came behind a stored frame.
  Begun-area :
      (area new : ℕ) (c : Option ℕ) (f : Option Frame)
      → Begun area c f
      → 0 < new
      → ltb area new ≡ false
      → HasFrame f
  Begun-area area new c f (inl h) p e = h
  Begun-area area new c f (inr (z, _)) p e = absurd (ground (arith, e))

  Begun-confidence :
      (area most new : ℕ) (c : Option ℕ) (f : Option Frame)
      → c ≡ some most
      → Begun area c f
      → 0 < new
      → ltb most new ≡ false
      → HasFrame f
  Begun-confidence area most new c f s (inl h) p e = h
  Begun-confidence area most new c f s (inr (_, z)) p e =
      let zero_most : some 0 ≡ some most = sym z ∙ s in absurd (ground (arith, e, zero_most))

  by_area :
      (v : Variant) (m : OcrInfoManager) (info : OcrInfo) (frame : Frame) (bbox : Option (List ℤ))
      (area : ℕ)
      → ((c : Option ℕ) → Compares v c)
      → Begun m.max_area m.max_confidence m.stored_frame
      → 0 < area
      → Accepted bbox
      → Accepted m.max_bbox
      → Detected v m
          (if ltb m.max_area area then stored m info frame bbox area info.confidence else m)
  by_area v m info frame bbox area k b p n o = elim (Bool-cases (ltb m.max_area area)) [
    | inl e ↦ rw e (stored-Detected v m info frame bbox area info.confidence (k info.confidence) n)
    | inr e ↦ rw e (kept-Detected v m (k m.max_confidence) (Begun-area m.max_area area _ _ b p e) o)
  ]

  update_history-Detected :
      (v : Variant) (m : OcrInfoManager) (info : OcrInfo) (frame : Frame) (bbox : Option (List ℤ))
      (area : ℕ)
      → Confident v info
      → Compares v m.max_confidence
      → Begun m.max_area m.max_confidence m.stored_frame
      → 0 < area
      → Accepted bbox
      → Accepted m.max_bbox
      → Gives (Detected v m) (update_history v m info frame bbox area)
  unfolding update_history
  update_history-Detected id_card m info frame bbox area (c, f, q) (most, s, _) b p n o =
      elim (Bool-cases (ltb most c)) [
        | inl h ↦
            let eq : update_history id_card m info frame bbox area
                ≡ some (stored m info frame bbox area (some c)) =
              rw (f, s, h) refl in
            (_, eq, stored-Detected id_card m info frame bbox area (some c) (c, refl, tt) n)
        | inr h ↦
            let eq : update_history id_card m info frame bbox area ≡ some m = rw (f, s, h) refl in
            (
              m,
              eq,
              kept-Detected id_card m (most, s, tt) (Begun-confidence m.max_area most c _ _ s b q h)
                  o,
            )
      ]
  update_history-Detected base m info frame bbox area u k b p n o =
      (_, refl, by_area base m info frame bbox area (λ c. tt) b p n o)
  update_history-Detected doc m info frame bbox area u k b p n o =
      (_, refl, by_area doc m info frame bbox area (λ c. tt) b p n o)

  -- One detection, from a history that has begun well.
  detected-Detected :
      (m : OcrInfoManager) (info : OcrInfo) (frame : Frame)
      → IsUsable m.variant info
      → Compares m.variant m.max_confidence
      → Begun m.max_area m.max_confidence m.stored_frame
      → Accepted m.max_bbox
      → Gives (Detected m.variant m) (detected m info frame)
  unfolding detected
  detected-Detected m info frame u k b o =
      let ((bbox, area), e, (p, n)) = get_bbox-Gives info info.bbox refl u.0 u.2 u.3 in
      rw e (update_history-Detected m.variant m info frame bbox area u.1 k b p n o)

  detected_all-step :
      (m next : OcrInfoManager) (info : OcrInfo) (infos : List OcrInfo) (frame : Frame)
      → detected m info frame ≡ some next
      → detected_all m (info ∷ infos) frame ≡ detected_all next infos frame
  unfolding detected_all
  detected_all-step m next info infos frame e = rw e refl

  detected_all-nil : (m : OcrInfoManager) (frame : Frame) → detected_all m [] frame ≡ some m
  unfolding detected_all
  detected_all-nil m frame = refl

  -- Any detections but none: a frame is stored, and only the history is another.
  pub detected_all-Detected :
      (m : OcrInfoManager) (info : OcrInfo) (infos : List OcrInfo) (frame : Frame)
      → All (IsUsable m.variant) (info ∷ infos)
      → Compares m.variant m.max_confidence
      → Begun m.max_area m.max_confidence m.stored_frame
      → Accepted m.max_bbox
      → Gives (Detected m.variant m) (detected_all m (info ∷ infos) frame)
  detected_all-Detected m info [] frame u k b o =
      let (m', e, d) = detected-Detected m info frame u.0 k b o in
      (m', detected_all-step m m' info [] frame e ∙ detected_all-nil m' frame, d)
  detected_all-Detected m info (i ∷ is) frame u k b o =
      let (m', e, d) = detected-Detected m info frame u.0 k b o in
      let next = with_history m d.area d.confidence d.bbox d.info d.frame in
      let (last, f, g) =
        detected_all-Detected next i is frame u.1 d.compares (inl d.has_frame) d.boxed in
      (
        last,
        detected_all-step m next info (i ∷ is) frame (e ∙ ap some d.same) ∙ f,
        record {
          area = g.area;
          confidence = g.confidence;
          bbox = g.bbox;
          info = g.info;
          frame = g.frame;
          same = g.same;
          compares = g.compares;
          has_frame = g.has_frame;
          boxed = g.boxed;
        },
      )
