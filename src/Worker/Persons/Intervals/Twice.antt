-- ===== src/Worker/Persons/Intervals/Twice.antt =====
-- The patches of a sequence come back from their gaps: processor.py keeps only what is lost, and
-- reverses it again for the report.
use video_flow.Prelude.{
  ℕ, ◌+◌, ◌≤◌, ◌<◌, ◌≡◌, refl, ap, ◌∙◌, ◌⊎◌, inl, inr, true, false, List, [], ◌∷◌, ◌++◌, arith, ltb,
  ◌==◌, if◌then◌else◌, All, order-cases, map,
}
use video_flow.Worker.TimePatch.{TimePatch, update_end_time}
use video_flow.Worker.Tracking.{patch_between, reverse_from}
use video_flow.Worker.Tracking.Patches.{IsApart}
use video_flow.Worker.Tracking.Gaps.{EndsBy, patch_between_end}
use video_flow.Worker.Persons.Intervals.{default_interval, reversed_time_patchs}

abbrev pub i : ℕ
i = default_interval

-- The patch with the default interval.
abbrev pub plain : TimePatch → TimePatch
plain p = patch_between i p.start_time p.end_time

reverse_from-same :
    (start D : ℕ) (p : TimePatch) (ps : List TimePatch)
    → start ≡ p.start_time
    → reverse_from i start (p ∷ ps) D ≡ reverse_from i p.end_time ps D
unfolding reverse_from
reverse_from-same start D p ps h =
    let e : (start == p.start_time) ≡ true = ground arith in rw (e, reverse_from) refl

reverse_from-gap :
    (start D : ℕ) (p : TimePatch) (ps : List TimePatch)
    → start < p.start_time
    → reverse_from i start (p ∷ ps) D
      ≡ patch_between i start p.start_time ∷ reverse_from i p.end_time ps D
unfolding reverse_from
reverse_from-gap start D p ps h =
    let e : (start == p.start_time) ≡ false = ground arith in rw (e, reverse_from) refl

reverse_from-tail :
    (start D : ℕ) → start < D → reverse_from i start [] D ≡ patch_between i start D ∷ []
unfolding reverse_from
reverse_from-tail start D h = let e : ltb start D ≡ true = ground arith in rw (e, reverse_from) refl

reverse_from-done : (start D : ℕ) → D ≤ start → reverse_from i start [] D ≡ []
unfolding reverse_from
reverse_from-done start D h =
    let e : ltb start D ≡ false = ground arith in rw (e, reverse_from) refl

-- What stands from one instant to another.
abbrev piece : ℕ → ℕ → List TimePatch
piece x start = if x == start then [] else patch_between i x start ∷ []

piece_same : (x start : ℕ) → x ≡ start → piece x start ≡ []
piece_same x start h = let e : (x == start) ≡ true = ground arith in rw e refl

piece_before : (x start : ℕ) → x < start → piece x start ≡ patch_between i x start ∷ []
piece_before x start h = let e : (x == start) ≡ false = ground arith in rw e refl

-- A gap, reversed, gives the patch before it.
reverse_from-piece :
    (x start t D : ℕ) (ps : List TimePatch)
    → x ≤ start
    → reverse_from i x (patch_between i start t ∷ ps) D ≡ piece x start ++ reverse_from i t ps D
unfolding update_end_time
reverse_from-piece x start t D ps h = elim (order-cases start x) [
  | inl le ↦
      let same : x ≡ start = omega arith in
      reverse_from-same x D (patch_between i start t) ps same
      ∙ rw (patch_between_end i start t, piece_same x start same) refl
  | inr lt ↦
      reverse_from-gap x D (patch_between i start t) ps lt
      ∙ rw (patch_between_end i start t, piece_before x start lt) refl
]

-- Each patch ends after it starts.
abbrev pub AreLong : List TimePatch → Type 0
AreLong ps = All (λ p. p.start_time < p.end_time) ps

-- The gaps from `start` on, reversed from `x` on, give the stretch between and the patches.
twice :
    (gap x start lo D : ℕ) (ps : List TimePatch)
    → x ≤ start
    → (start < lo) ⊎ (x ≡ start)
    → start ≤ lo
    → IsApart gap lo ps
    → AreLong ps
    → EndsBy start D ps
    → reverse_from i x (reverse_from i start ps D) D ≡ piece x start ++ map plain ps
twice gap x start lo D [] b s b' a f e = elim (order-cases D start) [
  | inl le ↦
      let same : start ≡ D = omega arith in
      rw (reverse_from-done start D le) (elim (order-cases D x) [
        | inl le' ↦ reverse_from-done x D le' ∙ rw (piece_same x start (omega arith)) refl
        | inr lt' ↦ reverse_from-tail x D lt' ∙ rw (piece_before x start (omega arith), same) refl
      ])
  | inr lt ↦
      rw (reverse_from-tail start D lt)
        (reverse_from-piece x start D D [] b ∙ rw (reverse_from-done D D (omega arith)) refl)
]
twice gap x start lo D (p ∷ ps) b s b' a f e =
    let next = λ (y : ℕ) (h : y ≤ p.start_time).
      twice gap y p.end_time (p.end_time + gap + 1) D ps (omega arith) (inl (omega arith))
        (omega arith) a.2 f.1 e in
    elim (order-cases p.start_time start) [
      | inl le ↦
          let same : start ≡ p.start_time = omega arith in
          let from : x ≡ p.start_time = omega arith in
          rw (reverse_from-same start D p ps same) (
            next x (omega arith)
            ∙ rw (piece_before x p.end_time (omega arith), piece_same x start (omega arith), from)
                refl)
      | inr lt ↦ rw (reverse_from-gap start D p ps lt) (
          reverse_from-piece x start p.start_time D (reverse_from i p.end_time ps D) b
          ∙ ap (λ r. piece x start ++ r)
              (next p.start_time (omega arith)
                ∙ rw (piece_before p.start_time p.end_time f.0) refl))
    ]

-- For patches in milliseconds that end after they start, in the order of time and with more than some
-- gap between neighbours, the last one ending by the end of the video: reversing their gaps gives the
-- same patches back, with the default interval.
pub reversed_time_patchs_twice :
    (video_duration gap : ℕ) (ps : List TimePatch)
    → IsApart gap 0 ps
    → AreLong ps
    → EndsBy 0 video_duration ps
    → reversed_time_patchs video_duration (reversed_time_patchs video_duration ps) ≡ map plain ps
unfolding reversed_time_patchs
reversed_time_patchs_twice D gap ps a f e =
    twice gap 0 0 0 D ps (omega arith) (inr refl) (omega arith) a f e
