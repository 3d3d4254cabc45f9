-- ===== src/Worker/Persons/Report/Clock.antt =====
-- The times of a report can be read back.
use video_flow.Prelude.{
  ℕ, ◌+◌, ◌*◌, ◌/◌, ◌%◌, ◌==◌, ◌≡◌, refl, ◌∙◌, false, if◌then◌else◌, [], ◌∷◌, ◌++◌, arith,
}
use video_flow.Prelude.Text.{Text}
use video_flow.Prelude.Decimal.{padded, read, read-padded, AreDigits, padded-AreDigits}
use video_flow.Worker.Persons.Report.{time_transport}

-- A text up to its first colon, and behind it.
abbrev pub before : Text → Text
before [] = []
before (c ∷ s) = let rest = before s in if c == 58 then [] else c ∷ rest

abbrev pub behind : Text → Text
behind [] = []
behind (c ∷ s) = let rest = behind s in if c == 58 then s else rest

-- The seconds that hours, minutes and seconds stand for.
abbrev pub seconds_of : Text → ℕ
seconds_of s = read (before s) * 3600 + read (before (behind s)) * 60 + read (behind (behind s))

before-colon : (s t : Text) → AreDigits s → before (s ++ (58 ∷ t)) ≡ s
before-colon [] t h = refl
before-colon (c ∷ s) t h =
    let e : (c == 58) ≡ false = ground (arith, h.0) in rw (e, before-colon s t h.1) refl

behind-colon : (s t : Text) → AreDigits s → behind (s ++ (58 ∷ t)) ≡ t
behind-colon [] t h = refl
behind-colon (c ∷ s) t h =
    let e : (c == 58) ≡ false = ground (arith, h.0) in rw (e, behind-colon s t h.1) refl

seconds_of-parts :
    (h m s : ℕ)
    → seconds_of (padded 2 h ++ (58 ∷ (padded 2 m ++ (58 ∷ padded 2 s)))) ≡ h * 3600 + m * 60 + s
seconds_of-parts h m s =
    rw
      (
        before-colon (padded 2 h) (padded 2 m ++ (58 ∷ padded 2 s)) (padded-AreDigits 2 h),
        behind-colon (padded 2 h) (padded 2 m ++ (58 ∷ padded 2 s)) (padded-AreDigits 2 h),
        before-colon (padded 2 m) (padded 2 s) (padded-AreDigits 2 m),
        behind-colon (padded 2 m) (padded 2 s) (padded-AreDigits 2 m),
        read-padded 2 h,
        read-padded 2 m,
        read-padded 2 s,
      )
      refl

-- For any time in milliseconds, however long: the text that time_transport gives, read as hours, minutes and seconds,
-- is the number of whole seconds.
pub seconds_of-time_transport : (t : ℕ) → seconds_of (time_transport t) ≡ t / 1000
unfolding time_transport
seconds_of-time_transport t =
    seconds_of-parts (t / 1000 / 60 / 60) (t / 1000 / 60 % 60) (t / 1000 % 60) ∙ omega arith
