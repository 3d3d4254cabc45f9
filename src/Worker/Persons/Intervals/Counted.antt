-- ===== src/Worker/Persons/Intervals/Counted.antt =====
-- _get_time_patch_count never closes a patch that it has not opened.
use video_flow.Prelude.{
  ℕ, ◌+◌, ◌<◌, ◌≡◌, refl, Bool, true, false, List, [], ◌∷◌, length, length-append, inl, inr,
  order-cases, Bool-cases, arith, ◌&&◌,
}
use video_flow.Prelude.Int.{ℤ, pos, pos_part, neg_part, ◌+ℤ◌, ltb_ℤ, +ℤ_parts, -ℤ_parts}
use video_flow.Prelude.Partial.{Gives}
use video_flow.Prelude.Sorting.{sort}
use video_flow.Worker.TimePatch.{TimePatch}
use video_flow.Worker.Tracking.{extend_last, patch_at}
use video_flow.Worker.Persons.Intervals.{
  Side, l, r, Point, time_points, point_le, eqb_ℤ, counted, after_point, count_points,
  get_time_patch_count, default_interval,
}

-- While more than `n` patches are open, one is in the result.
abbrev Opened : ℤ → ℤ → List TimePatch → Type 0
Opened n cnt res = pos_part n + neg_part cnt < pos_part cnt + neg_part n → 0 < length res

extend_last-Gives :
    (res : List TimePatch) (t : ℕ)
    → 0 < length res
    → Gives (λ res'. 0 < length res') (extend_last res t)
unfolding extend_last
extend_last-Gives [] t h = absurd (omega arith)
extend_last-Gives (p ∷ []) t h = (_, refl, omega arith)
extend_last-Gives (p ∷ q ∷ ps) t h =
    let (qs, e, k) = extend_last-Gives (q ∷ ps) t (omega arith) in
    rw (e, extend_last) (p ∷ qs, refl, omega arith)

opens : ℤ → Side → ℤ → Bool
opens n s cnt = eqb_ℤ (counted s cnt) (n +ℤ pos 1) && ltb_ℤ cnt (counted s cnt)

closes : ℤ → Side → ℤ → Bool
closes n s cnt = eqb_ℤ cnt (n +ℤ pos 1) && ltb_ℤ (counted s cnt) cnt

closes_above :
    (n cnt : ℤ) (s : Side)
    → closes n s cnt ≡ true
    → pos_part n + neg_part cnt < pos_part cnt + neg_part n
unfolding closes
closes_above n cnt s h = ground (arith, +ℤ_parts n (pos 1))

Opened-stays :
    (n cnt : ℤ) (s : Side) (res : List TimePatch)
    → opens n s cnt ≡ false
    → Opened n cnt res
    → Opened n (counted s cnt) res
unfolding opens
Opened-stays n cnt l res e h k =
    elim (order-cases (pos_part cnt + neg_part n) (pos_part n + neg_part cnt)) [
      | inl a ↦ ground (arith, +ℤ_parts n (pos 1), +ℤ_parts cnt (pos 1), e, k)
      | inr a ↦ h a
    ]
Opened-stays n cnt r res e h k = h (omega (arith, -ℤ_parts cnt (pos 1), k))

after_point-Gives :
    (n cnt : ℤ) (p : Point) (res : List TimePatch)
    → Opened n cnt res
    → Gives (Opened n (counted p.side cnt)) (after_point n p cnt (counted p.side cnt) res)
unfolding after_point opens closes
after_point-Gives n cnt p res h = elim (Bool-cases (opens n p.side cnt)) [
  | inl e ↦
      rw (e, after_point)
        (_, refl, λ k. omega (arith, length-append res (patch_at default_interval p.time ∷ [])))
  | inr e ↦ elim (Bool-cases (closes n p.side cnt)) [
    | inl f ↦
        let (qs, g, k) = extend_last-Gives res p.time (h (closes_above n cnt p.side f)) in
        rw (e, f, after_point) (qs, g, λ _. k)
    | inr f ↦ rw (e, f, after_point) (res, refl, Opened-stays n cnt p.side res e h)
  ]
]

count_points-Gives :
    (n cnt : ℤ) (ps : List Point) (res : List TimePatch)
    → Opened n cnt res
    → Gives {0, 0} (λ _. Unit) (count_points n cnt ps res)
unfolding count_points
count_points-Gives n cnt [] res h = (res, refl, tt)
count_points-Gives n cnt (p ∷ ps) res h =
    let (next, e, k) = after_point-Gives n cnt p res h in
    rw (e, count_points) (count_points-Gives n (counted p.side cnt) ps next k)

pub get_time_patch_count-Gives :
    (ps : List TimePatch) (n : ℤ) → Gives {0, 0} (λ _. Unit) (get_time_patch_count ps n)
unfolding get_time_patch_count
get_time_patch_count-Gives ps n = elim (Bool-cases (ltb_ℤ n (pos 0))) [
  | inl e ↦ rw e ([], refl, tt)
  | inr e ↦
      rw e (
        count_points-Gives n (pos 0) (sort point_le (time_points ps)) []
          (λ k. ground (arith, k, e)))
]
