-- ===== src/Worker/Boxes/Ratios.antt =====
-- The ratios of the overlap of two boxes.
use video_flow.Prelude.{
  ℕ, ◌+◌, ◌-◌, ◌*◌, ◌≤◌, ◌<◌, ◌≡◌, refl, Option, none, some, arith, inl, inr, ◌⊎◌,
}
use video_flow.Prelude.Int.{
  ℤ, pos, negsuc, pos_part, neg_part, ◌≤ℤ◌, +ℤ_parts, -ℤ_parts, ◌-ℤ◌, ◌+ℤ◌,
}
use video_flow.Worker.Boxes.{
  Box, Ratio, span, area, calc_box_area, intersection, calc_intersection, iou_of, calc_iou, ioa_of,
  calc_ioa,
}
use video_flow.Worker.Boxes.Overlap.{IsLegal, Meets, check_box_legal, Meets-intersection}

pub one_part : (z : ℤ) → (pos_part z ≡ 0) ⊎ (neg_part z ≡ 0)
one_part (pos n) = inr refl
one_part (negsuc n) = inl refl

span-pos : (a b : ℤ) → a ≤ℤ b → 0 < span a b
unfolding span
span-pos a b h = omega (arith, +ℤ_parts (b -ℤ a) (pos 1), -ℤ_parts b a, one_part (b -ℤ a +ℤ pos 1))

span_mono : (a b c d : ℤ) → a ≤ℤ b → c ≤ℤ a → b ≤ℤ d → span a b ≤ span c d
unfolding span
span_mono a b c d h k l = omega (
  arith,
  +ℤ_parts (b -ℤ a) (pos 1),
  -ℤ_parts b a,
  one_part (b -ℤ a +ℤ pos 1),
  +ℤ_parts (d -ℤ c) (pos 1),
  -ℤ_parts d c,
  one_part (d -ℤ c +ℤ pos 1),
)

pub mul-pos : (m n : ℕ) → 0 < m → 0 < n → 0 < m * n
mul-pos m n h k = grind arith

mul_mono : (m n p q : ℕ) → m ≤ p → n ≤ q → m * n ≤ p * q
mul_mono m n p q h k = grind arith

-- A box within another.
pub record Within (c a : Box) : Type 0 where
  pub left : a.x1 ≤ℤ c.x1
  pub right : c.x2 ≤ℤ a.x2
  pub above : a.y1 ≤ℤ c.y1
  pub below : c.y2 ≤ℤ a.y2

pub area-pos : (a : Box) → IsLegal a → 0 < area a
unfolding area
area-pos a h =
    mul-pos (span a.x1 a.x2) (span a.y1 a.y2) (span-pos _ _ h.across) (span-pos _ _ h.down)

area-le : (c a : Box) → IsLegal c → Within c a → area c ≤ area a
unfolding area
area-le c a h w =
    mul_mono (span c.x1 c.x2) (span c.y1 c.y2) (span a.x1 a.x2) (span a.y1 a.y2)
      (span_mono _ _ _ _ h.across w.left w.right) (span_mono _ _ _ _ h.down w.above w.below)

-- The overlap lies in each box: its corners are pixels of both.
Within-Meets : (a b c : Box) → Meets a b (some c) → Within c a × Within c b
Within-Meets a b c (legal, both) =
    let first = (both c.x1 c.y1).0 (record {
      left = omega arith;
      right = legal.across;
      above = omega arith;
      below = legal.down;
    }) in
    let last = (both c.x2 c.y2).0 (record {
      left = legal.across;
      right = omega arith;
      above = legal.down;
      below = omega arith;
    }) in
    (
      record {
        left = first.0.left;
        right = last.0.right;
        above = first.0.above;
        below = last.0.below;
      },
      record {
        left = first.1.left;
        right = last.1.right;
        above = first.1.above;
        below = last.1.below;
      },
    )

pub area_checked : (a : Box) → IsLegal a → calc_box_area a ≡ some (area a)
unfolding calc_box_area
area_checked a h = rw (check_box_legal a h)

-- A ratio between 0 and 1 whose denominator is positive.
abbrev pub IsShare : Ratio → Type 0
IsShare q = (q.num ≤ q.den) × (0 < q.den)

iou-IsShare :
    (a b : Box) (o : Option Box)
    → IsLegal a
    → IsLegal b
    → Meets a b o
    → (q : Ratio) × (iou_of a b o ≡ some q) × IsShare q
unfolding iou_of
iou-IsShare a b none ha hb m = (record { num = 0; den = 1 }, refl, omega arith)
iou-IsShare a b (some c) ha hb m =
    let (in_a, in_b) = Within-Meets a b c m in
    (
      record { num = area c; den = area a + area b - area c },
      rw (area_checked a ha, area_checked b hb, area_checked c m.0),
      omega (arith, area-le c a m.0 in_a, area-le c b m.0 in_b, area-pos a ha),
    )

-- For boxes that check_box accepts, calc_iou returns a ratio between 0 and 1, and never divides by
-- zero.
pub calc_iou-IsShare :
    (a b : Box) → IsLegal a → IsLegal b → (q : Ratio) × (calc_iou a b ≡ some q) × IsShare q
unfolding calc_iou calc_intersection
calc_iou-IsShare a b ha hb =
    rw (check_box_legal a ha, check_box_legal b hb)
      (iou-IsShare a b (intersection a b) ha hb (Meets-intersection a b ha hb))

ioa-IsShare :
    (a b : Box) (o : Option Box)
    → IsLegal a
    → Meets a b o
    → (q : Ratio) × (ioa_of a o ≡ some q) × IsShare q
unfolding ioa_of
ioa-IsShare a b none ha m = (record { num = 0; den = 1 }, refl, omega arith)
ioa-IsShare a b (some c) ha m =
    let (in_a, in_b) = Within-Meets a b c m in
    (
      record { num = area c; den = area a },
      rw (area_checked a ha, area_checked c m.0),
      omega (arith, area-le c a m.0 in_a, area-pos a ha),
    )

-- For boxes that check_box accepts, calc_ioa returns a ratio between 0 and 1, and never divides by
-- zero.
pub calc_ioa-IsShare :
    (a b : Box) → IsLegal a → IsLegal b → (q : Ratio) × (calc_ioa a b ≡ some q) × IsShare q
unfolding calc_ioa calc_intersection
calc_ioa-IsShare a b ha hb =
    rw (check_box_legal a ha, check_box_legal b hb)
      (ioa-IsShare a b (intersection a b) ha (Meets-intersection a b ha hb))
