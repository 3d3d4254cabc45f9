-- ===== src/Worker/Boxes.antt =====
-- workflow-worker shared/utils/image_calculator.py: boxes of pixels, their areas and how they overlap.
-- A ValueError is `none`. A ratio is kept as its two numbers, where the source divides floats.
pub mod Overlap
pub mod Ratios
use video_flow.Prelude.{
  ℕ, ◌+◌, ◌-◌, ◌*◌, Bool, ◌&&◌, ◌||◌, Option, none, some, if◌then◌else◌, List, [], ◌∷◌,
}
use video_flow.Prelude.Partial.{◌>>=◌, ◌>>◌}
use video_flow.Prelude.Int.{ℤ, pos, pos_part, ◌+ℤ◌, ◌-ℤ◌, ltb_ℤ}

pub record Box : Type 0 where
  pub x1 : ℤ
  pub y1 : ℤ
  pub x2 : ℤ
  pub y2 : ℤ

-- Python's `max(a, b)` and `min(a, b)`
unfoldable pub max_ℤ : ℤ → ℤ → ℤ
max_ℤ a b = if ltb_ℤ a b then b else a

unfoldable pub min_ℤ : ℤ → ℤ → ℤ
min_ℤ a b = if ltb_ℤ b a then b else a

-- check_box
unfoldable pub check_box : Box → Option (Unit {0})
check_box b =
    if ltb_ℤ b.x2 (pos 0) || ltb_ℤ b.y2 (pos 0)
    then none
    else if ltb_ℤ b.x2 b.x1 || ltb_ℤ b.y2 b.y1
    then none
    else some tt

-- `b - a + 1`, which is positive for a checked box
unfoldable pub span : ℤ → ℤ → ℕ
span a b = pos_part (b -ℤ a +ℤ pos 1)

-- The product in calc_box_area.
unfoldable pub area : Box → ℕ
area b = span b.x1 b.x2 * span b.y1 b.y2

-- calc_box_area
unfoldable pub calc_box_area : Box → Option ℕ
calc_box_area b = do check_box b; some (area b)

unfoldable pub intersection : Box → Box → Option Box
intersection a b =
    let x1 = max_ℤ a.x1 b.x1 in
    let y1 = max_ℤ a.y1 b.y1 in
    let x2 = min_ℤ a.x2 b.x2 in
    let y2 = min_ℤ a.y2 b.y2 in
    if ltb_ℤ x2 x1 || ltb_ℤ y2 y1
    then none
    else some (record { x1 = x1; y1 = y1; x2 = x2; y2 = y2 })

-- calc_intersection
unfoldable pub calc_intersection : Box → Box → Option (Option Box)
calc_intersection a b = do check_box a; check_box b; some (intersection a b)

-- A quotient of two areas.
pub record Ratio : Type 0 where
  pub num : ℕ
  pub den : ℕ

unfoldable pub iou_of : Box → Box → Option Box → Option Ratio
iou_of a b none = some (record { num = 0; den = 1 })
iou_of a b (some c) = do
  a_area ← calc_box_area a
  b_area ← calc_box_area b
  i_area ← calc_box_area c
  some (record { num = i_area; den = a_area + b_area - i_area })

-- calc_iou
unfoldable pub calc_iou : Box → Box → Option Ratio
calc_iou a b = do c ← calc_intersection a b; iou_of a b c

unfoldable pub ioa_of : Box → Option Box → Option Ratio
ioa_of a none = some (record { num = 0; den = 1 })
ioa_of a (some c) = do
  a_area ← calc_box_area a
  i_area ← calc_box_area c
  some (record { num = i_area; den = a_area })

-- calc_ioa
unfoldable pub calc_ioa : Box → Box → Option Ratio
calc_ioa a b = do c ← calc_intersection a b; ioa_of a c
