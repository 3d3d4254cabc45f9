-- ===== src/Worker/Boxes/Overlap.antt =====
-- What the overlap of two boxes is, and the bounds of its ratios.
use video_flow.Prelude.{
  ◌≡◌, ◌↔◌, true, false, Option, none, some, arith, Bool-cases, inl, inr, ◌⊎◌, ◌||◌,
}
use video_flow.Prelude.Int.{ℤ, pos, ◌≤ℤ◌, ltb_ℤ}
use video_flow.Worker.Boxes.{Box, max_ℤ, min_ℤ, check_box, intersection, calc_intersection}

-- The box is accepted by check_box.
pub record IsLegal (b : Box) : Type 0 where
  pub across : b.x1 ≤ℤ b.x2
  pub down : b.y1 ≤ℤ b.y2
  pub x_nonneg : pos 0 ≤ℤ b.x2
  pub y_nonneg : pos 0 ≤ℤ b.y2

-- The pixel at (x, y) lies in the box.
pub record Inside (x y : ℤ) (b : Box) : Type 0 where
  pub left : b.x1 ≤ℤ x
  pub right : x ≤ℤ b.x2
  pub above : b.y1 ≤ℤ y
  pub below : y ≤ℤ b.y2

pub check_box_legal : (b : Box) → IsLegal b → check_box b ≡ some tt
unfolding check_box
check_box_legal b h = ground arith

-- The pixels of the overlap are those of both boxes; the overlap of legal boxes is legal.
abbrev pub Meets : Box → Box → Option Box → Type 0
Meets a b none = (x y : ℤ) → Inside x y a → Inside x y b → ⊥
Meets a b (some c) = IsLegal c × ((x y : ℤ) → (Inside x y c) ↔ (Inside x y a × Inside x y b))

max_ℤ_left : (a b : ℤ) → a ≤ℤ max_ℤ a b
unfolding max_ℤ
max_ℤ_left a b = ground arith

max_ℤ_right : (a b : ℤ) → b ≤ℤ max_ℤ a b
unfolding max_ℤ
max_ℤ_right a b = ground arith

max_ℤ_least : (a b : ℤ) → (max_ℤ a b ≤ℤ a) ⊎ (max_ℤ a b ≤ℤ b)
unfolding max_ℤ
max_ℤ_least a b = ground arith

min_ℤ_left : (a b : ℤ) → min_ℤ a b ≤ℤ a
unfolding min_ℤ
min_ℤ_left a b = ground arith

min_ℤ_right : (a b : ℤ) → min_ℤ a b ≤ℤ b
unfolding min_ℤ
min_ℤ_right a b = ground arith

min_ℤ_greatest : (a b : ℤ) → (a ≤ℤ min_ℤ a b) ⊎ (b ≤ℤ min_ℤ a b)
unfolding min_ℤ
min_ℤ_greatest a b = ground arith

ruleset extrema =
    (arith, max_ℤ_left, max_ℤ_right, max_ℤ_least, min_ℤ_left, min_ℤ_right, min_ℤ_greatest)

in_order : (a b c d : ℤ) → (ltb_ℤ a b || ltb_ℤ c d) ≡ false → (b ≤ℤ a) × (d ≤ℤ c)
in_order a b c d h = ground arith

-- a range that ends before it begins, in one direction or the other
out_of_order : (a b c d : ℤ) → (ltb_ℤ a b || ltb_ℤ c d) ≡ true → (b ≤ℤ a → d ≤ℤ c → ⊥)
out_of_order a b c d h p q = ground arith

pub Meets-intersection : (a b : Box) → IsLegal a → IsLegal b → Meets a b (intersection a b)
unfolding intersection
Meets-intersection a b ha hb =
    let x1 = max_ℤ a.x1 b.x1 in
    let y1 = max_ℤ a.y1 b.y1 in
    let x2 = min_ℤ a.x2 b.x2 in
    let y2 = min_ℤ a.y2 b.y2 in
    elim (Bool-cases (ltb_ℤ x2 x1 || ltb_ℤ y2 y1)) [
      | inl e ↦ rw e (λ x y p q. out_of_order x2 x1 y2 y1 e (omega extrema) (omega extrema))
      | inr e ↦
          let (across, down) = in_order x2 x1 y2 y1 e in
          rw e (
            record {
              across = across;
              down = down;
              x_nonneg = omega extrema;
              y_nonneg = omega extrema;
            },
            λ x y. (
              λ p. (
                record {
                  left = omega (extrema, p.left);
                  right = omega (extrema, p.right);
                  above = omega (extrema, p.above);
                  below = omega (extrema, p.below);
                },
                record {
                  left = omega (extrema, p.left);
                  right = omega (extrema, p.right);
                  above = omega (extrema, p.above);
                  below = omega (extrema, p.below);
                },
              ),
              λ (p, q). record {
                left = omega (extrema, p.left, q.left);
                right = omega (extrema, p.right, q.right);
                above = omega (extrema, p.above, q.above);
                below = omega (extrema, p.below, q.below);
              },
            ),
          )
    ]

-- For boxes that check_box accepts, calc_intersection returns a box that it accepts and whose pixels
-- are those of both boxes, or none, and then no pixel lies in both.
pub calc_intersection-Meets :
    (a b : Box)
    → IsLegal a
    → IsLegal b
    → (o : Option Box) × (calc_intersection a b ≡ some o) × Meets a b o
unfolding calc_intersection
calc_intersection-Meets a b ha hb = (
  intersection a b,
  rw (check_box_legal a ha, check_box_legal b hb),
  Meets-intersection a b ha hb,
)
