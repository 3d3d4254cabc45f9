-- ===== src/Worker/Persons/Intervals/Many.antt =====
-- _get_time_patch_count against the number of patches at an instant.
use video_flow.Prelude.{
  ℕ, ◌+◌, ◌≤◌, ◌<◌, ◌≡◌, refl, ap, ◌∙◌, ◌↔◌, ◌⊎◌, Bool, true, false, some, List, [], ◌∷◌, arith,
  ltb, leb, ◌&&◌, All, suc, count_if,
}
use video_flow.Prelude.Int.{ℤ, pos, pos_part, neg_part, +ℤ_parts, -ℤ_parts}
use video_flow.Prelude.Sorting.{IsOrder, sort, sort-Permᴰ, sort-IsSorted, count_if-Permᴰ}
use video_flow.Worker.TimePatch.{TimePatch}
use video_flow.Worker.Persons.Intervals.{
  Side, l, r, Point, is_start, point_le, counted, time_points, count_points, get_time_patch_count,
}
use video_flow.Worker.Persons.Intervals.Points.{count_to, is_end}
use video_flow.Worker.Persons.Intervals.Sweep.{IsWithin, Swept, Settles, Swept-closed}

-- How many of the patches hold the instant, their ends left out.
abbrev pub patchs_at : ℕ → List TimePatch → ℕ
patchs_at t ps = count_if (λ p. leb p.start_time t && ltb t p.end_time) ps

abbrev at : ℕ → Side → Point
at t s = record { time = t; side = s }

point_le_total :
    (s t : Side) (a b : ℕ)
    → (point_le (at a s) (at b t) ≡ true) ⊎ (point_le (at b t) (at a s) ≡ true)
point_le_total l l a b = ground arith
point_le_total l r a b = ground arith
point_le_total r l a b = ground arith
point_le_total r r a b = ground arith

point_le_trans :
    (s t u : Side) (a b c : ℕ)
    → point_le (at a s) (at b t) ≡ true
    → point_le (at b t) (at c u) ≡ true
    → point_le (at a s) (at c u) ≡ true
point_le_trans l l l a b c h k = ground arith
point_le_trans l l r a b c h k = ground arith
point_le_trans l r l a b c h k = ground arith
point_le_trans l r r a b c h k = ground arith
point_le_trans r l l a b c h k = ground arith
point_le_trans r l r a b c h k = ground arith
point_le_trans r r l a b c h k = ground arith
point_le_trans r r r a b c h k = ground arith

point_le-IsOrder : IsOrder point_le
point_le-IsOrder = record {
  total = λ a b. point_le_total a.side b.side a.time b.time;
  trans = λ a b c h k. point_le_trans a.side b.side c.side a.time b.time c.time h k;
}

-- Each patch ends no earlier than it starts.
abbrev pub AreForward : List TimePatch → Type 0
AreForward ps = All (λ p. p.start_time ≤ p.end_time) ps

count_to-time_points :
    (t : ℕ) (ps : List TimePatch)
    → AreForward ps
    → count_to is_start t (time_points ps) ≡ patchs_at t ps + count_to is_end t (time_points ps)
count_to-time_points t [] h = omega arith
count_to-time_points t (p ∷ ps) h = ground (arith, count_to-time_points t ps h.1)

abbrev sides : (Side → Bool) → List Point → ℕ
sides side es = count_if (λ e. side e.side) es

sides-time_points :
    (ps : List TimePatch) → sides is_start (time_points ps) ≡ sides is_end (time_points ps)
sides-time_points [] = refl
sides-time_points (p ∷ ps) = ap suc (sides-time_points ps)

-- How the count stands to `n` when all points are taken.
abbrev Ends : ℕ → ℤ → List Point → Type 0
Ends n c es = pos_part c + sides is_start es ≤ neg_part c + n + sides is_end es

Ends-counted :
    (n : ℕ) (c : ℤ) (t : ℕ) (s : Side) (es : List Point)
    → Ends n c (at t s ∷ es)
    → Ends n (counted s c) es
Ends-counted n c t l es h = omega (arith, +ℤ_parts c (pos 1))
Ends-counted n c t r es h = omega (arith, -ℤ_parts c (pos 1))

Settles-Ends : (n : ℕ) (c : ℤ) (es : List Point) → Ends n c es → Settles n c es
Settles-Ends n c [] h = omega arith
Settles-Ends n c (e ∷ es) h =
    Settles-Ends n (counted e.side c) es (Ends-counted n c e.time e.side es h)

All-zero : (es : List Point) → All (λ e. 0 ≤ e.time) es
All-zero [] = tt
All-zero (e ∷ es) = (omega arith, All-zero es)

counts :
    (n : ℕ) (ps : List TimePatch)
    → get_time_patch_count ps (pos n)
      ≡ count_points (pos n) (pos 0) (sort point_le (time_points ps)) []
unfolding get_time_patch_count
counts n ps = let e : ltb (n + 0) 0 ≡ false = ground arith in rw e refl

-- For a number that is not negative and patches that end no earlier than they start,
-- _get_time_patch_count returns, and an instant lies in one of the patches that it returns (their ends
-- left out) exactly if more than that number of the given patches hold it.
pub get_time_patch_count_iff :
    (n : ℕ) (ps : List TimePatch)
    → AreForward ps
    → (rs : List TimePatch) × (get_time_patch_count ps (pos n) ≡ some rs)
      × ((t : ℕ) → (IsWithin t rs) ↔ (n < patchs_at t ps))
unfolding Swept
get_time_patch_count_iff n ps h =
    let es = sort point_le (time_points ps) in
    let perm = sort-Permᴰ point_le (time_points ps) in
    let starts = count_if-Permᴰ (λ e. is_start e.side) perm in
    let ends = count_if-Permᴰ (λ e. is_end e.side) perm in
    let (rs, eq, sw) =
      Swept-closed n 0 (pos 0) es [] (All-zero es) (sort-IsSorted point_le-IsOrder (time_points ps))
        (Settles-Ends n (pos 0) es (omega (arith, starts, ends, sides-time_points ps)))
        (omega arith) in
    (
      rs,
      counts n ps ∙ eq,
      λ t.
          let up = count_if-Permᴰ (λ e. leb e.time t && is_start e.side) perm in
          let down = count_if-Permᴰ (λ e. leb e.time t && is_end e.side) perm in
          let net = count_to-time_points t ps h in
          (
            λ w. omega (arith, sw.within t (omega arith) w, up, down, net),
            λ k. sw.above t (omega arith) (omega (arith, up, down, net)),
          ),
    )
