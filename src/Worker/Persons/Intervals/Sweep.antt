-- ===== src/Worker/Persons/Intervals/Sweep.antt =====
-- What _get_time_patch_count returns: the stretches at which more than the number of people are on
-- screen.
use video_flow.Prelude.{
  ℕ, ◌+◌, ◌≤◌, ◌<◌, ◌≡◌, refl, sym, ap, ◌∙◌, ◌↔◌, ◌⊎◌, inl, inr, true, some, List, [], ◌∷◌, ◌++◌,
  arith, leb, All, All-weaken, order-cases,
}
use mathlib.Core.List.{append-nil, append_assoc}
use video_flow.Prelude.Int.{ℤ, pos, pos_part, neg_part, +ℤ_parts, -ℤ_parts}
use video_flow.Prelude.Sorting.{IsSorted}
use video_flow.Worker.TimePatch.{TimePatch, update_end_time}
use video_flow.Worker.Tracking.{patch_at, patch_between}
use video_flow.Worker.Tracking.Gaps.{patch_between_end}
use video_flow.Worker.Persons.Intervals.{
  Side, l, r, Point, is_start, point_le, counted, after_point, count_points, default_interval,
}
use video_flow.Worker.Persons.Intervals.Points.{
  Above, AtMost, AboveAt, is_end, count_to-nil, extend_last-append, after_point-opens,
  after_point-below, after_point-Above, after_point-closes,
}

-- The instant lies in one of the patches, whose ends do not count.
abbrev pub IsWithin : ℕ → List TimePatch → Type 0
IsWithin t [] = ⊥
IsWithin t (p ∷ ps) = ((p.start_time ≤ t) × (t < p.end_time)) ⊎ IsWithin t ps

-- The patches are those stretches from `lo` on at which the count is above `n`.
pub record IsSwept (n : ℕ) (c : ℤ) (es : List Point) (lo : ℕ) (rs : List TimePatch) : Type 0 where
  pub from : (t : ℕ) → IsWithin t rs → lo ≤ t
  pub within : (t : ℕ) → lo ≤ t → IsWithin t rs → AboveAt n c t es
  pub above : (t : ℕ) → lo ≤ t → AboveAt n c t es → IsWithin t rs

later :
    (e : Point) (es : List Point)
    → All (λ y. point_le e y ≡ true) es
    → All (λ y. e.time ≤ y.time) es
later e es h =
    All-weaken (λ y. point_le e y ≡ true) (λ y. e.time ≤ y.time) (λ y k. ground arith) es h

-- Before their time, points do not count.
AboveAt-before :
    (n t lo : ℕ) (c : ℤ) (es : List Point)
    → All (λ y. lo ≤ y.time) es
    → t < lo
    → AboveAt n c t es ↔ Above n c
AboveAt-before n t lo c es h b =
    let starts = count_to-nil is_start t lo es h b in
    let ends = count_to-nil is_end t lo es h b in
    (λ k. omega (arith, starts, ends), λ k. omega (arith, starts, ends))

-- From its time on, a point counts.
AboveAt-after :
    (n t τ : ℕ) (s : Side) (c : ℤ) (es : List Point)
    → τ ≤ t
    → AboveAt n c t (record { time = τ; side = s } ∷ es) ↔ AboveAt n (counted s c) t es
AboveAt-after n t τ l c es h =
    let e : leb τ t ≡ true = ground arith in
    rw e (λ k. omega (arith, +ℤ_parts c (pos 1)), λ k. omega (arith, +ℤ_parts c (pos 1)))
AboveAt-after n t τ r c es h =
    let e : leb τ t ≡ true = ground arith in
    rw e (λ k. omega (arith, -ℤ_parts c (pos 1)), λ k. omega (arith, -ℤ_parts c (pos 1)))

-- all points together
abbrev pub Settles : ℕ → ℤ → List Point → Type 0
Settles n c [] = AtMost n c
Settles n c (e ∷ es) = Settles n (counted e.side c) es

module _ (n : ℕ) (c : ℤ) (e : Point) (es : List Point) (after : All (λ y. e.time ≤ y.time) es) where
  -- the count stays on its side of `n` at the point
  IsSwept-below :
      (lo : ℕ) (rs : List TimePatch)
      → lo ≤ e.time
      → AtMost n c
      → IsSwept n (counted e.side c) es e.time rs
      → IsSwept n c (e ∷ es) lo rs
  IsSwept-below lo rs b k h = record {
    from = λ t w. omega (arith, h.from t w);
    within =
        λ t ge w. (AboveAt-after n t e.time e.side c es (h.from t w)).1 (h.within t (h.from t w) w);
    above = λ t ge a. elim (order-cases e.time t) [
      | inl le ↦ h.above t le ((AboveAt-after n t e.time e.side c es le).0 a)
      | inr lt ↦
          absurd (omega (arith, (AboveAt-before n t e.time c (e ∷ es) (omega arith, after) lt).0 a))
    ];
  }

  IsSwept-Above :
      (lo : ℕ) (rs : List TimePatch)
      → lo ≤ e.time
      → Above n c
      → Above n (counted e.side c)
      → IsSwept n (counted e.side c) es lo rs
      → IsSwept n c (e ∷ es) lo rs
  IsSwept-Above lo rs b k k' h = record {
    from = h.from;
    within = λ t ge w. elim (order-cases e.time t) [
      | inl le ↦ (AboveAt-after n t e.time e.side c es le).1 (h.within t ge w)
      | inr lt ↦ (AboveAt-before n t e.time c (e ∷ es) (omega arith, after) lt).1 k
    ];
    above = λ t ge a. elim (order-cases e.time t) [
      | inl le ↦ h.above t ge ((AboveAt-after n t e.time e.side c es le).0 a)
      | inr lt ↦ h.above t ge ((AboveAt-before n t e.time (counted e.side c) es after lt).1 k')
    ];
  }

  IsSwept-closes :
      (lo : ℕ) (rs : List TimePatch)
      → lo ≤ e.time
      → Above n c
      → IsSwept n (counted e.side c) es e.time rs
      → IsSwept n c (e ∷ es) lo (patch_between default_interval lo e.time ∷ rs)
  unfolding update_end_time
  IsSwept-closes lo rs b k h = record {
    from = λ t w. elim w [ inl p ↦ p.0 | inr v ↦ omega (arith, h.from t v) ];
    within = λ t ge w. elim (order-cases e.time t) [
      | inl le ↦ elim w [
        | inl p ↦ absurd (omega (arith, patch_between_end default_interval lo e.time))
        | inr v ↦ (AboveAt-after n t e.time e.side c es le).1 (h.within t le v)
      ]
      | inr lt ↦ (AboveAt-before n t e.time c (e ∷ es) (omega arith, after) lt).1 k
    ];
    above = λ t ge a. elim (order-cases e.time t) [
      | inl le ↦ inr (h.above t le ((AboveAt-after n t e.time e.side c es le).0 a))
      | inr lt ↦ inl (ge, omega (arith, patch_between_end default_interval lo e.time))
    ];
  }

-- What is left of the sweep at a count, from `lo` on.
unfoldable pub Swept : ℕ → ℤ → List Point → ℕ → List TimePatch → List TimePatch → Type 0
Swept n c es lo given res =
    (rs : List TimePatch) × (count_points (pos n) c es given ≡ some (res ++ rs))
    × IsSwept n c es lo rs

count_points_step :
    (n : ℕ) (c : ℤ) (e : Point) (es : List Point) (res next : List TimePatch)
    → after_point (pos n) e c (counted e.side c) res ≡ some next
    → count_points (pos n) c (e ∷ es) res ≡ count_points (pos n) (counted e.side c) es next
unfolding count_points
count_points_step n c e es res next h = rw (h, count_points) refl

count_points_nil : (n : ℕ) (c : ℤ) (res : List TimePatch) → count_points (pos n) c [] res ≡ some res
unfolding count_points
count_points_nil n c res = refl

AboveAt-nil : (n : ℕ) (c : ℤ) (t : ℕ) → AtMost n c → AboveAt n c t [] → ⊥
AboveAt-nil n c t h a = omega arith

Above-or : (n : ℕ) (c : ℤ) → AtMost n c ⊎ Above n c
Above-or n c = order-cases (pos_part c) (neg_part c + n)

mutual
  unfolding Swept

  pub Swept-closed :
      (n lo : ℕ) (c : ℤ) (es : List Point) (res : List TimePatch)
      → All (λ e. lo ≤ e.time) es
      → IsSorted point_le es
      → Settles n c es
      → AtMost n c
      → Swept n c es lo res res
  Swept-closed n lo c [] res h s f k = (
    [],
    count_points_nil n c res ∙ ap some (sym (append-nil res)),
    record {
      from = λ t w. absurd w;
      within = λ t ge w. absurd w;
      above = λ t ge a. absurd (AboveAt-nil n c t k a);
    },
  )
  Swept-closed n lo c (e ∷ es) res h s f k =
      let after = later e es s.0 in
      elim (Above-or n (counted e.side c)) [
        | inl low ↦
            let (rs, eq, sw) = Swept-closed n e.time (counted e.side c) es res after s.1 f low in
            (
              rs,
              count_points_step n c e es res res (after_point-below n e.time c res e.side k low)
                  ∙ eq,
              IsSwept-below n c e es after lo rs h.0 k sw,
            )
        | inr high ↦
            let (rs, eq, sw) = Swept-open n e.time (counted e.side c) es res after s.1 f high in
            (
              rs,
              count_points_step n c e es res _ (after_point-opens n e.time c res e.side k high)
                  ∙ eq,
              IsSwept-below n c e es after lo rs h.0 k sw,
            )
      ]

  Swept-open :
      (n lo : ℕ) (c : ℤ) (es : List Point) (res : List TimePatch)
      → All (λ e. lo ≤ e.time) es
      → IsSorted point_le es
      → Settles n c es
      → Above n c
      → Swept n c es lo (res ++ (patch_at default_interval lo ∷ [])) res
  Swept-open n lo c [] res h s f k = absurd (omega arith)
  Swept-open n lo c (e ∷ es) res h s f k =
      let after = later e es s.0 in
      let given = res ++ (patch_at default_interval lo ∷ []) in
      elim (Above-or n (counted e.side c)) [
        | inl low ↦
            let closed = patch_between default_interval lo e.time in
            let (rs, eq, sw) =
              Swept-closed n e.time (counted e.side c) es (res ++ (closed ∷ [])) after s.1 f low in
            (
              closed ∷ rs,
              count_points_step n c e es given (res ++ (closed ∷ [])) (
                    after_point-closes n e.time c given e.side k low
                    ∙ extend_last-append res lo e.time)
                  ∙ eq
                  ∙ ap some (append_assoc res (closed ∷ []) rs),
              IsSwept-closes n c e es after lo rs h.0 k sw,
            )
        | inr high ↦
            let (rs, eq, sw) = Swept-open n lo (counted e.side c) es res h.1 s.1 f high in
            (
              rs,
              count_points_step n c e es given given
                    (after_point-Above n e.time c given e.side k high)
                  ∙ eq,
              IsSwept-Above n c e es after lo rs h.0 k high sw,
            )
      ]
