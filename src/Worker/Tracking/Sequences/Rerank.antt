-- ===== src/Worker/Tracking/Sequences/Rerank.antt =====
-- _rerank against taking the item out and putting it in.
use video_flow.Prelude.{
  ℕ, zero, suc, ◌≤◌, ◌<◌, ◌≡◌, refl, sym, ap, ◌∙◌, true, false, Option, none, some, List, [], ◌∷◌,
  ◌++◌, arith, ltb, ◌==◌, Bool-cases, inl, inr, take, drop, length, get_elem?, set_elem,
  get_elem?-lt, length-set_elem,
}
use video_flow.Worker.Tracking.Sequences.{set_from, shift_up, rerank}

module _ {A : Type 0} where
  -- The list with the item at `index` taken out and `x` put before the place `target`.
  abbrev pub moved : ℕ → ℕ → A → List A → List A
  moved target index x q = take target q ++ (x ∷ (drop target (take index q) ++ drop (suc index) q))

  lt-get_elem? : (q : List A) (i : ℕ) (x : A) → get_elem? q i ≡ some x → i < length q
  lt-get_elem? [] i x h = absurd (cc h)
  lt-get_elem? (y ∷ ys) zero x h = omega arith
  lt-get_elem? (y ∷ ys) (suc i) x h = omega (arith, lt-get_elem? ys i x h)

  set_from_cons :
      (y : A) (ys : List A) (i : ℕ) (o : Option A)
      → set_from (y ∷ ys) (suc i) o ≡ y ∷ set_from ys i o
  set_from_cons y ys i none = refl
  set_from_cons y ys i (some a) = refl

  shift_up_step :
      (t i : ℕ) (q : List A)
      → t < suc i
      → shift_up t (suc i) q ≡ shift_up t i (set_from q (suc i) (get_elem? q i))
  unfolding shift_up
  shift_up_step t i q h = let e : ltb t (suc i) ≡ true = ground arith in rw (e, shift_up) refl

  shift_up_stop : (t i : ℕ) (q : List A) → i ≤ t → shift_up t i q ≡ q
  unfolding shift_up
  shift_up_stop t zero q h = refl
  shift_up_stop t (suc i) q h =
      let e : ltb t (suc i) ≡ false = ground arith in rw (e, shift_up) refl

  shift_up_cons :
      (t i : ℕ) (y : A) (ys : List A) → shift_up (suc t) (suc i) (y ∷ ys) ≡ y ∷ shift_up t i ys
  shift_up_cons t zero y ys =
      shift_up_stop (suc t) 1 (y ∷ ys) (omega arith)
      ∙ sym (ap (λ q. y ∷ q) (shift_up_stop t zero ys (omega arith)))
  shift_up_cons t (suc i) y ys = elim (Bool-cases (ltb t (suc i))) [
    | inl e ↦ rw (shift_up_step (suc t) (suc i) (y ∷ ys) (ground arith)) (
        rw (shift_up_step t i ys (ground arith)) (
          rw (set_from_cons y ys (suc i) (get_elem? ys i))
            (shift_up_cons t i y (set_from ys (suc i) (get_elem? ys i)))))
    | inr e ↦
        shift_up_stop (suc t) (suc (suc i)) (y ∷ ys) (ground arith)
        ∙ sym (ap (λ q. y ∷ q) (shift_up_stop t (suc i) ys (ground arith)))
  ]

  set_shifts :
      (j : ℕ) (y a : A) (ys : List A)
      → get_elem? (y ∷ ys) j ≡ some a
      → j < length ys
      → take j (y ∷ set_elem ys j a) ++ drop j (set_elem ys j a)
        ≡ take (suc j) (y ∷ ys) ++ drop (suc j) ys
  set_shifts j y a [] e h = absurd (omega arith)
  set_shifts zero y a (z ∷ zs) e h = cc e
  set_shifts (suc j) y a (z ∷ zs) e h = ap (λ q. y ∷ q) (set_shifts j z a zs e (omega arith))

  shift_up_front :
      (i : ℕ) (y : A) (ys : List A)
      → i ≤ length ys
      → shift_up 0 i (y ∷ ys) ≡ y ∷ (take i (y ∷ ys) ++ drop i ys)
  shift_up_front zero y ys h = shift_up_stop 0 zero (y ∷ ys) (omega arith)
  shift_up_front (suc j) y ys h =
      let (a, e) = get_elem?-lt (y ∷ ys) j (omega arith) in
      rw (shift_up_step 0 j (y ∷ ys) (omega arith), e)
        (shift_up_front j y (set_elem ys j a) (omega (arith, length-set_elem ys j a))
          ∙ ap (λ q. y ∷ q) (set_shifts j y a ys e (omega arith)))

  set-shift_up :
      (t i : ℕ) (x : A) (q : List A)
      → t ≤ i
      → i < length q
      → set_elem (shift_up t i q) t x ≡ moved t i x q
  set-shift_up t i x [] h k = absurd (omega arith)
  set-shift_up zero i x (y ∷ ys) h k = rw (shift_up_front i y ys (omega arith)) refl
  set-shift_up (suc t) zero x (y ∷ ys) h k = absurd (omega arith)
  set-shift_up (suc t) (suc i) x (y ∷ ys) h k =
      rw (shift_up_cons t i y ys)
        (ap (λ q. y ∷ q) (set-shift_up t i x ys (omega arith) (omega arith)))

  moved_here : (i : ℕ) (x : A) (q : List A) → get_elem? q i ≡ some x → moved i i x q ≡ q
  moved_here i x [] e = absurd (cc e)
  moved_here zero x (y ∷ ys) e = cc e
  moved_here (suc i) x (y ∷ ys) e = ap (λ q. y ∷ q) (moved_here i x ys e)

  -- Where `target` is at most `index` and an item `x` stands at `index`, _rerank returns the list with
  -- `x` taken out of there and put at `target`, everything else in its order.
  pub rerank-moved :
      (target index : ℕ) (x : A) (q : List A)
      → target ≤ index
      → get_elem? q index ≡ some x
      → rerank target index q ≡ some (moved target index x q)
  unfolding rerank
  rerank-moved target index x q h e = elim (Bool-cases (target == index)) [
    | inl same ↦
        let eq : target ≡ index = ground arith in
        rw same (ap some (sym (rw eq (moved_here index x q e))))
    | inr apart ↦
        let below : ltb index target ≡ false = ground arith in
        rw (apart, below, e) (ap some (set-shift_up target index x q h (lt-get_elem? q index x e)))
  ]

  -- Where `target` is above `index`, _rerank raises.
  pub rerank-none : (target index : ℕ) (q : List A) → index < target → rerank target index q ≡ none
  unfolding rerank
  rerank-none target index q h =
      let apart : (target == index) ≡ false = ground arith in
      let above : ltb index target ≡ true = ground arith in rw (apart, above)
