-- ===== src/Worker/CircularQueue/Fifo.antt =====
-- The ring buffer against a list: first in, first out, up to its size.
use video_flow.Prelude.{
  ℕ, zero, suc, ◌+◌, ◌-◌, ◌%◌, ◌≤◌, ◌<◌, ◌≡◌, refl, sym, ap, ◌∙◌, true, false, Option, none, some,
  List, [], ◌∷◌, ◌++◌, arith, ltb, ◌==◌, if◌then◌else◌, get_elem?, set_elem, length-set_elem,
  length-append, inl, inr, length, order-cases,
}
use native.Mathlib.Nat.{mod-eq_of_lt, mod_self}
use video_flow.Worker.CircularQueue.{
  CircularQueue, is_full, enqueue, enqueue_free, dequeue, dequeue_from, slot,
}

-- A place of the ring, counted past its end.
abbrev pub wrap : ℕ → ℕ → ℕ
wrap size n = if ltb n size then n else n - size

wrap-mod : (size i : ℕ) → 0 < size → i < size → (i + 1) % size ≡ wrap size (i + 1)
wrap-mod size i h k = elim (order-cases size (i + 1)) [
  | inl le ↦
      let e : i + 1 ≡ size = omega arith in
      let w : wrap size (i + 1) ≡ 0 = ground arith in ap (λ n. n % size) e ∙ mod_self size ∙ sym w
  | inr lt ↦ let w : wrap size (i + 1) ≡ i + 1 = ground arith in mod-eq_of_lt lt ∙ sym w
]

wrap_apart :
    (size f j n : ℕ) → f < size → j < n → n < size → wrap size (f + n) ≡ wrap size (f + j) → ⊥
wrap_apart size f j n h k l e = ground arith

wrap-wrap :
    (size f m n : ℕ)
    → f < size
    → m + n ≤ size
    → wrap size (wrap size (f + m) + n) ≡ wrap size (f + (m + n))
wrap-wrap size f m n h k = ground arith

wrap_lt : (size f n : ℕ) → f < size → n ≤ size → wrap size (f + n) < size
wrap_lt size f n h k = ground arith

module _ {A : Type 0} where
  -- The items stand in the slots from the `k`-th after `f` on.
  abbrev pub Slots : List (Option A) → ℕ → ℕ → ℕ → List A → Type 0
  Slots slots size f k [] = Unit
  Slots slots size f k (x ∷ xs) =
      (get_elem? slots (wrap size (f + k)) ≡ some (some x)) × Slots slots size f (suc k) xs

  -- The queue holds the items, the oldest first.
  abbrev pub Holds : CircularQueue A → List A → Type 0
  Holds q [] = (0 < q.size) × (length q.queue ≡ q.size) × (q.front ≡ none) × (q.rear ≡ none)
  Holds q (x ∷ xs) =
      (length q.queue ≡ q.size)
      × (f : ℕ) × (f < q.size)
      × (length (x ∷ xs) ≤ q.size)
      × (q.front ≡ some f)
      × (q.rear ≡ some (wrap q.size (f + length xs)))
      × Slots q.queue q.size f 0 (x ∷ xs)

  get-set_elem :
      (s : List (Option A)) (i : ℕ) (a : Option A)
      → i < length s
      → get_elem? (set_elem s i a) i ≡ some a
  get-set_elem [] i a h = absurd (omega arith)
  get-set_elem (x ∷ xs) zero a h = refl
  get-set_elem (x ∷ xs) (suc i) a h = get-set_elem xs i a (omega arith)

  get-set_elem_other :
      (s : List (Option A)) (i j : ℕ) (a : Option A)
      → (i ≡ j → ⊥)
      → get_elem? (set_elem s i a) j ≡ get_elem? s j
  get-set_elem_other [] i j a h = refl
  get-set_elem_other (x ∷ xs) zero zero a h = absurd (h refl)
  get-set_elem_other (x ∷ xs) zero (suc j) a h = refl
  get-set_elem_other (x ∷ xs) (suc i) zero a h = refl
  get-set_elem_other (x ∷ xs) (suc i) (suc j) a h = get-set_elem_other xs i j a (λ e. h (ap suc e))

  -- Writing behind the items leaves them and adds one.
  Slots-write :
      (s : List (Option A)) (size f k n : ℕ) (xs : List A) (x : A)
      → length s ≡ size
      → f < size
      → n ≡ k + length xs
      → n < size
      → Slots s size f k xs
      → Slots (set_elem s (wrap size (f + n)) (some x)) size f k (xs ++ (x ∷ []))
  Slots-write s size f k n [] x l h e b c =
      let same : n ≡ k = omega arith in
      (
        rw same (
            get-set_elem s (wrap size (f + k)) (some x)
              (omega (arith, wrap_lt size f k h (omega arith)))),
        tt,
      )
  Slots-write s size f k n (y ∷ ys) x l h e b c = (
    get-set_elem_other s _ (wrap size (f + k)) (some x)
          (λ d. wrap_apart size f k n h (omega arith) b d)
        ∙ c.0,
    Slots-write s size f (suc k) n ys x l h (omega arith) b c.1,
  )

  -- The items behind the first, counted from the next place on.
  Slots-next :
      (s : List (Option A)) (size f k : ℕ) (xs : List A)
      → f < size
      → suc k + length xs ≤ size
      → Slots s size f (suc k) xs
      → Slots s size (wrap size (f + 1)) k xs
  Slots-next s size f k [] h b c = tt
  Slots-next s size f k (y ∷ ys) h b c =
      let e : 1 + k ≡ suc k = omega arith in
      (
        ap (λ i. get_elem? s i)
              (wrap-wrap size f 1 k h (omega arith) ∙ ap (λ j. wrap size (f + j)) e)
            ∙ c.0,
        Slots-next s size f (suc k) ys h (omega arith) c.1,
      )

  pub is_full-some :
      (q : CircularQueue A) (f n : ℕ)
      → f < q.size
      → n < q.size
      → q.front ≡ some f
      → q.rear ≡ some (wrap q.size (f + n))
      → is_full q ≡ (n + 1 == q.size)
  unfolding is_full
  is_full-some q f n h k e r =
      let next =
        wrap-mod q.size (wrap q.size (f + n)) (omega arith) (wrap_lt q.size f n h (omega arith)) in
      let place = wrap-wrap q.size f n 1 h (omega arith) in rw (e, r, next, place) (ground arith)

  pub enqueue_full : (q : CircularQueue A) (x : A) → is_full q ≡ true → enqueue x q ≡ (false, q)
  unfolding enqueue
  enqueue_full q x e = rw (e, enqueue) refl

  enqueue-accepts :
      (q : CircularQueue A) (x : A)
      → is_full q ≡ false
      → enqueue x q ≡ (true, enqueue_free x q.front q)
  unfolding enqueue
  enqueue-accepts q x e = rw (e, enqueue) refl

  empty-is_full : (q : CircularQueue A) → q.front ≡ none → is_full q ≡ false
  unfolding is_full
  empty-is_full q e = rw e refl

  pub enqueue-Holds :
      (q : CircularQueue A) (x : A) (xs : List A)
      → Holds q xs
      → length xs < q.size
      → (p : CircularQueue A) × (enqueue x q ≡ (true, p))
        × (p.size ≡ q.size)
        × Holds p (xs ++ (x ∷ []))
  unfolding enqueue_free
  enqueue-Holds q x [] h b =
      let z : wrap q.size (0 + 0) ≡ 0 = ground arith in
      (
        enqueue_free x q.front q,
        enqueue-accepts q x (empty-is_full q h.2),
        rw h.2 refl,
        rw h.2 (
          length-set_elem q.queue 0 (some x) ∙ h.1,
          0,
          h.0,
          omega arith,
          refl,
          ap some (sym z),
          (
            ap (get_elem? (set_elem q.queue 0 (some x))) z
                ∙ get-set_elem q.queue 0 (some x) (omega (arith, h.1)),
            tt,
          ),
        ),
      )
  enqueue-Holds q x (y ∷ ys) (len, f, lt, le, front, rear, slots) b =
      let n = length ys in
      let ends : length (ys ++ (x ∷ [])) ≡ n + 1 = length-append ys (x ∷ []) in
      let next : (wrap q.size (f + n) + 1) % q.size ≡ wrap q.size (f + (n + 1)) =
        wrap-mod q.size (wrap q.size (f + n)) (omega arith) (wrap_lt q.size f n lt (omega arith))
        ∙ wrap-wrap q.size f n 1 lt (omega arith) in
      let room : is_full q ≡ false =
        is_full-some q f n lt (omega arith) front rear ∙ ground arith in
      let place = wrap q.size (f + (n + 1)) in
      let written : enqueue_free x q.front q
          ≡ record q { rear = some place; queue = set_elem q.queue place (some x) } =
        rw (front, rear, next) refl in
      (
        record q { rear = some place; queue = set_elem q.queue place (some x) },
        enqueue-accepts q x room ∙ ap (λ p. (true, p)) written,
        refl,
        (
          length-set_elem q.queue place (some x) ∙ len,
          f,
          lt,
          omega (arith, ends),
          front,
          ap (λ m. some (wrap q.size (f + m))) (sym ends),
          Slots-write q.queue q.size f 0 (n + 1) (y ∷ ys) x len lt (omega arith) (omega arith)
              slots,
        ),
      )

  pub dequeue-Holds :
      (q : CircularQueue A) (x : A) (xs : List A)
      → Holds q (x ∷ xs)
      → (p : CircularQueue A) × (dequeue q ≡ (some x, p)) × (p.size ≡ q.size) × Holds p xs
  unfolding dequeue dequeue_from
  dequeue-Holds q x [] (len, f, lt, le, front, rear, slots) =
      let z : wrap q.size (f + 0) ≡ f = ground arith in
      let at_f : (f == f) ≡ true = ground arith in
      (
        record q { front = none; rear = none },
        rw (front, rear, z, at_f, slot, rw z at slots.0) refl,
        refl,
        (omega arith, len, refl, refl),
      )
  dequeue-Holds q x (y ∷ ys) (len, f, lt, le, front, rear, slots) =
      let n = length (y ∷ ys) in
      let z : wrap q.size (f + 0) ≡ f = ground arith in
      let apart : (wrap q.size (f + n) == f) ≡ false = ground arith in
      let next = wrap-mod q.size f (omega arith) lt in
      let place : wrap q.size (wrap q.size (f + 1) + length ys) ≡ wrap q.size (f + n) =
        wrap-wrap q.size f 1 (length ys) lt (omega arith)
        ∙ ap (λ m. wrap q.size (f + m)) (omega arith) in
      (
        record q { front = some ((f + 1) % q.size) },
        rw (front, rear, apart, slot, rw z at slots.0) refl,
        refl,
        rw next (
          len,
          wrap q.size (f + 1),
          wrap_lt q.size f 1 lt (omega arith),
          omega arith,
          refl,
          rear ∙ ap some (sym place),
          Slots-next q.queue q.size f 0 (y ∷ ys) lt (omega arith) slots.1,
        ),
      )

  pub dequeue_empty : (q : CircularQueue A) → q.front ≡ none → dequeue q ≡ (none, q)
  unfolding dequeue dequeue_from
  dequeue_empty q e = rw e refl
