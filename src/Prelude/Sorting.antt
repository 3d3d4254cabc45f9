-- ===== src/Prelude/Sorting.antt =====
-- Sorting by a Boolean order: what a stable `ORDER BY` may do, and an instance of it.
use video_flow.Prelude.Tests.{if◌then◌else◌, Bool-cases}
use Prim.Native.Nat.{ℕ, suc}
use video_flow.Prelude.Lists.{All-In, In, All, All-weaken, count_if}
use mathlib.Core.Path.{subst, ◌≡◌, refl, sym, ◌∙◌}
use mathlib.Core.Logic.{◌⊎◌, inl, inr}
use mathlib.Core.Bool.{Bool, true, false, false≢true}
use mathlib.Core.List.Permᴰ
use mathlib.Core.List.{List, [], ◌∷◌, Permᴰ}

-- A test that is a total preorder.
pub record IsOrder {ℓ} {A : Type ℓ} (le : A → A → Bool) : Type ℓ where
  pub total : (x y : A) → (le x y ≡ true) ⊎ (le y x ≡ true)
  pub trans : (x y z : A) → le x y ≡ true → le y z ≡ true → le x z ≡ true

-- Each item is at most every later one.
abbrev pub IsSorted {ℓ} : {A : Type ℓ} → (A → A → Bool) → List A → Type 0
IsSorted le [] = Unit
IsSorted le (x ∷ xs) = All (λ y. le x y ≡ true) xs × IsSorted le xs

module _ {ℓ} {A : Type ℓ} where
  insert : (A → A → Bool) → A → List A → List A
  insert le x [] = x ∷ []
  insert le x (y ∷ ys) = let rest = insert le x ys in if le x y then x ∷ y ∷ ys else y ∷ rest

  unfoldable pub sort : (A → A → Bool) → List A → List A
  unfolding insert
  sort le [] = []
  sort le (x ∷ xs) = insert le x (sort le xs)

module _ {ℓ κ} {A : Type ℓ} (P : A → Type κ) where
  pub All-Permᴰ : {xs ys : List A} → Permᴰ xs ys → All P xs → All P ys
  All-Permᴰ Permᴰ.nil h = tt
  All-Permᴰ (Permᴰ.cons e p) h = (rw e at h.0, All-Permᴰ p h.1)
  All-Permᴰ (Permᴰ.swap e f) h = ((rw f at h.1.0), ((rw e at h.0), h.1.1))
  All-Permᴰ (Permᴰ.trans p q) h = All-Permᴰ q (All-Permᴰ p h)

count_swap :
    (x y : Bool) (n : ℕ)
    → (if y then suc (if x then suc n else n) else (if x then suc n else n))
      ≡ (if x then suc (if y then suc n else n) else (if y then suc n else n))
count_swap true true n = refl
count_swap true false n = refl
count_swap false true n = refl
count_swap false false n = refl

module _ {ℓ} {A : Type ℓ} (p : A → Bool) where
  pub count_if-Permᴰ : {xs ys : List A} → Permᴰ xs ys → count_if p xs ≡ count_if p ys
  count_if-Permᴰ Permᴰ.nil = refl
  count_if-Permᴰ (Permᴰ.cons e q) = rw (e, count_if-Permᴰ q)
  count_if-Permᴰ (Permᴰ.swap {a'} {b'} {l} e f) = rw (e, f, count_swap (p a') (p b') (count_if p l))
  count_if-Permᴰ (Permᴰ.trans q r) = count_if-Permᴰ q ∙ count_if-Permᴰ r

module _ {ℓ} {A : Type ℓ} where
  insert-Permᴰ : (le : A → A → Bool) (x : A) (ys : List A) → Permᴰ (insert le x ys) (x ∷ ys)
  unfolding insert
  insert-Permᴰ le x [] = Permᴰ.refl _
  insert-Permᴰ le x (y ∷ ys) = elim (Bool-cases (le x y)) [
    | inl e ↦ rw e (Permᴰ.refl _)
    | inr e ↦ rw e (Permᴰ.trans (Permᴰ.cons refl (insert-Permᴰ le x ys)) (Permᴰ.swap refl refl))
  ]

  pub sort-Permᴰ : (le : A → A → Bool) (xs : List A) → Permᴰ (sort le xs) xs
  unfolding sort
  sort-Permᴰ le [] = Permᴰ.nil
  sort-Permᴰ le (x ∷ xs) =
      Permᴰ.trans (insert-Permᴰ le x (sort le xs)) (Permᴰ.cons refl (sort-Permᴰ le xs))

module _ {ℓ} {A : Type ℓ} {le : A → A → Bool} (order : IsOrder le) where
  le-true_of_flip : (a b : A) → le a b ≡ false → (le a b ≡ true) ⊎ (le b a ≡ true) → le b a ≡ true
  le-true_of_flip a b e (inl k) = absurd (false≢true (sym e ∙ k))
  le-true_of_flip a b e (inr k) = k

  insert-IsSorted : (x : A) (ys : List A) → IsSorted le ys → IsSorted le (insert le x ys)
  unfolding insert
  insert-IsSorted x [] h = (tt, tt)
  insert-IsSorted x (y ∷ ys) h = elim (Bool-cases (le x y)) [
    | inl e ↦ rw e (
      (
        e,
        All-weaken (λ z. le y z ≡ true) (λ z. le x z ≡ true) (λ z k. order.trans x y z e k) ys h.0,
      ),
      h,
    )
    | inr e ↦ rw e (
      All-Permᴰ (λ z. le y z ≡ true) (Permᴰ.symm (insert-Permᴰ le x ys))
          (le-true_of_flip x y e (order.total x y), h.0),
      insert-IsSorted x ys h.1,
    )
  ]

  pub sort-IsSorted : (xs : List A) → IsSorted le (sort le xs)
  unfolding sort
  sort-IsSorted [] = tt
  sort-IsSorted (x ∷ xs) = insert-IsSorted x (sort le xs) (sort-IsSorted xs)

-- No two items tie in the order.
abbrev pub Apart : {A : Type 0} → (A → A → Bool) → A → A → Type 0
Apart le x y = le x y ≡ true → le y x ≡ true → ⊥

abbrev pub Untied : {A : Type 0} → (A → A → Bool) → List A → Type 0
Untied le [] = Unit
Untied le (x ∷ xs) = All (Apart le x) xs × Untied le xs

module _ {A : Type 0} where
  -- Every item stands in the list.
  All-self : (rows all : List A) → ((a : A) → In a rows → In a all) → All (λ a. In a all) rows
  All-self [] all sub = tt
  All-self (r ∷ rows) all sub = (sub r (inl refl), All-self rows all (λ a m. sub a (inr m)))

  pub In-Permᴰ : {xs ys : List A} → Permᴰ xs ys → (a : A) → In a xs → In a ys
  In-Permᴰ {xs} {ys} p a m =
      All-In (λ b. In b ys) a xs
        (All-Permᴰ (λ b. In b ys) (Permᴰ.symm p) (All-self ys ys (λ b k. k))) m

module _ {A : Type 0} (le : A → A → Bool) where
  moved-Apart : (l : List A) {x y : A} → x ≡ y → All (Apart le x) l → All (Apart le y) l
  moved-Apart l e h = subst (λ z. All (Apart le z) l) e h

  pub Untied-Permᴰ : {xs ys : List A} → Permᴰ xs ys → Untied le xs → Untied le ys
  Untied-Permᴰ Permᴰ.nil h = tt
  Untied-Permᴰ (Permᴰ.cons e p) h =
      (All-Permᴰ (Apart le _) p (moved-Apart _ e h.0), Untied-Permᴰ p h.1)
  Untied-Permᴰ (Permᴰ.swap e f) h = (
    ((λ p q. h.0.0 (rw (e, f) q) (rw (e, f) p)), moved-Apart _ f h.1.0),
    (moved-Apart _ e h.0.1, h.1.1),
  )
  Untied-Permᴰ (Permᴰ.trans p q) h = Untied-Permᴰ q (Untied-Permᴰ p h)

  -- Where no two items tie, sorted lists with the same items are equal.
  pub sorted_unique :
      (xs ys : List A)
      → IsSorted le xs
      → IsSorted le ys
      → Untied le xs
      → Untied le ys
      → ((a : A) → In a xs → In a ys)
      → ((a : A) → In a ys → In a xs)
      → xs ≡ ys
  sorted_unique [] [] s s' u u' to from = refl
  sorted_unique [] (y ∷ ys) s s' u u' to from = absurd (from y (inl refl))
  sorted_unique (x ∷ xs) [] s s' u u' to from = absurd (to x (inl refl))
  sorted_unique (x ∷ xs) (y ∷ ys) s s' u u' to from =
      let same : x ≡ y = elim (to x (inl refl)) [
        | inl e ↦ e
        | inr m ↦ elim (from y (inl refl)) [
          | inl e ↦ sym e
          | inr k ↦ absurd (
              All-In (Apart le x) y xs u.0 k (All-In (λ z. le x z ≡ true) y xs s.0 k)
                (All-In (λ z. le y z ≡ true) x ys s'.0 m))
        ]
      ] in
      let rest : xs ≡ ys =
        sorted_unique xs ys s.1 s'.1 u.1 u'.1 (λ a m. later xs ys x y same s.0 u.0 (to a (inr m)) m)
          (λ a m. later ys xs y x (sym same) s'.0 u'.0 (from a (inr m)) m) in
      rw (same, rest) refl
    where
      later :
          (xs ys : List A) (x y : A)
          → x ≡ y
          → All (λ z. le x z ≡ true) xs
          → All (Apart le x) xs
          → {a : A} → In a (y ∷ ys)
          → In a xs
          → In a ys
      later xs ys x y same s u {a} (inl e) k =
          let le_x = All-In (λ z. le x z ≡ true) a xs s k in
          let e' : a ≡ x = e ∙ sym same in
          absurd (All-In (Apart le x) a xs u k le_x (rw e' (rw e' at le_x)))
      later xs ys x y same s u (inr m) k = m
