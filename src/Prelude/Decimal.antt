-- ===== src/Prelude/Decimal.antt =====
-- Numbers in decimal, as `str` and the format `:02d` print them.
use video_flow.Prelude.Tests.{ltb, order-cases}
use video_flow.Prelude.Lists.{length, length-append, All, All-append}
use video_flow.Prelude.Int.{ℤ, pos, negsuc}
use video_flow.Prelude.Text.{Text}
use Prim.Native.Nat.{ℕ, zero, suc, ◌+◌, ◌-◌, ◌*◌, ◌/◌, ◌%◌, ◌<◌, ◌≤◌}
use mathlib.Core.Path.{◌≡◌, refl, ap, ◌∙◌, sym}
use mathlib.Core.Logic.{inl, inr}
use mathlib.Core.Bool.{true, false}
use mathlib.Core.List.{[], ◌∷◌, ◌++◌}
use native.Mathlib.Omega.{arith}

-- `fuel` bounds the number of digits: a number is less than ten to its power.
unfoldable pub digits_from : ℕ → ℕ → Text
digits_from zero n = []
digits_from (suc fuel) n = elim (ltb n 10) [
  | true ↦ (48 + n) ∷ []
  | false ↦ digits_from fuel (n / 10) ++ ((48 + n % 10) ∷ [])
]

-- `str(n)`
unfoldable pub decimal : ℕ → Text
unfolding digits_from
decimal n = digits_from (suc n) n

unfoldable pub decimal_ℤ : ℤ → Text
unfolding decimal
decimal_ℤ (pos n) = decimal n
decimal_ℤ (negsuc n) = 45 ∷ decimal (suc n)

abbrev pub zeros : ℕ → Text
zeros zero = []
zeros (suc n) = 48 ∷ zeros n

-- `f"{n:0<width>d}"`
unfoldable pub padded : ℕ → ℕ → Text
unfolding decimal
padded width n = zeros (width - length (decimal n)) ++ decimal n

-- The number that digits stand for, behind the number `acc`.
abbrev pub read_from : ℕ → Text → ℕ
read_from acc [] = acc
read_from acc (c ∷ s) = read_from (acc * 10 + (c - 48)) s

abbrev pub read : Text → ℕ
read s = read_from 0 s

read_from-append : (acc : ℕ) (s t : Text) → read_from acc (s ++ t) ≡ read_from (read_from acc s) t
read_from-append acc [] t = refl
read_from-append acc (c ∷ s) t = read_from-append (acc * 10 + (c - 48)) s t

digits_from-one : (fuel n : ℕ) → n < 10 → digits_from (suc fuel) n ≡ (48 + n) ∷ []
unfolding digits_from
digits_from-one fuel n h = let e : ltb n 10 ≡ true = ground arith in rw (e, digits_from) refl

digits_from-more :
    (fuel n : ℕ)
    → 10 ≤ n
    → digits_from (suc fuel) n ≡ digits_from fuel (n / 10) ++ ((48 + n % 10) ∷ [])
unfolding digits_from
digits_from-more fuel n h = let e : ltb n 10 ≡ false = ground arith in rw (e, digits_from) refl

read-digits_from : (fuel n : ℕ) → n < fuel → read (digits_from fuel n) ≡ n
read-digits_from zero n h = absurd (omega arith)
read-digits_from (suc fuel) n h = elim (order-cases 10 n) [
  | inl k ↦
      rw
        (
          digits_from-more fuel n k,
          read_from-append 0 (digits_from fuel (n / 10)) ((48 + n % 10) ∷ []),
          read-digits_from fuel (n / 10) (omega arith),
        )
        (omega arith)
  | inr k ↦ rw (digits_from-one fuel n k) (omega arith)
]

-- Reading what was printed gives the number back.
pub read-decimal : (n : ℕ) → read (decimal n) ≡ n
unfolding decimal
read-decimal n = read-digits_from (suc n) n (omega arith)

read-zeros : (k : ℕ) (s : Text) → read (zeros k ++ s) ≡ read s
read-zeros zero s = refl
read-zeros (suc k) s = read-zeros k s

pub read-padded : (width n : ℕ) → read (padded width n) ≡ n
unfolding padded
read-padded width n = read-zeros (width - length (decimal n)) (decimal n) ∙ read-decimal n

pub decimal-inj : (m n : ℕ) → decimal m ≡ decimal n → m ≡ n
decimal-inj m n e = sym (read-decimal m) ∙ ap read e ∙ read-decimal n

pub padded-inj : (width m n : ℕ) → padded width m ≡ padded width n → m ≡ n
padded-inj width m n e = sym (read-padded width m) ∙ ap read e ∙ read-padded width n

pub length-zeros : (k : ℕ) → length (zeros k) ≡ k
length-zeros zero = refl
length-zeros (suc k) = ap suc (length-zeros k)

length-digits_from : (fuel n : ℕ) → 0 < fuel → 0 < length (digits_from fuel n)
length-digits_from zero n h = absurd (omega arith)
length-digits_from (suc fuel) n h = elim (order-cases 10 n) [
  | inl k ↦
      let e = length-append (digits_from fuel (n / 10)) ((48 + n % 10) ∷ []) in
      rw (digits_from-more fuel n k) (omega (arith, e))
  | inr k ↦ rw (digits_from-one fuel n k) (omega arith)
]

length-more :
    (fuel n : ℕ)
    → 10 ≤ n
    → length (digits_from (suc fuel) n) ≡ suc (length (digits_from fuel (n / 10)))
length-more fuel n h =
    let e = length-append (digits_from fuel (n / 10)) ((48 + n % 10) ∷ []) in
    rw (digits_from-more fuel n h) (omega (arith, e))

length-one : (fuel n : ℕ) → n < 10 → length (digits_from (suc fuel) n) ≡ 1
length-one fuel n h = rw (digits_from-one fuel n h) refl

length-decimal : (n : ℕ) → length (decimal n) ≡ length (digits_from (suc n) n)
unfolding decimal
length-decimal n = refl

length-padded : (n : ℕ) → length (padded 2 n) ≡ 2 - length (decimal n) + length (decimal n)
unfolding padded
length-padded n = omega (
  arith,
  length-append (zeros (2 - length (decimal n))) (decimal n),
  length-zeros (2 - length (decimal n)),
)

-- Two digits hold the numbers up to 99.
pub length-padded_short : (n : ℕ) → n < 100 → length (padded 2 n) ≡ 2
length-padded_short zero h =
    omega (arith, length-padded 0, length-decimal 0, length-one 0 0 (omega arith))
length-padded_short (suc m) h = elim (order-cases 10 (suc m)) [
  | inl k ↦ omega (
    arith,
    length-padded (suc m),
    length-decimal (suc m),
    length-more (suc m) (suc m) k,
    length-one m (suc m / 10) (omega arith),
  )
  | inr k ↦
      omega (arith, length-padded (suc m), length-decimal (suc m), length-one (suc m) (suc m) k)
]

pub length-padded_long : (n : ℕ) → 100 ≤ n → 2 < length (padded 2 n)
length-padded_long zero h = absurd (omega arith)
length-padded_long (suc m) h = omega (
  arith,
  length-padded (suc m),
  length-decimal (suc m),
  length-more (suc m) (suc m) (omega arith),
  length-more m (suc m / 10) (omega arith),
  length-digits_from m (suc m / 10 / 10) (omega arith),
)

-- Digits, and nothing behind them in the order of characters.
abbrev pub AreDigits : Text → Type 0
AreDigits s = All (λ c. c < 58) s

digits_from_none : (n : ℕ) → AreDigits (digits_from 0 n)
unfolding digits_from
digits_from_none n = tt

digits_from-AreDigits : (fuel n : ℕ) → AreDigits (digits_from fuel n)
digits_from-AreDigits zero n = digits_from_none n
digits_from-AreDigits (suc fuel) n = elim (order-cases 10 n) [
  | inl k ↦ rw (digits_from-more fuel n k) (
      All-append (λ c. c < 58) (digits_from fuel (n / 10)) ((48 + n % 10) ∷ [])
        (digits_from-AreDigits fuel (n / 10)) (omega arith, tt))
  | inr k ↦ rw (digits_from-one fuel n k) (omega arith, tt)
]

zeros-AreDigits : (k : ℕ) → AreDigits (zeros k)
zeros-AreDigits zero = tt
zeros-AreDigits (suc k) = (omega arith, zeros-AreDigits k)

pub padded-AreDigits : (width n : ℕ) → AreDigits (padded width n)
unfolding padded decimal
padded-AreDigits width n =
    All-append (λ c. c < 58) (zeros (width - length (decimal n))) (decimal n) (zeros-AreDigits _)
      (digits_from-AreDigits (suc n) n)
