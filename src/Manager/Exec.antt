-- ===== src/Manager/Exec.antt =====
-- Methods that change a state and may raise: what was written before a raise stays written.
pub mod Rules
use video_flow.Prelude.{Option, none, some}

pub data Exception : Type 0 where
  db_error value_error attribute_error http_error multiple_results : Exception

pub data Result (A : Type 0) : Type 0 where
  ok : A → Result A
  raised : Exception → Result A

abbrev pub Exec : Type 0 → Type 0 → Type 0
Exec S A = S → Result A × S

abbrev pub caught : {A : Type 0} → Result A → Option A
caught (ok a) = some a
caught (raised e) = none

module _ {S A : Type 0} where
  unfoldable pub pure : A → Exec S A
  pure a s = (ok a, s)

  unfoldable pub raise : Exception → Exec S A
  raise e s = (raised e, s)

  unfoldable pub lift : Result A → Exec S A
  lift r s = (r, s)

  -- `try: m` / `except Exception: handler`
  abbrev pub otherwise : Result A → Exec S A → Exec S A
  otherwise (ok a) handler s = (ok a, s)
  otherwise (raised e) handler s = handler s

  unfoldable pub try_except : Exec S A → Exec S A → Exec S A
  try_except m handler s = let (r, s') = m s in otherwise r handler s'

  -- A `try` whose handler ends the method: `none` is the case of the handler.
  unfoldable pub attempt : Exec S A → Exec S (Option A)
  attempt m s = let (r, s') = m s in (ok (caught r), s')

module _ {S A B : Type 0} where
  abbrev pub continue : Result A → (A → Exec S B) → Exec S B
  continue (ok a) f s = f a s
  continue (raised e) f s = (raised e, s)

  infixl 10 ◌>>=◌ ◌>>◌
  unfoldable pub ◌>>=◌ : Exec S A → (A → Exec S B) → Exec S B
  unfolding pure raise lift try_except attempt
  ◌>>=◌ m f s = let (r, s') = m s in continue r f s'

  abbrev pub ◌>>◌ : Exec S A → Exec S B → Exec S B
  m >> n = m >>= λ _. n
