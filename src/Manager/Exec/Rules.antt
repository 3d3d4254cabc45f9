-- ===== src/Manager/Exec/Rules.antt =====
-- Triples for actions that may raise: from a state with `P`, a return has `Q` of its value and the
-- new state, and a raise leaves a state with `E`. One rule for each way to build an action.
use video_flow.Prelude.{Option, none, some}
use video_flow.Manager.Exec.{
  Exception, Result, ok, raised, Exec, pure, raise, try_except, attempt, continue, otherwise,
  caught, ◌>>=◌,
}

module _ {S A : Type 0} where
  abbrev pub Ends : (A → S → Type 0) → (S → Type 0) → Result A → S → Type 0
  Ends Q E (ok a) s = Q a s
  Ends Q E (raised e) s = E s

  pub record Triple (P : S → Type 0) (m : Exec S A) (Q : A → S → Type 0) (E : S → Type 0)
      : Type 0 where
    pub at : (s : S) → P s → Ends Q E (m s).0 (m s).1

module _ {S A : Type 0} {Q : A → S → Type 0} {E : S → Type 0} where
  try_end :
      (F : S → Type 0) (r : Result A) (handler : Exec S A) (s : S)
      → Ends Q F r s
      → Triple F handler Q E
      → Ends Q E (otherwise r handler s).0 (otherwise r handler s).1
  try_end F (ok a) handler s q t = q
  try_end F (raised e) handler s f t = t.at s f

module _ {S A : Type 0} {P : S → Type 0} {Q : A → S → Type 0} {E : S → Type 0} where
  pub Triple-pure : (a : A) → ((s : S) → P s → Q a s) → Triple P (pure a) Q E
  unfolding pure
  Triple-pure a h = record { at = h }

  pub Triple-raise : (e : Exception) → ((s : S) → P s → E s) → Triple P (raise e) Q E
  unfolding raise
  Triple-raise e h = record { at = h }

  -- From a stronger precondition.
  pub Triple_from :
      {m : Exec S A} (P' : S → Type 0) → ((s : S) → P' s → P s) → Triple P m Q E → Triple P' m Q E
  Triple_from P' h t = record { at = λ s p. t.at s (h s p) }

  pub Triple-try_except :
      (F : S → Type 0) (m handler : Exec S A)
      → Triple P m Q F
      → Triple F handler Q E
      → Triple P (try_except m handler) Q E
  unfolding try_except
  Triple-try_except F m handler tm th = record {
    at = λ s p. let (r, s') = m s in try_end F r handler s' (tm.at s p) th;
  }

module _ {S A : Type 0} (Q : A → S → Type 0) (F : S → Type 0) where
  abbrev pub OnAttempt : Option A → S → Type 0
  OnAttempt none s = F s
  OnAttempt (some a) s = Q a s

  attempt_end : (r : Result A) (s : S) → Ends Q F r s → OnAttempt (caught r) s
  attempt_end (ok a) s q = q
  attempt_end (raised e) s q = q

module _ {S A : Type 0} {P : S → Type 0} {Q : A → S → Type 0} {E F : S → Type 0} where
  pub Triple-attempt : (m : Exec S A) → Triple P m Q F → Triple P (attempt m) (OnAttempt Q F) E
  unfolding attempt
  Triple-attempt m t = record { at = λ s p. let (r, s') = m s in attempt_end Q F r s' (t.at s p) }

module _ {S A B : Type 0} {Q : A → S → Type 0} {R : B → S → Type 0} {E : S → Type 0} where
  bind_end :
      (r : Result A) (f : A → Exec S B) (s : S)
      → Ends Q E r s
      → ((a : A) → Triple (Q a) (f a) R E)
      → Ends R E (continue r f s).0 (continue r f s).1
  bind_end (ok a) f s q tf = (tf a).at s q
  bind_end (raised e) f s q tf = q

module _ {S A B : Type 0} {P : S → Type 0} {Q : A → S → Type 0} {R : B → S → Type 0}
    {E : S → Type 0} where
  pub Triple-bind :
      (m : Exec S A) (f : A → Exec S B)
      → Triple P m Q E
      → ((a : A) → Triple (Q a) (f a) R E)
      → Triple P (m >>= f) R E
  unfolding ◌>>=◌
  Triple-bind m f tm tf = record { at = λ s p. let (r, s') = m s in bind_end r f s' (tm.at s p) tf }

Ends-to :
    {S A : Type 0} (Q Q' : A → S → Type 0) (E : S → Type 0)
    → ((a : A) (s : S) → Q a s → Q' a s)
    → (r : Result A) (s : S) → Ends Q E r s
    → Ends Q' E r s
Ends-to Q Q' E h (ok a) s q = h a s q
Ends-to Q Q' E h (raised e) s q = q

-- To a weaker postcondition.
pub Triple_to :
    {S A : Type 0} {P : S → Type 0} {Q : A → S → Type 0} {E : S → Type 0} {m : Exec S A}
    (Q' : A → S → Type 0)
    → ((a : A) (s : S) → Q a s → Q' a s)
    → Triple P m Q E
    → Triple P m Q' E
Triple_to {Q = Q} {E = E} {m = m} Q' h t = record {
  at = λ s p. Ends-to Q Q' E h (m s).0 (m s).1 (t.at s p);
}
