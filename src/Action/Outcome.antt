-- ===== src/Action/Outcome.antt =====
-- What an action guarantees: `Q` of its value and the state after it, or `R` of its error and the
-- state after that.
use device_handler.Prelude.{Result, ok, err}
use device_handler.Action.{Action, continue}

module _ {S E A : Type 0} where
  abbrev pub Outcome : (A → S → Type 0) → (E → S → Type 0) → Result E A × S → Type 0
  Outcome Q R (ok a, s) = Q a s
  Outcome Q R (err e, s) = R e s

module _ {S E A B : Type 0} where
  -- The rule for a sequence.
  pub continue-Outcome :
      (f : A → Action S E B) (r : Result E A × S) (Q : A → S → Type 0) (Q' : B → S → Type 0)
      (R : E → S → Type 0)
      → Outcome Q R r
      → ((a : A) (s : S) → Q a s → Outcome Q' R (f a s))
      → Outcome Q' R (continue f r)
  continue-Outcome f (ok a, s) Q Q' R h k = k a s h
  continue-Outcome f (err e, s) Q Q' R h k = h

module _ {S E A : Type 0} where
  -- A weaker guarantee.
  pub weaken :
      (r : Result E A × S) (Q Q' : A → S → Type 0) (R R' : E → S → Type 0)
      → Outcome Q R r
      → ((a : A) (s : S) → Q a s → Q' a s)
      → ((e : E) (s : S) → R e s → R' e s)
      → Outcome Q' R' r
  weaken (ok a, s) Q Q' R R' h k l = k a s h
  weaken (err e, s) Q Q' R R' h k l = l e s h
