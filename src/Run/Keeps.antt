-- ===== src/Run/Keeps.antt =====
-- Invariants of handlers: one rule for each way to build an action.
use casual.Base.{◌≡◌, refl, Bool, true, false, if◌then◌else◌, Option, none, some}
use casual.Run.{
  Action, Result, ok, throw, pure, raise, gets, modify, continue, or_throw, case_of, ◌>>=◌, caught,
  recover,
}

-- The action keeps `P`, whether it returns or throws.
pub record Keeps {S E A : Type 0} (P : S → Type 0) (act : Action S E A) : Type 0 where
  pub at : (st : S) → P st → P (act st).1

abbrev pub Returns : {E A : Type 0} → (A → Type 0) → Result E A → Type 0
Returns Q (ok a) = Q a
Returns Q (throw e) = Unit

-- The action keeps `P`, and from a state with `P` it returns only what has `Q`.
pub record Yields {S E A : Type 0} (P : S → Type 0) (Q : A → Type 0) (act : Action S E A)
    : Type 0 where
  pub at : (st : S) → P st → P (act st).1 × Returns Q (act st).0

module _ {S E A : Type 0} {P : S → Type 0} where
  pub Keeps-gets : (f : S → A) → Keeps P (gets {E = E} f)
  unfolding gets
  Keeps-gets f = record { at = λ st held. held }

  pub Keeps-pure : (a : A) → Keeps P (pure {E = E} a)
  unfolding pure
  Keeps-pure a = record { at = λ st held. held }

  pub Keeps-raise : (e : E) → Keeps P (raise {S = S} {A = A} e)
  unfolding raise
  Keeps-raise e = record { at = λ st held. held }

  pub Keeps-or_throw : (o : Option A) (e : E) → Keeps P (or_throw o e)
  unfolding or_throw
  Keeps-or_throw none e = Keeps-raise e
  Keeps-or_throw (some a) e = Keeps-pure a

  pub Keeps-if :
      (b : Bool) (act n : Action S E A) → Keeps P act → Keeps P n → Keeps P (if b then act else n)
  Keeps-if true act n first kn = first
  Keeps-if false act n first kn = kn

  pub Keeps-Yields : {Q : A → Type 0} {act : Action S E A} → Yields P Q act → Keeps P act
  Keeps-Yields y = record { at = λ st held. (y.at st held).0 }

module _ {S E : Type 0} {P : S → Type 0} where
  pub Keeps-modify : (f : S → S) → ((s : S) → P s → P (f s)) → Keeps P (modify {E = E} f)
  unfolding modify
  Keeps-modify f k = record { at = k }

module _ {S E A B : Type 0} {P : S → Type 0} where
  pub Keeps-case_of :
      (o : Option A) (act : Action S E B) (next : A → Action S E B)
      → Keeps P act
      → ((a : A) → Keeps P (next a))
      → Keeps P (case_of o act next)
  unfolding case_of
  Keeps-case_of none act next first after = first
  Keeps-case_of (some a) act next first after = after a

  -- The branch may use what was found.
  pub Keeps-case_of-some :
      (o : Option A) (act : Action S E B) (next : A → Action S E B)
      → Keeps P act
      → ((a : A) → o ≡ some a → Keeps P (next a))
      → Keeps P (case_of o act next)
  unfolding case_of
  Keeps-case_of-some none act next first after = first
  Keeps-case_of-some (some a) act next first after = after a refl

  Keeps-continue :
      (r : Result E A) (next : A → Action S E B)
      → ((a : A) → Keeps P (next a))
      → Keeps P (continue r next)
  unfolding continue
  Keeps-continue (ok a) next after = after a
  Keeps-continue (throw e) next after = record { at = λ st held. held }

  pub Keeps-bind :
      (act : Action S E A) (next : A → Action S E B)
      → Keeps P act
      → ((a : A) → Keeps P (next a))
      → Keeps P (act >>= next)
  unfolding ◌>>=◌
  Keeps-bind act next first after = record {
    at = λ st held. let (r, s') = act st in (Keeps-continue r next after).at s' (first.at st held);
  }

  Keeps-continue-Returns :
      {Q : A → Type 0} (r : Result E A) (next : A → Action S E B)
      → Returns Q r
      → ((a : A) → Q a → Keeps P (next a))
      → Keeps P (continue r next)
  unfolding continue
  Keeps-continue-Returns (ok a) next q after = after a q
  Keeps-continue-Returns (throw e) next q after = record { at = λ st held. held }

  -- The rest may use what the state has, with what `P` says of it.
  pub Keeps-gets_at :
      (look : S → A) (next : A → Action S E B)
      → ((st : S) → P st → Keeps P (next (look st)))
      → Keeps P (gets look >>= next)
  unfolding ◌>>=◌ gets continue
  Keeps-gets_at look next after = record { at = λ st held. (after st held).at st held }

  -- The rest may use what the first action yields.
  pub Keeps-bind_Yields :
      {Q : A → Type 0} (act : Action S E A) (next : A → Action S E B)
      → Yields P Q act
      → ((a : A) → Q a → Keeps P (next a))
      → Keeps P (act >>= next)
  unfolding ◌>>=◌
  Keeps-bind_Yields act next ym after = record {
    at = λ st held.
        let (r, s') = act st in
        (Keeps-continue-Returns r next (ym.at st held).1 after).at s' (ym.at st held).0;
  }

module _ {S E A : Type 0} {P : S → Type 0} where
  Keeps-caught :
      (handler : E → Action S E A) (r : Result E A)
      → ((e : E) → Keeps P (handler e))
      → Keeps P (caught handler r)
  unfolding caught
  Keeps-caught handler (ok a) after = record { at = λ st held. held }
  Keeps-caught handler (throw e) after = after e

  pub Keeps-recover :
      (handler : E → Action S E A) (act : Action S E A)
      → ((e : E) → Keeps P (handler e))
      → Keeps P act
      → Keeps P (recover handler act)
  unfolding recover
  Keeps-recover handler act after first = record {
    at = λ st held.
        let (r, left) = act st in (Keeps-caught handler r after).at left (first.at st held);
  }

-- From a state with `P` the action leaves one with `Q`, whether it returns or throws.
pub record Takes {S E A : Type 0} (P Q : S → Type 0) (act : Action S E A) : Type 0 where
  pub at : (st : S) → P st → Q (act st).1

module _ {S E : Type 0} {P Q : S → Type 0} (weaken : (st : S) → P st → Q st) where
  pub Takes-Keeps : {A : Type 0} (act : Action S E A) → Keeps P act → Takes P Q act
  Takes-Keeps act kept = record { at = λ st held. weaken (act st).1 (kept.at st held) }

  Takes-continue :
      {A B : Type 0} (r : Result E A) (next : A → Action S E B)
      → ((a : A) → Takes P Q (next a))
      → Takes P Q (continue r next)
  unfolding continue
  Takes-continue (ok a) next after = after a
  Takes-continue (throw e) next after = record { at = weaken }

  pub Takes-bind :
      {A B : Type 0} (act : Action S E A) (next : A → Action S E B)
      → Keeps P act
      → ((a : A) → Takes P Q (next a))
      → Takes P Q (act >>= next)
  unfolding ◌>>=◌
  Takes-bind act next first after = record {
    at = λ st held.
        let (r, left) = act st in (Takes-continue r next after).at left (first.at st held);
  }

module _ {S E A : Type 0} {P Q : S → Type 0} where
  pub Takes-if :
      (b : Bool) (act n : Action S E A)
      → Takes P Q act
      → Takes P Q n
      → Takes P Q (if b then act else n)
  Takes-if true act n first second = first
  Takes-if false act n first second = second

  pub Takes-then :
      {B : Type 0} (act : Action S E B) (next : B → Action S E A)
      → Takes P Q act
      → ((b : B) → Keeps Q (next b))
      → Takes P Q (act >>= next)
  unfolding ◌>>=◌
  Takes-then act next first after = record {
    at = λ st held.
        let (r, left) = act st in (Keeps-continue r next after).at left (first.at st held);
  }

  pub Takes-recover :
      (handler : E → Action S E A) (act : Action S E A)
      → ((e : E) → Keeps Q (handler e))
      → Takes P Q act
      → Takes P Q (recover handler act)
  unfolding recover
  Takes-recover handler act after first = record {
    at = λ st held.
        let (r, left) = act st in (Keeps-caught handler r after).at left (first.at st held);
  }

-- One action after the other.
pub Takes-seq :
    {S E A B : Type 0} {P Q R : S → Type 0} (act : Action S E A) (next : A → Action S E B)
    → ((st : S) → Q st → R st)
    → Takes P Q act
    → ((a : A) → Takes Q R (next a))
    → Takes P R (act >>= next)
unfolding ◌>>=◌
Takes-seq act next weaken first after = record {
  at = λ st held.
      let (r, left) = act st in (Takes-continue weaken r next after).at left (first.at st held);
}

pub ruleset keeps_rules = (
  Keeps-pure, Keeps-raise, Keeps-gets, Keeps-or_throw, Keeps-if, Keeps-case_of, Keeps-bind,
  Keeps-recover,
)
