-- ===== src/Context/Whole.antt =====
-- What is refused leaves the state as it was.
use casual.Base.{ℕ, ◌⊎◌, inl, inr, ◌∙◌, ap, ◌≡◌, refl, Bool, true, false, Option, none, some, arith}
use casual.Run
use casual.Run.{bind_ok}
use casual.Context.State.{State, Exception, Transaction}
use casual.Context.Monad.{
  Action, Environment, ok, throw, pure, raise, gets, modify, continue, case_of, require, ◌>>=◌,
}
use casual.Context.Resources.{resources_start, resources_end}
use casual.Context.Adds.{after, resources_end_quiet, resources_start_quiet}

-- It returns from every state.
pub record Returns {A : Type 0} (act : Action A) : Type 0 where
  pub at : (s : State) → (a : A) × (left : State) × (act s ≡ (ok a, left))

-- It returns, or leaves the state as it was.
pub record Whole {A : Type 0} (act : Action A) : Type 0 where
  pub at : (s : State) → ((a : A) × ((act s).0 ≡ ok a)) ⊎ ((act s).1 ≡ s)

module _ {A B : Type 0} where
  pub Returns-bind :
      (act : Action A) (next : A → Action B)
      → Returns act
      → ((a : A) → Returns (next a))
      → Returns (act >>= next)
  Returns-bind act next first rest = record {
    at = λ s.
        let (a, left, e) = first.at s in
        let (b, end, f) = (rest a).at left in (b, end, bind_ok act next s left a e ∙ f);
  }

  pub Whole-gets :
      (look : State → A) (next : A → Action B)
      → ((a : A) → Whole (next a))
      → Whole (gets look >>= next)
  unfolding ◌>>=◌ gets continue
  Whole-gets look next rest = record { at = λ s. (rest (look s)).at s }

  pub Whole-case_of :
      (o : Option A) (act : Action B) (next : A → Action B)
      → Whole act
      → ((a : A) → Whole (next a))
      → Whole (case_of o act next)
  unfolding case_of
  Whole-case_of none act next first rest = first
  Whole-case_of (some a) act next first rest = rest a

module _ {A : Type 0} where
  pub Whole-require :
      (b : Bool) (e : Exception) (next : Unit {0} → Action A)
      → Whole (next tt)
      → Whole (require b e >>= next)
  unfolding ◌>>=◌ require pure raise continue
  Whole-require true e next rest = record { at = rest.at }
  Whole-require false e next rest = record { at = λ s. inr refl }

  pub Whole-raise : (e : Exception) → Whole (raise {A = A} e)
  unfolding raise
  Whole-raise e = record { at = λ s. inr refl }

  pub Returns-Whole : (act : Action A) → Returns act → Whole act
  Returns-Whole act returns = record {
    at = λ s. let (a, left, e) = returns.at s in inl (a, ap (λ r. r.0) e);
  }

  pub Returns-pure : (a : A) → Returns (pure a)
  unfolding pure
  Returns-pure a = record { at = λ s. (a, s, refl) }

  pub Returns-gets : (look : State → A) → Returns (gets look)
  unfolding gets
  Returns-gets look = record { at = λ s. (look s, s, refl) }

pub require-Whole : (b : Bool) (e : Exception) → Whole (require b e)
unfolding require pure raise
require-Whole b e = record { at = λ s. by_test b s }
  where
    by_test :
        (b : Bool) (s : State)
        → ((a : Unit {0}) × ((require b e s).0 ≡ ok a)) ⊎ ((require b e s).1 ≡ s)
    by_test true s = inl (tt, refl)
    by_test false s = inr refl

pub Returns-modify : (f : State → State) → Returns (modify f)
unfolding modify
Returns-modify f = record { at = λ s. (tt, f s, refl) }

module _ (env : Environment) (t : Transaction) (flags : ℕ) where
  pub resources_end-Returns : Returns (resources_end env t flags)
  resources_end-Returns = record {
    at = λ s.
        let (a, news, e, q) = (resources_end_quiet env (λ _. false) t flags (λ id v. refl)).at s in
        (a, after news s, e);
  }

  pub resources_start-Returns : Returns (resources_start env t flags)
  resources_start-Returns = record {
    at = λ s.
        let (a, news, e, q) =
          (resources_start_quiet env (λ _. false) t flags (λ id f v. refl)).at s in
        (a, after news s, e);
  }

-- What comes after returns: what is refused is refused before anything is done.
module _ {A B : Type 0} (next : A → Action B) (rest : (a : A) → Returns (next a)) where
  Whole-continue :
      (r : Run.Result Exception A) (s left : State)
      → (((a : A) × (r ≡ ok a)) ⊎ (left ≡ s))
      → ((b : B) × ((continue r next left).0 ≡ ok b)) ⊎ ((continue r next left).1 ≡ s)
  unfolding continue
  Whole-continue (ok a) s left h = let (b, end, e) = (rest a).at left in inl (b, ap (λ r. r.0) e)
  Whole-continue (throw e) s left (inl (a, h)) = absurd (ground arith)
  Whole-continue (throw e) s left (inr h) = inr h

  pub Whole-then : (act : Action A) → Whole act → Whole (act >>= next)
  unfolding ◌>>=◌
  Whole-then act whole = record {
    at = λ s. let (r, left) = act s in Whole-continue r s left (whole.at s);
  }
