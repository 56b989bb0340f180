-- ===== src/Run/Yields.antt =====
-- Rules for what an action returns.
use casual.Run.{Action, Result, ok, throw, pure, continue, ◌>>=◌}
use casual.Run.Keeps.{Keeps, Yields, Returns, Takes}

module _ {S E A : Type 0} {P : S → Type 0} where
  pub Yields-pure : {Q : A → Type 0} (a : A) → Q a → Yields P Q (pure {E = E} a)
  unfolding pure
  Yields-pure a q = record { at = λ st held. (held, q) }

  -- Nothing is known of what a first action returns.
  pub Keeps-Yields_any : (act : Action S E A) → Keeps P act → Yields P (λ _. Unit {0}) act
  Keeps-Yields_any act kept = record { at = λ st held. (kept.at st held, any_result (act st).0) }
    where
      any_result : (r : Result E A) → Returns (λ _. Unit {0}) r
      any_result (ok a) = tt
      any_result (throw e) = tt

module _ {S E A B : Type 0} {P : S → Type 0} where
  Yields-continue :
      {Q : A → Type 0} {R : B → Type 0} (r : Result E A) (next : A → Action S E B)
      → Returns Q r
      → ((a : A) → Q a → Yields P R (next a))
      → Yields P R (continue r next)
  unfolding continue
  Yields-continue (ok a) next q after = after a q
  Yields-continue (throw e) next q after = record { at = λ st held. (held, tt) }

  pub Yields-bind :
      {Q : A → Type 0} {R : B → Type 0} (act : Action S E A) (next : A → Action S E B)
      → Yields P Q act
      → ((a : A) → Q a → Yields P R (next a))
      → Yields P R (act >>= next)
  unfolding ◌>>=◌
  Yields-bind act next first after = record {
    at = λ st held.
        let (r, left) = act st in
        (Yields-continue r next (first.at st held).1 after).at left (first.at st held).0;
  }

module _ {S E A B : Type 0} {P R : S → Type 0} (weaken : (st : S) → P st → R st) where
  Takes-continue_Yields :
      {Q : A → Type 0} (r : Result E A) (next : A → Action S E B)
      → Returns Q r
      → ((a : A) → Q a → Takes P R (next a))
      → Takes P R (continue r next)
  unfolding continue
  Takes-continue_Yields (ok a) next q after = after a q
  Takes-continue_Yields (throw e) next q after = record { at = weaken }

  -- The rest may use what the first action yields.
  pub Takes-bind_Yields :
      {Q : A → Type 0} (act : Action S E A) (next : A → Action S E B)
      → Yields P Q act
      → ((a : A) → Q a → Takes P R (next a))
      → Takes P R (act >>= next)
  unfolding ◌>>=◌
  Takes-bind_Yields act next first after = record {
    at = λ st held.
        let (r, left) = act st in
        (Takes-continue_Yields r next (first.at st held).1 after).at left (first.at st held).0;
  }
