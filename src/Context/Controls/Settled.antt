-- ===== src/Context/Controls/Settled.antt =====
-- The end of a commit or a rollback under each transaction control.
use mathlib.Core.Path.{subst}
use casual.Base.{
  ◌∙◌, ap, sym, ◌⊎◌, inl, inr, ◌≡◌, refl, Bool, true, false, Bool-cases, List, [], ◌∷◌, ◌++◌,
  is_empty,
}
use casual.Base.Int.{ℤ, ◌==ℤ◌}
use casual.Run
use casual.Run.{bind_ok}
use casual.Context.Code.{tx_ok, tm_resume}
use casual.Context.State.{
  State, Exception, Transaction, Control, unchained, chained, stacked, new_transaction, is_real,
  is_some, current, last_or, undefined,
}
use casual.Context.Monad.{
  Environment, ok, throw, pure, raise, gets, modify, continue, require, ◌>>=◌,
}
use casual.Context.Resources.{resources_end}
use casual.Context.Commit.{
  null_transaction, begin, clear_last, promote, pop_by, pop_transaction, pop_if_ok,
  commit_transaction, rollback_transaction, commit, rollback,
}
use casual.Context.Lists.{last_or-append, drop_last-append}
use casual.Context.Adds.{after, resources_end_quiet}
use casual.Context.Controls.{
  Frame, update_last-append, append-not_empty, commit_transaction-Frame, rollback_transaction-Frame,
  begin_outside,
}

-- What a run leaves, of the transactions below the one that is done.
abbrev pub Settled :
    Environment → Control → List Transaction → Run.Result Exception ℤ × State → Type 0
Settled env unchained ts r = (r.0 ≡ ok tx_ok) × (r.1.transactions ≡ ts ++ null_transaction ∷ [])
Settled env chained ts r =
    (r.0 ≡ ok tx_ok)
    × ((new : Transaction) × (is_real new ≡ true)
        × (new.trid.owner ≡ env.self)
        × (r.1.transactions ≡ ts ++ null_transaction ∷ [] ++ new ∷ []))
Settled env stacked [] r = (r.0 ≡ throw undefined) × (r.1.transactions ≡ [])
Settled env stacked (t ∷ ts) r = (r.0 ≡ ok tx_ok) × (r.1.transactions ≡ t ∷ ts)

unfoldable pub is_tx_ok : Run.Result Exception ℤ → Bool
is_tx_ok (ok code) = code ==ℤ tx_ok
is_tx_ok (throw e) = false

module _ (env : Environment) where
  clear_last_lem :
      (s : State) (ts : List Transaction) (t : Transaction)
      → s.transactions ≡ ts ++ t ∷ []
      → clear_last env s ≡ (ok tt, record s { transactions = ts ++ null_transaction ∷ [] })
  unfolding clear_last ◌>>=◌ gets continue require pure modify
  clear_last_lem s ts t stack =
      rw (stack, append-not_empty t ts, update_last-append (λ _. null_transaction) t ts) refl

  promote_lem :
      (s : State) (ts : List Transaction) (t : Transaction)
      → s.transactions ≡ ts ++ t ∷ []
      → Settled env stacked ts (pop_by env stacked s)
  unfolding pop_by promote ◌>>=◌ gets continue require pure raise modify
  promote_lem s [] t stack = rw stack (refl, refl)
  promote_lem s (u ∷ us) t stack =
      let below : State = record s { transactions = u ∷ us } in
      let (a, news, e, q) =
        (resources_end_quiet env (λ _. false) (current below) tm_resume (λ id v. refl)).at below in
      let run : pop_by env stacked s
          ≡ (resources_end env (current below) tm_resume >>= λ _. pure tx_ok) below =
        rw (stack, drop_last-append t (u ∷ us)) refl in
      subst (Settled env stacked (u ∷ us))
        (sym (
          run
          ∙ bind_ok (resources_end env (current below) tm_resume) (λ _. pure tx_ok) below
              (after news below) tt e))
        (refl, refl)

  pop_by-Settled :
      (control : Control) (s : State) (ts : List Transaction) (t : Transaction)
      → s.transactions ≡ ts ++ t ∷ []
      → Settled env control ts (pop_by env control s)
  unfolding pop_by new_transaction is_real is_some pure current
  pop_by-Settled unchained s ts t stack =
      subst (Settled env unchained ts)
        (sym (bind_ok (clear_last env) (λ _. pure tx_ok) s _ tt (clear_last_lem s ts t stack)))
        (refl, refl)
  pop_by-Settled chained s ts t stack =
      let cleared : State = record s { transactions = ts ++ null_transaction ∷ [] } in
      let on_top = last_or-append s.outside null_transaction ts in
      let (left, e, (new, real, owner, stack')) =
        begin_outside env cleared (ap is_real on_top) (ap (λ u. is_empty u.resources) on_top) in
      subst (Settled env chained ts)
        (sym (
          bind_ok (clear_last env) (λ _. begin env) s cleared tt (clear_last_lem s ts t stack) ∙ e))
        (refl, (new, real, owner, stack'))
  pop_by-Settled stacked s ts t stack = promote_lem s ts t stack

  -- Either the transaction is done, or the stack stays.
  abbrev pub Ends :
      State
      → List Transaction
      → Run.Result Exception ℤ × State
      → Run.Result Exception ℤ × State
      → Type 0
  Ends s ts done r =
      ((is_tx_ok done.0 ≡ true) × Settled env s.control ts r)
      ⊎ ((is_tx_ok done.0 ≡ false) × (r ≡ done) × (r.1.transactions ≡ s.transactions))

  continue-Ends :
      (result : Run.Result Exception ℤ) (left s : State) (ts : List Transaction) (t : Transaction)
      → Frame s.transactions s.control left
      → s.transactions ≡ ts ++ t ∷ []
      → Ends s ts (result, left) (continue result (pop_if_ok env) left)
  unfolding continue is_tx_ok pop_if_ok pop_transaction ◌>>=◌ gets pure
  continue-Ends (throw e) left s ts t frame stack = inr (refl, refl, frame.0)
  continue-Ends (ok code) left s ts t frame stack = elim (Bool-cases (code ==ℤ tx_ok)) [
    | inl e ↦ rw e (inl (refl, popped))
    | inr e ↦ rw e (inr (refl, refl, frame.0))
  ]
    where
      popped : Settled env s.control ts (pop_by env left.control left)
      popped =
          subst (λ c. Settled env s.control ts (pop_by env c left)) (sym frame.1)
            (pop_by-Settled s.control left ts t (frame.0 ∙ stack))

-- From a state with a transaction on top, a commit and a rollback end in this way: if what is done
-- to the transaction returns TX_OK, they return TX_OK and its place is taken by a null transaction
-- (unchained), by a null transaction and a new one of this process on top (chained), or it is gone
-- (stacked; but if nothing is below it, this is undefined). If it does not return TX_OK, or throws,
-- the result and the state are what it leaves, with the same stack.
pub commit-rollback-Ends :
    (env : Environment) (s : State) (ts : List Transaction) (t : Transaction)
    → s.transactions ≡ ts ++ t ∷ []
    → Ends env s ts (commit_transaction env t s) (commit env s)
      × Ends env s ts (rollback_transaction env t s) (rollback env s)
unfolding commit rollback ◌>>=◌ gets continue current
commit-rollback-Ends env s ts t stack =
    let on_top : current s ≡ t = ap (last_or s.outside) stack ∙ last_or-append s.outside t ts in
    (
      subst
          (λ u.
            Ends env s ts (commit_transaction env t s)
              ((commit_transaction env u >>= pop_if_ok env) s))
          (sym on_top) (continue-Ends env _ _ s ts t (commit_transaction-Frame env t s) stack),
      subst
          (λ u.
            Ends env s ts (rollback_transaction env t s)
              ((rollback_transaction env u >>= pop_if_ok env) s))
          (sym on_top) (continue-Ends env _ _ s ts t (rollback_transaction-Frame env t s) stack),
    )
