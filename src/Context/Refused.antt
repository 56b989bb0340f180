-- ===== src/Context/Refused.antt =====
-- What `begin`, `suspend` and `resume` refuse.
use casual.Base.{ℕ, ◌⊎◌, ◌≡◌, Bool, true, false, Option, is_empty, find_if, not, if◌then◌else◌}
use casual.Base.Int.{ℤ}
use casual.Context.Code.{tm_suspend, tm_resume}
use casual.Context.State.{
  State, Transaction, Control, is_real, is_some, has_xid, current, protocol, outside, argument,
}
use casual.Context.Monad.{Environment, ok, raise, require, record_event, ◌>>=◌}
use casual.Context.Resources.{resources_end}
use casual.Context.Commit.{is_stacked, start_transaction, start, leave, begin}
use casual.Context.Stack.{suspend, resume}
use casual.Context.Whole.{
  Returns, Returns-bind, Returns-pure, Returns-gets, Returns-modify, Returns-Whole, Whole,
  Whole-gets, Whole-case_of, Whole-require, Whole-raise, Whole-then, require-Whole,
  resources_end-Returns, resources_start-Returns,
}

module _ (env : Environment) where
  start-Returns : (at : ℤ) → Returns (start env at)
  unfolding start start_transaction record_event
  start-Returns at =
      search (Returns-bind, Returns-pure, Returns-gets, Returns-modify, resources_start-Returns)

  leave-Whole : (t : Transaction) (control : Control) → Whole (leave env t control)
  unfolding leave
  leave-Whole t control = by_kind (is_real t)
    where
      by_kind :
          (real : Bool)
          → Whole (
              if real
              then (require (is_stacked control) protocol >>= λ _. resources_end env t tm_suspend)
              else require (is_empty t.resources) outside)
      by_kind true = Whole-require _ protocol _ (Returns-Whole _ (resources_end-Returns env t _))
      by_kind false = require-Whole (is_empty t.resources) outside

  begin-Whole : Whole (begin env)
  unfolding begin
  begin-Whole = Whole-gets current _ λ t.
      Whole-gets (λ s. s.control) _
        λ control.
          Whole-then _
            (λ _.
              Returns-bind _ _ (Returns-gets _)
                λ now. Returns-bind _ _ (start-Returns now) λ _. Returns-pure _)
            (leave env t control) (leave-Whole t control)

  suspend-Whole : Whole (suspend env)
  unfolding suspend
  suspend-Whole = Whole-gets current _ λ t. Whole-require (is_real t) protocol _ (
      Returns-Whole _ (
        Returns-bind _ _ (resources_end-Returns env t tm_suspend)
          λ _. Returns-bind _ _ (Returns-modify _) λ _. Returns-pure _))

  resume-Whole : (xid : Option ℕ) → Whole (resume env xid)
  unfolding resume
  resume-Whole xid = Whole-require (is_some xid) argument _ (
      Whole-gets current _ λ t. Whole-require (not (is_real t)) protocol _ (
        Whole-require (is_empty t.resources) outside _ (
          Whole-gets (λ s. find_if (has_xid xid) s.transactions) _
            λ found. Whole-case_of found (raise argument) _ (Whole-raise argument) λ wanted.
              Returns-Whole _ (
                Returns-bind _ _ (resources_start-Returns env wanted tm_resume)
                  λ _. Returns-modify _))))

-- In any state and whatever the resources answer, each of begin, suspend, and resume of any xid
-- either returns, or throws and leaves the state, with the events, as it was.
pub refused_unchanged :
    (env : Environment) (xid : Option ℕ) (s : State)
    → (((code : ℤ) × ((begin env s).0 ≡ ok code)) ⊎ ((begin env s).1 ≡ s))
      × (((suspended : Option ℕ) × ((suspend env s).0 ≡ ok suspended)) ⊎ ((suspend env s).1 ≡ s))
      × (((done : Unit {0}) × ((resume env xid s).0 ≡ ok done)) ⊎ ((resume env xid s).1 ≡ s))
refused_unchanged env xid s =
    ((begin-Whole env).at s, (suspend-Whole env).at s, (resume-Whole env xid).at s)
