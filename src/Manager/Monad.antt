-- ===== src/Manager/Monad.antt =====
-- A handler's run: a state that stays as it was left when an exception is thrown, and the
-- environment, that is the outcome of each attempt to push a message and the clock.
use casual.Base.{ℕ, List, ◌∷◌}
use casual.Run
pub use casual.Ipc.{Outcome, delivered, full, gone}
unfoldable pub use casual.Run.{pure, raise, gets, modify, continue, or_throw, case_of, ◌>>=◌}
pub use casual.Run.{ok, throw, ◌>>◌}
use casual.Base.Int.{ℤ}
use casual.Manager.Model.{Process, Resource, Ties}
use casual.Manager.State.{State, Event}

-- The exceptions: `user::error` with its code, `invalid::Argument`, `queue::Unavailable` and
-- `signal::Terminate`.
pub data Exception : Type 0 where
  user_error : ℤ → Exception
  invalid_argument : Exception
  unavailable : Exception
  terminate : Exception

abbrev pub Result : Type 0 → Type 0
Result A = Run.Result Exception A

abbrev pub Action : Type 0 → Type 0
Action A = Run.Action State Exception A

unfoldable pub record_event : Event → Action (Unit {0})
record_event e = modify (λ s. record s { events = e ∷ s.events })

-- `ties resources` is the order in which a sort of `resources` leaves those with the same id.
-- `push events queue` is the outcome of the next attempt on `queue` after all that has happened,
-- `now events` the clock then, `self` is `common::process::handle()` and `broker` the queue
-- `ipc::broker::id()`.
pub record Environment : Type 0 where
  pub push : List Event → ℕ → Outcome
  pub now : List Event → ℤ
  pub self : Process
  pub broker : ℕ
  pub ties : List Resource → Ties
