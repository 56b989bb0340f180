-- ===== src/Broker/Monad.antt =====
-- A handler's run on the state of the broker, and what it asks of the world.
use casual.Base.{ℕ, Bool, true, false, Option, List, ◌∷◌}
use casual.Base.Int.{ℤ}
use casual.Ipc.{Process, Outcome, delivered, full, gone}
use casual.Run
use casual.Broker.Message.{Message}
use casual.Broker.State.{
  State, Event, Exception, Executable, missing, unavailable, sent, refused, lost,
}
unfoldable pub use casual.Run.{
  pure, raise, gets, modify, continue, or_throw, case_of, ◌>>=◌, caught, recover,
}
pub use casual.Run.{ok, throw, ◌>>◌}

abbrev pub Action : Type 0 → Type 0
Action A = Run.Action State Exception A

-- `push events queue` is the outcome of the next attempt on `queue` after all that has happened,
-- `now events` the clock then, `spawn events executable` the process that is started then, or
-- nothing if the executable cannot be started, and `self` is `common::process::handle()`.
pub record Environment : Type 0 where
  pub push : List Event → ℕ → Outcome
  pub now : List Event → ℤ
  pub spawn : List Event → Executable → Option ℕ
  pub self : Process

unfoldable pub record_event : Event → Action (Unit {0})
record_event e = modify (λ s. record s { events = e ∷ s.events })

-- `catch( const state::exception::Missing&)`.
abbrev pub on_missing : {A : Type 0} → Action A → Exception → Action A
on_missing handler missing = handler
on_missing handler e = raise e

-- A blocking send waits while the queue is full.
unfoldable pub deliver : ℕ → Message → Outcome → Action (Unit {0})
unfolding record_event
deliver queue message gone = do record_event (lost queue message); raise unavailable
deliver queue message _ = record_event (sent queue message)

unfoldable pub offer : ℕ → Message → Outcome → Action Bool
unfolding record_event
offer queue message delivered = do record_event (sent queue message); pure true
offer queue message full = do record_event (refused queue message); pure false
offer queue message gone = do record_event (lost queue message); raise unavailable

module _ (env : Environment) where
  -- `ipc::device().blocking_send`.
  unfoldable pub blocking_send : ℕ → Message → Action (Unit {0})
  unfolding deliver
  blocking_send queue message = do
    outcome ← gets λ s. env.push s.events queue
    deliver queue message outcome

  -- `ipc::device().non_blocking_send`: whether the queue took the message.
  unfoldable pub non_blocking_send : ℕ → Message → Action Bool
  unfolding offer
  non_blocking_send queue message = do
    outcome ← gets λ s. env.push s.events queue
    offer queue message outcome
