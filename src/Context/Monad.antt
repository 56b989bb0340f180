-- ===== src/Context/Monad.antt =====
-- A run on the state of the context, and what it asks of the world: the resources, the transaction
-- manager and the clock.
use casual.Base.{ℕ, Bool, true, false, Option, List, ◌∷◌}
use casual.Base.Int.{ℤ}
use casual.Ipc.{Process}
use casual.Run
use casual.Context.State.{
  State, Event, Exception, XaCall, CommitReply, Message, called, sent, lost, unavailable,
}
unfoldable pub use casual.Run.{
  pure, raise, gets, modify, continue, or_throw, case_of, ◌>>=◌, caught, recover,
}
pub use casual.Run.{ok, throw, ◌>>◌}

abbrev pub Action : Type 0 → Type 0
Action A = Run.Action State Exception A

-- Of all that has happened: `xa` is what the switch of a resource returns, `make` the next new
-- xid, `now` the clock, `is_up` whether the queue of the transaction manager takes a message,
-- `commit_reply`, `final_reply` and `rollback_reply` the next reply from it, or nothing if the wait
-- is given up, and `self` is `common::process::handle()`.
pub record Environment : Type 0 where
  pub xa : List Event → XaCall → ℤ
  pub make : List Event → ℕ
  pub now : List Event → ℤ
  pub is_up : List Event → Bool
  pub commit_reply : List Event → Option CommitReply
  pub final_reply : List Event → Option ℤ
  pub rollback_reply : List Event → Option ℤ
  pub self : Process

unfoldable pub record_event : Event → Action (Unit {0})
record_event e = modify (λ s. record s { events = e ∷ s.events })

-- `if( ! holds) throw`.
unfoldable pub require : Bool → Exception → Action (Unit {0})
require true e = pure tt
require false e = raise e

unfoldable pub deliver : Message → Bool → Action (Unit {0})
unfolding record_event
deliver message true = record_event (sent message)
deliver message false = do record_event (lost message); raise unavailable

module _ (env : Environment) where
  -- A call through the switch of a resource.
  unfoldable pub call_xa : XaCall → Action ℤ
  unfolding record_event
  call_xa c = do result ← gets λ s. env.xa s.events c; record_event (called c result); pure result

  -- `ipc::blocking::send( manager().queue(), message)`.
  unfoldable pub blocking_send : Message → Action (Unit {0})
  unfolding deliver
  blocking_send message = do up ← gets λ s. env.is_up s.events; deliver message up
