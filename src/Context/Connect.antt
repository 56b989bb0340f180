-- ===== src/Context/Connect.antt =====
-- transaction/context.cpp: `Context::Manager::Manager`, and `Context::set`, which is the first to ask
-- for the manager.
use casual.Base.{ℕ, Option, List}
use casual.Ipc.{Process}
use casual.Context.State.{Event, Resource, connected, named, unavailable}
use casual.Context.Monad.{Action, Environment, pure, gets, or_throw, ◌>>=◌, ◌>>◌, record_event}
use casual.Context.Stack.{Configured, Linked, set}

-- `client::connect::Reply`: the domain's name, and the configuration.
pub record ConnectReply : Type 0 where
  pub domain : ℕ
  pub resources : List Configured

-- `Manager::Manager`, with the path of the executable and the next reply of the broker, or nothing if
-- the wait is given up; it returns the resources that it keeps.
unfoldable pub connect : Process → ℕ → (List Event → Option ConnectReply) → Action (List Configured)
unfolding record_event
connect self path replies = do
  record_event (connected self path)
  answer ← gets λ s. replies s.events
  reply ← or_throw answer unavailable
  record_event (named reply.domain)
  pure reply.resources

module _ (env : Environment) where
  -- `Context::set` from the start.
  unfoldable pub connect_and_set :
      ℕ
      → (List Event → Option ConnectReply)
      → (List Resource → List Resource)
      → List Linked
      → Action (Unit {0})
  unfolding connect set
  connect_and_set path replies arrange linked = do
    configuration ← connect env.self path replies
    set env arrange configuration linked
