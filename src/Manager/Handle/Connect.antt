-- ===== src/Manager/Handle/Connect.antt =====
-- `resource::reply::Connect` of transaction/manager/handle.cpp: a resource proxy has started.
use casual.Base.{ℕ, ◌∷◌, true, not, ◌&&◌, all_of, if◌then◌else◌}
use casual.Base.Int.{◌==ℤ◌}
use casual.Manager.Code.{xa_ok}
use casual.Manager.Message.{ConnectReply, Message, ready}
use casual.Manager.State.{
  sent, lost, startup_error, set_state, is_process, proxy_running, update_instance,
}
use casual.Manager.Monad.{
  Action, invalid_argument, unavailable, ok, throw, pure, ◌>>=◌, ◌>>◌, gets, modify, Environment,
  Outcome, gone, Result,
}
use casual.Manager.Handle.Instances.{get_instance, done}

-- `catch( const invalid::Argument&)`: an unexpected resource is logged and dropped.
unfoldable pub discard_invalid : Result (Unit {0}) → Result (Unit {0})
discard_invalid (ok a) = ok a
discard_invalid (throw invalid_argument) = ok tt
discard_invalid (throw e) = throw e

unfoldable pub catch_invalid_argument : Action (Unit {0}) → Action (Unit {0})
catch_invalid_argument m s = let (r, s') = m s in (discard_invalid r, s')

-- A blocking send waits while the queue is full.
unfoldable pub deliver : ℕ → Message → Outcome → Action (Unit {0})
deliver queue message gone s =
    (throw unavailable, record s { events = lost queue message ∷ s.events })
deliver queue message _ s = (ok tt, record s { events = sent queue message ∷ s.events })

module _ (env : Environment) where
  -- `ipc::device().blocking_send`.
  unfoldable pub blocking_send : ℕ → Message → Action (Unit {0})
  blocking_send queue message s = deliver queue message (env.push s.events queue) s

  -- The body of the `try`.
  unfoldable pub connect_instance : ConnectReply → Action (Unit {0})
  connect_instance m = do
    i ← get_instance m.resource m.process.pid
    if m.state ==ℤ xa_ok
        then (do
          modify (
              update_instance m.resource (is_process m.process.pid)
                (λ j. record j { process = m.process }))
          done env m.resource m.process.pid (record i { process = m.process }))
        else modify
            (update_instance m.resource (is_process m.process.pid) (set_state startup_error))

  -- Tell the broker, once, when every resource has a running instance.
  unfoldable pub announce : Action (Unit {0})
  announce = do
    due ← gets (λ s. not s.connected && all_of proxy_running s.resources)
    if due
        then (do
          blocking_send env.broker (ready env.self)
          modify λ s. record s { connected = true })
        else pure tt

  -- `Connect::operator ()`.
  unfoldable pub connect_reply : ConnectReply → Action (Unit {0})
  connect_reply m = do catch_invalid_argument (connect_instance m); announce
