-- ===== src/Broker/Handle/Dead.antt =====
-- The death of processes in broker/source/handle.cpp: `dead::process::Registration` and
-- `dead::process::Event`, and the start and stop of instances that follow.
use casual.Base.{
  ℕ, zero, suc, ◌-◌, Bool, true, false, List, [], ◌∷◌, ◌++◌, ◌==◌, ltb, map, length, is_empty, drop,
  until, sort_by, unique_by, if◌then◌else◌,
}
use casual.Bytes.{minus, plus}
use casual.Ipc.{Process, same_process}
use casual.Broker.Message.{
  Death, Reason, core, exited, signaled, Message, dead_process, shutdown_request,
}
use casual.Broker.State.{
  Executable, InstanceState, Exception, missing, unavailable, invalid_argument, spawned,
  update_instance, update_server, alter_state,
}
use casual.Broker.Monad.{
  Action, Environment, pure, raise, gets, modify, or_throw, ◌>>=◌, ◌>>◌, recover, record_event,
  non_blocking_send,
}
use casual.Broker.Store.{get_instance, get_server, remove_process, add_instances}

-- `Exit::deceased`.
unfoldable pub deceased : Reason → Bool
deceased core = true
deceased exited = true
deceased signaled = true
deceased _ = false

-- The order of handles: by process, then by queue.
unfoldable pub before : Process → Process → Bool
before p q = if p.pid == q.pid then ltb p.queue q.queue else ltb p.pid q.pid

-- `dead::process::Registration`.
unfoldable pub register_listener : Process → Action (Unit {0})
register_listener process = modify λ s. record s {
  listeners = unique_by same_process (sort_by before (s.listeners ++ process ∷ []));
}

-- A queue that is gone counts as sent.
unfoldable pub count_as_sent : Exception → Action Bool
count_as_sent unavailable = pure true
count_as_sent e = raise e

-- What `shutdown` catches for an instance.
unfoldable pub ignore_gone : Exception → Action (Unit {0})
ignore_gone missing = pure tt
ignore_gone unavailable = pure tt
ignore_gone e = raise e

module _ (env : Environment) where
  -- `pending::send` to all targets: those that are left.
  unfoldable pub send_all : Message → List ℕ → Action (List ℕ)
  unfolding count_as_sent
  send_all m [] = pure []
  send_all m (q ∷ qs) = do
    taken ← recover count_as_sent (non_blocking_send env q m)
    left ← send_all m qs
    pure (if taken then left else q ∷ left)

  -- The listeners are told, and those whose queue is full later.
  unfoldable pub tell_listeners : Death → List Process → Action (Unit {0})
  unfolding send_all
  tell_listeners death [] = pure tt
  tell_listeners death (l ∷ listeners) = do
    left ← send_all (dead_process death) (l.queue ∷ map (λ p. p.queue) listeners)
    if is_empty left
        then pure tt
        else modify λ s. record s {
          replies =
              s.replies
              ++ record { message = dead_process death; targets = left; to_all = true } ∷ [];
        }

  -- `spawn`: the new processes, unless one cannot be started.
  unfoldable pub spawn : Executable → ℕ → Action (List ℕ)
  spawn e zero = pure []
  spawn e (suc n) = do
    started ← gets λ s. env.spawn s.events e
    pid ← or_throw started invalid_argument
    record_event (spawned pid)
    pids ← spawn e n
    pure (pid ∷ pids)

  -- `boot( state, executable, instances)`.
  unfoldable pub boot : Executable → ℕ → Action (Unit {0})
  unfolding spawn add_instances
  boot e instances =
      let wanted =
        if ltb e.configured_instances instances then instances else e.configured_instances in
      let count = minus wanted (length e.instances) in
      if ltb 0 count then (do pids ← spawn e count; add_instances env e.id pids) else pure tt

  -- The body of the loop of `shutdown( state, server, instances)`.
  unfoldable pub shutdown_instance : ℕ → Action (Unit {0})
  unfolding get_instance
  shutdown_instance pid = do
    i ← get_instance pid
    now ← gets λ s. env.now s.events
    modify (update_instance pid (alter_state InstanceState.shutdown now))
    taken ← non_blocking_send env i.process.queue shutdown_request
    if taken
        then pure tt
        else modify λ s. record s {
          replies =
              s.replies
              ++ record {
                message = shutdown_request;
                targets = i.process.queue ∷ [];
                to_all = false;
              }
                ∷ [];
        }

  unfoldable pub shutdown_each : List ℕ → Action (Unit {0})
  unfolding ignore_gone shutdown_instance
  shutdown_each [] = pure tt
  shutdown_each (pid ∷ pids) = do
    if pid == env.self.pid then pure tt else recover ignore_gone (shutdown_instance pid)
    shutdown_each pids

  -- `shutdown( state, server, instances)`: the last ones.
  unfoldable pub shutdown : Executable → ℕ → Action (Unit {0})
  unfolding shutdown_each
  shutdown e instances =
      let count = if ltb (length e.instances) instances then length e.instances else instances in
      shutdown_each (drop (length e.instances - count) e.instances)

  -- `update::instances`.
  unfoldable pub update_instances : Executable → Action (Unit {0})
  unfolding boot shutdown
  update_instances e =
      if ltb (length e.instances) e.configured_instances
      then boot e (minus e.configured_instances (length e.instances))
      else shutdown e (minus (length e.instances) e.configured_instances)

  -- The part of `dead::process::Event` after the listeners were told.
  unfoldable pub bury : ℕ → Action (Unit {0})
  unfolding get_instance get_server remove_process update_instances
  bury pid = do
    i ← get_instance pid
    found ← get_server i.server
    modify (
        update_server i.server (λ v. record v {
          executable = record v.executable { deaths = plus v.executable.deaths 1 };
        }))
    remove_process pid
    server ← get_server i.server
    if server.executable.restart then update_instances server.executable else pure tt

  -- `dead::process::Event`: the listeners from the first that has died on are dropped.
  unfoldable pub dead_event : Death → Action (Unit {0})
  unfolding tell_listeners bury
  dead_event death =
      if deceased death.reason
      then (do
        modify λ s. record s { listeners = until (λ p. p.pid == death.pid) s.listeners }
        listeners ← gets λ s. s.listeners
        tell_listeners death listeners
        bury death.pid)
      else pure tt
