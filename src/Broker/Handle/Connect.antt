-- ===== src/Broker/Handle/Connect.antt =====
-- `local::handle::connect` of broker/source/handle.cpp and the handlers that run it.
use casual.Base.{
  ℕ, Bool, true, false, Option, none, some, List, [], ◌∷◌, ◌++◌, ◌==◌, map, any_of, erase_first,
  find_if, lookup, emplace, if◌then◌else◌,
}
use casual.Ipc.{Process, same_process}
use casual.Broker.Message
use casual.Broker.Message.{
  Information, Resource, Directive, start, singleton, ConnectRequest, ProcessRequest, connect_reply,
  client_reply, process_reply, configuration, nobody,
}
use casual.Broker.State.{
  Mode, Group, Server, InstanceState, terminate, terminated, update_instance, update_server,
  alter_state,
}
use casual.Broker.Monad.{
  Action, Environment, pure, raise, gets, modify, case_of, ◌>>=◌, ◌>>◌, recover, on_missing,
  record_event, blocking_send, non_blocking_send,
}
use casual.Broker.Store.{get_instance, get_server, add_services, to_service}

unfoldable pub is_shutdown_mode : Mode → Bool
is_shutdown_mode Mode.shutdown = true
is_shutdown_mode _ = false

-- The resources of the groups of a server, up to a group that is not known.
unfoldable pub resources_of : List Group → List ℕ → List Resource
resources_of groups [] = []
resources_of groups (id ∷ ids) =
    let rest = resources_of groups ids in
    elim (find_if (λ g. g.id == id) groups) [ none ↦ [] | some g ↦ g.resources ++ rest ]

unfoldable pub server_resources : Option Server → List Group → List Resource
server_resources none groups = []
server_resources (some v) groups = resources_of groups v.executable.memberships

-- `transform::transaction::configuration`.
unfoldable pub all_resources : List Group → List Resource
all_resources [] = []
all_resources (g ∷ groups) = g.resources ++ all_resources groups

module _ (env : Environment) where
  -- The lambda `send_reply` of `lookup::Process`.
  unfoldable pub reply_process : ProcessRequest → Process → Action (Unit {0})
  reply_process m process = do
    taken ←
        non_blocking_send env m.process.queue (process_reply m.correlation m.identification process)
    if taken
        then pure tt
        else modify λ s. record s {
          replies =
              s.replies
              ++ record {
                message = process_reply m.correlation m.identification process;
                targets = m.process.queue ∷ [];
                to_all = false;
              }
                ∷ [];
        }

  -- `lookup::Process::operator ()`.
  unfoldable pub lookup_process : ProcessRequest → Action (Unit {0})
  unfolding reply_process
  lookup_process m = do
    found ← gets λ s. lookup m.identification s.singeltons
    case_of found
        (if m.is_direct
          then reply_process m nobody
          else modify λ s. record s { process_lookup = s.process_lookup ++ m ∷ [] })
        (reply_process m)

  unfoldable pub lookup_each : List ProcessRequest → Action (Unit {0})
  unfolding lookup_process
  lookup_each [] = pure tt
  lookup_each (m ∷ ms) = do lookup_process m; lookup_each ms

  -- Another process has the identification: its application is not to have another one.
  unfoldable pub refuse_singleton : ConnectRequest → (Directive → Message.Message) → Action Bool
  unfolding get_instance get_server
  refuse_singleton m reply = do
    blocking_send env m.process.queue (reply singleton)
    i ← get_instance m.process.pid
    server ← get_server i.server
    modify (
        update_server i.server
          (λ v. record v { executable = record v.executable { configured_instances = 1 } }))
    pure false

  unfoldable pub welcome : ConnectRequest → (Directive → Message.Message) → Action Bool
  welcome m reply = do blocking_send env m.process.queue (reply start); pure true

  -- The new singleton may be what others wait for.
  unfoldable pub enter_singleton : ConnectRequest → ℕ → Action (Unit {0})
  unfolding lookup_each
  enter_singleton m id = do
    modify λ s. record s { singeltons = emplace id m.process s.singeltons }
    pending ← gets λ s. s.process_lookup
    modify λ s. record s { process_lookup = [] }
    lookup_each pending

  unfoldable pub identify : ConnectRequest → (Directive → Message.Message) → Option ℕ → Action Bool
  unfolding refuse_singleton welcome enter_singleton
  identify m reply none = welcome m reply
  identify m reply (some id) = do
    found ← gets λ s. lookup id s.singeltons
    case_of found (do enter_singleton m id; welcome m reply)
        λ other. if same_process other m.process then welcome m reply else refuse_singleton m reply

  -- `local::handle::connect`: whether the application may go on.
  unfoldable pub connect : ConnectRequest → (Directive → Message.Message) → Action Bool
  unfolding identify
  connect m reply = do
    down ← gets λ s. is_shutdown_mode s.mode
    if down
        then (do blocking_send env m.process.queue (reply Directive.shutdown); pure false)
        else identify m reply m.identification

  -- The body of the `try` of `handle::Connect`.
  unfoldable pub connect_instance : ConnectRequest → List Information → Action (Unit {0})
  unfolding connect add_services
  connect_instance m services = do
    found ← get_instance m.process.pid
    modify (
        update_instance m.process.pid
          (λ i. record i { process = record i.process { queue = m.process.queue } }))
    allowed ← connect m (connect_reply m.correlation)
    if allowed
        then (do
          add_services m.process.pid (map to_service services)
          now ← gets λ s. env.now s.events
          modify (update_instance m.process.pid (alter_state InstanceState.idle now)))
        else pure tt

  -- `handle::Connect`.
  unfoldable pub connect_server : ConnectRequest → List Information → Action (Unit {0})
  unfolding connect_instance
  connect_server m services =
      recover (on_missing (record_event (terminated m.process.pid))) (connect_instance m services)

  -- `traffic::Connect` and `traffic::Disconnect`.
  unfoldable pub connect_monitor : ConnectRequest → Action (Unit {0})
  unfolding connect
  connect_monitor m = do
    allowed ← connect m (connect_reply m.correlation)
    if allowed
        then (modify λ s. record s {
          monitors =
              if any_of (λ q. q == m.process.queue) s.monitors
              then s.monitors
              else s.monitors ++ m.process.queue ∷ [];
        })
        else pure tt

  unfoldable pub disconnect_monitor : Process → Action (Unit {0})
  disconnect_monitor process =
      modify λ s. record s { monitors = erase_first (λ q. q == process.queue) s.monitors }

  -- `transaction::manager::Connect` and `transaction::manager::Ready`.
  unfoldable pub connect_manager : ConnectRequest → Action (Unit {0})
  unfolding connect
  connect_manager m = do
    allowed ← connect m (connect_reply m.correlation)
    if allowed
        then (do
          modify λ s. record s { transaction_manager = m.process.queue }
          resources ← gets λ s. all_resources s.groups
          blocking_send env m.process.queue (configuration m.correlation resources))
        else pure tt

  unfoldable pub manager_ready : Process → Bool → Action (Unit {0})
  unfolding get_instance
  manager_ready process success =
      if success
      then (do
        found ← get_instance process.pid
        now ← gets λ s. env.now s.events
        modify (update_instance process.pid (alter_state InstanceState.idle now)))
      else raise terminate

  -- `transaction::client::Connect`: a process that is not known gets a reply without correlation.
  unfoldable pub connect_client : ConnectRequest → Action (Unit {0})
  unfolding connect get_instance
  connect_client m =
      recover (on_missing (blocking_send env m.process.queue (client_reply 0 start []))) (do
        i ← get_instance m.process.pid
        resources ← gets λ s. server_resources (lookup i.server s.servers) s.groups
        allowed ← connect m (λ d. client_reply m.correlation d resources)
        pure tt)

  -- `forward::Connect`.
  unfoldable pub connect_forward : ConnectRequest → Action (Unit {0})
  unfolding connect
  connect_forward m = do
    allowed ← connect m (connect_reply m.correlation)
    if allowed then (modify λ s. record s { forward = m.process }) else pure tt
