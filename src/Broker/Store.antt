-- ===== src/Broker/Store.antt =====
-- The operations of class State in broker/source/state.cpp.
use casual.Base.{
  ℕ, Bool, true, false, List, [], ◌∷◌, ◌++◌, ◌==◌, ltb, lookup, emplace, update_at, remove_key,
  select, erase_first, any_of, sort_by, unique_by, if◌then◌else◌,
}
use casual.Bytes.{plus}
use casual.Base.Int.{ℤ}
use casual.Ipc.{Process}
use casual.Broker.Message.{Information}
use casual.Broker.State.{
  State, Service, Instance, Server, Executable, booted, missing, removed, update_server,
  update_service, push_unique,
}
use casual.Broker.Monad.{
  Action, Environment, pure, gets, modify, or_throw, case_of, ◌>>=◌, ◌>>◌, record_event,
}

-- `getInstance`, `getServer`, `getService` and `getExecutable`.
unfoldable pub get_instance : ℕ → Action Instance
get_instance pid = do found ← gets λ s. lookup pid s.instances; or_throw found missing

unfoldable pub get_server : ℕ → Action Server
get_server id = do found ← gets λ s. lookup id s.servers; or_throw found missing

unfoldable pub get_service : ℕ → Action Service
get_service name = do found ← gets λ s. lookup name s.services; or_throw found missing

unfoldable pub get_executable : ℕ → Action Executable
get_executable id = do found ← gets λ s. lookup id s.executables; or_throw found missing

-- `common::server::Service::Type::cCasualAdmin`.
abbrev pub casual_admin : ℕ
casual_admin = 10

-- `transform::Service`.
abbrev pub to_service : Information → Service
to_service i = record {
  information = record i { timeout = 0; traffic_monitors = [] };
  lookedup = 0;
  instances = [];
}

-- What a service is given when it is not known yet.
abbrev pub admitted : ℕ → Service → Service
admitted timeout s = record s {
  information = record s.information {
    timeout = if s.information.type == casual_admin then 0 else timeout;
  };
}

-- One round of the loop of `addServices`.
unfoldable pub add_service : ℕ → Service → State → State
unfolding emplace update_at push_unique
add_service pid s st =
    let known = emplace s.information.name (admitted st.timeout s) st.services in
    record st {
      services =
          update_at s.information.name (λ v. record v { instances = push_unique pid v.instances })
            known;
      instances =
          update_at pid (λ i. record i { services = push_unique s.information.name i.services })
            st.instances;
    }

unfoldable pub add_each : ℕ → List Service → State → State
add_each pid [] st = st
add_each pid (s ∷ services) st = add_each pid services (add_service pid s st)

-- `range::intersection` with the restrictions, if there are any.
unfoldable pub permitted : List ℕ → List Service → List Service
permitted [] services = services
permitted (r ∷ restrictions) services =
    select (λ s. any_of (λ name. s.information.name == name) (r ∷ restrictions)) services

-- `addServices`.
unfoldable pub add_services : ℕ → List Service → Action (Unit {0})
unfolding get_instance get_server add_each
add_services pid services = do
  instance' ← get_instance pid
  server ← get_server instance'.server
  modify (add_each pid (permitted server.restrictions services))

-- One round of the loop of `removeServices`.
unfoldable pub remove_service : ℕ → Service → State → State
remove_service pid s st = record st {
  instances =
      update_at pid
        (λ i. record i { services = erase_first (λ name. name == s.information.name) i.services })
        st.instances;
  services =
      update_at s.information.name
        (λ v. record v { instances = erase_first (λ p. p == pid) v.instances }) st.services;
}

unfoldable pub remove_each : ℕ → List Service → State → State
remove_each pid [] st = st
remove_each pid (s ∷ services) st = remove_each pid services (remove_service pid s st)

-- `removeServices`.
unfoldable pub remove_services : ℕ → List Service → Action (Unit {0})
unfolding get_instance remove_each
remove_services pid services = do found ← get_instance pid; modify (remove_each pid services)

-- `Executable::remove` on each executable, until one had the process: the executables, and whether
-- one had.
unfoldable pub remove_from : ℕ → List (ℕ × Executable) → Bool × List (ℕ × Executable)
remove_from pid [] = (false, [])
remove_from pid ((id, e) ∷ executables) =
    let (had, rest) = remove_from pid executables in
    if any_of (λ p. p == pid) e.instances
    then (
      true,
      (id, record e { instances = erase_first (λ p. p == pid) e.instances }) ∷ executables,
    )
    else (had, (id, e) ∷ rest)

-- The services of a process forget it.
unfoldable pub forget : ℕ → List ℕ → Action (Unit {0})
unfolding get_service
forget pid [] = pure tt
forget pid (name ∷ names) = do
  service ← get_service name
  modify
      (update_service name (λ v. record v { instances = erase_first (λ p. p == pid) v.instances }))
  forget pid names

-- A process is no singleton any more.
unfoldable pub erase_singleton : ℕ → List (ℕ × Process) → List (ℕ × Process)
erase_singleton pid = erase_first (λ entry. entry.1.pid == pid)

-- The instance of a server is removed.
unfoldable pub remove_instance : ℕ → Instance → Action (Unit {0})
unfolding forget get_server
remove_instance pid i = do
  record_event (removed pid)
  forget pid i.services
  server ← get_server i.server
  modify (
      update_server i.server (λ v. record v {
        executable = record v.executable {
          instances = erase_first (λ p. p == pid) v.executable.instances;
        };
        invoked = plus v.invoked i.invoked;
      }))
  modify λ s. record s {
    instances = remove_key pid s.instances;
    singeltons = erase_singleton pid s.singeltons;
  }

-- The instance of a plain executable is removed, if it is one.
unfoldable pub remove_executable : ℕ → Action (Unit {0})
unfolding remove_from erase_singleton
remove_executable pid = modify λ s.
    let (had, left) = remove_from pid s.executables in
    record s {
      executables = left;
      singeltons = if had then s.singeltons else erase_singleton pid s.singeltons;
    }

-- `remove_process`.
unfoldable pub remove_process : ℕ → Action (Unit {0})
unfolding remove_instance remove_executable
remove_process pid = do
  found ← gets λ s. lookup pid s.instances
  case_of found (remove_executable pid) (remove_instance pid)

-- `local::add`: the processes of an executable.
unfoldable pub join_pids : List ℕ → Executable → Executable
join_pids pids e = record e { instances = unique_by ◌==◌ (sort_by ltb (e.instances ++ pids)) }

-- The instance that `addInstances` makes for a process.
abbrev pub new_instance : ℕ → ℕ → ℤ → Instance
new_instance id pid now = record {
  process = record { pid = pid; queue = 0 };
  invoked = 0;
  last = now;
  server = id;
  services = [];
  state = booted;
}

module _ (env : Environment) where
  -- The loop of `addInstances` over new processes of a server.
  unfoldable pub emplace_each : ℕ → List ℕ → State → State
  emplace_each id [] s = s
  emplace_each id (pid ∷ pids) s =
      emplace_each id pids
        (record s { instances = emplace pid (new_instance id pid (env.now s.events)) s.instances })

  -- `addInstances`.
  unfoldable pub add_instances : ℕ → List ℕ → Action (Unit {0})
  unfolding get_executable emplace_each join_pids
  add_instances id pids = do
    found ← gets λ s. lookup id s.servers
    case_of found
        (do
          executable ← get_executable id
          modify λ s. record s { executables = update_at id (join_pids pids) s.executables })
        λ server. do
          modify (emplace_each id pids)
          modify (update_server id (λ v. record v { executable = join_pids pids v.executable }))
