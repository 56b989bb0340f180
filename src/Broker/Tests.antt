-- ===== src/Broker/Tests.antt =====
-- A broker with a server of two instances that offer a service, and the theorems at it.
use casual.Base.{
  ◌++◌, Bool, ℕ, ◌+◌, ◌≤◌, ◌≡◌, ◌≢◌, ◌⊎◌, erase_first, find_if, lookup, refl, true, some, List, [],
  ◌∷◌, ◌==◌, how_many, values, until, any_of, arith, false,
}
use casual.Base.Int.{pos}
use casual.Ipc.{delivered, gone}
use casual.Broker.Message.{
  Message, shutdown_request, LookupRequest, Context, Information, signaled, nobody, lookup_reply,
  Availability,
}
use casual.Broker.State.{
  Event, State, Executable, Instance, InstanceState, Mode, missing, unavailable, sent,
}
use casual.Broker.Monad.{Environment, ok, throw}
use casual.Broker.Handle.Service.{
  ack, service_lookup, is_idle, is_idle_state, can_serve, is_idle_at, process_of,
}
use casual.Broker.Failures.{lookup_gone_throws, dead_unknown_throws}
use casual.Broker.Handle.Dead.{dead_event, deceased, send_all}
use casual.Broker.Listeners.{is_settled, is_refused, send_all_settles}
use casual.Broker.Served.{ack_serves_waiting}
use casual.Broker.Dispatch.{Inbound, dispatch_all}
use casual.Broker.Order.{boot_order}
use casual.Broker.Order.Complete.{booted_servers, booted_executables, boot_order_complete}
use casual.Broker.Exclusive.{given, idle_count}
use casual.Broker.Exclusive.Bound.{frees, handed_out-frees}

-- Every queue takes what is sent, and a new process gets the number of its executable.
abbrev calm : Environment
calm = record {
  push = λ events queue. delivered;
  now = λ events. pos 7;
  spawn = λ events e. some e.id;
  self = record { pid = 1; queue = 1 };
}

abbrev executable : Executable
executable = record {
  id = 10;
  path = 0;
  instances = 21 ∷ 22 ∷ [];
  memberships = 3 ∷ 4 ∷ [];
  configured_instances = 2;
  restart = true;
  deaths = 0;
}

abbrev instance_at : ℕ → InstanceState → Instance
instance_at pid state = record {
  process = record { pid = pid; queue = pid + 100 };
  invoked = 0;
  last = pos 0;
  server = 10;
  services = 5 ∷ [];
  state = state;
}

abbrev information : Information
information = record { name = 5; type = 0; timeout = 0; traffic_monitors = []; transaction = 0 }

-- Instance 21 is idle and 22 is busy; a plain executable is in no group.
abbrev broker : State
broker = record {
  servers = (10, record { executable = executable; restrictions = []; invoked = 0 }) ∷ [];
  instances =
      (21, instance_at 21 InstanceState.idle) ∷ (22, instance_at 22 InstanceState.busy) ∷ [];
  services = (5, record { information = information; lookedup = 0; instances = 21 ∷ 22 ∷ [] }) ∷ [];
  executables = (11, record executable { id = 11; instances = []; memberships = [] }) ∷ [];
  groups =
      record { id = 3; name = 30; resources = []; dependencies = [] }
      ∷ record { id = 4; name = 40; resources = []; dependencies = 3 ∷ [] }
      ∷ [];
  singeltons = [];
  requests = [];
  replies = [];
  process_lookup = [];
  timeout = 0;
  monitors = [];
  transaction_manager = 0;
  forward = nobody;
  listeners = [];
  mode = Mode.running;
  events = [];
}

abbrev wanted : ℕ → LookupRequest
wanted pid = record {
  correlation = pid;
  requested = 5;
  process = record { pid = pid; queue = pid + 100 };
  context = Context.regular;
}

-- Two lookups, of which the second has to wait, and an acknowledgement that serves it.
abbrev messages : List Inbound
messages =
    Inbound.service_lookup (wanted 50)
    ∷ Inbound.service_lookup (wanted 51)
    ∷ Inbound.service_ack 21
    ∷ []

handed_out-frees_example :
    given 21 (dispatch_all calm messages broker).1.events
    ≤ given 21 [] + idle_count 21 broker.instances + how_many (frees 21) messages
handed_out-frees_example =
    handed_out-frees calm 21 messages broker (refl, (refl, tt)) refl (refl, (refl, (refl, tt)))

boot_order_complete_example :
    (how_many (λ v. v.executable.id == 10) (booted_servers (boot_order broker.groups broker))
      ≡ how_many (λ v. v.executable.id == 10) (values broker.servers))
    × (how_many (λ e. e.id == 11) (booted_executables (boot_order broker.groups broker))
        ≡ how_many (λ e. e.id == 11) (values broker.executables))
boot_order_complete_example =
    boot_order_complete (λ v. v.executable.id == 10) (λ e. e.id == 11) broker.groups broker

-- Instance 22 is busy, and so is 21; a caller waits.
abbrev waiting : State
waiting = record broker {
  instances =
      (21, instance_at 21 InstanceState.busy) ∷ (22, instance_at 22 InstanceState.busy) ∷ [];
  requests = wanted 51 ∷ [];
}

push_delivers : calm.push [] 151 ≢ gone
push_delivers e = ground arith

ack_serves_waiting_example :
    ((ack calm 22 waiting).0 ≡ ok tt)
    × ((ack calm 22 waiting).1.requests ≡ erase_first (can_serve (5 ∷ [])) waiting.requests)
    × ((j : ℕ) × (i : Information) × ((ack calm 22 waiting).1.events
          ≡ sent 151 (lookup_reply 51 i (process_of (lookup j waiting.instances)) Availability.idle)
            ∷ [])
        × ((j ≡ 22) ⊎ (is_idle_at waiting j ≡ true))
        × (is_idle_at (ack calm 22 waiting).1 j ≡ false))
unfolding lookup find_if can_serve any_of
ack_serves_waiting_example =
    ack_serves_waiting calm 22 waiting (instance_at 22 InstanceState.busy) (wanted 51)
      (record { information = information; lookedup = 0; instances = 21 ∷ 22 ∷ [] }) push_delivers
      refl refl refl refl

-- The queue of every caller is gone.
abbrev deserted : Environment
deserted = record calm { push = λ events queue. gone }

lookup_gone_throws_example :
    ((service_lookup deserted (wanted 50) broker).0 ≡ throw unavailable)
    × ((j : ℕ) × (is_idle_at broker j ≡ true)
        × (is_idle_at (service_lookup deserted (wanted 50) broker).1 j ≡ false))
unfolding lookup any_of is_idle_at is_idle is_idle_state
lookup_gone_throws_example =
    lookup_gone_throws deserted (wanted 50)
      (record { information = information; lookedup = 0; instances = 21 ∷ 22 ∷ [] }) broker refl
      refl refl

-- The plain executable has a process, which dies.
abbrev with_plain : State
with_plain = record broker {
  executables = (11, record executable { id = 11; instances = 60 ∷ []; memberships = [] }) ∷ [];
  listeners = record { pid = 61; queue = 161 } ∷ [];
}

dead_unknown_throws_example :
    ((dead_event calm (record { pid = 60; reason = signaled }) with_plain).0 ≡ throw missing)
    × ((dead_event calm (record { pid = 60; reason = signaled }) with_plain).1.executables
        ≡ with_plain.executables)
    × ((dead_event calm (record { pid = 60; reason = signaled }) with_plain).1.listeners
        ≡ until (λ p. p.pid == 60) with_plain.listeners)
unfolding lookup deceased
dead_unknown_throws_example =
    dead_unknown_throws calm (record { pid = 60; reason = signaled }) with_plain refl refl

send_all_settles_example :
    (left : List ℕ) × (news : List Event) × (send_all calm shutdown_request (161 ∷ 162 ∷ []) broker
      ≡ (ok left, record broker { events = news ++ broker.events }))
    × ((p : ℕ → Message → Bool)
        → (how_many (is_settled p) news + how_many (λ q. p q shutdown_request) left
            ≡ how_many (λ q. p q shutdown_request) (161 ∷ 162 ∷ []))
          × (how_many (is_refused p) news ≡ how_many (λ q. p q shutdown_request) left))
send_all_settles_example = send_all_settles calm shutdown_request (161 ∷ 162 ∷ []) broker
