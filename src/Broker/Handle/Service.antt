-- ===== src/Broker/Handle/Service.antt =====
-- `Advertise`, `Unadvertise`, `ServiceLookup` and `ACK` of broker/source/handle.cpp, and
-- `filter::Pending` of broker/filter.h.
use casual.Base.{
  ℕ, Bool, true, false, Option, none, some, List, [], ◌∷◌, ◌++◌, ◌==◌, map, any_of, erase_first,
  find_if, lookup, if◌then◌else◌,
}
use casual.Bytes.{plus}
use casual.Ipc.{Process}
use casual.Broker.Message.{
  Information, LookupRequest, Context, regular, no_reply, forward, Availability, absent,
  lookup_reply, nobody,
}
use casual.Broker.State.{
  State, Service, Instance, InstanceState, update_instance, update_service, alter_state,
}
use casual.Broker.Monad.{
  Action, Environment, pure, gets, modify, case_of, ◌>>=◌, ◌>>◌, recover, on_missing, blocking_send,
}
use casual.Broker.Store.{get_instance, get_service, add_services, remove_services, to_service}

-- `filter::instance::Idle`, through the reference to the instance.
unfoldable pub is_idle_state : InstanceState → Bool
is_idle_state InstanceState.idle = true
is_idle_state _ = false

unfoldable pub is_idle : Option Instance → Bool
unfolding is_idle_state
is_idle none = false
is_idle (some i) = is_idle_state i.state

unfoldable pub is_idle_at : State → ℕ → Bool
unfolding is_idle
is_idle_at s pid = is_idle (lookup pid s.instances)

-- The first idle instance of a service.
unfoldable pub find_idle : Service → State → Option ℕ
find_idle service s = find_if (is_idle_at s) service.instances

-- The contexts in which nobody waits for an instance.
unfoldable pub is_forwarded : Context → Bool
is_forwarded regular = false
is_forwarded no_reply = true
is_forwarded forward = true

-- `filter::Pending`.
unfoldable pub can_serve : List ℕ → LookupRequest → Bool
can_serve names m = any_of (λ name. name == m.requested) names

unfoldable pub process_of : Option Instance → Process
process_of none = nobody
process_of (some i) = i.process

module _ (env : Environment) where
  -- `Advertise` and `Unadvertise`.
  unfoldable pub advertise : Process → List Information → Action (Unit {0})
  unfolding add_services
  advertise process services =
      recover (on_missing (pure tt)) (add_services process.pid (map to_service services))

  unfoldable pub unadvertise : Process → List Information → Action (Unit {0})
  unfolding remove_services
  unadvertise process services =
      recover (on_missing (pure tt)) (remove_services process.pid (map to_service services))

  -- An idle instance is handed out, and is busy from then on.
  unfoldable pub hand_out : LookupRequest → Information → ℕ → Action (Unit {0})
  hand_out m information pid = do
    now ← gets λ s. env.now s.events
    modify (update_instance pid (alter_state InstanceState.busy now))
    process ← gets λ s. process_of (lookup pid s.instances)
    blocking_send env m.process.queue
        (lookup_reply m.correlation information process Availability.idle)
    modify (update_service m.requested (λ v. record v { lookedup = plus v.lookedup 1 }))

  -- No instance is idle: the caller gets the forward cache, or has to wait.
  unfoldable pub put_off : LookupRequest → Information → Action (Unit {0})
  put_off m information =
      if is_forwarded m.context
      then (do
        process ← gets λ s. s.forward
        blocking_send env m.process.queue
            (lookup_reply m.correlation information process Availability.idle))
      else (do
        modify λ s. record s { requests = s.requests ++ m ∷ [] }
        blocking_send env m.process.queue
            (lookup_reply m.correlation information nobody Availability.busy))

  unfoldable pub answer : LookupRequest → Service → Action (Unit {0})
  unfolding find_idle hand_out put_off
  answer m service = do
    found ← gets (find_idle service)
    information ← gets λ s. record service.information { traffic_monitors = s.monitors }
    case_of found (put_off m information) (hand_out m information)

  -- The body of the `try` of `ServiceLookup`.
  unfoldable pub lookup_known : LookupRequest → Action (Unit {0})
  unfolding get_service answer
  lookup_known m = do service ← get_service m.requested; answer m service

  -- The reply for a service that is not known.
  unfoldable pub refuse_lookup : LookupRequest → Action (Unit {0})
  refuse_lookup m = blocking_send env m.process.queue (
      lookup_reply m.correlation
        (record {
          name = m.requested;
          type = 0;
          timeout = 0;
          traffic_monitors = [];
          transaction = 0;
        })
        nobody absent)

  -- `ServiceLookup`.
  unfoldable pub service_lookup : LookupRequest → Action (Unit {0})
  unfolding lookup_known refuse_lookup
  service_lookup m = recover (on_missing (refuse_lookup m)) (lookup_known m)

  -- The oldest request that an instance can serve is looked up again, and taken off.
  unfoldable pub serve_pending : List ℕ → Action (Unit {0})
  unfolding service_lookup can_serve
  serve_pending names = do
    pending ← gets λ s. find_if (can_serve names) s.requests
    case_of pending (pure tt) λ m. do
      service_lookup m
      modify λ s. record s { requests = erase_first (can_serve names) s.requests }

  -- `ACK`.
  unfoldable pub ack : ℕ → Action (Unit {0})
  unfolding get_instance serve_pending
  ack pid = recover (on_missing (pure tt)) (do
    found ← get_instance pid
    now ← gets λ s. env.now s.events
    modify (
        update_instance pid
          (λ i. record i { state = InstanceState.idle; last = now; invoked = plus i.invoked 1 }))
    serve_pending found.services)
