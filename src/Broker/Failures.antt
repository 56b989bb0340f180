-- ===== src/Broker/Failures.antt =====
-- What no handler catches: a caller that is gone, and the death of what is no instance.
use casual.Base.{
  ◌∙◌, ap, ℕ, ◌≡◌, refl, true, false, Bool-cases, inl, inr, none, some, List, [], ◌∷◌, ◌++◌, map,
  is_empty, find_if, find_if-passes, any_of, ◌==◌, lookup, update_at, until,
}
use casual.Ipc.{Process, gone}
use casual.Broker.Message.{
  LookupRequest, Information, Death, PendingMessage, lookup_reply, Availability, dead_process,
}
use casual.Broker.State.{
  State, Event, InstanceState, Service, missing, unavailable, lost, alter_state,
}
use casual.Run.{bind_ok}
use casual.Broker.Monad.{
  Environment, ok, throw, pure, raise, deliver, blocking_send, ◌>>=◌, gets, modify, record_event,
  recover, caught, or_throw,
}
use casual.Broker.Store.{get_instance, get_service}
use casual.Broker.Exclusive.Instances.{update_at-not_idle}
use casual.Broker.Handle.Service.{
  is_idle, is_idle_state, is_idle_at, find_idle, process_of, hand_out, answer, lookup_known,
  service_lookup,
}
use casual.Broker.Handle.Dead.{deceased, tell_listeners, bury, dead_event}
use casual.Broker.Listeners.{send_all_settles}
use casual.Broker.Served.{bit_zero, any_of-find_if}

module _ (env : Environment) where
  -- What is left when the caller is gone.
  abbrev stranded : LookupRequest → Information → ℕ → State → State
  stranded m i j s = record s {
    instances = update_at j (alter_state InstanceState.busy (env.now s.events)) s.instances;
    events =
        lost m.process.queue (
          lookup_reply m.correlation i
            (process_of (
              lookup j
                (update_at j (alter_state InstanceState.busy (env.now s.events)) s.instances)))
            Availability.idle)
        ∷ s.events;
  }

  hand_out_gone :
      (m : LookupRequest) (i : Information) (j : ℕ) (s : State)
      → env.push s.events m.process.queue ≡ gone
      → hand_out env m i j s ≡ (throw unavailable, stranded m i j s)
  unfolding hand_out ◌>>=◌ gets modify blocking_send deliver record_event raise
  hand_out_gone m i j s h = rw h refl

  service_lookup_gone :
      (m : LookupRequest) (v : Service) (j : ℕ) (s : State)
      → env.push s.events m.process.queue ≡ gone
      → lookup m.requested s.services ≡ some v
      → find_if (is_idle_at s) v.instances ≡ some j
      → service_lookup env m s ≡ (
        throw unavailable,
        stranded m (record v.information { traffic_monitors = s.monitors }) j s,
      )
  unfolding service_lookup recover caught lookup_known ◌>>=◌ gets get_service answer find_idle raise
  service_lookup_gone m v j s h known idle =
      rw
        (
          known,
          idle,
          hand_out_gone m (record v.information { traffic_monitors = s.monitors }) j s h,
        )
        refl

  tell_listeners_returns :
      (death : Death) (ls : List Process) (s : State)
      → (events : List Event) × (replies : List PendingMessage) × (tell_listeners env death ls s
          ≡ (ok tt, record s { events = events; replies = replies }))
  unfolding tell_listeners pure modify
  tell_listeners_returns death [] s = (s.events, s.replies, refl)
  tell_listeners_returns death (l ∷ ls) s =
      let (left, news, sent, count) =
        send_all_settles env (dead_process death) (l.queue ∷ map (λ p. p.queue) ls) s in
      elim (Bool-cases (is_empty left)) [
        | inl e ↦ (news ++ s.events, s.replies, bind_ok _ _ s _ left sent ∙ rw e refl)
        | inr e ↦ (
          news ++ s.events,
          s.replies ++ record { message = dead_process death; targets = left; to_all = true } ∷ [],
          bind_ok _ _ s _ left sent ∙ rw e refl,
        )
      ]

  bury_unknown :
      (pid : ℕ) (s : State) → lookup pid s.instances ≡ none → bury env pid s ≡ (throw missing, s)
  unfolding bury ◌>>=◌ get_instance gets or_throw raise
  bury_unknown pid s h = rw h refl

-- An instance is idle for the service that a caller looks up, but the caller's queue is gone.
-- Then the handler throws, and an instance that was idle is not idle any more.
pub lookup_gone_throws :
    (env : Environment) (m : LookupRequest) (v : Service) (s : State)
    → env.push s.events m.process.queue ≡ gone
    → lookup m.requested s.services ≡ some v
    → any_of (is_idle_at s) v.instances ≡ true
    → ((service_lookup env m s).0 ≡ throw unavailable)
      × ((j : ℕ) × (is_idle_at s j ≡ true) × (is_idle_at (service_lookup env m s).1 j ≡ false))
unfolding is_idle_at is_idle is_idle_state
lookup_gone_throws env m v s h known offers =
    let (j, idle) = any_of-find_if (is_idle_at s) (is_idle_at s) v.instances (λ x e. e) offers in
    let all = service_lookup_gone env m v j s h known idle in
    (
      ap (λ r. r.0) all,
      (
        j,
        find_if-passes (is_idle_at s) v.instances j idle,
        ap (λ r. is_idle_at r.1 j) all
            ∙ bit_zero _ (
                update_at-not_idle j (alter_state InstanceState.busy (env.now s.events)) s.instances
                  (λ i. refl)),
      ),
    )

-- A process that has ended is no instance of a server, for example that of a plain executable.
-- Then the handler of its death throws, the executables still have their processes, and of the
-- listeners those that stand before the first of that process are left.
pub dead_unknown_throws :
    (env : Environment) (death : Death) (s : State)
    → deceased death.reason ≡ true
    → lookup death.pid s.instances ≡ none
    → ((dead_event env death s).0 ≡ throw missing)
      × ((dead_event env death s).1.executables ≡ s.executables)
      × ((dead_event env death s).1.listeners ≡ until (λ p. p.pid == death.pid) s.listeners)
unfolding dead_event modify gets
dead_unknown_throws env death s ended unknown =
    let listeners = until (λ p. p.pid == death.pid) s.listeners in
    let start : State = record s { listeners = listeners } in
    let (events, replies, told) = tell_listeners_returns env death listeners start in
    let left : State = record start { events = events; replies = replies } in
    let all : dead_event env death s ≡ (throw missing, left) = rw ended (
      bind_ok _ _ s start tt refl
      ∙ (bind_ok _ _ start start listeners refl
          ∙ (bind_ok _ _ start left tt told ∙ bury_unknown env death.pid left unknown))) in
    (ap (λ r. r.0) all, ap (λ r. r.1.executables) all, ap (λ r. r.1.listeners) all)
