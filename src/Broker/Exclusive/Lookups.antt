-- ===== src/Broker/Exclusive/Lookups.antt =====
-- A lookup hands an instance out only if it is idle, and leaves it busy.
use casual.Base.{
  ◌∙◌, ap, ℕ, ◌+◌, ◌-◌, ◌≤◌, ◌≡◌, refl, true, Bool-cases, Option-cases, inl, inr, List, ◌∷◌, ◌==◌,
  arith, lookup, update_at, find_if, find_if-passes, map,
}
use mathlib.Core.Path.{subst}
use casual.Bytes.{plus}
use casual.Base.Int.{ℤ}
use casual.Run.Keeps.{
  Keeps, Keeps-recover, Keeps-bind, Keeps-gets, Keeps-gets_at, Keeps-pure, Keeps-raise, Keeps-if,
  Keeps-case_of, Takes, Takes-bind, Takes-Keeps, Takes-then, Takes-recover,
}
use casual.Ipc.{Process, Outcome, delivered, full, gone}
use casual.Broker.Message.{Message, LookupRequest, Information, lookup_reply, Availability}
use casual.Broker.State.{
  State, Instance, InstanceState, sent, lost, update_instance, update_service, alter_state, Service,
}
use casual.Broker.Monad.{
  Environment, gets, modify, case_of, deliver, blocking_send, record_event, ◌>>=◌, ◌>>◌,
}
use casual.Broker.Store.{to_service}
use casual.Broker.Handle.Service.{
  is_idle_state, is_idle_at, find_idle, process_of, hand_out, put_off, answer, lookup_known,
  refuse_lookup, service_lookup, serve_pending, ack, advertise, unadvertise, is_forwarded,
}
use casual.Broker.Exclusive.{bit, gives, given, idle_count, Within}
use casual.Broker.Exclusive.Instances.{
  update_at-IsKeyed, update_at-not_idle, update_at-calm, process_of-IsKeyed, process_of-update_at,
}
use casual.Broker.Exclusive.Rules.{
  record_event-Keeps, blocking_send-Keeps, get_service-Keeps, get_instance-Keeps,
  add_services-Keeps, remove_services-Keeps,
}
use casual.Broker.Exclusive.Connects.{on_missing-Keeps, weaken, Freed, free-Takes}

module _ (pid n : ℕ) (env : Environment) where
  -- A message that may hand out the instance.
  give_event :
      (e : ℕ) (queue : ℕ) (m : Message) (s : State)
      → e + bit (gives pid m) ≤ n
      → Within pid e s
      → Within pid n (record s { events = sent queue m ∷ s.events })
  unfolding given
  give_event e queue m s room w =
      let bound = w.bound in record { keyed = w.keyed; other = w.other; bound = omega arith }

  give-Takes :
      (e : ℕ) (queue : ℕ) (m : Message) (o : Outcome)
      → e + bit (gives pid m) ≤ n
      → Takes (Within pid e) (Within pid n) (deliver queue m o)
  unfolding deliver record_event modify
  give-Takes e queue m delivered room = record { at = λ s w. give_event e queue m s room w }
  give-Takes e queue m full room = record { at = λ s w. give_event e queue m s room w }
  give-Takes e queue m gone room =
      let wider : (s : State) → Within pid e s → Within pid n s = λ s w.
        let bound = w.bound in record { keyed = w.keyed; other = w.other; bound = omega arith } in
      Takes-then _ _ (Takes-Keeps wider _ (record_event-Keeps pid e (lost queue m) refl))
        λ _. Keeps-raise _

  -- After an idle instance is made busy there is room for handing it out.
  busy-Within :
      (k : ℕ) (now : ℤ) (s : State)
      → is_idle_at s k ≡ true
      → Within pid n s
      → Within pid (n - bit (k == pid)) (update_instance k (alter_state InstanceState.busy now) s)
        × (bit (k == pid) ≤ n)
  unfolding is_idle_at is_idle_state
  busy-Within k now s idle w =
      let f : Instance → Instance = alter_state InstanceState.busy now in
      let bound = w.bound in
      let keyed = update_at-IsKeyed k f s.instances (λ i. refl) w.keyed in
      elim (Bool-cases (k == pid)) [
        | inl e ↦
            let same : k ≡ pid = ground arith in
            let before : idle_count pid s.instances ≡ 1 =
              subst (λ p. idle_count p s.instances ≡ 1) same (ap bit idle) in
            let after : idle_count pid (update_at k f s.instances) ≡ 0 =
              subst (λ p. idle_count p (update_at k f s.instances) ≡ 0) same
                (update_at-not_idle k f s.instances (λ i. refl)) in
            rw e (record { keyed = keyed; other = w.other; bound = omega arith }, omega arith)
        | inr e ↦
            let less = update_at-calm k f pid s.instances (λ i. omega arith) in
            rw e (record { keyed = keyed; other = w.other; bound = omega arith }, omega arith)
      ]

  blocking_send-Takes :
      (e : ℕ) (queue : ℕ) (m : Message)
      → e + bit (gives pid m) ≤ n
      → Takes (Within pid e) (Within pid n) (blocking_send env queue m)
  unfolding blocking_send gets ◌>>=◌
  blocking_send-Takes e queue m room = record {
    at = λ s w. (give-Takes e queue m (env.push s.events queue) room).at s w;
  }

  -- What is handed out is sent, and counted.
  sent-Takes :
      (e : ℕ) (queue : ℕ) (m : Message) (name : ℕ)
      → e + bit (gives pid m) ≤ n
      → Takes (Within pid e) (Within pid n) (do
        blocking_send env queue m
        modify (update_service name (λ v. record v { lookedup = plus v.lookedup 1 })))
  unfolding modify
  sent-Takes e queue m name room =
      Takes-then _ _ (blocking_send-Takes e queue m room) λ _. record { at = λ s w. w }

  hand_out-Within :
      (m : LookupRequest) (i : Information) (k : ℕ) (s : State)
      → is_idle_at s k ≡ true
      → Within pid n s
      → Within pid n (hand_out env m i k s).1
  unfolding hand_out gets modify ◌>>=◌ is_idle_at
  hand_out-Within m i k s idle w =
      let now = env.now s.events in
      let (ready, room) = busy-Within k now s idle w in
      let process : Process =
        process_of (lookup k (update_at k (alter_state InstanceState.busy now) s.instances)) in
      let named : (process.pid == pid) ≡ (k == pid) =
        ap (λ p. p == pid)
          (ap (λ p. p.pid) (process_of-update_at k k _ s.instances (λ i. refl))
            ∙ process_of-IsKeyed k s.instances w.keyed idle) in
      let enough : n - bit (k == pid) + bit (process.pid == pid) ≤ n = rw named (omega arith) in
      (sent-Takes (n - bit (k == pid)) m.process.queue
          (lookup_reply m.correlation i process Availability.idle) m.requested enough).at
        _ ready

  put_off-Keeps : (m : LookupRequest) (i : Information) → Keeps (Within pid n) (put_off env m i)
  unfolding put_off modify
  put_off-Keeps m i =
      Keeps-if (is_forwarded m.context) _ _
        (Keeps-gets_at _ _ λ s w. blocking_send-Keeps pid n env _ _ w.other)
        (Keeps-bind _ _ (record { at = λ s w. w }) λ _. blocking_send-Keeps pid n env _ _ refl)

  answer-Within :
      (m : LookupRequest) (service : Service) (i : Information) (s : State)
      → Within pid n s
      → Within pid n (case_of (find_idle service s) (put_off env m i) (hand_out env m i) s).1
  unfolding find_idle case_of
  answer-Within m service i s w = elim (Option-cases (find_if (is_idle_at s) service.instances)) [
    | inl e ↦ rw e ((put_off-Keeps m i).at s w)
    | inr (k, e) ↦ rw e (hand_out-Within m i k s (find_if-passes _ _ k e) w)
  ]

  answer-Keeps :
      (m : LookupRequest) (service : Service) → Keeps (Within pid n) (answer env m service)
  unfolding answer gets ◌>>=◌
  answer-Keeps m service = record { at = λ s w. answer-Within m service _ s w }

  lookup_known-Keeps : (m : LookupRequest) → Keeps (Within pid n) (lookup_known env m)
  unfolding lookup_known
  lookup_known-Keeps m = Keeps-bind _ _ (get_service-Keeps pid n m.requested) (answer-Keeps m)

  pub service_lookup-Keeps : (m : LookupRequest) → Keeps (Within pid n) (service_lookup env m)
  unfolding service_lookup refuse_lookup
  service_lookup-Keeps m =
      Keeps-recover _ _ (on_missing-Keeps _ (blocking_send-Keeps pid n env _ _ refl))
        (lookup_known-Keeps m)

  serve_pending-Keeps : (names : List ℕ) → Keeps (Within pid n) (serve_pending env names)
  unfolding serve_pending modify
  serve_pending-Keeps names = Keeps-bind _ _ (Keeps-gets _) λ pending.
      Keeps-case_of pending _ _ (Keeps-pure tt)
        λ m. Keeps-bind _ _ (service_lookup-Keeps m) λ _. record { at = λ s w. w }

  pub advertise-Keeps :
      (process : Process) (services : List Information)
      → Keeps (Within pid n) (advertise env process services)
  unfolding advertise
  advertise-Keeps process services =
      Keeps-recover _ _ (on_missing-Keeps _ (Keeps-pure tt))
        (add_services-Keeps pid n _ (map to_service services))

  pub unadvertise-Keeps :
      (process : Process) (services : List Information)
      → Keeps (Within pid n) (unadvertise env process services)
  unfolding unadvertise
  unadvertise-Keeps process services =
      Keeps-recover _ _ (on_missing-Keeps _ (Keeps-pure tt))
        (remove_services-Keeps pid n _ (map to_service services))

-- An acknowledgement makes its instance idle.
pub ack-Takes :
    (pid n : ℕ) (env : Environment) (k : ℕ) → Takes (Within pid n) (Freed pid n env k) (ack env k)
unfolding ack
ack-Takes pid n env k = Takes-recover _ _ (on_missing-Keeps _ (Keeps-pure tt)) (
    Takes-bind (weaken pid n env k) _ _ (get_instance-Keeps pid n k) λ i.
      Takes-bind (weaken pid n env k) _ _ (Keeps-gets _) λ now.
        Takes-then _ _ (free-Takes pid n env k _ (λ i. refl))
          λ _. serve_pending-Keeps pid _ env i.services)
