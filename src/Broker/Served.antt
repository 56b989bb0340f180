-- ===== src/Broker/Served.antt =====
-- An acknowledgement serves a caller that waits.
use mathlib.Core.Path.{subst}
use mathlib.Core.Option.{some-injective}
use casual.Base.{
  ◌≢◌, ◌⊎◌, ◌∙◌, sym, ap, ℕ, ◌≡◌, refl, Bool, true, false, Bool-cases, inl, inr, some, List, [],
  ◌∷◌, ◌==◌, arith, any_of, find_if, find_if-passes, erase_first, lookup, update_at,
}
use casual.Base.Int.{ℤ}
use casual.Bytes.{plus}
use casual.Ipc.{Outcome, delivered, full, gone}
use casual.Broker.Message.{Message, LookupRequest, Information, lookup_reply, Availability}
use casual.Broker.State.{
  State, Instance, InstanceState, Service, sent, alter_state, update_instance,
}
use casual.Broker.Monad.{
  Environment, ok, deliver, blocking_send, ◌>>=◌, gets, modify, record_event, recover, caught,
}
use casual.Broker.Exclusive.{bit}
use casual.Broker.Exclusive.Instances.{update_at-not_idle, process_of-update_at}
use casual.Broker.Store.{get_instance, get_service}
use casual.Broker.Handle.Service.{
  is_idle, is_idle_state, is_idle_at, find_idle, process_of, hand_out, answer, lookup_known,
  service_lookup, can_serve, serve_pending, ack,
}

pub any_of-find_if {ℓ} :
    {A : Type ℓ} (p q : A → Bool) (xs : List A)
    → ((x : A) → q x ≡ true → p x ≡ true)
    → any_of q xs ≡ true
    → (x : A) × (find_if p xs ≡ some x)
unfolding any_of find_if
any_of-find_if p q [] h = λ e. absurd (ground arith)
any_of-find_if p q (x ∷ xs) h = elim (Bool-cases (p x)) [
  | inl d ↦ λ e. (x, rw d refl)
  | inr d ↦ elim (Bool-cases (q x)) [
    | inl c ↦ λ e. let t = h x c in absurd (ground arith)
    | inr c ↦ rw c (λ e. let (y, found) = any_of-find_if p q xs h e in (y, rw d found))
  ]
]

lookup-update_at {ℓ} :
    {V : Type ℓ} (k : ℕ) (f : V → V) (m : List (ℕ × V)) (v : V)
    → lookup k m ≡ some v
    → lookup k (update_at k f m) ≡ some (f v)
unfolding lookup update_at
lookup-update_at k f [] v = λ e. absurd (ground arith)
lookup-update_at k f ((j, w) ∷ m) v = elim (Bool-cases (j == k)) [
  | inl d ↦ rw (d, d) (λ e. ap some (ap f (some-injective w v e)))
  | inr d ↦ rw (d, d) (lookup-update_at k f m v)
]

lookup-update_at-other {ℓ} :
    {V : Type ℓ} (j k : ℕ) (f : V → V) (m : List (ℕ × V))
    → (j == k) ≡ false
    → lookup j (update_at k f m) ≡ lookup j m
unfolding lookup update_at
lookup-update_at-other j k f [] h = refl
lookup-update_at-other j k f ((l, w) ∷ m) h = elim (Bool-cases (l == k)) [
  | inl d ↦ let c : (l == j) ≡ false = ground arith in rw (d, c) refl
  | inr d ↦ elim (Bool-cases (l == j)) [
    | inl c ↦ rw (d, c) refl
    | inr c ↦ rw (d, c) (lookup-update_at-other j k f m h)
  ]
]

pub bit_zero : (b : Bool) → bit b ≡ 0 → b ≡ false
bit_zero true h = ground arith
bit_zero false h = refl

module _ (env : Environment) where
  deliver_lem :
      (queue : ℕ) (m : Message) (o : Outcome) (s : State)
      → o ≢ gone
      → deliver queue m o s ≡ (ok tt, record s { events = sent queue m ∷ s.events })
  unfolding deliver record_event modify
  deliver_lem queue m delivered s h = refl
  deliver_lem queue m full s h = refl
  deliver_lem queue m gone s h = absurd (h refl)

  -- What handing out an instance leaves.
  abbrev handed : LookupRequest → Information → ℕ → State → State
  handed m i j s = record s {
    instances = update_at j (alter_state InstanceState.busy (env.now s.events)) s.instances;
    services = update_at m.requested (λ v. record v { lookedup = plus v.lookedup 1 }) s.services;
    events =
        sent m.process.queue (
          lookup_reply m.correlation i
            (process_of (
              lookup j
                (update_at j (alter_state InstanceState.busy (env.now s.events)) s.instances)))
            Availability.idle)
        ∷ s.events;
  }

  hand_out_lem :
      (m : LookupRequest) (i : Information) (j : ℕ) (s : State)
      → (env.push s.events m.process.queue ≢ gone)
      → hand_out env m i j s ≡ (ok tt, handed m i j s)
  unfolding hand_out ◌>>=◌ gets modify blocking_send
  hand_out_lem m i j s h = rw (deliver_lem _ _ (env.push s.events m.process.queue) _ h) refl

  service_lookup_lem :
      (m : LookupRequest) (v : Service) (j : ℕ) (s : State)
      → (env.push s.events m.process.queue ≢ gone)
      → lookup m.requested s.services ≡ some v
      → find_if (is_idle_at s) v.instances ≡ some j
      → service_lookup env m s
        ≡ (ok tt, handed m (record v.information { traffic_monitors = s.monitors }) j s)
  unfolding service_lookup recover caught lookup_known ◌>>=◌ gets get_service answer find_idle
  service_lookup_lem m v j s h known idle =
      rw
        (known, idle, hand_out_lem m (record v.information { traffic_monitors = s.monitors }) j s h)
        refl

  -- The state of `ACK` once the instance is idle.
  abbrev freed : ℕ → State → State
  freed k s =
      update_instance k
        (λ i. record i {
          state = InstanceState.idle;
          last = env.now s.events;
          invoked = plus i.invoked 1;
        })
        s

  ack_lem :
      (k : ℕ) (s : State) (i : Instance) (m : LookupRequest) (v : Service) (j : ℕ)
      → (env.push s.events m.process.queue ≢ gone)
      → lookup k s.instances ≡ some i
      → find_if (can_serve i.services) s.requests ≡ some m
      → lookup m.requested s.services ≡ some v
      → find_if (is_idle_at (freed k s)) v.instances ≡ some j
      → ack env k s ≡ (
        ok tt,
        record (handed m (record v.information { traffic_monitors = s.monitors }) j (freed k s)) {
          requests = erase_first (can_serve i.services) s.requests;
        },
      )
  unfolding ack recover caught ◌>>=◌ gets modify get_instance serve_pending
  ack_lem k s i m v j h here waits known idle =
      rw (here, waits, service_lookup_lem m v j (freed k s) h known idle) refl

-- An instance that is known acknowledges while a caller waits for a service that both the instance
-- and the service know of each other, and the caller's queue is not gone. Then the handler returns,
-- the first request that the instance can serve is off the queue, and one message was sent: the
-- reply to that caller with an instance that was idle before, or is the one that acknowledged, and
-- that is not idle any more.
pub ack_serves_waiting :
    (env : Environment) (k : ℕ) (s : State) (i : Instance) (m : LookupRequest) (v : Service)
    → (env.push s.events m.process.queue ≢ gone)
    → lookup k s.instances ≡ some i
    → find_if (can_serve i.services) s.requests ≡ some m
    → lookup m.requested s.services ≡ some v
    → any_of (λ p. p == k) v.instances ≡ true
    → ((ack env k s).0 ≡ ok tt)
      × ((ack env k s).1.requests ≡ erase_first (can_serve i.services) s.requests)
      × ((j : ℕ) × (information : Information) × ((ack env k s).1.events
            ≡ sent m.process.queue (
                lookup_reply m.correlation information
                  (process_of (lookup j s.instances))
                  Availability.idle)
              ∷ s.events)
          × ((j ≡ k) ⊎ (is_idle_at s j ≡ true))
          × (is_idle_at (ack env k s).1 j ≡ false))
unfolding is_idle_at is_idle is_idle_state
ack_serves_waiting env k s i m v h here waits known offers =
    let now : ℤ = env.now s.events in
    let f : Instance → Instance =
      λ i. record i { state = InstanceState.idle; last = now; invoked = plus i.invoked 1 } in
    let free : is_idle_at (freed env k s) k ≡ true =
      ap is_idle (lookup-update_at k f s.instances i here) in
    let (j, idle) =
      any_of-find_if (is_idle_at (freed env k s)) (λ p. p == k) v.instances
        (λ x e.
          let same : k ≡ x = ground arith in
          subst (λ x. is_idle_at (freed env k s) x ≡ true) same free)
        offers in
    let all = ack_lem env k s i m v j h here waits known idle in
    let passes = find_if-passes (is_idle_at (freed env k s)) v.instances j idle in
    let was : (j ≡ k) ⊎ (is_idle_at s j ≡ true) = elim (Bool-cases (j == k)) [
      | inl e ↦ inl (ground arith)
      | inr e ↦ inr (ap is_idle (sym (lookup-update_at-other j k f s.instances e)) ∙ passes)
    ] in
    let information : Information = record v.information { traffic_monitors = s.monitors } in
    let busy : Instance → Instance = alter_state InstanceState.busy now in
    let process : process_of (lookup j (update_at j busy (update_at k f s.instances)))
        ≡ process_of (lookup j s.instances) =
      process_of-update_at j j busy _ (λ i. refl)
      ∙ process_of-update_at j k f s.instances (λ i. refl) in
    (
      ap (λ r. r.0) all,
      ap (λ r. r.1.requests) all,
      (
        j,
        information,
        ap (λ r. r.1.events) all
            ∙ ap
                (λ p.
                  sent m.process.queue (lookup_reply m.correlation information p Availability.idle)
                  ∷ s.events)
                process,
        was,
        ap (λ r. is_idle_at r.1 j) all
            ∙ bit_zero _ (update_at-not_idle j busy (update_at k f s.instances) (λ i. refl)),
      ),
    )
