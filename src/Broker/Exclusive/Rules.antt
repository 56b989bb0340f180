-- ===== src/Broker/Exclusive/Rules.antt =====
-- What the sends, the store and the connects do to how often an instance is handed out.
use casual.Base.{ℕ, ◌≤◌, ◌≡◌, refl, false, List, [], ◌∷◌, arith}
use casual.Ipc.{Outcome, delivered, full, gone}
use casual.Run.Keeps.{Keeps, Keeps-bind, Keeps-gets, Keeps-pure, Keeps-case_of, keeps_rules}
use casual.Broker.Message.{Message}
use casual.Broker.State.{
  State, Instance, Event, sent, refused, lost, removed, update_instance, Service,
}
use casual.Broker.Monad.{
  Environment, deliver, offer, blocking_send, non_blocking_send, record_event, modify,
}
use casual.Broker.Store.{
  get_instance, get_server, get_service, get_executable, add_service, add_each, add_services,
  remove_service, remove_each, remove_services, forget, remove_instance, remove_executable,
  remove_process, emplace_each, new_instance, add_instances, permitted,
}
use casual.Broker.Handle.Service.{is_idle_state}
use casual.Broker.Exclusive.{bit, gives, gives_in, given, Within}
use casual.Broker.Exclusive.Instances.{
  update_at-IsKeyed, update_at-calm, emplace-IsKeyed, emplace-calm, remove_key-IsKeyed,
  remove_key-calm,
}

module _ (pid n : ℕ) where
  -- An event that hands nothing out.
  pub event-Within :
      (e : Event) (s : State)
      → gives_in pid e ≡ false
      → Within pid n s
      → Within pid n (record s { events = e ∷ s.events })
  unfolding given
  event-Within e s h w = record {
    keyed = w.keyed;
    other = w.other;
    bound = (let b = w.bound in rw h (omega arith));
  }

  pub record_event-Keeps :
      (e : Event) → gives_in pid e ≡ false → Keeps (Within pid n) (record_event e)
  unfolding record_event modify
  record_event-Keeps e h = record { at = λ s w. event-Within e s h w }

  deliver-Keeps :
      (queue : ℕ) (m : Message) (o : Outcome)
      → gives pid m ≡ false
      → Keeps (Within pid n) (deliver queue m o)
  unfolding deliver
  deliver-Keeps queue m delivered h = record_event-Keeps (sent queue m) h
  deliver-Keeps queue m full h = record_event-Keeps (sent queue m) h
  deliver-Keeps queue m gone h =
      let k : Keeps (Within pid n) (record_event (lost queue m)) = record_event-Keeps _ refl in
      search keeps_rules depth 8

  offer-Keeps :
      (queue : ℕ) (m : Message) (o : Outcome)
      → gives pid m ≡ false
      → Keeps (Within pid n) (offer queue m o)
  unfolding offer
  offer-Keeps queue m delivered h =
      let k : Keeps (Within pid n) (record_event (sent queue m)) = record_event-Keeps _ h in
      search keeps_rules depth 8
  offer-Keeps queue m full h =
      let k : Keeps (Within pid n) (record_event (refused queue m)) = record_event-Keeps _ refl in
      search keeps_rules depth 8
  offer-Keeps queue m gone h =
      let k : Keeps (Within pid n) (record_event (lost queue m)) = record_event-Keeps _ refl in
      search keeps_rules depth 8

  module _ (env : Environment) where
    pub blocking_send-Keeps :
        (queue : ℕ) (m : Message)
        → gives pid m ≡ false
        → Keeps (Within pid n) (blocking_send env queue m)
    unfolding blocking_send
    blocking_send-Keeps queue m h = Keeps-bind _ _ (Keeps-gets _) λ o. deliver-Keeps queue m o h

    pub non_blocking_send-Keeps :
        (queue : ℕ) (m : Message)
        → gives pid m ≡ false
        → Keeps (Within pid n) (non_blocking_send env queue m)
    unfolding non_blocking_send
    non_blocking_send-Keeps queue m h = Keeps-bind _ _ (Keeps-gets _) λ o. offer-Keeps queue m o h

  -- An update that keeps the process of an instance, and does not make it idle.
  pub update_instance-Keeps :
      (k : ℕ) (f : Instance → Instance)
      → ((i : Instance) → (f i).process.pid ≡ i.process.pid)
      → ((i : Instance) → bit (is_idle_state (f i).state) ≤ bit (is_idle_state i.state))
      → (s : State) → Within pid n s
      → Within pid n (update_instance k f s)
  update_instance-Keeps k f same calm s w =
      let less = update_at-calm k f pid s.instances calm in
      let bound = w.bound in
      record {
        keyed = update_at-IsKeyed k f s.instances same w.keyed;
        other = w.other;
        bound = omega arith;
      }

  pub get_instance-Keeps : (k : ℕ) → Keeps (Within pid n) (get_instance k)
  unfolding get_instance
  get_instance-Keeps k = search keeps_rules depth 8

  pub get_server-Keeps : (k : ℕ) → Keeps (Within pid n) (get_server k)
  unfolding get_server
  get_server-Keeps k = search keeps_rules depth 8

  pub get_service-Keeps : (k : ℕ) → Keeps (Within pid n) (get_service k)
  unfolding get_service
  get_service-Keeps k = search keeps_rules depth 8

  get_executable-Keeps : (k : ℕ) → Keeps (Within pid n) (get_executable k)
  unfolding get_executable
  get_executable-Keeps k = search keeps_rules depth 8

  add_each-Within :
      (k : ℕ) (services : List Service) (s : State)
      → Within pid n s
      → Within pid n (add_each k services s)
  unfolding add_each add_service
  add_each-Within k [] s w = w
  add_each-Within k (v ∷ services) s w =
      add_each-Within k services _ (update_instance-Keeps k _ (λ i. refl) (λ i. omega arith) s w)

  pub add_services-Keeps :
      (k : ℕ) (services : List Service) → Keeps (Within pid n) (add_services k services)
  unfolding add_services modify
  add_services-Keeps k services = Keeps-bind _ _ (get_instance-Keeps k) λ i.
      Keeps-bind _ _ (get_server-Keeps i.server)
        λ v. record { at = add_each-Within k (permitted v.restrictions services) }

  remove_each-Within :
      (k : ℕ) (services : List Service) (s : State)
      → Within pid n s
      → Within pid n (remove_each k services s)
  unfolding remove_each remove_service
  remove_each-Within k [] s w = w
  remove_each-Within k (v ∷ services) s w =
      remove_each-Within k services _ (update_instance-Keeps k _ (λ i. refl) (λ i. omega arith) s w)

  pub remove_services-Keeps :
      (k : ℕ) (services : List Service) → Keeps (Within pid n) (remove_services k services)
  unfolding remove_services modify
  remove_services-Keeps k services =
      Keeps-bind _ _ (get_instance-Keeps k) λ i. record { at = remove_each-Within k services }

  forget-Keeps : (k : ℕ) (names : List ℕ) → Keeps (Within pid n) (forget k names)
  unfolding forget modify
  forget-Keeps k [] = Keeps-pure tt
  forget-Keeps k (name ∷ names) =
      Keeps-bind _ _ (get_service-Keeps name)
        λ v. Keeps-bind _ _ (record { at = λ s w. w }) λ _. forget-Keeps k names

  remove_instance-Keeps : (k : ℕ) (i : Instance) → Keeps (Within pid n) (remove_instance k i)
  unfolding remove_instance modify
  remove_instance-Keeps k i = Keeps-bind _ _ (record_event-Keeps (removed k) refl) λ _.
      Keeps-bind _ _ (forget-Keeps k i.services) λ _.
        Keeps-bind _ _ (get_server-Keeps i.server) λ v.
          Keeps-bind _ _ (record { at = λ s w. w })
            λ _. record {
              at = λ s w.
                  let less = remove_key-calm k pid s.instances in
                  let bound = w.bound in
                  record {
                    keyed = remove_key-IsKeyed k s.instances w.keyed;
                    other = w.other;
                    bound = omega arith;
                  };
            }

  remove_executable-Keeps : (k : ℕ) → Keeps (Within pid n) (remove_executable k)
  unfolding remove_executable modify
  remove_executable-Keeps k = record { at = λ s w. w }

  pub remove_process-Keeps : (k : ℕ) → Keeps (Within pid n) (remove_process k)
  unfolding remove_process
  remove_process-Keeps k =
      Keeps-bind _ _ (Keeps-gets _)
        λ found. Keeps-case_of found _ _ (remove_executable-Keeps k) (remove_instance-Keeps k)

  module _ (env : Environment) where
    emplace_each-Within :
        (id : ℕ) (pids : List ℕ) (s : State)
        → Within pid n s
        → Within pid n (emplace_each env id pids s)
    unfolding emplace_each is_idle_state
    emplace_each-Within id [] s w = w
    emplace_each-Within id (k ∷ pids) s w =
        let bound = w.bound in
        let less = emplace-calm k (new_instance id k (env.now s.events)) pid s.instances refl in
        emplace_each-Within id pids _ (record {
          keyed = emplace-IsKeyed k (new_instance id k (env.now s.events)) s.instances refl w.keyed;
          other = w.other;
          bound = omega (arith, less);
        })

    pub add_instances-Keeps :
        (id : ℕ) (pids : List ℕ) → Keeps (Within pid n) (add_instances env id pids)
    unfolding add_instances modify
    add_instances-Keeps id pids = Keeps-bind _ _ (Keeps-gets _) λ found.
        Keeps-case_of found _ _
          (Keeps-bind _ _ (get_executable-Keeps id) λ e. record { at = λ s w. w })
          λ v.
            Keeps-bind _ _ (record { at = emplace_each-Within id pids })
              λ _. record { at = λ s w. w }
