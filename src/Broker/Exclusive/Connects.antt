-- ===== src/Broker/Exclusive/Connects.antt =====
-- The connects hand nothing out, but a server that connects is idle.
use casual.Base.{
  ℕ, ◌+◌, ◌≡◌, refl, Bool, true, false, Option, none, some, List, [], ◌∷◌, ◌==◌, arith, update_at,
}
use casual.Ipc.{Process, same_process}
use casual.Run.Keeps.{
  Keeps, Keeps-recover, Keeps-bind, Keeps-gets, Keeps-pure, Keeps-raise, Keeps-if, Keeps-case_of,
  Takes, Takes-bind, Takes-Keeps, Takes-if, Takes-recover,
}
use casual.Broker.Message.{
  Message, Directive, ConnectRequest, ProcessRequest, Information, connect_reply, client_reply,
}
use casual.Broker.State.{State, Instance, Exception, terminated}
use casual.Broker.Monad.{Environment, Action, modify, on_missing}
use casual.Broker.Handle.Connect.{
  reply_process, lookup_process, lookup_each, refuse_singleton, welcome, enter_singleton, identify,
  connect, connect_instance, connect_server, connect_monitor, disconnect_monitor, connect_manager,
  connect_client, connect_forward, manager_ready,
}
use casual.Broker.Exclusive.{bit, gives, Within}
use casual.Broker.Exclusive.Instances.{update_at-IsKeyed, update_at-idle}
use casual.Broker.Exclusive.Rules.{
  record_event-Keeps, blocking_send-Keeps, non_blocking_send-Keeps, update_instance-Keeps,
  get_instance-Keeps, get_server-Keeps, add_services-Keeps,
}

-- A clause that catches what is missing.
pub on_missing-Keeps :
    {A : Type 0} {P : State → Type 0} (handler : Action A)
    → Keeps P handler
    → (e : Exception) → Keeps P (on_missing handler e)
on_missing-Keeps handler k Exception.missing = k
on_missing-Keeps handler k Exception.unavailable = Keeps-raise _
on_missing-Keeps handler k Exception.terminate = Keeps-raise _
on_missing-Keeps handler k Exception.invalid_argument = Keeps-raise _

module _ (pid n : ℕ) (env : Environment) where
  reply_process-Keeps :
      (m : ProcessRequest) (process : Process) → Keeps (Within pid n) (reply_process env m process)
  unfolding reply_process modify
  reply_process-Keeps m process =
      Keeps-bind _ _ (non_blocking_send-Keeps pid n env _ _ refl)
        λ taken. Keeps-if taken _ _ (Keeps-pure tt) (record { at = λ s w. w })

  pub lookup_process-Keeps : (m : ProcessRequest) → Keeps (Within pid n) (lookup_process env m)
  unfolding lookup_process modify
  lookup_process-Keeps m = Keeps-bind _ _ (Keeps-gets _) λ found.
      Keeps-case_of found _ _
        (Keeps-if m.is_direct _ _ (reply_process-Keeps m _) (record { at = λ s w. w }))
        (reply_process-Keeps m)

  lookup_each-Keeps : (ms : List ProcessRequest) → Keeps (Within pid n) (lookup_each env ms)
  unfolding lookup_each
  lookup_each-Keeps [] = Keeps-pure tt
  lookup_each-Keeps (m ∷ ms) = Keeps-bind _ _ (lookup_process-Keeps m) λ _. lookup_each-Keeps ms

  enter_singleton-Keeps :
      (m : ConnectRequest) (id : ℕ) → Keeps (Within pid n) (enter_singleton env m id)
  unfolding enter_singleton modify
  enter_singleton-Keeps m id =
      Keeps-bind _ _ (record { at = λ s w. w })
        λ _.
          Keeps-bind _ _ (Keeps-gets _)
            λ pending. Keeps-bind _ _ (record { at = λ s w. w }) λ _. lookup_each-Keeps pending

  module _ (m : ConnectRequest) (reply : Directive → Message)
      (calm : (d : Directive) → gives pid (reply d) ≡ false) where
    refuse_singleton-Keeps : Keeps (Within pid n) (refuse_singleton env m reply)
    unfolding refuse_singleton modify
    refuse_singleton-Keeps = Keeps-bind _ _ (blocking_send-Keeps pid n env _ _ (calm _)) λ _.
        Keeps-bind _ _ (get_instance-Keeps pid n _) λ i.
          Keeps-bind _ _ (get_server-Keeps pid n _)
            λ v. Keeps-bind _ _ (record { at = λ s w. w }) λ _. Keeps-pure false

    welcome-Keeps : Keeps (Within pid n) (welcome env m reply)
    unfolding welcome
    welcome-Keeps = Keeps-bind _ _ (blocking_send-Keeps pid n env _ _ (calm _)) λ _. Keeps-pure true

    identify-Keeps : (id : Option ℕ) → Keeps (Within pid n) (identify env m reply id)
    unfolding identify
    identify-Keeps none = welcome-Keeps
    identify-Keeps (some id) = Keeps-bind _ _ (Keeps-gets _) λ found.
        Keeps-case_of found _ _ (Keeps-bind _ _ (enter_singleton-Keeps m id) λ _. welcome-Keeps)
          λ other. Keeps-if (same_process other m.process) _ _ welcome-Keeps refuse_singleton-Keeps

    pub connect-Keeps : Keeps (Within pid n) (connect env m reply)
    unfolding connect
    connect-Keeps = Keeps-bind _ _ (Keeps-gets _) λ down.
        Keeps-if down _ _
          (Keeps-bind _ _ (blocking_send-Keeps pid n env _ _ (calm _)) λ _. Keeps-pure false)
          (identify-Keeps m.identification)

  connected-Keeps :
      (m : ConnectRequest) → Keeps (Within pid n) (connect env m (connect_reply m.correlation))
  connected-Keeps m = connect-Keeps m (connect_reply m.correlation) λ d. refl

  pub connect_monitor-Keeps : (m : ConnectRequest) → Keeps (Within pid n) (connect_monitor env m)
  unfolding connect_monitor modify
  connect_monitor-Keeps m =
      Keeps-bind _ _ (connected-Keeps m)
        λ allowed. Keeps-if allowed _ _ (record { at = λ s w. w }) (Keeps-pure tt)

  pub disconnect_monitor-Keeps :
      (process : Process) → Keeps (Within pid n) (disconnect_monitor env process)
  unfolding disconnect_monitor modify
  disconnect_monitor-Keeps process = record { at = λ s w. w }

  pub connect_manager-Keeps : (m : ConnectRequest) → Keeps (Within pid n) (connect_manager env m)
  unfolding connect_manager modify
  connect_manager-Keeps m = Keeps-bind _ _ (connected-Keeps m) λ allowed.
      Keeps-if allowed _ _
        (Keeps-bind _ _ (record { at = λ s w. w })
          λ _. Keeps-bind _ _ (Keeps-gets _) λ resources. blocking_send-Keeps pid n env _ _ refl)
        (Keeps-pure tt)

  pub connect_client-Keeps : (m : ConnectRequest) → Keeps (Within pid n) (connect_client env m)
  unfolding connect_client
  connect_client-Keeps m =
      Keeps-recover _ _ (on_missing-Keeps _ (blocking_send-Keeps pid n env _ _ refl)) (
        Keeps-bind _ _ (get_instance-Keeps pid n _) λ i. Keeps-bind _ _ (Keeps-gets _) λ resources.
          Keeps-bind _ _ (connect-Keeps m (λ d. client_reply m.correlation d resources) (λ d. refl))
            λ allowed. Keeps-pure tt)

  pub connect_forward-Keeps :
      (m : ConnectRequest)
      → (m.process.pid == pid) ≡ false
      → Keeps (Within pid n) (connect_forward env m)
  unfolding connect_forward modify
  connect_forward-Keeps m h = Keeps-bind _ _ (connected-Keeps m) λ allowed.
      Keeps-if allowed _ _
        (record { at = λ s w. record { keyed = w.keyed; other = h; bound = w.bound } })
        (Keeps-pure tt)

  -- An instance that becomes idle may be handed out once more.
  abbrev pub Freed : ℕ → State → Type 0
  Freed k = Within pid (n + bit (k == pid))

  pub weaken : (k : ℕ) (s : State) → Within pid n s → Freed k s
  weaken k s w =
      let bound = w.bound in record { keyed = w.keyed; other = w.other; bound = omega arith }

  pub free-Takes :
      (k : ℕ) (f : Instance → Instance)
      → ((i : Instance) → (f i).process.pid ≡ i.process.pid)
      → Takes {E = Exception}
          (Within pid n)
          (Freed k)
          (modify (λ s. record s { instances = update_at k f s.instances }))
  unfolding modify
  free-Takes k f same = record {
    at = λ s w.
        let more = update_at-idle k f pid s.instances in
        let bound = w.bound in
        record {
          keyed = update_at-IsKeyed k f s.instances same w.keyed;
          other = w.other;
          bound = omega arith;
        };
  }

  connect_instance-Takes :
      (m : ConnectRequest) (services : List Information)
      → Takes (Within pid n) (Freed m.process.pid) (connect_instance env m services)
  unfolding connect_instance modify
  connect_instance-Takes m services =
      let k : ℕ = m.process.pid in
      Takes-bind (weaken k) _ _ (get_instance-Keeps pid n k) λ i.
        Takes-bind (weaken k) _ _
          (record { at = update_instance-Keeps pid n k _ (λ i. refl) (λ i. omega arith) })
          λ _. Takes-bind (weaken k) _ _ (connected-Keeps m) λ allowed.
            Takes-if allowed _ _
              (Takes-bind (weaken k) _ _ (add_services-Keeps pid n k _)
                λ _. Takes-bind (weaken k) _ _ (Keeps-gets _) λ now. free-Takes k _ (λ i. refl))
              (Takes-Keeps (weaken k) _ (Keeps-pure tt))

  pub connect_server-Takes :
      (m : ConnectRequest) (services : List Information)
      → Takes (Within pid n) (Freed m.process.pid) (connect_server env m services)
  unfolding connect_server
  connect_server-Takes m services =
      Takes-recover _ _
        (on_missing-Keeps _ (record_event-Keeps pid _ (terminated m.process.pid) refl))
        (connect_instance-Takes m services)

  pub manager_ready-Takes :
      (process : Process) (success : Bool)
      → Takes (Within pid n) (Freed process.pid) (manager_ready env process success)
  unfolding manager_ready
  manager_ready-Takes process success =
      let k : ℕ = process.pid in
      Takes-if success _ _
        (Takes-bind (weaken k) _ _ (get_instance-Keeps pid n k)
          λ i. Takes-bind (weaken k) _ _ (Keeps-gets _) λ now. free-Takes k _ (λ i. refl))
        (Takes-Keeps (weaken k) _ (Keeps-raise _))
