-- ===== src/Broker/Exclusive/Deaths.antt =====
-- The death of processes hands nothing out, and makes no instance idle.
use casual.Base.{ℕ, zero, suc, ◌≡◌, refl, true, false, List, [], ◌∷◌, ◌==◌, arith, is_empty, map}
use casual.Ipc.{Process}
use casual.Run.Keeps.{
  Keeps, Keeps-recover, Keeps-bind, Keeps-gets, Keeps-pure, Keeps-raise, Keeps-if, Keeps-or_throw,
}
use casual.Broker.Message.{Message, Death, dead_process}
use casual.Broker.State.{Executable, Exception, spawned}
use casual.Broker.Monad.{Environment, modify}
use casual.Broker.Handle.Service.{is_idle_state}
use casual.Broker.Handle.Dead.{
  register_listener, count_as_sent, ignore_gone, send_all, tell_listeners, spawn, boot,
  shutdown_instance, shutdown_each, shutdown, update_instances, bury, dead_event, deceased,
}
use casual.Broker.Exclusive.{gives, Within}
use casual.Broker.Exclusive.Rules.{
  record_event-Keeps, non_blocking_send-Keeps, update_instance-Keeps, get_instance-Keeps,
  get_server-Keeps, remove_process-Keeps, add_instances-Keeps,
}

module _ (pid n : ℕ) where
  count_as_sent-Keeps : (e : Exception) → Keeps (Within pid n) (count_as_sent e)
  unfolding count_as_sent
  count_as_sent-Keeps Exception.unavailable = Keeps-pure true
  count_as_sent-Keeps Exception.missing = Keeps-raise _
  count_as_sent-Keeps Exception.terminate = Keeps-raise _
  count_as_sent-Keeps Exception.invalid_argument = Keeps-raise _

  ignore_gone-Keeps : (e : Exception) → Keeps (Within pid n) (ignore_gone e)
  unfolding ignore_gone
  ignore_gone-Keeps Exception.unavailable = Keeps-pure tt
  ignore_gone-Keeps Exception.missing = Keeps-pure tt
  ignore_gone-Keeps Exception.terminate = Keeps-raise _
  ignore_gone-Keeps Exception.invalid_argument = Keeps-raise _

  pub register_listener-Keeps : (p : Process) → Keeps (Within pid n) (register_listener p)
  unfolding register_listener modify
  register_listener-Keeps p = record { at = λ s w. w }

  module _ (env : Environment) where
    send_all-Keeps :
        (m : Message) (qs : List ℕ) → gives pid m ≡ false → Keeps (Within pid n) (send_all env m qs)
    unfolding send_all
    send_all-Keeps m [] h = Keeps-pure []
    send_all-Keeps m (q ∷ qs) h =
        Keeps-bind _ _
          (Keeps-recover _ _ count_as_sent-Keeps (non_blocking_send-Keeps pid n env q m h))
          λ taken. Keeps-bind _ _ (send_all-Keeps m qs h) λ left. Keeps-pure _

    tell_listeners-Keeps :
        (death : Death) (ls : List Process) → Keeps (Within pid n) (tell_listeners env death ls)
    unfolding tell_listeners modify
    tell_listeners-Keeps death [] = Keeps-pure tt
    tell_listeners-Keeps death (l ∷ ls) =
        Keeps-bind _ _ (send_all-Keeps (dead_process death) (l.queue ∷ map (λ p. p.queue) ls) refl)
          λ left. Keeps-if (is_empty left) _ _ (Keeps-pure tt) (record { at = λ s w. w })

    spawn-Keeps : (e : Executable) (count : ℕ) → Keeps (Within pid n) (spawn env e count)
    unfolding spawn
    spawn-Keeps e zero = Keeps-pure []
    spawn-Keeps e (suc count) = Keeps-bind _ _ (Keeps-gets _) λ started.
        Keeps-bind _ _ (Keeps-or_throw started _) λ k.
          Keeps-bind _ _ (record_event-Keeps pid n (spawned k) refl)
            λ _. Keeps-bind _ _ (spawn-Keeps e count) λ pids. Keeps-pure _

    boot-Keeps : (e : Executable) (count : ℕ) → Keeps (Within pid n) (boot env e count)
    unfolding boot
    boot-Keeps e count =
        Keeps-if _ _ _
          (Keeps-bind _ _ (spawn-Keeps e _) λ pids. add_instances-Keeps pid n env e.id pids)
          (Keeps-pure tt)

    shutdown_instance-Keeps : (k : ℕ) → Keeps (Within pid n) (shutdown_instance env k)
    unfolding shutdown_instance modify is_idle_state
    shutdown_instance-Keeps k = Keeps-bind _ _ (get_instance-Keeps pid n k) λ i.
        Keeps-bind _ _ (Keeps-gets _) λ now.
          Keeps-bind _ _
            (record { at = update_instance-Keeps pid n k _ (λ i. refl) (λ i. omega arith) })
            λ _.
              Keeps-bind _ _ (non_blocking_send-Keeps pid n env _ _ refl)
                λ taken. Keeps-if taken _ _ (Keeps-pure tt) (record { at = λ s w. w })

    shutdown_each-Keeps : (pids : List ℕ) → Keeps (Within pid n) (shutdown_each env pids)
    unfolding shutdown_each
    shutdown_each-Keeps [] = Keeps-pure tt
    shutdown_each-Keeps (k ∷ pids) =
        Keeps-bind _ _
          (Keeps-if (k == env.self.pid) _ _ (Keeps-pure tt)
            (Keeps-recover _ _ ignore_gone-Keeps (shutdown_instance-Keeps k)))
          λ _. shutdown_each-Keeps pids

    update_instances-Keeps : (e : Executable) → Keeps (Within pid n) (update_instances env e)
    unfolding update_instances shutdown
    update_instances-Keeps e = Keeps-if _ _ _ (boot-Keeps e _) (shutdown_each-Keeps _)

    bury-Keeps : (k : ℕ) → Keeps (Within pid n) (bury env k)
    unfolding bury modify
    bury-Keeps k = Keeps-bind _ _ (get_instance-Keeps pid n k) λ i.
        Keeps-bind _ _ (get_server-Keeps pid n i.server) λ v.
          Keeps-bind _ _ (record { at = λ s w. w })
            λ _. Keeps-bind _ _ (remove_process-Keeps pid n k) λ _.
              Keeps-bind _ _ (get_server-Keeps pid n i.server) λ server.
                Keeps-if server.executable.restart _ _ (update_instances-Keeps server.executable)
                  (Keeps-pure tt)

    pub dead_event-Keeps : (death : Death) → Keeps (Within pid n) (dead_event env death)
    unfolding dead_event modify
    dead_event-Keeps death =
        Keeps-if (deceased death.reason) _ _
          (Keeps-bind _ _ (record { at = λ s w. w })
            λ _.
              Keeps-bind _ _ (Keeps-gets _)
                λ ls. Keeps-bind _ _ (tell_listeners-Keeps death ls) λ _. bury-Keeps death.pid)
          (Keeps-pure tt)
