-- ===== src/Broker/Exclusive/Bound.antt =====
-- Through any run of messages, an instance is handed out no more often than it was made idle.
use casual.Base.{ℕ, ◌+◌, ◌≤◌, ◌≡◌, Bool, false, List, [], ◌∷◌, ◌==◌, arith, All, how_many}
use mathlib.Core.Path.{subst}
use casual.Run.Keeps.{Takes, Takes-Keeps, Takes-seq, Keeps, Keeps-pure}
use casual.Broker.State.{State}
use casual.Broker.Monad.{Environment, Action}
use casual.Broker.Dispatch.{Inbound, dispatch, dispatch_all}
use casual.Broker.Exclusive.{bit, given, idle_count, IsKeyed, Within}
use casual.Broker.Exclusive.Connects.{
  lookup_process-Keeps, connect_monitor-Keeps, disconnect_monitor-Keeps, connect_manager-Keeps,
  connect_client-Keeps, connect_forward-Keeps, connect_server-Takes, manager_ready-Takes,
}
use casual.Broker.Exclusive.Deaths.{register_listener-Keeps, dead_event-Keeps}
use casual.Broker.Exclusive.Lookups.{
  service_lookup-Keeps, advertise-Keeps, unadvertise-Keeps, ack-Takes,
}

-- The message says that the instance can take a call.
abbrev pub frees : ℕ → Inbound → Bool
frees pid (Inbound.service_ack k) = k == pid
frees pid (Inbound.connect m services) = m.process.pid == pid
frees pid (Inbound.manager_ready process success) = process.pid == pid
frees pid _ = false

-- The message makes the instance the forward cache.
abbrev pub makes_forward : ℕ → Inbound → Bool
makes_forward pid (Inbound.forward_connect m) = m.process.pid == pid
makes_forward pid _ = false

module _ (env : Environment) (pid : ℕ) where
  more : (n k : ℕ) (s : State) → Within pid n s → Within pid (n + k) s
  more n k s w =
      let bound = w.bound in record { keyed = w.keyed; other = w.other; bound = omega arith }

  kept :
      {A : Type 0} (n : ℕ) (act : Action A)
      → Keeps (Within pid n) act
      → Takes (Within pid n) (Within pid (n + 0)) act
  kept n act = Takes-Keeps (more n 0) act

  dispatch-Takes :
      (n : ℕ) (m : Inbound)
      → makes_forward pid m ≡ false
      → Takes (Within pid n) (Within pid (n + bit (frees pid m))) (dispatch env m)
  unfolding dispatch
  dispatch-Takes n (Inbound.manager_connect m) h = kept n _ (connect_manager-Keeps pid n env m)
  dispatch-Takes n (Inbound.forward_connect m) h = kept n _ (connect_forward-Keeps pid n env m h)
  dispatch-Takes n (Inbound.traffic_connect m) h = kept n _ (connect_monitor-Keeps pid n env m)
  dispatch-Takes n (Inbound.client_connect m) h = kept n _ (connect_client-Keeps pid n env m)
  dispatch-Takes n (Inbound.manager_ready process success) h =
      manager_ready-Takes pid n env process success
  dispatch-Takes n (Inbound.traffic_disconnect process) h =
      kept n _ (disconnect_monitor-Keeps pid n env process)
  dispatch-Takes n (Inbound.dead_registration process) h =
      kept n _ (register_listener-Keeps pid n process)
  dispatch-Takes n (Inbound.dead_event death) h = kept n _ (dead_event-Keeps pid n env death)
  dispatch-Takes n (Inbound.process_lookup m) h = kept n _ (lookup_process-Keeps pid n env m)
  dispatch-Takes n (Inbound.connect m services) h = connect_server-Takes pid n env m services
  dispatch-Takes n (Inbound.advertise process services) h =
      kept n _ (advertise-Keeps pid n env process services)
  dispatch-Takes n (Inbound.unadvertise process services) h =
      kept n _ (unadvertise-Keeps pid n env process services)
  dispatch-Takes n (Inbound.service_lookup m) h = kept n _ (service_lookup-Keeps pid n env m)
  dispatch-Takes n (Inbound.service_ack k) h = ack-Takes pid n env k

  dispatch_all-Takes :
      (n : ℕ) (ms : List Inbound)
      → All (λ m. makes_forward pid m ≡ false) ms
      → Takes (Within pid n) (Within pid (n + how_many (frees pid) ms)) (dispatch_all env ms)
  unfolding dispatch_all how_many
  dispatch_all-Takes n [] h = kept n _ (Keeps-pure tt)
  dispatch_all-Takes n (m ∷ ms) h =
      let one = dispatch-Takes n m h.0 in
      let rest = dispatch_all-Takes (n + bit (frees pid m)) ms h.1 in
      let total : n + bit (frees pid m) + how_many (frees pid) ms
          ≡ n + how_many (frees pid) (m ∷ ms) =
        ground arith in
      subst (λ k. Takes (Within pid n) (Within pid k) (dispatch_all env (m ∷ ms))) total
        (Takes-seq _ _ (more (n + bit (frees pid m)) (how_many (frees pid) ms)) one λ _. rest)

-- Through any run of messages, with any outcome of the sends and also if an exception ends it, an
-- instance is handed out at most as often as it was idle at the start or a message of the run came
-- that frees it: an acknowledgement, a connect or a ready of its process. The instances are known
-- under their process identifiers, and the instance is not and does not become the forward cache.
pub handed_out-frees :
    (env : Environment) (pid : ℕ) (ms : List Inbound) (s : State)
    → IsKeyed s.instances
    → (s.forward.pid == pid) ≡ false
    → All (λ m. makes_forward pid m ≡ false) ms
    → given pid (dispatch_all env ms s).1.events
      ≤ given pid s.events + idle_count pid s.instances + how_many (frees pid) ms
handed_out-frees env pid ms s keyed other calm =
    let n : ℕ = given pid s.events + idle_count pid s.instances in
    let end =
      (dispatch_all-Takes env pid n ms calm).at s
        (record { keyed = keyed; other = other; bound = omega arith }) in
    let bound = end.bound in omega arith
