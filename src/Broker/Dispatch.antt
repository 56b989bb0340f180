-- ===== src/Broker/Dispatch.antt =====
-- The messages that the broker handles, and `broker::handler` of broker/source/handle.cpp.
use casual.Base.{ℕ, Bool, List, [], ◌∷◌}
use casual.Ipc.{Process}
use casual.Broker.Message.{Information, ConnectRequest, LookupRequest, ProcessRequest, Death}
use casual.Broker.Monad.{Action, Environment, pure, ◌>>◌}
use casual.Broker.Handle.Connect
use casual.Broker.Handle.Connect.{
  lookup_process, connect_server, connect_monitor, disconnect_monitor, connect_manager,
  connect_client, connect_forward,
}
use casual.Broker.Handle.Service
use casual.Broker.Handle.Service.{ack}
use casual.Broker.Handle.Dead
use casual.Broker.Handle.Dead.{register_listener}

pub data Inbound : Type 0 where
  manager_connect forward_connect traffic_connect client_connect : ConnectRequest → Inbound
  manager_ready : Process → Bool → Inbound
  traffic_disconnect dead_registration : Process → Inbound
  dead_event : Death → Inbound
  process_lookup : ProcessRequest → Inbound
  connect : ConnectRequest → List Information → Inbound
  advertise unadvertise : Process → List Information → Inbound
  service_lookup : LookupRequest → Inbound
  service_ack : ℕ → Inbound

module _ (env : Environment) where
  unfoldable pub dispatch : Inbound → Action (Unit {0})
  dispatch (Inbound.manager_connect m) = connect_manager env m
  dispatch (Inbound.forward_connect m) = connect_forward env m
  dispatch (Inbound.traffic_connect m) = connect_monitor env m
  dispatch (Inbound.client_connect m) = connect_client env m
  dispatch (Inbound.manager_ready process success) = Connect.manager_ready env process success
  dispatch (Inbound.traffic_disconnect process) = disconnect_monitor env process
  dispatch (Inbound.dead_registration process) = register_listener process
  dispatch (Inbound.dead_event death) = Dead.dead_event env death
  dispatch (Inbound.process_lookup m) = lookup_process env m
  dispatch (Inbound.connect m services) = connect_server env m services
  dispatch (Inbound.advertise process services) = Service.advertise env process services
  dispatch (Inbound.unadvertise process services) = Service.unadvertise env process services
  dispatch (Inbound.service_lookup m) = Service.service_lookup env m
  dispatch (Inbound.service_ack pid) = ack env pid

  -- Messages are handled one after the other, until one ends with an exception.
  unfoldable pub dispatch_all : List Inbound → Action (Unit {0})
  dispatch_all [] = pure tt
  dispatch_all (m ∷ ms) = do dispatch m; dispatch_all ms
