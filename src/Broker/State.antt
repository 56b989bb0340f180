-- ===== src/Broker/State.antt =====
-- The state of broker/state.h. What it refers to by reference is a key of the map that holds it.
use casual.Base.{ℕ, Bool, List, [], ◌∷◌, ◌++◌, ◌==◌, ltb, update_at, sort_by, unique_by}
use casual.Base.Int.{ℤ}
use casual.Ipc.{Process}
use casual.Broker.Message.{
  Information, Resource, Message, LookupRequest, ProcessRequest, PendingMessage,
}

pub record Group : Type 0 where
  pub id : ℕ
  pub name : ℕ
  pub resources : List Resource
  pub dependencies : List ℕ

-- `state::Executable`, without what is only handed to a new process.
pub record Executable : Type 0 where
  pub id : ℕ
  pub path : ℕ
  pub instances : List ℕ
  pub memberships : List ℕ
  pub configured_instances : ℕ
  pub restart : Bool
  pub deaths : ℕ

-- `state::Server` and what it inherits.
pub record Server : Type 0 where
  pub executable : Executable
  pub restrictions : List ℕ
  pub invoked : ℕ

-- `Server::Instance::State`.
pub data InstanceState : Type 0 where
  booted idle busy shutdown : InstanceState

-- `Server::Instance`; `services` are names.
pub record Instance : Type 0 where
  pub process : Process
  pub invoked : ℕ
  pub last : ℤ
  pub server : ℕ
  pub services : List ℕ
  pub state : InstanceState

-- `state::Service`; `instances` are process identifiers.
pub record Service : Type 0 where
  pub information : Information
  pub lookedup : ℕ
  pub instances : List ℕ

pub data Mode : Type 0 where
  boot running shutdown : Mode

-- What the broker does to the world outside its state.
pub data Event : Type 0 where
  sent refused lost : ℕ → Message → Event
  spawned terminated removed : ℕ → Event

-- `State`, with what has happened, the last first.
pub record State : Type 0 where
  pub servers : List (ℕ × Server)
  pub instances : List (ℕ × Instance)
  pub services : List (ℕ × Service)
  pub executables : List (ℕ × Executable)
  pub groups : List Group
  pub singeltons : List (ℕ × Process)
  pub requests : List LookupRequest
  pub replies : List PendingMessage
  pub process_lookup : List ProcessRequest
  pub timeout : ℕ
  pub monitors : List ℕ
  pub transaction_manager : ℕ
  pub forward : Process
  pub listeners : List Process
  pub mode : Mode
  pub events : List Event

pub data Exception : Type 0 where
  missing unavailable terminate invalid_argument : Exception

abbrev pub update_instance : ℕ → (Instance → Instance) → State → State
update_instance pid f s = record s { instances = update_at pid f s.instances }

abbrev pub update_server : ℕ → (Server → Server) → State → State
update_server id f s = record s { servers = update_at id f s.servers }

abbrev pub update_service : ℕ → (Service → Service) → State → State
update_service name f s = record s { services = update_at name f s.services }

-- `range::trim( xs, range::unique( range::sort( xs)))`, after an element is pushed.
unfoldable pub push_unique : ℕ → List ℕ → List ℕ
push_unique x xs = unique_by ◌==◌ (sort_by ltb (xs ++ x ∷ []))

-- `alterState`; the clock is read by who calls it.
abbrev pub alter_state : InstanceState → ℤ → Instance → Instance
alter_state state now i = record i { state = state; last = now }
