-- ===== src/Broker/Message.antt =====
-- The messages that the broker reads and sends, of common/message. Names, identifiers and
-- correlations are numbers, and the null correlation is 0.
use casual.Base.{ℕ, Bool, Option, List}
use casual.Ipc.{Process}

-- `common::message::Service`.
pub record Information : Type 0 where
  pub name : ℕ
  pub type : ℕ
  pub timeout : ℕ
  pub traffic_monitors : List ℕ
  pub transaction : ℕ

-- `state::Group::Resource`, without its key, openinfo and closeinfo.
pub record Resource : Type 0 where
  pub id : ℕ
  pub instances : ℕ

-- `basic_reply::Directive`.
pub data Directive : Type 0 where
  start singleton shutdown : Directive

-- `service::lookup::Reply::State`.
pub data Availability : Type 0 where
  absent busy idle : Availability

-- `process::lifetime::Exit::Reason`.
pub data Reason : Type 0 where
  core exited stopped continued signaled unknown : Reason

pub record Death : Type 0 where
  pub pid : ℕ
  pub reason : Reason

-- A handle that was never set.
abbrev pub nobody : Process
nobody = record { pid = 0; queue = 0 }

-- What is sent: a reply to a lookup of a service, to a connect, to a client of transactions, to a
-- lookup of a process, and the other messages.
pub data Message : Type 0 where
  lookup_reply : ℕ → Information → Process → Availability → Message
  connect_reply : ℕ → Directive → Message
  client_reply : ℕ → Directive → List Resource → Message
  process_reply : ℕ → ℕ → Process → Message
  configuration : ℕ → List Resource → Message
  dead_process : Death → Message
  shutdown_request : Message

-- The parts of a connect request that `connect` reads; the null identification is none.
pub record ConnectRequest : Type 0 where
  pub correlation : ℕ
  pub process : Process
  pub identification : Option ℕ

-- `service::lookup::Request::Context`.
pub data Context : Type 0 where
  regular no_reply forward : Context

pub record LookupRequest : Type 0 where
  pub correlation : ℕ
  pub requested : ℕ
  pub process : Process
  pub context : Context

-- `lookup::process::Request`.
pub record ProcessRequest : Type 0 where
  pub correlation : ℕ
  pub process : Process
  pub identification : ℕ
  pub is_direct : Bool

-- `pending::Message`: a message that is left to be sent to all of the targets, or to the first that
-- takes it.
pub record PendingMessage : Type 0 where
  pub message : Message
  pub targets : List ℕ
  pub to_all : Bool
