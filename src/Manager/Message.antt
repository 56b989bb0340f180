-- ===== src/Manager/Message.antt =====
-- common/message/transaction.h: what the transaction manager receives and sends.
-- A correlation is an opaque number, 0 when it is null. The `execution` id, which is only passed
-- on for logging, and the members `resource` and `statistics` of the replies that the manager
-- itself sends, which it leaves at their defaults, are left out.
use casual.Base.{ℕ, List}
use casual.Base.Int.{ℤ}
use casual.Manager.Model.{Process, Trid}

-- `commit::Reply::Stage` and `rollback::Reply::Stage`.
pub data CommitStage : Type 0 where
  prepare commit error : CommitStage

pub data RollbackStage : Type 0 where
  rollback error : RollbackStage

-- The type of a `basic_reply`: to the one who commits or rolls back, or, from this manager as a
-- resource, to the manager of another domain.
pub data ReplyKind : Type 0 where
  commit_reply : CommitStage → ReplyKind
  rollback_reply : RollbackStage → ReplyKind
  resource_prepare_reply : ReplyKind
  resource_commit_reply : ReplyKind
  resource_rollback_reply : ReplyKind

pub record Reply : Type 0 where
  pub kind : ReplyKind
  pub correlation : ℕ
  pub process : Process
  pub trid : Trid
  pub state : ℤ

-- The type of a `resource::basic_request`.
pub data RequestKind : Type 0 where
  prepare_request : RequestKind
  commit_request : RequestKind
  rollback_request : RequestKind
  domain_prepare_request : RequestKind
  domain_commit_request : RequestKind
  domain_rollback_request : RequestKind

pub record Request : Type 0 where
  pub kind : RequestKind
  pub process : Process
  pub trid : Trid
  pub flags : ℕ

-- `communication::message::Complete`, of the messages that the manager sends.
pub data Message : Type 0 where
  reply : Reply → Message
  request : Request → Message
  ready : Process → Message

-- `commit::Request` and `rollback::Request`, and `resource::Involved`, which sets no correlation.
pub record UserRequest : Type 0 where
  pub correlation : ℕ
  pub process : Process
  pub trid : Trid
  pub resources : List ℕ

-- `resource::basic_request` as it is received from another domain's manager.
pub record DomainRequest : Type 0 where
  pub correlation : ℕ
  pub process : Process
  pub trid : Trid
  pub flags : ℕ

-- `resource::basic_reply` of a resource proxy; its statistics are two time points.
pub record ResourceReply : Type 0 where
  pub process : Process
  pub trid : Trid
  pub state : ℤ
  pub resource : ℕ
  pub start : ℤ
  pub end : ℤ

-- `resource::connect::Reply`.
pub record ConnectReply : Type 0 where
  pub process : Process
  pub resource : ℕ
  pub state : ℤ

-- `TMNOFLAGS` and `TMONEPHASE`.
abbrev pub tm_no_flags : ℕ
tm_no_flags = 0

abbrev pub tm_one_phase : ℕ
tm_one_phase = 0x40000000
